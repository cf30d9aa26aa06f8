-- ===== src/PhysicalVolume.antt =====
-- src/physicalvolume.c: the PhysicalVolumeBlock interface of a block.
use udisks_lvm.Base.{ℕ, Option, none, some, Bytes}
use udisks_lvm.Variant.{Dict, lookup_uint64}

pub record PhysicalVolume : Type 0 where
  pub volume_group : Option Bytes
  pub size : ℕ
  pub free_size : ℕ

-- `ul_physical_volume_new`: the properties of a new skeleton.
abbrev pub new : PhysicalVolume
new = record { volume_group = none; size = 0; free_size = 0 }

abbrev pub set_if : Option ℕ → ℕ → ℕ
set_if none old = old
set_if (some num) old = num

-- `ul_physical_volume_update`, with the object path of the group.
unfoldable pub update : PhysicalVolume → Option Bytes → Dict → PhysicalVolume
update self group_path info = record {
  volume_group = group_path;
  size = set_if (lookup_uint64 info "size") self.size;
  free_size = set_if (lookup_uint64 info "free-size") self.free_size;
}
