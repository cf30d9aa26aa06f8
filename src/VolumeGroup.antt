-- ===== src/VolumeGroup.antt =====
-- src/volumegroup.c: the state of a volume group.
pub mod Visible
pub mod Update
pub mod Blocks
pub mod Refresh
pub mod Poll
pub mod Handlers
use udisks_lvm.Base.{ℕ, Bool, true, false, Option, none, some, List, [], Bytes}
use udisks_lvm.Base.Table.{Table, lookup}
use udisks_lvm.LogicalVolume.{LogicalVolume}

-- The private fields of `UlVolumeGroup`, the properties of its skeleton, and the path at which it is
-- exported. 0 stands for no process and no timeout.
pub record VolumeGroup : Type 0 where
  pub name : Bytes
  pub need_publish : Bool
  pub logical_volumes : Table LogicalVolume
  pub poll_pid : ℕ
  pub poll_timeout_id : ℕ
  pub poll_requested : Bool
  pub object_path : Option Bytes
  pub display_name : Option Bytes
  pub uuid : Option Bytes
  pub size : ℕ
  pub free_size : ℕ
  pub extent_size : ℕ
  pub needs_polling : Bool

-- `ul_volume_group_new` and `ul_volume_group_init`
unfoldable pub new : Bytes → VolumeGroup
new name = record {
  name = name;
  need_publish = true;
  logical_volumes = [];
  poll_pid = 0;
  poll_timeout_id = 0;
  poll_requested = false;
  object_path = none;
  display_name = none;
  uuid = none;
  size = 0;
  free_size = 0;
  extent_size = 0;
  needs_polling = false;
}

-- `ul_volume_group_find_logical_volume`
unfoldable pub find_logical_volume : VolumeGroup → Bytes → Option LogicalVolume
unfolding lookup
find_logical_volume self name = lookup name self.logical_volumes
