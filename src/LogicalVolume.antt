-- ===== src/LogicalVolume.antt =====
-- src/logicalvolume.c: a logical volume and what the update of its properties does.
pub mod Update
pub mod Handlers
use udisks_lvm.Base.{ℕ, Bool, true, Option, none, some, Bytes}

-- A group is referred to by its name. The two ratios are in units of 1 / 100000000, which is how the
-- helper reports percentages. `object_path` is the path at which the interface is exported.
pub record LogicalVolume : Type 0 where
  pub name : Bytes
  pub needs_publish : Bool
  pub volume_group : Option Bytes
  pub object_path : Option Bytes
  pub display_name : Option Bytes
  pub uuid : Option Bytes
  pub size : ℕ
  pub type_ : Option Bytes
  pub data_allocated_ratio : ℕ
  pub metadata_allocated_ratio : ℕ
  pub thin_pool : Option Bytes
  pub origin : Option Bytes

-- `ul_logical_volume_new` and `ul_logical_volume_init`: a skeleton with its properties not set.
unfoldable pub new : Bytes → Bytes → LogicalVolume
new group name = record {
  name = name;
  needs_publish = true;
  volume_group = some group;
  object_path = none;
  display_name = none;
  uuid = none;
  size = 0;
  type_ = none;
  data_allocated_ratio = 0;
  metadata_allocated_ratio = 0;
  thin_pool = none;
  origin = none;
}
