-- ===== src/Manager.antt =====
-- src/manager.c: the volume groups of the daemon, and when they are looked up.
pub mod Mirror
pub mod Updates
pub mod Tracking
pub mod Create
use udisks_lvm.Base.{
  ℕ, Bool, true, false, not, Option, none, some, List, [], ◌∷◌, ◌++◌, Bytes, str_equal,
  if◌then◌else◌,
}
use udisks_lvm.Base.Table.{Table, lookup, insert, keep}
use udisks_lvm.Bus.{Action, Thing, unpublish}
use udisks_lvm.Bus
use udisks_lvm.VolumeGroup.{VolumeGroup}
use udisks_lvm.VolumeGroup
use udisks_lvm.VolumeGroup.Update.{dispose_group}

-- The state that `lvm_update_from_variant` changes, with what it unpublishes and the groups that it
-- updates by `ul_volume_group_update`, which starts the helper for them.
pub record Manager : Type 0 where
  pub name_to_volume_group : Table VolumeGroup
  pub actions : List Action
  pub updates : List Bytes

-- The report of `udisks-lvm-helper list`, or a `GError`, which is only logged.
pub data Groups : Type 0 where
  listed : List Bytes → Groups
  failure : Bytes → Groups

-- The loop that sets `found`.
unfoldable pub contains : List Bytes → Bytes → Bool
contains [] name = false
contains (vg ∷ vgs) name = if str_equal vg name then true else contains vgs name

unfoldable pub dispose_obsolete : List Bytes → Table VolumeGroup → List Action
unfolding contains
dispose_obsolete names [] = []
dispose_obsolete names ((name, group) ∷ m) =
    let rest = dispose_obsolete names m in
    if contains names name then rest else (dispose_group group).1 ++ rest

unfoldable pub with_group : Option VolumeGroup → Bytes → Table VolumeGroup → Table VolumeGroup
with_group none name groups = insert name (VolumeGroup.new name) groups
with_group (some group) name groups = groups

unfoldable pub add_groups : List Bytes → Manager → Manager
unfolding with_group
add_groups [] self = self
add_groups (name ∷ names) self =
    let groups = self.name_to_volume_group in
    add_groups names (record self {
      name_to_volume_group = with_group (lookup name groups) name groups;
      updates = self.updates ++ name ∷ [];
    })

-- `lvm_update_from_variant`
unfoldable pub update_from_variant : Groups → Manager → Manager
unfolding add_groups dispose_obsolete
update_from_variant (failure message) self = self
update_from_variant (listed names) self =
    let groups = self.name_to_volume_group in
    add_groups names (record self {
      name_to_volume_group = keep (contains names) groups;
      actions = self.actions ++ dispose_obsolete names groups;
    })
