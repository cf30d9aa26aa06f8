-- ===== src/Manager/Updates.antt =====
-- src/manager.c: which uevents have the groups looked up, 100 ms later and once for all of them that
-- come in meanwhile.
pub mod Timer
use udisks_lvm.Base.{
  ℕ, ◌+◌, ltb, Bool, true, false, ◌||◌, Option, none, some, List, [], ◌∷◌, ◌++◌, Bytes, codes,
  strcmp0_eq, ◌==◌, if◌then◌else◌, ◌≡◌, ◌≢◌, refl, sym, ap, ◌∙◌, inl, inr, arith, All, Bool-cases,
}
use udisks_lvm.Base.Table.{Table}
use udisks_lvm.Block.{Block, UdevDevice}
use udisks_lvm.Daemon.{Object, block, skeleton, Found, object, interface, invalid, find_thing}

-- The pending timeouts for `delayed_lvm_update`, and how often `lvm_update` has been called.
pub record Delay : Type 0 where
  pub lvm_delayed_update_id : ℕ
  pub timers : List ℕ
  pub updates : ℕ

unfoldable pub lvm_update : Delay → Delay
lvm_update self = record self { updates = self.updates + 1 }

unfoldable pub delayed_lvm_update : Delay → Delay
unfolding lvm_update
delayed_lvm_update self = record (lvm_update self) { lvm_delayed_update_id = 0 }

-- What g_timeout_add returns is an argument.
unfoldable pub trigger_delayed_lvm_update : ℕ → Delay → Delay
trigger_delayed_lvm_update id self =
    if ltb 0 self.lvm_delayed_update_id
    then self
    else record self { lvm_delayed_update_id = id; timers = id ∷ self.timers }

-- g_source_remove
unfoldable pub remove_source : ℕ → List ℕ → List ℕ
remove_source id [] = []
remove_source id (t ∷ ts) = if t == id then ts else t ∷ remove_source id ts

unfoldable pub do_delayed_lvm_update_now : Delay → Delay
unfolding lvm_update remove_source
do_delayed_lvm_update_now self =
    if ltb 0 self.lvm_delayed_update_id
    then lvm_update (record self {
      lvm_delayed_update_id = 0;
      timers = remove_source self.lvm_delayed_update_id self.timers;
    })
    else self

unfoldable pub is_logical_volume : Option Bytes → Bool
is_logical_volume none = false
is_logical_volume (some []) = false
is_logical_volume (some (c ∷ s)) = true

unfoldable pub has_physical_volume_label : UdevDevice → Bool
has_physical_volume_label device = strcmp0_eq device.id_fs_type (some (codes "LVM2_member"))

unfoldable pub has_physical_volume_block : Option Found → Bool
has_physical_volume_block (some (object (block b))) = elim b.iface_physical_volume [
  | none ↦ false
  | some pv ↦ true
]
has_physical_volume_block _ = false

-- `find_block`, with the object path that udisks_client_get_block_for_dev finds for the device.
unfoldable pub find_block : Table Object → Option Bytes → Option Found
find_block objects none = none
find_block objects (some path) = find_thing objects path invalid

unfoldable pub is_recorded_as_physical_volume : Table Object → Option Bytes → Bool
unfolding has_physical_volume_block find_block
is_recorded_as_physical_volume objects real_block =
    has_physical_volume_block (find_block objects real_block)

-- The test of `handle_block_uevent_for_lvm`.
unfoldable pub concerns_lvm : Table Object → UdevDevice → Option Bytes → Bool
unfolding is_logical_volume has_physical_volume_label is_recorded_as_physical_volume
concerns_lvm objects device real_block =
    is_logical_volume device.dm_vg_name
    || has_physical_volume_label device
    || is_recorded_as_physical_volume objects real_block

unfoldable pub handle_block_uevent_for_lvm :
    ℕ → Table Object → UdevDevice → Option Bytes → Delay → Delay
unfolding concerns_lvm trigger_delayed_lvm_update
handle_block_uevent_for_lvm id objects device real_block self =
    if concerns_lvm objects device real_block then trigger_delayed_lvm_update id self else self
