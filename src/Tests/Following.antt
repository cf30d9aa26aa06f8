-- ===== src/Tests/Following.antt =====
-- The daemon follows the system, at concrete inputs.
use udisks_lvm.Base.{
  ◌+◌, none, some, List, [], ◌∷◌, Bytes, codes, str_equal, strcmp0_eq, ◌≡◌, refl, length, arith,
}
use udisks_lvm.Base.Table.{lookup, keep, insert}
use udisks_lvm.Manager.{listed, update_from_variant}
use udisks_lvm.Block.{UdevDevice}
use udisks_lvm.Manager.Updates.{
  concerns_lvm, is_recorded_as_physical_volume, delayed_lvm_update, handle_block_uevent_for_lvm,
}
use udisks_lvm.System.{System, listing, Event, uevent, timeout, ended, polled, handle, run}
use udisks_lvm.System.Addresses.{Addressed}
use udisks_lvm.System.Converges.{Followed, run-Followed}
use udisks_lvm.System.Follows.{truth}
use udisks_lvm.System.Settles.{settles, cost, drain}
use udisks_lvm.System.Start.{constructed, constructed-Followed}
use udisks_lvm.System.Sound.{AllSound, run-Sound}
use udisks_lvm.Tests.{disk, report_dict, group, objects}
use udisks_lvm.Variant.{Dict}
use udisks_lvm.VolumeGroup
use udisks_lvm.VolumeGroup.Refresh.{info}
use udisks_lvm.VolumeGroup.Refresh as Refresh
use udisks_lvm.VolumeGroup.Refresh.Invariant.{new-Inv}

-- A listing runs, the group `vg` is there, and a timeout is pending.
abbrev system : System
system = record {
  delay = record { lvm_delayed_update_id = 7; timers = 7 ∷ []; updates = 1 };
  groups = (codes "vg", group) ∷ [];
  addresses = (codes "vg", 1) ∷ [];
  gone = [];
  fresh = 2;
  helpers = listing ∷ [];
  blocks = disk ∷ [];
  jobs = [];
  actions = [];
}

abbrev names : List Bytes
names = codes "data" ∷ []

abbrev dict_of : Bytes → Dict
dict_of name = report_dict

-- The old listing still has the group `vg`, which is gone when its helper ends.
abbrev events : List Event
events =
    timeout
    ∷ ended 0 (record {
      groups = listed (codes "vg" ∷ []);
      report = λ name. Refresh.failure (codes "killed");
    })
    ∷ polled (codes "vg") 1 4 (info report_dict)
    ∷ uevent 8 objects (record { dm_vg_name = none; dm_lv_name = none; id_fs_type = none }) none
    ∷ ended 0 (truth names dict_of)
    ∷ ended 1 (truth names dict_of)
    ∷ ended 0 (truth names dict_of)
    ∷ []

system-Addressed : Addressed system
unfolding lookup
system-Addressed n = ground arith

run-Followed_example : Followed names dict_of (run events system)
unfolding run handle lookup update_from_variant keep str_equal insert handle_block_uevent_for_lvm
    strcmp0_eq delayed_lvm_update
run-Followed_example =
    run-Followed names dict_of events system system-Addressed refl refl
      (omega arith, (omega arith, (refl, (refl, (refl, tt))))) refl refl

settles_example :
    let t =
      run
        (timeout ∷ drain names dict_of (cost names dict_of system.helpers + (1 + length names)))
        system in
    (t.helpers ≡ []) × (t.delay.timers ≡ []) × Followed names dict_of t
settles_example = settles names dict_of system system-Addressed refl refl

run-Sound_example : AllSound (run events system).groups
unfolding VolumeGroup.new
run-Sound_example =
    run-Sound events system (record { named = refl; inv = new-Inv (codes "vg") }, tt)

-- A disk, and a logical volume.
abbrev plain : UdevDevice
plain = record { dm_vg_name = none; dm_lv_name = none; id_fs_type = none }

abbrev logical : UdevDevice
logical = record {
  dm_vg_name = some (codes "data");
  dm_lv_name = some (codes "home");
  id_fs_type = none;
}

abbrev before : List Event
before = uevent 3 objects plain none ∷ timeout ∷ ended 0 (truth names dict_of) ∷ []

constructed-Followed_example :
    let s = run before (constructed (disk ∷ [])) in
    let t =
      run
        (timeout ∷ drain names dict_of (1 + length names))
        (handle (uevent 8 objects logical none) s) in
    ((s.groups ≡ []) × (s.helpers ≡ []) × (s.delay.timers ≡ []))
    × ((t.helpers ≡ []) × (t.delay.timers ≡ []) × Followed names dict_of t)
unfolding concerns_lvm strcmp0_eq is_recorded_as_physical_volume
constructed-Followed_example =
    constructed-Followed 8 objects logical none refl (omega arith) names dict_of (disk ∷ []) before
      (refl, tt)
