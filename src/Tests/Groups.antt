-- ===== src/Tests/Groups.antt =====
-- The groups, their reports and their polling.
use udisks_lvm.Base.{
  ℕ, ◌+◌, none, some, List, [], ◌∷◌, ◌++◌, Bytes, codes, ◌≡◌, ◌≢◌, ◌⊎◌, refl, arith, if◌then◌else◌,
}
use udisks_lvm.Base.Table.{Table, lookup}
use udisks_lvm.Block.Balance.{Update, lv, pv, run, replay, view, run-replay}
use udisks_lvm.Bus.{completed}
use udisks_lvm.Manager.{Manager, listed, contains, update_from_variant}
use udisks_lvm.Manager.Tracking.{group_or_new, update_from_variant_listed}
use udisks_lvm.Tests.{disk, report_dict, group, world}
use udisks_lvm.Variant.{empty, lookup_dicts}
use udisks_lvm.VolumeGroup.Blocks.{update_block}
use udisks_lvm.VolumeGroup.Blocks.Records.{recorded_group, Linked, update_block_recorded}
use udisks_lvm.Variant.{Dict}
use udisks_lvm.VolumeGroup.Poll.{
  Poller, poll, handle_poll, poll_in_main, poll_timeout, Reachable, start, next, request, idle,
}
use udisks_lvm.VolumeGroup.Poll.Invariant.{Quiet, Reachable-Quiet}
use udisks_lvm.VolumeGroup.Poll.Service.{poll_in_main_served}
use udisks_lvm.VolumeGroup.Update.{infos_of, update_volumes}
use udisks_lvm.VolumeGroup.Update.Tracking.{is_some, shown, update_volumes-shown}
use udisks_lvm.VolumeGroup

update_volumes-shown_example :
    is_some
      (lookup (codes "home") (update_volumes (disk ∷ []) report_dict [] group).0.logical_volumes)
    ≡ VolumeGroup.Update.contains (shown (infos_of (lookup_dicts report_dict "lvs"))) (codes "home")
update_volumes-shown_example = update_volumes-shown (disk ∷ []) report_dict [] group (codes "home")

abbrev manager : Manager
manager = record { name_to_volume_group = (codes "vg", group) ∷ []; actions = []; updates = [] }

abbrev names : List Bytes
names = codes "vg" ∷ codes "data" ∷ []

update_from_variant_listed_example :
    ((n : Bytes)
      → lookup n (update_from_variant (listed names) manager).name_to_volume_group ≡ (
          if contains names n
          then some (group_or_new (lookup n manager.name_to_volume_group) n)
          else none))
    × ((update_from_variant (listed names) manager).updates ≡ [] ++ names)
update_from_variant_listed_example = update_from_variant_listed names manager

abbrev poller : Poller
poller = record { world = world; idles = 0; timers = []; started = []; interrupted = [] }

poller-Quiet : Quiet poller
unfolding VolumeGroup.new
poller-Quiet = record { one_timer = refl; remembered = λ e. cc }

-- a request, and its callback
abbrev polled : Poller
polled = poll_in_main 5 9 poller

poller-polled : Reachable poller polled
unfolding poll
poller-polled = next (next start (request poller)) (idle (poll poller) 0 5 9 refl (omega arith))

Reachable-Quiet_example : Quiet polled
Reachable-Quiet_example = Reachable-Quiet poller polled poller-Quiet poller-polled

poll_in_main_served_example :
    ((handle_poll poller).1 ≡ completed)
    × ((handle_poll poller).0 ≡ record poller { idles = 0 + 1 })
    × (((poller.timers ≡ []) × ((poll_in_main 5 9 poller).started ≡ 9 ∷ []))
        ⊎ ((id : ℕ) × (id ≢ 0)
            × (poller.timers ≡ id ∷ [])
            × ((poll_in_main 5 9 poller).started ≡ [])
            × ((timer' pid' : ℕ)
                → (poll_timeout timer' pid'
                    (record (poll_in_main 5 9 poller) { timers = [] })).started
                  ≡ pid' ∷ [])))
poll_in_main_served_example = poll_in_main_served 5 9 poller poller-Quiet

abbrev updates : List Update
updates =
    pv (some (some (codes "/vg"), empty))
    ∷ pv (some (some (codes "/vg"), empty))
    ∷ lv (some none)
    ∷ pv none
    ∷ []

run-replay_example : replay (view disk) (run disk updates).1 ≡ some (view (run disk updates).0)
run-replay_example = run-replay disk updates

-- The table has the disk by its symbolic link.
abbrev pvs : Table Dict
pvs = (codes "/dev/disk/by-id/a", empty) ∷ []

update_block_recorded_example :
    Linked
      (some (codes "/vg"))
      pvs
      disk
      (recorded_group (update_block (codes "vg") (some (codes "/vg")) [] pvs disk).0)
update_block_recorded_example = update_block_recorded (codes "vg") (some (codes "/vg")) [] pvs disk
