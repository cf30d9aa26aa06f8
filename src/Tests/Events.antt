-- ===== src/Tests/Events.antt =====
-- Sequences of events.
use udisks_lvm.Base.{
  ℕ, true, false, Option, none, some, List, [], ◌∷◌, ◌++◌, Bytes, codes, str_equal, ◌==◌, ◌≡◌, ◌≢◌,
  refl, arith, if◌then◌else◌,
}
use udisks_lvm.Block.{UdevDevice}
use udisks_lvm.Completion.{
  Waited, group_named, volume_group, logical_volume, Event, published, job_completed, waiting,
  misused, run, matches,
}
use udisks_lvm.Completion.Calls.{
  Call, create_snapshot, run_call, wait_of, prefix_of, run_call-answer,
}
use udisks_lvm.Completion.Replies.{late_failure, answer}
use udisks_lvm.Daemon.Lifecycle.{Daemon, on_client_disappeared}
use udisks_lvm.Daemon.Lifecycle.Finish.{finishes_once, complete_jobs, gone}
use udisks_lvm.Manager.Updates.{Delay}

abbrev wait : Waited
wait = group_named (codes "vg")

abbrev prefix : Bytes
prefix = codes "Error creating volume group: "

abbrev other_and_own : List Event
other_and_own =
    published (volume_group (codes "other") none)
    ∷ published (volume_group (codes "vg") (some (codes "/vg")))
    ∷ []

abbrev snapshot : Call
snapshot = create_snapshot (codes "home2") 1

-- The group at address 2 has a volume of the same name.
abbrev events : List Event
events =
    published (logical_volume (codes "home2") 2 (some (codes "/other/home2")))
    ∷ job_completed true []
    ∷ published (logical_volume (codes "home2") 1 (some (codes "/vg/home2")))
    ∷ []

run_call-answer_example :
    (run_call snapshot events (waiting, [])).1
    ≡ answer (wait_of snapshot) (prefix_of snapshot) events
run_call-answer_example = run_call-answer snapshot events

answered : answer wait prefix other_and_own ≢ []
unfolding answer matches str_equal
answered e = cc

late_failure_example :
    (run wait prefix (other_and_own ++ job_completed false [] ∷ []) (waiting, [])).0 ≡ misused
late_failure_example = late_failure wait prefix other_and_own [] answered

abbrev logical : UdevDevice
logical = record {
  dm_vg_name = some (codes "vg");
  dm_lv_name = some (codes "home");
  id_fs_type = none;
}

abbrev quiet : Delay
quiet = record { lvm_delayed_update_id = 0; timers = []; updates = 0 }

abbrev uevents : List (ℕ × UdevDevice × Option Bytes)
uevents = (7, logical, none) ∷ (8, logical, none) ∷ []

abbrev serving : Daemon
serving = record {
  persist = false;
  name_owner_id = 1;
  name_owned = true;
  num_clients = 1;
  num_jobs = 2;
  finished = 0;
}

finishes_once_example :
    (d' : Daemon) × (on_client_disappeared serving ≡ some d')
    × (d'.name_owned ≡ false)
    × (d'.finished ≡ (if 2 == 0 then 1 else 0))
    × (complete_jobs 2 (some d') ≡ some (gone 0 1))
finishes_once_example = finishes_once serving refl (omega arith) refl
