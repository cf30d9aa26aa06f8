-- ===== src/Tests/Objects.antt =====
-- What the daemon exports, and what it reads from the helper.
use udisks_lvm.Base.{
  ◌⊎◌, true, false, none, some, List, [], ◌∷◌, ◌++◌, codes, ◌≡◌, refl, arith, map, flat_map,
}
use udisks_lvm.Base.Table.{lookup}
use udisks_lvm.Daemon.JobObjects.{State, launched_spawned, launched_threaded, completed, run}
use udisks_lvm.Daemon.JobObjects.Exported.{run-Tracked, Tracked, start}
use udisks_lvm.Daemon.JobObjects
use udisks_lvm.Daemon.Lifecycle.{Daemon, is_idle}
use udisks_lvm.Daemon.Reader.{Event, output_ready, child_exited, spawn_pid, spawn_for_variant}
use udisks_lvm.Daemon.Reader
use udisks_lvm.Daemon.Reader.Collected.{run-expected, expected}
use udisks_lvm.Manager.Mirror.{
  Proxy, ul_manager_init, Signal, object_added, interface_added, object_removed,
}
use udisks_lvm.Manager.Mirror
use udisks_lvm.Manager.Mirror.Latest.{mirror-latest, latest, changes, comes}
use udisks_lvm.Tests.{objects}

abbrev printed : List Event
printed =
    output_ready (codes "vg") ∷ output_ready (codes "0") ∷ child_exited none (some (codes ".")) ∷ []

run-expected_example :
    (Reader.run printed (spawn_for_variant (spawn_pid 77)).0).callbacks
    ≡ expected (spawn_pid 77) printed
run-expected_example = run-expected (spawn_pid 77) printed

abbrev sda : Proxy
sda = record {
  is_block = true;
  object_path = codes "/org/freedesktop/UDisks2/block_devices/sda";
  device = codes "/dev/sda";
  symlinks = [];
  udev = none;
}

abbrev drive : Proxy
drive = record sda { is_block = false }

abbrev signals : List Signal
signals = object_removed (drive ∷ sda ∷ []) ∷ interface_added sda ∷ []

mirror-latest_example :
    lookup sda.object_path (Mirror.run signals (ul_manager_init ((sda ∷ []) ∷ []) objects))
    ≡ latest sda.object_path
        (flat_map (map comes) ((sda ∷ []) ∷ []) ++ changes signals)
        (lookup sda.object_path objects)
mirror-latest_example = mirror-latest sda.object_path ((sda ∷ []) ∷ []) signals objects

abbrev daemon : Daemon
daemon = record {
  persist = false;
  name_owner_id = 3;
  name_owned = false;
  num_clients = 0;
  num_jobs = 0;
  finished = 0;
}

abbrev two_jobs : List JobObjects.Event
two_jobs =
    launched_threaded none (codes "lvm-vg-create") 0 (codes "volume_group_create_job_thread")
    ∷ launched_spawned (some (codes "/vg")) (codes "lvm-vg-rename") 1000 none
        (some (codes "vgrename") ∷ some (codes "vg") ∷ some (codes "data") ∷ none ∷ [])
    ∷ completed (codes "/org/freedesktop/UDisks2/jobs/0")
    ∷ []

run-Tracked_example :
    (s : State) × (run two_jobs (some (start daemon)) ≡ some s)
    × Tracked s
    × ((is_idle s.daemon ≡ false) ⊎ (s.exported ≡ []))
run-Tracked_example = run-Tracked two_jobs daemon refl (omega arith)
