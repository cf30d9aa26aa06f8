-- ===== src/Jobs.antt =====
-- The jobs that method calls start. src/volumegroup.c and src/manager.c: the functions that run in the
-- thread of a job. src/daemon.c: `ul_daemon_launch_spawned_job` and its relatives.
pub mod Calls
pub mod Answered
use udisks_lvm.Base.{
  Bool, true, false, Option, none, some, List, [], ◌∷◌, ◌++◌, Bytes, codes, if◌then◌else◌,
}
use udisks_lvm.Bus.{Reply}
use udisks_lvm.Completion.{Waited}
use udisks_lvm.Util.Host.{Host, History, Prog, pure, ◌>>◌, Outcome, returned, raised, spawn_checked}
use udisks_lvm.Util.Wipe.{wipe_devices}

-- The data of `volume_group_delete_job_thread`, `volume_group_remdev_job_thread` and
-- `volume_group_create_job_thread`; `none` is NULL.
pub data Thread : Type 0 where
  delete_group : Option (List Bytes) → Bytes → Thread
  -- vgname, pvname, wipe
  remove_device : Option Bytes → Option Bytes → Bool → Thread
  -- devices, vgname, extent_size
  create_group : List Bytes → Bytes → Option Bytes → Thread

-- The operation of a job, with its program and arguments or the function it runs.
pub data Launch : Type 0 where
  spawned : Bytes → List Bytes → Launch
  threaded : Bytes → Thread → Launch

-- The call is answered when the job is done, with the prefix of its error message; or as its closure
-- says.
pub data Answer : Type 0 where
  on_completion : Bytes → Answer
  on_publication : Waited → Bytes → Answer

-- What a handler does with a call.
pub data Handled : Type 0 where
  replied : Reply → Handled
  launched : Launch → Answer → Handled

-- Arguments end at the first NULL, in an array as in a variable argument list.
unfoldable pub until_null : List (Option Bytes) → List Bytes
until_null [] = []
until_null (none ∷ args) = []
until_null (some arg ∷ args) = arg ∷ until_null args

unfoldable pub delete_job_thread : Host → Option (List Bytes) → Bytes → Prog (Unit {0})
delete_job_thread host none vgname =
    spawn_checked host (codes "vgremove") (codes "vgremove" ∷ codes "-f" ∷ vgname ∷ [])
delete_job_thread host (some devices) vgname = do
  spawn_checked host (codes "vgremove") (codes "vgremove" ∷ codes "-f" ∷ vgname ∷ [])
  wipe_devices host devices

unfoldable pub vgreduce_argv : Option Bytes → Option Bytes → List Bytes
unfolding until_null
vgreduce_argv vgname pvname = until_null (some (codes "vgreduce") ∷ vgname ∷ pvname ∷ [])

unfoldable pub wipefs_argv : Option Bytes → List Bytes
unfolding until_null
wipefs_argv pvname = until_null (some (codes "wipefs") ∷ some (codes "-a") ∷ pvname ∷ [])

unfoldable pub remdev_job_thread : Host → Option Bytes → Option Bytes → Bool → Prog (Unit {0})
remdev_job_thread host vgname pvname false =
    spawn_checked host (codes "vgreduce") (vgreduce_argv vgname pvname)
remdev_job_thread host vgname pvname true = do
  spawn_checked host (codes "vgreduce") (vgreduce_argv vgname pvname)
  spawn_checked host (codes "wipefs") (wipefs_argv pvname)

unfoldable pub vgcreate_argv : List Bytes → Bytes → Option Bytes → List Bytes
vgcreate_argv devices vgname none = codes "vgcreate" ∷ vgname ∷ devices
vgcreate_argv devices vgname (some extent_size) =
    codes "vgcreate" ∷ vgname ∷ codes "-s" ∷ extent_size ∷ devices

unfoldable pub create_job_thread : Host → List Bytes → Bytes → Option Bytes → Prog (Unit {0})
create_job_thread host devices vgname extent_size = do
  wipe_devices host devices
  spawn_checked host (codes "vgcreate") (vgcreate_argv devices vgname extent_size)

unfoldable pub run_thread : Host → Thread → Prog (Unit {0})
unfolding delete_job_thread remdev_job_thread create_job_thread
run_thread host (delete_group devices vgname) = delete_job_thread host devices vgname
run_thread host (remove_device vgname pvname wipe) = remdev_job_thread host vgname pvname wipe
run_thread host (create_group devices vgname extent_size) =
    create_job_thread host devices vgname extent_size
