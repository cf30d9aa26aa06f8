-- ===== src/Jobs/Calls.antt =====
-- src/volumegroup.c and src/manager.c: the system calls of the functions that run in the thread of a job.
use udisks_lvm.Base.{true, false, none, some, [], ◌∷◌, ◌++◌, codes}
use udisks_lvm.Jobs.{
  Thread, delete_group, remove_device, create_group, delete_job_thread, remdev_job_thread,
  create_job_thread, run_thread, vgreduce_argv, wipefs_argv, vgcreate_argv,
}
use udisks_lvm.Util.Host.{Host, History, spawn_sync, spawn_checked}
use udisks_lvm.Util.Host.Calls.{Calls, Calls-bind, spawn_checked-Calls}
use udisks_lvm.Util.Wipe.{wipe_devices, wipe_devices-Calls, all_wipe_calls}

-- The calls of a job that succeeds, the latest first.
unfoldable pub thread_calls : Thread → History
thread_calls (delete_group none vgname) =
    spawn_sync (codes "vgremove" ∷ codes "-f" ∷ vgname ∷ []) ∷ []
thread_calls (delete_group (some devices) vgname) =
    all_wipe_calls devices ++ spawn_sync (codes "vgremove" ∷ codes "-f" ∷ vgname ∷ []) ∷ []
thread_calls (remove_device vgname pvname false) = spawn_sync (vgreduce_argv vgname pvname) ∷ []
thread_calls (remove_device vgname pvname true) =
    spawn_sync (wipefs_argv pvname) ∷ spawn_sync (vgreduce_argv vgname pvname) ∷ []
thread_calls (create_group devices vgname extent_size) =
    spawn_sync (vgcreate_argv devices vgname extent_size) ∷ all_wipe_calls devices

-- A group is deleted before its devices are wiped, a device is taken out of its group before its
-- signatures are erased, and all devices are wiped before a group is created on them. A job that
-- succeeds has made all the calls, and each of them has succeeded: the programs have been started and
-- have exited with status 0. A job that fails has made the calls up to the first that failed, and none
-- of the later ones, so no device is wiped of a group that could not be removed, and no group is created
-- when a device could not be wiped.
pub run_thread-Calls :
    (host : Host) (thread : Thread) (h : History)
    → Calls host (thread_calls thread) h (run_thread host thread h)
unfolding thread_calls run_thread delete_job_thread remdev_job_thread create_job_thread
run_thread-Calls host (delete_group none vgname) h = spawn_checked-Calls host _ _ h
run_thread-Calls host (delete_group (some devices) vgname) h =
    Calls-bind host (spawn_sync (codes "vgremove" ∷ codes "-f" ∷ vgname ∷ []) ∷ [])
      (all_wipe_calls devices) h (spawn_checked host _ _ h) _ (spawn_checked-Calls host _ _ h)
      λ _. wipe_devices-Calls host devices _
run_thread-Calls host (remove_device vgname pvname false) h = spawn_checked-Calls host _ _ h
run_thread-Calls host (remove_device vgname pvname true) h =
    Calls-bind host (spawn_sync (vgreduce_argv vgname pvname) ∷ [])
      (spawn_sync (wipefs_argv pvname) ∷ []) h (spawn_checked host _ _ h) _
      (spawn_checked-Calls host _ _ h) λ _. spawn_checked-Calls host _ _ _
run_thread-Calls host (create_group devices vgname extent_size) h =
    Calls-bind host (all_wipe_calls devices)
      (spawn_sync (vgcreate_argv devices vgname extent_size) ∷ []) h (wipe_devices host devices h) _
      (wipe_devices-Calls host devices h) λ _. spawn_checked-Calls host _ _ _
