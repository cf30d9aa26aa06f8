-- ===== src/Daemon/Lifecycle.antt =====
-- src/daemon.c: how long the daemon runs: `maybe_finished` and its callers, and the count of jobs.
pub mod Finish
use udisks_lvm.Base.{
  ℕ, ◌+◌, ◌-◌, Bool, true, false, not, ◌&&◌, Option, none, some, ◌==◌, ltb, if◌then◌else◌,
}

-- The fields that decide, and how often "finished" has been emitted. An operation is `none` where an
-- assertion of the source fails.
pub record Daemon : Type 0 where
  pub persist : Bool
  pub name_owner_id : ℕ
  pub name_owned : Bool
  pub num_clients : ℕ
  pub num_jobs : ℕ
  pub finished : ℕ

unfoldable pub is_idle : Daemon → Bool
is_idle self =
    not self.persist && not self.name_owned && self.num_clients == 0 && self.num_jobs == 0

unfoldable pub maybe_finished : Daemon → Daemon
unfolding is_idle
maybe_finished self = if is_idle self then record self { finished = self.finished + 1 } else self

unfoldable pub on_name_lost : Daemon → Daemon
unfolding maybe_finished
on_name_lost self = maybe_finished (record self { name_owned = false })

unfoldable pub on_name_acquired : Daemon → Daemon
on_name_acquired self = record self { name_owned = true }

unfoldable pub on_client_appeared : Daemon → Daemon
on_client_appeared self = record self { num_clients = self.num_clients + 1 }

-- Releases the name when the last client is gone.
unfoldable pub release_name : Daemon → Daemon
release_name self =
    if ltb 0 self.num_clients
    then self
    else if self.name_owner_id == 0
    then self
    else record self { name_owner_id = 0; name_owned = false }

unfoldable pub on_client_disappeared : Daemon → Option Daemon
unfolding release_name maybe_finished
on_client_disappeared self =
    if ltb 0 self.num_clients
    then some (maybe_finished (release_name (record self { num_clients = self.num_clients - 1 })))
    else none

-- What `ul_daemon_launch_spawned_jobv` and `ul_daemon_launch_threaded_job` do to the count.
unfoldable pub job_launched : Daemon → Daemon
job_launched self = record self { num_jobs = self.num_jobs + 1 }

unfoldable pub on_job_completed : Daemon → Option Daemon
unfolding maybe_finished
on_job_completed self =
    if ltb 0 self.num_jobs
    then some (maybe_finished (record self { num_jobs = self.num_jobs - 1 }))
    else none
