-- ===== src/ThreadedJob.antt =====
-- src/threadedjob.c: a job that calls a function in a thread of the I/O scheduler, and reports in the
-- main loop what the function returned.
pub mod Report
use udisks_lvm.Base.{
  Bool, true, false, not, ◌&&◌, Option, none, some, List, [], ◌∷◌, ◌++◌, Bytes, codes,
  if◌then◌else◌,
}
use udisks_lvm.Util.Error.{GError, describe, Completed, completed}

-- Where the job is: pushed to the I/O scheduler, sent to the main loop, reported there; or stopped by
-- an assertion that failed.
pub data Stage : Type 0 where
  pushed sent reported aborted : Stage

-- What a `UlJobFunc` returns and the error that it sets.
abbrev pub Result : Type 0
Result = Bool × Option GError

-- `job_result` and `job_error`; the state of the cancellable; how often `job_func` has been called; and
-- the "completed" signals, the latest first.
pub record ThreadedJob : Type 0 where
  pub stage : Stage
  pub job_result : Bool
  pub job_error : Option GError
  pub cancelled : Bool
  pub calls : List Result
  pub emitted : List Completed

-- `ul_threaded_job_new`: the memory of the object is zero, and `ul_threaded_job_constructed` pushes the
-- job.
unfoldable pub new : Bool → ThreadedJob
new cancelled = record {
  stage = pushed;
  job_result = false;
  job_error = none;
  cancelled = cancelled;
  calls = [];
  emitted = [];
}

abbrev pub is_none : Option GError → Bool
is_none none = true
is_none (some e) = false

-- g_cancellable_set_error_if_cancelled, with the error that it sets; else `job_func` is called.
unfoldable pub call_or_cancel : Result → GError → ThreadedJob → ThreadedJob
call_or_cancel result cancelled_error self =
    if self.cancelled
    then record self { job_error = some cancelled_error }
    else record self { job_result = result.0; job_error = result.1; calls = result ∷ self.calls }

unfoldable pub run_io_scheduler_job : Result → GError → ThreadedJob → ThreadedJob
unfolding call_or_cancel
run_io_scheduler_job result cancelled_error self =
    if not self.job_result && is_none self.job_error
    then record (call_or_cancel result cancelled_error self) { stage = sent }
    else record self { stage = aborted }

-- `ul_threaded_job_threaded_job_completed_default`; `none` where its assertion fails.
unfoldable pub completed_default : Bool → Option GError → Option Completed
unfolding describe
completed_default true e = some (completed true [])
completed_default false none = none
completed_default false (some e) =
    some (completed false (codes "Threaded job failed with error: " ++ describe e))

-- Emits the signal, or stops at the assertion.
unfoldable pub emit : Option Completed → ThreadedJob → ThreadedJob
emit none self = record self { stage = aborted }
emit (some c) self = record self { stage = reported; emitted = c ∷ self.emitted }

unfoldable pub job_complete : ThreadedJob → ThreadedJob
unfolding completed_default emit
job_complete self = emit (completed_default self.job_result self.job_error) self

-- Cancel is called at any time; the scheduler runs the job, with what `job_func` makes of it; the main
-- loop runs `job_complete`.
pub data Event : Type 0 where
  cancel : Event
  thread_runs : Result → Event
  main_loop : Event

-- An event that is not due at the stage does not occur.
module _ (cancelled_error : GError) where
  unfoldable pub at_stage : Stage → Event → ThreadedJob → ThreadedJob
  unfolding run_io_scheduler_job job_complete
  at_stage stage cancel self = record self { cancelled = true }
  at_stage pushed (thread_runs result) self = run_io_scheduler_job result cancelled_error self
  at_stage sent main_loop self = job_complete self
  at_stage stage (thread_runs result) self = self
  at_stage stage main_loop self = self

  unfoldable pub run : List Event → ThreadedJob → ThreadedJob
  unfolding at_stage
  run [] self = self
  run (e ∷ es) self = run es (at_stage self.stage e self)
