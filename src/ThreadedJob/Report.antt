-- ===== src/ThreadedJob/Report.antt =====
-- src/threadedjob.c: what a threaded job reports, whenever it is cancelled.
use udisks_lvm.Base.{
  Bool, true, false, Option, none, some, List, [], ◌∷◌, ◌++◌, Bytes, codes, ◌≡◌, ◌≢◌, refl, All,
  if◌then◌else◌,
}
use udisks_lvm.ThreadedJob.{
  Stage, sent, reported, aborted, Result, ThreadedJob, new, call_or_cancel, run_io_scheduler_job,
  completed_default, emit, job_complete, Event, cancel, thread_runs, main_loop, at_stage, run,
}
use udisks_lvm.Util.Error.{GError, describe, Completed, completed}
use udisks_lvm.Util.Host.{Outcome, returned, raised}

-- The documented contract of a `UlJobFunc`: it sets the error if it returns FALSE.
abbrev pub Honest : Event → Type 0
Honest (thread_runs (false, none)) = ⊥
Honest _ = Unit

-- The job threads return TRUE at their end, and FALSE with the error that they have set.
abbrev pub result_of {ℓ} : {A : Type ℓ} → (Bytes → GError) → Outcome A → Result
result_of error_of (returned a h) = (true, none)
result_of error_of (raised message h) = (false, some (error_of message))

pub result_of-Honest {ℓ} :
    {A : Type ℓ} (error_of : Bytes → GError) (o : Outcome A)
    → Honest (thread_runs (result_of error_of o))
result_of-Honest error_of (returned a h) = tt
result_of-Honest error_of (raised message h) = tt

abbrev failure : GError → Completed
failure e = completed false (codes "Threaded job failed with error: " ++ describe e)

abbrev pub report : Result → List Completed
report (true, e) = completed true [] ∷ []
report (false, some e) = failure e ∷ []
report (false, none) = []

-- Whether the main loop gets to run.
abbrev pub dispatched : List Event → Bool
dispatched [] = false
dispatched (main_loop ∷ es) = true
dispatched (e ∷ es) = dispatched es

module _ (cancelled_error : GError) where
  -- What becomes of the job, told from the events: the results of the calls of the function, and the
  -- signals.
  abbrev pub outcome : Bool → List Event → List Result × List Completed
  outcome cancelled [] = ([], [])
  outcome cancelled (cancel ∷ es) = outcome true es
  outcome cancelled (main_loop ∷ es) = outcome cancelled es
  outcome true (thread_runs result ∷ es) =
      ([], if dispatched es then failure cancelled_error ∷ [] else [])
  outcome false (thread_runs result ∷ es) =
      (result ∷ [], if dispatched es then report result else [])

  abbrev job : Stage → Bool → Option GError → Bool → List Result → List Completed → ThreadedJob
  job stage result e cancelled calls emitted = record {
    stage = stage;
    job_result = result;
    job_error = e;
    cancelled = cancelled;
    calls = calls;
    emitted = emitted;
  }

  abbrev pub Ends : List Result → List Completed → ThreadedJob → Type 0
  Ends calls emitted self = (self.calls ≡ calls) × (self.emitted ≡ emitted) × (self.stage ≢ aborted)

  reported-Ends :
      (es : List Event) (b c : Bool) (e : Option GError) (rs : List Result) (cs : List Completed)
      → Ends rs cs (run cancelled_error es (job reported b e c rs cs))
  unfolding run at_stage
  reported-Ends [] b c e rs cs = (refl, refl, λ h. cc)
  reported-Ends (cancel ∷ es) b c e rs cs = reported-Ends es b true e rs cs
  reported-Ends (thread_runs result ∷ es) b c e rs cs = reported-Ends es b c e rs cs
  reported-Ends (main_loop ∷ es) b c e rs cs = reported-Ends es b c e rs cs

  sent-Ends :
      (es : List Event) (b c : Bool) (e : Option GError) (rs : List Result)
      → Honest (thread_runs (b, e))
      → Ends rs
          (if dispatched es then report (b, e) else [])
          (run cancelled_error es (job sent b e c rs []))
  unfolding run at_stage job_complete completed_default emit
  sent-Ends [] b c e rs h = (refl, refl, λ h. cc)
  sent-Ends (cancel ∷ es) b c e rs h = sent-Ends es b true e rs h
  sent-Ends (thread_runs result ∷ es) b c e rs h = sent-Ends es b c e rs h
  sent-Ends (main_loop ∷ es) true c e rs h = reported-Ends es true c e rs _
  sent-Ends (main_loop ∷ es) false c (some e) rs h = reported-Ends es false c (some e) rs _
  sent-Ends (main_loop ∷ es) false c none rs h = absurd h

  -- A threaded job whose function keeps its contract reports once, when the main loop gets to it: that
  -- it was cancelled, if it was before the thread ran, and then the function is not called; else what
  -- the function, called once, returned. A later cancellation changes nothing, and no assertion fails.
  pub run-outcome :
      (es : List Event) (cancelled : Bool)
      → All Honest es
      → Ends
          (outcome cancelled es).0
          (outcome cancelled es).1
          (run cancelled_error es (new cancelled))
  unfolding new run at_stage run_io_scheduler_job call_or_cancel
  run-outcome [] c h = (refl, refl, λ h. cc)
  run-outcome (cancel ∷ es) c h = run-outcome es true h.1
  run-outcome (main_loop ∷ es) c h = run-outcome es c h.1
  run-outcome (thread_runs (b, e) ∷ es) true h =
      sent-Ends es false true (some cancelled_error) [] tt
  run-outcome (thread_runs (b, e) ∷ es) false h = sent-Ends es b false e ((b, e) ∷ []) h.0
