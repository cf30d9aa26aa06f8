-- ===== src/Jobs/Answered.antt =====
-- src/volumegroup.c, src/manager.c and src/threadedjob.c together: how a method call is answered whose
-- job runs in a thread.
use udisks_lvm.Base.{
  true, false, List, [], ◌∷◌, ◌++◌, Bytes, codes, map, All, ◌≡◌, ◌⊎◌, refl, ap, inl, inr,
}
use udisks_lvm.Bus.{Reply, completed, error, failed}
use udisks_lvm.Completion.{on_job_complete, job_error}
use udisks_lvm.Jobs.{Thread, run_thread}
use udisks_lvm.Jobs.Calls.{thread_calls, run_thread-Calls}
use udisks_lvm.ThreadedJob.{Event, thread_runs, new, run}
use udisks_lvm.ThreadedJob.Report.{
  Honest, result_of, result_of-Honest, dispatched, report, run-outcome,
}
use udisks_lvm.Util.Error.{GError, describe, Completed}
use udisks_lvm.Util.Error as Error
use udisks_lvm.Util.Host.Calls.{Calls, Succeeds, Succeeded}
use udisks_lvm.Util.Host.{Host, Syscall, History, Outcome, returned, raised}

-- `on_delete_complete` and the like, for a signal of the job.
abbrev pub reply_to : Bytes → Completed → Reply
reply_to prefix (Error.completed success message) = on_job_complete prefix success message

-- Success after all the calls, each of which has succeeded; or an error with the message that the job
-- ended with, after the calls up to the first that failed. The calls are the latest first, before those
-- of `h`.
abbrev pub Answered :
    Host → (Bytes → GError) → Bytes → History → History → Outcome (Unit {0}) → List Reply → Type 0
Answered host error_of prefix calls h outcome replies =
    ((replies ≡ completed ∷ []) × (outcome ≡ returned tt (calls ++ h)) × Succeeded host h calls)
    ⊎ ((message : Bytes) × (later : History) × (c : Syscall) × (made : History) × (outcome
          ≡ raised message (c ∷ (made ++ h)))
        × (later ++ c ∷ made ≡ calls)
        × Succeeded host h made
        × (Succeeds host (made ++ h) c → ⊥)
        × (replies
            ≡ error failed (
                prefix ++ (codes "Threaded job failed with error: " ++ describe (error_of message)))
              ∷ []))

module _ (host : Host) (error_of : Bytes → GError) (prefix : Bytes) (calls h : History) where
  answer-report :
      (outcome : Outcome (Unit {0}))
      → Calls host calls h outcome
      → Answered host error_of prefix calls h outcome
          (map (reply_to prefix) (report (result_of error_of outcome)))
  unfolding on_job_complete job_error
  answer-report (returned a h') (e, good) = inl (refl, ap (returned tt) e, good)
  answer-report (raised message h') (later, c, made, e1, e2, good, bad) =
      inr (message, later, c, made, ap (raised message) e2, e1, good, bad, refl)

-- A call whose job deletes a group or removes a device from one in a thread, and is not cancelled before
-- the thread runs, is answered once, when the main loop gets to it: with success if all calls of the job
-- have been made, in order, and each has succeeded (a program by exiting with status 0); and else with an
-- error that has the message of the job, whose calls have been made up to the first that failed, and none
-- of the later ones.
pub run_thread-Answered :
    (host : Host) (thread : Thread) (error_of : Bytes → GError) (prefix : Bytes)
    (cancelled_error : GError) (es : List Event) (h : History)
    → All Honest es
    → dispatched es ≡ true
    → let outcome = run_thread host thread h in
      let job = run cancelled_error (thread_runs (result_of error_of outcome) ∷ es) (new false) in
      Answered host error_of prefix
        (thread_calls thread)
        h
        outcome
        (map (reply_to prefix) job.emitted)
run_thread-Answered host thread error_of prefix cancelled_error es h honest d =
    let outcome = run_thread host thread h in
    let result = result_of error_of outcome in
    let (_, emitted, _) =
      run-outcome cancelled_error (thread_runs result ∷ es) false
        (result_of-Honest error_of outcome, honest) in
    rw (emitted, d)
      (answer-report host error_of prefix (thread_calls thread) h outcome
        (run_thread-Calls host thread h))
