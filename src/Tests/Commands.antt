-- ===== src/Tests/Commands.antt =====
-- Jobs that run a command or a thread.
use udisks_lvm.Base.{
  ◌⊎◌, ◌≤◌, true, false, none, some, List, [], ◌∷◌, ◌++◌, Bytes, codes, length, ◌==◌, ◌≡◌, arith,
}
use udisks_lvm.Jobs.{Thread, delete_group, run_thread}
use udisks_lvm.Base.{map, refl}
use udisks_lvm.Jobs.Answered.{run_thread-Answered, Answered, reply_to}
use udisks_lvm.Jobs.Calls.{thread_calls}
use udisks_lvm.SpawnedJob.{Running}
use udisks_lvm.SpawnedJob.Cancellation.{run-cancelled}
use udisks_lvm.SpawnedJob.Alive.{kills}
use udisks_lvm.SpawnedJob.Descriptors.{run-ledger, ledger, closes, count}
use udisks_lvm.SpawnedJob.Events.{
  Event, spawned, constructed, input_pipe, stdout_ready, stderr_ready, stdin_ready, child_exited,
  cancelled, idle_runs, finalized, run,
}
use udisks_lvm.SpawnedJob.Input.{run-Delivers, Delivers, Done}
use udisks_lvm.SpawnedJob.Setup.{Process, Passwd, child_setup, child_setup-Outcome, Outcome}
use udisks_lvm.SpawnedJob.Verdict.{run-report, Reported}
use udisks_lvm.SpawnedJob.States.{completions}
use udisks_lvm.Tests.{host, wait_macros}
use udisks_lvm.ThreadedJob.{cancel, thread_runs, main_loop, new}
use udisks_lvm.ThreadedJob
use udisks_lvm.ThreadedJob.Report.{result_of, result_of-Honest, run-outcome, outcome, Ends}
use udisks_lvm.Util.Error.{GError, describe, completed}

abbrev error_of : Bytes → GError
error_of message = record { message = message; domain = codes "udisks-error-quark"; code = 0 }

abbrev gone : GError
gone = record {
  message = codes "Operation was cancelled";
  domain = codes "g-io-error-quark";
  code = 19;
}

abbrev deletion : ThreadedJob.Event
deletion = thread_runs (
    result_of error_of
      (run_thread host (delete_group (some (codes "/dev/sda" ∷ [])) (codes "vg")) []))

abbrev thread_events : List ThreadedJob.Event
thread_events = deletion ∷ cancel ∷ main_loop ∷ []

run-outcome_example :
    Ends gone
      (outcome gone false thread_events).0
      (outcome gone false thread_events).1
      (ThreadedJob.run gone thread_events (new false))
run-outcome_example = run-outcome gone thread_events false (
  result_of-Honest error_of
      (run_thread host (delete_group (some (codes "/dev/sda" ∷ [])) (codes "vg")) []),
  (tt, (tt, tt)),
)

abbrev lvs : Bytes
lvs = codes "lvs"

abbrev output : List Event
output = stdout_ready (codes "home") ∷ stdin_ready 3 ∷ stderr_ready (codes "hm") ∷ []

abbrev whole_run : List Event
whole_run = output ++ child_exited 256 (some (codes ".")) none ∷ idle_runs ∷ []

run-report_example :
    let r =
      run wait_macros lvs whole_run
        (constructed (lvs ∷ []) (some (codes "yes")) none 5 (spawned 77 10 11 12)) in
    Reported wait_macros lvs (some (256, codes "home.", codes "hm")) (completions r.effects)
    × (r.crashed ≡ false)
run-report_example =
    run-report wait_macros lvs whole_run (lvs ∷ []) (some (codes "yes")) 5 77 10 11 12
      (tt, (tt, (tt, (tt, (tt, tt)))))

abbrev after_run : Running
after_run =
    run wait_macros lvs whole_run
      (constructed (lvs ∷ []) (some (codes "yes")) none 5 (spawned 77 10 11 12))

run-ledger_example :
    (ledger 11 after_run ≡ 1)
    × ((after_run.job.child_watch_source ≡ true) ⊎ (count 11 (closes after_run.effects) ≡ 1))
unfolding input_pipe
run-ledger_example =
    run-ledger wait_macros lvs whole_run (lvs ∷ []) (some (codes "yes")) 5 77 10 11 12 11

abbrev writes : List Event
writes =
    stdin_ready 2 ∷ stdout_ready (codes "?") ∷ stdin_ready 1 ∷ stdin_ready 4 ∷ stdin_ready 1 ∷ []

abbrev after_writes : Running
after_writes =
    run wait_macros lvs writes
      (constructed (lvs ∷ []) (some (codes "yes")) none 5 (spawned 77 10 11 12))

run-Delivers_example :
    Delivers wait_macros lvs 5 77 11 12 (codes "yes") after_writes
    × ((4 ≤ 3) ⊎ Done wait_macros lvs 5 77 11 12 10 (codes "yes") after_writes)
run-Delivers_example =
    run-Delivers wait_macros lvs 5 77 11 12 writes (lvs ∷ []) (codes "yes") 10
      (omega arith, (tt, (omega arith, (omega arith, (omega arith, tt)))))

run-cancelled_example :
    ((completions
          (run wait_macros lvs
            (output ++ cancelled gone ∷ idle_runs ∷ finalized ∷ [])
            (constructed (lvs ∷ []) none none 5 (spawned 77 10 11 12))).effects
        ≡ completed false (describe gone) ∷ [])
      × (kills
            (run wait_macros lvs
              (output ++ cancelled gone ∷ idle_runs ∷ finalized ∷ [])
              (constructed (lvs ∷ []) none none 5 (spawned 77 10 11 12))).effects
          ≡ 77 ∷ [])
      × ((run wait_macros lvs
            (output ++ cancelled gone ∷ idle_runs ∷ finalized ∷ [])
            (constructed (lvs ∷ []) none none 5 (spawned 77 10 11 12))).crashed
          ≡ false))
    × ((run wait_macros lvs
          (output ++ cancelled gone ∷ child_exited 0 none none ∷ idle_runs ∷ [])
          (constructed (lvs ∷ []) none none 5 (spawned 77 10 11 12))).crashed
        ≡ true)
run-cancelled_example =
    run-cancelled wait_macros lvs 5 77 11 12 output (lvs ∷ []) none 10 gone 0 none none
      (λ h. absurd (omega (arith, h))) (λ h. absurd (omega (arith, h))) (tt, (tt, (tt, tt)))

abbrev nobody : Passwd
nobody = record { pw_name = codes "nobody"; pw_uid = 65534; pw_gid = 65534 }

-- A daemon that runs as root; initgroups fails.
abbrev root_process : Process
root_process = record {
  uid = 0;
  euid = 0;
  getpwuid = λ uid. some nobody;
  returns_zero = λ made call. length made == 0;
}

child_setup-Outcome_example :
    Outcome root_process 65534 65534 (child_setup root_process 65534 65534)
child_setup-Outcome_example = child_setup-Outcome root_process 65534 65534

abbrev removal : Thread
removal = delete_group (some (codes "/dev/sda" ∷ [])) (codes "vg")

run_thread-Answered_example :
    Answered host error_of
      (codes "Error deleting volume group: ")
      (thread_calls removal)
      []
      (run_thread host removal [])
      (map
        (reply_to (codes "Error deleting volume group: "))
        (ThreadedJob.run gone
          (thread_runs (result_of error_of (run_thread host removal [])) ∷ cancel ∷ main_loop ∷ [])
          (new false)).emitted)
run_thread-Answered_example =
    run_thread-Answered host removal error_of (codes "Error deleting volume group: ") gone
      (cancel ∷ main_loop ∷ []) [] (tt, (tt, tt)) refl
