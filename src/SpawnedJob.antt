-- ===== src/SpawnedJob.antt =====
-- src/spawnedjob.c: a job that runs a command, feeds it its input, collects what it prints, and reports
-- its exit.
pub mod Events
pub mod States
pub mod Alive
pub mod Verdict
pub mod Setup
pub mod Descriptors
pub mod Input
pub mod Cancellation
use udisks_lvm.Base.{
  ℕ, zero, suc, Bool, true, false, Option, none, some, List, [], ◌∷◌, ◌++◌, Bytes, codes, taken,
  left_of, ◌==◌, if◌then◌else◌,
}
use udisks_lvm.Util.Error.{GError, describe, Completed, completed}
use udisks_lvm.Util.Status.{WaitMacros, CheckResult, success, failed, check_status_and_output}

-- A descriptor of ours (`none` is -1), and whether there are a channel and a source for it.
pub record Pipe : Type 0 where
  pub fd : Option ℕ
  pub channel : Bool
  pub source : Bool

-- The members that change. Sources are true where they are not NULL, and the cursor is what is left of
-- the input.
pub record SpawnedJob : Type 0 where
  pub cancellable_handler_id : ℕ
  pub input_string_cursor : Option Bytes
  pub child_pid : ℕ
  pub child_watch_source : Bool
  pub stdin_pipe : Pipe
  pub stdout_pipe : Pipe
  pub stderr_pipe : Pipe
  pub child_stdout : Option Bytes
  pub child_stderr : Option Bytes

-- What the job does to the outside.
pub data Effect : Type 0 where
  -- kill (pid, SIGTERM), and a watch that reaps the child
  kill reap : ℕ → Effect
  close : ℕ → Effect
  write : Bytes → Effect
  -- g_cancellable_disconnect
  disconnect : ℕ → Effect
  emit : Completed → Effect

-- The job, the errors of the idle callbacks that are pending, the effects, the latest first, and
-- whether a NULL pointer has been followed.
pub record Running : Type 0 where
  pub job : SpawnedJob
  pub idle : List GError
  pub effects : List Effect
  pub crashed : Bool

abbrev pub no_pipe : Pipe
no_pipe = record { fd = none; channel = false; source = false }

-- `ul_spawned_job_init`; all else is zero.
unfoldable pub init : SpawnedJob
init = record {
  cancellable_handler_id = 0;
  input_string_cursor = none;
  child_pid = 0;
  child_watch_source = false;
  stdin_pipe = no_pipe;
  stdout_pipe = no_pipe;
  stderr_pipe = no_pipe;
  child_stdout = some [];
  child_stderr = some [];
}

unfoldable pub emit_completed_with_error_in_idle : GError → Running → Running
emit_completed_with_error_in_idle e r = record r { idle = r.idle ++ e ∷ [] }

-- `on_cancelled`, with the error that the cancellable sets.
unfoldable pub on_cancelled : GError → Running → Running
unfolding emit_completed_with_error_in_idle
on_cancelled e r = emit_completed_with_error_in_idle e r

unfoldable pub append_len : Option Bytes → Bytes → Option Bytes
append_len none chunk = none
append_len (some s) chunk = some (s ++ chunk)

unfoldable pub read_child_stdout : Bytes → SpawnedJob → SpawnedJob
unfolding append_len
read_child_stdout chunk self = record self { child_stdout = append_len self.child_stdout chunk }

unfoldable pub read_child_stderr : Bytes → SpawnedJob → SpawnedJob
unfolding append_len
read_child_stderr chunk self = record self { child_stderr = append_len self.child_stderr chunk }

-- A pipe as a list of descriptors.
abbrev pub fd_list : Option ℕ → List ℕ
fd_list none = []
fd_list (some n) = n ∷ []

-- close, unless it is -1.
unfoldable pub close_fd : Option ℕ → List Effect → List Effect
close_fd none effects = effects
close_fd (some n) effects = close n ∷ effects

-- `write_child_stdin`, where the channel takes `n` bytes.
unfoldable pub write_rest : ℕ → Option Bytes → Running → Running
unfolding close_fd taken left_of
write_rest n none r = record r {
  job = record (r.job) { stdin_pipe = no_pipe };
  effects = close_fd r.job.stdin_pipe.fd r.effects;
}
write_rest n (some []) r = record r {
  job = record (r.job) { stdin_pipe = no_pipe };
  effects = close_fd r.job.stdin_pipe.fd r.effects;
}
write_rest n (some (c ∷ s)) r = record r {
  job = record (r.job) { input_string_cursor = some (left_of n (c ∷ s)) };
  effects = write (taken n (c ∷ s)) ∷ r.effects;
}

unfoldable pub write_child_stdin : ℕ → Running → Running
unfolding write_rest
write_child_stdin n r = write_rest n r.job.input_string_cursor r

-- The parts of `udisks_spawned_job_release_resources` that have effects.
unfoldable pub nuke_child : ℕ → List Effect → List Effect
nuke_child pid effects = if pid == 0 then effects else reap pid ∷ kill pid ∷ effects

unfoldable pub disconnect_cancellable : ℕ → List Effect → List Effect
disconnect_cancellable id effects = if id == 0 then effects else disconnect id ∷ effects

unfoldable pub release_resources : Running → Running
unfolding nuke_child close_fd disconnect_cancellable
release_resources r = record r {
  job = record {
    cancellable_handler_id = 0;
    input_string_cursor = r.job.input_string_cursor;
    child_pid = 0;
    child_watch_source = false;
    stdin_pipe = no_pipe;
    stdout_pipe = no_pipe;
    stderr_pipe = no_pipe;
    child_stdout = none;
    child_stderr = none;
  };
  effects = disconnect_cancellable r.job.cancellable_handler_id (
      close_fd r.job.stderr_pipe.fd (
        close_fd r.job.stdout_pipe.fd
          (close_fd r.job.stdin_pipe.fd (nuke_child r.job.child_pid r.effects))));
}

-- What a C string ends before.
unfoldable pub c_string : Bytes → Bytes
c_string [] = []
c_string (c ∷ s) = if c == 0 then [] else c ∷ c_string s

-- The result of `ul_util_check_status_and_output`, reported.
unfoldable pub checked : Bytes → CheckResult → Completed
checked message success = completed true message
checked message (failed e) = completed false e

-- The command, and the macros for its wait status.
module _ (w : WaitMacros) (cmd : Bytes) where
  -- The program is named by `argv[0]`.
  unfoldable pub verdict : ℕ → Bytes → Bytes → Completed
  unfolding checked check_status_and_output
  verdict status out err =
      checked (c_string err)
        (check_status_and_output w cmd status (some (c_string err)) (some (c_string out)))

  -- `udisks_spawned_job_spawned_job_completed_default`; `none` where it follows NULL, which the debug
  -- message does first.
  unfoldable pub completed_default :
      Option GError → ℕ → Option Bytes → Option Bytes → Option Completed
  unfolding verdict describe
  completed_default e status none err = none
  completed_default e status (some out) none = none
  completed_default (some e) status (some out) (some err) = some (completed false (describe e))
  completed_default none status (some out) (some err) = some (verdict status out err)

  unfoldable pub emitted : Option Completed → Running → Running
  emitted none r = record r { crashed = true }
  emitted (some c) r = record r { effects = emit c ∷ r.effects }

  -- g_signal_emit, with the default handler.
  unfoldable pub signal : Option GError → ℕ → Running → Running
  unfolding completed_default emitted
  signal e status r = emitted (completed_default e status r.job.child_stdout r.job.child_stderr) r

  -- The first of the pending callbacks `emit_completed_with_error_in_idle_cb`.
  unfoldable pub idle_cb : List GError → Running → Running
  unfolding signal
  idle_cb [] r = r
  idle_cb (e ∷ es) r = signal (some e) 0 (record r { idle = es })

  unfoldable pub read_to_end : Option Bytes → Option Bytes → Option Bytes
  unfolding append_len
  read_to_end s none = s
  read_to_end s (some buf) = append_len s buf

  -- `child_watch_cb`, with what g_io_channel_read_to_end still finds.
  unfoldable pub child_watch_cb : ℕ → Option Bytes → Option Bytes → Running → Running
  unfolding read_to_end signal release_resources
  child_watch_cb status out err r =
      let r1 = signal none status (record r {
        job = record (r.job) {
          child_stdout = read_to_end r.job.child_stdout out;
          child_stderr = read_to_end r.job.child_stderr err;
        };
      }) in
      release_resources
        (record r1 { job = record (r1.job) { child_pid = 0; child_watch_source = false } })
