-- ===== src/SpawnedJob/Events.antt =====
-- src/spawnedjob.c: how a job starts, `ul_spawned_job_constructed`, and the callbacks of the main loop
-- as events.
use udisks_lvm.Base.{
  ℕ, Bool, true, false, not, Option, none, some, List, [], ◌∷◌, ◌++◌, Bytes, codes, ◌==◌,
}
use udisks_lvm.SpawnedJob.{
  Pipe, SpawnedJob, Running, init, emit_completed_with_error_in_idle, on_cancelled,
  read_child_stdout, read_child_stderr, write_child_stdin, release_resources, idle_cb,
  child_watch_cb,
}
use udisks_lvm.Util.Error.{GError}
use udisks_lvm.Util.Status.{WaitMacros}

-- What g_spawn_async_with_pipes returns: the error, or the process and the descriptors of our ends of
-- the pipes for its standard input, output and error.
pub data Spawn : Type 0 where
  not_spawned : GError → Spawn
  spawned : (pid stdin stdout stderr : ℕ) → Spawn

-- g_strjoinv (" ", argv)
unfoldable pub strjoinv : List Bytes → Bytes
strjoinv [] = []
strjoinv (a ∷ []) = a
strjoinv (a ∷ b ∷ argv) = a ++ codes " " ++ strjoinv (b ∷ argv)

unfoldable pub fresh : ℕ → Running
unfolding init
fresh id = record {
  job = record init { cancellable_handler_id = id };
  idle = [];
  effects = [];
  crashed = false;
}

abbrev pub open_pipe : ℕ → Pipe
open_pipe n = record { fd = some n; channel = true; source = true }

-- There is a pipe for the standard input only if there is input.
unfoldable pub input_pipe : Option Bytes → ℕ → Pipe
input_pipe none n = record { fd = none; channel = false; source = false }
input_pipe (some input) n = open_pipe n

unfoldable pub prefixed : List Bytes → GError → GError
unfolding strjoinv
prefixed argv e = record e {
  message = codes "Error spawning command-line `" ++ strjoinv argv ++ codes "': " ++ e.message;
}

unfoldable pub watched : List Bytes → Option Bytes → Spawn → Running → Running
unfolding prefixed emit_completed_with_error_in_idle input_pipe
watched argv input_string (not_spawned e) r = emit_completed_with_error_in_idle (prefixed argv e) r
watched argv input_string (spawned pid stdin stdout stderr) r = record r {
  job = record (r.job) {
    child_pid = pid;
    child_watch_source = true;
    input_string_cursor = input_string;
    stdin_pipe = input_pipe input_string stdin;
    stdout_pipe = open_pipe stdout;
    stderr_pipe = open_pipe stderr;
  };
}

-- `ul_spawned_job_constructed`, with the error of a cancellable that has been cancelled, and what
-- g_cancellable_connect returns otherwise.
unfoldable pub constructed : List Bytes → Option Bytes → Option GError → ℕ → Spawn → Running
unfolding fresh emit_completed_with_error_in_idle watched
constructed argv input_string (some e) id spawn = emit_completed_with_error_in_idle e (fresh 0)
constructed argv input_string none id spawn = watched argv input_string spawn (fresh id)

-- `finalized` is that the last reference is dropped, which a pending callback holds.
pub data Event : Type 0 where
  stdout_ready stderr_ready : Bytes → Event
  stdin_ready : ℕ → Event
  child_exited : ℕ → Option Bytes → Option Bytes → Event
  cancelled : GError → Event
  idle_runs finalized : Event

abbrev pub on_job : (SpawnedJob → SpawnedJob) → Running → Running
on_job f r = record r { job = f r.job }

-- An event whose source is not there does not occur, and none does after a crash.
abbrev pub when : Bool → (Running → Running) → Running → Running
when false f r = r
when true f r = f r

abbrev pub is_empty : List GError → Bool
is_empty [] = true
is_empty (e ∷ es) = false

module _ (w : WaitMacros) (cmd : Bytes) where
  unfoldable pub handle : Event → Running → Running
  unfolding read_child_stdout read_child_stderr write_child_stdin child_watch_cb on_cancelled
      idle_cb release_resources
  handle (stdout_ready chunk) r = when r.job.stdout_pipe.source (on_job (read_child_stdout chunk)) r
  handle (stderr_ready chunk) r = when r.job.stderr_pipe.source (on_job (read_child_stderr chunk)) r
  handle (stdin_ready n) r = when r.job.stdin_pipe.source (write_child_stdin n) r
  handle (child_exited status out err) r =
      when r.job.child_watch_source (child_watch_cb w cmd status out err) r
  handle (cancelled e) r = when (not (r.job.cancellable_handler_id == 0)) (on_cancelled e) r
  handle idle_runs r = idle_cb w cmd r.idle r
  handle finalized r = when (is_empty r.idle) release_resources r

  unfoldable pub step : Event → Running → Running
  unfolding handle
  step e r = when (not r.crashed) (handle e) r

  unfoldable pub run : List Event → Running → Running
  unfolding step
  run [] r = r
  run (e ∷ es) r = run es (step e r)
