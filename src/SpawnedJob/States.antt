-- ===== src/SpawnedJob/States.antt =====
-- src/spawnedjob.c: the states of a job while its child runs and when it has been released, and the step
-- between them.
use udisks_lvm.Base.{
  ℕ, Bool, true, false, Option, none, some, List, [], ◌∷◌, ◌++◌, append-nil, Bytes, ◌≡◌, refl, ◌∙◌,
  arith,
}
use udisks_lvm.SpawnedJob.{
  Pipe, Effect, kill, reap, close, write, disconnect, emit, Running, no_pipe, close_fd, append_len,
  nuke_child, disconnect_cancellable, release_resources, verdict, completed_default, emitted,
  signal, read_to_end, child_watch_cb,
}
use udisks_lvm.SpawnedJob.Events.{open_pipe}
use udisks_lvm.Util.Error.{GError, Completed}
use udisks_lvm.Util.Status.{WaitMacros}

-- The "completed" signals among the effects.
abbrev pub completions : List Effect → List Completed
completions [] = []
completions (emit c ∷ effects) = c ∷ completions effects
completions (kill pid ∷ effects) = completions effects
completions (reap pid ∷ effects) = completions effects
completions (close n ∷ effects) = completions effects
completions (write s ∷ effects) = completions effects
completions (disconnect id ∷ effects) = completions effects

abbrev pub rest : Option Bytes → Bytes
rest none = []
rest (some s) = s

pub close_fd-completions :
    (fd : Option ℕ) (effects : List Effect)
    → completions (close_fd fd effects) ≡ completions effects
close_fd-completions none effects = unfold close_fd in refl
close_fd-completions (some n) effects = unfold close_fd in refl

disconnect-completions :
    (id : ℕ) (effects : List Effect)
    → completions (disconnect_cancellable id effects) ≡ completions effects
unfolding disconnect_cancellable
disconnect-completions id effects = ground arith

module _ (w : WaitMacros) (cmd : Bytes) where
  abbrev pub gone : List GError → Option Bytes → List Effect → Running
  gone idle cursor effects = record {
    job = record {
      cancellable_handler_id = 0;
      input_string_cursor = cursor;
      child_pid = 0;
      child_watch_source = false;
      stdin_pipe = no_pipe;
      stdout_pipe = no_pipe;
      stderr_pipe = no_pipe;
      child_stdout = none;
      child_stderr = none;
    };
    idle = idle;
    effects = effects;
    crashed = false;
  }

  abbrev pub alive :
      List GError → ℕ → Option Bytes → ℕ → Pipe → ℕ → ℕ → Bytes → Bytes → List Effect → Running
  alive idle id cursor pid stdin stdout stderr out err effects = record {
    job = record {
      cancellable_handler_id = id;
      input_string_cursor = cursor;
      child_pid = pid;
      child_watch_source = true;
      stdin_pipe = stdin;
      stdout_pipe = open_pipe stdout;
      stderr_pipe = open_pipe stderr;
      child_stdout = some out;
      child_stderr = some err;
    };
    idle = idle;
    effects = effects;
    crashed = false;
  }

  -- What is closed at the end.
  abbrev pub closings : ℕ → Pipe → ℕ → ℕ → List Effect → List Effect
  closings id stdin stdout stderr effects =
      disconnect_cancellable id (close stderr ∷ close stdout ∷ close_fd stdin.fd effects)

  pub closings-completions :
      (id : ℕ) (stdin : Pipe) (stdout stderr : ℕ) (effects : List Effect)
      → completions (closings id stdin stdout stderr effects) ≡ completions effects
  closings-completions id stdin stdout stderr effects =
      disconnect-completions id _ ∙ close_fd-completions stdin.fd effects

  pub exit :
      (idle : List GError) (status : ℕ) (o e : Option Bytes) (id : ℕ) (cursor : Option Bytes)
      (pid : ℕ) (stdin : Pipe) (stdout stderr : ℕ) (out err : Bytes) (effects : List Effect)
      → child_watch_cb w cmd status o e
          (alive idle id cursor pid stdin stdout stderr out err effects)
        ≡ gone idle cursor (
            closings id stdin stdout stderr
              (emit (verdict w cmd status (out ++ rest o) (err ++ rest e)) ∷ effects))
  unfolding child_watch_cb read_to_end append_len signal completed_default emitted release_resources
      nuke_child close_fd
  exit idle status none none id cursor pid stdin stdout stderr out err effects =
      rw (append-nil out, append-nil err) refl
  exit idle status none (some e) id cursor pid stdin stdout stderr out err effects =
      rw (append-nil out) refl
  exit idle status (some o) none id cursor pid stdin stdout stderr out err effects =
      rw (append-nil err) refl
  exit idle status (some o) (some e) id cursor pid stdin stdout stderr out err effects = refl

  abbrev pub pipe : Option ℕ → Bool → Bool → Pipe
  pipe fd channel source = record { fd = fd; channel = channel; source = source }
