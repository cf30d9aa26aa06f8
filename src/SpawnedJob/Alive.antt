-- ===== src/SpawnedJob/Alive.antt =====
-- src/spawnedjob.c: what holds of a job while its child runs.
use udisks_lvm.Base.{
  ℕ, Bool, true, false, Option, none, some, List, [], ◌∷◌, ◌++◌, Bytes, ◌≡◌, refl, ◌∙◌, All,
}
use udisks_lvm.SpawnedJob.{
  Pipe, Effect, kill, reap, close, write, disconnect, emit, Running, no_pipe, init, close_fd,
  append_len, read_child_stdout, read_child_stderr, write_child_stdin, write_rest,
}
use udisks_lvm.SpawnedJob.Events.{
  spawned, input_pipe, fresh, watched, constructed, Event, stdout_ready, stderr_ready, stdin_ready,
  child_exited, cancelled, idle_runs, finalized, handle, step, run,
}
use udisks_lvm.SpawnedJob.States.{completions, alive, close_fd-completions, pipe}
use udisks_lvm.Util.Status.{WaitMacros}

-- What happens while the child runs.
abbrev pub InputOutput : Event → Type 0
InputOutput (stdout_ready chunk) = Unit
InputOutput (stderr_ready chunk) = Unit
InputOutput (stdin_ready n) = Unit
InputOutput _ = ⊥

-- The processes that have been killed.
abbrev pub kills : List Effect → List ℕ
kills [] = []
kills (kill pid ∷ effects) = pid ∷ kills effects
kills (reap pid ∷ effects) = kills effects
kills (emit c ∷ effects) = kills effects
kills (close n ∷ effects) = kills effects
kills (write s ∷ effects) = kills effects
kills (disconnect id ∷ effects) = kills effects

pub close_fd-kills :
    (fd : Option ℕ) (effects : List Effect) → kills (close_fd fd effects) ≡ kills effects
close_fd-kills none effects = unfold close_fd in refl
close_fd-kills (some n) effects = unfold close_fd in refl

-- Nothing is reported, and nothing killed.
abbrev pub Silent : List Effect → Type 0
Silent effects = (completions effects ≡ []) × (kills effects ≡ [])

close_fd-Silent :
    (fd : Option ℕ) (effects : List Effect) → Silent effects → Silent (close_fd fd effects)
close_fd-Silent fd effects (a, b) =
    (close_fd-completions fd effects ∙ a, close_fd-kills fd effects ∙ b)

module _ (w : WaitMacros) (cmd : Bytes) (id pid stdout stderr : ℕ) where
  -- The child runs, and nothing has been reported.
  pub record Alive (r : Running) : Type 0 where
    pub cursor : Option Bytes
    pub stdin : Pipe
    pub out : Bytes
    pub err : Bytes
    pub effects : List Effect
    pub is : r ≡ alive w cmd [] id cursor pid stdin stdout stderr out err effects
    pub silent : Silent effects

  alive-Alive :
      (cursor : Option Bytes) (stdin : Pipe) (out err : Bytes) (effects : List Effect)
      → Silent effects
      → Alive (alive w cmd [] id cursor pid stdin stdout stderr out err effects)
  alive-Alive cursor stdin out err effects h = record {
    cursor = cursor;
    stdin = stdin;
    out = out;
    err = err;
    effects = effects;
    is = refl;
    silent = h;
  }

  written :
      (n : ℕ) (cursor : Option Bytes) (fd : Option ℕ) (ch source : Bool) (out err : Bytes)
      (effects : List Effect)
      → Silent effects
      → Alive (
          step w cmd
            (stdin_ready n)
            (alive w cmd [] id cursor pid (pipe w cmd fd ch source) stdout stderr out err effects))
  unfolding step handle write_child_stdin write_rest
  written n cursor fd ch false out err effects h =
      alive-Alive cursor (pipe w cmd fd ch false) out err effects h
  written n none fd ch true out err effects h =
      alive-Alive none no_pipe out err _ (close_fd-Silent fd effects h)
  written n (some []) fd ch true out err effects h =
      alive-Alive (some []) no_pipe out err _ (close_fd-Silent fd effects h)
  written n (some (c ∷ s)) fd ch true out err effects h =
      alive-Alive _ (pipe w cmd fd ch true) out err _ h

  stepped : (e : Event) (r : Running) → InputOutput e → Alive r → Alive (step w cmd e r)
  unfolding step handle read_child_stdout read_child_stderr append_len
  stepped (stdout_ready chunk) r io a =
      rw a.is (alive-Alive a.cursor a.stdin (a.out ++ chunk) a.err a.effects a.silent)
  stepped (stderr_ready chunk) r io a =
      rw a.is (alive-Alive a.cursor a.stdin a.out (a.err ++ chunk) a.effects a.silent)
  stepped (stdin_ready n) r io a =
      rw a.is (
        written n a.cursor a.stdin.fd a.stdin.channel a.stdin.source a.out a.err a.effects a.silent)
  stepped (child_exited status o e) r io a = absurd io
  stepped (cancelled e) r io a = absurd io
  stepped idle_runs r io a = absurd io
  stepped finalized r io a = absurd io

  pub run-Alive :
      (es : List Event) (r : Running) → All InputOutput es → Alive r → Alive (run w cmd es r)
  unfolding run
  run-Alive [] r io a = a
  run-Alive (e ∷ es) r io a = run-Alive es (step w cmd e r) io.1 (stepped e r io.0 a)

  pub run-append :
      (es fs : List Event) (r : Running) → run w cmd (es ++ fs) r ≡ run w cmd fs (run w cmd es r)
  unfolding run
  run-append [] fs r = refl
  run-append (e ∷ es) fs r = run-append es fs (step w cmd e r)

  pub started :
      (argv : List Bytes) (input : Option Bytes) (stdin : ℕ)
      → Alive (constructed argv input none id (spawned pid stdin stdout stderr))
  unfolding constructed watched fresh init
  started argv input stdin = alive-Alive input (input_pipe input stdin) [] [] [] (refl, refl)
