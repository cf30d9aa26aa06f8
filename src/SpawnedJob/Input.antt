-- ===== src/SpawnedJob/Input.antt =====
-- src/spawnedjob.c: the input of the child, which `write_child_stdin` writes as the channel takes it.
use udisks_lvm.Base.{
  ℕ, suc, ◌<◌, ◌≤◌, ltb, ◌⊎◌, inl, inr, Bool-cases, none, some, List, [], ◌∷◌, ◌++◌, append-nil,
  append_assoc, Bytes, length, ◌≡◌, refl, sym, ap, ◌∙◌, All, arith, taken, left_of, taken-left_of,
  left_shorter,
}
use udisks_lvm.SpawnedJob.{
  Effect, kill, reap, close, write, disconnect, emit, Running, no_pipe, init, close_fd, append_len,
  read_child_stdout, read_child_stderr, write_child_stdin, write_rest,
}
use udisks_lvm.SpawnedJob.Events.{
  spawned, input_pipe, open_pipe, fresh, watched, constructed, Event, stdout_ready, stderr_ready,
  stdin_ready, child_exited, cancelled, idle_runs, finalized, handle, step, run,
}
use udisks_lvm.SpawnedJob.States.{alive, rest}
use udisks_lvm.Util.Status.{WaitMacros}

-- The bytes that have been written, in order.
abbrev pub written : List Effect → Bytes
written [] = []
written (write s ∷ effects) = written effects ++ s
written (kill pid ∷ effects) = written effects
written (reap pid ∷ effects) = written effects
written (emit c ∷ effects) = written effects
written (close n ∷ effects) = written effects
written (disconnect id ∷ effects) = written effects

-- The descriptors that have been closed, the latest first.
abbrev pub closed : List Effect → List ℕ
closed [] = []
closed (close n ∷ effects) = n ∷ closed effects
closed (write s ∷ effects) = closed effects
closed (kill pid ∷ effects) = closed effects
closed (reap pid ∷ effects) = closed effects
closed (emit c ∷ effects) = closed effects
closed (disconnect id ∷ effects) = closed effects

-- While the child runs, the channel takes some bytes whenever it is ready.
abbrev pub Takes : Event → Type 0
Takes (stdout_ready chunk) = Unit
Takes (stderr_ready chunk) = Unit
Takes (stdin_ready n) = 0 < n
Takes _ = ⊥

-- How often the channel is ready.
abbrev pub turns : List Event → ℕ
turns [] = 0
turns (stdin_ready n ∷ es) = suc (turns es)
turns (_ ∷ es) = turns es

order : (m n : ℕ) → (m < n) ⊎ (n ≤ m)
order m n = elim (Bool-cases (ltb m n)) [
  | inl e ↦ inl (ground (arith, e))
  | inr e ↦ inr (ground (arith, e))
]

module _ (w : WaitMacros) (cmd : Bytes) (id pid stdout stderr : ℕ) where
  abbrev pub Delivers : Bytes → Running → Type 0
  Delivers s r = written r.effects ++ rest r.job.input_string_cursor ≡ s

  abbrev Closed : List ℕ → Running → Type 0
  Closed fds r =
      (r.job.stdin_pipe ≡ no_pipe)
      × (rest r.job.input_string_cursor ≡ [])
      × (closed r.effects ≡ fds)

  stays :
      (es : List Event) (out err : Bytes) (effects : List Effect)
      → All Takes es
      → let r =
          run w cmd es (alive w cmd [] id (some []) pid no_pipe stdout stderr out err effects) in
        Delivers (written effects ++ []) r × Closed (closed effects) r
  unfolding run step handle read_child_stdout read_child_stderr append_len
  stays [] out err effects h = (refl, (refl, refl, refl))
  stays (stdout_ready chunk ∷ es) out err effects h = stays es (out ++ chunk) err effects h.1
  stays (stderr_ready chunk ∷ es) out err effects h = stays es out (err ++ chunk) effects h.1
  stays (stdin_ready n ∷ es) out err effects h = stays es out err effects h.1
  stays (child_exited status o e ∷ es) out err effects h = absurd h.0
  stays (cancelled e ∷ es) out err effects h = absurd h.0
  stays (idle_runs ∷ es) out err effects h = absurd h.0
  stays (finalized ∷ es) out err effects h = absurd h.0

  advance :
      (n : ℕ) (c : ℕ) (s : Bytes) (effects : List Effect)
      → written (write (taken n (c ∷ s)) ∷ effects) ++ left_of n (c ∷ s) ≡ written effects ++ c ∷ s
  advance n c s effects =
      append_assoc (written effects) (taken n (c ∷ s)) (left_of n (c ∷ s))
      ∙ ap (◌++◌ (written effects)) (taken-left_of n (c ∷ s))

  delivers :
      (es : List Event) (left : Bytes) (stdin : ℕ) (out err : Bytes) (effects : List Effect)
      → All Takes es
      → let r =
          run w cmd es
            (alive w cmd [] id (some left) pid (open_pipe stdin) stdout stderr out err effects) in
        Delivers (written effects ++ left) r
        × (length left < turns es → Closed (stdin ∷ closed effects) r)
  unfolding run step handle read_child_stdout read_child_stderr append_len write_child_stdin
      write_rest close_fd
  delivers [] left stdin out err effects h = (refl, λ l. absurd (omega (arith, l)))
  delivers (stdout_ready chunk ∷ es) left stdin out err effects h =
      delivers es left stdin (out ++ chunk) err effects h.1
  delivers (stderr_ready chunk ∷ es) left stdin out err effects h =
      delivers es left stdin out (err ++ chunk) effects h.1
  delivers (stdin_ready n ∷ es) [] stdin out err effects h =
      let (a, b) = stays es out err (close stdin ∷ effects) h.1 in (a, λ l. b)
  delivers (stdin_ready n ∷ es) (c ∷ s) stdin out err effects h =
      let (a, b) = delivers es (left_of n (c ∷ s)) stdin out err _ h.1 in
      (a ∙ advance n c s effects, λ l. b (omega (arith, l, left_shorter n c s h.0)))
  delivers (child_exited status o e ∷ es) left stdin out err effects h = absurd h.0
  delivers (cancelled e ∷ es) left stdin out err effects h = absurd h.0
  delivers (idle_runs ∷ es) left stdin out err effects h = absurd h.0
  delivers (finalized ∷ es) left stdin out err effects h = absurd h.0

  -- All of `s` has been written, and the descriptor has been closed, once; no other has.
  abbrev pub Done : ℕ → Bytes → Running → Type 0
  Done stdin s r =
      (r.job.stdin_pipe ≡ no_pipe) × (written r.effects ≡ s) × (closed r.effects ≡ stdin ∷ [])

  Closed-Done :
      (stdin : ℕ) (s : Bytes) (r : Running) → Delivers s r → Closed (stdin ∷ []) r → Done stdin s r
  Closed-Done stdin s r a (p, q, c) =
      (p, sym (append-nil (written r.effects)) ∙ ap (◌++◌ (written r.effects)) (sym q) ∙ a, c)

  -- While the child runs, what has been written and what is left make up the input. If the channel
  -- takes at least a byte whenever it is ready, then after it has been ready once more than the input
  -- has bytes, all of it is written and the descriptor of the child's standard input has been closed,
  -- once.
  pub run-Delivers :
      (es : List Event) (argv : List Bytes) (input : Bytes) (stdin : ℕ)
      → All Takes es
      → let r =
          run w cmd es (constructed argv (some input) none id (spawned pid stdin stdout stderr)) in
        Delivers input r × ((turns es ≤ length input) ⊎ Done stdin input r)
  unfolding constructed watched fresh init input_pipe
  run-Delivers es argv input stdin h =
      let r =
        run w cmd es (constructed argv (some input) none id (spawned pid stdin stdout stderr)) in
      let (a, b) = delivers es input stdin [] [] [] h in
      (
        a,
        elim (order (length input) (turns es)) [
          | inl l ↦ inr (Closed-Done stdin input r a (b l))
          | inr l ↦ inl l
        ],
      )
