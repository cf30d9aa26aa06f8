-- ===== src/SpawnedJob/Verdict.antt =====
-- src/spawnedjob.c: what a job that is not cancelled reports.
use udisks_lvm.Base.{
  ℕ, ◌&&◌, ◌==◌, ==_iff, ◌⊎◌, inl, inr, Bool-cases, arith, codes, decimal, subst, sym, Bool, true,
  false, Option, none, some, List, [], ◌∷◌, ◌++◌, Bytes, ◌≡◌, refl, ap, ◌∙◌, All,
}
use udisks_lvm.SpawnedJob.{
  Pipe, Effect, emit, Running, no_pipe, init, append_len, read_child_stdout, read_child_stderr,
  write_child_stdin, write_rest, c_string, checked, verdict, idle_cb,
}
use udisks_lvm.SpawnedJob.Events.{
  spawned, input_pipe, fresh, watched, constructed, Event, stdout_ready, stderr_ready, stdin_ready,
  child_exited, cancelled, idle_runs, finalized, handle, step, run,
}
use udisks_lvm.SpawnedJob.States.{
  completions, rest, close_fd-completions, gone, alive, closings, closings-completions, exit, pipe,
}
use udisks_lvm.Util.Error.{Completed, completed}
use udisks_lvm.Util.Status.{
  WaitMacros, handled_signals, switch_signal, get_signal_name, has_text, status_message,
  output_message, check_status_and_output,
}

-- The job is not cancelled, and nobody drops it before it is done.
abbrev pub Undisturbed : Event → Type 0
Undisturbed (cancelled e) = ⊥
Undisturbed finalized = ⊥
Undisturbed _ = Unit

module _ (w : WaitMacros) (cmd : Bytes) where
  -- The one signal of a job that has printed `out` and `err`: when the child exits, with all that it
  -- printed.
  abbrev report : Bytes → Bytes → List Event → List Completed
  report out err [] = []
  report out err (stdout_ready chunk ∷ es) = report (out ++ chunk) err es
  report out err (stderr_ready chunk ∷ es) = report out (err ++ chunk) es
  report out err (child_exited status o e ∷ es) =
      verdict w cmd status (out ++ rest o) (err ++ rest e) ∷ []
  report out err (_ ∷ es) = report out err es

  abbrev Reports : List Completed → Running → Type 0
  Reports cs r = (completions r.effects ≡ cs) × (r.crashed ≡ false)

  gone-Reports :
      (es : List Event) (cursor : Option Bytes) (effects : List Effect)
      → All Undisturbed es
      → Reports (completions effects) (run w cmd es (gone w cmd [] cursor effects))
  unfolding run step handle idle_cb
  gone-Reports [] cursor effects h = (refl, refl)
  gone-Reports (stdout_ready chunk ∷ es) cursor effects h = gone-Reports es cursor effects h.1
  gone-Reports (stderr_ready chunk ∷ es) cursor effects h = gone-Reports es cursor effects h.1
  gone-Reports (stdin_ready n ∷ es) cursor effects h = gone-Reports es cursor effects h.1
  gone-Reports (child_exited status o e ∷ es) cursor effects h = gone-Reports es cursor effects h.1
  gone-Reports (cancelled e ∷ es) cursor effects h = absurd h.0
  gone-Reports (idle_runs ∷ es) cursor effects h = gone-Reports es cursor effects h.1
  gone-Reports (finalized ∷ es) cursor effects h = absurd h.0

  -- The standard input does not matter.
  abbrev Continues : List Event → Bytes → Bytes → Type 0
  Continues es out err =
      (id : ℕ) (cursor : Option Bytes) (pid : ℕ) (stdin : Pipe) (stdout stderr : ℕ)
      (effects : List Effect)
      → completions effects ≡ []
      → Reports (report out err es)
          (run w cmd es (alive w cmd [] id cursor pid stdin stdout stderr out err effects))

  writes :
      (n : ℕ) (es : List Event) (out err : Bytes)
      → Continues es out err
      → (id : ℕ) (cursor : Option Bytes) (pid : ℕ) (fd : Option ℕ) (ch source : Bool) (so se : ℕ)
        (effects : List Effect)
      → completions effects ≡ []
      → Reports (report out err es) (
          run w cmd
            (stdin_ready n ∷ es)
            (alive w cmd [] id cursor pid (pipe w cmd fd ch source) so se out err effects))
  unfolding run step handle write_child_stdin write_rest
  writes n es out err ih id cursor pid fd ch false so se effects h =
      ih id cursor pid (pipe w cmd fd ch false) so se effects h
  writes n es out err ih id none pid fd ch true so se effects h =
      ih id none pid no_pipe so se _ (close_fd-completions fd effects ∙ h)
  writes n es out err ih id (some []) pid fd ch true so se effects h =
      ih id (some []) pid no_pipe so se _ (close_fd-completions fd effects ∙ h)
  writes n es out err ih id (some (c ∷ s)) pid fd ch true so se effects h =
      ih id _ pid (pipe w cmd fd ch true) so se _ h

  exits :
      (status : ℕ) (o e : Option Bytes) (es : List Event) (out err : Bytes)
      → All Undisturbed es
      → Continues (child_exited status o e ∷ es) out err
  unfolding run step handle
  exits status o e es out err u id cursor pid stdin so se effects h =
      let c = verdict w cmd status (out ++ rest o) (err ++ rest e) in
      let (a, b) = gone-Reports es cursor (closings w cmd id stdin so se (emit c ∷ effects)) u in
      let same =
        ap (run w cmd es) (exit w cmd [] status o e id cursor pid stdin so se out err effects) in
      (
        ap (λ r. completions r.effects) same
            ∙ a
            ∙ closings-completions w cmd id stdin so se (emit c ∷ effects)
            ∙ ap (λ cs. c ∷ cs) h,
        ap (λ r. r.crashed) same ∙ b,
      )

  alive-Reports : (es : List Event) (out err : Bytes) → All Undisturbed es → Continues es out err
  unfolding run step handle read_child_stdout read_child_stderr append_len idle_cb
  alive-Reports [] out err u id cursor pid stdin so se effects h = (h, refl)
  alive-Reports (stdout_ready chunk ∷ es) out err u id cursor pid stdin so se effects h =
      alive-Reports es (out ++ chunk) err u.1 id cursor pid stdin so se effects h
  alive-Reports (stderr_ready chunk ∷ es) out err u id cursor pid stdin so se effects h =
      alive-Reports es out (err ++ chunk) u.1 id cursor pid stdin so se effects h
  alive-Reports (stdin_ready n ∷ es) out err u id cursor pid stdin so se effects h =
      writes n es out err (alive-Reports es out err u.1) id cursor pid stdin.fd stdin.channel
        stdin.source so se effects h
  alive-Reports (child_exited status o e ∷ es) out err u id cursor pid stdin so se effects h =
      exits status o e es out err u.1 id cursor pid stdin so se effects h
  alive-Reports (cancelled e ∷ es) out err u id cursor pid stdin so se effects h = absurd u.0
  alive-Reports (idle_runs ∷ es) out err u id cursor pid stdin so se effects h =
      alive-Reports es out err u.1 id cursor pid stdin so se effects h
  alive-Reports (finalized ∷ es) out err u id cursor pid stdin so se effects h = absurd u.0

  -- How the child ended, in words.
  abbrev pub How : ℕ → Bytes → Type 0
  How status how =
      ((w.exited status ≡ true)
        × (how
            ≡ cmd
              ++ (codes " exited with non-zero exit status " ++ decimal (w.exit_status status))))
      ⊎ ((w.exited status ≡ false)
          × (w.signaled status ≡ true)
          × ((name : Bytes) × ((w.number name ≡ w.term_sig status)
                ⊎ (name ≡ codes "UNKNOWN_SIGNAL"))
              × (how
                  ≡ cmd
                    ++ (codes " was signaled with signal "
                        ++ (name ++ (codes " (" ++ (decimal (w.term_sig status) ++ codes ")")))))))
      ⊎ ((w.exited status ≡ false) × (w.signaled status ≡ false) × (how ≡ []))

  -- What the child printed, as the message has it: each stream under the name of the other.
  abbrev pub printed : Bytes → Bytes → Bytes
  printed [] [] = []
  printed [] (c ∷ err) = codes ": " ++ c ∷ err
  printed (c ∷ out) [] = codes ": " ++ c ∷ out
  printed (c ∷ out) (d ∷ err) =
      codes "\nstdout: '" ++ (d ∷ err ++ (codes "'\nstderr: '" ++ (c ∷ out ++ codes "'")))

  -- What is reported of a child that ended with the wait status and has printed `out` and `err`.
  abbrev pub Told : ℕ → Bytes → Bytes → Completed → Type 0
  Told status out err c =
      ((w.exited status ≡ true) × (w.exit_status status ≡ 0) × (c ≡ completed true (c_string err)))
      ⊎ (((w.exited status ≡ true) → (w.exit_status status ≡ 0) → ⊥)
          × ((how : Bytes) × How status how
              × (c ≡ completed false (how ++ printed (c_string out) (c_string err)))))

  output-printed : (out err : Bytes) → output_message (some err) (some out) ≡ printed out err
  unfolding output_message has_text
  output-printed [] [] = refl
  output-printed [] (c ∷ err) = refl
  output-printed (c ∷ out) [] = refl
  output-printed (c ∷ out) (d ∷ err) = refl

  switch-name :
      (signals : List Bytes) (n : ℕ)
      → (w.number (switch_signal w.number signals n) ≡ n)
        ⊎ (switch_signal w.number signals n ≡ codes "UNKNOWN_SIGNAL")
  unfolding switch_signal
  switch-name [] n = inr refl
  switch-name (s ∷ signals) n = elim (Bool-cases (w.number s == n)) [
    | inl e ↦ inl (rw e ((==_iff (w.number s) n).0 e))
    | inr e ↦ rw e (switch-name signals n)
  ]

  status-How : (status : ℕ) → How status (status_message w cmd status)
  unfolding status_message get_signal_name
  status-How status = elim (Bool-cases (w.exited status)) [
    | inl e ↦ inl (e, simp e refl)
    | inr e ↦ elim (Bool-cases (w.signaled status)) [
      | inl f ↦ inr (
          inl (
            e,
            f,
            (
              get_signal_name w (w.term_sig status),
              switch-name handled_signals (w.term_sig status),
              simp (e, f) refl,
            ),
          ))
      | inr f ↦ inr (inr (e, f, simp (e, f) refl))
    ]
  ]

  verdict-Told : (status : ℕ) (out err : Bytes) → Told status out err (verdict w cmd status out err)
  unfolding verdict checked check_status_and_output
  verdict-Told status out err = elim (Bool-cases (w.exited status && w.exit_status status == 0)) [
    | inl e ↦ inl (ground (arith, e), ground (arith, e), simp e refl)
    | inr e ↦ inr (
      λ a b. ground (arith, a, b, e),
      (
        status_message w cmd status,
        status-How status,
        simp e (
            ap (λ x. completed false (status_message w cmd status ++ x))
              (output-printed (c_string out) (c_string err))),
      ),
    )
  ]

  -- The end of the child: its wait status, and what it has printed until then.
  abbrev pub ending : Bytes → Bytes → List Event → Option (ℕ × Bytes × Bytes)
  ending out err [] = none
  ending out err (stdout_ready chunk ∷ es) = ending (out ++ chunk) err es
  ending out err (stderr_ready chunk ∷ es) = ending out (err ++ chunk) es
  ending out err (child_exited status o e ∷ es) = some (status, out ++ rest o, err ++ rest e)
  ending out err (_ ∷ es) = ending out err es

  -- Nothing is reported before the child has ended, and then its end, once.
  abbrev pub Reported : Option (ℕ × Bytes × Bytes) → List Completed → Type 0
  Reported none cs = cs ≡ []
  Reported (some (status, out, err)) cs = (c : Completed) × (cs ≡ c ∷ []) × Told status out err c

  report-Reported :
      (es : List Event) (out err : Bytes) → Reported (ending out err es) (report out err es)
  report-Reported [] out err = refl
  report-Reported (stdout_ready chunk ∷ es) out err = report-Reported es (out ++ chunk) err
  report-Reported (stderr_ready chunk ∷ es) out err = report-Reported es out (err ++ chunk)
  report-Reported (stdin_ready n ∷ es) out err = report-Reported es out err
  report-Reported (child_exited status o e ∷ es) out err =
      (_, refl, verdict-Told status (out ++ rest o) (err ++ rest e))
  report-Reported (cancelled e ∷ es) out err = report-Reported es out err
  report-Reported (idle_runs ∷ es) out err = report-Reported es out err
  report-Reported (finalized ∷ es) out err = report-Reported es out err

  -- A job whose command was started, and which is neither cancelled nor dropped before its end, emits
  -- "completed" when the child exits and at no other time. It reports success, with what the child has
  -- printed on standard error, exactly if the child exited with status 0; else failure, with a message
  -- that says how the child ended and has all that it printed, in order, up to a zero byte. That message
  -- has each stream under the name of the other.
  pub run-report :
      (es : List Event) (argv : List Bytes) (input : Option Bytes) (id pid stdin stdout stderr : ℕ)
      → All Undisturbed es
      → let r = run w cmd es (constructed argv input none id (spawned pid stdin stdout stderr)) in
        Reported (ending [] [] es) (completions r.effects) × (r.crashed ≡ false)
  unfolding constructed watched fresh init
  run-report es argv input id pid stdin stdout stderr u =
      let (same, alive) =
        alive-Reports es [] [] u id input pid (input_pipe input stdin) stdout stderr [] refl in
      (subst (Reported (ending [] [] es)) (sym same) (report-Reported es [] []), alive)
