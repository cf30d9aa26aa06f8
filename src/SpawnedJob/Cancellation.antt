-- ===== src/SpawnedJob/Cancellation.antt =====
-- src/spawnedjob.c: what becomes of a job that is cancelled while its child runs.
use udisks_lvm.Base.{
  ℕ, true, false, Option, none, List, [], ◌∷◌, ◌++◌, Bytes, ◌≡◌, ◌≢◌, refl, ap, ◌∙◌, All, arith,
  ◌==◌,
}
use udisks_lvm.SpawnedJob.{
  Pipe, Effect, emit, Running, close_fd, nuke_child, disconnect_cancellable, release_resources,
  verdict, completed_default, emitted, signal, idle_cb, on_cancelled,
  emit_completed_with_error_in_idle,
}
use udisks_lvm.SpawnedJob.Alive.{
  InputOutput, kills, close_fd-kills, Alive, run-Alive, run-append, started,
}
use udisks_lvm.SpawnedJob.Events.{
  spawned, constructed, Event, child_exited, cancelled, idle_runs, finalized, handle, step, run,
}
use udisks_lvm.SpawnedJob.States.{
  completions, alive, gone, exit, closings, closings-completions, rest,
}
use udisks_lvm.Util.Error.{GError, describe, completed}
use udisks_lvm.Util.Status.{WaitMacros}

module _ (w : WaitMacros) (cmd : Bytes) (id pid stdout stderr : ℕ) where
  module _ (cursor : Option Bytes) (stdin : Pipe) (out err : Bytes) (effects : List Effect) where
    abbrev here : List GError → List Effect → Running
    here idle effects' = alive w cmd idle id cursor pid stdin stdout stderr out err effects'

    queue :
        (e : GError)
        → (id == 0) ≡ false
        → step w cmd (cancelled e) (here [] effects) ≡ here (e ∷ []) effects
    unfolding step handle on_cancelled emit_completed_with_error_in_idle
    queue e h = rw h refl

    idle_step :
        (e : GError)
        → step w cmd idle_runs (here (e ∷ []) effects)
          ≡ here [] (emit (completed false (describe e)) ∷ effects)
    unfolding step handle idle_cb signal completed_default emitted
    idle_step e = refl

    drop_step :
        step w cmd finalized (here [] effects)
        ≡ gone w cmd [] cursor (closings w cmd id stdin stdout stderr (nuke_child pid effects))
    unfolding step handle release_resources close_fd
    drop_step = refl

    exit_step :
        (e : GError) (status : ℕ) (o o' : Option Bytes)
        → step w cmd (child_exited status o o') (here (e ∷ []) effects)
          ≡ gone w cmd (e ∷ []) cursor (
              closings w cmd id stdin stdout stderr
                (emit (verdict w cmd status (out ++ rest o) (err ++ rest o')) ∷ effects))
    unfolding step handle
    exit_step e status o o' =
        exit w cmd (e ∷ []) status o o' id cursor pid stdin stdout stderr out err effects

    crash_step :
        (e : GError) (effects' : List Effect)
        → (step w cmd idle_runs (gone w cmd (e ∷ []) cursor effects')).crashed ≡ true
    unfolding step handle idle_cb signal completed_default emitted
    crash_step e effects' = refl

    closings-kills :
        (effects' : List Effect)
        → kills (closings w cmd id stdin stdout stderr effects') ≡ kills effects'
    unfolding disconnect_cancellable
    closings-kills effects' = ground (arith, close_fd-kills stdin.fd effects')

  nuked_completions :
      (pid == 0) ≡ false
      → (effects : List Effect) → completions (nuke_child pid effects) ≡ completions effects
  unfolding nuke_child
  nuked_completions h effects = rw h refl

  nuked_kills :
      (pid == 0) ≡ false
      → (effects : List Effect) → kills (nuke_child pid effects) ≡ pid ∷ kills effects
  unfolding nuke_child
  nuked_kills h effects = rw h refl

  thrice :
      (a b c : Event) (r : Running) {r1 r2 r3 : Running}
      → step w cmd a r ≡ r1
      → step w cmd b r1 ≡ r2
      → step w cmd c r2 ≡ r3
      → run w cmd (a ∷ b ∷ c ∷ []) r ≡ r3
  unfolding run
  thrice a b c r p q s = ap (λ x. step w cmd c (step w cmd b x)) p ∙ ap (step w cmd c) q ∙ s

  nonzero : (n : ℕ) → n ≢ 0 → (n == 0) ≡ false
  nonzero n h = ground arith

  -- The callback that was queued on cancellation runs while the child does, and then the job is
  -- dropped.
  dropped :
      (e : GError) (r : Running)
      → (id == 0) ≡ false
      → (pid == 0) ≡ false
      → Alive w cmd id pid stdout stderr r
      → let r' = run w cmd (cancelled e ∷ idle_runs ∷ finalized ∷ []) r in
        (completions r'.effects ≡ completed false (describe e) ∷ [])
        × (kills r'.effects ≡ pid ∷ [])
        × (r'.crashed ≡ false)
  dropped e r hi hp a =
      let es = emit (completed false (describe e)) ∷ a.effects in
      let q = queue a.cursor a.stdin a.out a.err a.effects e hi in
      let x = idle_step a.cursor a.stdin a.out a.err a.effects e in
      let z = drop_step a.cursor a.stdin a.out a.err es in
      let same =
        thrice (cancelled e) idle_runs finalized r (ap (step w cmd (cancelled e)) a.is ∙ q) x z in
      (
        ap (λ r. completions r.effects) same
            ∙ closings-completions w cmd id a.stdin stdout stderr _
            ∙ nuked_completions hp es
            ∙ ap (λ cs. completed false (describe e) ∷ cs) a.silent.0,
        ap (λ r. kills r.effects) same
            ∙ closings-kills a.cursor a.stdin a.out a.err a.effects _
            ∙ nuked_kills hp es
            ∙ ap (λ ks. pid ∷ ks) a.silent.1,
        ap (λ r. r.crashed) same,
      )

  crashes :
      (e : GError) (status : ℕ) (o o' : Option Bytes) (r : Running)
      → (id == 0) ≡ false
      → Alive w cmd id pid stdout stderr r
      → (run w cmd (cancelled e ∷ child_exited status o o' ∷ idle_runs ∷ []) r).crashed ≡ true
  crashes e status o o' r hi a =
      let q = queue a.cursor a.stdin a.out a.err a.effects e hi in
      let x = exit_step a.cursor a.stdin a.out a.err a.effects e status o o' in
      ap (λ r. r.crashed)
        (thrice (cancelled e) (child_exited status o o') idle_runs r
          (ap (step w cmd (cancelled e)) a.is ∙ q) x refl)
      ∙ crash_step a.cursor a.stdin a.out a.err a.effects e _

  -- A job that is cancelled while its child runs has a callback pending. If that runs first, the job
  -- reports the error of the cancellation, and dropping the job kills the child. If the child exits
  -- first, what the callback reads has been freed and set to NULL.
  pub run-cancelled :
      (es : List Event) (argv : List Bytes) (input : Option Bytes) (stdin : ℕ) (e : GError)
      (status : ℕ) (o o' : Option Bytes)
      → id ≢ 0
      → pid ≢ 0
      → All InputOutput es
      → let r = constructed argv input none id (spawned pid stdin stdout stderr) in
        let r' = run w cmd (es ++ cancelled e ∷ idle_runs ∷ finalized ∷ []) r in
        let late = es ++ cancelled e ∷ child_exited status o o' ∷ idle_runs ∷ [] in
        ((completions r'.effects ≡ completed false (describe e) ∷ [])
          × (kills r'.effects ≡ pid ∷ [])
          × (r'.crashed ≡ false))
        × ((run w cmd late r).crashed ≡ true)
  run-cancelled es argv input stdin e status o o' hi hp io =
      let r = constructed argv input none id (spawned pid stdin stdout stderr) in
      let a =
        run-Alive w cmd id pid stdout stderr es r io
          (started w cmd id pid stdout stderr argv input stdin) in
      let last = run-append w cmd id pid stdout stderr es in
      (
        rw (last _ r) (dropped e _ (nonzero id hi) (nonzero pid hp) a),
        ap (λ x. x.crashed) (last _ r) ∙ crashes e status o o' _ (nonzero id hi) a,
      )
