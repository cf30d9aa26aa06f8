-- ===== src/Completion/Replies.antt =====
-- src/manager.c, src/volumegroup.c, src/logicalvolume.c: what a caller that waits for a new object is
-- told, whatever the order in which the object appears and the job is done.
use udisks_lvm.Base.{
  true, false, Option, none, some, List, [], ◌∷◌, ◌++◌, Bytes, ◌≡◌, ◌≢◌, refl, sym, ap, ◌∙◌, inl,
  inr, Bool-cases, arith, if◌then◌else◌,
}
use udisks_lvm.Bus.{Reply, completed_path}
use udisks_lvm.Completion.{
  Waited, matches, path_of, waiting, freed, misused, Event, published, job_completed, State,
  job_error, on_published, on_complete, handle, run,
}

module _ (wait : Waited) (prefix : Bytes) where
  -- What an event makes of a call that has not been answered.
  pub decision : Event → Option Reply
  decision (published thing) =
      if matches wait thing then some (completed_path (path_of thing)) else none
  decision (job_completed true message) = none
  decision (job_completed false message) = some (job_error prefix message)

  or_else : Option Reply → List Reply → List Reply
  or_else none rest = rest
  or_else (some r) rest = r ∷ []

  -- The first decision, alone.
  unfoldable pub answer : List Event → List Reply
  unfolding decision or_else
  answer [] = []
  answer (e ∷ es) = or_else (decision e) (answer es)

  -- Nothing is answered with a closure that is gone.
  run_misused : (es : List Event) (r : List Reply) → run wait prefix es (misused, r) ≡ (misused, r)
  unfolding run handle on_published on_complete
  run_misused [] r = refl
  run_misused (published thing ∷ es) r = run_misused es r
  run_misused (job_completed true message ∷ es) r = run_misused es r
  run_misused (job_completed false message ∷ es) r = run_misused es r

  run_freed : (es : List Event) (r : List Reply) → (run wait prefix es (freed, r)).1 ≡ r
  unfolding run handle on_published on_complete
  run_freed [] r = refl
  run_freed (published thing ∷ es) r = run_freed es r
  run_freed (job_completed true message ∷ es) r = run_freed es r
  run_freed (job_completed false message ∷ es) r = ap (λ s. s.1) (run_misused es r)

  handle_waiting :
      (e : Event)
      → handle wait prefix e (waiting, [])
        ≡ elim (decision e) [ none ↦ (waiting, []) | some r ↦ (freed, r ∷ []) ]
  unfolding handle on_published on_complete decision
  handle_waiting (published thing) = ground arith
  handle_waiting (job_completed true message) = refl
  handle_waiting (job_completed false message) = refl

  continue :
      (es : List Event) (o : Option Reply)
      → (run wait prefix es (waiting, [])).1 ≡ answer es
      → (run wait prefix es (elim o [ none ↦ (waiting, []) | some r ↦ (freed, r ∷ []) ])).1
        ≡ or_else o (answer es)
  unfolding or_else
  continue es none ih = ih
  continue es (some r) ih = run_freed es (r ∷ [])

  -- The caller gets the first reply that an event gives rise to, and no other: the path of the first
  -- matching object that is published, unless the job failed before that, and then its message.
  pub run-answer : (es : List Event) → (run wait prefix es (waiting, [])).1 ≡ answer es
  unfolding run answer
  run-answer [] = refl
  run-answer (e ∷ es) =
      ap (λ s. (run wait prefix es s).1) (handle_waiting e)
      ∙ continue es (decision e) (run-answer es)

  run-append :
      (es fs : List Event) (s : State)
      → run wait prefix (es ++ fs) s ≡ run wait prefix fs (run wait prefix es s)
  unfolding run
  run-append [] fs s = refl
  run-append (e ∷ es) fs s = run-append es fs (handle wait prefix e s)

  -- While the closure waits there is no reply.
  abbrev Unanswered : State → Type 0
  Unanswered s = s.0 ≡ waiting → s.1 ≡ []

  handle-Unanswered : (e : Event) (s : State) → Unanswered s → Unanswered (handle wait prefix e s)
  unfolding handle on_published on_complete
  handle-Unanswered (published thing) (waiting, r) h = elim (Bool-cases (matches wait thing)) [
    | inl e ↦ simp e λ c. cc
    | inr e ↦ simp e h
  ]
  handle-Unanswered (published thing) (freed, r) h = λ c. cc
  handle-Unanswered (published thing) (misused, r) h = λ c. cc
  handle-Unanswered (job_completed true message) s h = h
  handle-Unanswered (job_completed false message) (waiting, r) h = λ c. cc
  handle-Unanswered (job_completed false message) (freed, r) h = λ c. cc
  handle-Unanswered (job_completed false message) (misused, r) h = λ c. cc

  run-Unanswered : (es : List Event) (s : State) → Unanswered s → Unanswered (run wait prefix es s)
  unfolding run
  run-Unanswered [] s h = h
  run-Unanswered (e ∷ es) s h = run-Unanswered es _ (handle-Unanswered e s h)

  waits_unanswered :
      (es : List Event)
      → (run wait prefix es (waiting, [])).0 ≡ waiting
      → (run wait prefix es (waiting, [])).1 ≡ []
  waits_unanswered es h = run-Unanswered es (waiting, []) (λ c. refl) h

  fail_answered :
      (message : Bytes) (s : State)
      → s.0 ≢ waiting
      → (run wait prefix (job_completed false message ∷ []) s).0 ≡ misused
  unfolding run handle on_complete
  fail_answered message (waiting, r) h = absurd (h refl)
  fail_answered message (freed, r) h = refl
  fail_answered message (misused, r) h = refl

  -- Once the call has been answered, a failure of the job makes its handler read the closure that has
  -- been freed.
  pub late_failure :
      (es : List Event) (message : Bytes)
      → answer es ≢ []
      → (run wait prefix (es ++ job_completed false message ∷ []) (waiting, [])).0 ≡ misused
  late_failure es message h =
      let s = run wait prefix es (waiting, []) in
      ap (λ x. x.0) (run-append es (job_completed false message ∷ []) (waiting, []))
      ∙ fail_answered message s λ e. h (sym (run-answer es) ∙ waits_unanswered es e)
