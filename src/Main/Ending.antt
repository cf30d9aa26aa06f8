-- ===== src/Main/Ending.antt =====
-- src/main.c and src/daemon.c: when the program ends by itself.
use udisks_lvm.Base.{
  ℕ, Bool, true, false, Option, none, some, List, [], ◌∷◌, ◌⊎◌, ◌≡◌, refl, sym, inl, inr,
  Bool-cases, All, ◌++◌, subst, ap, ◌∙◌, append_assoc,
}
use udisks_lvm.Daemon.Lifecycle.{Daemon}
use udisks_lvm.Main.{
  iterate, Loop, waiting, left, aborted, returns, first_state, State, Event, handle, main_loop_run,
  loop_result, main,
}
use udisks_lvm.Main.Changes.{Undisturbed, Unused, Ending, handled-Ends}

iterate-append :
    (opt_debug : Bool) (es fs : List Event) (o : Option State)
    → iterate opt_debug (es ++ fs) o ≡ iterate opt_debug fs (iterate opt_debug es o)
unfolding iterate
iterate-append opt_debug es [] none = refl
iterate-append opt_debug es (f ∷ fs) none = refl
iterate-append opt_debug [] fs (some s) = refl
iterate-append opt_debug (e ∷ es) fs (some s) =
    iterate-append opt_debug es fs (handle opt_debug e s)

-- The events of iterations, in order.
abbrev pub events_of : List (List Event) → List Event
events_of [] = []
events_of (es ∷ ess) = es ++ events_of ess

module _ (opt_debug : Bool) where
  -- Among the events that lead from `s` to `s'` is one behind which the loop has been asked to quit and
  -- the daemon is not used; those behind it are dispatched all the same.
  abbrev pub Quits : List Event → State → State → Type 0
  Quits es s s' =
      (before : List Event) × (after : List Event) × (d : Daemon) × (es ≡ before ++ after)
      × (iterate opt_debug before (some s) ≡ some (record { daemon = some d; quit = true }))
      × Unused d
      × (iterate opt_debug after (some (record { daemon = some d; quit = true })) ≡ some s')

  asked_state :
      (s : State) (d : Daemon)
      → s.daemon ≡ some d
      → s.quit ≡ true
      → s ≡ record { daemon = some d; quit = true }
  asked_state s d e h =
      ap (λ o. record { daemon = o; quit = s.quit }) e
      ∙ ap (λ q. record { daemon = some d; quit = q }) h

  asked_later :
      (e : Event) (es : List Event) (s s1 s' : State)
      → handle opt_debug e s ≡ some s1
      → (s'.quit ≡ false) ⊎ Quits es s1 s'
      → (s'.quit ≡ false) ⊎ Quits (e ∷ es) s s'
  unfolding iterate
  asked_later e es s s1 s' h (inl r) = inl r
  asked_later e es s s1 s' h (inr (before, after, d, eq, b, u, a)) =
      inr (e ∷ before, after, d, ap (◌∷◌ e) eq, ap (iterate opt_debug before) h ∙ b, u, a)

  dispatched :
      (e : Event) (es : List Event) (s s' : State) (o : Option State)
      → handle opt_debug e s ≡ o
      → Ending o
      → iterate opt_debug es o ≡ some s'
      → ((s1 : State)
          → s1.quit ≡ false
          → iterate opt_debug es (some s1) ≡ some s'
          → (s'.quit ≡ false) ⊎ Quits es s1 s')
      → (s'.quit ≡ false) ⊎ Quits (e ∷ es) s s'
  unfolding iterate
  dispatched e es s s' none h ends i ih = cc
  dispatched e es s s' (some s1) h (inl q) i ih = asked_later e es s s1 s' h (ih s1 q i)
  dispatched e es s s' (some s1) h (inr (d, at, u)) i ih = elim (Bool-cases s1.quit) [
    | inl q ↦
        let same = asked_state s1 d at q in
        inr (
          e ∷ [],
          es,
          d,
          refl,
          ap (iterate opt_debug []) h ∙ ap some same,
          u,
          ap (λ x. iterate opt_debug es (some x)) (sym same) ∙ i,
        )
    | inr q ↦ asked_later e es s s1 s' h (ih s1 q i)
  ]

  iterate-Quits :
      (es : List Event) (s s' : State)
      → All Undisturbed es
      → s.quit ≡ false
      → iterate opt_debug es (some s) ≡ some s'
      → (s'.quit ≡ false) ⊎ Quits es s s'
  unfolding iterate
  iterate-Quits [] s s' u q e =
      let same : s ≡ s' = cc e in inl (subst (λ (x : State). x.quit ≡ false) same q)
  iterate-Quits (e ∷ es) s s' u q i =
      dispatched e es s s' (handle opt_debug e s) refl (handled-Ends opt_debug e s u.0 q) i
        λ s1 r j. iterate-Quits es s1 s' u.1 r j

  quit_left :
      (ess : List (List Event)) (s : State) → s.quit ≡ true → main_loop_run opt_debug ess s ≡ left s
  unfolding main_loop_run
  quit_left [] s q = simp q refl
  quit_left (es ∷ ess) s q = rw q refl

  -- The loop is left behind the iteration in which it was asked to quit.
  abbrev Leaves : List (List Event) → State → State → Type 0
  Leaves ess s s' =
      (es : List Event) × (rest : List Event) × (events_of ess ≡ es ++ rest) × Quits es s s'

  later :
      (es : List Event) (ess : List (List Event)) (s s1 s' : State)
      → iterate opt_debug es (some s) ≡ some s1
      → Leaves ess s1 s'
      → Leaves (es ∷ ess) s s'
  later es ess s s1 s' i (fs, rest, eq, (before, after, d, e2, b, u, a)) = (
    es ++ fs,
    rest,
    ap (◌++◌ es) eq ∙ sym (append_assoc es fs rest),
    (
      es ++ before,
      after,
      d,
      ap (◌++◌ es) e2 ∙ sym (append_assoc es before after),
      iterate-append opt_debug es before (some s) ∙ ap (iterate opt_debug before) i ∙ b,
      u,
      a,
    ),
  )

  next-Leaves :
      (es : List Event) (ess : List (List Event)) (s s' : State) (o : Option State)
      → All Undisturbed es
      → s.quit ≡ false
      → iterate opt_debug es (some s) ≡ o
      → elim o [ none ↦ aborted | some s1 ↦ main_loop_run opt_debug ess s1 ] ≡ left s'
      → ((s1 : State)
          → s1.quit ≡ false
          → main_loop_run opt_debug ess s1 ≡ left s'
          → Leaves ess s1 s')
      → Leaves (es ∷ ess) s s'
  next-Leaves es ess s s' none u q i e ih = cc
  next-Leaves es ess s s' (some s1) u q i e ih = elim (Bool-cases s1.quit) [
    | inr r ↦ later es ess s s1 s' i (ih s1 r e)
    | inl r ↦
        let same : s1 ≡ s' = cc (e, quit_left ess s1 r) in
        elim (iterate-Quits es s s1 u q i) [
          | inl f ↦ cc (r, f)
          | inr quits ↦ (es, events_of ess, refl, subst (Quits es s) same quits)
        ]
  ]

  no_iteration : (s : State) → s.quit ≡ false → main_loop_run opt_debug [] s ≡ waiting s
  unfolding main_loop_run
  no_iteration s q = simp q refl

  one_iteration :
      (es : List Event) (ess : List (List Event)) (s : State)
      → s.quit ≡ false
      → main_loop_run opt_debug (es ∷ ess) s ≡ elim (iterate opt_debug es (some s)) [
        | none ↦ aborted
        | some s1 ↦ main_loop_run opt_debug ess s1
      ]
  unfolding main_loop_run
  one_iteration es ess s q = rw q refl

  run-Leaves :
      (ess : List (List Event)) (s s' : State)
      → All (All Undisturbed) ess
      → s.quit ≡ false
      → main_loop_run opt_debug ess s ≡ left s'
      → Leaves ess s s'
  run-Leaves [] s s' u q e = cc (e, no_iteration s q)
  run-Leaves (es ∷ ess) s s' u q e =
      next-Leaves es ess s s' (iterate opt_debug es (some s)) u.0 q refl
        (sym (one_iteration es ess s q) ∙ e) λ s1 r f. run-Leaves ess s1 s' u.1 r f

returned :
    (ret : ℕ) (end : Option State) (l : Loop)
    → loop_result l ≡ returns ret end
    → (s : State) × (ret ≡ 0) × (end ≡ some s) × (l ≡ left s)
unfolding loop_result
returned ret end (waiting s) e = cc
returned ret end (left s) e = (s, cc, cc, refl)
returned ret end aborted e = cc

-- If g_setenv and the parsing of the options succeed, the bus is there, and there is no signal and no
-- closed input in debug mode, then `main` returns only 0, and only when the loop has been asked to quit:
-- behind some event the daemon was not persistent, had given up its name, and had no clients and no jobs
-- left. The events behind that one that were dispatched in the same iteration may still have changed it.
pub main-Ends :
    (opt_debug : Bool) (ess : List (List Event)) (ret : ℕ) (end : Option State)
    → All (All Undisturbed) ess
    → main true true opt_debug ess ≡ returns ret end
    → (s : State) × (ret ≡ 0)
      × (end ≡ some s)
      × ((es : List Event) × (rest : List Event) × (events_of ess ≡ es ++ rest)
          × Quits opt_debug es first_state s)
unfolding main
main-Ends opt_debug ess ret end u h =
    let (s, zero, same, l) = returned ret end (main_loop_run opt_debug ess first_state) h in
    (s, zero, same, run-Leaves opt_debug ess first_state s u refl l)
