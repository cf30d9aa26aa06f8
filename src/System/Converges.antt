-- ===== src/System/Converges.antt =====
-- src/manager.c, src/volumegroup.c and src/daemon.c together: what the daemon has when all helpers have
-- ended.
use udisks_lvm.Base.{
  ℕ, ◌+◌, ◌<◌, ltb, Bool, true, false, ◌||◌, none, some, List, [], ◌∷◌, ◌++◌, append_assoc,
  append-nil, Bytes, length, if◌then◌else◌, ◌≡◌, ◌≢◌, refl, sym, subst, ap, ◌∙◌, inl, inr, arith,
}
use udisks_lvm.Base.Table.{lookup}
use udisks_lvm.Manager.{listed, contains}
use udisks_lvm.Manager.Updates.Timer.{OneTimer}
use udisks_lvm.System.{
  Helper, listing, show, System, Answer, on_listing, on_ended, Event, uevent, timeout, ended,
  polled, pick, finish, handle, run,
}
use udisks_lvm.System.Addresses.{
  Addressed, on_listing-Addressed, on_group_same, on_group-Addressed, on_listing-helpers,
  on_listing-delay,
}
use udisks_lvm.System.Follows.{
  pending, truth, UpToDate, Watched, Settled, Following, Faithful, uevent-Following, fire-Following,
}
use udisks_lvm.System.Helpers.{
  has_listing, has_show, has_listing-append, Picked, pick-cases, pick-append,
}
use udisks_lvm.System.Reports.{on_group-Following, show-Keeps, polled-Following, listing-Settled}
use udisks_lvm.Variant.{Dict}
use udisks_lvm.VolumeGroup.{VolumeGroup}
use udisks_lvm.VolumeGroup.Refresh.{update_with_variant}

not_empty : (k : ℕ) (old : List Helper) → k < length old → old ≢ []
not_empty k [] lt e = absurd (omega (arith, lt))
not_empty k (h ∷ old) lt e = cc

empty_right : (old new : List Helper) → old ++ new ≡ [] → new ≡ []
empty_right [] new e = e
empty_right (h ∷ old) new e = cc

not_pending : (b : Bool) (id : ℕ) → [] ≡ (if b then id ∷ [] else []) → b ≡ false
not_pending true id e = cc
not_pending false id e = refl

module _ (names : List Bytes) (dict : Bytes → Dict) where
  -- While a helper of before runs, a listing is still to come.
  still_to_come :
      (old rest new started : List Helper) (s t : System)
      → old ≢ []
      → Following names dict old new s
      → t.helpers ≡ (rest ++ new) ++ started
      → Addressed t
      → t.delay ≡ s.delay
      → Following names dict rest (new ++ started) t
  still_to_come old rest new started s t some_old f helpers addressed delay = record {
    split = helpers ∙ append_assoc rest new started;
    addressed = addressed;
    one_timer = subst OneTimer (sym delay) f.one_timer;
    progress = elim f.progress [
      | inl p ↦ inl (ap (λ d. ltb 0 d.lvm_delayed_update_id) delay ∙ p)
      | inr (inl l) ↦
          inr (inl (has_listing-append new started ∙ ap (λ b. b || has_listing started) l))
      | inr (inr (none_left, _)) ↦ absurd (some_old none_left)
    ];
  }

  -- The end of a helper that was running before, and of one of the others.
  ended_old :
      (h : Helper) (answer : Answer) (old rest new : List Helper) (s : System)
      → old ≢ []
      → Following names dict old new s
      → (new' : List Helper) × Following names dict rest new'
          (on_ended h answer (record s { helpers = rest ++ new }))
  unfolding on_ended
  ended_old listing answer old rest new s some_old f =
      let s' = record s { helpers = rest ++ new } in
      (
        new ++ _,
        still_to_come old rest new _ s _ some_old f (unfold on_listing in refl)
            (on_listing-Addressed answer.groups s') (on_listing-delay answer.groups s'),
      )
  ended_old (show name address) answer old rest new s some_old f =
      let s' = record s { helpers = rest ++ new } in
      let callback = update_with_variant (answer.report name) in
      let (_, helpers, delay) = on_group_same name address callback s' in
      (
        new ++ [],
        still_to_come old rest new [] s _ some_old f (helpers ∙ sym (append-nil (rest ++ new)))
            (on_group-Addressed name address callback s' f.addressed) delay,
      )

  ended_new :
      (h : Helper) (rest new : List Helper) (s : System)
      → Picked new h rest
      → Following names dict [] new s
      → (new' : List Helper) × Following names dict [] new'
          (on_ended h (truth names dict) (record s { helpers = rest }))
  unfolding on_ended
  ended_new listing rest new s p f =
      let s' = record s { helpers = rest } in
      (
        _,
        record {
          split = on_listing-helpers names s';
          addressed = on_listing-Addressed (listed names) s';
          one_timer = subst OneTimer (sym (on_listing-delay (listed names) s')) f.one_timer;
          progress = inr (inr (refl, listing-Settled names dict rest s'));
        },
      )
  ended_new (show name address) rest new s p f = (
    rest,
    on_group-Following names dict name address _ new rest
        (show-Keeps names dict name address new rest p) [] [] s (λ e. e) f,
  )

  timeout-Following :
      (old new : List Helper) (s : System)
      → Following names dict old new s
      → (new' : List Helper) × Following names dict old new' (handle timeout s)
  unfolding handle
  timeout-Following old new s f = fire-Following names dict old new s s.delay.timers refl f

  ended_new-Following :
      (k : ℕ) (new : List Helper) (s : System)
      → Following names dict [] new s
      → (new' : List Helper) × Following names dict [] new' (handle (ended k (truth names dict)) s)
  unfolding handle finish
  ended_new-Following k new s f = elim (pick-cases k new) [
    | inl e ↦
        let same : finish (pick k s.helpers) (truth names dict) s ≡ s =
          ap (λ p. finish p (truth names dict) s) (ap (pick k) f.split ∙ e) in
        (new, subst (Following names dict [] new) (sym same) f)
    | inr (h, rest, e, p) ↦ rw (f.split, e) (ended_new h rest new s p f)
  ]

  ended_old-Following :
      (k : ℕ) (answer : Answer) (old new : List Helper) (s : System)
      → k < length old
      → Following names dict old new s
      → (rest : List Helper) × (length rest + 1 ≡ length old)
        × ((new' : List Helper) × Following names dict rest new' (handle (ended k answer) s))
  unfolding handle
  ended_old-Following k answer old new s lt f =
      let (h, rest, e, l) = pick-append k old new lt in
      (
        rest,
        l,
        rw (f.split, e) (unfold finish in ended_old h answer old rest new s (not_empty k old lt) f),
      )

  run-Following :
      (es : List Event) (old new : List Helper) (s : System)
      → Faithful names dict (length old) es
      → Following names dict old new s
      → (old' : List Helper) × (new' : List Helper) × Following names dict old' new' (run es s)
  unfolding run
  run-Following [] old new s h f = (old, new, f)
  run-Following (uevent id objects device real_block ∷ es) old new s h f =
      run-Following es old new _ h.1
        (uevent-Following names dict id objects device real_block old new s h.0 f)
  run-Following (timeout ∷ es) old new s h f =
      let (new', f') = timeout-Following old new s f in run-Following es old new' _ h f'
  run-Following (polled name address pid report ∷ es) old new s h f =
      run-Following es old new _ h (polled-Following names dict name address pid report old new s f)
  run-Following (ended k answer ∷ es) [] new s h f =
      let (new', f') =
        subst (λ a. (new' : List Helper) × Following names dict [] new' (handle (ended k a) s))
          (sym h.0) (ended_new-Following k new s f) in
      run-Following es [] new' _ h.1 f'
  run-Following (ended k answer ∷ es) (o ∷ old) new s h f =
      let (rest, l, (new', f')) =
        ended_old-Following k answer (o ∷ old) new s (omega (arith, h.0)) f in
      let same : length rest ≡ length old = omega (arith, l) in
      run-Following es rest new' _ (subst (λ m. Faithful names dict m es) (sym same) h.1) f'

  abbrev pub Followed : System → Type 0
  Followed s =
      ((n : Bytes)
        → contains names n ≡ true
        → (group : VolumeGroup) × (lookup n s.groups ≡ some group) × UpToDate names dict n group)
      × ((n : Bytes) → contains names n ≡ false → lookup n s.groups ≡ none)

  watched :
      (s : System) (n : Bytes)
      → Watched names dict [] s n
      → (group : VolumeGroup) × (lookup n s.groups ≡ some group) × UpToDate names dict n group
  unfolding has_show
  watched s n (group, a, at, w) = (group, at.0, elim w [ inl shown ↦ cc | inr right ↦ right ])

  at_end :
      (old new : List Helper) (s : System)
      → Following names dict old new s
      → s.helpers ≡ []
      → s.delay.timers ≡ []
      → Followed s
  unfolding has_listing
  at_end old new s f no_helpers no_timers =
      let none_new : new ≡ [] = empty_right old new (sym f.split ∙ no_helpers) in
      elim f.progress [
        | inl p ↦ cc (not_pending (pending s) _ (sym no_timers ∙ f.one_timer), p)
        | inr (inl l) ↦ cc (l, ap has_listing none_new)
        | inr (inr (_, st)) ↦
            let st' : Settled names dict [] s = subst (λ hs. Settled names dict hs s) none_new st in
            (λ n c. watched s n (st'.there n c), st'.no_other)
      ]

  -- A listing is scheduled, and helpers may be running. From then on lvm2app has the groups `names`
  -- with the reports `dict`. If the helpers that are running end before those that are started later, then, whatever
  -- they answer, whatever uevents, timeouts and polls come in between, and in whatever order the later helpers end: when no helper
  -- runs and no timeout is pending any more, the daemon has exactly these groups, and each is published
  -- and has exactly the visible volumes of its report.
  pub run-Followed :
      (es : List Event) (s : System)
      → Addressed s
      → OneTimer s.delay
      → pending s ≡ true
      → Faithful names dict (length s.helpers) es
      → (run es s).helpers ≡ []
      → (run es s).delay.timers ≡ []
      → Followed (run es s)
  run-Followed es s addressed one p h no_helpers no_timers =
      let (old, new, f) = run-Following es s.helpers [] s h (record {
        split = sym (append-nil s.helpers);
        addressed = addressed;
        one_timer = one;
        progress = inl p;
      }) in
      at_end old new (run es s) f no_helpers no_timers
