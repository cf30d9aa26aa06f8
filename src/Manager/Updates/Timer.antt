-- ===== src/Manager/Updates/Timer.antt =====
-- src/manager.c: the timeout between a uevent and the lookup of the groups.
use udisks_lvm.Base.{
  ℕ, ◌+◌, ltb, Bool, true, false, ◌||◌, Option, List, [], ◌∷◌, Bytes, if◌then◌else◌, ◌≡◌, ◌≢◌, refl,
  sym, ap, ◌∙◌, inl, inr, arith, All, Bool-cases,
}
use udisks_lvm.Base.Table.{Table}
use udisks_lvm.Block.{UdevDevice}
use udisks_lvm.Daemon.{Object}
use udisks_lvm.Manager.Updates.{
  Delay, remove_source, delayed_lvm_update, trigger_delayed_lvm_update, do_delayed_lvm_update_now,
  concerns_lvm, handle_block_uevent_for_lvm,
}

-- At most one timeout is pending, and `lvm_delayed_update_id` is its identifier.
abbrev pub OneTimer : Delay → Type 0
OneTimer s = s.timers ≡ (if ltb 0 s.lvm_delayed_update_id then s.lvm_delayed_update_id ∷ [] else [])

or_false : (b : Bool) → (b || false) ≡ b
or_false true = refl
or_false false = refl

remove_only : (id : ℕ) → remove_source id (id ∷ []) ≡ []
unfolding remove_source
remove_only id = ground arith

now :
    (s : Delay)
    → s.timers ≡ s.lvm_delayed_update_id ∷ []
    → ltb 0 s.lvm_delayed_update_id ≡ true
    → do_delayed_lvm_update_now s
      ≡ record { lvm_delayed_update_id = 0; timers = []; updates = s.updates + 1 }
now s t e =
    unfold do_delayed_lvm_update_now in
    rw e (
      ap (λ ts. record { lvm_delayed_update_id = 0; timers = ts; updates = s.updates + 1 })
        (ap (remove_source s.lvm_delayed_update_id) t ∙ remove_only s.lvm_delayed_update_id))

module _ (objects : Table Object) where
  -- The uevents of a while, each with the identifier that a timeout gets then.
  unfoldable pub run_uevents : List (ℕ × UdevDevice × Option Bytes) → Delay → Delay
  run_uevents [] s = s
  run_uevents ((id, device, real_block) ∷ es) s =
      run_uevents es (handle_block_uevent_for_lvm id objects device real_block s)

  pub any_concerns : List (ℕ × UdevDevice × Option Bytes) → Bool
  any_concerns [] = false
  any_concerns ((id, device, real_block) ∷ es) =
      concerns_lvm objects device real_block || any_concerns es

  abbrev pub Positive : List (ℕ × UdevDevice × Option Bytes) → Type 0
  Positive es = All (λ e. e.0 ≢ 0) es

  -- What a uevent, or several, do to the state.
  Scheduled : Bool → Delay → Delay → Type 0
  Scheduled b s s' =
      OneTimer s'
      × (s'.updates ≡ s.updates)
      × (ltb 0 s'.lvm_delayed_update_id ≡ (ltb 0 s.lvm_delayed_update_id || b))

  trigger-Scheduled :
      (id : ℕ) (s : Delay)
      → id ≢ 0
      → OneTimer s
      → Scheduled true s (trigger_delayed_lvm_update id s)
  unfolding Scheduled trigger_delayed_lvm_update
  trigger-Scheduled id s h o = elim (Bool-cases (ltb 0 s.lvm_delayed_update_id)) [
    | inl e ↦ simp e (o ∙ simp e refl, refl, refl)
    | inr e ↦
        let none_pending : s.timers ≡ [] = o ∙ simp e refl in
        let positive : ltb 0 id ≡ true = ground arith in
        simp e (rw (none_pending, positive) refl, refl, positive)
  ]

  uevent-Scheduled :
      (id : ℕ) (device : UdevDevice) (real_block : Option Bytes) (s : Delay)
      → id ≢ 0
      → OneTimer s
      → Scheduled
          (concerns_lvm objects device real_block)
          s
          (handle_block_uevent_for_lvm id objects device real_block s)
  uevent-Scheduled id device real_block s h o =
      elim (Bool-cases (concerns_lvm objects device real_block)) [
        | inl e ↦ unfold handle_block_uevent_for_lvm in rw e (trigger-Scheduled id s h o)
        | inr e ↦
            unfold handle_block_uevent_for_lvm Scheduled in
            rw e (o, refl, sym (or_false (ltb 0 s.lvm_delayed_update_id)))
      ]

  or_assoc : (a b c : Bool) → ((a || b) || c) ≡ (a || (b || c))
  or_assoc true b c = refl
  or_assoc false b c = refl

  -- Whatever uevents come in, at most one timeout is pending behind them, and no lookup has been made
  -- because of them; a timeout is pending exactly if one was before or one of them concerns LVM.
  pub run_uevents-OneTimer :
      (es : List (ℕ × UdevDevice × Option Bytes)) (s : Delay)
      → Positive es
      → OneTimer s
      → OneTimer (run_uevents es s)
        × ((run_uevents es s).updates ≡ s.updates)
        × (ltb 0 (run_uevents es s).lvm_delayed_update_id
            ≡ (ltb 0 s.lvm_delayed_update_id || any_concerns es))
  unfolding run_uevents any_concerns Scheduled
  run_uevents-OneTimer [] s h o = (o, refl, sym (or_false (ltb 0 s.lvm_delayed_update_id)))
  run_uevents-OneTimer ((id, device, real_block) ∷ es) s h o =
      let (o1, same1, id1) = uevent-Scheduled id device real_block s h.0 o in
      let (o2, same2, id2) = run_uevents-OneTimer es _ h.1 o1 in
      (
        o2,
        same2 ∙ same1,
        id2
            ∙ ap (λ b. b || any_concerns es) id1
            ∙ or_assoc (ltb 0 s.lvm_delayed_update_id) (concerns_lvm objects device real_block)
                (any_concerns es),
      )

-- A timeout that is pending has the groups looked up once, and none is pending behind it; the same
-- holds when it is not waited for.
pub pending_update :
    (s : Delay)
    → OneTimer s
    → ltb 0 s.lvm_delayed_update_id ≡ true
    → (s.timers ≡ s.lvm_delayed_update_id ∷ [])
      × (delayed_lvm_update (record s { timers = [] })
          ≡ record { lvm_delayed_update_id = 0; timers = []; updates = s.updates + 1 })
      × (do_delayed_lvm_update_now s
          ≡ record { lvm_delayed_update_id = 0; timers = []; updates = s.updates + 1 })
pending_update s o e =
    let t : s.timers ≡ s.lvm_delayed_update_id ∷ [] = o ∙ simp e refl in
    (t, unfold delayed_lvm_update in refl, now s t e)
