-- ===== src/VolumeGroup/Poll/Invariant.antt =====
-- src/volumegroup.c: what holds of polling at any time.
use udisks_lvm.Base.{
  ℕ, ◌<◌, true, false, Option, none, some, List, [], ◌∷◌, ◌++◌, Bytes, ◌≡◌, ◌≢◌, ◌==◌, refl, sym,
  ◌∙◌, ap, inl, inr, if◌then◌else◌, length, length-append, arith, Bool-cases, ==_iff,
}
use udisks_lvm.LogicalVolume.{LogicalVolume}
use udisks_lvm.Variant.{Dict, lookup_string, lookup_dicts}
use udisks_lvm.VolumeGroup.{VolumeGroup}
use udisks_lvm.VolumeGroup.Poll.{
  Poller, set_group, poll, poll_now, poll_in_main, poll_timeout, reported, Step, request, idle,
  fire, report, Reachable, start, next,
}
use udisks_lvm.VolumeGroup.Refresh.{
  World, Report, info, failure, poll_found, poll_volume, poll_rounds, poll_report,
  poll_with_variant,
}
use udisks_lvm.VolumeGroup.Update.{infos_of, update_props}

-- The fields of the timeout are the same in both.
abbrev Unmoved : VolumeGroup → VolumeGroup → Type 0
Unmoved g h = (g.poll_timeout_id ≡ h.poll_timeout_id) × (g.poll_requested ≡ h.poll_requested)

poll_found-Unmoved :
    (found : Option LogicalVolume) (name : Bytes) (d : Dict) (w : World)
    → Unmoved w.self (poll_found found name d w).self
unfolding poll_found
poll_found-Unmoved none name d w = (refl, refl)
poll_found-Unmoved (some volume) name d w = (refl, refl)

poll_volume-Unmoved :
    (name : Option Bytes) (d : Dict) (w : World) → Unmoved w.self (poll_volume name d w).self
poll_volume-Unmoved none d w = unfold poll_volume in (refl, refl)
poll_volume-Unmoved (some name) d w = unfold poll_volume in poll_found-Unmoved _ name d w

poll_rounds-Unmoved : (ds : List Dict) (w : World) → Unmoved w.self (poll_rounds ds w).self
unfolding poll_rounds
poll_rounds-Unmoved [] w = (refl, refl)
poll_rounds-Unmoved (d ∷ ds) w =
    let (a, b) = poll_volume-Unmoved (lookup_string d "name") d _ in
    let (a', b') = poll_rounds-Unmoved ds _ in (a ∙ a', b ∙ b')

poll_report-Unmoved : (r : Report) (w : World) → Unmoved w.self (poll_report r w).self
unfolding poll_report update_props
poll_report-Unmoved (failure message) w = (refl, refl)
poll_report-Unmoved (info d) w =
    poll_rounds-Unmoved (infos_of (lookup_dicts d "lvs"))
      (record w { self = update_props w.self d })

reported-Unmoved :
    (pid : ℕ) (r : Report) (p : Poller) → Unmoved p.world.self (reported pid r p).world.self
unfolding reported poll_with_variant
reported-Unmoved pid r p = elim (Bool-cases (pid == p.world.self.poll_pid)) [
  | inl e ↦ simp e (poll_report-Unmoved r _)
  | inr e ↦ simp e (refl, refl)
]

-- The pending timeouts of a group with this `poll_timeout_id`.
abbrev pub pending : ℕ → List ℕ
pending id = if id == 0 then [] else id ∷ []

pub record Quiet (p : Poller) : Type 0 where
  pub one_timer : p.timers ≡ pending p.world.self.poll_timeout_id
  pub remembered : p.world.self.poll_requested ≡ true → p.world.self.poll_timeout_id ≢ 0

pub zero_test : (n : ℕ) → n ≢ 0 → (n == 0) ≡ false
zero_test n h = ground arith

pub positive : (n : ℕ) → (n == 0) ≡ false → n ≢ 0
positive n h = ground arith

pub is_zero : (n : ℕ) → (n == 0) ≡ true → n ≡ 0
is_zero n h = (==_iff n 0).0 h

-- `poll_now` is only called while no timeout is pending and no poll is asked for.
poll_now-Quiet :
    (timer pid : ℕ) (p : Poller)
    → timer ≢ 0
    → p.timers ≡ []
    → p.world.self.poll_requested ≡ false
    → Quiet (poll_now timer pid p)
unfolding poll_now
poll_now-Quiet timer pid p h e r = record {
  one_timer = rw (e, zero_test timer h) refl;
  remembered = λ c. h;
}

not_requested :
    (p : Poller) → Quiet p → p.world.self.poll_timeout_id ≡ 0 → p.world.self.poll_requested ≡ false
not_requested p q e = elim (Bool-cases p.world.self.poll_requested) [
  | inl r ↦ absurd (q.remembered r e)
  | inr r ↦ r
]

poll_in_main-Quiet :
    (n timer pid : ℕ) (p : Poller)
    → timer ≢ 0
    → Quiet p
    → Quiet (poll_in_main timer pid (record p { idles = n }))
unfolding poll_in_main
poll_in_main-Quiet n timer pid p h q = elim (Bool-cases (p.world.self.poll_timeout_id == 0)) [
  | inl e ↦ simp e (
      poll_now-Quiet timer pid (record p { idles = n }) h (q.one_timer ∙ simp e refl)
        (not_requested p q (is_zero p.world.self.poll_timeout_id e)))
  | inr e ↦ simp e (record { one_timer = q.one_timer; remembered = λ c. positive _ e })
]

length-pending : (k : ℕ) → length (pending k) < 2
length-pending k = ground arith

empty : (l : List ℕ) → length l ≡ 0 → l ≡ []
empty [] e = refl
empty (x ∷ l) e = absurd (omega (arith, e))

-- Of one pending timeout nothing is left when it runs.
none_left :
    (k id : ℕ) (before after : List ℕ) → pending k ≡ before ++ id ∷ after → before ++ after ≡ []
none_left k id before after e = empty (before ++ after) (
    omega (
      arith,
      length-pending k,
      ap length e,
      length-append before after,
      length-append before (id ∷ after),
    ))

poll_timeout-Quiet :
    (timer pid : ℕ) (p : Poller) → timer ≢ 0 → p.timers ≡ [] → Quiet (poll_timeout timer pid p)
unfolding poll_timeout
poll_timeout-Quiet timer pid p h e = elim (Bool-cases p.world.self.poll_requested) [
  | inl r ↦ simp r (
      let self = record (p.world.self) { poll_timeout_id = 0; poll_requested = false } in
      poll_now-Quiet timer pid (set_group p self) h e refl)
  | inr r ↦ simp r (record { one_timer = e; remembered = λ c. cc })
]

Step-Quiet : {p q : Poller} → Step p q → Quiet p → Quiet q
Step-Quiet (request p) v =
    unfold poll in record { one_timer = v.one_timer; remembered = v.remembered }
Step-Quiet (idle p n timer pid e h) v = poll_in_main-Quiet n timer pid p h v
Step-Quiet (fire p before after id timer pid e h) v =
    poll_timeout-Quiet timer pid (record p { timers = before ++ after }) h
      (none_left p.world.self.poll_timeout_id id before after (sym v.one_timer ∙ e))
Step-Quiet (report p pid r) v =
    let (a, b) = reported-Unmoved pid r p in
    record {
      one_timer = unfold reported in v.one_timer ∙ ap pending a;
      remembered = λ c. λ z. v.remembered (b ∙ c) (a ∙ z);
    }

-- Whatever requests, timeouts and reports come in, and in whatever order: at most one timeout is
-- pending, `poll_timeout_id` is its identifier and 0 if there is none, and a poll that had to be put
-- off is only recorded while the timeout that will make up for it is pending.
pub Reachable-Quiet : (first p : Poller) → Quiet first → Reachable first p → Quiet p
Reachable-Quiet first _ v start = v
Reachable-Quiet first q v (next {p} r s) = Step-Quiet s (Reachable-Quiet first p v r)
