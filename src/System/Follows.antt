-- ===== src/System/Follows.antt =====
-- src/manager.c, src/volumegroup.c and src/daemon.c together: when all helpers have ended, the daemon
-- has the groups and volumes that lvm2app has.
use udisks_lvm.Base.{
  ℕ, zero, suc, ◌≤◌, ltb, Bool, true, false, ◌||◌, Option, none, List, [], ◌∷◌, ◌++◌, append_assoc,
  Bytes, if◌then◌else◌, ◌≡◌, ◌≢◌, ◌⊎◌, refl, sym, ap, ◌∙◌, inl, inr,
}
use udisks_lvm.Base.Table.{Table, lookup}
use udisks_lvm.Block.{UdevDevice}
use udisks_lvm.Daemon.{Object}
use udisks_lvm.Manager.{listed, contains}
use udisks_lvm.Manager.Updates.{delayed_lvm_update, handle_block_uevent_for_lvm}
use udisks_lvm.Manager.Updates.Timer.{OneTimer, run_uevents, any_concerns, run_uevents-OneTimer}
use udisks_lvm.System.{
  Helper, listing, System, Answer, Event, uevent, timeout, ended, polled, fire, handle,
}
use udisks_lvm.System.Addresses.{Addressed, Present}
use udisks_lvm.System.Helpers.{has_listing, has_show, has_listing-append}
use udisks_lvm.Variant.{Dict, lookup_dicts}
use udisks_lvm.VolumeGroup.{VolumeGroup}
use udisks_lvm.VolumeGroup.Refresh.{info}
use udisks_lvm.VolumeGroup.Update.{infos_of}
use udisks_lvm.VolumeGroup.Update as Update
use udisks_lvm.VolumeGroup.Update.Tracking.{is_some, shown}

-- A listing is scheduled.
abbrev pub pending : System → Bool
pending s = ltb 0 s.delay.lvm_delayed_update_id

or_true : (b : Bool) → (b || true) ≡ true
or_true true = refl
or_true false = refl

pub only_timer :
    (id : ℕ) (timers : List ℕ) (b : Bool) (other : ℕ)
    → id ∷ timers ≡ (if b then other ∷ [] else [])
    → timers ≡ []
only_timer id timers true other e = cc
only_timer id timers false other e = cc

-- What lvm2app has: the groups, and of each a report.
module _ (names : List Bytes) (dict : Bytes → Dict) where
  abbrev pub truth : Answer
  truth = record { groups = listed names; report = λ n. info (dict n) }

  -- The group is published, and has the visible volumes of the report on the group of that name.
  abbrev pub UpToDate : Bytes → VolumeGroup → Type 0
  UpToDate n group =
      (group.need_publish ≡ false)
      × ((v : Bytes)
          → is_some (lookup v group.logical_volumes)
            ≡ Update.contains (shown (infos_of (lookup_dicts (dict n) "lvs"))) v)

  -- There is a group of the name, and it is up to date, or one of the helpers will report on it.
  abbrev pub Watched : List Helper → System → Bytes → Type 0
  Watched hs s n =
      (group : VolumeGroup) × (a : ℕ) × Present n s group a
      × ((has_show n a hs ≡ true) ⊎ UpToDate n group)

  pub record Settled (hs : List Helper) (s : System) : Type 0 where
    pub there : (n : Bytes) → contains names n ≡ true → Watched hs s n
    pub no_other : (n : Bytes) → contains names n ≡ false → lookup n s.groups ≡ none

  -- The helpers `old` have been started before lvm2app had this, the others since.
  pub record Following (old new : List Helper) (s : System) : Type 0 where
    pub split : s.helpers ≡ old ++ new
    pub addressed : Addressed s
    pub one_timer : OneTimer s.delay
    pub progress : (pending s ≡ true) ⊎ (has_listing new ≡ true) ⊎ ((old ≡ []) × Settled new s)

  -- Helpers of before end before the others, with any answer; the others find what lvm2app has. The
  -- identifiers of timeouts are positive.
  abbrev pub Faithful : ℕ → List Event → Type 0
  Faithful m [] = Unit
  Faithful m (uevent id objects device real_block ∷ es) = (id ≢ 0) × Faithful m es
  Faithful m (timeout ∷ es) = Faithful m es
  Faithful m (polled name address pid report ∷ es) = Faithful m es
  Faithful zero (ended k answer ∷ es) = (answer ≡ truth) × Faithful 0 es
  Faithful (suc m) (ended k answer ∷ es) = (k ≤ m) × Faithful m es

  pub uevent-Following :
      (id : ℕ) (objects : Table Object) (device : UdevDevice) (real_block : Option Bytes)
      (old new : List Helper) (s : System)
      → id ≢ 0
      → Following old new s
      → Following old new (handle (uevent id objects device real_block) s)
  unfolding handle
  uevent-Following id objects device real_block old new s h f =
      let (one, _, kept) =
        run_uevents-OneTimer objects ((id, device, real_block) ∷ []) s.delay (h, tt) f.one_timer in
      let id_kept : ltb 0
            (handle_block_uevent_for_lvm id objects device real_block s.delay).lvm_delayed_update_id
          ≡ (ltb 0 s.delay.lvm_delayed_update_id
              || any_concerns objects ((id, device, real_block) ∷ [])) =
        unfold run_uevents in kept in
      record {
        split = f.split;
        addressed = f.addressed;
        one_timer = unfold run_uevents in one;
        progress = elim f.progress [
          | inl p ↦
              inl (id_kept ∙ ap (λ b. b || any_concerns objects ((id, device, real_block) ∷ [])) p)
          | inr (inl p) ↦ inr (inl p)
          | inr (inr (e, st)) ↦ inr (inr (e, record { there = st.there; no_other = st.no_other }))
        ];
      }

  append_listing : (hs : List Helper) → has_listing (hs ++ listing ∷ []) ≡ true
  unfolding has_listing
  append_listing hs = has_listing-append hs (listing ∷ []) ∙ or_true (has_listing hs)

  pub fire-Following :
      (old new : List Helper) (s : System) (timers : List ℕ)
      → s.delay.timers ≡ timers
      → Following old new s
      → (new' : List Helper) × Following old new' (fire timers s)
  unfolding fire delayed_lvm_update
  fire-Following old new s [] e f = (new, f)
  fire-Following old new s (id ∷ timers) e f = (
    new ++ listing ∷ [],
    record {
      split = ap (λ hs. hs ++ listing ∷ []) f.split ∙ append_assoc old new (listing ∷ []);
      addressed = f.addressed;
      one_timer = only_timer id timers (pending s) _ (sym e ∙ f.one_timer);
      progress = inr (inl (append_listing new));
    },
  )
