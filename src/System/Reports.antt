-- ===== src/System/Reports.antt =====
-- src/manager.c, src/volumegroup.c and src/daemon.c together: what the reports of helpers and a
-- listing leave of what the daemon follows.
use udisks_lvm.Base.{
  ℕ, ltb, Bool, true, false, ◌&&◌, ◌||◌, some, List, [], ◌++◌, Bytes, ◌==◌, ◌≡◌, ◌⊎◌, refl, sym,
  subst, ap, ◌∙◌, inl, inr, arith, Bool-cases, str_equal, str_equal_iff, ==_iff,
}
use udisks_lvm.Base.Table.{lookup}
use udisks_lvm.Cycle.{updated}
use udisks_lvm.Manager.{listed}
use udisks_lvm.Manager.Tracking.{group_or_new}
use udisks_lvm.Manager.Updates.Timer.{OneTimer}
use udisks_lvm.System.{
  Helper, show, System, shows, on_listing, Callback, world_of, on_group, polled, handle,
}
use udisks_lvm.System.Addresses.{
  present, on_listing-Addressed, on_group_same, on_group_found, on_group_missing,
  on_group-Addressed, on_listing-lookup,
}
use udisks_lvm.System.Follows.{UpToDate, Watched, Settled, Following}
use udisks_lvm.System.Helpers.{has_listing, has_show, has_show-append, has_show-shows, Picked}
use udisks_lvm.Variant.{Dict}
use udisks_lvm.VolumeGroup.Refresh.{World, Report, info, update_with_variant, poll_with_variant}
use udisks_lvm.VolumeGroup.Refresh.Fields.{updated-published, polled-Same}
use udisks_lvm.VolumeGroup.Refresh.Keys.{poll_with_variant-keys}

or_true : (b : Bool) → (b || true) ≡ true
or_true true = refl
or_true false = refl

not_shown :
    (n name : Bytes) (a address : ℕ) (rest : Bool)
    → ((name ≡ n) → (address ≡ a) → ⊥)
    → ((str_equal name n && address == a) || rest) ≡ true
    → rest ≡ true
not_shown n name a address rest h e = elim (Bool-cases (str_equal name n)) [
  | inl same ↦ elim (Bool-cases (address == a)) [
    | inl q ↦ absurd (h ((str_equal_iff name n).0 same) ((==_iff address a).0 q))
    | inr q ↦ ground (arith, e, same, q)
  ]
  | inr other ↦ ground (arith, e, other)
]

module _ (names : List Bytes) (dict : Bytes → Dict) where
  -- A report leaves the group of its name up to date if it was, or makes it so; `hs` are the helpers
  -- before it, and `rest` those behind it.
  pub record Keeps (name : Bytes) (address : ℕ) (callback : Callback) (hs rest : List Helper)
      : Type 0 where
    pub hit :
        (w : World)
        → ((has_show name address hs ≡ true) ⊎ UpToDate names dict name w.self)
        → (has_show name address rest ≡ true) ⊎ UpToDate names dict name (callback w).self
    pub miss :
        (n : Bytes) (a : ℕ)
        → ((name ≡ n) → (address ≡ a) → ⊥)
        → has_show n a hs ≡ true
        → has_show n a rest ≡ true
    pub listings : has_listing hs ≡ true → has_listing rest ≡ true

  module _ (name : Bytes) (address : ℕ) (callback : Callback) (hs rest : List Helper)
      (k : Keeps name address callback hs rest) where
    abbrev Kept : Bytes → ℕ → World → Type 0
    Kept n a w =
        ((has_show n a hs ≡ true) ⊎ UpToDate names dict n w.self)
        → (has_show n a rest ≡ true) ⊎ UpToDate names dict n (callback w).self

    hit_at : (n : Bytes) (a : ℕ) → name ≡ n → address ≡ a → (w : World) → Kept n a w
    hit_at n a same q w = subst (λ x. Kept x a w) same (subst (λ x. Kept name x w) q (k.hit w))

    on_group-Watched :
        (s : System) (n : Bytes)
        → Watched names dict hs s n
        → Watched names dict rest (on_group name address callback s) n
    on_group-Watched s n (group, a, at, w) =
        let still : lookup n (on_group name address callback s).addresses ≡ some a =
          ap (lookup n) (on_group_same name address callback s).0 ∙ at.1 in
        elim (on_group_found name address callback s n group a at) [
          | inl (same, q, e) ↦ (
            (callback (world_of group s)).self,
            a,
            (e, still),
            hit_at n a same q (world_of group s) (unfold world_of in w),
          )
          | inr (other, e) ↦ (
            group,
            a,
            (e, still),
            elim w [ inl shown ↦ inl (k.miss n a other shown) | inr right ↦ inr right ],
          )
        ]

    on_group-Settled :
        (s : System)
        → Settled names dict hs s
        → Settled names dict rest (on_group name address callback s)
    on_group-Settled s st = record {
      there = λ n c. on_group-Watched s n (st.there n c);
      no_other = λ n c. on_group_missing name address callback s n (st.no_other n c);
    }

    pub on_group-Following :
        (old old' : List Helper) (s : System)
        → (old ≡ [] → old' ≡ [])
        → Following names dict old hs s
        → Following names dict old' rest
            (on_group name address callback (record s { helpers = old' ++ rest }))
    on_group-Following old old' s first f =
        let s' = record s { helpers = old' ++ rest } in
        let (_, helpers, delay) = on_group_same name address callback s' in
        record {
          split = helpers;
          addressed = on_group-Addressed name address callback s' f.addressed;
          one_timer = subst OneTimer (sym delay) f.one_timer;
          progress = elim f.progress [
            | inl p ↦ inl (ap (λ d. ltb 0 d.lvm_delayed_update_id) delay ∙ p)
            | inr (inl l) ↦ inr (inl (k.listings l))
            | inr (inr (e, st)) ↦ inr (
                inr (
                  first e,
                  on_group-Settled s' (record { there = st.there; no_other = st.no_other }),
                ))
          ];
        }

  -- The end of one of the helpers that have been started since.
  pub show-Keeps :
      (name : Bytes) (address : ℕ) (hs rest : List Helper)
      → Picked hs (show name address) rest
      → Keeps name address (update_with_variant (info (dict name))) hs rest
  show-Keeps name address hs rest p = record {
    hit = λ w _. inr (updated-published (info (dict name)) w, λ v. updated (dict name) w v);
    miss = λ n a other e.
        not_shown n name a address (has_show n a rest) other (sym (p.same_show n a) ∙ e);
    listings = λ e. sym p.same_listing ∙ e;
  }

  same-Keeps :
      (name : Bytes) (address : ℕ) (callback : Callback) (hs : List Helper)
      → ((w : World) → UpToDate names dict name w.self → UpToDate names dict name (callback w).self)
      → Keeps name address callback hs hs
  same-Keeps name address callback hs h = record {
    hit = λ w x. elim x [ inl shown ↦ inl shown | inr right ↦ inr (h w right) ];
    miss = λ n a other e. e;
    listings = λ e. e;
  }

  pub polled-Following :
      (name : Bytes) (address pid : ℕ) (report : Report) (old new : List Helper) (s : System)
      → Following names dict old new s
      → Following names dict old new (handle (polled name address pid report) s)
  unfolding handle
  polled-Following name address pid report old new s f =
      subst
        (λ hs.
          Following names dict old new
            (on_group name address (poll_with_variant pid report) (record s { helpers = hs })))
        (sym f.split)
        (on_group-Following name address (poll_with_variant pid report) new new
          (same-Keeps name address _ new (λ w right. (
            (polled-Same pid report w).1 ∙ right.0,
            λ v. poll_with_variant-keys v pid report w ∙ right.1 v,
          )))
          old old s (λ e. e) f)

  pub listing-Settled :
      (rest : List Helper) (s : System)
      → Settled names dict
          (rest ++ shows (on_listing (listed names) s).addresses names)
          (on_listing (listed names) s)
  listing-Settled rest s = record {
    there = λ n c.
        let at : lookup n (on_listing (listed names) s).groups
            ≡ some (group_or_new (lookup n s.groups) n) =
          on_listing-lookup names s n ∙ rw c refl in
        let (a, p) =
          present n (on_listing (listed names) s) _ (on_listing-Addressed (listed names) s) at in
        (
          group_or_new (lookup n s.groups) n,
          a,
          p,
          inl (
              has_show-append n a rest (shows (on_listing (listed names) s).addresses names)
              ∙ ap (λ b. has_show n a rest || b) (has_show-shows n a _ names p.1 c)
              ∙ or_true (has_show n a rest)),
        );
    no_other = λ n c. on_listing-lookup names s n ∙ rw c refl;
  }
