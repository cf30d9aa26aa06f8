-- ===== src/System/Addresses.antt =====
-- src/manager.c, src/volumegroup.c: every group of the table has an address, and what a helper's end
-- does to the groups.
use udisks_lvm.Base.{
  ℕ, ◌+◌, true, false, Option, none, some, List, [], ◌∷◌, ◌++◌, Bytes, str_equal, str_equal_iff,
  ==_iff, if◌then◌else◌, ◌≡◌, ◌⊎◌, refl, sym, subst, ap, ◌∙◌, inl, inr, Bool-cases, Option-cases,
}
use udisks_lvm.Base.Table.{Table, lookup, lookup-insert}
use udisks_lvm.Manager.{Groups, listed, contains}
use udisks_lvm.Manager.Tracking.{group_or_new, update_from_variant_listed}
use udisks_lvm.System.{
  System, assign, shows, on_listing, Callback, world_of, on_current, on_gone, find_gone, is_current,
  on_group,
}
use udisks_lvm.VolumeGroup.{VolumeGroup}
use udisks_lvm.VolumeGroup.Update.Tracking.{is_some}

-- Exactly the groups of the table have an address.
abbrev pub Addressed : System → Type 0
Addressed s = (n : Bytes) → is_some (lookup n s.addresses) ≡ is_some (lookup n s.groups)

assign-keys :
    (groups : Table VolumeGroup) (addresses : Table ℕ) (new : ℕ) (n : Bytes)
    → is_some (lookup n (assign groups addresses new)) ≡ is_some (lookup n groups)
unfolding assign lookup
assign-keys [] addresses new n = refl
assign-keys ((name, group) ∷ m) addresses new n = elim (Bool-cases (str_equal name n)) [
  | inl e ↦ rw e refl
  | inr e ↦ rw e (assign-keys m addresses (new + 1) n)
]

pub on_listing-Addressed : (groups : Groups) (s : System) → Addressed (on_listing groups s)
unfolding on_listing
on_listing-Addressed groups s n = assign-keys _ s.addresses s.fresh n

-- A group that a table has, with its address.
abbrev pub Present : Bytes → System → VolumeGroup → ℕ → Type 0
Present n s group address = (lookup n s.groups ≡ some group) × (lookup n s.addresses ≡ some address)

pub present :
    (n : Bytes) (s : System) (group : VolumeGroup)
    → Addressed s
    → lookup n s.groups ≡ some group
    → (address : ℕ) × Present n s group address
present n s group addressed e = elim (Option-cases (lookup n s.addresses)) [
  | inl missing ↦ absurd (cc (addressed n, missing, e))
  | inr (address, found) ↦ (address, (e, found))
]

-- What the end of a helper that reports on a group does to the group of a name.
module _ (name : Bytes) (address : ℕ) (callback : Callback) where
  on_gone_same :
      (found : Option VolumeGroup) (s : System)
      → ((on_gone found address callback s).groups ≡ s.groups)
        × ((on_gone found address callback s).addresses ≡ s.addresses)
        × ((on_gone found address callback s).helpers ≡ s.helpers)
        × ((on_gone found address callback s).delay ≡ s.delay)
  unfolding on_gone
  on_gone_same none s = (refl, refl, refl, refl)
  on_gone_same (some group) s = (refl, refl, refl, refl)

  on_current_same :
      (found : Option VolumeGroup) (s : System)
      → ((on_current found name callback s).addresses ≡ s.addresses)
        × ((on_current found name callback s).helpers ≡ s.helpers)
        × ((on_current found name callback s).delay ≡ s.delay)
  unfolding on_current
  on_current_same none s = (refl, refl, refl)
  on_current_same (some group) s = (refl, refl, refl)

  -- The table of addresses, the helpers and the timeout stay.
  pub on_group_same :
      (s : System)
      → ((on_group name address callback s).addresses ≡ s.addresses)
        × ((on_group name address callback s).helpers ≡ s.helpers)
        × ((on_group name address callback s).delay ≡ s.delay)
  unfolding on_group
  on_group_same s = elim (Bool-cases (is_current (lookup name s.addresses) address)) [
    | inl e ↦ rw e (on_current_same (lookup name s.groups) s)
    | inr e ↦ rw e (let (_, a, h, d) = on_gone_same (find_gone address s.gone) s in (a, h, d))
  ]

  on_current-lookup :
      (found : Option VolumeGroup) (s : System) (n : Bytes)
      → lookup name s.groups ≡ found
      → lookup n (on_current found name callback s).groups ≡ (
          if str_equal name n
          then elim found [ none ↦ none | some g ↦ some (callback (world_of g s)).self ]
          else lookup n s.groups)
  unfolding on_current
  on_current-lookup none s n e = elim (Bool-cases (str_equal name n)) [
    | inl c ↦ rw (c, sym ((str_equal_iff name n).0 c)) e
    | inr c ↦ rw c refl
  ]
  on_current-lookup (some g) s n e = lookup-insert name n _ s.groups

  on_group_current :
      (s : System) (n : Bytes)
      → is_current (lookup name s.addresses) address ≡ true
      → lookup n (on_group name address callback s).groups ≡ (
          if str_equal name n
          then elim (lookup name s.groups) [
            | none ↦ none
            | some g ↦ some (callback (world_of g s)).self
          ]
          else lookup n s.groups)
  on_group_current s n e =
      unfold on_group in rw e (on_current-lookup (lookup name s.groups) s n refl)

  on_group_other :
      (s : System) (n : Bytes)
      → is_current (lookup name s.addresses) address ≡ false
      → lookup n (on_group name address callback s).groups ≡ lookup n s.groups
  on_group_other s n e =
      unfold on_group in rw e (ap (lookup n) (on_gone_same (find_gone address s.gone) s).0)

  current_address :
      (s : System) (n : Bytes) (a : ℕ)
      → name ≡ n
      → lookup n s.addresses ≡ some a
      → is_current (lookup name s.addresses) address ≡ true
      → address ≡ a
  unfolding is_current
  current_address s n a same e c =
      let hit : is_current (some a) address ≡ true =
        subst (λ o. is_current o address ≡ true) e
          (subst (λ x. is_current (lookup x s.addresses) address ≡ true) same c) in
      sym ((==_iff a address).0 hit)

  not_current :
      (s : System) (n : Bytes) (a : ℕ)
      → name ≡ n
      → address ≡ a
      → lookup n s.addresses ≡ some a
      → is_current (lookup name s.addresses) address ≡ false
      → ⊥
  unfolding is_current
  not_current s n a same q e c =
      let miss : is_current (some a) address ≡ false =
        subst (λ o. is_current o address ≡ false) e
          (subst (λ x. is_current (lookup x s.addresses) address ≡ false) same c) in
      cc (miss, (==_iff a address).1 (sym q))

  -- A group is what it was, or the callback has got it.
  pub on_group_found :
      (s : System) (n : Bytes) (group : VolumeGroup) (a : ℕ)
      → Present n s group a
      → ((name ≡ n)
          × (address ≡ a)
          × (lookup n (on_group name address callback s).groups
              ≡ some (callback (world_of group s)).self))
        ⊎ (((name ≡ n) → (address ≡ a) → ⊥)
            × (lookup n (on_group name address callback s).groups ≡ some group))
  on_group_found s n group a (at, e) =
      elim (Bool-cases (is_current (lookup name s.addresses) address)) [
        | inl c ↦ elim (Bool-cases (str_equal name n)) [
          | inl hit ↦
              let same : name ≡ n = (str_equal_iff name n).0 hit in
              inl (
                same,
                current_address s n a same e c,
                on_group_current s n c ∙ rw (hit, same, at) refl,
              )
          | inr miss ↦ inr (
            λ same _. cc (miss, (str_equal_iff name n).1 same),
            on_group_current s n c ∙ rw miss at,
          )
        ]
        | inr c ↦ inr (λ same q. not_current s n a same q e c, on_group_other s n c ∙ at)
      ]

  pub on_group_missing :
      (s : System) (n : Bytes)
      → lookup n s.groups ≡ none
      → lookup n (on_group name address callback s).groups ≡ none
  on_group_missing s n e = elim (Bool-cases (is_current (lookup name s.addresses) address)) [
    | inl c ↦ on_group_current s n c ∙ elim (Bool-cases (str_equal name n)) [
      | inl hit ↦ rw (hit, (str_equal_iff name n).0 hit, e) refl
      | inr miss ↦ rw miss e
    ]
    | inr c ↦ on_group_other s n c ∙ e
  ]

  still_some :
      (s : System) (n : Bytes) (group : VolumeGroup) (a : ℕ)
      → Present n s group a
      → is_some (lookup n (on_group name address callback s).groups) ≡ true
  still_some s n group a at = elim (on_group_found s n group a at) [
    | inl (_, _, e) ↦ ap is_some e
    | inr (_, e) ↦ ap is_some e
  ]

  pub on_group-Addressed : (s : System) → Addressed s → Addressed (on_group name address callback s)
  on_group-Addressed s h n = elim (Option-cases (lookup n s.groups)) [
    | inl e ↦
        ap (λ t. is_some (lookup n t)) (on_group_same s).0
        ∙ h n
        ∙ ap is_some (e ∙ sym (on_group_missing s n e))
    | inr (group, e) ↦
        let (a, at) = present n s group h e in
        ap (λ t. is_some (lookup n t)) (on_group_same s).0
        ∙ ap is_some at.1
        ∙ sym (still_some s n group a at)
  ]

module _ (names : List Bytes) (s : System) where
  -- Behind a listing the groups are those of the listing.
  pub on_listing-lookup :
      (n : Bytes)
      → lookup n (on_listing (listed names) s).groups
        ≡ (if contains names n then some (group_or_new (lookup n s.groups) n) else none)
  unfolding on_listing
  on_listing-lookup n =
      (update_from_variant_listed names
          (record { name_to_volume_group = s.groups; actions = s.actions; updates = [] })).0
        n

  -- A helper has been started for each of them.
  pub on_listing-helpers :
      (on_listing (listed names) s).helpers
      ≡ s.helpers ++ shows (on_listing (listed names) s).addresses names
  unfolding on_listing
  on_listing-helpers =
      ap (λ started. s.helpers ++ shows (on_listing (listed names) s).addresses started)
        (update_from_variant_listed names
          (record { name_to_volume_group = s.groups; actions = s.actions; updates = [] })).1

pub on_listing-delay : (groups : Groups) (s : System) → (on_listing groups s).delay ≡ s.delay
unfolding on_listing
on_listing-delay groups s = refl
