-- ===== src/Manager/Tracking.antt =====
-- src/manager.c: behind an update the groups are the ones that the helper listed.
use udisks_lvm.Base.{
  Bool, true, false, Option, none, some, List, [], ◌∷◌, ◌++◌, append_assoc, append-nil, Bytes,
  str_equal, str_equal_iff, if◌then◌else◌, ◌≡◌, refl, sym, ap, ◌∙◌, inl, inr, Bool-cases,
}
use udisks_lvm.Base.Table.{Table, lookup, keep, lookup-insert, lookup-keep}
use udisks_lvm.Manager.{Manager, listed, contains, with_group, add_groups, update_from_variant}
use udisks_lvm.VolumeGroup.{VolumeGroup}
use udisks_lvm.VolumeGroup

-- The group of a name, or a new one.
abbrev pub group_or_new : Option VolumeGroup → Bytes → VolumeGroup
group_or_new none name = VolumeGroup.new name
group_or_new (some group) name = group

with_group-lookup :
    (found : Option VolumeGroup) (name n : Bytes) (groups : Table VolumeGroup)
    → lookup name groups ≡ found
    → lookup n (with_group found name groups)
      ≡ (if str_equal name n then some (group_or_new found name) else lookup n groups)
unfolding with_group
with_group-lookup none name n groups e = lookup-insert name n (VolumeGroup.new name) groups
with_group-lookup (some group) name n groups e = elim (Bool-cases (str_equal name n)) [
  | inl c ↦ rw (c, sym ((str_equal_iff name n).0 c), e) refl
  | inr c ↦ rw c refl
]

-- The groups with one name added.
added : Bytes → Table VolumeGroup → Table VolumeGroup
added name groups = with_group (lookup name groups) name groups

added-lookup :
    (name n : Bytes) (groups : Table VolumeGroup)
    → lookup n (added name groups)
      ≡ (if str_equal name n then some (group_or_new (lookup n groups) n) else lookup n groups)
unfolding added
added-lookup name n groups =
    with_group-lookup (lookup name groups) name n groups refl
    ∙ elim (Bool-cases (str_equal name n)) [
      | inl c ↦ rw (c, (str_equal_iff name n).0 c) refl
      | inr c ↦ rw c refl
    ]

listed_group : Bool → Bytes → Table VolumeGroup → Option VolumeGroup
listed_group true n groups = some (group_or_new (lookup n groups) n)
listed_group false n groups = lookup n groups

module _ (v n : Bytes) (groups : Table VolumeGroup) where
  listed-added :
      (b : Bool)
      → listed_group b n (added v groups)
        ≡ listed_group (if str_equal v n then true else b) n groups
  unfolding listed_group
  listed-added true = elim (Bool-cases (str_equal v n)) [
    | inl c ↦ rw (added-lookup v n groups, c) refl
    | inr c ↦ rw (added-lookup v n groups, c) refl
  ]
  listed-added false = elim (Bool-cases (str_equal v n)) [
    | inl c ↦ rw (added-lookup v n groups, c) refl
    | inr c ↦ rw (added-lookup v n groups, c) refl
  ]

add_groups-lookup :
    (names : List Bytes) (s : Manager) (n : Bytes)
    → lookup n (add_groups names s).name_to_volume_group
      ≡ listed_group (contains names n) n s.name_to_volume_group
unfolding add_groups contains listed_group added
add_groups-lookup [] s n = refl
add_groups-lookup (v ∷ names) s n =
    add_groups-lookup names _ n ∙ listed-added v n s.name_to_volume_group (contains names n)

add_groups-updates :
    (names : List Bytes) (s : Manager) → (add_groups names s).updates ≡ s.updates ++ names
unfolding add_groups
add_groups-updates [] s = sym (append-nil s.updates)
add_groups-updates (v ∷ names) s =
    add_groups-updates names _ ∙ append_assoc s.updates (v ∷ []) names

kept_group :
    (b : Bool) (n : Bytes) (kept groups : Table VolumeGroup)
    → lookup n kept ≡ (if b then lookup n groups else none)
    → listed_group b n kept ≡ (if b then some (group_or_new (lookup n groups) n) else none)
unfolding listed_group
kept_group true n kept groups e = ap (λ found. some (group_or_new found n)) e
kept_group false n kept groups e = e

-- Behind a listing, the groups are those that the helper listed: the group of a listed name is the one
-- that was there, or else a new one, and there is no group of another name. Each listed group has been
-- told to update itself, in the order of the listing.
pub update_from_variant_listed :
    (names : List Bytes) (s : Manager)
    → ((n : Bytes)
        → lookup n (update_from_variant (listed names) s).name_to_volume_group ≡ (
            if contains names n
            then some (group_or_new (lookup n s.name_to_volume_group) n)
            else none))
      × ((update_from_variant (listed names) s).updates ≡ s.updates ++ names)
unfolding update_from_variant
update_from_variant_listed names s = (
  λ n.
      add_groups-lookup names _ n
      ∙ kept_group (contains names n) n (keep (contains names) s.name_to_volume_group)
          s.name_to_volume_group (lookup-keep (contains names) n s.name_to_volume_group),
  add_groups-updates names _,
)
