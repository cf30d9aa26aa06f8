-- ===== src/Base/Table/Entries.antt =====
-- A property of the entries of a table, and what keeps it.
use mathlib.Core.Bool.{Bool}
use mathlib.Core.List.{[], ◌∷◌}
use mathlib.Core.Logic.{inl, inr}
use mathlib.Core.Option.{some}
use mathlib.Core.Path.{◌≡◌, sym, subst, subst₂}
use native.Mathlib.Omega.{arith}
use udisks_lvm.Base.Tests.{Bool-cases}
use udisks_lvm.Base.Text.{Bytes, str_equal, str_equal_eq}
use udisks_lvm.Base.Table.{Table, lookup, insert, keep}

module _ {ℓ κ} {V : Type ℓ} (P : Bytes → V → Type κ) where
  abbrev pub Entries : Table V → Type κ
  Entries [] = Unit
  Entries ((k, v) ∷ m) = P k v × Entries m

  pub Entries-lookup : (m : Table V) (k : Bytes) {v : V} → Entries m → lookup k m ≡ some v → P k v
  unfolding lookup
  Entries-lookup [] k h e = cc
  Entries-lookup ((j, w) ∷ m) k {v} h e = elim (Bool-cases (str_equal j k)) [
    | inl hit ↦ let same : w ≡ v = ground arith in subst₂ P (str_equal_eq j k hit) same h.0
    | inr miss ↦ Entries-lookup m k h.1 (ground arith)
  ]

  pub Entries-insert :
      (m : Table V) (k : Bytes) (v : V) → Entries m → P k v → Entries (insert k v m)
  unfolding insert
  Entries-insert [] k v h p = (p, tt)
  Entries-insert ((j, w) ∷ m) k v h p = elim (Bool-cases (str_equal j k)) [
    | inl e ↦ rw e (subst (λ x. P x v) (sym (str_equal_eq j k e)) p, h.1)
    | inr e ↦ rw e (h.0, Entries-insert m k v h.1 p)
  ]

  pub Entries-keep : (p : Bytes → Bool) (m : Table V) → Entries m → Entries (keep p m)
  unfolding keep
  Entries-keep p [] h = tt
  Entries-keep p ((j, w) ∷ m) h = elim (Bool-cases (p j)) [
    | inl e ↦ rw e (h.0, Entries-keep p m h.1)
    | inr e ↦ rw e (Entries-keep p m h.1)
  ]
