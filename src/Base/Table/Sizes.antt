-- ===== src/Base/Table/Sizes.antt =====
-- How many entries a table has.
use mathlib.Core.List.{[], ◌∷◌}
use mathlib.Core.Option.{none, some}
use mathlib.Core.Path.{◌≡◌, refl}
use Prim.Native.Nat.{◌+◌}
use native.Mathlib.Omega.{arith}
use udisks_lvm.Base.Lists.{length}
use udisks_lvm.Base.Text.{Bytes}
use udisks_lvm.Base.Table.{Table, lookup, insert, steal}

module _ {ℓ} {V : Type ℓ} where
  -- The length of a table behind an insertion, and behind a removal.
  pub length-insert_new :
      (k : Bytes) (c : V) (m : Table V) → lookup k m ≡ none → length (insert k c m) ≡ length m + 1
  unfolding lookup insert
  length-insert_new k c [] e = refl
  length-insert_new k c ((j, d) ∷ m) e = ground (arith, e, length-insert_new k c m)

  pub length-insert_old :
      (k : Bytes) (c d : V) (m : Table V) → lookup k m ≡ some d → length (insert k c m) ≡ length m
  unfolding lookup insert
  length-insert_old k c d [] e = ground (arith, e)
  length-insert_old k c d ((j, b) ∷ m) e = ground (arith, e, length-insert_old k c d m)

  pub length-steal :
      (k : Bytes) (c : V) (m : Table V) → lookup k m ≡ some c → length m ≡ length (steal k m) + 1
  unfolding lookup steal
  length-steal k c [] e = ground (arith, e)
  length-steal k c ((j, d) ∷ m) e = ground (arith, e, length-steal k c m)

  pub lookup-steal_absent :
      (k j : Bytes) (m : Table V) → lookup j m ≡ none → lookup j (steal k m) ≡ none
  unfolding lookup steal
  lookup-steal_absent k j [] e = refl
  lookup-steal_absent k j ((i, d) ∷ m) e = ground (arith, e, lookup-steal_absent k j m)
