-- ===== src/Base/Table.antt =====
-- A `GHashTable` with string keys (g_str_hash, g_str_equal), as an association list.
pub mod Entries
pub mod Sizes
use mathlib.Core.Bool.{Bool, true, false}
use mathlib.Core.List.{List, [], ◌∷◌}
use mathlib.Core.Logic.{inl, inr}
use mathlib.Core.Option.{Option, none, some}
use mathlib.Core.Path.{◌≡◌, refl}
use native.Mathlib.Omega.{arith}
use udisks_lvm.Base.Tests.{if◌then◌else◌, Bool-cases}
use udisks_lvm.Base.Text.{Bytes, str_equal, str_equal_iff}

abbrev pub Table {ℓ} : Type ℓ → Type ℓ
Table V = List (Bytes × V)

module _ {ℓ} {V : Type ℓ} where
  -- g_hash_table_lookup
  unfoldable pub lookup : Bytes → Table V → Option V
  lookup k [] = none
  lookup k ((j, v) ∷ m) = if str_equal j k then some v else lookup k m

  -- g_hash_table_insert: the value of a key that is there is replaced.
  unfoldable pub insert : Bytes → V → Table V → Table V
  insert k v [] = (k, v) ∷ []
  insert k v ((j, w) ∷ m) = if str_equal j k then (j, v) ∷ m else (j, w) ∷ insert k v m

  -- g_hash_table_steal and g_hash_table_remove
  unfoldable pub steal : Bytes → Table V → Table V
  steal k [] = []
  steal k ((j, v) ∷ m) = if str_equal j k then m else (j, v) ∷ steal k m

  -- The entries whose key passes a test: what a loop with g_hash_table_iter_remove leaves.
  unfoldable pub keep : (Bytes → Bool) → Table V → Table V
  keep p [] = []
  keep p ((j, v) ∷ m) = if p j then (j, v) ∷ keep p m else keep p m

  pub lookup-insert :
      (k j : Bytes) (v : V) (m : Table V)
      → lookup j (insert k v m) ≡ (if str_equal k j then some v else lookup j m)
  unfolding lookup insert
  lookup-insert k j v [] = refl
  lookup-insert k j v ((i, w) ∷ m) =
      ground (arith, str_equal_iff k j, str_equal_iff i k, str_equal_iff i j, lookup-insert k j v m)

  pub lookup-keep :
      (p : Bytes → Bool) (j : Bytes) (m : Table V)
      → lookup j (keep p m) ≡ (if p j then lookup j m else none)
  unfolding lookup keep
  lookup-keep p j [] = ground arith
  lookup-keep p j ((i, w) ∷ m) = ground (arith, str_equal_iff i j, lookup-keep p j m)
