-- ===== src/Variant.antt =====
-- The `GVariant` dictionaries that src/helper.c prints and src/daemon.c reads back: type a{sv}, with
-- nested aa{sv}. `g_variant_lookup` finds the first entry of the key, if its type is the one asked for.
use Prim.Native.String.{String}
use text.Mathlib.Text.{◌==◌}
use udisks_lvm.Base.{ℕ, Bool, Option, none, some, List, [], ◌∷◌, Bytes, if◌then◌else◌}

mutual
  pub data Value : Type 0 where
    -- s, t, b and aa{sv}
    string : Bytes → Value
    uint64 : ℕ → Value
    boolean : Bool → Value
    dicts : Dicts → Value

  pub data Dict : Type 0 where
    empty : Dict
    entry : String → Value → Dict → Dict

  pub data Dicts : Type 0 where
    end : Dicts
    dict : Dict → Dicts → Dicts

unfoldable pub lookup_value : Dict → String → Option Value
lookup_value empty key = none
lookup_value (entry k v d) key = if k == key then some v else lookup_value d key

unfoldable pub as_string : Option Value → Option Bytes
as_string (some (string s)) = some s
as_string _ = none

unfoldable pub as_uint64 : Option Value → Option ℕ
as_uint64 (some (uint64 n)) = some n
as_uint64 _ = none

unfoldable pub as_boolean : Option Value → Option Bool
as_boolean (some (boolean b)) = some b
as_boolean _ = none

unfoldable pub list_of : Dicts → List Dict
list_of end = []
list_of (dict d ds) = d ∷ list_of ds

unfoldable pub as_dicts : Option Value → Option (List Dict)
unfolding list_of
as_dicts (some (dicts ds)) = some (list_of ds)
as_dicts _ = none

-- g_variant_lookup (info, key, "&s", &str), and so for "t", "b" and "aa{sv}".
unfoldable pub lookup_string : Dict → String → Option Bytes
unfolding lookup_value as_string
lookup_string d key = as_string (lookup_value d key)

unfoldable pub lookup_uint64 : Dict → String → Option ℕ
unfolding lookup_value as_uint64
lookup_uint64 d key = as_uint64 (lookup_value d key)

unfoldable pub lookup_boolean : Dict → String → Option Bool
unfolding lookup_value as_boolean
lookup_boolean d key = as_boolean (lookup_value d key)

unfoldable pub lookup_dicts : Dict → String → Option (List Dict)
unfolding lookup_value as_dicts
lookup_dicts d key = as_dicts (lookup_value d key)
