-- ===== src/Base/Text.antt =====
-- C strings as lists of bytes, and the comparisons of libc and GLib that the program calls.
use Prim.Native.Char.{code}
use Prim.Native.String.{String}
use Prim.Native.Nat.{ℕ}
use mathlib.Core.Path.{◌≡◌, refl}
use mathlib.Core.Logic.{◌↔◌}
use mathlib.Core.Bool.{Bool, true, false, ◌&&◌, ◌||◌}
use mathlib.Core.Option.{Option, none, some}
use mathlib.Core.List.{List, [], ◌∷◌}
use native.Mathlib.Omega.{arith}
use udisks_lvm.Base.Tests.{◌==◌}

-- The bytes of a C string, without the final NUL.
abbrev pub Bytes : Type 0
Bytes = List ℕ

-- The bytes of an ASCII literal.
abbrev pub codes : String → Bytes
codes String.[] = []
codes (String.◌∷◌ c s) = code c ∷ codes s

-- g_str_equal
unfoldable pub str_equal : Bytes → Bytes → Bool
str_equal [] [] = true
str_equal [] (y ∷ ys) = false
str_equal (x ∷ xs) [] = false
str_equal (x ∷ xs) (y ∷ ys) = x == y && str_equal xs ys

-- g_strcmp0 (a, b) == 0; `none` is NULL.
unfoldable pub strcmp0_eq : Option Bytes → Option Bytes → Bool
unfolding str_equal
strcmp0_eq none none = true
strcmp0_eq none (some b) = false
strcmp0_eq (some a) none = false
strcmp0_eq (some a) (some b) = str_equal a b

-- g_str_has_prefix (str, prefix)
unfoldable pub has_prefix : Bytes → Bytes → Bool
has_prefix s [] = true
has_prefix [] (p ∷ ps) = false
has_prefix (c ∷ s) (p ∷ ps) = c == p && has_prefix s ps

-- strstr (haystack, needle) != NULL
unfoldable pub strstr : Bytes → Bytes → Bool
unfolding has_prefix
strstr [] needle = has_prefix [] needle
strstr (c ∷ s) needle = has_prefix (c ∷ s) needle || strstr s needle

pub str_equal_refl : (a : Bytes) → str_equal a a ≡ true
unfolding str_equal
str_equal_refl [] = refl
str_equal_refl (x ∷ xs) = ground (arith, str_equal_refl xs)

pub str_equal_eq : (a b : Bytes) → str_equal a b ≡ true → a ≡ b
unfolding str_equal
str_equal_eq [] [] h = refl
str_equal_eq [] (y ∷ ys) h = ground arith
str_equal_eq (x ∷ xs) [] h = ground arith
str_equal_eq (x ∷ xs) (y ∷ ys) h = ground (arith, str_equal_eq xs ys)

pub str_equal_iff : (a b : Bytes) → (str_equal a b ≡ true) ↔ (a ≡ b)
str_equal_iff a b = (str_equal_eq a b, λ e. rw e (str_equal_refl b))
