-- ===== src/Base/Decimal.antt =====
-- printf ("%d") and ("%" G_GUINT64_FORMAT) of a number that is not negative.
use Prim.Native.Nat.{ℕ, zero, suc, ◌+◌, ◌-◌, ◌*◌, ◌/◌, ◌%◌, ◌^◌, ◌<◌}
use mathlib.Core.Path.{◌≡◌, sym, ap, ◌∙◌}
use mathlib.Core.List.{[], ◌∷◌}
use mathlib.Core.Logic.{inl, inr}
use native.Mathlib.Omega.{arith}
use native.Mathlib.Nat.{pow-suc}
use udisks_lvm.Base.Tests.{◌==◌, ==_iff, if◌then◌else◌, Bool-cases}
use udisks_lvm.Base.Text.{Bytes}

-- The digits of `n` before `out`, at most `fuel` of them.
unfoldable pub digits : ℕ → ℕ → Bytes → Bytes
digits zero n out = out
digits (suc fuel) n out =
    let more = digits fuel (n / 10) ((b'0' + n % 10) ∷ out) in
    if n / 10 == 0 then (b'0' + n % 10) ∷ out else more

-- A `guint64` has at most twenty digits.
unfoldable pub decimal : ℕ → Bytes
unfolding digits
decimal n = digits 20 n []

-- The number that the digits of a text spell behind `acc`.
unfoldable pub read_decimal : ℕ → Bytes → ℕ
read_decimal acc [] = acc
read_decimal acc (c ∷ s) = read_decimal (acc * 10 + (c - b'0')) s

read_last :
    (n : ℕ) (out : Bytes) → read_decimal (n / 10) ((b'0' + n % 10) ∷ out) ≡ read_decimal n out
unfolding read_decimal
read_last n out = ap (λ m. read_decimal m out) (omega arith)

read_digits :
    (fuel n : ℕ) (out : Bytes)
    → n < 10 ^ fuel
    → read_decimal 0 (digits fuel n out) ≡ read_decimal n out
unfolding digits
read_digits zero n out h = ap (λ m. read_decimal m out) (omega arith)
read_digits (suc fuel) n out h = elim (Bool-cases (n / 10 == 0)) [
  | inl e ↦ rw e (
      ap (λ m. read_decimal m ((b'0' + n % 10) ∷ out)) ((sym ((==_iff (n / 10) 0).0 e)))
      ∙ read_last n out)
  | inr e ↦ rw e (
      read_digits fuel (n / 10) ((b'0' + n % 10) ∷ out) (omega (arith, pow-suc 10 fuel))
      ∙ read_last n out)
]

pub read_decimal-decimal : (n : ℕ) → n < 2 ^ 64 → read_decimal 0 (decimal n) ≡ n
unfolding decimal
read_decimal-decimal n h = unfold read_decimal in read_digits 20 n [] (omega arith)
