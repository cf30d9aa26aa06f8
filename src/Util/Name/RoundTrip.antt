-- ===== src/Util/Name/RoundTrip.antt =====
-- src/util.c: decoding undoes encoding.
use udisks_lvm.Base.{
  if◌then◌else◌, ℕ, zero, suc, ◌<◌, ◌/◌, ◌%◌, Bool, true, false, some, [], ◌∷◌, ◌++◌, Bytes, ◌≡◌,
  ◌≢◌, refl, ap, ◌∙◌, inl, inr, arith, ◌==◌, ==_iff, All, Bool-cases, has_prefix,
}
use udisks_lvm.Util.Name.{
  needs_encoding, must_escape, hex_digit, encode_char, encode_chars, encode_lvm_name, isxdigit,
  hex_value, push, decode_chars, until_nul, decode_lvm_name, lvm_encoding_prefix,
}

-- A byte of a C string.
abbrev pub IsChar : ℕ → Type 0
IsChar c = (c < 256) × (c ≢ 0)

-- The value of the two digits of a byte.
digits_value : ℕ → ℕ
digits_value c = hex_value (hex_digit (c / 16)) (hex_digit (c % 16))

-- Whether the digits of every byte below a bound give it back.
table : ℕ → Bool
table zero = true
table (suc last) = if digits_value last == last then table last else false

in_table : (c bound : ℕ) → c < bound → table bound ≡ true → digits_value c == c ≡ true
unfolding table
in_table c zero below t = absurd (omega (arith, below))
in_table c (suc last) below t = ground (arith, in_table c last)

whole_table : table 256 ≡ true
unfolding table digits_value hex_value hex_digit
whole_table = refl

hex_value-hex_digit : (c : ℕ) → c < 256 → hex_value (hex_digit (c / 16)) (hex_digit (c % 16)) ≡ c
unfolding digits_value
hex_value-hex_digit c h = (==_iff (digits_value c) c).0 (in_table c 256 h whole_table)

pub isxdigit-hex_digit : (d : ℕ) → d < 16 → isxdigit (hex_digit d) ≡ true
unfolding isxdigit hex_digit
isxdigit-hex_digit d h = ground arith

decode_plain : (c : ℕ) (s : Bytes) → c ≢ b'_' → decode_chars (c ∷ s) ≡ push c (decode_chars s)
unfolding decode_chars
decode_plain c [] h = ground arith
decode_plain c (x ∷ []) h = ground arith
decode_plain c (x ∷ y ∷ s) h = ground arith

decode_escape :
    (h l : ℕ) (s : Bytes)
    → isxdigit h ≡ true
    → isxdigit l ≡ true
    → decode_chars (b'_' ∷ h ∷ l ∷ s) ≡ push (hex_value h l) (decode_chars s)
decode_escape h l s p q = unfold decode_chars in rw (p, q)

not-underscore : (c : ℕ) → must_escape c ≡ false → c ≢ b'_'
unfolding must_escape
not-underscore c h = ground arith

-- The two forms of an encoded byte.
pub encode_char-escaped :
    (c : ℕ)
    → must_escape c ≡ true
    → encode_char c ≡ b'_' ∷ hex_digit (c / 16) ∷ hex_digit (c % 16) ∷ []
encode_char-escaped c h = unfold encode_char in rw h

pub encode_char-plain : (c : ℕ) → must_escape c ≡ false → encode_char c ≡ c ∷ []
encode_char-plain c h = unfold encode_char in rw h

decode_chars-encode_char :
    (c : ℕ) (s : Bytes) → c < 256 → decode_chars (encode_char c ++ s) ≡ push c (decode_chars s)
decode_chars-encode_char c s h = elim (Bool-cases (must_escape c)) [
  | inl e ↦ rw (encode_char-escaped c e) (
      decode_escape _ _ s (isxdigit-hex_digit (c / 16) (omega arith))
        (isxdigit-hex_digit (c % 16) (omega arith))
      ∙ ap (λ v. push v (decode_chars s)) (hex_value-hex_digit c h))
  | inr e ↦ rw (encode_char-plain c e) (decode_plain c s (not-underscore c e))
]

decode_chars-encode_chars :
    (name : Bytes) → All IsChar name → decode_chars (encode_chars name) ≡ some name
unfolding encode_chars
decode_chars-encode_chars [] h = unfold decode_chars in refl
decode_chars-encode_chars (c ∷ s) h =
    rw (decode_chars-encode_char c (encode_chars s) h.0.0, decode_chars-encode_chars s h.1)
      (unfold push in refl)

until_nul_lem : (name : Bytes) → All IsChar name → until_nul name ≡ name
unfolding until_nul
until_nul_lem [] h = refl
until_nul_lem (c ∷ s) h = ground (arith, until_nul_lem s h.1)

no_prefix :
    (name : Bytes) (lv : Bool)
    → needs_encoding name lv ≡ false
    → has_prefix name lvm_encoding_prefix ≡ false
unfolding needs_encoding
no_prefix name lv h = ground arith

-- Decoding an encoded name gives the name back, for every C string and for both kinds of volume.
pub decode-encode :
    (name : Bytes) (for_logical_volume : Bool)
    → All IsChar name
    → decode_lvm_name (encode_lvm_name name for_logical_volume) ≡ name
decode-encode name lv h = elim (Bool-cases (needs_encoding name lv)) [
  | inl e ↦
      unfold encode_lvm_name decode_lvm_name in
      rw e (rw (decode_chars-encode_chars name h) (until_nul_lem name h))
  | inr e ↦ unfold encode_lvm_name decode_lvm_name in rw e (rw (no_prefix name lv e))
]
