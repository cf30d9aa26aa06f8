-- ===== src/Util/Name/Charset.antt =====
-- src/util.c: an encoded name is one that LVM accepts.
use udisks_lvm.Base.{
  ℕ, ◌<◌, ◌/◌, ◌%◌, Bool, true, false, ◌||◌, ◌&&◌, [], ◌∷◌, Bytes, ◌≡◌, refl, inl, inr, arith, ◌==◌,
  leb, All, All-append, Bool-cases,
}
use udisks_lvm.Util.Name.{
  valid_lvm_name_char, all_valid, starts_with_dash, needs_encoding, must_escape, hex_digit,
  encode_char, encode_chars, encode_lvm_name,
}
use udisks_lvm.Util.Name.RoundTrip.{encode_char-escaped, encode_char-plain}

-- The characters of LVM names: letters, digits, and `+ _ . -`.
abbrev pub IsLvmChar : ℕ → Type 0
IsLvmChar c =
    ((leb b'a' c && leb c b'z')
      || (leb b'A' c && leb c b'Z')
      || (leb b'0' c && leb c b'9')
      || c == b'+'
      || c == b'_'
      || c == b'.'
      || c == b'-')
    ≡ true

hex_digit-IsLvmChar : (d : ℕ) → d < 16 → IsLvmChar (hex_digit d)
unfolding hex_digit
hex_digit-IsLvmChar d h = ground arith

valid-IsLvmChar : (c : ℕ) → valid_lvm_name_char c ≡ true → IsLvmChar c
unfolding valid_lvm_name_char
valid-IsLvmChar c h = ground arith

plain-IsLvmChar : (c : ℕ) → must_escape c ≡ false → IsLvmChar c
unfolding must_escape
plain-IsLvmChar c h = ground arith

encode_char-IsLvmChar : (c : ℕ) → c < 256 → All IsLvmChar (encode_char c)
encode_char-IsLvmChar c h = elim (Bool-cases (must_escape c)) [
  | inl e ↦
      let high = hex_digit-IsLvmChar (c / 16) (omega arith) in
      let low = hex_digit-IsLvmChar (c % 16) (omega arith) in
      rw (encode_char-escaped c e) (refl, (high, (low, tt)))
  | inr e ↦ rw (encode_char-plain c e) (plain-IsLvmChar c e, tt)
]

encode_chars-IsLvmChar :
    (name : Bytes) → All (λ c. c < 256) name → All IsLvmChar (encode_chars name)
unfolding encode_chars
encode_chars-IsLvmChar [] h = tt
encode_chars-IsLvmChar (c ∷ s) h =
    All-append IsLvmChar (encode_char c) (encode_chars s) (encode_char-IsLvmChar c h.0)
      (encode_chars-IsLvmChar s h.1)

all_valid-IsLvmChar : (name : Bytes) → all_valid name ≡ true → All IsLvmChar name
unfolding all_valid
all_valid-IsLvmChar [] h = tt
all_valid-IsLvmChar (c ∷ s) h =
    (valid-IsLvmChar c (ground arith), all_valid-IsLvmChar s (ground arith))

kept :
    (name : Bytes) (lv : Bool)
    → needs_encoding name lv ≡ false
    → (all_valid name ≡ true) × (starts_with_dash name ≡ false)
unfolding needs_encoding
kept name lv h = ground arith

-- For every string of bytes, the encoded name has only characters that LVM allows in names, and does
-- not begin with a dash.
pub encode_lvm_name-IsLvmChar :
    (name : Bytes) (for_logical_volume : Bool)
    → All (λ c. c < 256) name
    → All IsLvmChar (encode_lvm_name name for_logical_volume)
      × (starts_with_dash (encode_lvm_name name for_logical_volume) ≡ false)
encode_lvm_name-IsLvmChar name lv h = elim (Bool-cases (needs_encoding name lv)) [
  | inl e ↦
      unfold encode_lvm_name starts_with_dash in
      rw e ((refl, (refl, encode_chars-IsLvmChar name h)), refl)
  | inr e ↦
      unfold encode_lvm_name in
      rw e (all_valid-IsLvmChar name (kept name lv e).0, (kept name lv e).1)
]
