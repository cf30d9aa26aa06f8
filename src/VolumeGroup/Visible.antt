-- ===== src/VolumeGroup/Visible.antt =====
-- src/volumegroup.c: which logical volumes the daemon shows, `lv_is_visible` and
-- `lv_is_pvmove_volume`, against the names that src/util.c makes for new volumes.
use udisks_lvm.Base.{
  ℕ, ◌<◌, ◌/◌, ◌%◌, Bool, true, false, not, ◌||◌, ◌&&◌, Option, none, some, [], ◌∷◌, Bytes, codes,
  ◌≡◌, ◌≢◌, refl, inl, inr, arith, leb, All, Bool-cases, has_prefix, strstr,
}
use udisks_lvm.Util.Name.{
  must_escape, hex_digit, is_reserved, needs_encoding, all_valid, starts_with_dash,
  lvm_encoding_prefix, encode_chars, encode_lvm_name,
}
use udisks_lvm.Util.Name.RoundTrip.{encode_char-escaped, encode_char-plain}

-- `none` is NULL.
unfoldable pub lv_is_pvmove_volume : Option Bytes → Bool
unfolding has_prefix
lv_is_pvmove_volume none = false
lv_is_pvmove_volume (some name) = has_prefix name (codes "pvmove")

unfoldable pub lv_is_visible : Option Bytes → Bool
unfolding strstr has_prefix
lv_is_visible none = false
lv_is_visible (some name) =
    not (strstr name (codes "_mlog"))
    && not (strstr name (codes "_mimage"))
    && not (strstr name (codes "_rimage"))
    && not (strstr name (codes "_rmeta"))
    && not (strstr name (codes "_tdata"))
    && not (strstr name (codes "_tmeta"))
    && not (has_prefix name (codes "pvmove"))
    && not (has_prefix name (codes "snapshot"))

-- The names that become reserved behind the underscore of the encoding prefix.
abbrev pub begins_reserved : Bytes → Bool
begins_reserved name =
    has_prefix name (codes "mlog")
    || has_prefix name (codes "mimage")
    || has_prefix name (codes "rimage")
    || has_prefix name (codes "rmeta")
    || has_prefix name (codes "tdata")
    || has_prefix name (codes "tmeta")

is_hex : ℕ → Bool
is_hex x = (leb b'0' x && leb x b'9') || (leb b'a' x && leb x b'f')

hex_digit-is_hex : (d : ℕ) → d < 16 → is_hex (hex_digit d) ≡ true
unfolding is_hex hex_digit
hex_digit-is_hex d h = ground arith

-- In an encoded text an underscore stands before a hexadecimal digit.
module _ (x : ℕ) (n : Bytes) (letter : is_hex x ≡ false) where
  strstr_escape :
      (a b : ℕ) (s : Bytes)
      → is_hex a ≡ true
      → is_hex b ≡ true
      → strstr s (b'_' ∷ x ∷ n) ≡ false
      → strstr (b'_' ∷ a ∷ b ∷ s) (b'_' ∷ x ∷ n) ≡ false
  unfolding strstr is_hex
  strstr_escape a b s p q r = ground arith

  strstr_plain :
      (c : ℕ) (s : Bytes)
      → must_escape c ≡ false
      → strstr s (b'_' ∷ x ∷ n) ≡ false
      → strstr (c ∷ s) (b'_' ∷ x ∷ n) ≡ false
  unfolding strstr must_escape
  strstr_plain c s p r = ground arith

  strstr-encode_chars :
      (name : Bytes) → All (λ c. c < 256) name → strstr (encode_chars name) (b'_' ∷ x ∷ n) ≡ false
  unfolding encode_chars
  strstr-encode_chars [] h = unfold strstr in refl
  strstr-encode_chars (c ∷ s) h = elim (Bool-cases (must_escape c)) [
    | inl e ↦
        let high = hex_digit-is_hex (c / 16) (omega arith) in
        let low = hex_digit-is_hex (c % 16) (omega arith) in
        rw (encode_char-escaped c e)
          (strstr_escape _ _ (encode_chars s) high low (strstr-encode_chars s h.1))
    | inr e ↦
        rw (encode_char-plain c e) (strstr_plain c (encode_chars s) e (strstr-encode_chars s h.1))
  ]

all_kept : Bytes → Bool
unfolding must_escape
all_kept [] = true
all_kept (c ∷ s) = not (must_escape c) && all_kept s

-- A prefix of bytes that are kept is a prefix of the encoded text exactly when it is one of the name.
has_prefix-encode_chars :
    (name p : Bytes) → all_kept p ≡ true → has_prefix (encode_chars name) p ≡ has_prefix name p
unfolding encode_chars has_prefix all_kept
has_prefix-encode_chars [] [] h = refl
has_prefix-encode_chars [] (y ∷ p) h = refl
has_prefix-encode_chars (c ∷ s) [] h = refl
has_prefix-encode_chars (c ∷ s) (y ∷ p) h = elim (Bool-cases (must_escape c)) [
  | inl e ↦ rw (encode_char-escaped c e) (unfold must_escape in ground arith)
  | inr e ↦ rw (encode_char-plain c e) (ground (arith, has_prefix-encode_chars s p))
]

encoded-strstr :
    (name : Bytes) (x : ℕ) (n : Bytes)
    → is_hex x ≡ false
    → all_kept (x ∷ n) ≡ true
    → All (λ c. c < 256) name
    → strstr (b'+' ∷ b'_' ∷ encode_chars name) (b'_' ∷ x ∷ n) ≡ has_prefix name (x ∷ n)
unfolding strstr
encoded-strstr name x n letter kept h =
    ground (arith, strstr-encode_chars x n letter name h, has_prefix-encode_chars name (x ∷ n) kept)

not_prefix : (name p : Bytes) (c : ℕ) → c ≢ b'+' → has_prefix (b'+' ∷ name) (c ∷ p) ≡ false
unfolding has_prefix
not_prefix name p c h = ground arith

-- With the comparisons shut.
lv_is_visible_lem :
    (name : Bytes)
    → lv_is_visible (some name) ≡ (
        not (strstr name (codes "_mlog"))
        && not (strstr name (codes "_mimage"))
        && not (strstr name (codes "_rimage"))
        && not (strstr name (codes "_rmeta"))
        && not (strstr name (codes "_tdata"))
        && not (strstr name (codes "_tmeta"))
        && not (has_prefix name (codes "pvmove"))
        && not (has_prefix name (codes "snapshot")))
unfolding lv_is_visible
lv_is_visible_lem name = refl

begins_cases :
    (a b c d e f : Bool)
    → (not a && not b && not c && not d && not e && not f && not false && not false)
      ≡ not (a || b || c || d || e || f)
begins_cases a b c d e f = ground arith

encoded_visible :
    (name : Bytes)
    → All (λ c. c < 256) name
    → lv_is_visible (some (b'+' ∷ b'_' ∷ encode_chars name)) ≡ not (begins_reserved name)
unfolding all_kept is_hex
encoded_visible name h =
    rw
      (
        lv_is_visible_lem,
        encoded-strstr name b'm' (codes "log") refl refl h,
        encoded-strstr name b'm' (codes "image") refl refl h,
        encoded-strstr name b'r' (codes "image") refl refl h,
        encoded-strstr name b'r' (codes "meta") refl refl h,
        encoded-strstr name b't' (codes "data") refl refl h,
        encoded-strstr name b't' (codes "meta") refl refl h,
        not_prefix _ (codes "vmove") b'p' (omega arith),
        not_prefix _ (codes "napshot") b's' (omega arith),
      )
      (begins_cases _ _ _ _ _ _)

reserved_cases :
    (a b c d e f g h : Bool)
    → (not a && not b && not c && not d && not e && not f && not g && not h)
      ≡ not (a || b || c || d || e || f || g || h)
reserved_cases a b c d e f g h = ground arith

lv_is_visible-is_reserved : (name : Bytes) → lv_is_visible (some name) ≡ not (is_reserved name)
unfolding lv_is_visible is_reserved
lv_is_visible-is_reserved name = reserved_cases _ _ _ _ _ _ _ _

last_of_four : (a b c d : Bool) → (a || b || c || (true && d)) ≡ false → d ≡ false
last_of_four a b c d h = ground arith

unreserved : (name : Bytes) → needs_encoding name true ≡ false → is_reserved name ≡ false
unfolding needs_encoding
unreserved name h =
    last_of_four (not (all_valid name)) (starts_with_dash name)
      (has_prefix name lvm_encoding_prefix) (is_reserved name) h

-- A volume that is created or renamed under a name is shown under it, unless the name has to be
-- encoded and begins with `mlog`, `mimage`, `rimage`, `rmeta`, `tdata` or `tmeta`: behind the
-- prefix `+_` it then holds a reserved part, and the volume is hidden. The name is any string of
-- bytes.
pub visible-encode :
    (name : Bytes)
    → All (λ c. c < 256) name
    → lv_is_visible (some (encode_lvm_name name true))
      ≡ not (needs_encoding name true && begins_reserved name)
visible-encode name h = elim (Bool-cases (needs_encoding name true)) [
  | inl e ↦ unfold encode_lvm_name in rw e (encoded_visible name h)
  | inr e ↦ unfold encode_lvm_name in rw e (rw (lv_is_visible-is_reserved, unreserved name e))
]
