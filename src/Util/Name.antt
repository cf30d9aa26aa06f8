-- ===== src/Util/Name.antt =====
-- src/util.c, the names of volume groups and logical volumes: `ul_util_encode_lvm_name`,
-- `ul_util_decode_lvm_name`. The two loops build their result from the front, as the `GString` does.
pub mod RoundTrip
pub mod Charset
use Prim.Native.Nat.{bit_or}
use udisks_lvm.Base.{
  ℕ, ◌+◌, ◌-◌, ◌*◌, ◌/◌, ◌%◌, Bool, true, false, not, ◌&&◌, ◌||◌, Option, none, some, List, [], ◌∷◌,
  ◌++◌, Bytes, codes, leb, ltb, ◌==◌, if◌then◌else◌, has_prefix, strstr, ◌≡◌, refl,
}

abbrev in_range : ℕ → ℕ → ℕ → Bool
in_range lo hi c = leb lo c && leb c hi

-- A byte above 127 is negative as a `char`, and so lies in none of the ranges.
unfoldable pub valid_lvm_name_char : ℕ → Bool
valid_lvm_name_char c =
    in_range b'a' b'z' c || in_range b'A' b'Z' c || c == b'+' || c == b'_' || c == b'.' || c == b'-'

-- The first loop of the encoder: whether every byte is valid.
unfoldable pub all_valid : Bytes → Bool
unfolding valid_lvm_name_char
all_valid [] = true
all_valid (c ∷ s) = valid_lvm_name_char c && all_valid s

abbrev pub lvm_encoding_prefix : Bytes
lvm_encoding_prefix = codes "+_"

unfoldable pub starts_with_dash : Bytes → Bool
starts_with_dash [] = false
starts_with_dash (c ∷ s) = c == b'-'

-- The names that LVM keeps for its own logical volumes.
unfoldable pub is_reserved : Bytes → Bool
unfolding strstr has_prefix
is_reserved name =
    strstr name (codes "_mlog")
    || strstr name (codes "_mimage")
    || strstr name (codes "_rimage")
    || strstr name (codes "_rmeta")
    || strstr name (codes "_tdata")
    || strstr name (codes "_tmeta")
    || has_prefix name (codes "pvmove")
    || has_prefix name (codes "snapshot")

-- The tests that lead to the label `encode`.
unfoldable pub needs_encoding : Bytes → Bool → Bool
unfolding all_valid starts_with_dash is_reserved
needs_encoding name for_logical_volume =
    not (all_valid name)
    || starts_with_dash name
    || has_prefix name lvm_encoding_prefix
    || (for_logical_volume && is_reserved name)

-- printf ("%x") of one digit.
unfoldable pub hex_digit : ℕ → ℕ
hex_digit d = if ltb d 10 then b'0' + d else b'a' + (d - 10)

-- The bytes that the second loop escapes.
unfoldable pub must_escape : ℕ → Bool
unfolding valid_lvm_name_char
must_escape c = not (valid_lvm_name_char c) || c == b'_'

-- printf ("_%02x") of an unsigned byte, or the byte itself.
unfoldable pub encode_char : ℕ → Bytes
unfolding hex_digit must_escape
encode_char c =
    if must_escape c then b'_' ∷ hex_digit (c / 16) ∷ hex_digit (c % 16) ∷ [] else c ∷ []

unfoldable pub encode_chars : Bytes → Bytes
unfolding encode_char
encode_chars [] = []
encode_chars (c ∷ s) = encode_char c ++ encode_chars s

unfoldable pub encode_lvm_name : Bytes → Bool → Bytes
unfolding needs_encoding encode_chars
encode_lvm_name name for_logical_volume =
    if needs_encoding name for_logical_volume
    then lvm_encoding_prefix ++ encode_chars name
    else name

unfoldable pub isxdigit : ℕ → Bool
isxdigit c = in_range b'0' b'9' c || in_range b'a' b'f' c || in_range b'A' b'F' c

-- g_ascii_xdigit_value, at a hexadecimal digit.
unfoldable pub xdigit_value : ℕ → ℕ
xdigit_value c =
    if in_range b'0' b'9' c
    then c - b'0'
    else if in_range b'a' b'f' c
    then c - b'a' + 10
    else c - b'A' + 10

-- (g_ascii_xdigit_value (e[1]) << 4) | g_ascii_xdigit_value (e[2])
unfoldable pub hex_value : ℕ → ℕ → ℕ
unfolding xdigit_value
hex_value h l = bit_or (xdigit_value h * 16) (xdigit_value l)

-- What one round of the decoder puts before the rest of the result.
unfoldable pub push : ℕ → Option Bytes → Option Bytes
push c none = none
push c (some s) = some (c ∷ s)

-- The loop of the decoder; `none` is the branch that gives the name back as it came. The byte behind
-- the end is NUL, which is no hexadecimal digit.
unfoldable pub decode_chars : Bytes → Option Bytes
unfolding isxdigit hex_value push
decode_chars [] = some []
decode_chars (e ∷ []) = if e == b'_' then none else some (e ∷ [])
decode_chars (e ∷ f ∷ []) = if e == b'_' then none else push e (decode_chars (f ∷ []))
decode_chars (e ∷ f ∷ g ∷ s) =
    let escaped = push (hex_value f g) (decode_chars s) in
    let plain = push e (decode_chars (f ∷ g ∷ s)) in
    if e == b'_' then (if isxdigit f && isxdigit g then escaped else none) else plain

-- The `GString` is handed over as a C string, which ends at the first NUL.
unfoldable pub until_nul : Bytes → Bytes
until_nul [] = []
until_nul (c ∷ s) = if c == 0 then [] else c ∷ until_nul s

unfoldable pub skip_prefix : Bytes → Bytes
skip_prefix [] = []
skip_prefix (a ∷ []) = []
skip_prefix (a ∷ b ∷ s) = s

unfoldable pub decoded_or : Option Bytes → Bytes → Bytes
unfolding until_nul
decoded_or none encoded = encoded
decoded_or (some dec) encoded = until_nul dec

unfoldable pub decode_lvm_name : Bytes → Bytes
unfolding decode_chars decoded_or skip_prefix has_prefix
decode_lvm_name encoded =
    if has_prefix encoded lvm_encoding_prefix
    then decoded_or (decode_chars (skip_prefix encoded)) encoded
    else encoded

encode_test : encode_lvm_name (codes "a b") false ≡ codes "+_a_20b"
unfolding encode_lvm_name
encode_test = refl

decode_test : decode_lvm_name (codes "+_a_20b") ≡ codes "a b"
unfolding decode_lvm_name
decode_test = refl

decode_bad_test : decode_lvm_name (codes "+_a_2") ≡ codes "+_a_2"
unfolding decode_lvm_name
decode_bad_test = refl
