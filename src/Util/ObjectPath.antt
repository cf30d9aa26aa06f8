-- ===== src/Util/ObjectPath.antt =====
-- src/util.c, D-Bus object paths: `safe_append_to_object_path`, `ul_util_build_object_path`.
use udisks_lvm.Base.{
  ℕ, ◌/◌, ◌%◌, ◌<◌, Bool, true, false, ◌||◌, ◌&&◌, Option, none, some, List, [], ◌∷◌, ◌++◌,
  append_assoc, append-nil, Bytes, codes, leb, ltb, ◌==◌, if◌then◌else◌, ◌≡◌, ◌≢◌, refl, sym, ap,
  ◌∙◌, inl, inr, arith, length, length-append, All, Bool-cases,
}
use udisks_lvm.Util.Name.{hex_digit}

unfoldable pub path_char : ℕ → Bool
path_char c =
    (leb b'A' c && leb c b'Z')
    || (leb b'a' c && leb c b'z')
    || (leb b'0' c && leb c b'9')
    || c == b'_'

-- printf ("_%02x") of the `char` as an `int`: a byte above 127 is negative there, and prints as the
-- 32-bit number that it wraps to.
unfoldable pub print_escape : ℕ → Bytes
unfolding hex_digit
print_escape c =
    b'_'
    ∷ (if ltb c 128
        then hex_digit (c / 16) ∷ hex_digit (c % 16) ∷ []
        else codes "ffffff" ++ hex_digit (c / 16) ∷ hex_digit (c % 16) ∷ [])

-- What a round of the loop appends.
unfoldable pub escape_char : ℕ → Bytes
unfolding path_char print_escape
escape_char c = if path_char c then c ∷ [] else print_escape c

unfoldable pub safe_append : Bytes → Bytes → Bytes
unfolding escape_char
safe_append str [] = str
safe_append str (c ∷ s) = safe_append (str ++ escape_char c) s

unfoldable pub has_slash_suffix : Bytes → Bool
has_slash_suffix [] = false
has_slash_suffix (c ∷ []) = c == b'/'
has_slash_suffix (c ∷ d ∷ s) = has_slash_suffix (d ∷ s)

-- The loop over the variable arguments, up to the final NULL.
unfoldable pub append_parts : Bytes → List Bytes → Bytes
unfolding safe_append
append_parts path [] = path
append_parts path (part ∷ parts) = append_parts (safe_append (path ++ b'/' ∷ []) part) parts

-- `none` is NULL: the base is missing, or ends in a slash.
unfoldable pub build_object_path : Option Bytes → List Bytes → Option Bytes
unfolding append_parts has_slash_suffix
build_object_path none parts = none
build_object_path (some base) parts =
    if has_slash_suffix base then none else some (append_parts base parts)

-- The element that a part becomes.
pub element : Bytes → Bytes
unfolding escape_char
element [] = []
element (c ∷ s) = escape_char c ++ element s

pub elements : List Bytes → List Bytes
unfolding element
elements [] = []
elements (p ∷ ps) = element p ∷ elements ps

-- Elements, each behind a slash.
abbrev pub slashed : List Bytes → Bytes
slashed [] = []
slashed (e ∷ es) = b'/' ∷ (e ++ slashed es)

abbrev pub IsPathChar : ℕ → Type 0
IsPathChar c = path_char c ≡ true

safe_append-element : (str s : Bytes) → safe_append str s ≡ str ++ element s
unfolding safe_append element
safe_append-element str [] = sym (append-nil str)
safe_append-element str (c ∷ s) =
    safe_append-element (str ++ escape_char c) s ∙ append_assoc str (escape_char c) (element s)

append_parts-slashed :
    (path : Bytes) (parts : List Bytes) → append_parts path parts ≡ path ++ slashed (elements parts)
unfolding append_parts elements
append_parts-slashed path [] = sym (append-nil path)
append_parts-slashed path (p ∷ ps) =
    append_parts-slashed (safe_append (path ++ b'/' ∷ []) p) ps
    ∙ simp (safe_append-element, append_assoc)

hex_digit-IsPathChar : (d : ℕ) → d < 16 → IsPathChar (hex_digit d)
unfolding hex_digit path_char
hex_digit-IsPathChar d h = ground arith

path_digits : (h l : ℕ) → IsPathChar h → IsPathChar l → All IsPathChar (b'_' ∷ h ∷ l ∷ [])
path_digits h l p q = (unfold path_char in refl, (p, (q, tt)))

path_long :
    (h l : ℕ) → IsPathChar h → IsPathChar l → All IsPathChar (b'_' ∷ codes "ffffff" ++ h ∷ l ∷ [])
unfolding path_char
path_long h l p q = (refl, (refl, (refl, (refl, (refl, (refl, (refl, (p, (q, tt)))))))))

print_escape-IsPathChar : (c : ℕ) → c < 256 → All IsPathChar (print_escape c)
print_escape-IsPathChar c h =
    let high = hex_digit-IsPathChar (c / 16) (omega arith) in
    let low = hex_digit-IsPathChar (c % 16) (omega arith) in
    elim (Bool-cases (ltb c 128)) [
      | inl e ↦ unfold print_escape in rw e (path_digits _ _ high low)
      | inr e ↦ unfold print_escape in rw e (path_long _ _ high low)
    ]

escape_char-IsPathChar : (c : ℕ) → c < 256 → All IsPathChar (escape_char c)
escape_char-IsPathChar c h = elim (Bool-cases (path_char c)) [
  | inl e ↦ unfold escape_char in rw e (e, tt)
  | inr e ↦ unfold escape_char in rw e (print_escape-IsPathChar c h)
]

element_kept : (s : Bytes) → All IsPathChar s → element s ≡ s
unfolding element escape_char
element_kept [] h = refl
element_kept (c ∷ s) h = rw (h.0, element_kept s h.1)

element-append : (s t : Bytes) → element (s ++ t) ≡ element s ++ element t
unfolding element
element-append [] t = refl
element-append (c ∷ s) t = simp (element-append s t, append_assoc)

same_element :
    (base p q : Bytes)
    → element p ≡ element q
    → build_object_path (some base) (p ∷ []) ≡ build_object_path (some base) (q ∷ [])
unfolding build_object_path elements
same_element base p q e =
    ap (λ x. if has_slash_suffix base then none else some x)
      (append_parts-slashed base (p ∷ [])
        ∙ ap (λ x. base ++ slashed (x ∷ [])) e
        ∙ sym (append_parts-slashed base (q ∷ [])))

element_of_escape :
    (pre post : Bytes) (c : ℕ)
    → c < 256
    → element (pre ++ c ∷ post) ≡ element (pre ++ (escape_char c ++ post))
element_of_escape pre post c h =
    rw (element-append, element-append pre (escape_char c ++ post), element-append (escape_char c))
      (rw (element_kept (escape_char c) (escape_char-IsPathChar c h)) (unfold element in refl))

length-escape_char : (c : ℕ) → path_char c ≡ false → 1 < length (escape_char c)
unfolding escape_char
length-escape_char c h = ground arith

-- The mapping is not injective: for every byte that has to be escaped, a part that holds it and the
-- part that holds its escape sequence instead are different and give the same path.
pub build_object_path_collision :
    (base pre post : Bytes) (c : ℕ)
    → c < 256
    → path_char c ≡ false
    → (build_object_path (some base) ((pre ++ c ∷ post) ∷ [])
        ≡ build_object_path (some base) ((pre ++ (escape_char c ++ post)) ∷ []))
      × (pre ++ c ∷ post ≢ pre ++ (escape_char c ++ post))
build_object_path_collision base pre post c h e = (
  same_element base _ _ (element_of_escape pre post c h),
  λ same. omega (
    arith,
    ap length same,
    length-append pre (c ∷ post),
    length-append pre (escape_char c ++ post),
    length-append (escape_char c) post,
    length-escape_char c e,
  ),
)
