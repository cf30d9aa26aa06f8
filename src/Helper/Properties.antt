-- ===== src/Helper/Properties.antt =====
-- src/helper.c: what g_variant_lookup finds of the properties that `add_lvprop` adds.
use Prim.Native.Nat.{Ordering}
use Prim.Native.String.{String, compare}
use text.Mathlib.Text.{◌==◌, is_eq}
use text.Mathlib.TextEquality.{path_by_compare}
use text.Mathlib.TextPositions.{compare_refl}
use udisks_lvm.Base.{
  Bool, true, false, Option, none, some, List, [], ◌∷◌, Bytes, ◌≡◌, refl, sym, ap, ◌∙◌, inl, inr,
  Bool-cases, if◌then◌else◌,
}
use udisks_lvm.Helper.{Property, Lv, string_of, add_string, add_uint64, add_property, add_lvprop}
use udisks_lvm.Variant.{Value, string, uint64, Dict, empty, lookup_value}

equal_by : (o : Ordering) → is_eq o ≡ true → o ≡ Ordering.eq
equal_by Ordering.eq h = refl
equal_by Ordering.lt h = cc
equal_by Ordering.gt h = cc

equal_text : (s t : String) → (s == t) ≡ true → s ≡ t
equal_text s t h = path_by_compare s t (equal_by (compare s t) h)

equal_self : (s : String) → (s == s) ≡ true
equal_self s = ap is_eq (compare_refl s)

-- A property as a value, if it has one.
abbrev value_or_number : Property → Option Bytes → Option Value
value_or_number p (some s) = some (string s)
value_or_number p none = if p.is_integer then some (uint64 p.integer_value) else none

abbrev pub value_of : Property → Option Value
value_of p = if p.is_valid then value_or_number p (string_of p) else none

abbrev or_later : Option Value → Option Value → Option Value
or_later none later = later
or_later (some v) later = some v

module _ (key : String) (lv : Lv) (later : Dict) where
  property_here :
      (p : Property) (s : Option Bytes)
      → (key == key) ≡ true
      → lookup_value (add_property key p s later) key
        ≡ or_later (value_or_number p s) (lookup_value later key)
  unfolding add_property add_string add_uint64 lookup_value
  property_here p (some s) h = rw h refl
  property_here p none h = elim (Bool-cases p.is_integer) [
    | inl e ↦ simp (e, h) refl
    | inr e ↦ simp e refl
  ]

  lvprop_here :
      (key == key) ≡ true
      → lookup_value (add_lvprop key lv later) key
        ≡ or_later (value_of (lv.get_property key)) (lookup_value later key)
  unfolding add_lvprop
  lvprop_here h = elim (Bool-cases (lv.get_property key).is_valid) [
    | inl e ↦ simp e (property_here (lv.get_property key) (string_of (lv.get_property key)) h)
    | inr e ↦ simp e refl
  ]

  property_other :
      (p : Property) (s : Option Bytes) (other : String)
      → (key == other) ≡ false
      → lookup_value (add_property key p s later) other ≡ lookup_value later other
  unfolding add_property add_string add_uint64 lookup_value
  property_other p (some s) other h = rw h refl
  property_other p none other h = elim (Bool-cases p.is_integer) [
    | inl e ↦ simp (e, h) refl
    | inr e ↦ simp e refl
  ]

  lvprop_other :
      (other : String)
      → (key == other) ≡ false
      → lookup_value (add_lvprop key lv later) other ≡ lookup_value later other
  unfolding add_lvprop
  lvprop_other other h = elim (Bool-cases (lv.get_property key).is_valid) [
    | inl e ↦
        simp e (property_other (lv.get_property key) (string_of (lv.get_property key)) other h)
    | inr e ↦ simp e refl
  ]

module _ (lv : Lv) where
  -- The properties of the keys, added in this order.
  unfoldable pub add_props : List String → Dict
  add_props [] = empty
  add_props (k ∷ ks) = add_lvprop k lv (add_props ks)

  abbrev pub among : String → List String → Bool
  among key [] = false
  among key (k ∷ ks) = if k == key then true else among key ks

  abbrev pub found : String → Bool → Option Value
  found key true = value_of (lv.get_property key)
  found key false = none

  -- The key is looked for in `ks` behind itself.
  again :
      (v : Option Value) (key : String) (b : Bool)
      → v ≡ value_of (lv.get_property key)
      → or_later v (found key b) ≡ v
  again (some v) key b h = refl
  again none key true h = sym h
  again none key false h = refl

  same_key :
      (ks : List String) (k key : String)
      → (k == key) ≡ true
      → lookup_value (add_props ks) key ≡ found key (among key ks)
      → lookup_value (add_lvprop k lv (add_props ks)) key ≡ value_of (lv.get_property key)
  same_key ks k key e ih =
      ap (λ x. lookup_value (add_lvprop x lv (add_props ks)) key) (equal_text k key e)
      ∙ lvprop_here key lv (add_props ks) (equal_self key)
      ∙ ap (or_later (value_of (lv.get_property key))) ih
      ∙ again (value_of (lv.get_property key)) key (among key ks) refl

  pub props_found :
      (ks : List String) (key : String) → lookup_value (add_props ks) key ≡ found key (among key ks)
  unfolding add_props
  props_found [] key = unfold lookup_value in refl
  props_found (k ∷ ks) key = elim (Bool-cases (k == key)) [
    | inl e ↦ rw e (same_key ks k key e (props_found ks key))
    | inr e ↦ rw e (lvprop_other k lv (add_props ks) key e ∙ props_found ks key)
  ]
