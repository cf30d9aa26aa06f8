-- ===== src/Accessors/Construct/Fields.antt =====
-- What the accessors of a class keep in an object, as an interface, and what follows for g_object_new.
use udisks_lvm.Accessors.{done, set_once, then_set, Class, set_properties}
use udisks_lvm.Base.{Option, none, List, [], ◌∷◌, All, ◌≡◌, ◌≢◌, refl, sym, ap, ◌∙◌}

-- The value of a property in an object, an object with another value, and the values that are allowed
-- for a property that has not been set: with these `set_property` puts the value in.
pub record Fields (c : Class) : Type 1 where
  pub slot : (p : c.Prop) → c.Self → c.Value p
  pub put : (p : c.Prop) → c.Value p → c.Self → c.Self
  pub Allowed : (p : c.Prop) → c.Value p → Type 0
  pub set_put :
      (p : c.Prop) (v : c.Value p) (s : c.Self)
      → Allowed p v
      → slot p s ≡ slot p c.init
      → c.set_property p v s ≡ done (put p v s)
  pub put_self : (p : c.Prop) (v : c.Value p) (s : c.Self) → Allowed p v → slot p (put p v s) ≡ v
  pub put_other :
      (p q : c.Prop) (v : c.Value p) (s : c.Self) → q ≢ p → slot q (put p v s) ≡ slot q s

pub set_once-none : {V S : Type 0} (o : Option V) (s : S) → o ≡ none → set_once o s ≡ done s
unfolding set_once
set_once-none o s e = rw e refl

abbrev pub Absent : {P : Type 0} → P → List P → Type 0
Absent q ps = All (λ p. q ≢ p) ps

abbrev pub Distinct : {P : Type 0} → List P → Type 0
Distinct [] = Unit
Distinct (p ∷ ps) = Absent p ps × Distinct ps

module _ (c : Class) (f : Fields c) where
  open c use {Self, Prop, Value, init}

  Unset : List Prop → Self → Type 0
  Unset ps s = All (λ p. f.slot p s ≡ f.slot p init) ps

  put-Unset :
      (p : Prop) (ps : List Prop) (s s' : Self)
      → ((q : Prop) → q ≢ p → f.slot q s' ≡ f.slot q s)
      → Absent p ps
      → Unset ps s
      → Unset ps s'
  unfolding Unset
  put-Unset p [] s s' same absent u = tt
  put-Unset p (q ∷ ps) s s' same absent u =
      (same q (λ e. absent.0 (sym e)) ∙ u.0, put-Unset p ps s s' same absent.1 u.1)

  abbrev pub Constructed : List Prop → ((p : Prop) → Value p) → Self → Type 0
  Constructed order values s =
      (s' : Self) × (set_properties c order values s ≡ done s')
      × All (λ p. f.slot p s' ≡ values p) order
      × ((q : Prop) → Absent q order → f.slot q s' ≡ f.slot q s)

  set-Unset :
      (order : List Prop) (values : (p : Prop) → Value p) (s : Self)
      → Distinct order
      → All (λ p. f.Allowed p (values p)) order
      → Unset order s
      → Constructed order values s
  unfolding set_properties Unset
  set-Unset [] values s d a u = (s, refl, tt, λ q h. refl)
  set-Unset (p ∷ ps) values s d a u =
      let s1 = f.put p (values p) s in
      let set = f.set_put p (values p) s a.0 u.0 in
      let has = f.put_self p (values p) s a.0 in
      let others : (q : Prop) → q ≢ p → f.slot q s1 ≡ f.slot q s =
        λ q h. f.put_other p q (values p) s h in
      let (s', rest, have, same) =
        set-Unset ps values s1 d.1 a.1 (put-Unset p ps s s1 others d.0 u.1) in
      (
        s',
        ap (λ o. then_set o (set_properties c ps values)) set ∙ rest,
        (same p d.0 ∙ has, have),
        λ q h. same q h.1 ∙ others q h.0,
      )

  init-Unset : (order : List Prop) → Unset order init
  unfolding Unset
  init-Unset [] = tt
  init-Unset (p ∷ ps) = (refl, init-Unset ps)

  pub set_properties-Constructed :
      (order : List Prop) (values : (p : Prop) → Value p)
      → Distinct order
      → All (λ p. f.Allowed p (values p)) order
      → Constructed order values init
  set_properties-Constructed order values d a = set-Unset order values init d a (init-Unset order)
