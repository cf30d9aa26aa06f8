-- ===== src/System/Helpers.antt =====
-- src/manager.c, src/volumegroup.c: which helpers run.
use udisks_lvm.Base.{
  ℕ, zero, suc, ◌+◌, ◌<◌, Bool, true, false, ◌&&◌, ◌||◌, none, some, List, [], ◌∷◌, ◌++◌, Bytes,
  str_equal, str_equal_iff, length, ◌==◌, ==_iff, ◌≡◌, ◌⊎◌, refl, inl, inr, arith, Bool-cases,
}
use udisks_lvm.Base.Table.{Table, lookup}
use udisks_lvm.Manager.{contains}
use udisks_lvm.System.{Helper, listing, show, address_or, shows, pick}

abbrev pub is_listing : Helper → Bool
is_listing listing = true
is_listing (show name address) = false

abbrev pub is_show : Bytes → ℕ → Helper → Bool
is_show n a listing = false
is_show n a (show name address) = str_equal name n && address == a

-- Whether a helper runs that lists, or that reports on the group of a name and an address.
unfoldable pub has_listing : List Helper → Bool
has_listing [] = false
has_listing (h ∷ hs) = is_listing h || has_listing hs

unfoldable pub has_show : Bytes → ℕ → List Helper → Bool
has_show n a [] = false
has_show n a (h ∷ hs) = is_show n a h || has_show n a hs

pub has_listing-append :
    (hs ks : List Helper) → has_listing (hs ++ ks) ≡ (has_listing hs || has_listing ks)
unfolding has_listing
has_listing-append [] ks = refl
has_listing-append (h ∷ hs) ks = ground (arith, has_listing-append hs ks)

module _ (n : Bytes) (a : ℕ) where
  pub has_show-append :
      (hs ks : List Helper) → has_show n a (hs ++ ks) ≡ (has_show n a hs || has_show n a ks)
  unfolding has_show
  has_show-append [] ks = refl
  has_show-append (h ∷ hs) ks = ground (arith, has_show-append hs ks)

  pub has_show-shows :
      (addresses : Table ℕ) (names : List Bytes)
      → lookup n addresses ≡ some a
      → contains names n ≡ true
      → has_show n a (shows addresses names) ≡ true
  unfolding contains has_show shows
  has_show-shows addresses [] e h = cc
  has_show-shows addresses (name ∷ names) e h = elim (Bool-cases (str_equal name n)) [
    | inl hit ↦
        rw (hit, (str_equal_iff name n).0 hit, e)
          (unfold address_or in rw ((==_iff a a).1 refl) refl)
    | inr miss ↦ rw (miss, has_show-shows addresses names e (ground arith)) refl
  ]

-- One of the helpers, and the others.
pub record Picked (hs : List Helper) (h : Helper) (rest : List Helper) : Type 0 where
  pub same_listing : has_listing hs ≡ (is_listing h || has_listing rest)
  pub same_show : (n : Bytes) (a : ℕ) → has_show n a hs ≡ (is_show n a h || has_show n a rest)

or_swap : (a b c d : Bool) → c ≡ (b || d) → (a || c) ≡ (b || (a || d))
or_swap true true c d e = refl
or_swap true false c d e = refl
or_swap false b c d e = e

pub pick-cases :
    (k : ℕ) (hs : List Helper)
    → (pick k hs ≡ none)
      ⊎ ((h : Helper) × (rest : List Helper) × (pick k hs ≡ some (h, rest)) × Picked hs h rest)
unfolding pick has_listing has_show
pick-cases zero [] = inl refl
pick-cases (suc k) [] = inl refl
pick-cases zero (h ∷ hs) =
    inr (h, hs, refl, record { same_listing = refl; same_show = λ n a. refl })
pick-cases (suc k) (h ∷ hs) = elim (pick-cases k hs) [
  | inl e ↦ inl (rw e refl)
  | inr (x, rest, e, p) ↦ inr (
    x,
    h ∷ rest,
    rw e refl,
    record {
      same_listing = or_swap (is_listing h) (is_listing x) _ _ p.same_listing;
      same_show = λ n a. or_swap (is_show n a h) (is_show n a x) _ _ (p.same_show n a);
    },
  )
]

-- A helper that was picked from the first ones is picked from all.
pub pick-append :
    (k : ℕ) (old new : List Helper)
    → k < length old
    → (h : Helper) × (rest : List Helper) × (pick k (old ++ new) ≡ some (h, rest ++ new))
      × (length rest + 1 ≡ length old)
unfolding pick
pick-append k [] new lt = absurd (omega arith)
pick-append zero (h ∷ hs) new lt = (h, hs, refl, omega arith)
pick-append (suc k) (h ∷ hs) new lt =
    let (x, rest, e, l) = pick-append k hs new (omega (arith, lt)) in
    (x, h ∷ rest, rw e refl, omega (arith, l))
