-- ===== src/Daemon/Publish/Restore.antt =====
-- src/daemon.c: unpublishing undoes publishing.
use udisks_lvm.Base.{
  ℕ, true, false, not, Option, none, some, List, [], ◌∷◌, Bytes, str_equal, str_equal_refl,
  str_equal_iff, ◌==◌, if◌then◌else◌, ◌≡◌, refl, sym, ◌∙◌, arith, inl, inr, Bool-cases,
}
use udisks_lvm.Base.Table.{lookup, insert, lookup-insert, lookup-keep}
use udisks_lvm.Daemon.Publish.{
  Skeleton, Exports, get_interface, remove_named, add_interface, published_at, publish, only_this,
  remove_found, remove_interface, unpublish_found, unpublish,
}

same : (n : ℕ) → (n == n) ≡ true
same n = ground arith

remove_absent :
    (name : Bytes) (is : List Skeleton) → get_interface name is ≡ none → remove_named name is ≡ is
unfolding get_interface remove_named
remove_absent name [] h = refl
remove_absent name (i ∷ is) h = ground (arith, h, remove_absent name is)

-- Table lookups behind an insertion that is taken back, by removal or by the value that was there.
module _ (path j : Bytes) (v : List Skeleton) (exports : Exports) where
  withdrawn :
      lookup path exports ≡ none
      → (if not (str_equal j path) then lookup j (insert path v exports) else none)
        ≡ lookup j exports
  withdrawn e = elim (Bool-cases (str_equal path j)) [
    | inl c ↦ rw (sym ((str_equal_iff path j).0 c), str_equal_refl path) (sym e)
    | inr c ↦ rw (different c) (lookup-insert path j v exports ∙ rw c refl)
  ]
    where
      different : str_equal path j ≡ false → str_equal j path ≡ false
      different c = ground (arith, c, str_equal_iff path j, str_equal_iff j path)

  put_back :
      (old new : List Skeleton)
      → lookup path exports ≡ some old
      → new ≡ old
      → (if str_equal path j then some new else lookup j (insert path v exports)) ≡ lookup j exports
  put_back old new e n = elim (Bool-cases (str_equal path j)) [
    | inl c ↦ rw (sym ((str_equal_iff path j).0 c), str_equal_refl path, n) (sym e)
    | inr c ↦ rw c (lookup-insert path j v exports ∙ rw c refl)
  ]

module _ (thing : Skeleton) where
  alone : only_this thing (add_interface thing []) ≡ true
  unfolding only_this add_interface remove_named
  alone = rw (same thing.address) refl

  added_removed :
      (is : List Skeleton)
      → get_interface thing.info_name is ≡ none
      → remove_interface thing (add_interface thing is) ≡ is
  unfolding remove_interface add_interface get_interface remove_found remove_named
  added_removed is h =
      rw (str_equal_refl thing.info_name, same thing.address)
        (rw (remove_absent thing.info_name is h, str_equal_refl thing.info_name) refl)

  -- No object is exported, or one that has another interface and none of this name.
  unfoldable pub Addable : Option (List Skeleton) → Type 0
  Addable none = Unit {0}
  Addable (some is) = (get_interface thing.info_name is ≡ none) × (only_this thing is ≡ false)

  others_stay :
      (is : List Skeleton)
      → get_interface thing.info_name is ≡ none
      → only_this thing is ≡ false
      → only_this thing (add_interface thing is) ≡ false
  unfolding only_this add_interface
  others_stay is h o = rw (remove_absent thing.info_name is h, same thing.address, o) refl

  module _ (path : Bytes) (exports : Exports) (j : Bytes) where
    restored :
        (found : Option (List Skeleton))
        → lookup path exports ≡ found
        → Addable found
        → lookup j (
            unpublish_found
              (some (published_at thing found))
              path
              thing
              (insert path (published_at thing found) exports))
          ≡ lookup j exports
    unfolding unpublish_found published_at Addable
    restored none e a = rw alone (
        lookup-keep (λ p. not (str_equal p path)) j (insert path (add_interface thing []) exports)
        ∙ withdrawn path j (add_interface thing []) exports e)
    restored (some is) e (h, o) = rw (others_stay is h o) (
        lookup-insert path j (remove_interface thing (add_interface thing is))
          (insert path (add_interface thing is) exports)
        ∙ put_back path j (add_interface thing is) exports is
            (remove_interface thing (add_interface thing is)) e (added_removed is h))

    published :
        lookup path (publish path thing exports) ≡ some (published_at thing (lookup path exports))
    unfolding publish
    published =
        lookup-insert path path (published_at thing (lookup path exports)) exports
        ∙ rw (str_equal_refl path) refl

    -- An interface that is published and then unpublished leaves the object manager as it was, at every
    -- path, if it was not on the bus at its path before and the object there, if there is one, has
    -- another interface.
    pub unpublish-publish :
        Addable (lookup path exports)
        → lookup j (unpublish path thing (publish path thing exports)) ≡ lookup j exports
    unpublish-publish a =
        unfold unpublish in rw published (unfold publish in restored (lookup path exports) refl a)
