-- ===== src/Manager/Mirror/Latest.antt =====
-- src/manager.c: what is exported at a path is what udisksd last said of it.
use udisks_lvm.Base.{
  Bool, false, not, Option, none, some, List, [], ◌∷◌, ◌++◌, Bytes, str_equal, str_equal_iff, ◌≡◌,
  refl, sym, ap, ◌∙◌, inl, inr, Bool-cases, arith, if◌then◌else◌, map, flat_map,
}
use udisks_lvm.Base.Table.{Table, lookup, lookup-insert, lookup-keep}
use udisks_lvm.Daemon.{Object}
use udisks_lvm.Manager.Mirror.{
  Proxy, overlay, publish_object, unpublish_found, unpublish_all, on_udisks_interface_added,
  on_udisks_object_added, on_udisks_interface_removed, on_udisks_object_removed, ul_manager_init,
  Signal, object_added, object_removed, interface_added, interface_removed, handle, run,
}

-- An interface that comes or goes.
pub data Change : Type 0 where
  comes goes : Proxy → Change

abbrev concerns : Bytes → Proxy → Bool
concerns path i = if i.is_block then str_equal i.object_path path else false

-- What is at the path behind a list of changes: an overlay of the block that came last, unless it went.
abbrev pub latest : Bytes → List Change → Option Object → Option Object
latest path [] now = now
latest path (comes i ∷ cs) now = latest path cs (if concerns path i then some (overlay i) else now)
latest path (goes i ∷ cs) now = latest path cs (if concerns path i then none else now)

abbrev pub changes : List Signal → List Change
changes [] = []
changes (object_added is ∷ ss) = map comes is ++ changes ss
changes (object_removed is ∷ ss) = map goes is ++ changes ss
changes (interface_added i ∷ ss) = comes i ∷ changes ss
changes (interface_removed i ∷ ss) = goes i ∷ changes ss

module _ (path : Bytes) where
  latest-append :
      (cs ds : List Change) (now : Option Object)
      → latest path (cs ++ ds) now ≡ latest path ds (latest path cs now)
  latest-append [] ds now = refl
  latest-append (comes i ∷ cs) ds now = latest-append cs ds _
  latest-append (goes i ∷ cs) ds now = latest-append cs ds _

  added :
      (i : Proxy) (objects : Table Object)
      → lookup path (on_udisks_interface_added i objects)
        ≡ (if concerns path i then some (overlay i) else lookup path objects)
  unfolding on_udisks_interface_added publish_object
  added i objects = elim (Bool-cases i.is_block) [
    | inl e ↦ simp e (lookup-insert i.object_path path (overlay i) objects)
    | inr e ↦ simp e refl
  ]

  unpublished :
      (p : Bytes) (objects : Table Object) (found : Option Object)
      → lookup p objects ≡ found
      → lookup path (unpublish_found found p objects)
        ≡ (if str_equal p path then none else lookup path objects)
  unfolding unpublish_found
  unpublished p objects none e = elim (Bool-cases (str_equal p path)) [
    | inl c ↦ rw (c, sym ((str_equal_iff p path).0 c)) e
    | inr c ↦ rw c refl
  ]
  unpublished p objects (some thing) e =
      lookup-keep (λ q. not (str_equal q p)) path objects
      ∙ ground (arith, str_equal_iff p path, str_equal_iff path p)

  removed :
      (i : Proxy) (objects : Table Object)
      → lookup path (on_udisks_interface_removed i objects)
        ≡ (if concerns path i then none else lookup path objects)
  unfolding on_udisks_interface_removed unpublish_all
  removed i objects = elim (Bool-cases i.is_block) [
    | inl e ↦ simp e (unpublished i.object_path objects _ refl)
    | inr e ↦ simp e refl
  ]

  object_comes :
      (is : List Proxy) (objects : Table Object)
      → lookup path (on_udisks_object_added is objects)
        ≡ latest path (map comes is) (lookup path objects)
  unfolding on_udisks_object_added
  object_comes [] objects = refl
  object_comes (i ∷ is) objects =
      object_comes is (on_udisks_interface_added i objects)
      ∙ ap (latest path (map comes is)) (added i objects)

  object_goes :
      (is : List Proxy) (objects : Table Object)
      → lookup path (on_udisks_object_removed is objects)
        ≡ latest path (map goes is) (lookup path objects)
  unfolding on_udisks_object_removed
  object_goes [] objects = refl
  object_goes (i ∷ is) objects =
      object_goes is (on_udisks_interface_removed i objects)
      ∙ ap (latest path (map goes is)) (removed i objects)

  run-latest :
      (ss : List Signal) (objects : Table Object)
      → lookup path (run ss objects) ≡ latest path (changes ss) (lookup path objects)
  unfolding run handle
  run-latest [] objects = refl
  run-latest (object_added is ∷ ss) objects =
      run-latest ss (on_udisks_object_added is objects)
      ∙ ap (latest path (changes ss)) (object_comes is objects)
      ∙ sym (latest-append (map comes is) (changes ss) (lookup path objects))
  run-latest (object_removed is ∷ ss) objects =
      run-latest ss (on_udisks_object_removed is objects)
      ∙ ap (latest path (changes ss)) (object_goes is objects)
      ∙ sym (latest-append (map goes is) (changes ss) (lookup path objects))
  run-latest (interface_added i ∷ ss) objects =
      run-latest ss (on_udisks_interface_added i objects)
      ∙ ap (latest path (changes ss)) (added i objects)
  run-latest (interface_removed i ∷ ss) objects =
      run-latest ss (on_udisks_interface_removed i objects)
      ∙ ap (latest path (changes ss)) (removed i objects)

  init-latest :
      (all : List (List Proxy)) (objects : Table Object)
      → lookup path (ul_manager_init all objects)
        ≡ latest path (flat_map (map comes) all) (lookup path objects)
  unfolding ul_manager_init flat_map
  init-latest [] objects = refl
  init-latest (is ∷ all) objects =
      init-latest all (on_udisks_object_added is objects)
      ∙ ap (latest path (flat_map (map comes) all)) (object_comes is objects)
      ∙ sym (latest-append (map comes is) (flat_map (map comes) all) (lookup path objects))

  -- At every path the daemon exports a new overlay of the block that udisksd last had there, at the
  -- start or by a signal since; nothing if that block has gone; and else what it exported before.
  pub mirror-latest :
      (all : List (List Proxy)) (ss : List Signal) (objects : Table Object)
      → lookup path (run ss (ul_manager_init all objects))
        ≡ latest path (flat_map (map comes) all ++ changes ss) (lookup path objects)
  mirror-latest all ss objects =
      run-latest ss (ul_manager_init all objects)
      ∙ ap (latest path (changes ss)) (init-latest all objects)
      ∙ sym (latest-append (flat_map (map comes) all) (changes ss) (lookup path objects))
