-- ===== src/Manager/Create/Checked.antt =====
-- src/manager.c: before a volume group is created all its devices are checked, and none is touched.
use udisks_lvm.Base.{
  ℕ, ◌+◌, true, subst, false, Option, none, some, List, [], ◌∷◌, ◌++◌, append_assoc, Bytes, codes,
  map, ◌≡◌, refl, sym, ap, ◌∙◌, ◌⊎◌, inl, inr, All, All-append, Bool-cases,
}
use udisks_lvm.Base.Table.{Table}
use udisks_lvm.Block.{Block, is_unused}
use udisks_lvm.Bus.{error, failed}
use udisks_lvm.Completion.{group_named}
use udisks_lvm.Daemon.{
  Object, block, skeleton, Found, object, interface, invalid, find_thing, as_block,
}
use udisks_lvm.Jobs.{create_group, threaded, on_publication, Handled, replied, launched}
use udisks_lvm.Manager.Create.{
  extent_size_arg, check_block, collect, create_collected, handle_volume_group_create,
}
use udisks_lvm.Util.Host.{Host, History, Syscall, open_readonly, Outcome, returned, raised}
use udisks_lvm.Util.Host.Calls.{Succeeded, Succeeded-append}
use udisks_lvm.Util.Name.{encode_lvm_name}

-- The call only looks whether a device can be opened.
pub Harmless : Syscall → Type 0
Harmless (open_readonly device) = Unit {0}
Harmless _ = ⊥

-- The calls that open blocks, the latest first.
abbrev pub opens_of : List Block → History
opens_of [] = []
opens_of (b ∷ bs) = opens_of bs ++ open_readonly b.device ∷ []

-- The blocks that paths lead to, if they lead to blocks.
abbrev pub blocks_at : Table Object → List Bytes → List (Option Block)
blocks_at objects paths = map (λ path. as_block (find_thing objects path invalid)) paths

module _ (host : Host) (objects : Table Object) where
  -- Why a creation is refused, at the first path that is wrong: it does not lead to a block, or the device
  -- of the block cannot be opened. `h` and `h'` are the calls before and after.
  abbrev pub Refused : List Bytes → History → History → Type 0
  Refused [] h h' = ⊥
  Refused (path ∷ paths) h h' =
      ((as_block (find_thing objects path invalid) ≡ none) × (h' ≡ h))
      ⊎ ((b : Block) × (as_block (find_thing objects path invalid) ≡ some b)
          × (((host.opens_readonly h b.device ≡ false) × (h' ≡ open_readonly b.device ∷ h))
              ⊎ ((host.opens_readonly h b.device ≡ true)
                  × Refused paths (open_readonly b.device ∷ h) h')))

  -- Nothing is done but to open devices for reading.
  Untouched : History → History → Type 0
  Untouched h h' = (made : History) × (h' ≡ made ++ h) × All Harmless made

  Checked : Option Found → History → Outcome Block → Type 0
  Checked found h (returned b h') =
      (as_block found ≡ some b)
      × (h' ≡ open_readonly b.device ∷ h)
      × (host.opens_readonly h b.device ≡ true)
  Checked found h (raised e h') =
      Untouched h h'
      × (((as_block found ≡ none) × (h' ≡ h))
          ⊎ ((b : Block) × (as_block found ≡ some b)
              × (host.opens_readonly h b.device ≡ false)
              × (h' ≡ open_readonly b.device ∷ h)))

  unused-Checked :
      (b : Block) (h : History)
      → Checked
          (some (object (block b)))
          h
          (elim (is_unused host b h) [ returned _ h' ↦ returned b h' | raised e h' ↦ raised e h' ])
  unfolding Checked Untouched Harmless is_unused as_block
  unused-Checked b h = elim (Bool-cases (host.opens_readonly h b.device)) [
    | inl e ↦ simp e (refl, refl, refl)
    | inr e ↦ simp e ((open_readonly b.device ∷ [], refl, (tt, tt)), inr (b, refl, e, refl))
  ]

  check-Checked :
      (n : ℕ) (path : Bytes) (found : Option Found) (h : History)
      → Checked found h (check_block host n path found h)
  unfolding check_block
  check-Checked n path none h =
      unfold Checked Untouched as_block in (([], refl, tt), inl (refl, refl))
  check-Checked n path (some (object (block b))) h = unused-Checked b h
  check-Checked n path (some (object (skeleton is))) h =
      unfold Checked Untouched as_block in (([], refl, tt), inl (refl, refl))
  check-Checked n path (some (interface i)) h =
      unfold Checked Untouched as_block in (([], refl, tt), inl (refl, refl))

  Collected : List Bytes → History → Outcome (List Block) → Type 0
  Collected paths h (returned bs h') =
      (blocks_at objects paths ≡ map some bs)
      × (h' ≡ opens_of bs ++ h)
      × Succeeded host h (opens_of bs)
  Collected paths h (raised e h') = Untouched h h' × Refused paths h h'

  module _ (path : Bytes) (paths : List Bytes) (h : History) where
    with_block :
        (b : Block) (h' : History) (rest : Outcome (List Block))
        → as_block (find_thing objects path invalid) ≡ some b
        → h' ≡ open_readonly b.device ∷ h
        → host.opens_readonly h b.device ≡ true
        → Collected paths h' rest
        → Collected
            (path ∷ paths)
            h
            (elim rest [ returned bs h'' ↦ returned (b ∷ bs) h'' | raised e h'' ↦ raised e h'' ])
    unfolding Collected Untouched Harmless
    with_block b h' (returned bs h'') e1 e2 opened (e3, e4, good) = (
      rw (e1, e3) refl,
      e4
          ∙ ap (λ x. opens_of bs ++ x) e2
          ∙ sym (append_assoc (opens_of bs) (open_readonly b.device ∷ []) h),
      Succeeded-append host (open_readonly b.device ∷ []) (opens_of bs) h (opened, tt)
          (subst (λ x. Succeeded host x (opens_of bs)) e2 good),
    )
    with_block b h' (raised e h'') e1 e2 opened ((made, e3, all), why) = (
      (
        made ++ open_readonly b.device ∷ [],
        e3 ∙ ap (λ x. made ++ x) e2 ∙ sym (append_assoc made (open_readonly b.device ∷ []) h),
        All-append Harmless made (open_readonly b.device ∷ []) all (tt, tt),
      ),
      inr (b, e1, inr (opened, subst (λ x. Refused paths x h'') e2 why)),
    )

    refused :
        (h' : History)
        → ((as_block (find_thing objects path invalid) ≡ none) × (h' ≡ h))
          ⊎ ((b : Block) × (as_block (find_thing objects path invalid) ≡ some b)
              × (host.opens_readonly h b.device ≡ false)
              × (h' ≡ open_readonly b.device ∷ h))
        → Refused (path ∷ paths) h h'
    refused h' (inl no_block) = inl no_block
    refused h' (inr (b, e, closed, made)) = inr (b, e, inl (closed, made))

    with_rest :
        (n : ℕ) (first : Outcome Block)
        → Checked (find_thing objects path invalid) h first
        → ((h' : History) → Collected paths h' (collect host objects n paths h'))
        → Collected (path ∷ paths) h (elim first [
          | returned b h' ↦ elim (collect host objects n paths h') [
            | returned bs h'' ↦ returned (b ∷ bs) h''
            | raised e h'' ↦ raised e h''
          ]
          | raised e h' ↦ raised e h'
        ])
    unfolding Checked
    with_rest n (returned b h') (e1, e2, opened) rest = with_block b h' _ e1 e2 opened (rest h')
    with_rest n (raised e h') (untouched, why) rest =
        unfold Collected in (untouched, refused h' why)

  collect-Collected :
      (n : ℕ) (paths : List Bytes) (h : History)
      → Collected paths h (collect host objects n paths h)
  unfolding collect Collected
  collect-Collected n [] h = (refl, refl, tt)
  collect-Collected n (path ∷ paths) h =
      let found = find_thing objects path invalid in
      with_rest path paths h (n + 1) (check_block host n path found h)
        (check-Checked n path found h) (collect-Collected (n + 1) paths)

  -- The job that creates a group of these blocks.
  abbrev pub creation : Bytes → ℕ → List Block → Handled
  creation arg_name arg_extent_size blocks =
      let vgname = encode_lvm_name arg_name false in
      launched
        (threaded (codes "lvm-vg-create")
          (create_group (map (λ b. b.device) blocks) vgname (extent_size_arg arg_extent_size)))
        (on_publication (group_named vgname) (codes "Error creating volume group: "))

  answered :
      (paths : List Bytes) (arg_name : Bytes) (arg_extent_size : ℕ) (h : History)
      (m : Outcome (List Block))
      → Collected paths h m
      → ((blocks : List Block) × (blocks_at objects paths ≡ map some blocks)
          × Succeeded host h (opens_of blocks)
          × (create_collected host arg_name arg_extent_size m
              ≡ returned (creation arg_name arg_extent_size blocks) (opens_of blocks ++ h)))
        ⊎ ((message : Bytes) × (made : History) × All Harmless made
            × Refused paths h (made ++ h)
            × (create_collected host arg_name arg_extent_size m
                ≡ returned (replied (error failed message)) (made ++ h)))
  unfolding Collected Untouched create_collected
  answered paths arg_name arg_extent_size h (returned blocks h') (e1, e2, good) =
      inl (blocks, e1, good, ap (returned (creation arg_name arg_extent_size blocks)) e2)
  answered paths arg_name arg_extent_size h (raised message h') ((made, e, all), why) = inr (
    message,
    made,
    all,
    subst (Refused paths h) e why,
    ap (returned (replied (error failed message))) e,
  )

  -- Either every path leads to a block, all of their devices could be opened for reading, one after the
  -- other in the order of the paths and with no other system call, and a job is launched that creates a
  -- group with the encoded name on these devices in this order. Or there is a first path that leads to no
  -- block or to one whose device could not be opened: then an error is the answer, no job is launched, and
  -- nothing has been done but to open the devices up to there for reading.
  pub handle_volume_group_create_checked :
      (paths : List Bytes) (arg_name : Bytes) (arg_extent_size : ℕ) (h : History)
      → ((blocks : List Block) × (blocks_at objects paths ≡ map some blocks)
          × Succeeded host h (opens_of blocks)
          × (handle_volume_group_create host objects paths arg_name arg_extent_size h
              ≡ returned (creation arg_name arg_extent_size blocks) (opens_of blocks ++ h)))
        ⊎ ((message : Bytes) × (made : History) × All Harmless made
            × Refused paths h (made ++ h)
            × (handle_volume_group_create host objects paths arg_name arg_extent_size h
                ≡ returned (replied (error failed message)) (made ++ h)))
  unfolding handle_volume_group_create
  handle_volume_group_create_checked paths arg_name arg_extent_size h =
      answered paths arg_name arg_extent_size h (collect host objects 0 paths h)
        (collect-Collected 0 paths h)
