-- ===== src/VolumeGroup/Blocks/Records.antt =====
-- src/volumegroup.c: the group that a block is recorded in behind `update_block`.
use udisks_lvm.Base.{
  true, Bool-cases, inl, inr, ◌⊎◌, ◌↔◌, ◌≢◌, str_equal_iff, subst, sym, Option, none, some, List,
  [], ◌∷◌, Bytes, strcmp0_eq, if◌then◌else◌, ◌≡◌, refl, ap, ◌∙◌, arith,
}
use udisks_lvm.Base.Table.{Table, lookup}
use udisks_lvm.Block.{Block, update_lv, update_pv}
use udisks_lvm.LogicalVolume.{LogicalVolume}
use udisks_lvm.PhysicalVolume.{PhysicalVolume}
use udisks_lvm.PhysicalVolume
use udisks_lvm.Variant.{Dict}
use udisks_lvm.VolumeGroup.Blocks.{
  find_by_symlink, find_pv_info, volume_of, link_volume, is_recorded, link_group, update_block,
}

-- The group that a block is recorded in, if it is a physical volume.
abbrev pub recorded_group : Block → Option (Option Bytes)
recorded_group block = elim block.iface_physical_volume [
  | none ↦ none
  | some pv ↦ some pv.volume_group
]

link_volume-iface :
    (block : Block) (o : Option LogicalVolume)
    → (link_volume block o).0.iface_physical_volume ≡ block.iface_physical_volume
unfolding link_volume update_lv
link_volume-iface block none = refl
link_volume-iface block (some volume) = ground arith

find_pv_info-link_volume :
    (pvs : Table Dict) (block : Block) (o : Option LogicalVolume)
    → find_pv_info pvs (link_volume block o).0 ≡ find_pv_info pvs block
unfolding link_volume update_lv find_pv_info
find_pv_info-link_volume pvs block none = refl
find_pv_info-link_volume pvs block (some volume) = ground arith

-- The name is one of the list.
abbrev pub OneOf : Bytes → List Bytes → Type 0
OneOf name [] = ⊥
OneOf name (s ∷ ss) = (name ≡ s) ⊎ OneOf name ss

-- One of the names stands in the table of physical volumes.
abbrev pub InTable : Table Dict → List Bytes → Type 0
InTable pvs names =
    (name : Bytes) × (info : Dict) × OneOf name names × (lookup name pvs ≡ some info)

-- What becomes of the record of a block: it is made for a block whose device file, or a symbolic link to
-- it, is listed; for another it goes if it is of this group, and stays if there is none or it is of
-- another group.
abbrev pub Linked : Option Bytes → Table Dict → Block → Option (Option Bytes) → Type 0
Linked group_path pvs block after =
    (InTable pvs (block.device ∷ block.symlinks) × (after ≡ some group_path))
    ⊎ ((¬ InTable pvs (block.device ∷ block.symlinks))
        × (recorded_group block ≡ some group_path)
        × (after ≡ none))
    ⊎ ((¬ InTable pvs (block.device ∷ block.symlinks))
        × (recorded_group block ≢ some group_path)
        × (after ≡ recorded_group block))

-- What is found is listed.
abbrev Finds : Table Dict → List Bytes → Option Dict → Type 0
Finds pvs names none = ¬ InTable pvs names
Finds pvs names (some info) = InTable pvs names

not_listed :
    (pvs : Table Dict) (s : Bytes) (ss : List Bytes)
    → lookup s pvs ≡ none
    → (¬ InTable pvs ss)
    → ¬ InTable pvs (s ∷ ss)
not_listed pvs s ss e h (name, info, inl same, f) = cc (ap (λ x. lookup x pvs) same, e, f)
not_listed pvs s ss e h (name, info, inr m, f) = h (name, info, m, f)

listed_later :
    (pvs : Table Dict) (s : Bytes) (ss : List Bytes) → InTable pvs ss → InTable pvs (s ∷ ss)
listed_later pvs s ss (name, info, m, f) = (name, info, inr m, f)

later-Finds :
    (pvs : Table Dict) (s : Bytes) (ss : List Bytes) (found : Option Dict)
    → lookup s pvs ≡ none
    → Finds pvs ss found
    → Finds pvs (s ∷ ss) found
later-Finds pvs s ss none e h = not_listed pvs s ss e h
later-Finds pvs s ss (some info) e h = listed_later pvs s ss h

first-Finds :
    (pvs : Table Dict) (s : Bytes) (ss : List Bytes) (o : Option Dict)
    → lookup s pvs ≡ o
    → Finds pvs ss (find_by_symlink pvs ss)
    → Finds pvs (s ∷ ss) (elim o [ none ↦ find_by_symlink pvs ss | some info ↦ some info ])
first-Finds pvs s ss none e h = later-Finds pvs s ss (find_by_symlink pvs ss) e h
first-Finds pvs s ss (some info) e h = (s, info, inl refl, e)

find-Finds : (pvs : Table Dict) (names : List Bytes) → Finds pvs names (find_by_symlink pvs names)
unfolding find_by_symlink
find-Finds pvs [] = λ l. let (name, info, m, f) = l in m
find-Finds pvs (s ∷ ss) = first-Finds pvs s ss (lookup s pvs) refl (find-Finds pvs ss)

find_pv_info-Finds :
    (pvs : Table Dict) (block : Block)
    → Finds pvs (block.device ∷ block.symlinks) (find_pv_info pvs block)
unfolding find_pv_info
find_pv_info-Finds pvs block =
    unfold find_by_symlink in find-Finds pvs (block.device ∷ block.symlinks)

strcmp0_iff : (a b : Option Bytes) → (strcmp0_eq a b ≡ true) ↔ (a ≡ b)
unfolding strcmp0_eq
strcmp0_iff none none = (λ e. refl, λ e. refl)
strcmp0_iff none (some b) = (λ e. cc, λ e. cc)
strcmp0_iff (some a) none = (λ e. cc, λ e. cc)
strcmp0_iff (some a) (some b) =
    (λ e. ap some ((str_equal_iff a b).0 e), λ e. (str_equal_iff a b).1 cc)

recorded_iff :
    (pv : Option PhysicalVolume) (group_path : Option Bytes)
    → (is_recorded pv group_path ≡ true)
      ↔ (elim pv [ none ↦ none | some p ↦ some p.volume_group ] ≡ some group_path)
unfolding is_recorded
recorded_iff none group_path = (λ e. cc, λ e. cc)
recorded_iff (some pv) group_path = (
  λ e. ap some ((strcmp0_iff pv.volume_group group_path).0 e),
  λ e. (strcmp0_iff pv.volume_group group_path).1 cc,
)

-- The record behind `link_group`, by the information found for the block.
abbrev recorded_after : Option Bytes → Block → Option Dict → Option (Option Bytes)
recorded_after group_path block (some info) = some group_path
recorded_after group_path block none =
    if is_recorded block.iface_physical_volume group_path then none else recorded_group block

recorded-link_group :
    (group_path : Option Bytes) (block : Block) (i : Option Dict)
    → recorded_group (link_group group_path block i).0 ≡ recorded_after group_path block i
unfolding link_group update_pv PhysicalVolume.update
recorded-link_group group_path block none = ground arith
recorded-link_group group_path block (some info) = ground arith

recorded_after-iface :
    (group_path : Option Bytes) (b c : Block) (i : Option Dict)
    → b.iface_physical_volume ≡ c.iface_physical_volume
    → recorded_after group_path b i ≡ recorded_after group_path c i
recorded_after-iface group_path b c none e = rw e
recorded_after-iface group_path b c (some info) e = refl

after-Linked :
    (group_path : Option Bytes) (pvs : Table Dict) (block : Block) (i : Option Dict)
    → Finds pvs (block.device ∷ block.symlinks) i
    → Linked group_path pvs block (recorded_after group_path block i)
after-Linked group_path pvs block (some info) h = inl (h, refl)
after-Linked group_path pvs block none h =
    let iff = recorded_iff block.iface_physical_volume group_path in
    elim (Bool-cases (is_recorded block.iface_physical_volume group_path)) [
      | inl e ↦ inr (inl (h, iff.0 e, rw e refl))
      | inr e ↦ inr (inr (h, λ q. cc (e, iff.1 q), rw e refl))
    ]

update_block_after :
    (group : Bytes) (group_path : Option Bytes) (new_lvs : Table LogicalVolume) (pvs : Table Dict)
    (block : Block)
    → recorded_group (update_block group group_path new_lvs pvs block).0
      ≡ recorded_after group_path block (find_pv_info pvs block)
update_block_after group group_path new_lvs pvs block =
    let o = volume_of group new_lvs block.udev in
    let linked = (link_volume block o).0 in
    unfold update_block in
    recorded-link_group group_path linked (find_pv_info pvs linked)
    ∙ recorded_after-iface group_path linked block (find_pv_info pvs linked)
        (link_volume-iface block o)
    ∙ ap (recorded_after group_path block) (find_pv_info-link_volume pvs block o)

-- Behind `update_block` a block is recorded in the group if its device file, or a symbolic link to it, is
-- in the table of the group's physical volumes. If none of them is, then it is not recorded any more if
-- its record was of this group, and a record of another group, or none, is left as it was.
pub update_block_recorded :
    (group : Bytes) (group_path : Option Bytes) (new_lvs : Table LogicalVolume) (pvs : Table Dict)
    (block : Block)
    → Linked group_path pvs block
        (recorded_group (update_block group group_path new_lvs pvs block).0)
update_block_recorded group group_path new_lvs pvs block =
    subst (Linked group_path pvs block)
      (sym (update_block_after group group_path new_lvs pvs block))
      (after-Linked group_path pvs block (find_pv_info pvs block) (find_pv_info-Finds pvs block))
