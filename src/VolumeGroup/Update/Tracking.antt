-- ===== src/VolumeGroup/Update/Tracking.antt =====
-- src/volumegroup.c: behind an update the table of logical volumes is what the helper reported.
use udisks_lvm.Base.{
  Bool, true, false, ◌||◌, Option, none, some, List, [], ◌∷◌, ◌++◌, Bytes, if◌then◌else◌, ◌≡◌, refl,
  ◌∙◌, inl, inr, arith, Bool-cases,
}
use udisks_lvm.Base.Table.{lookup, keep, lookup-insert, lookup-keep}
use udisks_lvm.Block.{Block}
use udisks_lvm.Variant.{Dict, lookup_string, lookup_dicts}
use udisks_lvm.VolumeGroup.{VolumeGroup}
use udisks_lvm.VolumeGroup.Update.Progress.{Job}
use udisks_lvm.VolumeGroup.Update.{
  Loop, Owner, contains, show_volume, note_operations, show_if_visible, rounds, update_volumes,
  infos_of,
}
use udisks_lvm.VolumeGroup.Visible.{lv_is_visible}

abbrev pub is_some {ℓ} : {A : Type ℓ} → Option A → Bool
is_some none = false
is_some (some a) = true

abbrev shown_name : Option Bytes → List Bytes
shown_name none = []
shown_name (some name) = if lv_is_visible (some name) then name ∷ [] else []

-- The names that a report shows: those of its visible volumes.
unfoldable pub shown : List Dict → List Bytes
shown [] = []
shown (info ∷ infos) = shown_name (lookup_string info "name") ++ shown infos

contains-append :
    (xs ys : List Bytes) (n : Bytes) → contains (xs ++ ys) n ≡ (contains xs n || contains ys n)
unfolding contains
contains-append [] ys n = refl
contains-append (x ∷ xs) ys n = ground (arith, contains-append xs ys n)

module _ (o : Owner) (blocks : List Block) where
  round : Dict → Loop → Loop
  round info s =
      let name = lookup_string info "name" in
      show_if_visible o name info (note_operations blocks name info s)

  rounds-cons :
      (info : Dict) (infos : List Dict) (s : Loop)
      → rounds o blocks (info ∷ infos) s ≡ rounds o blocks infos (round info s)
  unfolding rounds round
  rounds-cons info infos s = refl

  show-visible :
      (name : Bytes) (info : Dict) (s : Loop)
      → lv_is_visible (some name) ≡ true
      → show_if_visible o (some name) info s ≡ show_volume o name info s
  show-visible name info s e = unfold show_if_visible in rw e

  show-hidden :
      (name : Bytes) (info : Dict) (s : Loop)
      → lv_is_visible (some name) ≡ false
      → show_if_visible o (some name) info s ≡ s
  show-hidden name info s e = unfold show_if_visible in rw e

  show-new_lvs :
      (name : Option Bytes) (info : Dict) (s : Loop) (n : Bytes)
      → contains (show_if_visible o name info s).new_lvs n
        ≡ (contains (shown_name name) n || contains s.new_lvs n)
  show-new_lvs none info s n = unfold show_if_visible contains in refl
  show-new_lvs (some name) info s n = elim (Bool-cases (lv_is_visible (some name))) [
    | inl e ↦ rw (show-visible name info s e, e) (unfold show_volume contains in ground arith)
    | inr e ↦ rw (show-hidden name info s e, e) (unfold contains in refl)
  ]

  round-new_lvs :
      (info : Dict) (s : Loop) (n : Bytes)
      → contains (round info s).new_lvs n
        ≡ (contains (shown_name (lookup_string info "name")) n || contains s.new_lvs n)
  unfolding round note_operations
  round-new_lvs info s n = show-new_lvs (lookup_string info "name") info _ n

  rounds-new_lvs :
      (infos : List Dict) (s : Loop) (n : Bytes)
      → contains (rounds o blocks infos s).new_lvs n
        ≡ (contains (shown infos) n || contains s.new_lvs n)
  rounds-new_lvs [] s n = unfold rounds shown contains in refl
  rounds-new_lvs (info ∷ infos) s n =
      rw (rounds-cons info infos s, rounds-new_lvs infos (round info s) n, round-new_lvs info s n)
        (unfold shown in
          rw (contains-append (shown_name (lookup_string info "name")) (shown infos) n)
            (ground arith))

-- Every name of `new_lvs` has a volume.
abbrev Covered : Loop → Type 0
Covered s = (n : Bytes) → contains s.new_lvs n ≡ true → is_some (lookup n s.volumes) ≡ true

module _ (o : Owner) (blocks : List Block) where
  show_volume-Covered :
      (name : Bytes) (info : Dict) (s : Loop) → Covered s → Covered (show_volume o name info s)
  unfolding show_volume contains
  show_volume-Covered name info s h n e =
      rw (lookup-insert name n _ s.volumes) (ground (arith, h n))

  show-Covered :
      (name : Option Bytes) (info : Dict) (s : Loop)
      → Covered s
      → Covered (show_if_visible o name info s)
  show-Covered none info s h = unfold show_if_visible in h
  show-Covered (some name) info s h = elim (Bool-cases (lv_is_visible (some name))) [
    | inl e ↦ rw (show-visible o blocks name info s e) (show_volume-Covered name info s h)
    | inr e ↦ rw (show-hidden o blocks name info s e) h
  ]

  rounds-Covered : (infos : List Dict) (s : Loop) → Covered s → Covered (rounds o blocks infos s)
  rounds-Covered [] s h = unfold rounds in h
  rounds-Covered (info ∷ infos) s h = rw (rounds-cons o blocks info infos s) (
      rounds-Covered infos (round o blocks info s)
        (unfold round note_operations in show-Covered (lookup_string info "name") info _ h))

kept_keys :
    (s : Loop) (n : Bytes)
    → Covered s
    → is_some (lookup n (keep (contains s.new_lvs) s.volumes)) ≡ contains s.new_lvs n
kept_keys s n h = rw (lookup-keep (contains s.new_lvs) n s.volumes) (ground (arith, h n))

or_false : (b : Bool) → (b || false) ≡ b
or_false b = ground arith

-- Behind an update, the table of the group has a logical volume under a name exactly when the report
-- lists a visible volume of that name, whatever the table was before.
pub update_volumes-shown :
    (blocks : List Block) (d : Dict) (jobs : List Job) (self : VolumeGroup) (n : Bytes)
    → is_some (lookup n (update_volumes blocks d jobs self).0.logical_volumes)
      ≡ contains (shown (infos_of (lookup_dicts d "lvs"))) n
unfolding update_volumes contains
update_volumes-shown blocks d jobs self n =
    let o : Owner = record { group = self.name; group_path = self.object_path } in
    let s : Loop = record {
      volumes = self.logical_volumes;
      new_lvs = [];
      polling = false;
      jobs = jobs;
      actions = [];
    } in
    let infos = infos_of (lookup_dicts d "lvs") in
    kept_keys (rounds o blocks infos s) n (rounds-Covered o blocks infos s (λ m e. cc))
    ∙ rounds-new_lvs o blocks infos s n
    ∙ or_false (contains (shown infos) n)
