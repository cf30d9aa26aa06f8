-- ===== src/Cycle.antt =====
-- src/helper.c, src/daemon.c and src/volumegroup.c together: from lvm2app, by way of the pipe between
-- the helper and the daemon, to the table of logical volumes that the daemon shows.
use udisks_lvm.Base.{
  ℕ, none, some, List, [], ◌∷◌, ◌++◌, append_assoc, Bytes, length, map, ◌≡◌, refl, sym, ap, subst,
  ◌∙◌, if◌then◌else◌,
}
use udisks_lvm.Base.Table.{lookup}
use udisks_lvm.Daemon.Reader.{
  called_result, Event, output_ready, child_exited, spawn_pid, spawn_for_variant, run,
}
use udisks_lvm.Daemon.Reader.Collected.{callbacks_of, run-expected}
use udisks_lvm.Helper.{
  Lv, Vg, Lvm, Found, group_info, items, show_logical_volume, Wrote, all_written, write_all, main,
}
use udisks_lvm.Helper.Output.{joined, Progresses, Complete, write_all-Complete}
use udisks_lvm.Helper.Shown.{reported_volumes, show_args, finds_name}
use udisks_lvm.Variant.{Dict, empty, lookup_dicts}
use udisks_lvm.VolumeGroup.Refresh.{World, info, update_with_variant, publish, refresh}
use udisks_lvm.VolumeGroup.Update.{contains, infos_of, update_props}
use udisks_lvm.VolumeGroup.Update.Tracking.{is_some, shown, update_volumes-shown}
use udisks_lvm.VolumeGroup.Visible.{lv_is_visible}

-- The names of the volumes of lvm2app that are visible.
abbrev pub visible_names : List Lv → List Bytes
visible_names [] = []
visible_names (lv ∷ lvs) =
    (if lv_is_visible (some lv.lv_name) then lv.lv_name ∷ [] else []) ++ visible_names lvs

abbrev pub concat : List Bytes → Bytes
concat [] = []
concat (chunk ∷ chunks) = chunk ++ concat chunks

-- The daemon reads chunks, and what is left when the helper exits with success.
abbrev pub reading : List Bytes → Bytes → List Event
reading chunks last = map output_ready chunks ++ child_exited none (some last) ∷ []

-- The dictionary that the helper prints.
abbrev pub dict_of : Found → Dict
dict_of (group_info d) = d
dict_of _ = empty

shown-visible : (lvs : List Lv) → shown (map show_logical_volume lvs) ≡ visible_names lvs
unfolding shown
shown-visible [] = refl
shown-visible (lv ∷ lvs) = rw (finds_name lv, shown-visible lvs) refl

read_back :
    (pid : ℕ) (before : Bytes) (chunks : List Bytes) (last : Bytes)
    → callbacks_of pid before (reading chunks last)
      ≡ called_result pid (before ++ (concat chunks ++ last)) ∷ []
read_back pid before [] last = refl
read_back pid before (chunk ∷ chunks) last =
    read_back pid (before ++ chunk) chunks last
    ∙ ap (λ bytes. called_result pid bytes ∷ [])
        (append_assoc before chunk (concat chunks ++ last)
          ∙ ap (◌++◌ before) (sym (append_assoc chunk (concat chunks) last)))

pub updated :
    (d : Dict) (w : World) (n : Bytes)
    → is_some (lookup n (update_with_variant (info d) w).self.logical_volumes)
      ≡ contains (shown (infos_of (lookup_dicts d "lvs"))) n
unfolding update_with_variant refresh
updated d w n =
    let w' = publish (record w { self = update_props w.self d }) in
    update_volumes-shown w'.blocks d w'.jobs w'.self n

-- How GLib serializes the result and how it reads the bytes, and the write of the helper.
module _ (serialize : Found → Bytes) (parse : Bytes → Dict)
    (write : List Bytes → Bytes → Wrote) where
  -- If GLib reads back the dictionary of the helper that it has serialized, write takes at least one byte whenever it
  -- does not fail, the helper has opened the group and written its output, and the daemon has read from
  -- the pipe what was written, in whatever chunks, then the reader hands on one result, and behind the
  -- update with it the group has a logical volume under a name exactly when lvm2app lists a visible
  -- volume of that name.
  pub cycle-visible :
      (lvm : Lvm) (name : Bytes) (vg : Vg) (w : World) (pid : ℕ) (pieces chunks : List Bytes)
      (last n : Bytes)
      → (let found = (main lvm (show_args name)).1 in parse (serialize found) ≡ dict_of found)
      → Progresses write
      → lvm.vg_open name ≡ some vg
      → (let mem = serialize (main lvm (show_args name)).1 in
          write_all write (length mem) mem [] ≡ all_written pieces)
      → concat chunks ++ last ≡ joined pieces
      → (bytes : Bytes) × ((run
            (reading chunks last)
            (spawn_for_variant (spawn_pid pid)).0).callbacks
          ≡ called_result pid bytes ∷ [])
        × (is_some (lookup n (update_with_variant (info (parse bytes)) w).self.logical_volumes)
            ≡ contains (visible_names (items vg.list_lvs)) n)
  cycle-visible lvm name vg w pid pieces chunks last n back progress opened written delivered =
      let (d, e, volumes) = reported_volumes lvm name vg opened in
      let mem = serialize (main lvm (show_args name)).1 in
      let all : joined pieces ≡ mem =
        subst (Complete write mem) written (write_all-Complete write mem progress) in
      let bytes = concat chunks ++ last in
      let parsed : parse bytes ≡ d = ap parse (delivered ∙ all) ∙ back ∙ ap (λ r. dict_of r.1) e in
      (
        bytes,
        run-expected (spawn_pid pid) (reading chunks last) ∙ read_back pid [] chunks last,
        rw parsed (
            updated d w n
            ∙ ap (λ infos. contains (shown infos) n) volumes
            ∙ ap (λ names. contains names n) (shown-visible (items vg.list_lvs))),
      )
