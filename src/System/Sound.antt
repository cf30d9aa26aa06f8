-- ===== src/System/Sound.antt =====
-- src/manager.c, src/volumegroup.c and src/daemon.c together: what holds of every group of the daemon.
use udisks_lvm.Base.{
  ℕ, Option, none, some, List, [], ◌∷◌, Bytes, ◌≡◌, refl, ◌∙◌, inl, inr, Bool-cases,
}
use udisks_lvm.Base.Table.{Table, lookup}
use udisks_lvm.Base.Table.Entries.{Entries, Entries-lookup, Entries-insert, Entries-keep}
use udisks_lvm.Manager.{
  Manager, Groups, listed, failure, contains, with_group, add_groups, update_from_variant,
}
use udisks_lvm.System.{
  Helper, listing, show, System, Answer, on_listing, Callback, world_of, on_current, on_gone,
  find_gone, on_group, is_current, on_ended, Event, uevent, timeout, ended, polled, fire, pick,
  finish, handle, run,
}
use udisks_lvm.VolumeGroup.{VolumeGroup}
use udisks_lvm.VolumeGroup
use udisks_lvm.VolumeGroup.Refresh.{update_with_variant, poll_with_variant}
use udisks_lvm.VolumeGroup.Refresh.Invariant.{
  Inv, new-Inv, update_with_variant-Inv, poll_with_variant-Inv,
}
use udisks_lvm.VolumeGroup.Refresh.Fields.{updated-name, polled-Same}

-- A group of the table.
pub record Sound (name : Bytes) (g : VolumeGroup) : Type 0 where
  pub named : g.name ≡ name
  pub inv : Inv g

abbrev pub AllSound : Table VolumeGroup → Type 0
AllSound = Entries Sound

with_group-Sound :
    (found : Option VolumeGroup) (name : Bytes) (groups : Table VolumeGroup)
    → AllSound groups
    → AllSound (with_group found name groups)
unfolding with_group
with_group-Sound none name groups h =
    Entries-insert Sound groups name _ h
      (record { named = unfold VolumeGroup.new in refl; inv = new-Inv name })
with_group-Sound (some group) name groups h = h

add_groups-Sound :
    (names : List Bytes) (m : Manager)
    → AllSound m.name_to_volume_group
    → AllSound (add_groups names m).name_to_volume_group
unfolding add_groups
add_groups-Sound [] m h = h
add_groups-Sound (name ∷ names) m h =
    add_groups-Sound names _
      (with_group-Sound (lookup name m.name_to_volume_group) name m.name_to_volume_group h)

update_from_variant-Sound :
    (groups : Groups) (m : Manager)
    → AllSound m.name_to_volume_group
    → AllSound (update_from_variant groups m).name_to_volume_group
unfolding update_from_variant
update_from_variant-Sound (failure message) m h = h
update_from_variant-Sound (listed names) m h =
    add_groups-Sound names _ (Entries-keep Sound (contains names) m.name_to_volume_group h)

-- What a callback has to keep of the group that it is for.
abbrev Keeps : Callback → Type 0
Keeps callback =
    (name : Bytes) (g : VolumeGroup) (s : System)
    → Sound name g
    → Sound name (callback (world_of g s)).self

module _ (name : Bytes) (address : ℕ) (callback : Callback) (keeps : Keeps callback) where
  on_current-Sound :
      (found : Option VolumeGroup) (s : System)
      → lookup name s.groups ≡ found
      → AllSound s.groups
      → AllSound (on_current found name callback s).groups
  unfolding on_current
  on_current-Sound none s e h = h
  on_current-Sound (some g) s e h =
      Entries-insert Sound s.groups name _ h
        (keeps name g s (Entries-lookup Sound s.groups name h e))

  on_gone-Sound :
      (found : Option VolumeGroup) (s : System)
      → AllSound s.groups
      → AllSound (on_gone found address callback s).groups
  unfolding on_gone
  on_gone-Sound none s h = h
  on_gone-Sound (some g) s h = h

  on_group-Sound :
      (s : System) → AllSound s.groups → AllSound (on_group name address callback s).groups
  unfolding on_group
  on_group-Sound s h = elim (Bool-cases (is_current (lookup name s.addresses) address)) [
    | inl e ↦ rw e (on_current-Sound (lookup name s.groups) s refl h)
    | inr e ↦ rw e (on_gone-Sound (find_gone address s.gone) s h)
  ]

on_ended-Sound :
    (h : Helper) (answer : Answer) (s : System)
    → AllSound s.groups
    → AllSound (on_ended h answer s).groups
unfolding on_ended
on_ended-Sound listing answer s v = unfold on_listing in update_from_variant-Sound answer.groups _ v
on_ended-Sound (show name address) answer s v =
    on_group-Sound name address (update_with_variant (answer.report name))
      (λ n g s' v'.
        unfold world_of in
        record {
          named = updated-name (answer.report name) _ ∙ v'.named;
          inv = (update_with_variant-Inv (answer.report name) _ v'.inv).0;
        })
      s v

finish-Sound :
    (picked : Option (Helper × List Helper)) (answer : Answer) (s : System)
    → AllSound s.groups
    → AllSound (finish picked answer s).groups
unfolding finish
finish-Sound none answer s v = v
finish-Sound (some (h, rest)) answer s v = on_ended-Sound h answer _ v

fire-Sound : (timers : List ℕ) (s : System) → AllSound s.groups → AllSound (fire timers s).groups
unfolding fire
fire-Sound [] s v = v
fire-Sound (id ∷ timers) s v = v

handle-Sound : (e : Event) (s : System) → AllSound s.groups → AllSound (handle e s).groups
unfolding handle
handle-Sound (uevent id objects device real_block) s v = v
handle-Sound timeout s v = fire-Sound s.delay.timers s v
handle-Sound (ended k answer) s v = finish-Sound (pick k s.helpers) answer s v
handle-Sound (polled name address pid report) s v =
    on_group-Sound name address (poll_with_variant pid report)
      (λ n g s' v'.
        unfold world_of in
        record {
          named = (polled-Same pid report _).0 ∙ v'.named;
          inv = poll_with_variant-Inv pid report _ v'.inv;
        })
      s v

-- Whatever uevents, timeouts, listings, reports and polls come in, in whatever order, and with failures
-- among them: each group in the table of the daemon stays sound. It has the name it stands under; while
-- it is to be published it has no volumes; afterwards its path is the one that its name gives; and each
-- of its volumes has the name it stands under, is no longer to be published, has the path that its name
-- gives below that of the group, and refers to the group.
pub run-Sound : (es : List Event) (s : System) → AllSound s.groups → AllSound (run es s).groups
unfolding run
run-Sound [] s v = v
run-Sound (e ∷ es) s v = run-Sound es _ (handle-Sound e s v)
