-- ===== src/System.antt =====
-- src/manager.c, src/volumegroup.c and src/daemon.c together: how the daemon follows the system. A
-- uevent schedules a listing, the timeout starts the helper that lists the groups, what it lists starts
-- a helper for each group, and what those report is taken into the group. Several helpers may run, and
-- end in any order.
pub mod Addresses
pub mod Helpers
pub mod Follows
pub mod Reports
pub mod Converges
pub mod Settles
pub mod Sound
pub mod Start
use udisks_lvm.Base.{
  ℕ, zero, suc, ◌+◌, Bool, true, false, Option, none, some, List, [], ◌∷◌, ◌++◌, Bytes, length,
  ◌==◌, if◌then◌else◌,
}
use udisks_lvm.Base.Table.{Table, lookup, insert}
use udisks_lvm.Block.{Block, UdevDevice}
use udisks_lvm.Bus.{Action}
use udisks_lvm.Daemon.{Object}
use udisks_lvm.Manager.{Manager, Groups, listed, failure, contains, update_from_variant}
use udisks_lvm.Manager.Updates.{Delay, delayed_lvm_update, handle_block_uevent_for_lvm}
use udisks_lvm.VolumeGroup.{VolumeGroup}
use udisks_lvm.VolumeGroup.Refresh.{World, Report, update_with_variant, poll_with_variant}
use udisks_lvm.VolumeGroup.Update.{dispose_group}
use udisks_lvm.VolumeGroup.Update.Progress.{Job}

-- A helper that runs: it lists the groups, or reports on the group of a name. The reference that
-- `ul_volume_group_update` takes to the group is its address: the group may be gone when the helper
-- ends, and another have taken its name.
pub data Helper : Type 0 where
  listing : Helper
  show : Bytes → ℕ → Helper

pub record System : Type 0 where
  pub delay : Delay
  -- `name_to_volume_group`, and the addresses of its groups
  pub groups : Table VolumeGroup
  pub addresses : Table ℕ
  -- groups that have been disposed, with their addresses
  pub gone : List (ℕ × VolumeGroup)
  -- the next address
  pub fresh : ℕ
  pub helpers : List Helper
  pub blocks : List Block
  pub jobs : List Job
  pub actions : List Action

-- What lvm2app has at the time when a helper asks it: the groups, and a report on each.
pub record Answer : Type 0 where
  pub groups : Groups
  pub report : Bytes → Report

-- The address of a group that was there, or a new one.
unfoldable pub address_or : Option ℕ → ℕ → ℕ
address_or none new = new
address_or (some address) new = address

unfoldable pub assign : Table VolumeGroup → Table ℕ → ℕ → Table ℕ
unfolding address_or
assign [] addresses new = []
assign ((name, group) ∷ m) addresses new =
    (name, address_or (lookup name addresses) new) ∷ assign m addresses (new + 1)

-- The groups that are not listed any more, disposed.
unfoldable pub retired : Table VolumeGroup → Table ℕ → Table VolumeGroup → List (ℕ × VolumeGroup)
unfolding address_or
retired groups addresses [] = []
retired groups addresses ((name, group) ∷ m) =
    let rest = retired groups addresses m in
    elim (lookup name groups) [
      | none ↦ (address_or (lookup name addresses) 0, (dispose_group group).0) ∷ rest
      | some kept ↦ rest
    ]

-- `ul_volume_group_update` for each of the names
unfoldable pub shows : Table ℕ → List Bytes → List Helper
unfolding address_or
shows addresses [] = []
shows addresses (name ∷ names) =
    show name (address_or (lookup name addresses) 0) ∷ shows addresses names

-- `lvm_update_from_variant`, when the helper that lists ends.
unfoldable pub on_listing : Groups → System → System
unfolding assign retired shows
on_listing groups s =
    let m =
      update_from_variant groups
        (record { name_to_volume_group = s.groups; actions = s.actions; updates = [] }) in
    let addresses = assign m.name_to_volume_group s.addresses s.fresh in
    record s {
      groups = m.name_to_volume_group;
      addresses = addresses;
      gone = s.gone ++ retired m.name_to_volume_group s.addresses s.groups;
      fresh = s.fresh + length m.name_to_volume_group;
      helpers = s.helpers ++ shows addresses m.updates;
      actions = m.actions;
    }

-- What a callback of a group does, to the group and to the others.
abbrev pub Callback : Type 0
Callback = World → World

unfoldable pub world_of : VolumeGroup → System → World
world_of group s = record { self = group; blocks = s.blocks; jobs = s.jobs; actions = s.actions }

unfoldable pub on_current : Option VolumeGroup → Bytes → Callback → System → System
unfolding world_of
on_current none name callback s = s
on_current (some group) name callback s =
    let w = callback (world_of group s) in
    record s {
      groups = insert name w.self s.groups;
      blocks = w.blocks;
      jobs = w.jobs;
      actions = w.actions;
    }

unfoldable pub find_gone : ℕ → List (ℕ × VolumeGroup) → Option VolumeGroup
find_gone address [] = none
find_gone address ((a, group) ∷ gone) = if a == address then some group else find_gone address gone

unfoldable pub on_gone : Option VolumeGroup → ℕ → Callback → System → System
unfolding world_of
on_gone none address callback s = s
on_gone (some group) address callback s =
    let w = callback (world_of group s) in
    record s {
      gone = (address, w.self) ∷ s.gone;
      blocks = w.blocks;
      jobs = w.jobs;
      actions = w.actions;
    }

-- Whether the group of a name is still the one at the address.
unfoldable pub is_current : Option ℕ → ℕ → Bool
is_current none address = false
is_current (some a) address = a == address

unfoldable pub on_group : Bytes → ℕ → Callback → System → System
unfolding on_current on_gone find_gone is_current
on_group name address callback s =
    if is_current (lookup name s.addresses) address
    then on_current (lookup name s.groups) name callback s
    else on_gone (find_gone address s.gone) address callback s

-- A helper ends, and its callback gets the answer.
unfoldable pub on_ended : Helper → Answer → System → System
unfolding on_listing on_group
on_ended listing answer s = on_listing answer.groups s
on_ended (show name address) answer s =
    on_group name address (update_with_variant (answer.report name)) s

pub data Event : Type 0 where
  -- the identifier that a timeout gets, the objects on the bus, the device, and the path that udisksd
  -- has for it
  uevent : ℕ → Table Object → UdevDevice → Option Bytes → Event
  timeout : Event
  -- the helper at this place ends
  ended : ℕ → Answer → Event
  -- a helper ends that polled the group of this name and address: its process, and its report
  polled : Bytes → ℕ → ℕ → Report → Event

-- `delayed_lvm_update`: the timeout is done, and a helper runs.
unfoldable pub fire : List ℕ → System → System
fire [] s = s
fire (id ∷ timers) s = record s {
  delay = delayed_lvm_update (record (s.delay) { timers = timers });
  helpers = s.helpers ++ listing ∷ [];
}

-- The helper at a place, and the others.
unfoldable pub pick : ℕ → List Helper → Option (Helper × List Helper)
pick k [] = none
pick zero (h ∷ hs) = some (h, hs)
pick (suc k) (h ∷ hs) = elim (pick k hs) [ none ↦ none | some (x, rest) ↦ some (x, h ∷ rest) ]

unfoldable pub finish : Option (Helper × List Helper) → Answer → System → System
unfolding on_ended
finish none answer s = s
finish (some (h, rest)) answer s = on_ended h answer (record s { helpers = rest })

unfoldable pub handle : Event → System → System
unfolding fire pick finish on_group
handle (uevent id objects device real_block) s = record s {
  delay = handle_block_uevent_for_lvm id objects device real_block s.delay;
}
handle timeout s = fire s.delay.timers s
handle (ended k answer) s = finish (pick k s.helpers) answer s
handle (polled name address pid report) s = on_group name address (poll_with_variant pid report) s

unfoldable pub run : List Event → System → System
run [] s = s
run (e ∷ es) s = run es (handle e s)
