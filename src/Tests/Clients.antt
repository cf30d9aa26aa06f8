-- ===== src/Tests/Clients.antt =====
-- Clients, their authorization, and what they see on the bus.
use udisks_lvm.Base.{true, false, none, some, List, [], ◌∷◌, codes, str_equal, ◌≡◌, refl}
use udisks_lvm.Daemon.Publish.{Skeleton, Exports, get_interface, only_this, publish, unpublish}
use udisks_lvm.Daemon.Publish.Restore.{Addable, unpublish-publish}
use udisks_lvm.Base.Table.{Table, lookup}
use udisks_lvm.Invocation.{UidState, uid_valid, uid_failed, Call, method, Authority, result}
use udisks_lvm.Variant.{entry, boolean, empty}
use udisks_lvm.Invocation.Clients.{
  State, Event, message, method_call, credentials, vanished, main_runs, run,
}
use udisks_lvm.Invocation.Count.{count_after, Counted, run-Counted}

abbrev clients : Table UidState
clients = (codes ":1.7", uid_valid 1000) ∷ (codes ":1.8", uid_failed) ∷ []

-- polkit refuses, and the caller could authenticate
abbrev refusing : Authority
refusing = some (λ sender action message interaction. result false false true)

-- without user interaction
abbrev quiet_call : Call
quiet_call = record {
  called = method none none;
  in_args =
      record {
        name = codes "options";
        signature = codes "a{sv}";
        value = entry "auth.no_user_interaction" (boolean true) empty;
      }
      ∷ [];
}

abbrev idle : State
idle = record {
  clients = [];
  invoked = [];
  daemon = record {
    persist = false;
    name_owner_id = 1;
    name_owned = true;
    num_clients = 0;
    num_jobs = 0;
    finished = 0;
  };
}

abbrev session : List Event
session =
    message (method_call (some (codes ":1.7")))
    ∷ credentials (codes ":1.7") (some 1000)
    ∷ message (method_call (some (codes ":1.7")))
    ∷ main_runs
    ∷ vanished (codes ":1.7")
    ∷ message (method_call (some (codes ":1.8")))
    ∷ vanished (codes ":1.7")
    ∷ main_runs
    ∷ []

run-Counted_example : (s' : State) × (run session (some idle) ≡ some s') × Counted s'
unfolding count_after
run-Counted_example = run-Counted session idle refl

-- the interface of the block on the bus, and one that is added to it
abbrev there : Skeleton
there = record { info_name = codes "com.redhat.lvm2.PhysicalVolumeBlock"; address = 1 }

abbrev added : Skeleton
added = record { info_name = codes "com.redhat.lvm2.LogicalVolumeBlock"; address = 2 }

abbrev exports : Exports
exports = (codes "/sda", there ∷ []) ∷ []

addable : Addable added (lookup (codes "/sda") exports)
unfolding Addable lookup str_equal get_interface only_this
addable = (refl, refl)

unpublish-publish_example :
    lookup (codes "/sda") (unpublish (codes "/sda") added (publish (codes "/sda") added exports))
    ≡ lookup (codes "/sda") exports
unpublish-publish_example = unpublish-publish added (codes "/sda") exports (codes "/sda") addable
