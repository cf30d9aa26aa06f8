-- ===== src/Completion.antt =====
-- src/manager.c, src/volumegroup.c, src/logicalvolume.c: how a method call is answered that started a
-- job: `on_..._complete`, on its own or, where the caller wants the path of a new object, together
-- with a handler of the daemon's "published" signal that shares a `CompleteClosure` with it.
pub mod Replies
pub mod Groups
pub mod Volumes
pub mod Creation
pub mod Calls
use udisks_lvm.Base.{
  ℕ, Bool, true, false, ◌&&◌, Option, List, [], ◌∷◌, ◌++◌, Bytes, codes, str_equal, strcmp0_eq,
  ◌==◌, if◌then◌else◌,
}
use udisks_lvm.Bus.{Reply, completed, completed_path, error, failed}

-- What "published" is emitted with. A group is known by its address.
pub data Published : Type 0 where
  -- name, object path
  volume_group : Bytes → Option Bytes → Published
  -- name, address of the group, object path
  logical_volume : Bytes → ℕ → Option Bytes → Published
  -- the logical volume that the interface is for, object path
  logical_volume_block : Option Bytes → Option Bytes → Published

-- What a `CompleteClosure` waits for: `wait_name` and `wait_thing`, and the detail of the signal.
pub data Waited : Type 0 where
  group_named : Bytes → Waited
  volume_named : Bytes → ℕ → Waited
  block_of : Option Bytes → Waited

unfoldable pub matches : Waited → Published → Bool
matches (group_named wait_name) (volume_group name path) = str_equal name wait_name
matches (volume_named wait_name wait_thing) (logical_volume name group path) =
    str_equal name wait_name && group == wait_thing
matches (block_of volume) (logical_volume_block lv path) = strcmp0_eq lv volume
matches _ _ = false

unfoldable pub path_of : Published → Option Bytes
path_of (volume_group name path) = path
path_of (logical_volume name group path) = path
path_of (logical_volume_block lv path) = path

-- `complete_closure_free` runs when the handler is disconnected. The handler of "completed" stays
-- connected; `misused` is that it reads the freed closure.
pub data Closure : Type 0 where
  waiting freed misused : Closure

pub data Event : Type 0 where
  published : Published → Event
  job_completed : Bool → Bytes → Event

-- The closure, and the replies so far, the latest first.
abbrev pub State : Type 0
State = Closure × List Reply

unfoldable pub job_error : Bytes → Bytes → Reply
job_error prefix message = error failed (prefix ++ message)

-- The call is answered with the path, and the handler is disconnected.
unfoldable pub answered : Option Bytes → List Reply → State
answered path replies = (freed, completed_path path ∷ replies)

-- The call is answered with the error, and the handler is disconnected; `prefix` is the text before the
-- message of the job.
unfoldable pub give_up : Bytes → Bytes → State → State
unfolding job_error
give_up prefix message (waiting, replies) = (freed, job_error prefix message ∷ replies)
give_up prefix message (freed, replies) = (misused, replies)
give_up prefix message (misused, replies) = (misused, replies)

-- What all the callbacks do; `prefix` is the text before the message of the job.
module _ (wait : Waited) (prefix : Bytes) where
  -- `on_create_logical_volume`, `on_rename_volume_group` and so on
  unfoldable pub on_published : Published → State → State
  unfolding matches path_of
  on_published thing (waiting, replies) =
      if matches wait thing
      then (freed, completed_path (path_of thing) ∷ replies)
      else (waiting, replies)
  on_published thing (freed, replies) = (freed, replies)
  on_published thing (misused, replies) = (misused, replies)

  -- `on_create_complete`, `on_rename_complete` and so on
  unfoldable pub on_complete : Bool → Bytes → State → State
  unfolding job_error
  on_complete true message s = s
  on_complete false message (waiting, replies) = (freed, job_error prefix message ∷ replies)
  on_complete false message (freed, replies) = (misused, replies)
  on_complete false message (misused, replies) = (misused, replies)

  unfoldable pub handle : Event → State → State
  unfolding on_published on_complete
  handle (published thing) s = on_published thing s
  handle (job_completed success message) s = on_complete success message s

  unfoldable pub run : List Event → State → State
  run [] s = s
  run (e ∷ es) s = run es (handle e s)

-- `on_delete_complete` and so on, which answer when the job is done.
unfoldable pub on_job_complete : Bytes → Bool → Bytes → Reply
unfolding job_error
on_job_complete prefix true message = completed
on_job_complete prefix false message = job_error prefix message
