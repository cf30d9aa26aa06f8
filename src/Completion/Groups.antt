-- ===== src/Completion/Groups.antt =====
-- src/volumegroup.c: the callbacks of the methods of a volume group, which answer their calls.
use udisks_lvm.Base.{
  ℕ, Bool, true, false, ◌&&◌, Option, List, Bytes, codes, str_equal, ◌==◌, if◌then◌else◌,
}
use udisks_lvm.Bus.{Reply}
use udisks_lvm.Completion.{waiting, State, answered, give_up, on_job_complete}

-- A rename waits for the group of the new name.
unfoldable pub on_rename_volume_group : Bytes → Bytes → Option Bytes → List Reply → State
unfolding answered
on_rename_volume_group wait_name name path replies =
    if str_equal name wait_name then answered path replies else (waiting, replies)

unfoldable pub on_rename_complete : Bool → Bytes → State → State
unfolding give_up
on_rename_complete true message s = s
on_rename_complete false message s = give_up (codes "Error renaming volume group: ") message s

-- The creation of a volume waits for one of the name in the group at the address.
unfoldable pub on_create_logical_volume : Bytes → ℕ → Bytes → ℕ → Option Bytes → List Reply → State
unfolding answered
on_create_logical_volume wait_name wait_thing name group path replies =
    if str_equal name wait_name && group == wait_thing
    then answered path replies
    else (waiting, replies)

unfoldable pub on_create_complete : Bool → Bytes → State → State
unfolding give_up
on_create_complete true message s = s
on_create_complete false message s = give_up (codes "Error creating logical volume: ") message s

abbrev pub on_delete_complete : Bool → Bytes → Reply
on_delete_complete success message =
    on_job_complete (codes "Error deleting volume group: ") success message

abbrev pub on_adddev_complete : Bool → Bytes → Reply
on_adddev_complete success message =
    on_job_complete (codes "Error adding device to volume group: ") success message

abbrev pub on_remdev_complete : Bool → Bytes → Reply
on_remdev_complete success message =
    on_job_complete (codes "Error removing device from volume group: ") success message

abbrev pub on_empty_complete : Bool → Bytes → Reply
on_empty_complete success message =
    on_job_complete (codes "Error emptying device in volume group: ") success message
