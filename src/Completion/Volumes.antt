-- ===== src/Completion/Volumes.antt =====
-- src/logicalvolume.c: the callbacks of the methods of a logical volume, which answer their calls.
use udisks_lvm.Base.{
  ℕ, Bool, true, false, ◌&&◌, Option, List, Bytes, codes, str_equal, strcmp0_eq, ◌==◌,
  if◌then◌else◌,
}
use udisks_lvm.Bus.{Reply}
use udisks_lvm.Completion.{waiting, State, answered, give_up, on_job_complete}

unfoldable pub on_rename_logical_volume : Bytes → ℕ → Bytes → ℕ → Option Bytes → List Reply → State
unfolding answered
on_rename_logical_volume wait_name wait_thing name group path replies =
    if str_equal name wait_name && group == wait_thing
    then answered path replies
    else (waiting, replies)

unfoldable pub on_rename_complete : Bool → Bytes → State → State
unfolding give_up
on_rename_complete true message s = s
on_rename_complete false message s = give_up (codes "Error renaming logical volume: ") message s

-- `volume` is the path of the volume that is activated, `lv` that of the volume the block is of.
unfoldable pub on_activate_logical_volume_block :
    Option Bytes → Option Bytes → Option Bytes → List Reply → State
unfolding answered
on_activate_logical_volume_block volume lv path replies =
    if strcmp0_eq lv volume then answered path replies else (waiting, replies)

unfoldable pub on_activate_complete : Bool → Bytes → State → State
unfolding give_up
on_activate_complete true message s = s
on_activate_complete false message s = give_up (codes "Error activating logical volume: ") message s

unfoldable pub on_snapshot_logical_volume :
    Bytes → ℕ → Bytes → ℕ → Option Bytes → List Reply → State
unfolding answered
on_snapshot_logical_volume wait_name wait_thing name group path replies =
    if str_equal name wait_name && group == wait_thing
    then answered path replies
    else (waiting, replies)

unfoldable pub on_snapshot_complete : Bool → Bytes → State → State
unfolding give_up
on_snapshot_complete true message s = s
on_snapshot_complete false message s = give_up (codes "Error creating snapshot: ") message s

abbrev pub on_complete_delete : Bool → Bytes → Reply
on_complete_delete success message =
    on_job_complete (codes "Error deleting logical volume: ") success message

abbrev pub on_resize_complete : Bool → Bytes → Reply
on_resize_complete success message =
    on_job_complete (codes "Error resizing logical volume: ") success message

abbrev pub on_deactivate_complete : Bool → Bytes → Reply
on_deactivate_complete success message =
    on_job_complete (codes "Error deactivating logical volume: ") success message
