-- ===== src/Completion/Creation.antt =====
-- src/manager.c: the callbacks of the method that creates a volume group, which answer its calls.
use udisks_lvm.Base.{Bool, true, false, Option, List, Bytes, codes, str_equal, if◌then◌else◌}
use udisks_lvm.Bus.{Reply}
use udisks_lvm.Completion.{waiting, State, answered, give_up}

unfoldable pub on_create_volume_group : Bytes → Bytes → Option Bytes → List Reply → State
unfolding answered
on_create_volume_group vgname name path replies =
    if str_equal name vgname then answered path replies else (waiting, replies)

unfoldable pub on_create_complete : Bool → Bytes → State → State
unfolding give_up
on_create_complete true message s = s
on_create_complete false message s = give_up (codes "Error creating volume group: ") message s
