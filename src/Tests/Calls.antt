-- ===== src/Tests/Calls.antt =====
-- Jobs, their system calls and their arguments.
use udisks_lvm.Base.{some, List, [], ◌∷◌, ◌++◌, Bytes, codes, str_equal, map, ◌≡◌, ◌⊎◌, refl, All}
use udisks_lvm.Base.Table.{lookup}
use udisks_lvm.Block.{Block}
use udisks_lvm.Bus.{error, failed}
use udisks_lvm.Daemon.{find_thing, as_block, block_type}
use udisks_lvm.Jobs.{delete_group, run_thread, replied}
use udisks_lvm.Jobs.Calls.{run_thread-Calls, thread_calls}
use udisks_lvm.Manager.Create.{handle_volume_group_create}
use udisks_lvm.Manager.Create.Checked.{
  handle_volume_group_create_checked, creation, opens_of, blocks_at, Harmless, Refused,
}
use udisks_lvm.Tests.{host, disk, objects}
use udisks_lvm.Util.Host.{History, returned}
use udisks_lvm.Util.Host.Calls.{Calls, Succeeded}

abbrev two_disks : List Bytes
two_disks = codes "/dev/sda" ∷ codes "/dev/sdb" ∷ []

abbrev disk_path : Bytes
disk_path = codes "/org/freedesktop/UDisks2/block_devices/sda"

run_thread-Calls_example :
    Calls host
      (thread_calls (delete_group (some two_disks) (codes "vg")))
      []
      (run_thread host (delete_group (some two_disks) (codes "vg")) [])
run_thread-Calls_example = run_thread-Calls host (delete_group (some two_disks) (codes "vg")) []

handle_volume_group_create_checked_example :
    ((blocks : List Block) × (blocks_at objects (disk_path ∷ []) ≡ map some blocks)
      × Succeeded host [] (opens_of blocks)
      × (handle_volume_group_create host objects (disk_path ∷ []) (codes "vg") 0 []
          ≡ returned (creation host objects (codes "vg") 0 blocks) (opens_of blocks ++ [])))
    ⊎ ((message : Bytes) × (made : History) × All Harmless made
        × Refused host objects (disk_path ∷ []) [] (made ++ [])
        × (handle_volume_group_create host objects (disk_path ∷ []) (codes "vg") 0 []
            ≡ returned (replied (error failed message)) (made ++ [])))
handle_volume_group_create_checked_example =
    handle_volume_group_create_checked host objects (disk_path ∷ []) (codes "vg") 0 []

disk_found : as_block (find_thing objects disk_path block_type) ≡ some disk
unfolding find_thing as_block lookup str_equal
disk_found = refl
