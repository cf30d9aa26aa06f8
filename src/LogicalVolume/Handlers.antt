-- ===== src/LogicalVolume/Handlers.antt =====
-- src/logicalvolume.c: the methods of a logical volume, `handle_delete` to `handle_create_snapshot`.
pub mod Arguments
use udisks_lvm.Base.{ℕ, ◌-◌, ◌%◌, true, List, [], ◌∷◌, ◌++◌, Bytes, codes, ltb, if◌then◌else◌}
use udisks_lvm.Completion.{volume_named, block_of}
use udisks_lvm.Jobs.{Launch, spawned, Answer, on_completion, on_publication, Handled, launched}
use udisks_lvm.LogicalVolume.{LogicalVolume}
use udisks_lvm.Util.Name.{encode_lvm_name}
use udisks_lvm.VolumeGroup.{VolumeGroup}
use udisks_lvm.VolumeGroup.Handlers.{bytes_arg, stripe_args}

unfoldable pub resize_argv : Bytes → ℕ → ℕ → ℕ → List Bytes
resize_argv full_name new_size stripes stripesize =
    codes "lvresize"
    ∷ full_name
    ∷ (codes "-L" ++ bytes_arg (new_size - new_size % 512))
    ∷ stripe_args stripes stripesize

unfoldable pub snapshot_argv : Bytes → Bytes → ℕ → List Bytes
snapshot_argv full_name name size =
    codes "lvcreate"
    ∷ codes "-s"
    ∷ full_name
    ∷ codes "-n"
    ∷ encode_lvm_name name true
    ∷ (if ltb 0 size then (codes " -L" ++ bytes_arg (size - size % 512)) ∷ [] else [])

-- The group of the volume, with its address, and the volume.
module _ (group : VolumeGroup) (address : ℕ) (self : LogicalVolume) where
  unfoldable pub full_name : Bytes
  full_name = group.name ++ b'/' ∷ self.name

  unfoldable pub handle_delete : Handled
  unfolding full_name
  handle_delete =
      launched (spawned (codes "lvm-lvol-delete") (codes "lvremove" ∷ codes "-f" ∷ full_name ∷ []))
        (on_completion (codes "Error deleting logical volume: "))

  unfoldable pub handle_rename : Bytes → Handled
  unfolding full_name
  handle_rename new_name =
      let encoded_new_name = encode_lvm_name new_name true in
      launched
        (spawned (codes "lvm-vg-rename") (codes "lvrename" ∷ full_name ∷ encoded_new_name ∷ []))
        (on_publication (volume_named encoded_new_name address)
          (codes "Error renaming logical volume: "))

  unfoldable pub handle_resize : ℕ → ℕ → ℕ → Handled
  unfolding full_name resize_argv
  handle_resize new_size stripes stripesize =
      launched (spawned (codes "lvm-vg-resize") (resize_argv full_name new_size stripes stripesize))
        (on_completion (codes "Error resizing logical volume: "))

  unfoldable pub handle_activate : Handled
  unfolding full_name
  handle_activate =
      launched
        (spawned (codes "lvm-lvol-activate")
          (codes "lvchange" ∷ full_name ∷ codes "-a" ∷ codes "y" ∷ []))
        (on_publication (block_of self.object_path) (codes "Error activating logical volume: "))

  unfoldable pub handle_deactivate : Handled
  unfolding full_name
  handle_deactivate =
      launched
        (spawned (codes "lvm-lvol-deactivate")
          (codes "lvchange" ∷ full_name ∷ codes "-a" ∷ codes "n" ∷ []))
        (on_completion (codes "Error deactivating logical volume: "))

  unfoldable pub handle_create_snapshot : Bytes → ℕ → Handled
  unfolding full_name snapshot_argv
  handle_create_snapshot name size =
      launched (spawned (codes "lvm-lvol-snapshot") (snapshot_argv full_name name size)) (
        on_publication (volume_named (encode_lvm_name name true) address)
          (codes "Error creating snapshot: "))
