-- ===== src/Manager/Create.antt =====
-- src/manager.c: `handle_volume_group_create`.
pub mod Checked
use udisks_lvm.Base.{
  ℕ, ◌+◌, ltb, true, false, Option, none, some, List, [], ◌∷◌, ◌++◌, Bytes, codes, map, decimal,
  if◌then◌else◌,
}
use udisks_lvm.Base.Table.{Table}
use udisks_lvm.Block.{Block, is_unused}
use udisks_lvm.Bus.{error, failed}
use udisks_lvm.Completion.{group_named}
use udisks_lvm.Daemon.{Object, block, skeleton, Found, object, interface, invalid, find_thing}
use udisks_lvm.Jobs.{create_group, threaded, on_publication, Handled, replied, launched}
use udisks_lvm.Util.Host.{Host, History, Outcome, returned, raised, Prog, pure, raise, ◌>>=◌}
use udisks_lvm.Util.Name.{encode_lvm_name}
use udisks_lvm.VolumeGroup.Handlers.{bytes_arg}

abbrev pub extent_size_arg : ℕ → Option Bytes
extent_size_arg arg_extent_size =
    if ltb 0 arg_extent_size then some (bytes_arg arg_extent_size) else none

module _ (host : Host) where
  -- A round of the loop, for the object that the path leads to.
  unfoldable pub check_block : ℕ → Bytes → Option Found → Prog Block
  check_block n path none =
      raise (codes "Invalid object path " ++ (path ++ (codes " at index " ++ decimal n)))
  check_block n path (some (object (block b))) = is_unused host b >>= λ _. pure b
  check_block n path (some _) = raise (
      codes "Object path "
      ++ (path ++ (codes " for index " ++ (decimal n ++ codes " is not a block device"))))

  -- The loop, which checks the blocks and does not change them. The source prepends to its list, and
  -- reverses it at the end.
  unfoldable pub collect : Table Object → ℕ → List Bytes → Prog (List Block)
  unfolding check_block
  collect objects n [] = pure []
  collect objects n (path ∷ paths) = check_block n path (find_thing objects path invalid) >>= λ b.
      collect objects (n + 1) paths >>= λ bs. pure (b ∷ bs)

  unfoldable pub create_collected : Bytes → ℕ → Outcome (List Block) → Outcome Handled
  create_collected arg_name arg_extent_size (raised message h) =
      returned (replied (error failed message)) h
  create_collected arg_name arg_extent_size (returned blocks h) =
      let vgname = encode_lvm_name arg_name false in
      returned
        (launched
          (threaded (codes "lvm-vg-create")
            (create_group (map (λ b. b.device) blocks) vgname (extent_size_arg arg_extent_size)))
          (on_publication (group_named vgname) (codes "Error creating volume group: ")))
        h

  unfoldable pub handle_volume_group_create : Table Object → List Bytes → Bytes → ℕ → Prog Handled
  unfolding create_collected
  handle_volume_group_create objects arg_blocks arg_name arg_extent_size h =
      create_collected arg_name arg_extent_size (collect objects 0 arg_blocks h)
