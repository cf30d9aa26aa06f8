-- ===== src/VolumeGroup/Handlers/Arguments.antt =====
-- src/volumegroup.c: the commands that the methods of a volume group run.
use udisks_lvm.Base.{
  ℕ, ◌+◌, ◌*◌, ◌%◌, Bool, true, false, none, some, [], ◌∷◌, ◌++◌, Bytes, codes, ◌≡◌, refl, arith,
  if◌then◌else◌,
}
use udisks_lvm.Base.Table.{Table}
use udisks_lvm.Block.{Block}
use udisks_lvm.Daemon.{Object, block_type, find_thing, as_block}
use udisks_lvm.Jobs.{
  Thread, remove_device, threaded, Answer, on_completion, launched, vgreduce_argv, wipefs_argv,
}
use udisks_lvm.Jobs.Calls.{thread_calls}
use udisks_lvm.Util.Host.{spawn_sync}
use udisks_lvm.Variant.{Dict, lookup_boolean}
use udisks_lvm.VolumeGroup.{VolumeGroup}
use udisks_lvm.VolumeGroup.Handlers.{
  flag, create_thin_pool_argv, create_thin_argv, handle_remove_device,
}

-- Sizes that are a multiple of 512 apart give the same command, for a thin pool and for a thin volume:
-- only the remainder of the size is asked for.
pub thin_size_lost :
    (group pool name : Bytes) (size k : ℕ)
    → (create_thin_pool_argv group name (size + k * 512) ≡ create_thin_pool_argv group name size)
      × (create_thin_argv group pool name (size + k * 512) ≡ create_thin_argv group pool name size)
thin_size_lost group pool name size k =
    let e : (size + k * 512) % 512 ≡ size % 512 = omega arith in
    (unfold create_thin_pool_argv in rw e refl, unfold create_thin_argv in rw e refl)

nameless_calls :
    (device : Bytes) (wipe : Bool)
    → thread_calls (remove_device (some device) none wipe)
      ≡ (if wipe then spawn_sync (codes "wipefs" ∷ codes "-a" ∷ []) ∷ [] else [])
        ++ spawn_sync (codes "vgreduce" ∷ device ∷ []) ∷ []
unfolding thread_calls vgreduce_argv wipefs_argv
nameless_calls device true = refl
nameless_calls device false = refl

-- To take a device out of a group, `vgreduce` is run with the device alone, without the name of the
-- group; and `wipefs -a`, if it is asked for, without a device.
pub handle_remove_device_calls :
    (objects : Table Object) (address : ℕ) (self : VolumeGroup) (path : Bytes) (options : Dict)
    (member_device : Block)
    → as_block (find_thing objects path block_type) ≡ some member_device
    → (operation : Bytes) × (thread : Thread) × (answer : Answer) × (handle_remove_device objects
          address self path options
        ≡ launched (threaded operation thread) answer)
      × (thread_calls thread
          ≡ (if flag (lookup_boolean options "wipe")
              then spawn_sync (codes "wipefs" ∷ codes "-a" ∷ []) ∷ []
              else [])
            ++ spawn_sync (codes "vgreduce" ∷ member_device.device ∷ []) ∷ [])
handle_remove_device_calls objects address self path options member_device h =
    let wipe = flag (lookup_boolean options "wipe") in
    (
      codes "lvm-vg-rem-device",
      remove_device (some member_device.device) none wipe,
      on_completion (codes "Error removing device from volume group: "),
      unfold handle_remove_device in rw h refl,
      nameless_calls member_device.device wipe,
    )
