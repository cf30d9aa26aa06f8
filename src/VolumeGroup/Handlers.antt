-- ===== src/VolumeGroup/Handlers.antt =====
-- src/volumegroup.c: the methods of a volume group, `handle_delete` to `handle_create_thin_volume`.
pub mod Arguments
use udisks_lvm.Base.{
  ℕ, ◌-◌, ◌%◌, ◌^◌, ltb, Bool, true, false, ◌&&◌, Option, none, some, List, [], ◌∷◌, ◌++◌, Bytes,
  codes, map, decimal, strcmp0_eq, if◌then◌else◌,
}
use udisks_lvm.Base.Table.{Table}
use udisks_lvm.Block.{Block, is_unused}
use udisks_lvm.Bus.{Reply, error, failed}
use udisks_lvm.Completion.{Waited, group_named, volume_named}
use udisks_lvm.Daemon.{
  Object, Found, block_type, logical_volume_type, find_thing, get_blocks, as_block,
  as_logical_volume,
}
use udisks_lvm.Jobs.{
  Thread, delete_group, Launch, spawned, threaded, Answer, on_completion, on_publication, Handled,
  replied, launched, until_null,
}
use udisks_lvm.Jobs
use udisks_lvm.PhysicalVolume.{PhysicalVolume}
use udisks_lvm.Util.Host.{Host, History, Outcome, returned, raised, Prog, ◌>>◌}
use udisks_lvm.Util.Name.{encode_lvm_name}
use udisks_lvm.Util.Wipe.{wipe_block}
use udisks_lvm.Variant.{Dict, lookup_boolean}
use udisks_lvm.VolumeGroup.{VolumeGroup}

-- A `gboolean` that is false unless the options say otherwise.
unfoldable pub flag : Option Bool → Bool
flag none = false
flag (some b) = b

abbrev pub not_a_block : Handled
not_a_block = replied (error failed (codes "The given object is not a valid block"))

-- A `guint64` with "b" behind it, and a `gint` that is printed if it is positive.
abbrev pub bytes_arg : ℕ → Bytes
bytes_arg n = decimal n ++ codes "b"

abbrev pub is_positive_gint : ℕ → Bool
is_positive_gint n = ltb 0 n && ltb n (2 ^ 31)

abbrev pub stripe_args : ℕ → ℕ → List Bytes
stripe_args stripes stripesize =
    (if is_positive_gint stripes then codes "-i" ∷ decimal stripes ∷ [] else [])
    ++ (if ltb 0 stripesize then codes "-I" ∷ bytes_arg stripesize ∷ [] else [])

-- The device of a block that is a physical volume of the group at the path.
unfoldable pub belongs : Option Bytes → Option PhysicalVolume → Bool
belongs path none = false
belongs path (some physical_volume) = strcmp0_eq physical_volume.volume_group path

unfoldable pub devices_of : Option Bytes → List Block → List Bytes
unfolding belongs
devices_of path [] = []
devices_of path (b ∷ blocks) =
    let rest = devices_of path blocks in
    if belongs path b.iface_physical_volume then b.device ∷ rest else rest

unfoldable pub create_plain_argv : Bytes → Bytes → ℕ → ℕ → ℕ → List Bytes
create_plain_argv group name size stripes stripesize =
    codes "lvcreate"
    ∷ group
    ∷ (codes "-L" ++ bytes_arg (size - size % 512))
    ∷ codes "-n"
    ∷ encode_lvm_name name true
    ∷ stripe_args stripes stripesize

unfoldable pub create_thin_pool_argv : Bytes → Bytes → ℕ → List Bytes
create_thin_pool_argv group name size =
    codes "lvcreate"
    ∷ group
    ∷ codes "-T"
    ∷ codes "-L"
    ∷ bytes_arg (size % 512)
    ∷ codes "--thinpool"
    ∷ encode_lvm_name name true
    ∷ []

unfoldable pub create_thin_argv : Bytes → Bytes → Bytes → ℕ → List Bytes
create_thin_argv group pool name size =
    codes "lvcreate"
    ∷ group
    ∷ codes "--thinpool"
    ∷ pool
    ∷ codes "-V"
    ∷ bytes_arg (size % 512)
    ∷ codes "-n"
    ∷ encode_lvm_name name true
    ∷ []

-- The objects of the daemon, and the group with its address.
module _ (objects : Table Object) (address : ℕ) (self : VolumeGroup) where
  unfoldable pub handle_delete : Dict → Handled
  unfolding devices_of flag
  handle_delete options =
      let blocks = get_blocks (map (λ entry. entry.1) objects) in
      launched
        (threaded (codes "lvm-vg-delete") (
          delete_group
            (if flag (lookup_boolean options "wipe")
              then some (devices_of self.object_path blocks)
              else none)
            self.name))
        (on_completion (codes "Error deleting volume group: "))

  unfoldable pub handle_rename : Bytes → Handled
  handle_rename new_name =
      let encoded_new_name = encode_lvm_name new_name false in
      launched
        (spawned (codes "lvm-vg-rename") (codes "vgrename" ∷ self.name ∷ encoded_new_name ∷ []))
        (on_publication (group_named encoded_new_name) (codes "Error renaming volume group: "))

  add_device_checked : Block → Outcome (Unit {0}) → Outcome Handled
  add_device_checked new_member_device (raised message h) =
      returned (replied (error failed message)) h
  add_device_checked new_member_device (returned _ h) =
      returned
        (launched
          (spawned (codes "lvm-vg-add-device")
            (codes "vgextend" ∷ self.name ∷ new_member_device.device ∷ []))
          (on_completion (codes "Error adding device to volume group: ")))
        h

  add_device_found : Host → Option Block → Prog Handled
  unfolding add_device_checked
  add_device_found host none h = returned not_a_block h
  add_device_found host (some b) h =
      add_device_checked b ((do is_unused host b; wipe_block host b.device) h)

  unfoldable pub handle_add_device : Host → Bytes → Prog Handled
  unfolding add_device_found
  handle_add_device host path =
      add_device_found host (as_block (find_thing objects path block_type))

  -- The second assignment to `vgname` is the one that lasts; `pvname` stays NULL.
  remove_device_found : Dict → Option Block → Handled
  remove_device_found options none = not_a_block
  remove_device_found options (some member_device) =
      launched
        (threaded (codes "lvm-vg-rem-device") (
          Jobs.remove_device (some member_device.device) none
            (flag (lookup_boolean options "wipe"))))
        (on_completion (codes "Error removing device from volume group: "))

  unfoldable pub handle_remove_device : Bytes → Dict → Handled
  unfolding remove_device_found
  handle_remove_device path options =
      remove_device_found options (as_block (find_thing objects path block_type))

  empty_device_found : Dict → Option Block → Handled
  unfolding until_null
  empty_device_found options none = not_a_block
  empty_device_found options (some member_device) =
      let no_block = flag (lookup_boolean options "no-block") in
      launched
        (spawned (codes "lvm-vg-empty-device") (
          until_null (
            some (codes "pvmove")
            ∷ some (if no_block then codes "-b" else member_device.device)
            ∷ (if no_block then some member_device.device else none)
            ∷ [])))
        (on_completion (codes "Error emptying device in volume group: "))

  unfoldable pub handle_empty_device : Bytes → Dict → Handled
  unfolding empty_device_found
  handle_empty_device path options =
      empty_device_found options (as_block (find_thing objects path block_type))

  -- The creation of a logical volume waits for it to appear in this group.
  abbrev create_volume : Bytes → List Bytes → Handled
  create_volume arg_name argv = launched (spawned (codes "lvm-vg-create-volume") argv) (
      on_publication (volume_named (encode_lvm_name arg_name true) address)
        (codes "Error creating logical volume: "))

  unfoldable pub handle_create_plain_volume : Bytes → ℕ → ℕ → ℕ → Handled
  unfolding create_plain_argv
  handle_create_plain_volume name size stripes stripesize =
      create_volume name (create_plain_argv self.name name size stripes stripesize)

  unfoldable pub handle_create_thin_pool_volume : Bytes → ℕ → Handled
  unfolding create_thin_pool_argv
  handle_create_thin_pool_volume name size =
      create_volume name (create_thin_pool_argv self.name name size)

  create_thin_found : Bytes → ℕ → Option Bytes → Handled
  unfolding create_thin_argv
  create_thin_found name size none = replied (error failed (codes "Not a valid logical volume"))
  create_thin_found name size (some pool) =
      create_volume name (create_thin_argv self.name pool name size)

  unfoldable pub handle_create_thin_volume : Bytes → ℕ → Bytes → Handled
  unfolding create_thin_found
  handle_create_thin_volume name size arg_pool =
      create_thin_found name size
        (as_logical_volume (find_thing objects arg_pool logical_volume_type))
