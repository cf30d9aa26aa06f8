-- ===== src/Tests.antt =====
-- The theorems at concrete inputs, with the data that they share.
mod Names
mod Groups
mod Calls
mod Events
mod Clients
mod Jobs
mod Commands
mod Helper
mod Objects
mod Programs
mod Following
mod Accessors
use udisks_lvm.Base.{
  ◌↔◌, Option, Bytes, ◌≡◌, if◌then◌else◌, ◌&&◌, arith, true, ℕ, ◌+◌, ◌/◌, ◌%◌, Bool, true, false,
  Option, none, some, List, [], ◌∷◌, Bytes, codes, ◌==◌,
}
use udisks_lvm.Block.{Block}
use udisks_lvm.Daemon.{Object, block, skeleton, logical_volume}
use udisks_lvm.Base.Table.{Table}
use udisks_lvm.Util.Host.{Host, IoctlResult, einval, SpawnResult, finished, not_started}
use udisks_lvm.Util.Status.{WaitMacros}
use udisks_lvm.Variant.{Dict, Dicts, Value, empty, entry, string, uint64, dicts, end, dict}
use udisks_lvm.VolumeGroup.{VolumeGroup}
use udisks_lvm.VolumeGroup
use udisks_lvm.VolumeGroup.Refresh.{World}

-- A wait status holds the exit status in its second byte, on Linux.
abbrev pub wait_macros : WaitMacros
wait_macros = record {
  exited = λ status. status % 128 == 0;
  exit_status = λ status. status / 256 % 256;
  signaled = λ status. false;
  term_sig = λ status. status % 128;
  number = λ name. 0;
}

abbrev pub exit_error : ℕ → Option Bytes
exit_error status =
    if wait_macros.exited status && wait_macros.exit_status status == 0
    then none
    else some (codes "exited with an error")

pub exit_error_iff :
    (status : ℕ)
    → (exit_error status ≡ none)
      ↔ ((wait_macros.exited status ≡ true) × (wait_macros.exit_status status ≡ 0))
exit_error_iff status = (λ h. ground arith, λ h. ground arith)

-- A system on which everything works, with disks that are not partitioned.
abbrev pub host : Host
host = record {
  opens = λ h device. true;
  opens_readonly = λ h device. true;
  writes = λ h device. true;
  ioctls = λ h device. einval;
  spawns = λ h argv. finished 0 [] [];
  errno_text = λ h. [];
  wait_macros = wait_macros;
  exit_error = exit_error;
  exit_error_iff = exit_error_iff;
}

abbrev pub disk : Block
disk = record {
  object_path = codes "/org/freedesktop/UDisks2/block_devices/sda";
  device = codes "/dev/sda";
  symlinks = codes "/dev/disk/by-id/a" ∷ [];
  udev = none;
  iface_physical_volume = none;
  iface_logical_volume = none;
}

abbrev pub objects : Table Object
objects =
    (codes "/org/freedesktop/UDisks2/block_devices/sda", block disk)
    ∷ (codes "/org/freedesktop/UDisks2/lvm/vg/pool", skeleton (logical_volume (codes "pool") ∷ []))
    ∷ []

-- A report of a group with a visible volume, a hidden one, and a physical volume.
abbrev pub report_dict : Dict
report_dict = entry "size" (uint64 4194304) (
    entry "lvs"
      (dicts (
        dict
          (entry "name" (string (codes "home")) (entry "lv_attr" (string (codes "-wi-a---")) empty))
          (dict (entry "name" (string (codes "home_rimage_0")) empty) end)))
      (entry "pvs" (dicts (dict (entry "device" (string (codes "/dev/disk/by-id/a")) empty) end))
        empty))

abbrev pub group : VolumeGroup
group = VolumeGroup.new (codes "vg")

abbrev pub world : World
world = record { self = group; blocks = disk ∷ []; jobs = []; actions = [] }
