-- ===== src/VolumeGroup/Update/Progress.antt =====
-- src/volumegroup.c: `update_progress_for_device` and `update_operations`, which report the progress
-- of a `pvmove` on the jobs that empty the device.
use udisks_lvm.Base.{
  ℕ, Bool, true, false, ◌||◌, Option, none, some, List, [], ◌∷◌, Bytes, codes, str_equal,
  strcmp0_eq, if◌then◌else◌,
}
use udisks_lvm.Block.{Block}
use udisks_lvm.Variant.{Dict, lookup_string, lookup_uint64}
use udisks_lvm.VolumeGroup.Visible.{lv_is_pvmove_volume}

-- The properties of a `UDisksJob` that are read or set here; the progress is in units of
-- 1 / 100000000.
pub record Job : Type 0 where
  pub operation : Option Bytes
  pub objects : List Bytes
  pub progress : ℕ
  pub progress_valid : Bool

-- `ul_daemon_find_thing` for a block
unfoldable pub find_block : List Block → Bytes → Option Block
find_block [] path = none
find_block (b ∷ bs) path = if str_equal b.object_path path then some b else find_block bs path

-- The loop over the symbolic links.
unfoldable pub has_symlink : List Bytes → Bytes → Bool
has_symlink [] dev = false
has_symlink (s ∷ ss) dev = str_equal s dev || has_symlink ss dev

abbrev is_device : Option Block → Bytes → Bool
is_device none dev = false
is_device (some block) dev = str_equal block.device dev || has_symlink block.symlinks dev

-- The loop over the objects of a job.
unfoldable pub update_job : List Block → Bytes → ℕ → List Bytes → Job → Job
unfolding find_block has_symlink
update_job blocks dev progress [] job = job
update_job blocks dev progress (path ∷ paths) job = update_job blocks dev progress paths (
    if is_device (find_block blocks path) dev
    then record job { progress = progress; progress_valid = true }
    else job)

-- `update_progress_for_device`; the lists are those that `ul_daemon_get_jobs` returns and the blocks
-- among which `ul_daemon_find_thing` looks.
unfoldable pub update_progress_for_device : List Block → Bytes → Bytes → ℕ → List Job → List Job
unfolding update_job
update_progress_for_device blocks operation dev progress [] = []
update_progress_for_device blocks operation dev progress (job ∷ jobs) =
    (if strcmp0_eq job.operation (some operation)
      then update_job blocks dev progress job.objects job
      else job)
    ∷ update_progress_for_device blocks operation dev progress jobs

operations : List Block → Bool → Option Bytes → Option ℕ → List Job × Bool → List Job × Bool
unfolding update_progress_for_device
operations blocks true (some move_pv) (some copy_percent) (jobs, polling) = (
  update_progress_for_device blocks (codes "lvm-vg-empty-device") move_pv copy_percent jobs,
  true,
)
operations blocks _ _ _ s = s

-- `update_operations`, on the jobs and `*needs_polling_ret`.
unfoldable pub update_operations :
    List Block → Option Bytes → Dict → List Job × Bool → List Job × Bool
unfolding operations lv_is_pvmove_volume
update_operations blocks lv_name lv_info s =
    operations blocks (lv_is_pvmove_volume lv_name) (lookup_string lv_info "move_pv")
      (lookup_uint64 lv_info "copy_percent") s
