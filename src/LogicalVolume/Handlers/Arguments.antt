-- ===== src/LogicalVolume/Handlers/Arguments.antt =====
-- src/logicalvolume.c: the commands that the methods of a logical volume run.
use udisks_lvm.Base.{
  ℕ, ◌+◌, ◌-◌, ◌%◌, ◌^◌, ◌≤◌, ◌<◌, ◌∷◌, ◌++◌, Bytes, codes, decimal, read_decimal,
  read_decimal-decimal, ◌≡◌, refl, arith,
}
use udisks_lvm.LogicalVolume.Handlers.{resize_argv}
use udisks_lvm.VolumeGroup.Handlers.{bytes_arg, stripe_args}

-- A volume is resized to the largest whole number of sectors that is not above the size, and the
-- number in the command reads back as that many bytes, for every size that D-Bus can send.
pub resize_size :
    (full_name : Bytes) (new_size stripes stripesize : ℕ)
    → new_size < 2 ^ 64
    → (n : ℕ) × (n % 512 ≡ 0)
      × (n ≤ new_size)
      × (new_size < n + 512)
      × (read_decimal 0 (decimal n) ≡ n)
      × (resize_argv full_name new_size stripes stripesize
          ≡ codes "lvresize"
            ∷ full_name
            ∷ (codes "-L" ++ bytes_arg n)
            ∷ stripe_args stripes stripesize)
resize_size full_name new_size stripes stripesize h = (
  new_size - new_size % 512,
  omega arith,
  omega arith,
  omega arith,
  read_decimal-decimal (new_size - new_size % 512) (omega arith),
  unfold resize_argv in refl,
)
