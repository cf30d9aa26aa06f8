-- ===== src/Helper/Output.antt =====
-- src/helper.c: `write_all` ends, with all of the output written unless write fails.
use udisks_lvm.Base.{
  ℕ, zero, suc, ◌≤◌, ◌<◌, List, [], ◌∷◌, ◌++◌, append_assoc, append-nil, Bytes, length, ◌≡◌, refl,
  sym, ap, ◌∙◌, taken, left_of, taken-left_of, left_shorter, arith,
}
use udisks_lvm.Helper.{
  Wrote, write_error, wrote, Written, all_written, exit_failure, still_writing, write_all,
}

-- The pieces in order.
abbrev pub joined : List Bytes → Bytes
joined [] = []
joined (piece ∷ pieces) = joined pieces ++ piece

module _ (write : List Bytes → Bytes → Wrote) where
  -- As write (2) does with a descriptor that blocks and a buffer that is not empty.
  abbrev pub Progresses : Type 0
  Progresses = (pieces : List Bytes) (mem : Bytes) (n : ℕ) → write pieces mem ≡ wrote n → 0 < n

  -- All is written, or write fails for what is left, and the program exits.
  abbrev pub Complete : Bytes → Written → Type 0
  Complete mem (all_written pieces) = joined pieces ≡ mem
  Complete mem (exit_failure pieces) =
      (rest : Bytes) × (joined pieces ++ rest ≡ mem) × (write pieces rest ≡ write_error)
  Complete mem (still_writing rest pieces) = ⊥

  step :
      (fuel : ℕ) (c : ℕ) (mem all : Bytes) (pieces : List Bytes) (w : Wrote)
      → joined pieces ++ c ∷ mem ≡ all
      → write pieces (c ∷ mem) ≡ w
      → ((n : ℕ)
          → w ≡ wrote n
          → Complete all (write_all write fuel (left_of n (c ∷ mem)) (taken n (c ∷ mem) ∷ pieces)))
      → Complete all (elim w [
        | write_error ↦ exit_failure pieces
        | wrote n ↦ write_all write fuel (left_of n (c ∷ mem)) (taken n (c ∷ mem) ∷ pieces)
      ])
  step fuel c mem all pieces write_error h e k = (c ∷ mem, h, e)
  step fuel c mem all pieces (wrote n) h e k = k n refl

  rounds :
      (fuel : ℕ) (mem all : Bytes) (pieces : List Bytes)
      → Progresses
      → length mem ≤ fuel
      → joined pieces ++ mem ≡ all
      → Complete all (write_all write fuel mem pieces)
  unfolding write_all
  rounds fuel [] all pieces p l h = sym (append-nil (joined pieces)) ∙ h
  rounds zero (c ∷ mem) all pieces p l h = absurd (omega (arith, l))
  rounds (suc fuel) (c ∷ mem) all pieces p l h =
      step fuel c mem all pieces (write pieces (c ∷ mem)) h refl λ n e.
        rounds fuel (left_of n (c ∷ mem)) all (taken n (c ∷ mem) ∷ pieces) p
          (omega (arith, l, left_shorter n c mem (p pieces (c ∷ mem) n e)))
          (append_assoc (joined pieces) (taken n (c ∷ mem)) (left_of n (c ∷ mem))
            ∙ ap (◌++◌ (joined pieces)) (taken-left_of n (c ∷ mem))
            ∙ h)

  -- If write takes at least one byte whenever it does not fail, then `write_all` ends after at most as
  -- many calls as there are bytes: all bytes have been written once and in order; or a beginning of the
  -- bytes has been written, the call for the rest of them has failed, and the program exits.
  pub write_all-Complete :
      (mem : Bytes) → Progresses → Complete mem (write_all write (length mem) mem [])
  write_all-Complete mem p = rounds (length mem) mem mem [] p (omega arith) refl
