-- ===== src/SpawnedJob/Setup.antt =====
-- src/spawnedjob.c: `child_setup`, which runs in the forked child before the program does.
use udisks_lvm.Base.{
  ℕ, Bool, true, false, ◌&&◌, Option, none, some, List, [], ◌∷◌, Bytes, ◌≡◌, inl, inr, ◌==◌,
  Bool-cases, Option-cases, if◌then◌else◌, arith,
}

-- struct passwd
pub record Passwd : Type 0 where
  pub pw_name : Bytes
  pub pw_uid : ℕ
  pub pw_gid : ℕ

pub data Call : Type 0 where
  -- setgroups (0, NULL)
  setgroups : Call
  -- user, group
  initgroups : Bytes → ℕ → Call
  -- real, effective
  setregid setreuid : ℕ → ℕ → Call

-- The calls that the child has made, the latest first, and whether it goes on to the program or aborts.
pub data Setup : Type 0 where
  out abort : List Call → Setup

-- Whether a call returns 0 may depend on those before it.
pub record Process : Type 0 where
  pub uid : ℕ
  pub euid : ℕ
  pub getpwuid : ℕ → Option Passwd
  pub returns_zero : List Call → Call → Bool

abbrev pub become_user : ℕ → ℕ → Passwd → List Call
become_user run_as_euid egid pw =
    setgroups
    ∷ initgroups pw.pw_name pw.pw_gid
    ∷ setregid pw.pw_gid egid
    ∷ setreuid pw.pw_uid run_as_euid
    ∷ []

module _ (p : Process) where
  -- A chain of calls, each of which aborts the child if it fails.
  unfoldable pub attempt : List Call → List Call → Setup
  attempt [] made = out made
  attempt (c ∷ cs) made =
      let rest = attempt cs (c ∷ made) in if p.returns_zero made c then rest else abort (c ∷ made)

  unfoldable pub with_user : ℕ → ℕ → Option Passwd → Setup
  unfolding attempt
  with_user run_as_euid egid none = abort []
  with_user run_as_euid egid (some pw) = attempt (become_user run_as_euid egid pw) []

  unfoldable pub with_effective : ℕ → ℕ → Option Passwd → Setup
  unfolding with_user
  with_effective run_as_uid run_as_euid none = abort []
  with_effective run_as_uid run_as_euid (some pw) =
      with_user run_as_euid pw.pw_gid (p.getpwuid run_as_uid)

  unfoldable pub child_setup : ℕ → ℕ → Setup
  unfolding with_effective
  child_setup run_as_uid run_as_euid =
      if run_as_uid == p.uid && run_as_euid == p.euid
      then out []
      else with_effective run_as_uid run_as_euid (p.getpwuid run_as_euid)

  -- The calls that make the process the user's, the latest first.
  pub data Became (uid euid : ℕ) : List Call → Type 0 where
    already : uid ≡ p.uid → euid ≡ p.euid → Became uid euid []
    changed :
        (pw effective : Passwd)
        → p.getpwuid uid ≡ some pw
        → p.getpwuid euid ≡ some effective
        → Became uid euid (
            setreuid pw.pw_uid euid
            ∷ setregid pw.pw_gid effective.pw_gid
            ∷ initgroups pw.pw_name pw.pw_gid
            ∷ setgroups
            ∷ [])

  -- Each of the calls returned 0.
  abbrev pub Succeeded : List Call → Type 0
  Succeeded [] = Unit
  Succeeded (c ∷ made) = (p.returns_zero made c ≡ true) × Succeeded made

  -- Where an aborted child stops: the last call failed, those before it did not.
  abbrev pub Stopped : List Call → Type 0
  Stopped [] = Unit
  Stopped (c ∷ made) = (p.returns_zero made c ≡ false) × Succeeded made

  abbrev pub Outcome : ℕ → ℕ → Setup → Type 0
  Outcome uid euid (out made) = Became uid euid made × Succeeded made
  Outcome uid euid (abort made) = Stopped made

  -- The calls `cs` are still to be made.
  abbrev reversed : List Call → List Call → List Call
  reversed [] made = made
  reversed (c ∷ cs) made = reversed cs (c ∷ made)

  attempt-Outcome :
      (uid euid : ℕ) (cs made : List Call)
      → Became uid euid (reversed cs made)
      → Succeeded made
      → Outcome uid euid (attempt cs made)
  unfolding attempt
  attempt-Outcome uid euid [] made b s = (b, s)
  attempt-Outcome uid euid (c ∷ cs) made b s = elim (Bool-cases (p.returns_zero made c)) [
    | inl e ↦ rw e (attempt-Outcome uid euid cs (c ∷ made) b (e, s))
    | inr e ↦ rw e (e, s)
  ]

  -- A child that goes on to run the program is either the user already, or has dropped its groups,
  -- taken those of the user, and set its groups and then its user, in this order and each with success;
  -- so it never runs the program with only some of that done. Otherwise it aborts at the first call
  -- that fails.
  pub child_setup-Outcome : (uid euid : ℕ) → Outcome uid euid (child_setup uid euid)
  unfolding child_setup with_effective with_user
  child_setup-Outcome uid euid = elim (Bool-cases (uid == p.uid && euid == p.euid)) [
    | inl e ↦ simp e (already (ground (arith, e)) (ground (arith, e)), tt)
    | inr e ↦ simp e (elim (Option-cases (p.getpwuid euid)) [
      | inl n ↦ rw n tt
      | inr (effective, f) ↦ rw f (elim (Option-cases (p.getpwuid uid)) [
        | inl n ↦ rw n tt
        | inr (pw, g) ↦ rw g (
            attempt-Outcome uid euid (become_user euid effective.pw_gid pw) []
              (changed pw effective g f) tt)
      ])
    ])
  ]
