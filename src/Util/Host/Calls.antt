-- ===== src/Util/Host/Calls.antt =====
-- The calls that a run makes, which of them succeed, and how runs compose.
use udisks_lvm.Base.{
  ℕ, Bool, true, false, some, List, [], ◌∷◌, ◌++◌, append_assoc, Bytes, ◌≡◌, refl, sym, subst, ap,
  ◌∙◌, if◌then◌else◌,
}
use udisks_lvm.Util.Host.{
  Syscall, open_exclusive, open_readonly, write_zeroes, reread_partitions, spawn_sync, History,
  other_errno, SpawnResult, not_started, finished, Host, Outcome, returned, raised, Prog, check,
  checked, spawn_checked,
}
use udisks_lvm.Util.Status.{CheckResult, success, failed, check_status_iff}

-- A program has been started, and has exited with status 0.
pub data Ran (host : Host) : SpawnResult → Type 0 where
  exited_zero :
      {status : ℕ} {out err : Bytes}
      → host.wait_macros.exited status ≡ true
      → host.wait_macros.exit_status status ≡ 0
      → Ran host (finished status out err)

-- A call that is made behind the calls `h` succeeds. That a device is not partitioned is no failure of
-- BLKRRPART.
abbrev pub Succeeds : Host → History → Syscall → Type 0
Succeeds host h (open_exclusive device) = host.opens h device ≡ true
Succeeds host h (open_readonly device) = host.opens_readonly h device ≡ true
Succeeds host h (write_zeroes device) = host.writes h device ≡ true
Succeeds host h (reread_partitions device) = host.ioctls h device ≡ other_errno → ⊥
Succeeds host h (spawn_sync argv) = Ran host (host.spawns h argv)

-- All of the calls succeed, each behind those before it; the latest is the first of the list.
abbrev pub Succeeded : Host → History → History → Type 0
Succeeded host h [] = Unit
Succeeded host h (c ∷ cs) = Succeeds host (cs ++ h) c × Succeeded host h cs

-- From the history `h`, a run that returns has made the calls `cs`, and all of them have succeeded. One
-- that raises an error has made an initial part of them and nothing else: all have succeeded but the
-- last, which has failed.
abbrev pub Calls {ℓ} : {A : Type ℓ} → Host → History → History → Outcome A → Type 0
Calls host cs h (returned _ h') = (h' ≡ cs ++ h) × Succeeded host h cs
Calls host cs h (raised _ h') =
    (later : History) × (c : Syscall) × (made : History) × (later ++ c ∷ made ≡ cs)
    × (h' ≡ c ∷ (made ++ h))
    × Succeeded host h made
    × (Succeeds host (made ++ h) c → ⊥)

module _ (host : Host) where
  pub Succeeded-append :
      (cs ds h : History)
      → Succeeded host h cs
      → Succeeded host (cs ++ h) ds
      → Succeeded host h (ds ++ cs)
  Succeeded-append cs [] h p q = p
  Succeeded-append cs (d ∷ ds) h p q = (
    subst (λ x. Succeeds host x d) (sym (append_assoc ds cs h)) q.0,
    Succeeded-append cs ds h p q.1,
  )

  Calls-regroup :
      {A : Type 0} (cs ds h : History) (m : Outcome A)
      → Succeeded host h cs
      → Calls host ds (cs ++ h) m
      → Calls host (ds ++ cs) h m
  Calls-regroup cs ds h (returned a h') s (e, t) =
      (e ∙ sym (append_assoc ds cs h), Succeeded-append cs ds h s t)
  Calls-regroup cs ds h (raised e h') s (later, c, made, e1, e2, t, bad) = (
    later,
    c,
    made ++ cs,
    sym (append_assoc later (c ∷ made) cs) ∙ ap (λ x. x ++ cs) e1,
    e2 ∙ ap (◌∷◌ c) (sym (append_assoc made cs h)),
    Succeeded-append cs made h s t,
    subst (λ x. Succeeds host x c → ⊥) (sym (append_assoc made cs h)) bad,
  )

  pub Calls-bind :
      {A B : Type 0} (cs ds h : History) (m : Outcome A) (f : A → Prog B)
      → Calls host cs h m
      → ((a : A) → Calls host ds (cs ++ h) (f a (cs ++ h)))
      → Calls host (ds ++ cs) h (elim m [ returned a h' ↦ f a h' | raised e h' ↦ raised e h' ])
  Calls-bind cs ds h (returned a h') f (p, s) q =
      rw p (Calls-regroup cs ds h (f a (cs ++ h)) s (q a))
  Calls-bind cs ds h (raised e h') f (later, c, made, e1, e2, s, bad) q =
      (ds ++ later, c, made, append_assoc ds later (c ∷ made) ∙ ap (◌++◌ ds) e1, e2, s, bad)

  -- A step that makes one call.
  pub Calls-returned :
      (c : Syscall) (h : History)
      → Succeeds host h c
      → Calls {A = Unit {0}} host (c ∷ []) h (returned tt (c ∷ h))
  Calls-returned c h good = (refl, (good, tt))

  pub Calls-raised :
      (c : Syscall) (h : History) (e : Bytes)
      → (Succeeds host h c → ⊥)
      → Calls {A = Unit {0}} host (c ∷ []) h (raised e (c ∷ h))
  Calls-raised c h e bad = ([], c, [], refl, refl, tt, bad)

  pub Calls-branch :
      (c : Syscall) (h : History) (b : Bool) (e : Bytes)
      → (b ≡ true → Succeeds host h c)
      → (b ≡ false → Succeeds host h c → ⊥)
      → Calls host (c ∷ []) h (if b then returned (tt {0}) (c ∷ h) else raised e (c ∷ h))
  Calls-branch c h true e good bad = Calls-returned c h (good refl)
  Calls-branch c h false e good bad = Calls-raised c h e (bad refl)

  pub Ran-exited :
      (status : ℕ) (out err : Bytes)
      → Ran host (finished status out err)
      → (host.wait_macros.exited status ≡ true) × (host.wait_macros.exit_status status ≡ 0)
  Ran-exited status out err (exited_zero a b) = (a, b)

  pub not_started-Ran : (message : Bytes) → Ran host (not_started message) → ⊥
  not_started-Ran message r = elim r [ ]

  check-Calls :
      (c : Syscall) (h : History) (r : CheckResult)
      → (r ≡ success → Succeeds host h c)
      → (Succeeds host h c → r ≡ success)
      → Calls host (c ∷ []) h (check r (c ∷ h))
  check-Calls c h success good iff = Calls-returned c h (good refl)
  check-Calls c h (failed message) good iff = Calls-raised c h message (λ s. cc (iff s))

  checked-Calls :
      (cmd : Bytes) (argv : List Bytes) (h : History) (r : SpawnResult)
      → host.spawns h argv ≡ r
      → Calls host (spawn_sync argv ∷ []) h (checked host cmd r (spawn_sync argv ∷ h))
  unfolding checked
  checked-Calls cmd argv h (not_started message) e =
      Calls-raised (spawn_sync argv) h message (λ s. not_started-Ran message (subst (Ran host) e s))
  checked-Calls cmd argv h (finished status out err) e =
      let iff = check_status_iff host.wait_macros cmd status (some out) (some err) in
      check-Calls (spawn_sync argv) h _
        (λ ok. let (a, b) = iff.0 ok in subst (Ran host) (sym e) (exited_zero a b))
        (λ s. iff.1 (Ran-exited status out err (subst (Ran host) e s)))

  -- A program that is run and checked is one call.
  pub spawn_checked-Calls :
      (cmd : Bytes) (argv : List Bytes) (h : History)
      → Calls host (spawn_sync argv ∷ []) h (spawn_checked host cmd argv h)
  unfolding spawn_checked
  spawn_checked-Calls cmd argv h = checked-Calls cmd argv h (host.spawns h argv) refl
