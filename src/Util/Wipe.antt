-- ===== src/Util/Wipe.antt =====
-- src/util.c, `ul_util_wipe_block`, and the loop over devices of src/manager.c and src/volumegroup.c.
use udisks_lvm.Base.{
  ℕ, ◌≡◌, sym, subst, Option, none, some, List, [], ◌∷◌, ◌++◌, Bytes, codes, if◌then◌else◌, refl,
}
use udisks_lvm.Util.Host.Calls.{
  Calls, Calls-bind, Calls-branch, Calls-returned, Calls-raised, Ran, exited_zero, Ran-exited,
  not_started-Ran,
}
use udisks_lvm.Util.Host.{
  open_exclusive, write_zeroes, reread_partitions, spawn_sync, History, IoctlResult, done, einval,
  other_errno, SpawnResult, not_started, finished, Host, returned, raised, Prog, pure, ◌>>◌,
}

-- A message of the form "<text> <device>: %m".
abbrev device_error : Host → Bytes → Bytes → History → Bytes
device_error host text device h = text ++ (device ++ (codes ": " ++ host.errno_text h))

module _ (host : Host) (device_file : Bytes) where
  open_device : Prog (Unit {0})
  open_device h =
      let h' = open_exclusive device_file ∷ h in
      if host.opens h device_file
      then returned tt h'
      else raised (device_error host (codes "Error opening device ") device_file h') h'

  erase : Prog (Unit {0})
  erase h =
      let h' = write_zeroes device_file ∷ h in
      if host.writes h device_file
      then returned tt h'
      else raised (device_error host (codes "Error erasing device ") device_file h') h'

  -- EINVAL is returned if the device is not partitioned.
  reread_result : IoctlResult → Prog (Unit {0})
  reread_result done h = returned tt h
  reread_result einval h = returned tt h
  reread_result other_errno h =
      raised (device_error host (codes "Error removing partition devices of ") device_file h) h

  reread : Prog (Unit {0})
  unfolding reread_result
  reread h = reread_result (host.ioctls h device_file) (reread_partitions device_file ∷ h)

  abbrev wipefs_argv : List Bytes
  wipefs_argv = codes "wipefs" ∷ codes "-a" ∷ device_file ∷ []

  -- g_spawn_check_exit_status, and the prefix of its error.
  exit_result : Option Bytes → Bytes → Bytes → Prog (Unit {0})
  exit_result none out err h = returned tt h
  exit_result (some message) out err h =
      raised
        (codes "stdout: '" ++ (out ++ (codes "', stderr: '" ++ (err ++ (codes "', " ++ message)))))
        h

  wipefs_result : SpawnResult → Prog (Unit {0})
  unfolding exit_result
  wipefs_result (not_started message) h = raised message h
  wipefs_result (finished status out err) h = exit_result (host.exit_error status) out err h

  wipefs : Prog (Unit {0})
  unfolding wipefs_result
  wipefs h = wipefs_result (host.spawns h wipefs_argv) (spawn_sync wipefs_argv ∷ h)

  unfoldable pub wipe_block : Prog (Unit {0})
  unfolding open_device erase reread wipefs
  wipe_block = do open_device; erase; reread; wipefs

-- `for (i = 0; devices[i] != NULL; i++)`, which stops at the first device that cannot be wiped.
unfoldable pub wipe_devices : Host → List Bytes → Prog (Unit {0})
wipe_devices host [] = pure tt
wipe_devices host (device ∷ devices) = do wipe_block host device; wipe_devices host devices

-- The calls of a complete wipe, the latest first.
abbrev pub wipe_calls : Bytes → History
wipe_calls device =
    spawn_sync (codes "wipefs" ∷ codes "-a" ∷ device ∷ [])
    ∷ reread_partitions device
    ∷ write_zeroes device
    ∷ open_exclusive device
    ∷ []

abbrev pub all_wipe_calls : List Bytes → History
all_wipe_calls [] = []
all_wipe_calls (device ∷ devices) = all_wipe_calls devices ++ wipe_calls device

module _ (host : Host) (device : Bytes) where
  reread-Calls :
      (r : IoctlResult) (h : History)
      → host.ioctls h device ≡ r
      → Calls host
          (reread_partitions device ∷ [])
          h
          (reread_result host device r (reread_partitions device ∷ h))
  unfolding reread_result
  reread-Calls done h e = Calls-returned host (reread_partitions device) h (λ x. cc (e, x))
  reread-Calls einval h e = Calls-returned host (reread_partitions device) h (λ x. cc (e, x))
  reread-Calls other_errno h e = Calls-raised host (reread_partitions device) h [] (λ good. good e)

  module _ (argv : List Bytes) where
    exit-Calls :
        (o : Option Bytes) (status : ℕ) (out err : Bytes) (h : History)
        → host.spawns h argv ≡ finished status out err
        → host.exit_error status ≡ o
        → Calls host
            (spawn_sync argv ∷ [])
            h
            (exit_result host device o out err (spawn_sync argv ∷ h))
    unfolding exit_result
    exit-Calls none status out err h e x =
        let (a, b) = (host.exit_error_iff status).0 x in
        Calls-returned host (spawn_sync argv) h (subst (Ran host) (sym e) (exited_zero a b))
    exit-Calls (some message) status out err h e x =
        Calls-raised host (spawn_sync argv) h [] (λ good. cc (
          x,
          (host.exit_error_iff status).1 (Ran-exited host status out err (subst (Ran host) e good)),
        ))

    wipefs-Calls :
        (r : SpawnResult) (h : History)
        → host.spawns h argv ≡ r
        → Calls host (spawn_sync argv ∷ []) h (wipefs_result host device r (spawn_sync argv ∷ h))
    unfolding wipefs_result
    wipefs-Calls (not_started message) h e =
        Calls-raised host (spawn_sync argv) h message
          (λ good. not_started-Ran host message (subst (Ran host) e good))
    wipefs-Calls (finished status out err) h e =
        exit-Calls (host.exit_error status) status out err h e refl

  wipe_block-Calls : (h : History) → Calls host (wipe_calls device) h (wipe_block host device h)
  unfolding wipe_block
  wipe_block-Calls h =
      let argv = wipefs_argv host device in
      let last = spawn_sync argv ∷ [] in
      let later = last ++ reread_partitions device ∷ [] in
      Calls-bind host (open_exclusive device ∷ []) (later ++ write_zeroes device ∷ []) h
        (open_device host device h) _
        (Calls-branch host _ h (host.opens h device) _ (λ e. e) (λ e good. cc))
        λ _.
          Calls-bind host (write_zeroes device ∷ []) later _ (erase host device _) _
            (Calls-branch host _ _ (host.writes _ device) _ (λ e. e) (λ e good. cc))
            λ _.
              Calls-bind host (reread_partitions device ∷ []) last _ (reread host device _) _
                (reread-Calls (host.ioctls _ device) _ refl)
                λ _. wipefs-Calls argv (host.spawns _ _) _ refl

-- Wiping a list of devices goes through them in order, and for each opens it exclusively, erases its
-- first sector, has its partition table read again and runs `wipefs -a` on it. When it succeeds all
-- these calls have been made with success; when it fails, those up to the first that fails, so no later
-- device is touched.
pub wipe_devices-Calls :
    (host : Host) (devices : List Bytes) (h : History)
    → Calls host (all_wipe_calls devices) h (wipe_devices host devices h)
unfolding wipe_devices
wipe_devices-Calls host [] h = (refl, tt)
wipe_devices-Calls host (device ∷ devices) h =
    Calls-bind host (wipe_calls device) (all_wipe_calls devices) h (wipe_block host device h) _
      (wipe_block-Calls host device h) λ _. wipe_devices-Calls host devices _
