-- ===== src/Job/Estimation.antt =====
-- src/job.c: switching the estimate of the remaining time on and off.
use udisks_lvm.Base.{ℕ, Bool, true, false, some, ◌≡◌, ◌≢◌, refl, arith}
use udisks_lvm.Job.{Estimate, set_auto_estimate, set_estimate, connect, disconnect}

-- While progress is estimated, its handler is connected and the samples are allocated; otherwise it is
-- not connected.
pub record Wired (e : Estimate) : Type 0 where
  pub connected : e.auto_estimate ≡ true → (e.handler_id ≢ 0) × (e.allocated ≡ true)
  pub unconnected : e.auto_estimate ≡ false → e.handler_id ≡ 0

connect-Wired :
    (id : ℕ) (e : Estimate)
    → id ≢ 0
    → e.handler_id ≡ 0
    → connect id e ≡ some (record { auto_estimate = true; handler_id = id; allocated = true })
unfolding connect
connect-Wired id e h c = ground (arith, h, c)

disconnect-Wired :
    (e : Estimate)
    → e.handler_id ≢ 0
    → disconnect e ≡ some (record e { auto_estimate = false; handler_id = 0 })
unfolding disconnect
disconnect-Wired e h = ground (arith, h)

switched :
    (id : ℕ) (value old : Bool) (e : Estimate)
    → id ≢ 0
    → e.auto_estimate ≡ old
    → Wired e
    → (e' : Estimate) × (set_estimate id value old e ≡ some e')
      × (e'.auto_estimate ≡ value)
      × Wired e'
unfolding set_estimate
switched id true true e h o w = (e, refl, o, w)
switched id false false e h o w = (e, refl, o, w)
switched id true false e h o w = (
  record { auto_estimate = true; handler_id = id; allocated = true },
  connect-Wired id e h (w.unconnected o),
  refl,
  record { connected = λ c. (h, refl); unconnected = λ c. cc },
)
switched id false true e h o w = (
  record e { auto_estimate = false; handler_id = 0 },
  disconnect-Wired e (w.connected o).0,
  refl,
  record { connected = λ c. cc; unconnected = λ c. refl },
)

-- Estimation can be switched on and off in any state that this can lead to: no assertion fails, it is
-- on or off as asked, and its handler is connected, with room for the samples, exactly when it is on.
pub set_auto_estimate-Wired :
    (id : ℕ) (value : Bool) (e : Estimate)
    → id ≢ 0
    → Wired e
    → (e' : Estimate) × (set_auto_estimate id value e ≡ some e')
      × (e'.auto_estimate ≡ value)
      × Wired e'
unfolding set_auto_estimate
set_auto_estimate-Wired id value e h w = switched id value e.auto_estimate e h refl w
