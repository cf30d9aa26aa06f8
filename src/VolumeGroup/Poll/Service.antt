-- ===== src/VolumeGroup/Poll/Service.antt =====
-- src/volumegroup.c: a request to poll is served, at once or when the timeout runs.
use udisks_lvm.Base.{ℕ, ◌+◌, false, [], ◌∷◌, ◌≡◌, ◌≢◌, ◌⊎◌, ◌==◌, refl, inl, inr, Bool-cases}
use udisks_lvm.Bus.{completed}
use udisks_lvm.VolumeGroup.Poll.{
  Poller, set_group, poll, handle_poll, poll_now, poll_in_main, poll_timeout,
}
use udisks_lvm.VolumeGroup.Poll.Invariant.{Quiet, positive}

poll_now-starts : (timer pid : ℕ) (p : Poller) → (poll_now timer pid p).started ≡ pid ∷ p.started
poll_now-starts timer pid p = unfold poll_now in refl

-- A call of Poll is answered at once, and has a callback queued. When `poll_in_main` runs, either no
-- timeout is pending and a helper is started at once; or none is started, one timeout is pending, and its
-- callback starts a helper, whatever identifiers the system gives out.
pub poll_in_main_served :
    (timer pid : ℕ) (p : Poller)
    → Quiet p
    → ((handle_poll p).1 ≡ completed)
      × ((handle_poll p).0 ≡ record p { idles = p.idles + 1 })
      × (((p.timers ≡ []) × ((poll_in_main timer pid p).started ≡ pid ∷ p.started))
          ⊎ ((id : ℕ) × (id ≢ 0)
              × (p.timers ≡ id ∷ [])
              × ((poll_in_main timer pid p).started ≡ p.started)
              × ((timer' pid' : ℕ)
                  → (poll_timeout timer' pid'
                      (record (poll_in_main timer pid p) { timers = [] })).started
                    ≡ pid' ∷ p.started)))
unfolding poll_in_main poll_timeout handle_poll poll
poll_in_main_served timer pid p q = (
  refl,
  refl,
  elim (Bool-cases (p.world.self.poll_timeout_id == 0)) [
    | inl e ↦ inl (rw q.one_timer (simp e refl), simp e (poll_now-starts timer pid p))
    | inr e ↦ inr (
      p.world.self.poll_timeout_id,
      positive p.world.self.poll_timeout_id e,
      rw q.one_timer (simp e refl),
      simp e refl,
      λ timer' pid'. simp e (
          let self = record (p.world.self) { poll_timeout_id = 0; poll_requested = false } in
          poll_now-starts timer' pid' (record (set_group p self) { timers = [] })),
    )
  ],
)
