-- ===== src/VolumeGroup/Poll.antt =====
-- src/volumegroup.c: polling, at most once in five seconds: `ul_volume_group_poll`, `poll_in_main`,
-- `poll_timeout`, `poll_now`. The main loop runs the callbacks one at a time.
pub mod Invariant
pub mod Service
use udisks_lvm.Base.{ℕ, ◌+◌, Bool, true, false, List, [], ◌∷◌, ◌++◌, ◌≡◌, ◌≢◌, ◌==◌, if◌then◌else◌}
use udisks_lvm.Bus.{Reply, completed}
use udisks_lvm.VolumeGroup.{VolumeGroup}
use udisks_lvm.VolumeGroup.Refresh.{World, Report, poll_with_variant}

-- The group with the sources of the main loop that its callbacks run from, and the process
-- identifiers of the helpers that have been started (0 for one that could not be) and interrupted.
pub record Poller : Type 0 where
  pub world : World
  -- idle sources for `poll_in_main`
  pub idles : ℕ
  -- the identifiers of the pending timeouts for `poll_timeout`
  pub timers : List ℕ
  pub started : List ℕ
  pub interrupted : List ℕ

abbrev pub set_group : Poller → VolumeGroup → Poller
set_group p g = record p { world = record (p.world) { self = g } }

-- `ul_volume_group_poll`, which other threads may call too.
unfoldable pub poll : Poller → Poller
poll p = record p { idles = p.idles + 1 }

-- `handle_poll`, which answers at once.
unfoldable pub handle_poll : Poller → Poller × Reply
unfolding poll
handle_poll p = (poll p, completed)

-- What g_timeout_add and ul_daemon_spawn_for_variant return are arguments.
unfoldable pub poll_now : ℕ → ℕ → Poller → Poller
poll_now timer pid p =
    let self = p.world.self in
    record (set_group p (record self { poll_timeout_id = timer; poll_pid = pid })) {
      timers = timer ∷ p.timers;
      interrupted = if self.poll_pid == 0 then p.interrupted else self.poll_pid ∷ p.interrupted;
      started = pid ∷ p.started;
    }

unfoldable pub poll_in_main : ℕ → ℕ → Poller → Poller
unfolding poll_now
poll_in_main timer pid p =
    if p.world.self.poll_timeout_id == 0
    then poll_now timer pid p
    else set_group p (record (p.world.self) { poll_requested = true })

unfoldable pub poll_timeout : ℕ → ℕ → Poller → Poller
unfolding poll_now
poll_timeout timer pid p =
    let self = record (p.world.self) { poll_timeout_id = 0 } in
    if self.poll_requested
    then poll_now timer pid (set_group p (record self { poll_requested = false }))
    else set_group p self

-- The report of a helper comes in.
unfoldable pub reported : ℕ → Report → Poller → Poller
unfolding poll_with_variant
reported pid report p = record p { world = poll_with_variant pid report p.world }

-- Identifiers of sources are positive.
pub data Step : Poller → Poller → Type 0 where
  request : (p : Poller) → Step p (poll p)
  idle :
      (p : Poller) (n timer pid : ℕ)
      → p.idles ≡ n + 1
      → timer ≢ 0
      → Step p (poll_in_main timer pid (record p { idles = n }))
  fire :
      (p : Poller) (before after : List ℕ) (id timer pid : ℕ)
      → p.timers ≡ before ++ id ∷ after
      → timer ≢ 0
      → Step p (poll_timeout timer pid (record p { timers = before ++ after }))
  report : (p : Poller) (pid : ℕ) (r : Report) → Step p (reported pid r p)

pub data Reachable (first : Poller) : Poller → Type 0 where
  start : Reachable first first
  next : {p q : Poller} → Reachable first p → Step p q → Reachable first q
