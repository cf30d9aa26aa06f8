-- ===== src/System/Start.antt =====
-- src/manager.c, from `ul_manager_constructed` on: what the daemon has when it starts, and when it begins
-- to follow the system.
use udisks_lvm.Base.{
  ℕ, ltb, true, false, List, [], ◌∷◌, ◌++◌, Bytes, length, if◌then◌else◌, ◌≡◌, ◌≢◌, refl, sym, ap,
  ◌∙◌, arith, Option, subst, ◌+◌, none, zero, suc,
}
use udisks_lvm.Base.Table.{Table, lookup}
use udisks_lvm.Block.{Block, UdevDevice}
use udisks_lvm.Daemon.{Object}
use udisks_lvm.Manager.Updates.{
  concerns_lvm, trigger_delayed_lvm_update, do_delayed_lvm_update_now, handle_block_uevent_for_lvm,
}
use udisks_lvm.System.{
  listing, System, Event, uevent, timeout, ended, polled, fire, pick, finish, on_group, on_gone,
  find_gone, is_current, handle, run,
}
use udisks_lvm.Manager.Updates.Timer.{OneTimer}
use udisks_lvm.System.Converges.{Followed}
use udisks_lvm.System.Settles.{cost, drain, settles}
use udisks_lvm.Variant.{Dict}

-- A manager as GObject allocates it, with an empty table.
abbrev allocated : List Block → System
allocated blocks = record {
  delay = record { lvm_delayed_update_id = 0; timers = []; updates = 0 };
  groups = [];
  addresses = [];
  gone = [];
  fresh = 0;
  helpers = [];
  blocks = blocks;
  jobs = [];
  actions = [];
}

-- `do_delayed_lvm_update_now`, with the helper that its `lvm_update` starts.
unfoldable pub update_now : System → System
unfolding do_delayed_lvm_update_now
update_now s = record s {
  delay = do_delayed_lvm_update_now s.delay;
  helpers = if ltb 0 s.delay.lvm_delayed_update_id then s.helpers ++ listing ∷ [] else s.helpers;
}

-- `ul_manager_constructed`, with the blocks that udisksd has.
unfoldable pub constructed : List Block → System
unfolding update_now
constructed blocks = update_now (allocated blocks)

-- Nothing has been scheduled, started or listed.
pub record Idle (s : System) : Type 0 where
  pub no_groups : s.groups ≡ []
  pub no_helpers : s.helpers ≡ []
  pub no_timers : s.delay.timers ≡ []
  pub none_scheduled : s.delay.lvm_delayed_update_id ≡ 0
  pub no_addresses : s.addresses ≡ []
  pub none_gone : s.gone ≡ []

constructed-Idle : (blocks : List Block) → Idle (constructed blocks)
unfolding constructed update_now do_delayed_lvm_update_now
constructed-Idle blocks = record {
  no_groups = refl;
  no_helpers = refl;
  no_timers = refl;
  none_scheduled = refl;
  no_addresses = refl;
  none_gone = refl;
}

-- No event is a uevent on a device that concerns LVM.
abbrev pub Unconcerned : List Event → Type 0
Unconcerned [] = Unit
Unconcerned (uevent id objects device real_block ∷ es) =
    (concerns_lvm objects device real_block ≡ false) × Unconcerned es
Unconcerned (timeout ∷ es) = Unconcerned es
Unconcerned (ended k answer ∷ es) = Unconcerned es
Unconcerned (polled name address pid report ∷ es) = Unconcerned es

fire-nil : (timers : List ℕ) (s : System) → timers ≡ [] → fire timers s ≡ s
unfolding fire
fire-nil [] s e = refl
fire-nil (id ∷ timers) s e = cc

pick-nil : (k : ℕ) → pick k [] ≡ none
unfolding pick
pick-nil zero = refl
pick-nil (suc k) = refl

-- An event that does not concern LVM changes nothing.
unconcerned : (e : Event) (s : System) → Unconcerned (e ∷ []) → Idle s → handle e s ≡ s
unfolding handle
unconcerned (uevent id objects device real_block) s h i =
    unfold handle_block_uevent_for_lvm in rw h.0 refl
unconcerned timeout s h i = fire-nil s.delay.timers s i.no_timers
unconcerned (ended k answer) s h i =
    ap (λ p. finish p answer s) (ap (pick k) i.no_helpers ∙ pick-nil k) ∙ (unfold finish in refl)
unconcerned (polled name address pid report) s h i =
    unfold on_group in
    rw (i.no_addresses, i.none_gone) (unfold lookup is_current find_gone on_gone in refl)

run-Idle : (es : List Event) (s : System) → Unconcerned es → Idle s → run es s ≡ s
unfolding run
run-Idle [] s h i = refl
run-Idle (uevent id objects device real_block ∷ es) s h i =
    let e = uevent id objects device real_block in
    ap (run es) (unconcerned e s (h.0, tt) i) ∙ run-Idle es s h.1 i
run-Idle (timeout ∷ es) s h i = ap (run es) (unconcerned timeout s tt i) ∙ run-Idle es s h i
run-Idle (ended k answer ∷ es) s h i =
    ap (run es) (unconcerned (ended k answer) s tt i) ∙ run-Idle es s h i
run-Idle (polled name address pid report ∷ es) s h i =
    ap (run es) (unconcerned (polled name address pid report) s tt i) ∙ run-Idle es s h i

-- The first uevent that does.
module _ (id : ℕ) (objects : Table Object) (device : UdevDevice) (real_block : Option Bytes)
    (concerns : concerns_lvm objects device real_block ≡ true) (positive : id ≢ 0) where
  scheduled :
      (s : System)
      → Idle s
      → (handle (uevent id objects device real_block) s).delay
        ≡ record { lvm_delayed_update_id = id; timers = id ∷ []; updates = s.delay.updates }
  unfolding handle
  scheduled s i =
      unfold handle_block_uevent_for_lvm trigger_delayed_lvm_update in
      rw (concerns, i.none_scheduled, i.no_timers) refl

  positive_lem : ltb 0 id ≡ true
  positive_lem = ground (arith, positive)

  follows :
      (names : List Bytes) (dict : Bytes → Dict) (s : System)
      → Idle s
      → let t =
          run
            (timeout ∷ drain names dict (1 + length names))
            (handle (uevent id objects device real_block) s) in
        (t.helpers ≡ []) × (t.delay.timers ≡ []) × Followed names dict t
  follows names dict s i =
      let s' = handle (uevent id objects device real_block) s in
      let d = scheduled s i in
      let none_runs : cost names dict s'.helpers ≡ 0 =
        unfold handle in ap (cost names dict) i.no_helpers in
      let ends : cost names dict s'.helpers + (1 + length names) ≡ 1 + length names =
        omega (arith, none_runs) in
      subst
        (λ n.
          let t = run (timeout ∷ drain names dict n) s' in
          (t.helpers ≡ []) × (t.delay.timers ≡ []) × Followed names dict t)
        ends
        (settles names dict s'
          (λ n. unfold handle in rw (i.no_groups, i.no_addresses) (unfold lookup in refl))
          (subst OneTimer (sym d) (rw positive_lem refl))
          (ap (λ d. ltb 0 d.lvm_delayed_update_id) d ∙ positive_lem))

  -- When it starts, the daemon neither lists the groups nor schedules that. Whatever happens before the
  -- first uevent on a device that concerns LVM, it has no groups, no helper runs and no timeout is
  -- pending. When lvm2app has the groups `names` with the reports `dict` behind that uevent, then, with
  -- the timeout and the end of the helpers that are started, no helper runs and no timeout is pending,
  -- and the daemon has exactly these groups, each published and with exactly the visible volumes of its
  -- report.
  pub constructed-Followed :
      (names : List Bytes) (dict : Bytes → Dict) (blocks : List Block) (es : List Event)
      → Unconcerned es
      → let s = run es (constructed blocks) in
        let t =
          run
            (timeout ∷ drain names dict (1 + length names))
            (handle (uevent id objects device real_block) s) in
        ((s.groups ≡ []) × (s.helpers ≡ []) × (s.delay.timers ≡ []))
        × ((t.helpers ≡ []) × (t.delay.timers ≡ []) × Followed names dict t)
  constructed-Followed names dict blocks es h =
      let i = constructed-Idle blocks in
      let same = run-Idle es (constructed blocks) h i in
      subst
        (λ (s : System).
          let t =
            run (timeout ∷ drain names dict (1 + length names))
              (handle (uevent id objects device real_block) s) in
          ((s.groups ≡ []) × (s.helpers ≡ []) × (s.delay.timers ≡ []))
          × ((t.helpers ≡ []) × (t.delay.timers ≡ []) × Followed names dict t))
        (sym same)
        ((i.no_groups, i.no_helpers, i.no_timers), follows names dict (constructed blocks) i)
