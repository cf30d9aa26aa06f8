-- ===== src/System/Settles.antt =====
-- src/manager.c, src/volumegroup.c and src/daemon.c together: when the system no longer changes, the
-- helpers come to an end.
use udisks_lvm.Base.{
  ℕ, zero, suc, ◌+◌, Bool, true, false, if◌then◌else◌, List, [], ◌∷◌, ◌++◌, Bytes, length, ◌≡◌,
  refl, sym, ap, ◌∙◌, arith,
}
use udisks_lvm.Base.Table.{Table}
use udisks_lvm.Manager.{listed}
use udisks_lvm.Manager.Updates.{Delay, delayed_lvm_update}
use udisks_lvm.Manager.Updates.Timer.{OneTimer}
use udisks_lvm.System.{
  Helper, listing, show, System, shows, on_listing, on_ended, Event, timeout, ended, fire, pick,
  finish, handle, run,
}
use udisks_lvm.System.Addresses.{Addressed, on_group_same, on_listing-helpers, on_listing-delay}
use udisks_lvm.System.Converges.{Followed, run-Followed}
use udisks_lvm.System.Follows.{only_timer, pending, truth, Faithful}
use udisks_lvm.Variant.{Dict}
use udisks_lvm.VolumeGroup.Refresh.{update_with_variant}

missing : (id : ℕ) (b : Bool) → [] ≡ (if b then id ∷ [] else []) → b ≡ true → ⊥
missing id true e p = cc
missing id false e p = cc

-- The timeout that is pending has a helper started.
fired :
    (timers : List ℕ) (s : System)
    → s.delay.timers ≡ timers
    → OneTimer s.delay
    → pending s ≡ true
    → ((fire timers s).helpers ≡ s.helpers ++ listing ∷ []) × ((fire timers s).delay.timers ≡ [])
unfolding fire delayed_lvm_update
fired [] s e one p = absurd (missing _ (pending s) (sym e ∙ one) p)
fired (id ∷ timers) s e one p = (refl, only_timer id timers (pending s) _ (sym e ∙ one))

module _ (names : List Bytes) (dict : Bytes → Dict) where
  -- How many helpers end because of one: itself, and those that its listing starts.
  abbrev pub cost : List Helper → ℕ
  cost [] = 0
  cost (listing ∷ hs) = 1 + length names + cost hs
  cost (show name address ∷ hs) = 1 + cost hs

  -- The oldest helper ends, as often as this says, and finds what lvm2app has.
  abbrev pub drain : ℕ → List Event
  drain zero = []
  drain (suc n) = ended 0 (truth names dict) ∷ drain n

  cost-append : (hs ks : List Helper) → cost (hs ++ ks) ≡ cost hs + cost ks
  cost-append [] ks = omega arith
  cost-append (listing ∷ hs) ks = omega (arith, cost-append hs ks)
  cost-append (show name address ∷ hs) ks = omega (arith, cost-append hs ks)

  cost-shows : (addresses : Table ℕ) (ns : List Bytes) → cost (shows addresses ns) ≡ length ns
  unfolding shows
  cost-shows addresses [] = refl
  cost-shows addresses (n ∷ ns) = omega (arith, cost-shows addresses ns)

  end_first :
      (h : Helper) (hs : List Helper) (s : System)
      → (cost (on_ended h (truth names dict) (record s { helpers = hs })).helpers + 1
          ≡ cost (h ∷ hs))
        × ((on_ended h (truth names dict) (record s { helpers = hs })).delay ≡ s.delay)
  unfolding on_ended
  end_first listing hs s =
      let s' = record s { helpers = hs } in
      let started = shows (on_listing (listed names) s').addresses names in
      (
        omega (
          arith,
          ap cost (on_listing-helpers names s'),
          cost-append hs started,
          cost-shows (on_listing (listed names) s').addresses names,
        ),
        on_listing-delay (listed names) s',
      )
  end_first (show name address) hs s =
      let s' = record s { helpers = hs } in
      let (_, helpers, delay) =
        on_group_same name address (update_with_variant ((truth names dict).report name)) s' in
      (omega (arith, ap cost helpers), delay)

  ended_oldest :
      (hs : List Helper) (s : System) (n : ℕ)
      → s.helpers ≡ hs
      → cost hs ≡ suc n
      → (cost (handle (ended 0 (truth names dict)) s).helpers ≡ n)
        × ((handle (ended 0 (truth names dict)) s).delay ≡ s.delay)
  unfolding handle pick finish
  ended_oldest [] s n e c = absurd (omega (arith, c))
  ended_oldest (h ∷ hs) s n e c =
      let (less, delay) = end_first h hs s in rw e (omega (arith, less, c), delay)

  no_cost : (hs : List Helper) → cost hs ≡ 0 → hs ≡ []
  no_cost [] e = refl
  no_cost (listing ∷ hs) e = absurd (omega (arith, e))
  no_cost (show name address ∷ hs) e = absurd (omega (arith, e))

  drained :
      (n : ℕ) (s : System)
      → cost s.helpers ≡ n
      → ((run (drain n) s).helpers ≡ []) × ((run (drain n) s).delay ≡ s.delay)
  unfolding run
  drained zero s e = (no_cost s.helpers e, refl)
  drained (suc n) s e =
      let (less, delay) = ended_oldest s.helpers s n refl e in
      let (done, same) = drained n (handle (ended 0 (truth names dict)) s) less in
      (done, same ∙ delay)

  drain-Faithful : (m n : ℕ) → Faithful names dict m (drain n)
  drain-Faithful zero zero = tt
  drain-Faithful (suc m) zero = tt
  drain-Faithful zero (suc n) = (refl, drain-Faithful zero n)
  drain-Faithful (suc m) (suc n) = (omega arith, drain-Faithful m n)

  -- If a listing is scheduled, and lvm2app has the groups `names` with the reports `dict` from then on,
  -- then the timeout comes, and the end of the helpers that were running, of one that lists, and of the
  -- helpers that these listings start: no helper runs and no timeout is pending behind them, and the
  -- daemon has exactly these groups, published, with exactly the visible volumes of their reports.
  pub settles :
      (s : System)
      → Addressed s
      → OneTimer s.delay
      → pending s ≡ true
      → let t = run (timeout ∷ drain (cost s.helpers + (1 + length names))) s in
        (t.helpers ≡ []) × (t.delay.timers ≡ []) × Followed names dict t
  settles s addressed one p =
      let n = cost s.helpers + (1 + length names) in
      let (helpers, no_timer) = fired s.delay.timers s refl one p in
      let all : cost (handle timeout s).helpers ≡ n =
        unfold handle in omega (arith, ap cost helpers, cost-append s.helpers (listing ∷ [])) in
      let (done, same) = drained n (handle timeout s) all in
      let no_timers : (run (drain n) (handle timeout s)).delay.timers ≡ [] =
        unfold handle in ap (λ (d : Delay). d.timers) same ∙ no_timer in
      (
        unfold run in done,
        unfold run in no_timers,
        run-Followed names dict (timeout ∷ drain n) s addressed one p
            (drain-Faithful (length s.helpers) n) (unfold run in done) (unfold run in no_timers),
      )
