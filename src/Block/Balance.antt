-- ===== src/Block/Balance.antt =====
-- src/block.c: an interface of a block is published once, and unpublished once.
use udisks_lvm.Base.{
  Option, none, some, List, [], ◌∷◌, ◌++◌, Bytes, ◌≡◌, refl, ◌∙◌, arith, Bool, true, false,
  if◌then◌else◌,
}
use udisks_lvm.Bus.{Action, publish, unpublish, physical_volume_block, logical_volume_block}
use udisks_lvm.Variant.{Dict}
use udisks_lvm.Block.{Block, update_lv, update_pv}

-- A call of `ul_block_update_lv` or `ul_block_update_pv`.
pub data Update : Type 0 where
  lv : Option (Option Bytes) → Update
  pv : Option (Option Bytes × Dict) → Update

abbrev pub apply : Block → Update → Block × List Action
apply b (lv path) = update_lv b path
apply b (pv info) = update_pv b info

-- Any sequence of such calls, with what they publish and unpublish in order.
unfoldable pub run : Block → List Update → Block × List Action
run b [] = (b, [])
run b (u ∷ us) = let (b', done) = apply b u in let (last, rest) = run b' us in (last, done ++ rest)

-- Which of the two interfaces of a block are on the bus.
pub record Exported : Type 0 where
  pub pv_there : Bool
  pub lv_there : Bool

-- What the bus makes of an action: `none` if it publishes what is there already, or unpublishes what
-- is not there.
abbrev pub observe : Exported → Action → Option Exported
observe e (publish path physical_volume_block) =
    if e.pv_there then none else some (record e { pv_there = true })
observe e (unpublish path physical_volume_block) =
    if e.pv_there then some (record e { pv_there = false }) else none
observe e (publish path logical_volume_block) =
    if e.lv_there then none else some (record e { lv_there = true })
observe e (unpublish path logical_volume_block) =
    if e.lv_there then some (record e { lv_there = false }) else none
observe e _ = some e

unfoldable pub replay : Exported → List Action → Option Exported
replay e [] = some e
replay e (a ∷ as') = elim (observe e a) [ none ↦ none | some e' ↦ replay e' as' ]

abbrev is_some {ℓ} : {A : Type ℓ} → Option A → Bool
is_some none = false
is_some (some a) = true

-- The interfaces that the block holds.
abbrev pub view : Block → Exported
view b = record {
  pv_there = is_some b.iface_physical_volume;
  lv_there = is_some b.iface_logical_volume;
}

replay-append :
    (e : Exported) (as' bs : List Action) {e' : Exported}
    → replay e as' ≡ some e'
    → replay e (as' ++ bs) ≡ replay e' bs
unfolding replay
replay-append e [] bs h = ground arith
replay-append e (a ∷ as') bs {e'} h = after (observe e a) (λ x. replay-append x as' bs) h
  where
    after :
        (o : Option Exported)
        → ((x : Exported) → replay x as' ≡ some e' → replay x (as' ++ bs) ≡ replay e' bs)
        → elim o [ none ↦ none | some x ↦ replay x as' ] ≡ some e'
        → elim o [ none ↦ none | some x ↦ replay x (as' ++ bs) ] ≡ replay e' bs
    after none ih k = cc
    after (some x) ih k = ih x k

apply-replay : (b : Block) (u : Update) → replay (view b) (apply b u).1 ≡ some (view (apply b u).0)
unfolding update_lv update_pv replay
apply-replay b (lv none) = ground arith
apply-replay b (lv (some path)) = ground arith
apply-replay b (pv none) = ground arith
apply-replay b (pv (some (group, info))) = ground arith

-- Over any sequence of updates of a block, an interface is published only when the bus does not have
-- it and unpublished only when it does, and in the end the bus has exactly the interfaces that the
-- block holds.
pub run-replay :
    (b : Block) (us : List Update) → replay (view b) (run b us).1 ≡ some (view (run b us).0)
unfolding run
run-replay b [] = unfold replay in refl
run-replay b (u ∷ us) =
    replay-append (view b) (apply b u).1 (run (apply b u).0 us).1 (apply-replay b u)
    ∙ run-replay (apply b u).0 us
