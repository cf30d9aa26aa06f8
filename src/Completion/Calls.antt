-- ===== src/Completion/Calls.antt =====
-- src/manager.c, src/volumegroup.c, src/logicalvolume.c: each of the calls that wait for a new object,
-- with the callbacks that its handler connects.
use udisks_lvm.Base.{ℕ, Bool, true, false, Option, List, [], ◌∷◌, Bytes, codes, ◌≡◌, refl, ap, ◌∙◌}
use udisks_lvm.Bus.{Reply}
use udisks_lvm.Completion.{
  Published, volume_group, logical_volume, logical_volume_block, Waited, group_named, volume_named,
  block_of, matches, path_of, waiting, freed, misused, Event, published, job_completed, State,
  answered, give_up, on_published, on_complete, handle, run,
}
use udisks_lvm.Completion.Creation
use udisks_lvm.Completion.Groups
use udisks_lvm.Completion.Replies.{answer, run-answer}
use udisks_lvm.Completion.Volumes

-- What the closure of a call holds: the name that is waited for, and the address of the group that the
-- volume is to be in, or the path of the volume that is activated.
pub data Call : Type 0 where
  create_group : Bytes → Call
  rename_group : Bytes → Call
  create_volume : Bytes → ℕ → Call
  rename_volume : Bytes → ℕ → Call
  create_snapshot : Bytes → ℕ → Call
  activate : Option Bytes → Call

-- The emission of "published", with the detail that the handler of the call is connected to.
unfoldable pub emit : Call → Published → List Reply → State
unfolding Creation.on_create_volume_group Groups.on_rename_volume_group
    Groups.on_create_logical_volume Volumes.on_rename_logical_volume
    Volumes.on_snapshot_logical_volume Volumes.on_activate_logical_volume_block
emit (create_group w) (volume_group name path) r = Creation.on_create_volume_group w name path r
emit (rename_group w) (volume_group name path) r = Groups.on_rename_volume_group w name path r
emit (create_volume w t) (logical_volume name group path) r =
    Groups.on_create_logical_volume w t name group path r
emit (rename_volume w t) (logical_volume name group path) r =
    Volumes.on_rename_logical_volume w t name group path r
emit (create_snapshot w t) (logical_volume name group path) r =
    Volumes.on_snapshot_logical_volume w t name group path r
emit (activate volume) (logical_volume_block lv path) r =
    Volumes.on_activate_logical_volume_block volume lv path r
emit _ _ r = (waiting, r)

-- The handler is disconnected when the closure is freed.
unfoldable pub on_emitted : Call → Published → State → State
unfolding emit
on_emitted c thing (waiting, r) = emit c thing r
on_emitted c thing (freed, r) = (freed, r)
on_emitted c thing (misused, r) = (misused, r)

unfoldable pub on_done : Call → Bool → Bytes → State → State
unfolding Creation.on_create_complete Groups.on_rename_complete Groups.on_create_complete
    Volumes.on_rename_complete Volumes.on_snapshot_complete Volumes.on_activate_complete
on_done (create_group w) success message s = Creation.on_create_complete success message s
on_done (rename_group w) success message s = Groups.on_rename_complete success message s
on_done (create_volume w t) success message s = Groups.on_create_complete success message s
on_done (rename_volume w t) success message s = Volumes.on_rename_complete success message s
on_done (create_snapshot w t) success message s = Volumes.on_snapshot_complete success message s
on_done (activate volume) success message s = Volumes.on_activate_complete success message s

unfoldable pub handle_call : Call → Event → State → State
unfolding on_emitted on_done
handle_call c (published thing) s = on_emitted c thing s
handle_call c (job_completed success message) s = on_done c success message s

unfoldable pub run_call : Call → List Event → State → State
unfolding handle_call
run_call c [] s = s
run_call c (e ∷ es) s = run_call c es (handle_call c e s)

-- What a call waits for, and the text before the message of its job.
abbrev pub wait_of : Call → Waited
wait_of (create_group w) = group_named w
wait_of (rename_group w) = group_named w
wait_of (create_volume w t) = volume_named w t
wait_of (rename_volume w t) = volume_named w t
wait_of (create_snapshot w t) = volume_named w t
wait_of (activate volume) = block_of volume

abbrev pub prefix_of : Call → Bytes
prefix_of (create_group w) = codes "Error creating volume group: "
prefix_of (rename_group w) = codes "Error renaming volume group: "
prefix_of (create_volume w t) = codes "Error creating logical volume: "
prefix_of (rename_volume w t) = codes "Error renaming logical volume: "
prefix_of (create_snapshot w t) = codes "Error creating snapshot: "
prefix_of (activate volume) = codes "Error activating logical volume: "

emit_as :
    (c : Call) (thing : Published) (r : List Reply)
    → emit c thing r ≡ on_published (wait_of c) (prefix_of c) thing (waiting, r)
unfolding emit on_published matches path_of answered
emit_as (create_group w) (volume_group name path) r = refl
emit_as (create_group w) (logical_volume name group path) r = refl
emit_as (create_group w) (logical_volume_block lv path) r = refl
emit_as (rename_group w) (volume_group name path) r = refl
emit_as (rename_group w) (logical_volume name group path) r = refl
emit_as (rename_group w) (logical_volume_block lv path) r = refl
emit_as (create_volume w t) (volume_group name path) r = refl
emit_as (create_volume w t) (logical_volume name group path) r = refl
emit_as (create_volume w t) (logical_volume_block lv path) r = refl
emit_as (rename_volume w t) (volume_group name path) r = refl
emit_as (rename_volume w t) (logical_volume name group path) r = refl
emit_as (rename_volume w t) (logical_volume_block lv path) r = refl
emit_as (create_snapshot w t) (volume_group name path) r = refl
emit_as (create_snapshot w t) (logical_volume name group path) r = refl
emit_as (create_snapshot w t) (logical_volume_block lv path) r = refl
emit_as (activate volume) (volume_group name path) r = refl
emit_as (activate volume) (logical_volume name group path) r = refl
emit_as (activate volume) (logical_volume_block lv path) r = refl

on_emitted_as :
    (c : Call) (thing : Published) (s : State)
    → on_emitted c thing s ≡ on_published (wait_of c) (prefix_of c) thing s
unfolding on_emitted on_published
on_emitted_as c thing (waiting, r) = unfold on_published in emit_as c thing r
on_emitted_as c thing (freed, r) = refl
on_emitted_as c thing (misused, r) = refl

done_lem :
    (c : Call) (message : Bytes) (s : State)
    → on_done c false message s ≡ give_up (prefix_of c) message s
unfolding on_done Creation.on_create_complete Groups.on_rename_complete Groups.on_create_complete
    Volumes.on_rename_complete Volumes.on_snapshot_complete Volumes.on_activate_complete
done_lem (create_group w) message s = refl
done_lem (rename_group w) message s = refl
done_lem (create_volume w t) message s = refl
done_lem (rename_volume w t) message s = refl
done_lem (create_snapshot w t) message s = refl
done_lem (activate volume) message s = refl

succeeded : (c : Call) (message : Bytes) (s : State) → on_done c true message s ≡ s
unfolding on_done Creation.on_create_complete Groups.on_rename_complete Groups.on_create_complete
    Volumes.on_rename_complete Volumes.on_snapshot_complete Volumes.on_activate_complete
succeeded (create_group w) message s = refl
succeeded (rename_group w) message s = refl
succeeded (create_volume w t) message s = refl
succeeded (rename_volume w t) message s = refl
succeeded (create_snapshot w t) message s = refl
succeeded (activate volume) message s = refl

on_done_as :
    (c : Call) (success : Bool) (message : Bytes) (s : State)
    → on_done c success message s ≡ on_complete (wait_of c) (prefix_of c) success message s
unfolding on_complete give_up
on_done_as c true message s = succeeded c message s
on_done_as c false message (waiting, r) = done_lem c message (waiting, r)
on_done_as c false message (freed, r) = done_lem c message (freed, r)
on_done_as c false message (misused, r) = done_lem c message (misused, r)

handle_call_as :
    (c : Call) (e : Event) (s : State) → handle_call c e s ≡ handle (wait_of c) (prefix_of c) e s
unfolding handle_call handle
handle_call_as c (published thing) s = on_emitted_as c thing s
handle_call_as c (job_completed success message) s = on_done_as c success message s

run_call_as :
    (c : Call) (es : List Event) (s : State) → run_call c es s ≡ run (wait_of c) (prefix_of c) es s
unfolding run_call run
run_call_as c [] s = refl
run_call_as c (e ∷ es) s = ap (run_call c es) (handle_call_as c e s) ∙ run_call_as c es _

-- With the callbacks that its own handler connects, each call that waits for a new object (the creation
-- and the renaming of a group, the creation, the renaming and a snapshot of a volume, and its
-- activation) is answered with the first reply that an event gives rise to, and with no other: the path
-- of the first object of its kind that is published with what the call waits for, unless its job failed
-- before that, and then the text of that call and the message of the job.
pub run_call-answer :
    (c : Call) (es : List Event)
    → (run_call c es (waiting, [])).1 ≡ answer (wait_of c) (prefix_of c) es
run_call-answer c es =
    ap (λ s. s.1) (run_call_as c es (waiting, [])) ∙ run-answer (wait_of c) (prefix_of c) es
