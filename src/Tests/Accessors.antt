-- ===== src/Tests/Accessors.antt =====
-- Objects of GLib, at concrete inputs.
use udisks_lvm.Accessors.{done, set_properties}
use udisks_lvm.Accessors.Classes.{class_of, spawned_job}
use udisks_lvm.Accessors.Construct.{class_of-Constructed}
use udisks_lvm.Accessors.Construct.Fields.{Absent}
use udisks_lvm.Accessors.Construct.Instances.{fields_of}
use udisks_lvm.Accessors.Jobs.{
  SpawnedProp, SpawnedObject, argv, input_string, run_as_uid, run_as_euid, cancellable,
}
use udisks_lvm.Accessors.Jobs as Jobs
use udisks_lvm.Accessors.New.{spawned_values}
use udisks_lvm.Base.{ℕ, Option, none, some, List, [], ◌∷◌, Bytes, codes, All, ◌≡◌}

abbrev path_of : ℕ → Option Bytes
path_of address = none

abbrev order : List SpawnedProp
order = Jobs.SpawnedProp.of_job cancellable ∷ run_as_euid ∷ argv ∷ input_string ∷ run_as_uid ∷ []

abbrev values : (p : SpawnedProp) → Jobs.SpawnedValue p
values = spawned_values (codes "lvs" ∷ []) none 0 0 (some 5)

set_properties-constructed_example :
    let c = class_of 3 path_of spawned_job in
    let f = fields_of 3 path_of spawned_job in
    (s : SpawnedObject) × (set_properties c order values c.init ≡ done s)
    × All (λ p. f.slot p s ≡ values p) order
    × ((q : SpawnedProp) → Absent q order → f.slot q s ≡ f.slot q c.init)
set_properties-constructed_example =
    class_of-Constructed 3 path_of spawned_job order values
      (
        (λ e. cc, (λ e. cc, (λ e. cc, (λ e. cc, tt)))),
        (
          (λ e. cc, (λ e. cc, (λ e. cc, tt))),
          ((λ e. cc, (λ e. cc, tt)), ((λ e. cc, tt), (tt, tt))),
        ),
      )
      (tt, (tt, (tt, (tt, (tt, tt)))))
