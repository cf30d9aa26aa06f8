-- ===== src/Accessors/Construct.antt =====
-- src/daemon.c, src/block.c, src/volumegroup.c, src/logicalvolume.c, src/spawnedjob.c and
-- src/threadedjob.c: what an object is behind `..._new`, in whatever order GLib sets its properties.
pub mod Fields
pub mod Objects
pub mod Jobs
pub mod Instances
use udisks_lvm.Accessors.{Outcome, done, Class, set_properties}
use udisks_lvm.Accessors.Classes.{Kind, class_of}
use udisks_lvm.Accessors.Construct.Fields.{Absent, Distinct, set_properties-Constructed}
use udisks_lvm.Accessors.Construct.Instances.{fields_of}
use udisks_lvm.Base.{ℕ, Option, List, [], ◌∷◌, Bytes, All, ◌≡◌, refl}

-- Each property that is set has its value behind it, and each other has the value that it had: no
-- property is without a case and no assertion fails, if each is set once and its value is allowed. It
-- is not NULL for a block; "volume-group", "object-manager" and "auto-estimate" are not set.
pub class_of-Constructed :
    (id : ℕ) (path_of : ℕ → Option Bytes) (k : Kind)
    → let c = class_of id path_of k in
      let f = fields_of id path_of k in
      (order : List c.Prop) (values : (p : c.Prop) → c.Value p)
      → Distinct order
      → All (λ p. f.Allowed p (values p)) order
      → (s : c.Self) × (set_properties c order values c.init ≡ done s)
        × All (λ p. f.slot p s ≡ values p) order
        × ((q : c.Prop) → Absent q order → f.slot q s ≡ f.slot q c.init)
class_of-Constructed id path_of k order values distinct allowed =
    set_properties-Constructed (class_of id path_of k) (fields_of id path_of k) order values
      distinct allowed
