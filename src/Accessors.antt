-- ===== src/Accessors.antt =====
-- The properties that the classes of the program install in GLib: src/daemon.c, src/block.c,
-- src/volumegroup.c, src/logicalvolume.c, src/job.c, src/spawnedjob.c and src/threadedjob.c, the
-- functions `..._set_property`, `..._get_property`, `..._class_init`, `..._init` and `..._new`. The
-- type of a property is that of its values, so an accessor cannot read a value as another type.
pub mod Jobs
pub mod Objects
pub mod Classes
pub mod Agree
pub mod Construct
pub mod New
use udisks_lvm.Base.{Bool, true, false, Option, none, some, List, [], ◌∷◌, ◌≡◌}

-- The flags G_PARAM_READABLE, G_PARAM_WRITABLE and G_PARAM_CONSTRUCT_ONLY.
pub record Flags : Type 0 where
  pub readable : Bool
  pub writable : Bool
  pub construct_only : Bool

abbrev pub read_only : Flags
read_only = record { readable = true; writable = false; construct_only = false }

abbrev pub read_write : Flags
read_write = record { readable = true; writable = true; construct_only = false }

abbrev pub write_once : Flags
write_once = record { readable = false; writable = true; construct_only = true }

abbrev pub read_write_once : Flags
read_write_once = record { readable = true; writable = true; construct_only = true }

-- `set_property` returns, or warns of a property that it has no case for, or an assertion fails.
pub data Outcome (S : Type 0) : Type 0 where
  done : S → Outcome S
  warned : Outcome S
  aborted : Outcome S

-- `g_assert (field == NULL)`, and then the field gets the value.
unfoldable pub set_once : {V S : Type 0} → Option V → S → Outcome S
set_once none s = done s
set_once (some old) s = aborted

abbrev pub then_set : {S : Type 0} → Outcome S → (S → Outcome S) → Outcome S
then_set (done s) f = f s
then_set warned f = warned
then_set aborted f = aborted

pub record Class : Type 1 where
  -- the object, its properties, and what the GValue of each holds
  pub Self : Type 0
  pub Prop : Type 0
  pub Value : Prop → Type 0
  -- `class_init`
  pub flags : Prop → Flags
  -- the object behind `init`
  pub init : Self
  pub set_property : (p : Prop) → Value p → Self → Outcome Self
  -- `none` where it warns
  pub get_property : (p : Prop) → Self → Option (Value p)

-- What g_object_new does with the properties that it sets, in its order, before `constructed`.
module _ (c : Class) where
  open c use {Self, Prop, Value, init, set_property}

  unfoldable pub set_properties : List Prop → ((p : Prop) → Value p) → Self → Outcome Self
  set_properties [] values s = done s
  set_properties (p ∷ ps) values s =
      then_set (set_property p (values p) s) (set_properties ps values)
