-- ===== src/Util/Error.antt =====
-- The errors of GLib, as the jobs report them.
use udisks_lvm.Base.{ℕ, Bool, ◌++◌, Bytes, codes, decimal}

-- The message of a `GError`, its domain as g_quark_to_string gives it, and its code.
pub record GError : Type 0 where
  pub message : Bytes
  pub domain : Bytes
  pub code : ℕ

-- What "%s (%s, %d)" makes of the message, the domain and the code.
unfoldable pub describe : GError → Bytes
describe e =
    e.message ++ (codes " (" ++ (e.domain ++ (codes ", " ++ (decimal e.code ++ codes ")"))))

-- What the "completed" signal of org.freedesktop.UDisks2.Job is emitted with: success, message.
pub data Completed : Type 0 where
  completed : (success : Bool) (message : Bytes) → Completed
