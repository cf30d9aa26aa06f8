-- ===== src/Invocation/Decision.antt =====
-- src/invocation.c: which method calls are let through.
use udisks_lvm.Base.{
  ℕ, Bool, true, false, not, ◌&&◌, Option, none, some, List, [], ◌∷◌, ◌++◌, Bytes, codes, str_equal,
  ◌≡◌, ◌≢◌, ◌⊎◌, All, if◌then◌else◌,
}
use udisks_lvm.Base.Table.{Table}
use udisks_lvm.Bus.{ErrorCode, error, failed, dbus_failed, not_authorized}
use udisks_lvm.Invocation.{
  UidState, uid_loading, uid_valid, uid_failed, Method, cancel_of_job, method, Argument, Call,
  or_before, PolkitAnswer, polkit_error, other_error, result, Verdict, Handled, blocked, decided,
  undefined, Authority,
}
use udisks_lvm.Variant.{lookup_boolean}

-- The action that polkit is asked for.
abbrev pub IsAction : Method → ℕ → Bytes → Type 0
IsAction (cancel_of_job started_by_uid) uid action =
    ((uid ≡ started_by_uid) × (action ≡ codes "org.freedesktop.udisks2.cancel-job"))
    ⊎ ((uid ≢ started_by_uid) × (action ≡ codes "org.freedesktop.udisks2.cancel-job-other-user"))
IsAction (method (some annotated) message) uid action = action ≡ annotated
IsAction (method none message) uid action = action ≡ codes "com.redhat.lvm2.manage-lvm"

-- The message that it shows.
abbrev pub IsMessage : Method → Option Bytes → Type 0
IsMessage (cancel_of_job started_by_uid) message =
    message ≡ some (codes "Authentication is required to cancel a job")
IsMessage (method action annotated) message = message ≡ annotated

-- The argument is a dictionary of options that says whether the user must not be asked.
abbrev pub Says : Argument → Bool → Type 0
Says arg b =
    (arg.name ≡ codes "options")
    × (arg.signature ≡ codes "a{sv}")
    × (lookup_boolean arg.value "auth.no_user_interaction" ≡ some b)

abbrev pub Silent : Argument → Type 0
Silent arg = (b : Bool) → Says arg b → ⊥

-- The last of the arguments that says so has said `b`.
abbrev pub SaidLast : List Argument → Bool → Type 0
SaidLast args b =
    (before : List Argument) × (arg : Argument) × (after : List Argument) × (args
      ≡ before ++ arg ∷ after)
    × Says arg b
    × All Silent after

-- The user may be asked, unless the last argument that says something says not.
abbrev pub MayAsk : List Argument → Bool → Type 0
MayAsk args interaction =
    (All Silent args × (interaction ≡ true))
    ⊎ ((b : Bool) × SaidLast args b × (interaction ≡ not b))

module _ (arg : Argument) (found : Bool) where
  abbrev now : Bool
  now =
      if str_equal arg.name (codes "options") && str_equal arg.signature (codes "a{sv}")
      then or_before (lookup_boolean arg.value "auth.no_user_interaction") found
      else found

-- Polkit authorizes the caller, or polkit is not there and the caller is root.
abbrev pub Accepts : PolkitAnswer → ℕ → Type 0
Accepts (polkit_error message) uid = ⊥
Accepts other_error uid = uid ≡ 0
Accepts (result is_authorized dismissed is_challenge) uid = is_authorized ≡ true

-- A verdict lets the call through without an answer, or refuses it with one error.
abbrev pub Fair : Type 0 → Verdict → Type 0
Fair P v =
    (P × (v ≡ (true, [])))
    ⊎ ((¬ P) × (code : ErrorCode) × (message : Bytes) × (v ≡ (false, error code message ∷ [])))

-- What is made of a call of a client with a uid.
abbrev pub Judged : Authority → Bytes → Call → ℕ → Handled → Type 0
Judged none sender m uid handled =
    ((uid ≡ 0) × (handled ≡ undefined []))
    ⊎ ((uid ≢ 0) × ((message : Bytes) × (handled ≡ undefined (error not_authorized message ∷ []))))
Judged (some check) sender m uid handled =
    (action : Bytes) × (message : Option Bytes) × (interaction : Bool) × (v : Verdict) × IsAction
      m.called uid action
    × IsMessage m.called message
    × MayAsk m.in_args interaction
    × Fair (Accepts (check sender action message interaction) uid) v
    × (handled ≡ decided v)

-- What is made of a call, by what the table has of its client.
abbrev pub Treated : Authority → Bytes → Call → Option UidState → Handled → Type 0
Treated authority sender m none handled =
    (message : Bytes) × (handled ≡ decided (true, error dbus_failed message ∷ []))
Treated authority sender m (some uid_failed) handled =
    (message : Bytes) × (handled ≡ decided (true, error failed message ∷ []))
Treated authority sender m (some uid_loading) handled = handled ≡ blocked
Treated authority sender m (some (uid_valid uid)) handled = Judged authority sender m uid handled
