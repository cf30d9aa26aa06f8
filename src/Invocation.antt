-- ===== src/Invocation.antt =====
-- src/invocation.c: the clients of the daemon, and whether a method call is let through.
pub mod Decision
pub mod Clients
pub mod Count
use udisks_lvm.Base.{
  ℕ, ◌-◌, ◌^◌, Bool, true, false, not, ◌&&◌, Option, none, some, List, [], ◌∷◌, ◌++◌, Bytes, codes,
  str_equal, ◌==◌, if◌then◌else◌,
}
use udisks_lvm.Base.Table.{Table, lookup, insert}
use udisks_lvm.Variant.{Dict, lookup_boolean}
use udisks_lvm.Bus.{
  Reply, error, failed, dbus_failed, not_authorized, not_authorized_dismissed,
  not_authorized_can_obtain,
}

-- UID_LOADING, UID_VALID with the uid, UID_FAILED.
pub data UidState : Type 0 where
  uid_loading : UidState
  uid_valid : ℕ → UidState
  uid_failed : UidState

-- `invocation_client_lookup`, asked for the uid. It blocks while the uid is being loaded.
pub data Lookup : Type 0 where
  blocks : Lookup
  caller : ℕ → Lookup
  lookup_error : Reply → Lookup

abbrev pub unknown_caller : Reply
unknown_caller = error dbus_failed (codes "Method call from unknown caller (internal error)")

abbrev pub no_credentials : Reply
no_credentials = error failed (codes "Cannot determine the unix credentials of the calling process")

unfoldable pub lookup_result : Option UidState → Lookup
lookup_result none = lookup_error unknown_caller
lookup_result (some uid_loading) = blocks
lookup_result (some (uid_valid uid)) = caller uid
lookup_result (some uid_failed) = lookup_error no_credentials

unfoldable pub client_lookup : Table UidState → Bytes → Lookup
unfolding lookup_result
client_lookup clients sender = lookup_result (lookup sender clients)

-- `on_get_connection_unix_user`, with the uid or `none` for an error.
unfoldable pub credentials_of : Option ℕ → UidState
credentials_of none = uid_failed
credentials_of (some uid) = uid_valid uid

unfoldable pub set_credentials :
    Option UidState → Bytes → Option ℕ → Table UidState → Table UidState
unfolding credentials_of
set_credentials none bus_name uid clients = clients
set_credentials (some client) bus_name uid clients = insert bus_name (credentials_of uid) clients

unfoldable pub on_get_connection_unix_user : Bytes → Option ℕ → Table UidState → Table UidState
unfolding set_credentials
on_get_connection_unix_user bus_name uid clients =
    set_credentials (lookup bus_name clients) bus_name uid clients

-- The method, as far as its action goes: `Cancel` of a job with the uid that started it, or another
-- with its annotations polkit.action_id and polkit.message.
pub data Method : Type 0 where
  cancel_of_job : ℕ → Method
  method : (action message : Option Bytes) → Method

-- An argument of a call: the name and the signature that the method gives it, and its value where that
-- is a dictionary.
pub record Argument : Type 0 where
  pub name : Bytes
  pub signature : Bytes
  pub value : Dict

pub record Call : Type 0 where
  pub called : Method
  pub in_args : List Argument

-- The action of `lookup_method_action_and_details`, or the default.
unfoldable pub action_id : Method → ℕ → Bytes
action_id (cancel_of_job started_by_uid) uid =
    if uid == started_by_uid
    then codes "org.freedesktop.udisks2.cancel-job"
    else codes "org.freedesktop.udisks2.cancel-job-other-user"
action_id (method (some action) message) uid = action
action_id (method none message) uid = codes "com.redhat.lvm2.manage-lvm"

-- "polkit.message" of the details, of an instance without a property "polkit-details".
unfoldable pub details_message : Method → Option Bytes
details_message (cancel_of_job started_by_uid) =
    some (codes "Authentication is required to cancel a job")
details_message (method action message) = message

abbrev or_before : Option Bool → Bool → Bool
or_before none before = before
or_before (some b) before = b

-- The loop of `lookup_invocation_flags` over the arguments.
unfoldable pub auth_no_user_interaction : List Argument → Bool → Bool
unfolding str_equal
auth_no_user_interaction [] found = found
auth_no_user_interaction (arg ∷ args) found = auth_no_user_interaction args (
    if str_equal arg.name (codes "options") && str_equal arg.signature (codes "a{sv}")
    then or_before (lookup_boolean arg.value "auth.no_user_interaction") found
    else found)

-- Whether POLKIT_CHECK_AUTHORIZATION_FLAGS_ALLOW_USER_INTERACTION is returned.
unfoldable pub lookup_invocation_flags : List Argument → Bool
unfolding auth_no_user_interaction
lookup_invocation_flags in_args = not (auth_no_user_interaction in_args false)

-- polkit_authority_check_authorization_sync: an error that is of polkit or not, or a result with
-- is_authorized, dismissed and is_challenge.
pub data PolkitAnswer : Type 0 where
  polkit_error : Bytes → PolkitAnswer
  other_error : PolkitAnswer
  result : Bool → Bool → Bool → PolkitAnswer

-- What the handler returns, and what it answers the caller.
abbrev pub Verdict : Type 0
Verdict = Bool × List Reply

unfoldable pub authorize_without_polkit : ℕ → Verdict
authorize_without_polkit uid = if uid == 0 then (true, []) else (
  false,
  error not_authorized (
        codes
          "Not authorized to perform operation (polkit authority not available and caller is not uid 0)")
      ∷ [],
)

unfoldable pub polkit_verdict : ℕ → PolkitAnswer → Verdict
unfolding authorize_without_polkit
polkit_verdict uid (polkit_error message) =
    (false, error failed (codes "Error checking authorization: " ++ message) ∷ [])
polkit_verdict uid other_error = authorize_without_polkit uid
polkit_verdict uid (result true dismissed is_challenge) = (true, [])
polkit_verdict uid (result false true is_challenge) =
    (false, error not_authorized_dismissed (codes "The authentication dialog was dismissed") ∷ [])
polkit_verdict uid (result false false is_challenge) = (
  false,
  error (if is_challenge then not_authorized_can_obtain else not_authorized)
        (codes "Not authorized to perform operation")
      ∷ [],
)

-- The polkit authority, if there is one: its answer to the subject, the action, the message, and whether
-- it may ask the user.
abbrev pub Authority : Type 0
Authority = Option (Bytes → Bytes → Option Bytes → Bool → PolkitAnswer)

-- How a call is handled: it blocks; it is decided; or, behind these answers, a variable that nothing has
-- set is followed.
pub data Handled : Type 0 where
  blocked : Handled
  decided : Verdict → Handled
  undefined : List Reply → Handled

-- Without an authority the jump to `out` clears `result`, which has not been set. With one,
-- g_object_unref may get NULL for the details, which it answers with a critical message only (it ends
-- the program in debug mode, which is not followed here).
unfoldable pub with_authority : Authority → Bytes → Call → ℕ → Handled
unfolding authorize_without_polkit polkit_verdict action_id details_message lookup_invocation_flags
with_authority none sender m uid = undefined (authorize_without_polkit uid).1
with_authority (some check) sender m uid = decided (
    polkit_verdict uid (
      check sender (action_id m.called uid) (details_message m.called)
        (lookup_invocation_flags m.in_args)))

unfoldable pub verdict : Lookup → Authority → Bytes → Call → Handled
unfolding with_authority
verdict blocks authority sender m = blocked
verdict (lookup_error reply) authority sender m = decided (true, reply ∷ [])
verdict (caller uid) authority sender m = with_authority authority sender m uid

-- `on_authorize_method`. Behind TRUE the method is called.
unfoldable pub on_authorize_method : Table UidState → Authority → Bytes → Call → Handled
unfolding verdict
on_authorize_method clients authority sender m =
    verdict (client_lookup clients sender) authority sender m

-- `ul_invocation_get_caller_uid`; G_MAXUINT if the credentials cannot be determined, `none` where it
-- aborts or blocks.
unfoldable pub caller_uid : Option UidState → Option ℕ
caller_uid none = none
caller_uid (some uid_loading) = none
caller_uid (some (uid_valid uid)) = some uid
caller_uid (some uid_failed) = some (2 ^ 32 - 1)

unfoldable pub get_caller_uid : Table UidState → Bytes → Option ℕ
unfolding caller_uid
get_caller_uid clients sender = caller_uid (lookup sender clients)
