-- ===== src/Invocation/Clients.antt =====
-- src/invocation.c and src/daemon.c: the table of clients, and the count that the daemon keeps of them.
-- The table is changed in the thread of the connection, which has the main loop run the callbacks that
-- count, in their order but at a later time.
use udisks_lvm.Base.{ℕ, Bool, true, false, Option, none, some, List, [], ◌∷◌, ◌++◌, Bytes}
use udisks_lvm.Base.Table.{Table, lookup, insert, steal}
use udisks_lvm.Daemon.Lifecycle.{Daemon, on_client_appeared, on_client_disappeared}
use udisks_lvm.Invocation.{UidState, uid_loading, on_get_connection_unix_user}

-- What g_main_context_invoke_full is called with.
pub data Callback : Type 0 where
  client_appeared client_disappeared : Callback

pub record State : Type 0 where
  pub clients : Table UidState
  -- the callbacks that the main loop is to run, the next first
  pub invoked : List Callback
  pub daemon : Daemon

unfoldable pub client_vanished : Option UidState → Bytes → State → State
client_vanished none name s = s
client_vanished (some client) name s = record s {
  clients = steal name s.clients;
  invoked = s.invoked ++ client_disappeared ∷ [];
}

-- `on_client_vanished`
unfoldable pub on_client_vanished : Bytes → State → State
unfolding client_vanished
on_client_vanished name s = client_vanished (lookup name s.clients) name s

unfoldable pub client_create : Option UidState → Bytes → State → State
client_create none bus_name s = record s {
  clients = insert bus_name uid_loading s.clients;
  invoked = s.invoked ++ client_appeared ∷ [];
}
client_create (some client) bus_name s = s

-- `invocation_client_create`. It looks the client up a second time behind the calls that it starts, in
-- one thread, so with the same result.
unfoldable pub invocation_client_create : Bytes → State → State
unfolding client_create
invocation_client_create bus_name s = client_create (lookup bus_name s.clients) bus_name s

-- A message, with its sender if it comes in and is a method call.
pub data Message : Type 0 where
  outgoing other : Message
  method_call : Option Bytes → Message

-- `on_connection_filter`: whether the message is passed on, and the state.
unfoldable pub on_connection_filter : Message → State → Bool × State
unfolding invocation_client_create
on_connection_filter outgoing s = (true, s)
on_connection_filter other s = (true, s)
on_connection_filter (method_call none) s = (false, s)
on_connection_filter (method_call (some sender)) s = (true, invocation_client_create sender s)

-- `on_invoke_client_appeared` and `on_invoke_client_disappeared`; `none` where an assertion of the
-- daemon fails.
unfoldable pub invoke : Callback → Daemon → Option Daemon
invoke client_appeared d = some (on_client_appeared d)
invoke client_disappeared d = on_client_disappeared d

abbrev pub with_daemon : State → Option Daemon → Option State
with_daemon s none = none
with_daemon s (some d) = some (record s { daemon = d })

unfoldable pub main_loop : List Callback → State → Option State
unfolding invoke
main_loop [] s = some s
main_loop (c ∷ cs) s = with_daemon (record s { invoked = cs }) (invoke c s.daemon)

pub data Event : Type 0 where
  message : Message → Event
  credentials : Bytes → Option ℕ → Event
  vanished : Bytes → Event
  -- the main loop runs the next callback
  main_runs : Event

unfoldable pub handle : Event → State → Option State
unfolding on_client_vanished on_connection_filter main_loop
handle (message m) s = some (on_connection_filter m s).1
handle (credentials name uid) s =
    some (record s { clients = on_get_connection_unix_user name uid s.clients })
handle (vanished name) s = some (on_client_vanished name s)
handle main_runs s = main_loop s.invoked s

unfoldable pub run : List Event → Option State → Option State
run [] o = o
run (e ∷ es) none = none
run (e ∷ es) (some s) = run es (handle e s)
