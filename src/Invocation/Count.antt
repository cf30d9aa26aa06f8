-- ===== src/Invocation/Count.antt =====
-- src/invocation.c and src/daemon.c: the daemon counts its clients right, so its assertion that there is
-- one when one goes away does not fail.
use udisks_lvm.Base.{
  ℕ, zero, suc, ◌++◌, ◌+◌, ◌-◌, ltb, true, Option, none, some, List, [], ◌∷◌, Bytes, length, ◌≡◌,
  refl, sym, ap, ◌∙◌, arith,
}
use udisks_lvm.Base.Table.{Table, lookup, steal}
use udisks_lvm.Base.Table.Sizes.{length-insert_new, length-insert_old, length-steal}
use udisks_lvm.Daemon.Lifecycle.{
  Daemon, maybe_finished, release_name, on_client_appeared, on_client_disappeared,
}
use udisks_lvm.Invocation.{
  UidState, uid_loading, on_get_connection_unix_user, set_credentials, credentials_of,
}
use udisks_lvm.Invocation.Clients.{
  Callback, client_appeared, client_disappeared, State, client_vanished, on_client_vanished,
  client_create, invocation_client_create, Message, outgoing, other, method_call,
  on_connection_filter, with_daemon, main_loop, Event, message, credentials, vanished, main_runs,
  handle, run,
}

-- What the count is when these callbacks have run; `none` if it would fall below 0.
unfoldable pub count_after : ℕ → List Callback → Option ℕ
count_after n [] = some n
count_after n (client_appeared ∷ cs) = count_after (n + 1) cs
count_after zero (client_disappeared ∷ cs) = none
count_after (suc n) (client_disappeared ∷ cs) = count_after n cs

-- When the callbacks that are to run have run, the count is the number of clients in the table.
abbrev pub Counted : State → Type 0
Counted s = count_after s.daemon.num_clients s.invoked ≡ some (length s.clients)

count_after-appeared :
    (n m : ℕ) (cs : List Callback)
    → count_after n cs ≡ some m
    → count_after n (cs ++ client_appeared ∷ []) ≡ some (m + 1)
unfolding count_after
count_after-appeared n m [] e = ground (arith, e)
count_after-appeared n m (client_appeared ∷ cs) e = count_after-appeared (n + 1) m cs e
count_after-appeared zero m (client_disappeared ∷ cs) e = cc
count_after-appeared (suc n) m (client_disappeared ∷ cs) e = count_after-appeared n m cs e

count_after-disappeared :
    (n m : ℕ) (cs : List Callback)
    → count_after n cs ≡ some (suc m)
    → count_after n (cs ++ client_disappeared ∷ []) ≡ some m
unfolding count_after
count_after-disappeared zero m [] e = ground (arith, e)
count_after-disappeared (suc n) m [] e = ground (arith, e)
count_after-disappeared n m (client_appeared ∷ cs) e = count_after-disappeared (n + 1) m cs e
count_after-disappeared zero m (client_disappeared ∷ cs) e = cc
count_after-disappeared (suc n) m (client_disappeared ∷ cs) e = count_after-disappeared n m cs e

maybe_finished-num_clients : (d : Daemon) → (maybe_finished d).num_clients ≡ d.num_clients
unfolding maybe_finished
maybe_finished-num_clients d = ground arith

release_name-num_clients : (d : Daemon) → (release_name d).num_clients ≡ d.num_clients
unfolding release_name
release_name-num_clients d = ground arith

disappeared :
    (d : Daemon) (n : ℕ)
    → d.num_clients ≡ n + 1
    → (d' : Daemon) × (on_client_disappeared d ≡ some d') × (d'.num_clients ≡ n)
disappeared d n e =
    let less = record d { num_clients = d.num_clients - 1 } in
    let positive : ltb 0 d.num_clients ≡ true = ground (arith, e) in
    (
      maybe_finished (release_name less),
      unfold on_client_disappeared in rw positive refl,
      maybe_finished-num_clients (release_name less)
          ∙ release_name-num_clients less
          ∙ omega (arith, e),
    )

abbrev Survives : Option State → Type 0
Survives o = (s : State) × (o ≡ some s) × Counted s

create-Counted :
    (found : Option UidState) (name : Bytes) (s : State)
    → lookup name s.clients ≡ found
    → Counted s
    → Counted (client_create found name s)
unfolding client_create
create-Counted none name s e c =
    count_after-appeared s.daemon.num_clients (length s.clients) s.invoked c
    ∙ ap some (sym (length-insert_new name uid_loading s.clients e ∙ omega arith))
create-Counted (some client) name s e c = c

credentials-length :
    (found : Option UidState) (name : Bytes) (uid : Option ℕ) (m : Table UidState)
    → lookup name m ≡ found
    → length (set_credentials found name uid m) ≡ length m
credentials-length none name uid m e = unfold set_credentials in refl
credentials-length (some client) name uid m e =
    unfold set_credentials in length-insert_old name (credentials_of uid) client m e

vanish-Counted :
    (found : Option UidState) (name : Bytes) (s : State)
    → lookup name s.clients ≡ found
    → Counted s
    → Counted (client_vanished found name s)
unfolding client_vanished
vanish-Counted none name s e c = c
vanish-Counted (some client) name s e c =
    count_after-disappeared s.daemon.num_clients (length (steal name s.clients)) s.invoked
      (c ∙ ap some (length-steal name client s.clients e ∙ omega arith))

counted :
    (n m : ℕ) (cs : List Callback)
    → count_after n (client_disappeared ∷ cs) ≡ some m
    → (k : ℕ) × (n ≡ k + 1) × (count_after k cs ≡ some m)
unfolding count_after
counted zero m cs e = cc
counted (suc n) m cs e = (n, omega arith, e)

invoked-Counted :
    (cs : List Callback) (s : State) → s.invoked ≡ cs → Counted s → Survives (main_loop cs s)
invoked-Counted [] s e c = unfold main_loop in (s, refl, c)
invoked-Counted (client_appeared ∷ cs) s e c =
    let c' : count_after s.daemon.num_clients (client_appeared ∷ cs) ≡ some (length s.clients) =
      ap (count_after s.daemon.num_clients) (sym e) ∙ c in
    unfold main_loop on_client_appeared count_after in (_, refl, c')
invoked-Counted (client_disappeared ∷ cs) s e c =
    let (n, one, rest) =
      counted s.daemon.num_clients (length s.clients) cs
        (ap (count_after s.daemon.num_clients) (sym e) ∙ c) in
    let (d, e1, e2) = disappeared s.daemon n one in
    (
      record s { invoked = cs; daemon = d },
      unfold main_loop in ap (with_daemon (record s { invoked = cs })) e1,
      ap (λ k. count_after k cs) e2 ∙ rest,
    )

filter-Counted : (m : Message) (s : State) → Counted s → Counted (on_connection_filter m s).1
unfolding on_connection_filter invocation_client_create
filter-Counted outgoing s c = c
filter-Counted other s c = c
filter-Counted (method_call none) s c = c
filter-Counted (method_call (some name)) s c = create-Counted (lookup name s.clients) name s refl c

handle-Counted : (e : Event) (s : State) → Counted s → Survives (handle e s)
unfolding handle on_get_connection_unix_user on_client_vanished
handle-Counted (message m) s c = (_, refl, filter-Counted m s c)
handle-Counted (credentials name uid) s c = (
  _,
  refl,
  c ∙ ap some (sym (credentials-length (lookup name s.clients) name uid s.clients refl)),
)
handle-Counted (vanished name) s c = (_, refl, vanish-Counted (lookup name s.clients) name s refl c)
handle-Counted main_runs s c = invoked-Counted s.invoked s refl c

-- Whatever messages pass, clients get their credentials and vanish, and whenever the main loop
-- runs the callbacks for them: the assertion of the daemon that it has a client when one goes away never fails, and when the callbacks
-- that are to run have run, its count is the number of clients in the table.
pub run-Counted :
    (es : List Event) (s : State)
    → Counted s
    → (s' : State) × (run es (some s) ≡ some s') × Counted s'
unfolding run
run-Counted [] s c = (s, refl, c)
run-Counted (e ∷ es) s c =
    let (s1, e1, c1) = handle-Counted e s c in
    let (s2, e2, c2) = run-Counted es s1 c1 in (s2, ap (run es) e1 ∙ e2, c2)
