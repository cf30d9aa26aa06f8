-- ===== src/Tests/Programs.antt =====
-- The main program.
use udisks_lvm.Base.{ℕ, true, false, Option, some, List, [], ◌∷◌, ◌++◌, ◌≡◌, refl}
use udisks_lvm.Daemon.Lifecycle.{
  is_idle, maybe_finished, on_name_acquired, on_client_appeared, release_name,
  on_client_disappeared,
}
use udisks_lvm.Main.{
  State, Event, bus_acquired, changes, name_acquired, client_appears, client_disappears, main,
  main_loop_run, loop_result, returns, first_state, iterate, handle, on_change, change, changed,
  new_daemon,
}
use udisks_lvm.Main.Ending.{main-Ends, Quits, events_of}

-- The last client of the daemon goes away, and in the same iteration another one comes.
abbrev visits : List (List Event)
visits =
    (bus_acquired 3 ∷ [])
    ∷ (changes name_acquired ∷ changes client_appears ∷ [])
    ∷ (changes client_disappears ∷ changes client_appears ∷ [])
    ∷ (changes client_disappears ∷ [])
    ∷ []

abbrev last_state : State
last_state = record {
  daemon = some (record {
    persist = false;
    name_owner_id = 0;
    name_owned = false;
    num_clients = 1;
    num_jobs = 0;
    finished = 1;
  });
  quit = true;
}

visited : main true true false visits ≡ returns 0 (some last_state)
unfolding main main_loop_run loop_result iterate handle on_change change changed new_daemon is_idle
    maybe_finished on_name_acquired on_client_appeared release_name on_client_disappeared
visited = refl

main-Ends_example :
    (s : State) × (◌≡◌ {A = ℕ} 0 0)
    × (◌≡◌ {A = Option State} (some last_state) (some s))
    × ((es : List Event) × (rest : List Event) × (events_of visits ≡ es ++ rest)
        × Quits false es first_state s)
main-Ends_example =
    main-Ends false visits 0 (some last_state)
      ((tt, tt), ((tt, (tt, tt)), ((tt, (tt, tt)), ((tt, tt), tt)))) visited
