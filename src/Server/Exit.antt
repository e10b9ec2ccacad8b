-- ===== src/Server/Exit.antt =====
-- main: Initialize on every branch, and the sockets behind Cleanup.
use game_database_server.Prelude.{
  ◌&&◌, String, ℕ, ◌≡◌, refl, sym, ap, ◌∙◌, Bool, true, false, not, List, [], ◌∷◌, Option, none,
  some, if◌then◌else◌,
}
use game_database_server.Platform.{Platform}
use game_database_server.Action.{World, Outcome, ok, thrown, crash}
use game_database_server.Database.Session.{connect_db}
use game_database_server.Database.Session.Connecting.{connect_db-Returns}
use game_database_server.Database.Status.{new_database_thread}
use game_database_server.Worker.Ledger.{times}
use game_database_server.Server.Loop.{Server, stop_server, ServerEvent}
use game_database_server.Server.Start.{
  Startup, close_server_sock, finish_initialize, with_socket, initialize,
}
use game_database_server.Server.Lifetime.{accepted_over, AllAnswers}
use game_database_server.Server.Lifetime.{Balanced, stop_server-Balanced}
use game_database_server.Server.Destruction.{run_server-Serves, destroy_server-closes}
use game_database_server.Server.Main.{new_server, destroy_instance, finish_main, main}

-- Initialize returned and the server runs, or it threw and the server does not.
abbrev pub Began : Bool → Outcome (Unit {0}) × Server → Type 0
Began true x = (x.0 ≡ ok tt) × Balanced true [] x.1
Began false x = (what : String) × (x.0 ≡ thrown what) × Balanced false [] x.1

abbrev pub is_some : Option ℕ → Bool
is_some none = false
is_some (some s) = true

abbrev pub worked : Outcome Bool → Bool
worked (ok b) = b
worked _ = false

-- Every call of Winsock and ConnectDB have worked.
abbrev pub starts_up : Startup → Outcome Bool → Bool
starts_up startup result =
    startup.starts
    && (is_some startup.socket && (startup.binds && (startup.listens && worked result)))

-- A server without workers that has closed nothing.
fresh-Balanced :
    (running : Bool) (v : Server)
    → v.worker_threads ≡ []
    → v.closed ≡ []
    → v.is_running ≡ running
    → Balanced running [] v
fresh-Balanced running v workers closed on = record {
  at_workers = λ s. 0;
  shared = rw workers (λ s. refl);
  total = λ s. rw closed refl;
  running_as = on;
}

finish_initialize-Began :
    (s : ℕ) (v : Server) (x : Outcome Bool × World)
    → v.worker_threads ≡ []
    → v.closed ≡ []
    → v.is_running ≡ false
    → ((b : Bool) × (x.0 ≡ ok b))
    → Began (worked x.0) (finish_initialize s v x)
finish_initialize-Began s v (ok true, w) workers closed off returned =
    (refl, fresh-Balanced true _ workers closed refl)
finish_initialize-Began s v (ok false, w) workers closed off returned =
    (_, refl, fresh-Balanced false _ workers closed off)
finish_initialize-Began s v (thrown what, w) workers closed off (b, e) = absurd cc
finish_initialize-Began s v (crash, w) workers closed off (b, e) = absurd cc

-- An early throw where a call has not worked.
Began-guard :
    (b d : Bool) (x y : Outcome (Unit {0}) × Server)
    → Began false x
    → Began d y
    → Began (b && d) (if not b then x else y)
Began-guard true d x y h k = k
Began-guard false d x y h k = h

threw : (what : String) (v : Server) → Balanced false [] v → Began false (thrown what, v)
threw what v h = (what, refl, h)

module _ ⦃p : Platform⦄ where
  with_socket-Began :
      (startup : Startup) (sock : Option ℕ) (v : Server)
      → v.worker_threads ≡ []
      → v.closed ≡ []
      → v.is_running ≡ false
      → Began
          (is_some sock && (startup.binds && (startup.listens && worked (connect_db v.world).0)))
          (with_socket startup sock v)
  with_socket-Began startup none v workers closed off =
      threw _ _ (fresh-Balanced false _ workers closed off)
  with_socket-Began startup (some s) v workers closed off =
      let opened : Server = record v { server_sock = some s } in
      let failed = fresh-Balanced false (close_server_sock s opened) workers closed off in
      Began-guard startup.binds _ _ _ (threw _ _ failed) (
        Began-guard startup.listens _ _ _ (threw _ _ failed) (
          finish_initialize-Began s opened (connect_db v.world) workers closed off
            (connect_db-Returns.at v.world)))

  initialize-Began :
      (startup : Startup) (v : Server)
      → v.worker_threads ≡ []
      → v.closed ≡ []
      → v.is_running ≡ false
      → Began (starts_up startup (connect_db v.world).0) (initialize startup v)
  unfolding initialize
  initialize-Began startup v workers closed off =
      Began-guard startup.starts _ _ _ (threw _ v (fresh-Balanced false v workers closed off))
        (with_socket-Began startup startup.socket v workers closed off)

-- A server that does not run accepts nothing.
accepted-none : (events : List ServerEvent) → accepted_over false events [] ≡ []
accepted-none [] = refl
accepted-none (ServerEvent.accepting r ∷ events) = accepted-none events
accepted-none (ServerEvent.serving i select receives ∷ events) = accepted-none events
accepted-none (ServerEvent.cleaning ∷ events) = accepted-none events
accepted-none (ServerEvent.stopping ∷ events) = accepted-none events
accepted-none (ServerEvent.responding results ∷ events) = accepted-none events
accepted-none (ServerEvent.database w ∷ events) = accepted-none events

-- main has returned, 0 where the server began, with the sockets accepted meanwhile closed.
abbrev pub Exits : Bool → List ServerEvent → Outcome Bool × Option Server → Type 0
Exits began events x =
    (u : Server) × (x.0 ≡ ok began)
    × (x.1 ≡ some u)
    × (u.worker_threads ≡ [])
    × ((s : ℕ) → times s u.closed ≡ times s (accepted_over began events []))

module _ ⦃p : Platform⦄ where
  destroy_instance-closes :
      {running : Bool} {accepted : List ℕ} (v : Server)
      → Balanced running accepted v
      → (u : Server) × (destroy_instance v ≡ some u)
        × (u.worker_threads ≡ [])
        × ((s : ℕ) → times s u.closed ≡ times s accepted)
  unfolding destroy_instance
  destroy_instance-closes v h = destroy_server-closes (stop_server v) (stop_server-Balanced v h)

  finish_main-Exits :
      (began : Bool) (events : List ServerEvent) (x : Outcome (Unit {0}) × Server)
      → AllAnswers events
      → Began began x
      → Exits began events (finish_main events x)
  finish_main-Exits true events (ok u, v) enough (e, h) =
      let (running, (w, ran, k)) = run_server-Serves true [] events v enough h in
      let (u, destroyed, none_left, closed) = destroy_instance-closes w k in
      (u, refl, rw ran destroyed, none_left, closed)
  finish_main-Exits true events (thrown what, v) enough (e, h) = absurd cc
  finish_main-Exits true events (crash, v) enough (e, h) = absurd cc
  finish_main-Exits false events (ok u, v) enough (what, e, h) = absurd cc
  finish_main-Exits false events (thrown text, v) enough (what, e, h) =
      let (u, destroyed, none_left, closed) = destroy_instance-closes v h in
      (u, refl, destroyed, none_left, λ s. closed s ∙ ap (times s) (sym (accepted-none events)))
  finish_main-Exits false events (crash, v) enough (what, e, h) = absurd cc

  -- Whatever Winsock and the database answer when the server starts, and through any sequence of
  -- steps of the server's threads, one at a time, where the answers of select, send and recv last so
  -- long, main returns: 0 where every call of Initialize works and -1 otherwise. Behind Cleanup no
  -- worker is left, and each socket has been closed as often as it was accepted while the server ran,
  -- which is never where Initialize has thrown.
  pub main-Exits :
      (startup : Startup) (events : List ServerEvent)
      → AllAnswers events
      → Exits
          (starts_up startup (connect_db new_database_thread.world).0)
          events
          (main startup events)
  unfolding main new_server
  main-Exits startup events enough =
      finish_main-Exits _ events (initialize startup new_server) enough
        (initialize-Began startup new_server refl refl refl)
