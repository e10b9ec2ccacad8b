-- ===== src/Server/Destruction.antt =====
-- The server's destructor behind any steps of its threads.
use game_database_server.Prelude.{ℕ, ◌≡◌, refl, Bool, List, [], ◌∷◌, Option, none, some, arith}
use game_database_server.Platform.{Platform}
use game_database_server.Worker.Ledger.{times}
use game_database_server.Server.Loop.{
  Server, disconnect_users, stop_server, destroy_server, ServerEvent, run_server,
}
use game_database_server.Server.Sharing.{times-append, destroy_all-Closes}
use game_database_server.Server.Lifetime.{
  Balanced, Serves, Serves-some, accepted_by, running_after, accepted_over, AllAnswers,
  stop_server-Balanced, serve-Serves,
}

abbrev pub ended : ⦃p : Platform⦄ → Option Server → Option Server
ended none = none
ended (some v) = destroy_server v

module _ ⦃p : Platform⦄ where
  pub run_server-Serves :
      (running : Bool) (accepted : List ℕ) (events : List ServerEvent) (v : Server)
      → AllAnswers events
      → Balanced running accepted v
      → (after : Bool) × Serves after (accepted_over running events accepted) (run_server events v)
  unfolding run_server
  run_server-Serves running accepted [] v enough h = (running, Serves-some v h)
  run_server-Serves running accepted (event ∷ events) v (enough, more) h =
      let (u, e, k) = serve-Serves running accepted event v enough h in
      rw (run_server, e)
        (run_server-Serves (running_after running event) (accepted_by running event accepted) events
          u more k)

  pub destroy_server-closes :
      {running : Bool} {accepted : List ℕ} (v : Server)
      → Balanced running accepted v
      → (u : Server) × (destroy_server v ≡ some u)
        × (u.worker_threads ≡ [])
        × ((s : ℕ) → times s u.closed ≡ times s accepted)
  unfolding destroy_server disconnect_users
  destroy_server-closes v h =
      let k = stop_server-Balanced v h in
      let (sockets, e, closed) =
        destroy_all-Closes (stop_server v).worker_threads k.at_workers k.shared in
      rw e (
        _,
        refl,
        refl,
        λ s. omega (arith, times-append s sockets (stop_server v).closed, closed s, k.total s),
      )

  -- A server without workers goes through any sequence of steps of its threads: clients that are
  -- accepted, rounds of the workers' loops, of the cleaner and of the response thread, Stop, and any
  -- work of the database thread, one step at a time, where the answers of select, send and recv last
  -- so long. Behind its destructor no worker is left, and every socket that was accepted while the
  -- server ran has been closed as often as it was accepted, and no other socket.
  pub destroy_server-closes_once :
      (v : Server) (events : List ServerEvent)
      → v.worker_threads ≡ []
      → v.closed ≡ []
      → AllAnswers events
      → (u : Server) × (ended (run_server events v) ≡ some u)
        × (u.worker_threads ≡ [])
        × ((s : ℕ) → times s u.closed ≡ times s (accepted_over v.is_running events []))
  destroy_server-closes_once v events workers closed enough =
      let start : Balanced v.is_running [] v = record {
        at_workers = λ s. 0;
        shared = rw workers (λ s. refl);
        total = λ s. rw closed refl;
        running_as = refl;
      } in
      let (after, (u, e, h)) = run_server-Serves v.is_running [] events v enough start in
      rw e (destroy_server-closes u h)
