-- ===== src/Server/Lifetime.antt =====
-- A server from its start to its destruction: what becomes of the accepted sockets.
use game_database_server.Prelude.{
  ℕ, ◌+◌, ◌≡◌, refl, sym, ◌∙◌, Bool, true, false, List, [], ◌∷◌, Option, none, some, if◌then◌else◌,
  ◌==◌, arith,
}
use game_database_server.Packet.{DbResponse}
use game_database_server.Platform.{Platform}
use game_database_server.Worker.Clients.{WorkerThread}
use game_database_server.Worker.Transfer.{SendResult}
use game_database_server.Worker.Serving.{WorkerCall}
use game_database_server.Worker.Ledger.{one_if, times}
use game_database_server.Worker.Exchange.{EnoughRecv, EnoughSend}
use game_database_server.Server.Workers.{place_client}
use game_database_server.Server.Loop.{
  Server, AcceptResult, with_workers, accept_client, clear_dead, take_oldest, respond_to,
  handle_response, close_listener, disconnect_users, stop_server, ServerEvent, serve,
}
use game_database_server.Server.Sharing.{
  Shared, Shares, times-append, place_client-Shares, stop_workers-Shared, perform_at-Shares,
}
use game_database_server.Server.Responding.{
  clear_dead_threads-Cleared, process_db_response-Delivers,
}

-- Each socket is with a worker or closed, as often as it was accepted.
pub record Balanced (running : Bool) (accepted : List ℕ) (v : Server) : Type 0 where
  pub at_workers : ℕ → ℕ
  pub shared : Shared v.worker_threads at_workers
  pub total : (s : ℕ) → at_workers s + times s v.closed ≡ times s accepted
  pub running_as : v.is_running ≡ running

abbrev pub Serves : Bool → List ℕ → Option Server → Type 0
Serves running accepted o = (v : Server) × (o ≡ some v) × Balanced running accepted v

pub Serves-some :
    {running : Bool} {accepted : List ℕ} (v : Server)
    → Balanced running accepted v
    → Serves running accepted (some v)
Serves-some v h = (v, refl, h)

Serves-if :
    {running : Bool} {accepted : List ℕ} (b : Bool) (x y : Option Server)
    → (b ≡ true → Serves running accepted x)
    → (b ≡ false → Serves running accepted y)
    → Serves running accepted (if b then x else y)
Serves-if true x y h k = h refl
Serves-if false x y h k = k refl

-- What accept has given while the server runs.
abbrev pub accepted_by : Bool → ServerEvent → List ℕ → List ℕ
accepted_by true (ServerEvent.accepting (AcceptResult.accepted s)) accepted = s ∷ accepted
accepted_by running event accepted = accepted

abbrev pub running_after : Bool → ServerEvent → Bool
running_after running ServerEvent.stopping = false
running_after running event = running

abbrev pub accepted_over : Bool → List ServerEvent → List ℕ → List ℕ
accepted_over running [] accepted = accepted
accepted_over running (event ∷ events) accepted =
    accepted_over (running_after running event) events (accepted_by running event accepted)

-- What Winsock answers in a step lasts to its end.
abbrev pub EnoughAnswers : ServerEvent → Type 0
EnoughAnswers (ServerEvent.serving i select receives) = (s : ℕ) → EnoughRecv (receives s)
EnoughAnswers (ServerEvent.responding results) = EnoughSend results
EnoughAnswers event = Unit {0}

abbrev pub AllAnswers : List ServerEvent → Type 0
AllAnswers [] = Unit {0}
AllAnswers (event ∷ events) = EnoughAnswers event × AllAnswers events

pub absurd_of : ¬ (true ≡ false)
absurd_of e = cc

accept-Serves :
    (running : Bool) (accepted : List ℕ) (r : AcceptResult) (v : Server)
    → Balanced running accepted v
    → Serves running (accepted_by running (ServerEvent.accepting r) accepted) (accept_client r v)
unfolding accept_client
accept-Serves true accepted (AcceptResult.accepted s) v h =
    let (workers, e, shared) = place_client-Shares s v.worker_threads h.at_workers h.shared in
    Serves-if v.is_running (with_workers v (place_client s v.worker_threads)) (some v)
      (λ on. rw e (
        _,
        refl,
        record {
          at_workers = λ t. one_if (s == t) + h.at_workers t;
          shared = shared;
          total = λ t. omega (arith, h.total t);
          running_as = h.running_as;
        },
      ))
      (λ off. absurd (absurd_of (sym h.running_as ∙ off)))
accept-Serves false accepted (AcceptResult.accepted s) v h =
    Serves-if v.is_running (with_workers v (place_client s v.worker_threads)) (some v)
      (λ on. absurd (absurd_of (sym on ∙ h.running_as))) (λ off. Serves-some v h)
accept-Serves true accepted AcceptResult.would_block v h = Serves-some v h
accept-Serves false accepted AcceptResult.would_block v h = Serves-some v h
accept-Serves true accepted AcceptResult.failed v h = Serves-some v h
accept-Serves false accepted AcceptResult.failed v h = Serves-some v h

clear_dead-Serves :
    {running : Bool} {accepted : List ℕ} (v : Server)
    → Balanced running accepted v
    → Serves running accepted (clear_dead v)
unfolding clear_dead
clear_dead-Serves v h =
    let (sockets, (m, e, shared, closed)) =
      clear_dead_threads-Cleared v.worker_threads h.at_workers h.shared in
    rw e (
      _,
      refl,
      record {
        at_workers = m;
        shared = shared;
        total = λ s. omega (arith, times-append s sockets v.closed, closed s, h.total s);
        running_as = h.running_as;
      },
    )

-- The workers have changed and hold the same sockets.
with_workers-Serves :
    {running : Bool} {accepted : List ℕ} (v : Server) (o : Option (List WorkerThread))
    → (h : Balanced running accepted v) → Shares h.at_workers o
    → Serves running accepted (with_workers v o)
with_workers-Serves v o h (workers, e, shared) = rw e (
  _,
  refl,
  record { at_workers = h.at_workers; shared = shared; total = h.total; running_as = h.running_as },
)

respond_to-Serves :
    {running : Bool} {accepted : List ℕ} (results : List SendResult) (v : Server)
    (o : Option (DbResponse × List DbResponse))
    → EnoughSend results
    → Balanced running accepted v
    → Serves running accepted (respond_to results v o)
respond_to-Serves results v none enough h = Serves-some v h
respond_to-Serves results v (some (response, rest)) enough h =
    let (d, e, shared) =
      process_db_response-Delivers response results v.worker_threads h.at_workers enough h.shared in
    rw e (
      _,
      refl,
      record {
        at_workers = h.at_workers;
        shared = shared;
        total = h.total;
        running_as = h.running_as;
      },
    )

handle_response-Serves :
    {running : Bool} {accepted : List ℕ} (results : List SendResult) (v : Server)
    → EnoughSend results
    → Balanced running accepted v
    → Serves running accepted (handle_response results v)
unfolding handle_response
handle_response-Serves results v enough h =
    Serves-if v.is_running (respond_to results v (take_oldest v.world.sent)) (some v)
      (λ on. respond_to-Serves results v (take_oldest v.world.sent) enough h)
      (λ off. Serves-some v h)

close_listener_lem :
    (sock : Option ℕ) (v : Server)
    → ((close_listener sock v).worker_threads ≡ v.worker_threads)
      × ((close_listener sock v).closed ≡ v.closed)
      × ((close_listener sock v).is_running ≡ v.is_running)
close_listener_lem none v = (refl, refl, refl)
close_listener_lem (some s) v = (refl, refl, refl)

module _ ⦃p : Platform⦄ where
  pub stop_server-Balanced :
      {running : Bool} {accepted : List ℕ} (v : Server)
      → Balanced running accepted v
      → Balanced false accepted (stop_server v)
  unfolding stop_server disconnect_users
  stop_server-Balanced v h =
      let stopped = disconnect_users (record v { is_running = false }) in
      let (workers, closed, running) = close_listener_lem v.server_sock stopped in
      record {
        at_workers = h.at_workers;
        shared = rw workers (stop_workers-Shared v.worker_threads h.at_workers h.shared);
        total = λ s. rw closed (h.total s);
        running_as = running;
      }

  pub serve-Serves :
      (running : Bool) (accepted : List ℕ) (event : ServerEvent) (v : Server)
      → EnoughAnswers event
      → Balanced running accepted v
      → Serves (running_after running event) (accepted_by running event accepted) (serve event v)
  unfolding serve
  serve-Serves true accepted (ServerEvent.accepting r) v enough h =
      accept-Serves true accepted r v h
  serve-Serves false accepted (ServerEvent.accepting r) v enough h =
      accept-Serves false accepted r v h
  serve-Serves true accepted (ServerEvent.serving i select receives) v enough h =
      with_workers-Serves v _ h (
        perform_at-Shares i (WorkerCall.round select receives) v.worker_threads h.at_workers enough
          (λ l. refl) h.shared)
  serve-Serves false accepted (ServerEvent.serving i select receives) v enough h =
      with_workers-Serves v _ h (
        perform_at-Shares i (WorkerCall.round select receives) v.worker_threads h.at_workers enough
          (λ l. refl) h.shared)
  serve-Serves true accepted ServerEvent.cleaning v enough h = clear_dead-Serves v h
  serve-Serves false accepted ServerEvent.cleaning v enough h = clear_dead-Serves v h
  serve-Serves true accepted ServerEvent.stopping v enough h =
      Serves-some _ (stop_server-Balanced v h)
  serve-Serves false accepted ServerEvent.stopping v enough h =
      Serves-some _ (stop_server-Balanced v h)
  serve-Serves true accepted (ServerEvent.responding results) v enough h =
      handle_response-Serves results v enough h
  serve-Serves false accepted (ServerEvent.responding results) v enough h =
      handle_response-Serves results v enough h
  serve-Serves true accepted (ServerEvent.database w) v enough h = Serves-some _ (record {
    at_workers = h.at_workers;
    shared = h.shared;
    total = h.total;
    running_as = h.running_as;
  })
  serve-Serves false accepted (ServerEvent.database w) v enough h = Serves-some _ (record {
    at_workers = h.at_workers;
    shared = h.shared;
    total = h.total;
    running_as = h.running_as;
  })
