-- ===== src/Server/Loop.antt =====
-- Server: its fields, the loop of Run, the loop of the response thread, the cleaning of dead workers,
-- Stop and the destructor, as steps that take the mutex of the workers one at a time. `none` is a
-- pointer to no node, or a list of results that ends too early.
use mathlib.Core.Option
use game_database_server.Prelude.{
  ℕ, zero, suc, Bool, false, List, [], ◌∷◌, ◌++◌, Option, none, some, if◌then◌else◌,
}
use game_database_server.Packet.{DbResponse}
use game_database_server.Platform.{Platform}
use game_database_server.Action.{World}
use game_database_server.Database.Session.{disconnect_all_users}
use game_database_server.Worker.Clients.{WorkerThread}
use game_database_server.Worker.Transfer.{SendResult, RecvResult}
use game_database_server.Worker.Serving.{SelectResult, WorkerCall, perform, destroy_worker}
use game_database_server.Server.Workers.{
  clear_dead_threads, place_client, stop_workers, Delivered, process_db_response,
}

pub record Server : Type 0 where
  pub is_running : Bool
  pub worker_threads : List WorkerThread
  -- _server_sock, where `none` is INVALID_SOCKET
  pub server_sock : Option ℕ
  -- _database_thread with SendPackets, the list `sent`.
  pub world : World
  -- What was closed by the destructors of workers, and the listening sockets that were closed.
  pub closed : List ℕ
  pub closed_listeners : List ℕ

-- What accept gives: a socket, WSAEWOULDBLOCK or another error.
pub data AcceptResult : Type 0 where
  accepted : ℕ → AcceptResult
  would_block failed : AcceptResult

abbrev pub with_workers : Server → Option (List WorkerThread) → Option Server
with_workers v none = none
with_workers v (some workers) = some (record v { worker_threads = workers })

-- A round of the loop of Run.
unfoldable pub accept_client : AcceptResult → Server → Option Server
accept_client (AcceptResult.accepted s) v =
    if v.is_running then with_workers v (place_client s v.worker_threads) else some v
accept_client AcceptResult.would_block v = some v
accept_client AcceptResult.failed v = some v

-- The sockets that the destructors of two parts close.
abbrev pub both_closed : Option WorkerThread → Option (List ℕ) → Option (List ℕ)
both_closed none rest = none
both_closed (some u) none = none
both_closed (some u) (some rest) = some (u.closed ++ rest)

-- `_worker_threads.clear()`
unfoldable pub destroy_all : List WorkerThread → Option (List ℕ)
destroy_all [] = some []
destroy_all (w ∷ workers) = both_closed (destroy_worker w) (destroy_all workers)

-- What `erase` destroys in ClearDeadThreads.
unfoldable pub destroy_dead : List WorkerThread → Option (List ℕ)
destroy_dead [] = some []
destroy_dead (w ∷ workers) =
    let rest = destroy_dead workers in
    if w.do_thread then rest else both_closed (destroy_worker w) rest

abbrev pub with_closed : Server → List WorkerThread → Option (List ℕ) → Option Server
with_closed v workers none = none
with_closed v workers (some sockets) =
    some (record v { worker_threads = workers; closed = sockets ++ v.closed })

-- A round of Thread_ClearDeadWorkerLoop.
unfoldable pub clear_dead : Server → Option Server
unfolding destroy_dead
clear_dead v = with_closed v (clear_dead_threads v.worker_threads) (destroy_dead v.worker_threads)

-- The oldest response of SendPackets, and the others.
abbrev pub take_oldest : {A : Type 0} → List A → Option (A × List A)
take_oldest [] = none
take_oldest (x ∷ []) = some (x, [])
take_oldest (x ∷ y ∷ l) = Option.map (λ t. (t.0, x ∷ t.1)) (take_oldest (y ∷ l))

abbrev pub with_delivered : Server → List DbResponse → Option Delivered → Option Server
with_delivered v rest none = none
with_delivered v rest (some d) =
    some (record v { worker_threads = d.workers; world = record v.world { sent = rest } })

abbrev pub respond_to :
    List SendResult → Server → Option (DbResponse × List DbResponse) → Option Server
respond_to results v none = some v
respond_to results v (some (response, rest)) =
    with_delivered v rest (process_db_response response results v.worker_threads)

-- A round of ResponseHandlerLoop.
unfoldable pub handle_response : List SendResult → Server → Option Server
handle_response results v =
    if v.is_running then respond_to results v (take_oldest v.world.sent) else some v

-- A round of the loop of the worker with this index; there is none past the last.
unfoldable pub perform_at : ℕ → WorkerCall → List WorkerThread → Option (List WorkerThread)
perform_at i call [] = some []
perform_at zero call (w ∷ workers) = Option.map (λ v. v ∷ workers) (perform call w)
perform_at (suc i) call (w ∷ workers) = Option.map (λ l. w ∷ l) (perform_at i call workers)

abbrev pub close_listener : Option ℕ → Server → Server
close_listener none v = v
close_listener (some s) v = record v {
  server_sock = none;
  closed_listeners = s ∷ v.closed_listeners;
}

-- What the server's threads do: accept, a round of a worker, of the cleaner and of the response
-- thread, Stop, and what the database thread makes of its state.
pub data ServerEvent : Type 0 where
  accepting : AcceptResult → ServerEvent
  serving : ℕ → SelectResult → (ℕ → List RecvResult) → ServerEvent
  cleaning stopping : ServerEvent
  responding : List SendResult → ServerEvent
  database : World → ServerEvent

module _ ⦃p : Platform⦄ where
  -- DisconnectAllUsers
  unfoldable pub disconnect_users : Server → Server
  disconnect_users v = record v { world = (disconnect_all_users v.world).1 }

  -- Stop
  unfoldable pub stop_server : Server → Server
  unfolding disconnect_users
  stop_server v =
      let stopped = disconnect_users (record v { is_running = false }) in
      let shut = close_listener stopped.server_sock stopped in
      record shut { worker_threads = stop_workers shut.worker_threads }

  -- The destructor: Stop, DisconnectAllUsers, the same again in DatabaseThread::Stop, and the workers.
  unfoldable pub destroy_server : Server → Option Server
  unfolding stop_server
  destroy_server v =
      let ended = disconnect_users (disconnect_users (stop_server v)) in
      with_closed ended [] (destroy_all ended.worker_threads)

  unfoldable pub serve : ServerEvent → Server → Option Server
  unfolding accept_client perform_at clear_dead handle_response stop_server
  serve (ServerEvent.accepting r) v = accept_client r v
  serve (ServerEvent.serving i select receives) v =
      with_workers v (perform_at i (WorkerCall.round select receives) v.worker_threads)
  serve ServerEvent.cleaning v = clear_dead v
  serve ServerEvent.stopping v = some (stop_server v)
  serve (ServerEvent.responding results) v = handle_response results v
  serve (ServerEvent.database w) v = some (record v { world = w })

  unfoldable pub run_server : List ServerEvent → Server → Option Server
  run_server [] v = some v
  run_server (event ∷ events) v = elim (serve event v) [
    | none ↦ none
    | some u ↦ run_server events u
  ]
