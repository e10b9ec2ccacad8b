-- ===== src/Worker/Serving.antt =====
-- WorkerThread: the loop of RunOnServerThread, the calls that other threads make between its rounds,
-- and the destructor. `none` is a pointer to no node, or a list of results that ends too early.
use mathlib.Core.Option
use game_database_server.Prelude.{
  ℕ, zero, suc, Bool, List, [], ◌∷◌, Option, none, some, ◌==◌, if◌then◌else◌,
}
use game_database_server.Packet.{invalid_socket}
use game_database_server.Worker.Clients.{
  Heap, WorkerThread, write, stop_thread, add_client, remove_socket_from_list,
}
use game_database_server.Worker.Transfer.{
  SendResult, RecvResult, Sending, send_to_client, process_client_data,
}

-- SOCKET_ERROR, or what FD_ISSET tells of each socket behind select.
pub data SelectResult : Type 0 where
  failed : SelectResult
  ready : (readable errored : ℕ → Bool) → SelectResult

abbrev pub listed : ℕ → List ℕ → List ℕ
listed s sockets = if s == invalid_socket then sockets else s ∷ sockets

-- The copy of the list's sockets, with fuel.
unfoldable pub socket_list : ℕ → Option ℕ → Heap → Option (List ℕ)
socket_list zero current h = none
socket_list (suc fuel) none h = some []
socket_list (suc fuel) (some a) h = elim (h a) [
  | none ↦ none
  | some n ↦ Option.map (listed n.socket) (socket_list fuel n.next h)
]

abbrev pub after : Option WorkerThread → (WorkerThread → Option WorkerThread) → Option WorkerThread
after none f = none
after (some w) f = f w

-- The two loops over the copy; what recv answers in the round is given by the socket.
unfoldable pub remove_errored : (ℕ → Bool) → List ℕ → WorkerThread → Option WorkerThread
remove_errored errored [] w = some w
remove_errored errored (s ∷ sockets) w =
    after (if errored s then remove_socket_from_list s w else some w)
      (remove_errored errored sockets)

unfoldable pub process_readable :
    (ℕ → Bool) → (ℕ → List RecvResult) → List ℕ → WorkerThread → Option WorkerThread
process_readable readable receives [] w = some w
process_readable readable receives (s ∷ sockets) w =
    after (if readable s then process_client_data s (receives s) w else some w)
      (process_readable readable receives sockets)

-- Behind the copy: nothing to do without sockets, or where select fails.
unfoldable pub serve_sockets :
    SelectResult → (ℕ → List RecvResult) → List ℕ → WorkerThread → Option WorkerThread
unfolding remove_errored process_readable
serve_sockets select receives [] w = some w
serve_sockets SelectResult.failed receives (s ∷ sockets) w = some w
serve_sockets (SelectResult.ready readable errored) receives (s ∷ sockets) w =
    after (remove_errored errored (s ∷ sockets) w)
      (process_readable readable receives (s ∷ sockets))

abbrev pub serve_list :
    SelectResult → (ℕ → List RecvResult) → Option (List ℕ) → WorkerThread → Option WorkerThread
serve_list select receives none w = none
serve_list select receives (some sockets) w = serve_sockets select receives sockets w

-- A round of the loop.
unfoldable pub serve_round :
    SelectResult → (ℕ → List RecvResult) → WorkerThread → Option WorkerThread
unfolding socket_list serve_sockets
serve_round select receives w =
    if w.client_count == 0
    then some w
    else serve_list select receives (socket_list (suc w.client_count) w.head w.heap) w

-- What happens to a worker: a round of its loop, or a call by another thread.
pub data WorkerCall : Type 0 where
  round : SelectResult → (ℕ → List RecvResult) → WorkerCall
  add : ℕ → WorkerCall
  send : ℕ → (bytes : List ℕ) → List SendResult → WorkerCall
  stop : WorkerCall

abbrev pub worker_of : Option Sending → Option WorkerThread
worker_of none = none
worker_of (some sending) = some sending.worker

unfoldable pub perform : WorkerCall → WorkerThread → Option WorkerThread
unfolding stop_thread serve_round
perform (WorkerCall.round select receives) w =
    if w.do_thread then serve_round select receives w else some w
perform (WorkerCall.add s) w = add_client s w
perform (WorkerCall.send s bytes results) w = worker_of (send_to_client s bytes results w)
perform WorkerCall.stop w = some (stop_thread w)

-- RunOnServerThread between the calls of the other threads, one call at a time.
unfoldable pub run_on_server_thread : List WorkerCall → WorkerThread → Option WorkerThread
run_on_server_thread [] w = some w
run_on_server_thread (call ∷ calls) w = after (perform call w) (run_on_server_thread calls)

-- The loop of the destructor, with fuel.
unfoldable pub close_nodes : ℕ → Option ℕ → WorkerThread → Option WorkerThread
close_nodes zero current w = none
close_nodes (suc fuel) none w = some w
close_nodes (suc fuel) (some a) w = elim (w.heap a) [
  | none ↦ none
  | some n ↦
      close_nodes fuel n.next
        (record w { closed = n.socket ∷ w.closed; heap = write a none w.heap })
]

-- StopThread, the join, and the loop.
unfoldable pub destroy_worker : WorkerThread → Option WorkerThread
unfolding stop_thread close_nodes
destroy_worker w = close_nodes (suc w.client_count) w.head (stop_thread w)
