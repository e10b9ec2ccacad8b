-- ===== src/Server/Workers.antt =====
-- Server: FindCanUseWorkerThread, ClearDeadThreads, the step of Run for an accepted socket,
-- FindWorkerThreadBySocket, ProcessDBResponse and the stop of the workers. A list stands for the
-- mutex's holder: these methods run one at a time.
use mathlib.Core.Option
use game_database_server.Prelude.{
  ℕ, zero, suc, Bool, true, false, not, ◌&&◌, List, [], ◌∷◌, ◌++◌, Option, none, some, map,
  if◌then◌else◌,
}
use game_database_server.Packet.{DbResponse}
use game_database_server.PacketManager.Defs.{is_empty}
use game_database_server.Worker.Clients.{
  WorkerThread, new_worker, is_full_access, stop_thread, add_client, has_client,
}
use game_database_server.Worker.Transfer.{SendResult, Sending, send_to_client}

-- `!worker->IsFullAccess() && worker->DoThread()`
unfoldable pub can_use : WorkerThread → Bool
unfolding is_full_access
can_use w = not (is_full_access w) && w.do_thread

-- The index, and `none` for -1.
unfoldable pub find_can_use_worker_thread : List WorkerThread → Option ℕ
find_can_use_worker_thread [] = none
find_can_use_worker_thread (w ∷ workers) =
    let later = Option.map suc (find_can_use_worker_thread workers) in
    if can_use w then some 0 else later

unfoldable pub clear_dead_threads : List WorkerThread → List WorkerThread
clear_dead_threads [] = []
clear_dead_threads (w ∷ workers) =
    let rest = clear_dead_threads workers in if w.do_thread then w ∷ rest else rest

-- `_worker_threads[i]->AddClient(s)`
unfoldable pub add_at : ℕ → ℕ → List WorkerThread → Option (List WorkerThread)
add_at i s [] = none
add_at zero s (w ∷ workers) = Option.map (λ v. v ∷ workers) (add_client s w)
add_at (suc i) s (w ∷ workers) = Option.map (λ l. w ∷ l) (add_at i s workers)

-- The end of the loop's body in Run, for a socket that accept has given.
unfoldable pub place_client : ℕ → List WorkerThread → Option (List WorkerThread)
unfolding find_can_use_worker_thread add_at
place_client s workers = elim (find_can_use_worker_thread workers) [
  | none ↦ some (workers ++ new_worker true s ∷ [])
  | some i ↦ add_at i s workers
]

-- The loop of Stop.
unfoldable pub stop_workers : List WorkerThread → List WorkerThread
unfolding stop_thread
stop_workers workers = map stop_thread workers

-- The workers behind a response, and what the worker has sent; no worker has sent anything where
-- the response is dropped.
pub record Delivered : Type 0 where
  pub workers : List WorkerThread
  pub sending : Option Sending

abbrev pub after_sending : List WorkerThread → Option Sending → Option Delivered
after_sending workers none = none
after_sending workers (some sending) =
    some (record { workers = sending.worker ∷ workers; sending = some sending })

abbrev pub behind : WorkerThread → Option Delivered → Option Delivered
behind w none = none
behind w (some d) = some (record d { workers = w ∷ d.workers })

-- FindWorkerThreadBySocket and SendToClient of the worker that it finds.
unfoldable pub send_by_socket : ℕ → List ℕ → List SendResult → List WorkerThread → Option Delivered
send_by_socket s bytes results [] = some (record { workers = []; sending = none })
send_by_socket s bytes results (w ∷ workers) =
    let later = send_by_socket s bytes results workers in
    elim (has_client s w) [
      | none ↦ none
      | some true ↦ after_sending workers (send_to_client s bytes results w)
      | some false ↦ behind w later
    ]

unfoldable pub process_db_response :
    DbResponse → List SendResult → List WorkerThread → Option Delivered
unfolding send_by_socket
process_db_response response results workers =
    if is_empty response.response_data
    then some (record { workers = workers; sending = none })
    else send_by_socket response.client_socket response.response_data results workers
