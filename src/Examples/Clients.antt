-- ===== src/Examples/Clients.antt =====
-- The theorems on workers and the server at concrete lists of clients.
use game_database_server.Prelude.{
  ℕ, ◌==◌, ◌≡◌, ◌⊎◌, ◌<◌, refl, true, false, List, [], ◌∷◌, some, none, arith,
}
use game_database_server.Packet.{DbResponse, packet_task}
use game_database_server.PacketManager.Defs.{is_empty}
use game_database_server.Worker.Clients.{
  WorkerThread, max_client_count, new_worker, close_socket, add_client, remove_socket_from_list,
  has_client,
}
use game_database_server.Worker.Chain.{Place}
use game_database_server.Worker.Growth.{Grown, new_worker-Holds, add_client-grows}
use game_database_server.Worker.Removal.{Ends, remove_socket_from_list-Ends, has_client-has}
use game_database_server.Worker.Unlinking.{has}
use game_database_server.Worker.Transfer.{SendResult, RecvResult, process_client_data}
use game_database_server.Worker.Framing.{Chunk, arriving, header_of, process_client_data-collects}
use game_database_server.Worker.Ledger.{times}
use game_database_server.Worker.Serving.{
  SelectResult, WorkerCall, after, run_on_server_thread, destroy_worker,
}
use game_database_server.Worker.Lifetime.{destroy_worker-closes_once}
use game_database_server.Server.Workers.{place_client, process_db_response}
use game_database_server.Server.Placement.{Placed, place_client-Placed}
use game_database_server.Server.Delivery.{Routed, process_db_response-Routed}

abbrev worker : WorkerThread
worker = new_worker true 7

abbrev place : Place
place = record { address = 0; socket = 7 }

add_client-grows_example :
    ((1 ≡ max_client_count) × (add_client 9 worker ≡ some (close_socket 9 worker)))
    ⊎ ((1 < max_client_count)
        × ((v : WorkerThread) × (add_client 9 worker ≡ some v) × Grown 9 worker (place ∷ []) v))
add_client-grows_example = add_client-grows 9 worker (place ∷ []) (new_worker-Holds true 7)

remove_socket_from_list-Ends_example :
    Ends 7 worker [] (place ∷ []) (remove_socket_from_list 7 worker)
remove_socket_from_list-Ends_example =
    remove_socket_from_list-Ends 7 worker (place ∷ []) (new_worker-Holds true 7)

has_client-has_example : has_client 7 worker ≡ some (has 7 (place ∷ []))
has_client-has_example = has_client-has 7 worker (place ∷ []) (new_worker-Holds true 7)

abbrev chunks : List Chunk
chunks = record { waits = 0; bytes = 1 ∷ [] } ∷ record { waits = 4; bytes = 2 ∷ 3 ∷ [] } ∷ []

process_client_data-collects_example :
    process_client_data 7 (RecvResult.received (header_of 3) ∷ arriving chunks) worker
    ≡ some (record worker { tasks = packet_task 7 0 (1 ∷ 2 ∷ 3 ∷ []) ∷ worker.tasks })
unfolding new_worker
process_client_data-collects_example =
    process_client_data-collects 7 chunks worker
      (omega arith, omega arith, (omega arith, omega arith, tt)) (omega arith) (omega arith) refl

abbrev sends : List SendResult
sends =
    SendResult.sent 1
    ∷ SendResult.would_block
    ∷ SendResult.sent 1
    ∷ SendResult.would_block
    ∷ SendResult.would_block
    ∷ SendResult.would_block
    ∷ SendResult.failed
    ∷ []

place_client-Placed_example : Placed 9 ((place ∷ []) ∷ []) (place_client 9 (worker ∷ []))
place_client-Placed_example =
    place_client-Placed 9 (worker ∷ []) ((place ∷ []) ∷ []) (new_worker-Holds true 7, tt)

abbrev response : DbResponse
response = record {
  task_id = 0;
  client_socket = 7;
  worker_thread_id = 0;
  success = true;
  error_message = "";
  affected_rows = 0;
  response_data = 5 ∷ [];
}

process_db_response-Routed_example :
    ((is_empty response.response_data ≡ true)
      × (process_db_response response sends (worker ∷ [])
          ≡ some (record { workers = worker ∷ []; sending = none })))
    ⊎ ((is_empty response.response_data ≡ false)
        × Routed 7
            (5 ∷ [])
            sends
            (worker ∷ [])
            ((place ∷ []) ∷ [])
            (process_db_response response sends (worker ∷ [])))
process_db_response-Routed_example =
    process_db_response-Routed response sends (worker ∷ []) ((place ∷ []) ∷ [])
      (new_worker-Holds true 7, tt)

-- Two more clients come; one of the three has an error, and one closes its connection.
abbrev calls : List WorkerCall
calls =
    WorkerCall.add 8
    ∷ WorkerCall.add 9
    ∷ WorkerCall.round (SelectResult.ready (λ s. s == 9) (λ s. s == 8))
        (λ s. RecvResult.closed false ∷ [])
    ∷ WorkerCall.stop
    ∷ []

destroy_worker-closes_once_example :
    (u : WorkerThread) × (after (run_on_server_thread calls (new_worker true 7)) destroy_worker
      ≡ some u)
    × ((t : ℕ) → times t u.closed ≡ times t (9 ∷ 8 ∷ 7 ∷ []))
destroy_worker-closes_once_example =
    destroy_worker-closes_once true 7 calls (tt, (tt, ((λ s. tt), (tt, tt))))
