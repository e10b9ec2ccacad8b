-- ===== src/Worker/Exchange.antt =====
-- ProcessClientData and SendToClient: every branch keeps the account of the worker's sockets.
use game_database_server.Prelude.{
  ℕ, ◌≡◌, refl, Bool, true, false, List, [], ◌∷◌, Option, none, some, ltb, ◌==◌, if◌then◌else◌,
  length,
}
use game_database_server.Packet.{packet_task}
use game_database_server.PacketManager.Defs.{is_empty}
use game_database_server.Worker.Clients.{WorkerThread, remove_socket_from_list}
use game_database_server.Worker.Removal.{has_client-has}
use game_database_server.Worker.Unlinking.{has}
use game_database_server.Worker.Transfer.{
  SendResult, RecvResult, SendEnd, RecvEnd, unsent, lost, send_loop, finish_sending, send_frame,
  send_to_client, packet_size_of, recv_loop, finish_receiving, receive_body, process_client_data,
}
use game_database_server.Worker.Serving.{after, worker_of}
use game_database_server.Worker.Ledger.{
  Accounts, Runs, Runs-some, Accounts-same, remove_socket_from_list-Runs,
}

pub Runs-if :
    {handed : List ℕ} (b : Bool) (x y : Option WorkerThread)
    → Runs handed x
    → Runs handed y
    → Runs handed (if b then x else y)
Runs-if true x y h k = h
Runs-if false x y h k = k

pub Runs-after :
    {handed given : List ℕ} (o : Option WorkerThread) (f : WorkerThread → Option WorkerThread)
    → Runs handed o
    → ((v : WorkerThread) → Accounts handed v → Runs given (f v))
    → Runs given (after o f)
Runs-after o f (v, e, h) k = rw e (k v h)

-- The calls of recv last to the end of ProcessClientData, whatever the size in the header is.
abbrev pub EnoughRecv : List RecvResult → Type 0
EnoughRecv [] = false ≡ true
EnoughRecv (RecvResult.received header ∷ results) =
    (size : ℕ) → (e : RecvEnd) × (recv_loop results size [] 0 ≡ some e)
EnoughRecv (result ∷ results) = Unit {0}

-- And those of send to the end of SendToClient.
abbrev pub EnoughSend : List SendResult → Type 0
EnoughSend [] = false ≡ true
EnoughSend (SendResult.sent n ∷ results) =
    (size : ℕ) → (e : SendEnd) × (send_loop results size 0 0 ≡ some e)
EnoughSend (result ∷ results) = Unit {0}

with_task-Accounts :
    {handed : List ℕ} (s : ℕ) (bytes : List ℕ) (w : WorkerThread)
    → Accounts handed w
    → Accounts handed (record w { tasks = packet_task s 0 bytes ∷ w.tasks })
with_task-Accounts s bytes w h = Accounts-same w _ refl refl refl refl refl refl h

finish_receiving-Runs :
    {handed : List ℕ} (s size : ℕ) (w : WorkerThread) (e : RecvEnd)
    → Accounts handed w
    → Runs handed (finish_receiving s size w (some e))
finish_receiving-Runs s size w RecvEnd.gone h = remove_socket_from_list-Runs s w h
finish_receiving-Runs {handed = handed} s size w (RecvEnd.collected bytes) h =
    decide (ltb (length bytes) size) w.has_queue
  where
    decide :
        (b q : Bool)
        → Runs handed (
            some (
              if b
              then w
              else if q
              then record w { tasks = packet_task s 0 bytes ∷ w.tasks }
              else w))
    decide true q = Runs-some w h
    decide false true = Runs-some _ (with_task-Accounts s bytes w h)
    decide false false = Runs-some w h

receive_body-Runs :
    {handed : List ℕ} (s size : ℕ) (results : List RecvResult) (w : WorkerThread)
    → ((size : ℕ) → (e : RecvEnd) × (recv_loop results size [] 0 ≡ some e))
    → Accounts handed w
    → Runs handed (receive_body s size results w)
receive_body-Runs s size results w enough h = Runs-if (size == 0) (some w) _ (Runs-some w h) (
    Runs-if (ltb 65536 size) (remove_socket_from_list s w) _ (remove_socket_from_list-Runs s w h)
      (rw ((enough size).1) (finish_receiving-Runs s size w (enough size).0 h)))

pub process_client_data-Runs :
    {handed : List ℕ} (s : ℕ) (results : List RecvResult) (w : WorkerThread)
    → EnoughRecv results
    → Accounts handed w
    → Runs handed (process_client_data s results w)
unfolding process_client_data
process_client_data-Runs s [] w enough h = absurd cc
process_client_data-Runs s (RecvResult.received header ∷ results) w enough h =
    Runs-if (length header == 4) (receive_body s (packet_size_of header) results w) (some w)
      (receive_body-Runs s (packet_size_of header) results w enough h) (Runs-some w h)
process_client_data-Runs s (RecvResult.closed true ∷ results) w enough h = Runs-some w h
process_client_data-Runs s (RecvResult.closed false ∷ results) w enough h =
    remove_socket_from_list-Runs s w h
process_client_data-Runs s (RecvResult.would_block ∷ results) w enough h = Runs-some w h
process_client_data-Runs s (RecvResult.failed ∷ results) w enough h =
    remove_socket_from_list-Runs s w h

lost-Runs :
    {handed : List ℕ} (s header_sent data_sent : ℕ) (o : Option WorkerThread)
    → Runs handed o
    → Runs handed (worker_of (lost s header_sent data_sent o))
lost-Runs s header_sent data_sent none (v, e, h) = absurd cc
lost-Runs s header_sent data_sent (some w) h = h

finish_sending-Runs :
    {handed : List ℕ} (s size header_sent : ℕ) (w : WorkerThread) (e : SendEnd)
    → Accounts handed w
    → Runs handed (worker_of (finish_sending s size header_sent w (some e)))
finish_sending-Runs s size header_sent w (SendEnd.broken n) h =
    lost-Runs s header_sent n (remove_socket_from_list s w) (remove_socket_from_list-Runs s w h)
finish_sending-Runs s size header_sent w (SendEnd.stopped n) h = Runs-some w h

send_frame-Runs :
    {handed : List ℕ} (s size : ℕ) (results : List SendResult) (w : WorkerThread)
    → EnoughSend results
    → Accounts handed w
    → Runs handed (worker_of (send_frame s size results w))
send_frame-Runs s size [] w enough h = absurd cc
send_frame-Runs s size (SendResult.sent n ∷ results) w enough h =
    rw ((enough size).1) (finish_sending-Runs s size n w (enough size).0 h)
send_frame-Runs s size (SendResult.would_block ∷ results) w enough h = Runs-some w h
send_frame-Runs s size (SendResult.failed ∷ results) w enough h =
    lost-Runs s 0 0 (remove_socket_from_list s w) (remove_socket_from_list-Runs s w h)

pub send_to_client-Runs :
    {handed : List ℕ} (s : ℕ) (bytes : List ℕ) (results : List SendResult) (w : WorkerThread)
    → EnoughSend results
    → Accounts handed w
    → Runs handed (worker_of (send_to_client s bytes results w))
unfolding send_to_client
send_to_client-Runs {handed = handed} s bytes results w enough h =
    rw (has_client-has s w h.places h.holds) (decide (is_empty bytes) (has s h.places))
  where
    decide :
        (b found : Bool)
        → Runs handed (
            worker_of (
              if b then some (unsent w) else elim (some found) [
                | none ↦ none
                | some false ↦ some (unsent w)
                | some true ↦ send_frame s (length bytes) results w
              ]))
    decide true found = Runs-some w h
    decide false false = Runs-some w h
    decide false true = send_frame-Runs s (length bytes) results w enough h
