-- ===== src/Worker/Transfer.antt =====
-- WorkerThread: SendToClient and ProcessClientData. What Winsock answers is an argument: the
-- results of the calls of send and recv, in their order. `none` means that the list of the results
-- ends before the method does.
use game_database_server.Prelude.{
  ℕ, ◌+◌, ◌*◌, ◌^◌, Bool, true, false, not, ◌&&◌, List, [], ◌∷◌, ◌++◌, Option, none, some, ltb,
  ◌==◌, if◌then◌else◌, length,
}
use game_database_server.Packet.{packet_task}
use game_database_server.PacketManager.Defs.{is_empty}
use game_database_server.Worker.Clients.{WorkerThread, has_client, remove_socket_from_list}

-- A call of send: how many bytes were taken, one at least, or the error that WSAGetLastError gives.
pub data SendResult : Type 0 where
  sent : ℕ → SendResult
  would_block failed : SendResult

-- A call of recv: the bytes, the end of the connection with whether the last error happens to be
-- WSAEWOULDBLOCK, or the error.
pub data RecvResult : Type 0 where
  received : List ℕ → RecvResult
  closed : Bool → RecvResult
  would_block failed : RecvResult

-- How a loop ends: with so many bytes sent, or with an error behind them.
pub data SendEnd : Type 0 where
  stopped broken : ℕ → SendEnd

-- The loop of SendToClient, for the bytes sent so far and the calls in a row that would have blocked.
unfoldable pub send_loop : List SendResult → (size total retry : ℕ) → Option SendEnd
send_loop [] size total retry =
    if ltb total size && ltb retry 3 then none else some (SendEnd.stopped total)
send_loop (SendResult.sent n ∷ results) size total retry =
    let rest = send_loop results size (total + n) 0 in
    if ltb total size && ltb retry 3 then rest else some (SendEnd.stopped total)
send_loop (SendResult.would_block ∷ results) size total retry =
    let rest = send_loop results size total (retry + 1) in
    if ltb total size && ltb retry 3 then rest else some (SendEnd.stopped total)
send_loop (SendResult.failed ∷ results) size total retry =
    if ltb total size && ltb retry 3
    then some (SendEnd.broken total)
    else some (SendEnd.stopped total)

-- The result of SendToClient, the numbers of bytes of the header and of the data that were sent,
-- and the worker.
pub record Sending : Type 0 where
  pub result : Bool
  pub header_sent : ℕ
  pub data_sent : ℕ
  pub worker : WorkerThread

abbrev pub unsent : WorkerThread → Sending
unsent w = record { result = false; header_sent = 0; data_sent = 0; worker = w }

-- The client is taken from the list behind an error.
abbrev pub lost : ℕ → (header_sent data_sent : ℕ) → Option WorkerThread → Option Sending
lost s header_sent data_sent none = none
lost s header_sent data_sent (some v) =
    some (record { result = false; header_sent = header_sent; data_sent = data_sent; worker = v })

abbrev pub finish_sending :
    ℕ → (size header_sent : ℕ) → WorkerThread → Option SendEnd → Option Sending
finish_sending s size header_sent w none = none
finish_sending s size header_sent w (some (SendEnd.broken n)) =
    lost s header_sent n (remove_socket_from_list s w)
finish_sending s size header_sent w (some (SendEnd.stopped n)) =
    some
      (record { result = not (ltb n size); header_sent = header_sent; data_sent = n; worker = w })

-- The header is one call; any number of its bytes counts as all of it.
abbrev pub send_frame : ℕ → ℕ → List SendResult → WorkerThread → Option Sending
send_frame s size [] w = none
send_frame s size (SendResult.sent n ∷ results) w =
    finish_sending s size n w (send_loop results size 0 0)
send_frame s size (SendResult.would_block ∷ results) w = some (unsent w)
send_frame s size (SendResult.failed ∷ results) w = lost s 0 0 (remove_socket_from_list s w)

unfoldable pub send_to_client : ℕ → List ℕ → List SendResult → WorkerThread → Option Sending
unfolding send_loop
send_to_client s bytes results w =
    if is_empty bytes then some (unsent w) else elim (has_client s w) [
      | none ↦ none
      | some false ↦ some (unsent w)
      | some true ↦ send_frame s (length bytes) results w
    ]

-- ntohl of the four bytes of a header.
abbrev pub packet_size_of : List ℕ → ℕ
packet_size_of [] = 0
packet_size_of (b ∷ bytes) = b * 256 ^ length bytes + packet_size_of bytes

pub data RecvEnd : Type 0 where
  -- So many bytes have come, or the client is to be removed.
  collected : List ℕ → RecvEnd
  gone : RecvEnd

-- The loop of ProcessClientData, for the bytes that have come so far.
unfoldable pub recv_loop : List RecvResult → (size : ℕ) → List ℕ → (retry : ℕ) → Option RecvEnd
recv_loop [] size so_far retry =
    if ltb (length so_far) size && ltb retry 5 then none else some (RecvEnd.collected so_far)
recv_loop (RecvResult.received bytes ∷ results) size so_far retry =
    let rest = recv_loop results size (so_far ++ bytes) 0 in
    if ltb (length so_far) size && ltb retry 5 then rest else some (RecvEnd.collected so_far)
recv_loop (RecvResult.would_block ∷ results) size so_far retry =
    let rest = recv_loop results size so_far (retry + 1) in
    if ltb (length so_far) size && ltb retry 5 then rest else some (RecvEnd.collected so_far)
recv_loop (RecvResult.closed stale ∷ results) size so_far retry =
    if ltb (length so_far) size && ltb retry 5
    then some RecvEnd.gone
    else some (RecvEnd.collected so_far)
recv_loop (RecvResult.failed ∷ results) size so_far retry =
    if ltb (length so_far) size && ltb retry 5
    then some RecvEnd.gone
    else some (RecvEnd.collected so_far)

-- A whole packet becomes a task; fewer bytes are dropped.
abbrev pub finish_receiving : ℕ → ℕ → WorkerThread → Option RecvEnd → Option WorkerThread
finish_receiving s size w none = none
finish_receiving s size w (some RecvEnd.gone) = remove_socket_from_list s w
finish_receiving s size w (some (RecvEnd.collected bytes)) = some (
    if ltb (length bytes) size
    then w
    else if w.has_queue
    then record w { tasks = packet_task s 0 bytes ∷ w.tasks }
    else w)

abbrev pub receive_body : ℕ → ℕ → List RecvResult → WorkerThread → Option WorkerThread
receive_body s size results w =
    if size == 0
    then some w
    else if ltb 65536 size
    then remove_socket_from_list s w
    else finish_receiving s size w (recv_loop results size [] 0)

unfoldable pub process_client_data : ℕ → List RecvResult → WorkerThread → Option WorkerThread
unfolding recv_loop
process_client_data s [] w = none
process_client_data s (RecvResult.received header ∷ results) w =
    if length header == 4 then receive_body s (packet_size_of header) results w else some w
process_client_data s (RecvResult.closed true ∷ results) w = some w
process_client_data s (RecvResult.closed false ∷ results) w = remove_socket_from_list s w
process_client_data s (RecvResult.would_block ∷ results) w = some w
process_client_data s (RecvResult.failed ∷ results) w = remove_socket_from_list s w
