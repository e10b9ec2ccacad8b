-- ===== src/Examples/Console.antt =====
-- The theorems on the test client, on a network whose every answer is fixed.
use game_database_server.Prelude.{
  ◌++◌, ℕ, zero, suc, ◌≡◌, refl, Bool, Option, none, ◌⊎◌, true, false, List, [], ◌∷◌, some, arith,
}
use game_database_server.Packet.{Task, DbResponse}
use game_database_server.Packet.ResultCode.{ResultCode}
use game_database_server.Platform.{Platform}
use game_database_server.Action.{ok, crash}
use game_database_server.Connector.{is_connected}
use game_database_server.PacketManager.Build.{packet_of}
use game_database_server.Worker.Clients.{WorkerThread, new_worker}
use game_database_server.Worker.Transfer.{RecvResult, process_client_data}
use game_database_server.Worker.Framing.{Chunk, arriving, header_of}
use game_database_server.Database.Tasks.{run_task}
use game_database_server.Database.Traffic.{Builds}
use game_database_server.TestClient.Manager.{
  create_request, ClientPacketManager, forget_error, request_packet,
}
use game_database_server.TestClient.Requests.{create_login_request}
use game_database_server.TestClient.Network.{Network, ConnectResult}
use game_database_server.TestClient.Session.{
  send_rest, GameServerTestClient, new_client, is_connected_client, send_packet, receive_packet,
  try_reconnect,
}
use game_database_server.TestClient.Tests.{Choice, test_login}
use game_database_server.TestClient.Calls.{Carries, RequestCall, carried, made}
use game_database_server.TestClient.Sending.{Framed, send_packet-Framed}
use game_database_server.TestClient.Receiving.{Sized, receive_packet-Sized}
use game_database_server.TestClient.Collecting.{receive_packet-collects}
use game_database_server.TestClient.Reconnecting.{try_reconnect-leaks}
use game_database_server.TestClient.RoundTrips.{ParsedAs, made-parse}
use game_database_server.TestClient.EndToEnd.{made-answered}
use game_database_server.TestClient.ReplyCalls.{ReplyCall, reply_body, replied}
use game_database_server.TestClient.Replies.{UnderstoodAs, replied-parse}
use game_database_server.TestClient.Users.{LogsIn, test_login-LogsIn}
use game_database_server.Examples.{demo, world}

-- A packet of two bytes comes behind its header.
abbrev arrivals : ℕ → List ℕ
arrivals zero = header_of 2
arrivals (suc n) = 5 ∷ 6 ∷ []

abbrev network : Network
network = record { connects = λ n. ConnectResult.connected 9; accepts = λ n. 4; arrives = arrivals }

-- No call of send takes a byte.
abbrev jammed : Network
jammed = record network { accepts = λ n. 0 }

abbrev online : GameServerTestClient
online = record new_client { client_socket = some 8; connected = true }

send_packet-Framed_example :
    Framed ⦃net = network⦄ (1 ∷ 2 ∷ []) online (send_packet ⦃net = network⦄ (1 ∷ 2 ∷ []) online)
send_packet-Framed_example = send_packet-Framed ⦃net = network⦄ (1 ∷ 2 ∷ []) online

receive_packet-Sized_example :
    Sized ⦃net = network⦄ 2 online (receive_packet ⦃net = network⦄ online)
unfolding new_client
receive_packet-Sized_example = receive_packet-Sized ⦃net = network⦄ online

receive_packet-collects_example :
    ((receive_packet ⦃net = network⦄ online).0 ≡ 5 ∷ 6 ∷ [])
    × ((receive_packet ⦃net = network⦄ online).1.connected ≡ true)
unfolding new_client is_connected_client
receive_packet-collects_example =
    receive_packet-collects ⦃net = network⦄ ((5 ∷ 6 ∷ []) ∷ []) online refl (omega arith)
      (omega arith) refl (refl, omega arith, tt)

try_reconnect-leaks_example :
    let x = send_packet ⦃net = jammed⦄ (1 ∷ []) online in
    (x.0 ≡ false)
    × ((try_reconnect ⦃net = jammed⦄ x.1).0 ≡ true)
    × ((try_reconnect ⦃net = jammed⦄ x.1).1.client_socket ≡ some 9)
    × ((try_reconnect ⦃net = jammed⦄ x.1).1.closed ≡ [])
unfolding new_client
try_reconnect-leaks_example =
    try_reconnect-leaks ⦃net = jammed⦄ (1 ∷ []) online 8 9 refl refl refl refl refl

abbrev login_call : RequestCall
login_call = RequestCall.login "ann" "pw"

-- FlatBuffers on this packet.
abbrev carrying : Platform
carrying = record demo {
  build = λ d. some (5 ∷ 6 ∷ []);
  get_database_packet = λ bytes. some (request_packet (carried login_call));
}

carrying-Builds : Builds carrying
carrying-Builds = record { finished = λ d. (5, 6 ∷ [], refl) }

carrying-Carries : Carries ⦃p = carrying⦄ (request_packet (carried login_call)) (5 ∷ 6 ∷ [])
carrying-Carries = record { built = refl; some_bytes = refl; verified = refl; read = refl }

abbrev manager : ClientPacketManager
manager = record { last_error = "before" }

made-parse_example :
    (made ⦃p = carrying⦄ login_call manager ≡ (5 ∷ 6 ∷ [], forget_error manager))
    × ParsedAs ⦃p = carrying⦄ (carried login_call) (5 ∷ 6 ∷ []) world
made-parse_example =
    made-parse ⦃p = carrying⦄ login_call (5 ∷ 6 ∷ []) manager world carrying-Carries

abbrev pieces : List Chunk
pieces = record { waits = 1; bytes = 5 ∷ [] } ∷ record { waits = 0; bytes = 6 ∷ [] } ∷ []

abbrev worker : WorkerThread
worker = new_worker true 7

made-answered_example :
    let sent =
      send_packet ⦃net = network⦄ (made ⦃p = carrying⦄ login_call online.packet_manager).0 online in
    (sent.1.wire ≡ ([] ++ header_of 2) ++ (5 ∷ 6 ∷ []))
    × ((task : Task) × (process_client_data 7
            (RecvResult.received (header_of 2) ∷ arriving pieces)
            worker
          ≡ some (record worker { tasks = task ∷ worker.tasks }))
        × (((run_task ⦃p = carrying⦄ task world).0 ≡ crash)
            ⊎ ((r : DbResponse) × (r.client_socket ≡ 7)
                × ((run_task ⦃p = carrying⦄ task world).1.sent ≡ r ∷ world.sent))))
unfolding new_worker is_connected new_client send_packet send_rest is_connected_client
    create_login_request create_request
made-answered_example =
    made-answered ⦃p = carrying⦄ ⦃net = network⦄ carrying-Builds login_call online 7 pieces worker
      world carrying-Carries refl (omega arith)
      (omega arith, omega arith, (omega arith, omega arith, tt)) (omega arith) refl refl

abbrev reply_call : ReplyCall
reply_call = ReplyCall.login ResultCode.success 3 "ann" "Ann" 1

abbrev replying : Platform
replying = record demo {
  build = λ d. some (5 ∷ 6 ∷ []);
  get_database_packet = λ bytes. some (packet_of (reply_body reply_call) 7);
}

replied-parse_example :
    (replied ⦃p = replying⦄ reply_call 7 world
      ≡ (ok (5 ∷ 6 ∷ []), record world { last_error = "" }))
    × UnderstoodAs ⦃p = replying⦄ (reply_body reply_call) (5 ∷ 6 ∷ []) manager
replied-parse_example =
    replied-parse ⦃p = replying⦄ reply_call 7 (5 ∷ 6 ∷ []) world manager
      (record { built = refl; some_bytes = refl; verified = refl; read = refl })

test_login-LogsIn_example :
    LogsIn ⦃p = replying⦄ ⦃net = network⦄ "ann" "pw" online
      (test_login ⦃p = replying⦄ ⦃net = network⦄ "ann" "pw" online)
test_login-LogsIn_example = test_login-LogsIn ⦃p = replying⦄ ⦃net = network⦄ "ann" "pw" online

-- The texts of a table, where there is one.
abbrev all_of : {A : Type 0} → (A → Bool) → Option A → Bool
all_of texts none = true
all_of texts (some r) = texts r

abbrev choices : List Choice
choices = Choice.reconnect ∷ Choice.login "ann" "pw" ∷ Choice.exit ∷ []
