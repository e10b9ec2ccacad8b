-- ===== src/TestClient/Session.antt =====
-- ClientMain.cpp, GameServerTestClient: its fields and the methods on its connection.
use game_database_server.Prelude.{
  ℕ, zero, suc, ◌-◌, Bool, true, false, not, ◌&&◌, ◌||◌, List, [], ◌∷◌, ◌++◌, Option, none, some,
  String, ltb, ◌==◌, if◌then◌else◌, length, take, drop,
}
use game_database_server.PacketManager.Defs.{is_empty}
use game_database_server.Worker.Transfer.{packet_size_of}
use game_database_server.Worker.Framing.{header_of}
use game_database_server.TestClient.Manager.{ClientPacketManager, Method}
use game_database_server.TestClient.Network.{Network, ConnectResult}

pub record GameServerTestClient : Type 0 where
  -- _client_socket, where `none` is INVALID_SOCKET
  pub client_socket : Option ℕ
  pub packet_manager : ClientPacketManager
  pub connected : Bool
  pub current_user_id : ℕ
  pub current_username : String
  -- The calls of connect, send and recv made so far.
  pub attempts : ℕ
  pub sends : ℕ
  pub receives : ℕ
  -- The bytes that were sent, the oldest first, and the sockets that were closed, the newest first.
  pub wire : List ℕ
  pub closed : List ℕ

unfoldable pub new_client : GameServerTestClient
new_client = record {
  client_socket = none;
  packet_manager = record { last_error = "" };
  connected = false;
  current_user_id = 0;
  current_username = "";
  attempts = 0;
  sends = 0;
  receives = 0;
  wire = [];
  closed = [];
}

-- A method of the packet manager.
abbrev pub managed : {A : Type 0} → Method A → GameServerTestClient → A × GameServerTestClient
managed method c = let (a, m) = method c.packet_manager in (a, record c { packet_manager = m })

abbrev pub is_socket : Option ℕ → Bool
is_socket none = false
is_socket (some s) = true

unfoldable pub is_connected_client : GameServerTestClient → Bool
is_connected_client c = c.connected && is_socket c.client_socket

abbrev pub close_client : Option ℕ → GameServerTestClient → GameServerTestClient
close_client none c = c
close_client (some s) c = record c {
  client_socket = none;
  connected = false;
  closed = s ∷ c.closed;
}

unfoldable pub disconnect : GameServerTestClient → GameServerTestClient
disconnect c = if c.connected then close_client c.client_socket c else c

-- `_connected = false` behind an error of send or recv
abbrev pub lose : GameServerTestClient → GameServerTestClient
lose c = record c { connected = false }

abbrev pub connecting : ConnectResult → GameServerTestClient → Bool × GameServerTestClient
connecting ConnectResult.no_socket c = (false, record c { client_socket = none })
connecting (ConnectResult.refused s) c =
    (false, record c { client_socket = none; closed = s ∷ c.closed })
connecting (ConnectResult.connected s) c =
    (true, record c { client_socket = some s; connected = true })

module _ ⦃net : Network⦄ where
  unfoldable pub connect_client : GameServerTestClient → Bool × GameServerTestClient
  connect_client c =
      if c.connected
      then (true, c)
      else connecting (net.connects c.attempts) (record c { attempts = suc c.attempts })

  -- The attempts that are left.
  unfoldable pub reconnect_loop : ℕ → GameServerTestClient → Bool × GameServerTestClient
  reconnect_loop zero c = (false, c)
  reconnect_loop (suc left) c =
      let (done, c') = connect_client c in
      let rest = reconnect_loop left c' in if done then (true, c') else rest

  unfoldable pub try_reconnect : GameServerTestClient → Bool × GameServerTestClient
  try_reconnect c = reconnect_loop 3 (disconnect c)

  -- A call of send that is given some bytes: it takes the first of them.
  abbrev pub sending : List ℕ → GameServerTestClient → GameServerTestClient
  sending bytes c = record c {
    sends = suc c.sends;
    wire = c.wire ++ take (net.accepts c.sends) bytes;
  }

  -- The loop of SendPacket for the bytes that are left, on fuel: each call takes one at least.
  unfoldable pub send_rest : ℕ → List ℕ → GameServerTestClient → Bool × GameServerTestClient
  send_rest fuel [] c = (true, c)
  send_rest zero (b ∷ bytes) c = (false, c)
  send_rest (suc fuel) (b ∷ bytes) c =
      let c' = sending (b ∷ bytes) c in
      let rest = send_rest fuel (drop (net.accepts c.sends) (b ∷ bytes)) c' in
      if net.accepts c.sends == 0 then (false, lose c') else rest

  unfoldable pub send_packet : List ℕ → GameServerTestClient → Bool × GameServerTestClient
  send_packet packet c =
      if not (is_connected_client c) || is_empty packet
      then (false, c)
      else if net.accepts c.sends == 0
      then (false, lose (sending (header_of (length packet)) c))
      else send_rest (length packet) packet (sending (header_of (length packet)) c)

  -- The four bytes of `packetSize`, which is 0 before; a shorter answer leaves the last of them.
  abbrev pub pad_header : List ℕ → List ℕ
  pad_header header = header ++ take (4 - length header) (0 ∷ 0 ∷ 0 ∷ 0 ∷ [])

  abbrev pub received : GameServerTestClient → GameServerTestClient
  received c = record c { receives = suc c.receives }

  -- The loop of ReceivePacket for so many missing bytes, on fuel: each call brings one at least.
  unfoldable pub receive_rest :
      ℕ → (missing : ℕ) → List ℕ → GameServerTestClient → List ℕ × GameServerTestClient
  receive_rest fuel zero so_far c = (so_far, c)
  receive_rest zero (suc missing) so_far c = ([], c)
  receive_rest (suc fuel) (suc missing) so_far c =
      let bytes = take (suc missing) (net.arrives c.receives) in
      let rest = receive_rest fuel (suc missing - length bytes) (so_far ++ bytes) (received c) in
      if is_empty bytes then ([], lose (received c)) else rest

  -- Behind the size of the packet.
  unfoldable pub receive_sized : ℕ → GameServerTestClient → List ℕ × GameServerTestClient
  receive_sized size c =
      if size == 0 || ltb 65536 size then ([], lose c) else receive_rest size size [] c

  -- Behind the bytes of the header.
  unfoldable pub receive_headed : List ℕ → GameServerTestClient → List ℕ × GameServerTestClient
  unfolding receive_sized
  receive_headed header c =
      if is_empty header then ([], lose c) else receive_sized (packet_size_of (pad_header header)) c

  unfoldable pub receive_packet : GameServerTestClient → List ℕ × GameServerTestClient
  unfolding receive_headed
  receive_packet c =
      if not (is_connected_client c)
      then ([], c)
      else receive_headed (take 4 (net.arrives c.receives)) (received c)
