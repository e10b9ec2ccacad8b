-- ===== src/TestClient/EndToEnd.antt =====
-- A request from the client's packet manager over the wire, the worker and its queue to the database
-- thread.
use game_database_server.Prelude.{
  inl, inr, ◌++◌, take, ap, Bool, ℕ, ◌≤◌, ◌≡◌, refl, ◌⊎◌, true, false, List, [], ◌∷◌, some, length,
  arith,
}
use game_database_server.Packet.{Task, DbResponse, packet_task}
use game_database_server.Platform.{Platform}
use game_database_server.Action.{World, crash}
use game_database_server.Connector.{is_connected}
use game_database_server.PacketManager.Defs.{is_empty}
use game_database_server.Worker.Clients.{WorkerThread}
use game_database_server.Worker.Transfer.{RecvResult, process_client_data}
use game_database_server.Worker.Framing.{
  Chunk, Arrive, joined, arriving, header_of, process_client_data-collects,
}
use game_database_server.Database.Tasks.{run_task}
use game_database_server.Database.Traffic.{Builds, IsPacket, run_task-answers_once}
use game_database_server.TestClient.Manager.{request_packet}
use game_database_server.TestClient.Network.{Network}
use game_database_server.TestClient.Session.{GameServerTestClient, send_packet}
use game_database_server.TestClient.Sending.{Framed, send_packet-Framed}
use game_database_server.TestClient.Calls.{Carries, RequestCall, carried, made}
use game_database_server.TestClient.Collecting.{take-all}
use game_database_server.TestClient.RoundTrips.{made-bytes, carried-is_request}

some_length : (bytes : List ℕ) → is_empty bytes ≡ false → 1 ≤ length bytes
some_length [] h = absurd cc
some_length (b ∷ bytes) h = omega arith

module _ ⦃net : Network⦄ where
  sent_wire :
      (packet : List ℕ) (c : GameServerTestClient) (x : Bool × GameServerTestClient)
      → Framed packet c x
      → x.0 ≡ true
      → x.1.wire ≡ (c.wire ++ take (net.accepts c.sends) (header_of (length packet))) ++ packet
  sent_wire packet c x (inl (done, on, still, wire)) sent = wire
  sent_wire packet c x (inr (inl (failed, off, on, first))) sent = absurd cc
  sent_wire packet c x (inr (inr (same, why))) sent = absurd cc

  wire_lem :
      (packet bytes : List ℕ) (c : GameServerTestClient)
      → packet ≡ bytes
      → (send_packet packet c).0 ≡ true
      → 4 ≤ net.accepts c.sends
      → (send_packet packet c).1.wire ≡ (c.wire ++ header_of (length bytes)) ++ bytes
  wire_lem packet bytes c e sent whole =
      rw
        (
          sent_wire packet c (send_packet packet c) (send_packet-Framed packet c) sent,
          take-all (net.accepts c.sends) (header_of (length packet)) whole,
          e,
        )
        refl

module _ ⦃p : Platform⦄ ⦃net : Network⦄ where
  request-IsPacket :
      (call : RequestCall) (bytes : List ℕ) (s : ℕ)
      → Carries (request_packet (carried call)) bytes
      → IsPacket (packet_task s 0 bytes)
  request-IsPacket call bytes s h = record {
    of_client = refl;
    no_query = refl;
    has_data = h.some_bytes;
    verified = h.verified;
    requests = rw h.read (carried-is_request call);
  }

  -- Where the client sends the packet of one of its requests, of 65536 bytes at most, with the header
  -- taken whole, the wire holds the header and these bytes. Where they arrive at the worker in any
  -- chunks with fewer than five blocked calls in a row, the worker puts exactly one task with these
  -- bytes into the database's queue, and the database thread, connected, puts exactly one response
  -- for the client's socket into SendQueue when it takes that task, or stops by undefined behaviour
  -- of its handler.
  pub made-answered :
      (works : Builds p) (call : RequestCall) (c : GameServerTestClient) (s : ℕ)
      (chunks : List Chunk) (v : WorkerThread) (w : World)
      → Carries (request_packet (carried call)) (joined chunks)
      → (send_packet (made call c.packet_manager).0 c).0 ≡ true
      → 4 ≤ net.accepts c.sends
      → Arrive chunks
      → length (joined chunks) ≤ 65536
      → v.has_queue ≡ true
      → is_connected w ≡ true
      → let header = header_of (length (joined chunks)) in
        ((send_packet (made call c.packet_manager).0 c).1.wire
          ≡ (c.wire ++ header) ++ joined chunks)
        × ((task : Task) × (process_client_data s (RecvResult.received header ∷ arriving chunks) v
              ≡ some (record v { tasks = task ∷ v.tasks }))
            × (((run_task task w).0 ≡ crash)
                ⊎ ((r : DbResponse) × (r.client_socket ≡ s)
                    × ((run_task task w).1.sent ≡ r ∷ w.sent))))
  made-answered works call c s chunks v w h sent whole arrive most queue on =
      let bytes = made-bytes call (joined chunks) c.packet_manager h in
      (
        wire_lem (made call c.packet_manager).0 (joined chunks) c (ap (λ x. x.0) bytes) sent whole,
        (
          packet_task s 0 (joined chunks),
          process_client_data-collects s chunks v arrive (some_length (joined chunks) h.some_bytes)
              most queue,
          run_task-answers_once works (packet_task s 0 (joined chunks)) w
              (request-IsPacket call (joined chunks) s h) on,
        ),
      )
