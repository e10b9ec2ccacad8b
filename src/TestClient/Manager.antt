-- ===== src/TestClient/Manager.antt =====
-- ClientPacketManager.cpp: the error text, the check of a buffer, and the building of a request.
use game_database_server.Prelude.{
  ℕ, Bool, false, List, [], Option, none, some, String, ◌<>◌, if◌then◌else◌,
}
use game_database_server.Packet.EventType.{EventType}
use game_database_server.Packet.Event.{Event, DatabasePacket}
use game_database_server.Platform.{Platform}
use game_database_server.PacketManager.Defs.{is_empty, type_of, socket_of}

-- _last_error
pub record ClientPacketManager : Type 0 where
  pub last_error : String

abbrev pub Method : Type 0 → Type 0
Method A = ClientPacketManager → A × ClientPacketManager

-- SetError
unfoldable pub fail_with : String → ClientPacketManager → ClientPacketManager
fail_with e m = record m { last_error = e }

-- ClearError
unfoldable pub forget_error : ClientPacketManager → ClientPacketManager
forget_error m = record m { last_error = "" }

-- CreateDatabasePacket with its default for client_socket
unfoldable pub request_packet : Event → DatabasePacket
request_packet e = record { packet_event = e; client_socket = 0 }

abbrev pub bytes_or_fail : String → Option (List ℕ) → Method (List ℕ)
bytes_or_fail text none m = ([], fail_with text m)
bytes_or_fail text (some bytes) m = (bytes, m)

module _ ⦃p : Platform⦄ where
  unfoldable pub verify_packet : List ℕ → Method Bool
  verify_packet bytes m =
      if is_empty bytes
      then (false, fail_with "Invalid packet data" m)
      else (p.verify_buffer bytes, m)

  unfoldable pub is_valid_packet : List ℕ → Method Bool
  is_valid_packet = verify_packet

  unfoldable pub get_packet_type : List ℕ → Method EventType
  get_packet_type bytes m =
      let (valid, m') = verify_packet bytes m in
      ((if valid then type_of (p.get_database_packet bytes) else EventType.none), m')

  unfoldable pub get_client_socket : List ℕ → Method ℕ
  get_client_socket bytes m =
      let (valid, m') = verify_packet bytes m in
      ((if valid then socket_of (p.get_database_packet bytes) else 0), m')

  -- What the Create methods share: ClearError, and the try block with its handler.
  unfoldable pub create_request : String → Event → Method (List ℕ)
  create_request method e m =
      bytes_or_fail (method <> " failed: " <> p.build_what) (p.build (request_packet e))
        (forget_error m)
