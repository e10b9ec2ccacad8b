-- ===== src/PacketManager/Defs.antt =====
-- ServerPacketManager: the error text, the check of a buffer, and the cells of a result row.
use game_database_server.Prelude.{
  ℕ, zero, suc, Bool, true, false, List, [], ◌∷◌, Option, none, some, String, if◌then◌else◌,
}
use game_database_server.Text.{stoul}
use game_database_server.Packet.EventType.{EventType}
use game_database_server.Packet.Event.{DatabasePacket, packet_event_type}
use game_database_server.Platform.{Platform, Row}
use game_database_server.Action.{Action, pure, throw, undefined, ok, ◌>>=◌, ◌>>◌}

unfoldable pub set_error : String → Action (Unit {0})
set_error e w = (ok tt, record w { last_error = e })

unfoldable pub clear_error : Action (Unit {0})
clear_error w = (ok tt, record w { last_error = "" })

abbrev pub is_empty : {A : Type 0} → List A → Bool
is_empty [] = true
is_empty (x ∷ xs) = false

-- row[index] of a row that is not null; past the last column it is undefined.
unfoldable pub cell : Row → ℕ → Action (Option String)
cell [] i = undefined
cell (c ∷ row) zero = pure c
cell (c ∷ row) (suc i) = cell row i

abbrev pub text_or_empty : Option String → String
text_or_empty none = ""
text_or_empty (some s) = s

unfoldable pub get_string_from_row : Row → ℕ → Action String
get_string_from_row row i = do c ← cell row i; pure (text_or_empty c)

module _ ⦃p : Platform⦄ where
  -- std::stoul as an action that may throw.
  unfoldable pub or_throw : Option ℕ → String → Action ℕ
  or_throw none what = throw what
  or_throw (some n) what = pure n

  unfoldable pub stoul_or_throw : String → Action ℕ
  stoul_or_throw s = or_throw (stoul s) (p.stoul_what s)

  unfoldable pub uint_of_cell : Option String → Action ℕ
  uint_of_cell none = pure 0
  uint_of_cell (some s) = stoul_or_throw s

  unfoldable pub get_uint_from_row : Row → ℕ → Action ℕ
  get_uint_from_row row i = do c ← cell row i; uint_of_cell c

  unfoldable pub float_of_cell : Option String → Action ℕ
  float_of_cell none = pure 0
  float_of_cell (some s) = or_throw (p.stof s) (p.stof_what s)

  unfoldable pub get_float_from_row : Row → ℕ → Action ℕ
  get_float_from_row row i = do c ← cell row i; float_of_cell c

  unfoldable pub verify_packet : List ℕ → Action Bool
  verify_packet bytes =
      if is_empty bytes
      then (do set_error "Invalid packet data"; pure false)
      else pure (p.verify_buffer bytes)

  unfoldable pub is_valid_packet : List ℕ → Action Bool
  is_valid_packet bytes = verify_packet bytes

  abbrev pub type_of : Option DatabasePacket → EventType
  type_of none = EventType.none
  type_of (some d) = packet_event_type d

  abbrev pub socket_of : Option DatabasePacket → ℕ
  socket_of none = 0
  socket_of (some d) = d.client_socket

  unfoldable pub get_packet_type : List ℕ → Action EventType
  get_packet_type bytes = do
    valid ← verify_packet bytes
    if valid then pure (type_of (p.get_database_packet bytes)) else pure EventType.none

  unfoldable pub get_client_socket : List ℕ → Action ℕ
  get_client_socket bytes = do
    valid ← verify_packet bytes
    if valid then pure (socket_of (p.get_database_packet bytes)) else pure 0
