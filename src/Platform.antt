-- ===== src/Platform.antt =====
-- The code that the server calls and that is not under src/: the MySQL client library with the
-- database behind it, FlatBuffers with its generated accessors, and the C++ library's floats and
-- exception texts. They are the record `Platform`, an argument of every definition that uses them.
-- What the database answers may depend on all calls made so far, the newest first in a `History`:
-- so the record says nothing of what the tables hold, and other clients may change them.
use game_database_server.Prelude.{ℕ, Bool, List, Option, String}
use game_database_server.Packet.Event.{DatabasePacket}

pub data Call : Type 0 where
  init options close set_character_set : Call
  real_connect : (host user_name pass : String) → ℕ → (db_name : String) → Call
  query : String → Call
  store_result free_result affected_rows : Call

abbrev pub History : Type 0
History = List Call

-- A MYSQL_ROW: each cell is a text or null.
abbrev pub Row : Type 0
Row = List (Option String)

-- A MYSQL_RES: mysql_num_fields and the rows that mysql_fetch_row gives.
pub record ResultSet : Type 0 where
  pub num_fields : ℕ
  pub rows : List Row

pub record Platform : Type 0 where
  -- mysql_init and mysql_real_connect return a connection; mysql_query returns 0.
  pub init_succeeds : History → Bool
  pub connect_succeeds : History → Bool
  pub query_succeeds : History → String → Bool
  -- mysql_store_result, null as `none`; mysql_affected_rows, a 64-bit number.
  pub stored : History → Option ResultSet
  pub affected : History → ℕ
  -- VerifyDatabasePacketBuffer, GetDatabasePacket, and a FlatBufferBuilder's finished buffer,
  -- `none` where the builder throws.
  pub verify_buffer : List ℕ → Bool
  pub get_database_packet : List ℕ → Option DatabasePacket
  pub build : DatabasePacket → Option (List ℕ)
  pub build_what : String
  -- Floats by their 32-bit patterns: `stream << x`, and std::stof, `none` where it throws.
  pub show_float : ℕ → String
  pub stof : String → Option ℕ
  pub stof_what : String → String
  pub stoul_what : String → String
