-- ===== src/Database/Traffic/Calls.antt =====
-- Neither MySqlConnector nor the reading of packets and rows sends anything.
use game_database_server.Prelude.{
  ℕ, zero, suc, Bool, List, [], ◌∷◌, Option, none, some, String, refl,
}
use game_database_server.Packet.EventType.{EventType}
use game_database_server.Packet.Event.{Event}
use game_database_server.Platform.{Platform, Row, ResultSet}
use game_database_server.Action.Traffic.{Quiet, quiet_rules}
use game_database_server.Connector.{
  set_conn, set_init, count_result, init, connect, execute_query, get_result, get_affected_rows,
  free_result, renew,
}
use game_database_server.PacketManager.Defs.{
  set_error, clear_error, cell, get_string_from_row, or_throw, stoul_or_throw, uint_of_cell,
  get_uint_from_row, float_of_cell, get_float_from_row, verify_packet, is_valid_packet,
  get_packet_type,
}
use game_database_server.PacketManager.Parse.{parse_request}
use game_database_server.PacketManager.Validate.{verdict, validate}

pub set_conn-Quiet : (b : Bool) → Quiet (set_conn b)
unfolding set_conn
set_conn-Quiet b = record { at = λ w. refl }

pub set_init-Quiet : Quiet set_init
unfolding set_init
set_init-Quiet = record { at = λ w. refl }

pub count_result-Quiet : (r : Option ResultSet) → Quiet (count_result r)
unfolding count_result
count_result-Quiet none = record { at = λ w. refl }
count_result-Quiet (some r) = record { at = λ w. refl }

pub free_result-Quiet : Quiet free_result
unfolding free_result
free_result-Quiet = record { at = λ w. refl }

pub renew-Quiet : Quiet renew
unfolding renew
renew-Quiet = record { at = λ w. refl }

pub set_error-Quiet : (e : String) → Quiet (set_error e)
unfolding set_error
set_error-Quiet e = record { at = λ w. refl }

pub clear_error-Quiet : Quiet clear_error
unfolding clear_error
clear_error-Quiet = record { at = λ w. refl }

pub cell-Quiet : (row : Row) (i : ℕ) → Quiet (cell row i)
unfolding cell
cell-Quiet [] i = search quiet_rules
cell-Quiet (c ∷ row) zero = search quiet_rules
cell-Quiet (c ∷ row) (suc i) = cell-Quiet row i

pub get_string_from_row-Quiet : (row : Row) (i : ℕ) → Quiet (get_string_from_row row i)
unfolding get_string_from_row
get_string_from_row-Quiet row i = search (quiet_rules, cell-Quiet)

pub verdict-Quiet : (e : Option String) → Quiet (verdict e)
unfolding verdict
verdict-Quiet none = search quiet_rules
verdict-Quiet (some e) = search (quiet_rules, set_error-Quiet)

pub validate-Quiet :
    {A : Type 0} (text : String) (check : A → Option String) (r : Option A)
    → Quiet (validate text check r)
unfolding validate
validate-Quiet text check none = verdict-Quiet (some text)
validate-Quiet text check (some r) = verdict-Quiet (check r)

pub ruleset plain_rules = (
  quiet_rules, set_conn-Quiet, set_init-Quiet, count_result-Quiet, free_result-Quiet, renew-Quiet,
  set_error-Quiet, clear_error-Quiet, cell-Quiet, get_string_from_row-Quiet,
)

module _ ⦃p : Platform⦄ where
  pub init-Quiet : Quiet init
  unfolding init
  init-Quiet = search plain_rules depth 12

  pub connect-Quiet : Quiet connect
  unfolding connect
  connect-Quiet = search plain_rules depth 12

  pub execute_query-Quiet : (text : String) → Quiet (execute_query text)
  unfolding execute_query
  execute_query-Quiet text = search plain_rules depth 12

  pub get_result-Quiet : Quiet get_result
  unfolding get_result
  get_result-Quiet = search plain_rules depth 12

  pub get_affected_rows-Quiet : Quiet get_affected_rows
  unfolding get_affected_rows
  get_affected_rows-Quiet = search plain_rules depth 12

  pub or_throw-Quiet : (o : Option ℕ) (what : String) → Quiet (or_throw o what)
  unfolding or_throw
  or_throw-Quiet none what = search quiet_rules
  or_throw-Quiet (some n) what = search quiet_rules

  pub stoul_or_throw-Quiet : (s : String) → Quiet (stoul_or_throw s)
  unfolding stoul_or_throw
  stoul_or_throw-Quiet s = or_throw-Quiet _ _

  pub uint_of_cell-Quiet : (c : Option String) → Quiet (uint_of_cell c)
  unfolding uint_of_cell
  uint_of_cell-Quiet none = search quiet_rules
  uint_of_cell-Quiet (some s) = stoul_or_throw-Quiet s

  pub get_uint_from_row-Quiet : (row : Row) (i : ℕ) → Quiet (get_uint_from_row row i)
  unfolding get_uint_from_row
  get_uint_from_row-Quiet row i = search (plain_rules, uint_of_cell-Quiet)

  pub float_of_cell-Quiet : (c : Option String) → Quiet (float_of_cell c)
  unfolding float_of_cell
  float_of_cell-Quiet none = search quiet_rules
  float_of_cell-Quiet (some s) = or_throw-Quiet _ _

  pub get_float_from_row-Quiet : (row : Row) (i : ℕ) → Quiet (get_float_from_row row i)
  unfolding get_float_from_row
  get_float_from_row-Quiet row i = search (plain_rules, float_of_cell-Quiet)

  pub verify_packet-Quiet : (bytes : List ℕ) → Quiet (verify_packet bytes)
  unfolding verify_packet
  verify_packet-Quiet bytes = search plain_rules depth 8

  pub is_valid_packet-Quiet : (bytes : List ℕ) → Quiet (is_valid_packet bytes)
  unfolding is_valid_packet
  is_valid_packet-Quiet bytes = verify_packet-Quiet bytes

  pub get_packet_type-Quiet : (bytes : List ℕ) → Quiet (get_packet_type bytes)
  unfolding get_packet_type
  get_packet_type-Quiet bytes = search (plain_rules, verify_packet-Quiet) depth 8

  pub parse_request-Quiet :
      {A : Type 0} (type : EventType) (message : String) (as_body : Event → Option A)
      (bytes : List ℕ)
      → Quiet (parse_request type message as_body bytes)
  unfolding parse_request
  parse_request-Quiet type message as_body bytes =
      search (plain_rules, verify_packet-Quiet) depth 12

pub ruleset call_rules = (
  plain_rules, init-Quiet, connect-Quiet, execute_query-Quiet, get_result-Quiet,
  get_affected_rows-Quiet, stoul_or_throw-Quiet, get_uint_from_row-Quiet, get_float_from_row-Quiet,
  is_valid_packet-Quiet, get_packet_type-Quiet, parse_request-Quiet,
)
