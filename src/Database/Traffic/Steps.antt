-- ===== src/Database/Traffic/Steps.antt =====
-- The shapes that the handlers share, and the sessions.
use game_database_server.Prelude.{
  ℕ, ◌≡◌, refl, Bool, List, [], ◌∷◌, Option, none, some, String, if◌then◌else◌,
}
use game_database_server.Packet.{Task}
use game_database_server.Packet.EventType.{EventType}
use game_database_server.Packet.ResultCode.{ResultCode}
use game_database_server.Platform.{Platform, Row, ResultSet}
use game_database_server.Action.{Action, ◌>>=◌}
use game_database_server.Action.Traffic.{
  Quiet, Answers, quiet_rules, Quiet-bind, Quiet-pure, Answers-bind, Answers-if,
}
use game_database_server.PacketManager.Defs.{set_error, is_empty}
use game_database_server.PacketManager.Validate.{validate, verdict}
use game_database_server.Database.Respond.{
  enqueue, error_response, success_response, send_response, send_error_response, with_request,
  select, respond_or, execute_and_affect, stoul_cell, id_of_rows, id_of_result, insert_and_get_id,
}
use game_database_server.Database.Session.{
  check_db_connection, execute_and_count, set_user_online_status, force_logout_existing_session,
  reconnect_if_needed, is_usable, cleanup_game_server_by_socket, cleanup_user_session_by_socket,
  handle_client_disconnected,
}
use game_database_server.Database.Account.{create_default_player_data, logout_packet}
use game_database_server.Database.Traffic.Calls.{call_rules, verdict-Quiet}
use game_database_server.Database.Traffic.Packets.{
  Builds, Packs, Packs-Quiet, create_logout_response-Packs, Answers-respond,
  create_generic_error_response-Quiet,
}

enqueue-Answers :
    (task : Task) (code : ResultCode) (packet : List ℕ)
    → Answers task.client_socket (enqueue (error_response task code packet))
unfolding enqueue
enqueue-Answers task code packet = record {
  at = λ w. (error_response task code packet, refl, refl);
}

verdict-Answers :
    {s : ℕ} {refused body : Action (Unit {0})} (e : Option String)
    → Answers s refused
    → (e ≡ none → Answers s body)
    → Answers s (verdict e >>= λ valid. if valid then body else refused)
unfolding ◌>>=◌ verdict set_error
verdict-Answers none ar ab = record { at = λ w. (ab refl).at w }
verdict-Answers (some e) ar ab = record { at = λ w. ar.at (record w { last_error = e }) }

-- A body sees that its request has passed the check.
pub Answers-with_request :
    {A : Type 0} {s : ℕ} (text : String) (check : A → Option String) {refused : Action (Unit {0})}
    {body : A → Action (Unit {0})} (r : Option A)
    → Answers s refused
    → ((a : A) → check a ≡ none → Answers s (body a))
    → Answers s (with_request (validate text check) refused body r)
unfolding with_request validate
Answers-with_request text check none ar ab = ar
Answers-with_request text check (some a) ar ab = verdict-Answers (check a) ar (ab a)

pub Answers-respond_or :
    (task : Task) {create : Option ResultSet → Action (List ℕ)} {otherwise : Action (Unit {0})}
    (r : Option ResultSet)
    → ((result : Option ResultSet) → Packs (create result))
    → Answers task.client_socket otherwise
    → Answers task.client_socket (respond_or task create otherwise r)
unfolding respond_or
Answers-respond_or task none pc ao = ao
Answers-respond_or task (some r) pc ao = Answers-respond task (pc (some r))

module _ ⦃p : Platform⦄ where
  pub select-Quiet : (text : String) → Quiet (select text)
  unfolding select
  select-Quiet text = search call_rules depth 8

  pub execute_and_affect-Quiet : (text : String) → Quiet (execute_and_affect text)
  unfolding execute_and_affect
  execute_and_affect-Quiet text = search call_rules depth 8

  pub stoul_cell-Quiet : (row : Row) (i : ℕ) → Quiet (stoul_cell row i)
  unfolding stoul_cell
  stoul_cell-Quiet row i = search call_rules depth 8

  id_of_rows-Quiet : (rows : List Row) → Quiet (id_of_rows rows)
  unfolding id_of_rows
  id_of_rows-Quiet [] = search call_rules depth 8
  id_of_rows-Quiet (row ∷ rows) = search (call_rules, stoul_cell-Quiet) depth 8

  id_of_result-Quiet : (r : Option ResultSet) → Quiet (id_of_result r)
  unfolding id_of_result
  id_of_result-Quiet none = search call_rules
  id_of_result-Quiet (some r) = id_of_rows-Quiet r.rows

  pub insert_and_get_id-Quiet : (text : String) → Quiet (insert_and_get_id text)
  unfolding insert_and_get_id
  insert_and_get_id-Quiet text =
      search (call_rules, execute_and_affect-Quiet, select-Quiet, id_of_result-Quiet) depth 8

  pub check_db_connection-Quiet : Quiet check_db_connection
  unfolding check_db_connection
  check_db_connection-Quiet = search call_rules

  pub execute_and_count-Quiet : (text : String) → Quiet (execute_and_count text)
  unfolding execute_and_count
  execute_and_count-Quiet text = search call_rules depth 8

  pub set_user_online_status-Quiet :
      (user_id : ℕ) (is_online : Bool) (client_socket : ℕ)
      → Quiet (set_user_online_status user_id is_online client_socket)
  unfolding set_user_online_status
  set_user_online_status-Quiet user_id is_online client_socket =
      search (call_rules, check_db_connection-Quiet) depth 8

  pub force_logout_existing_session-Quiet :
      (user_id : ℕ) → Quiet (force_logout_existing_session user_id)
  unfolding force_logout_existing_session
  force_logout_existing_session-Quiet user_id = execute_and_count-Quiet _

  pub create_default_player_data-Quiet : (user_id : ℕ) → Quiet (create_default_player_data user_id)
  unfolding create_default_player_data
  create_default_player_data-Quiet user_id = search call_rules depth 8

  pub reconnect_if_needed-Quiet : Quiet reconnect_if_needed
  unfolding reconnect_if_needed
  reconnect_if_needed-Quiet = search (call_rules, check_db_connection-Quiet) depth 8

  pub is_usable-Quiet : Quiet is_usable
  unfolding is_usable
  is_usable-Quiet =
      search (call_rules, check_db_connection-Quiet, reconnect_if_needed-Quiet) depth 8

  cleanup_game_server_by_socket-Quiet : (s : ℕ) → Quiet (cleanup_game_server_by_socket s)
  unfolding cleanup_game_server_by_socket
  cleanup_game_server_by_socket-Quiet s = search (call_rules, execute_and_count-Quiet)

  cleanup_user_session_by_socket-Quiet : (s : ℕ) → Quiet (cleanup_user_session_by_socket s)
  unfolding cleanup_user_session_by_socket
  cleanup_user_session_by_socket-Quiet s = search (call_rules, execute_and_count-Quiet)

  -- The end of a connection is answered to nobody.
  pub handle_client_disconnected-Quiet : (task : Task) → Quiet (handle_client_disconnected task)
  unfolding handle_client_disconnected
  handle_client_disconnected-Quiet task =
      search
        (
          call_rules, is_usable-Quiet, cleanup_game_server_by_socket-Quiet,
          cleanup_user_session_by_socket-Quiet,
        )
        depth 8

pub ruleset step_rules = (
  call_rules, select-Quiet, execute_and_affect-Quiet, stoul_cell-Quiet, insert_and_get_id-Quiet,
  execute_and_count-Quiet, set_user_online_status-Quiet, force_logout_existing_session-Quiet,
  create_default_player_data-Quiet, Answers-bind, Answers-if, Answers-respond, Answers-respond_or,
)

module _ ⦃p : Platform⦄ (works : Builds p) where
  -- An error response goes out even where its packet is empty.
  pub send_error_response-Answers :
      (task : Task) (type : EventType) (code : ResultCode)
      → Answers task.client_socket (send_error_response task type code)
  unfolding send_error_response
  send_error_response-Answers task type code =
      Answers-bind (create_generic_error_response-Quiet works type code task.client_socket)
        (λ packet. enqueue-Answers task code packet)

  logout_packet_cases-Answers :
      (task : Task) (packet : List ℕ)
      → Answers task.client_socket (
          if is_empty packet
          then send_error_response task EventType.s2c_logout ResultCode.fail
          else send_response task packet)
  unfolding send_response enqueue
  logout_packet_cases-Answers task [] = send_error_response-Answers task _ _
  logout_packet_cases-Answers task (b ∷ bytes) = record {
    at = λ w. (success_response task (b ∷ bytes), refl, refl);
  }

  pub logout_packet-Answers : (task : Task) → Answers task.client_socket (logout_packet task)
  unfolding logout_packet
  logout_packet-Answers task =
      Answers-bind (Packs-Quiet (create_logout_response-Packs works _ _ _))
        (λ packet. logout_packet_cases-Answers task packet)
