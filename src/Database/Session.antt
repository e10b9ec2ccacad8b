-- ===== src/Database/Session.antt =====
-- DatabaseThread.cpp: the connection, the sessions and the end of a client's connection.
pub mod Reconnect
pub mod Connecting
use game_database_server.Prelude.{
  ℕ, Bool, true, false, List, [], ◌∷◌, Option, none, some, String, if◌then◌else◌,
}
use game_database_server.Packet.{Task}
use game_database_server.Platform.{Platform, Row, ResultSet}
use game_database_server.Action.{Action, ConnectionInfo, pure, gets, deref, ok, ◌>>=◌, ◌>>◌}
use game_database_server.Connector.{
  init, connect, execute_query, get_affected_rows, free_result, is_connected, renew,
}
use game_database_server.PacketManager.Defs.{cell}
use game_database_server.Database.Respond.{select}
use game_database_server.Database.Sql.{
  reset_sessions, close_all_servers, set_online, set_offline, force_logout, close_servers_of_socket,
  end_sessions_of_socket, select_sessions,
}

unfoldable pub set_connection_info : ConnectionInfo → Action (Unit {0})
set_connection_info i w = (ok tt, record w { info = i })

-- CheckDBConnection, IsDBConnected
unfoldable pub check_db_connection : Action Bool
check_db_connection = gets is_connected

module _ ⦃p : Platform⦄ where
  -- A statement whose affected rows are read only for the log.
  unfoldable pub execute_and_count : String → Action Bool
  execute_and_count text = do
    done ← execute_query text
    if done then (do _ ← get_affected_rows; pure true) else pure false

  unfoldable pub initialize_user_sessions : Action Bool
  initialize_user_sessions = do
    connected ← check_db_connection
    if connected then execute_and_count reset_sessions else pure false

  -- The result is also the new _is_running; a true result starts the thread.
  unfoldable pub connect_db : Action Bool
  connect_db = do
    initialised ← init
    connected ← if initialised then connect else pure false
    if connected then initialize_user_sessions else pure false

  unfoldable pub reconnect_if_needed : Action Bool
  reconnect_if_needed = do
    connected ← check_db_connection
    if connected
        then pure true
        else (do renew; initialised ← init; if initialised then connect else pure false)

  unfoldable pub set_user_online_status : ℕ → Bool → ℕ → Action Bool
  set_user_online_status user_id is_online client_socket = do
    connected ← check_db_connection
    if connected
        then execute_query
            (if is_online then set_online user_id client_socket else set_offline user_id)
        else pure false

  unfoldable pub force_logout_existing_session : ℕ → Action Bool
  force_logout_existing_session user_id = execute_and_count (force_logout user_id)

  unfoldable pub disconnect_all_users : Action (Unit {0})
  disconnect_all_users = do
    connected ← check_db_connection
    if connected
        then (do
          _ ← execute_and_count reset_sessions
          _ ← execute_and_count close_all_servers
          pure tt)
        else pure tt

  unfoldable pub disconnect_user : ℕ → Action (Unit {0})
  disconnect_user user_id = do _ ← set_user_online_status user_id false 0; pure tt

  unfoldable pub cleanup_game_server_by_socket : ℕ → Action (Unit {0})
  cleanup_game_server_by_socket client_socket = do
    _ ← execute_and_count (close_servers_of_socket client_socket)
    pure tt

  unfoldable pub cleanup_user_session_by_socket : ℕ → Action (Unit {0})
  cleanup_user_session_by_socket client_socket = do
    _ ← execute_and_count (end_sessions_of_socket client_socket)
    pure tt

  -- CheckDBConnection() || ReconnectIfNeeded()
  unfoldable pub is_usable : Action Bool
  is_usable = do
    connected ← check_db_connection
    if connected then pure true else reconnect_if_needed

  unfoldable pub handle_client_disconnected : Task → Action (Unit {0})
  handle_client_disconnected task = do
    usable ← is_usable
    if usable
        then (do
          cleanup_game_server_by_socket task.client_socket
          cleanup_user_session_by_socket task.client_socket)
        else pure tt

  -- The loop of ShowSessionDebugInfo: each row's is_online is read as a text.
  unfoldable pub show_rows : List Row → Action (Unit {0})
  show_rows [] = pure tt
  show_rows (row ∷ rows) = do c ← cell row 2; _ ← deref c; show_rows rows

  unfoldable pub show_result : Option ResultSet → Action (Unit {0})
  show_result none = pure tt
  show_result (some r) = do show_rows r.rows; free_result

  unfoldable pub show_session_debug_info : Action (Unit {0})
  show_session_debug_info = do
    connected ← check_db_connection
    if connected then (do r ← select select_sessions; show_result r) else pure tt
