-- ===== src/Database/Account.antt =====
-- DatabaseThread.cpp: HandleLoginRequest, HandleLogoutRequest, HandleCreateAccountRequest.
pub mod Login
use game_database_server.Prelude.{
  ℕ, Bool, true, false, List, [], ◌∷◌, Option, none, some, String, str_eq, if◌then◌else◌,
}
use game_database_server.Text.{c_str}
use game_database_server.Packet.{Task}
use game_database_server.Packet.EventType.{EventType}
use game_database_server.Packet.ResultCode.{ResultCode}
use game_database_server.Packet.Request.{C2sLogin, C2sLogout, C2sCreateAccount}
use game_database_server.Platform.{Platform, Row, ResultSet}
use game_database_server.Action.{Action, pure, deref, ◌>>=◌, ◌>>◌}
use game_database_server.Connector.{execute_query, free_result}
use game_database_server.PacketManager.Defs.{is_empty, cell, text_or_empty}
use game_database_server.PacketManager.Parse.{
  parse_login_request, parse_logout_request, parse_create_account_request,
}
use game_database_server.PacketManager.Validate.{
  validate_login_request, validate_create_account_request,
}
use game_database_server.PacketManager.Build.{
  create_login_response, create_logout_response, create_account_response,
}
use game_database_server.PacketManager.Errors.{
  create_login_error_response, create_account_error_response,
}
use game_database_server.Database.Respond.{
  send_response, send_error_response, respond, with_request, select, stoul_cell, insert_and_get_id,
}
use game_database_server.Database.Session.{
  set_user_online_status, force_logout_existing_session, execute_and_count,
}
use game_database_server.Database.Sql.{
  find_login, close_servers_of_user, insert_user, insert_player, insert_first_items, insert_session,
}

module _ ⦃p : Platform⦄ where
  -- row[3] && std::string(row[3]) == "1"
  abbrev pub says_one : Option String → Bool
  says_one none = false
  says_one (some s) = str_eq s "1"

  -- The end of HandleLoginRequest, for the four values of the row: a user that is online is logged
  -- out, whether that works or not, and the new login is refused.
  unfoldable pub finish_login : Task → String → ℕ → String → ℕ → Bool → Action (Unit {0})
  finish_login task username user_id nickname level true = do
    _ ← force_logout_existing_session user_id
    respond task (create_login_error_response ResultCode.fail task.client_socket)
  finish_login task username user_id nickname level false = do
    online ← set_user_online_status user_id true task.client_socket
    if online
        then respond task (
            create_login_response ResultCode.success user_id username nickname level
              task.client_socket)
        else send_error_response task EventType.s2c_login ResultCode.fail

  unfoldable pub login_rows : Task → String → List Row → Action (Unit {0})
  login_rows task username [] = do
    free_result
    send_error_response task EventType.s2c_login ResultCode.invalid_user
  login_rows task username (row ∷ rows) = do
    user_id ← stoul_cell row 0
    nickname ← cell row 1
    level ← stoul_cell row 2
    online ← cell row 3
    free_result
    finish_login task username user_id (text_or_empty nickname) level (says_one online)

  unfoldable pub login_result : Task → String → Option ResultSet → Action (Unit {0})
  login_result task username none = send_error_response task EventType.s2c_login ResultCode.fail
  login_result task username (some r) = login_rows task username r.rows

  -- A failed query and a null result are answered alike.
  unfoldable pub login : Task → C2sLogin → Action (Unit {0})
  login task request = do
    username ← deref request.username
    password ← deref request.password
    r ← select (find_login (c_str username) (c_str password))
    login_result task username r

  unfoldable pub handle_login_request : Task → Action (Unit {0})
  handle_login_request task = do
    request ← parse_login_request task.flatbuffer_data
    with_request validate_login_request
        (send_error_response task EventType.s2c_login ResultCode.invalid_user) (login task) request

  -- An empty packet is answered by an error response.
  unfoldable pub logout_packet : Task → Action (Unit {0})
  logout_packet task = do
    packet ← create_logout_response ResultCode.success "로그아웃 완료" task.client_socket
    if is_empty packet
        then send_error_response task EventType.s2c_logout ResultCode.fail
        else send_response task packet

  -- The servers and the session are closed in two statements, and their failure is only logged.
  unfoldable pub logout : Task → Option C2sLogout → Action (Unit {0})
  logout task none = send_error_response task EventType.s2c_logout ResultCode.fail
  logout task (some request) = do
    _ ← execute_and_count (close_servers_of_user request.user_id)
    _ ← set_user_online_status request.user_id false 0
    logout_packet task

  unfoldable pub handle_logout_request : Task → Action (Unit {0})
  handle_logout_request task = do
    request ← parse_logout_request task.flatbuffer_data
    logout task request

  -- Three statements whose results nobody reads.
  unfoldable pub create_default_player_data : ℕ → Action (Unit {0})
  create_default_player_data user_id = do
    _ ← execute_query (insert_player user_id)
    _ ← execute_query (insert_first_items user_id)
    _ ← execute_query (insert_session user_id)
    pure tt

  unfoldable pub account_created : Task → Option ℕ → Action (Unit {0})
  account_created task none = respond task (
      create_account_error_response ResultCode.fail "이미 존재하는 사용자명이거나 계정 생성에 실패했습니다"
        task.client_socket)
  account_created task (some new_user_id) = do
    create_default_player_data new_user_id
    respond task
        (create_account_response ResultCode.success new_user_id "계정 생성 성공" task.client_socket)

  unfoldable pub create_account : Task → C2sCreateAccount → Action (Unit {0})
  create_account task request = do
    username ← deref request.username
    password ← deref request.password
    nickname ← deref request.nickname
    new_user_id ← insert_and_get_id (insert_user (c_str username) (c_str password) (c_str nickname))
    account_created task new_user_id

  unfoldable pub handle_create_account_request : Task → Action (Unit {0})
  handle_create_account_request task = do
    request ← parse_create_account_request task.flatbuffer_data
    with_request validate_create_account_request
        (send_error_response task EventType.s2c_create_account ResultCode.invalid_user)
        (create_account task) request
