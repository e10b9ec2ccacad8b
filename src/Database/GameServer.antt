-- ===== src/Database/GameServer.antt =====
-- DatabaseThread.cpp: the requests about game servers.
pub mod Join
use game_database_server.Prelude.{
  ℕ, Bool, true, false, not, ◌&&◌, List, [], ◌∷◌, Option, none, some, String, str_eq, leb, ◌==◌,
  if◌then◌else◌,
}
use game_database_server.Text.{c_str}
use game_database_server.Packet.{Task}
use game_database_server.Packet.EventType.{EventType}
use game_database_server.Packet.ResultCode.{ResultCode}
use game_database_server.Packet.Request.{
  C2sCreateGameServer, C2sGameServerList, C2sJoinGameServer, C2sCloseGameServer,
}
use game_database_server.Platform.{Platform, Row, ResultSet}
use game_database_server.Action.{Action, pure, deref, ◌>>=◌, ◌>>◌}
use game_database_server.Connector.{execute_query, free_result}
use game_database_server.PacketManager.Defs.{get_string_from_row, get_uint_from_row}
use game_database_server.PacketManager.Parse.{
  parse_create_game_server_request, parse_game_server_list_request, parse_join_game_server_request,
  parse_close_game_server_request,
}
use game_database_server.PacketManager.Validate.{
  validate_create_game_server_request, validate_game_server_list_request,
  validate_join_game_server_request, validate_close_game_server_request,
}
use game_database_server.PacketManager.Build.{
  create_game_server_response, create_join_game_server_response, create_close_game_server_response,
}
use game_database_server.PacketManager.Errors.{
  create_game_server_error_response, create_join_game_server_error_response,
  create_close_game_server_error_response,
}
use game_database_server.PacketManager.FromDb.{create_game_server_list_response_from_db}
use game_database_server.Database.Respond.{
  send_error_response, respond, with_request, select, respond_or, execute_and_affect,
  insert_and_get_id,
}
use game_database_server.Database.Sql.{
  insert_server, select_servers, select_server, reactivate_server, close_server,
}

module _ ⦃p : Platform⦄ where
  unfoldable pub server_created : Task → Option ℕ → Action (Unit {0})
  server_created task none = respond task (
      create_game_server_error_response ResultCode.server_name_duplicate
        "이미 존재하는 서버명이거나 서버 생성에 실패했습니다" task.client_socket)
  server_created task (some new_server_id) = respond task (
      create_game_server_response ResultCode.success new_server_id "게임 서버 생성 성공" task.client_socket)

  -- The password is not validated: an absent one is followed as a null pointer.
  unfoldable pub create_game_server : Task → C2sCreateGameServer → Action (Unit {0})
  create_game_server task request = do
    server_name ← deref request.server_name
    server_password ← deref request.server_password
    server_ip ← deref request.server_ip
    new_server_id ← insert_and_get_id (
        insert_server (c_str server_name) (c_str server_password) (c_str server_ip)
          request.server_port request.user_id task.client_socket request.max_players)
    server_created task new_server_id

  unfoldable pub handle_create_game_server_request : Task → Action (Unit {0})
  handle_create_game_server_request task = do
    request ← parse_create_game_server_request task.flatbuffer_data
    with_request validate_create_game_server_request
        (send_error_response task EventType.s2c_create_game_server ResultCode.fail)
        (create_game_server task) request

  unfoldable pub game_server_list : Task → C2sGameServerList → Action (Unit {0})
  game_server_list task request = do
    r ← select (select_servers task.client_socket)
    respond_or task (λ result. create_game_server_list_response_from_db result task.client_socket)
        (send_error_response task EventType.s2c_game_server_list ResultCode.fail) r

  unfoldable pub handle_game_server_list_request : Task → Action (Unit {0})
  handle_game_server_list_request task = do
    request ← parse_game_server_list_request task.flatbuffer_data
    with_request validate_game_server_list_request
        (send_error_response task EventType.s2c_game_server_list ResultCode.fail)
        (game_server_list task) request

  unfoldable pub fail_join : Task → Action (Unit {0})
  fail_join task = send_error_response task EventType.s2c_join_game_server ResultCode.fail

  unfoldable pub refuse_join : Task → ResultCode → String → Action (Unit {0})
  refuse_join task code message =
      respond task (create_join_game_server_error_response code message task.client_socket)

  -- Steps 6 to 8 of HandleJoinGameServerRequest. The request's password is read only for the
  -- comparison.
  unfoldable pub password_differs : Bool → String → Option String → Action Bool
  password_differs true server_password given = pure false
  password_differs false server_password given =
      if str_eq server_password ""
      then pure false
      else (do g ← deref given; pure (not (str_eq server_password g)))

  unfoldable pub admit :
      Task
      → C2sJoinGameServer
      → (server_password server_ip : String) → (server_port current_players max_players : ℕ)
      → (is_active is_owner : Bool) → Action (Unit {0})
  admit task request server_password server_ip server_port current_players max_players is_active
        is_owner =
      if not is_owner && leb max_players current_players
      then refuse_join task ResultCode.server_full "서버가 가득 찼습니다"
      else (do
        differs ← password_differs is_owner server_password request.server_password
        if differs
            then refuse_join task ResultCode.server_password_wrong "서버 패스워드가 틀렸습니다"
            else respond task (
                create_join_game_server_response ResultCode.success server_ip server_port
                  (if is_owner && not is_active then "서버가 재활성화되어 접속되었습니다" else "서버 접속 정보")
                  task.client_socket))

  -- Steps 4 and 5: an inactive server is closed to others and started again for its owner.
  unfoldable pub join_server :
      Task
      → C2sJoinGameServer
      → (server_password server_ip : String) → (server_port current_players max_players : ℕ)
      → (is_active is_owner : Bool) → Action (Unit {0})
  join_server task request server_password server_ip server_port current_players max_players
        is_active is_owner =
      if not is_active && not is_owner
      then refuse_join task ResultCode.server_not_found "서버가 비활성화되어 있습니다"
      else (do
        running ←
            if not is_active && is_owner
            then execute_query (reactivate_server task.client_socket request.server_id)
            else pure true
        if running
            then admit task request server_password server_ip server_port current_players
                max_players is_active is_owner
            else fail_join task)

  unfoldable pub join_rows : Task → C2sJoinGameServer → List Row → Action (Unit {0})
  join_rows task request [] = do
    free_result
    refuse_join task ResultCode.server_not_found "존재하지 않는 게임 서버입니다"
  join_rows task request (row ∷ rows) = do
    server_name ← get_string_from_row row 0
    server_password ← get_string_from_row row 1
    server_ip ← get_string_from_row row 2
    server_port ← get_uint_from_row row 3
    current_players ← get_uint_from_row row 4
    max_players ← get_uint_from_row row 5
    owner_user_id ← get_uint_from_row row 6
    active ← get_uint_from_row row 9
    free_result
    join_server task request server_password server_ip server_port current_players max_players
        (active == 1) (request.user_id == owner_user_id)

  unfoldable pub join_result : Task → C2sJoinGameServer → Option ResultSet → Action (Unit {0})
  join_result task request none = fail_join task
  join_result task request (some r) = join_rows task request r.rows

  unfoldable pub join_game_server : Task → C2sJoinGameServer → Action (Unit {0})
  join_game_server task request = do
    r ← select (select_server request.server_id)
    join_result task request r

  unfoldable pub handle_join_game_server_request : Task → Action (Unit {0})
  handle_join_game_server_request task = do
    request ← parse_join_game_server_request task.flatbuffer_data
    with_request validate_join_game_server_request (fail_join task) (join_game_server task) request

  unfoldable pub close_game_server : Task → C2sCloseGameServer → Action (Unit {0})
  close_game_server task request = do
    closed ← execute_and_affect (close_server request.server_id request.user_id)
    if closed
        then respond task (
            create_close_game_server_response ResultCode.success "게임 서버가 종료되었습니다"
              task.client_socket)
        else respond task (
            create_close_game_server_error_response ResultCode.not_server_owner
              "서버 소유자가 아니거나 존재하지 않는 서버입니다" task.client_socket)

  unfoldable pub handle_close_game_server_request : Task → Action (Unit {0})
  handle_close_game_server_request task = do
    request ← parse_close_game_server_request task.flatbuffer_data
    with_request validate_close_game_server_request
        (send_error_response task EventType.s2c_close_game_server ResultCode.fail)
        (close_game_server task) request
