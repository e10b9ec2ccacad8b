-- ===== src/Database/Player.antt =====
-- DatabaseThread.cpp: HandlePlayerDataRequest, HandleSavePlayerDataRequest.
use game_database_server.Prelude.{◌==◌, if◌then◌else◌}
use game_database_server.Packet.{Task}
use game_database_server.Packet.EventType.{EventType}
use game_database_server.Packet.ResultCode.{ResultCode}
use game_database_server.Packet.Request.{C2sPlayerData, C2sSavePlayerData}
use game_database_server.Platform.{Platform}
use game_database_server.Action.{Action, pure, ◌>>=◌}
use game_database_server.Connector.{execute_query}
use game_database_server.PacketManager.Parse.{
  parse_player_data_request, parse_save_player_data_request,
}
use game_database_server.PacketManager.Validate.{
  validate_player_data_request, validate_save_player_data_request,
}
use game_database_server.PacketManager.Build.{
  create_player_data_response, create_save_player_data_response,
}
use game_database_server.PacketManager.Errors.{create_save_player_data_error_response}
use game_database_server.PacketManager.FromDb.{create_player_data_response_from_db}
use game_database_server.Database.Respond.{
  send_error_response, respond, with_request, select, respond_or, execute_and_affect,
}
use game_database_server.Database.Sql.{select_player, update_player, save_player}

module _ ⦃p : Platform⦄ where
  unfoldable pub read_player : Task → C2sPlayerData → Action (Unit {0})
  read_player task request = do
    r ← select (select_player request.user_id)
    respond_or task
        (λ result. create_player_data_response_from_db result request.user_id task.client_socket)
        (send_error_response task EventType.s2c_player_data ResultCode.user_not_found) r

  unfoldable pub write_player : Task → C2sPlayerData → Action (Unit {0})
  write_player task request = do
    done ← execute_query (
        update_player request.user_id request.level request.exp request.hp request.mp
          (p.show_float request.pos_x) (p.show_float request.pos_y))
    if done
        then respond task (
            create_player_data_response ResultCode.success request.user_id "" "" request.level
              request.exp request.hp request.mp 0 0 0 0 request.pos_x request.pos_y
              task.client_socket)
        else send_error_response task EventType.s2c_player_data ResultCode.fail

  unfoldable pub player_data : Task → C2sPlayerData → Action (Unit {0})
  player_data task request =
      if request.request_type == 0
      then read_player task request
      else if request.request_type == 1
      then write_player task request
      else pure tt

  unfoldable pub handle_player_data_request : Task → Action (Unit {0})
  handle_player_data_request task = do
    request ← parse_player_data_request task.flatbuffer_data
    with_request validate_player_data_request
        (send_error_response task EventType.s2c_player_data ResultCode.invalid_user)
        (player_data task) request

  unfoldable pub save_player_data : Task → C2sSavePlayerData → Action (Unit {0})
  save_player_data task request = do
    saved ← execute_and_affect (
        save_player request.user_id request.level request.exp request.hp request.mp request.gold
          (p.show_float request.pos_x) (p.show_float request.pos_y))
    if saved
        then respond task (
            create_save_player_data_response ResultCode.success "플레이어 데이터 저장 완료" task.client_socket)
        else respond task (
            create_save_player_data_error_response ResultCode.user_not_found "플레이어 데이터를 찾을 수 없습니다"
              task.client_socket)

  unfoldable pub handle_save_player_data_request : Task → Action (Unit {0})
  handle_save_player_data_request task = do
    request ← parse_save_player_data_request task.flatbuffer_data
    with_request validate_save_player_data_request
        (send_error_response task EventType.s2c_save_player_data ResultCode.fail)
        (save_player_data task) request
