-- ===== src/Database/Item.antt =====
-- DatabaseThread.cpp: HandleItemDataRequest, HandleItemModification, HandleMonsterDataRequest.
use game_database_server.Prelude.{Option, none, some, String, ◌==◌, if◌then◌else◌}
use game_database_server.Packet.{Task}
use game_database_server.Packet.EventType.{EventType}
use game_database_server.Packet.ResultCode.{ResultCode}
use game_database_server.Packet.Request.{C2sItemData, C2sMonsterData}
use game_database_server.Platform.{Platform}
use game_database_server.Action.{Action, pure, ◌>>=◌}
use game_database_server.Connector.{execute_query}
use game_database_server.PacketManager.Parse.{parse_item_data_request, parse_monster_data_request}
use game_database_server.PacketManager.Validate.{validate_item_data_request}
use game_database_server.PacketManager.Build.{create_item_data_response}
use game_database_server.PacketManager.FromDb.{
  create_item_data_response_from_db, create_monster_data_response_from_db,
}
use game_database_server.Database.Respond.{
  send_error_response, respond, with_request, select, respond_or,
}
use game_database_server.Database.Sql.{
  select_inventory, select_item, add_item, remove_item, select_monsters,
}

module _ ⦃p : Platform⦄ where
  -- The statement of a change; another request type leaves the stream empty.
  unfoldable pub modification : C2sItemData → String
  modification request =
      if request.request_type == 1
      then add_item request.user_id request.item_id request.item_count
      else if request.request_type == 2
      then remove_item request.user_id request.item_id request.item_count
      else ""

  unfoldable pub handle_item_modification : Task → C2sItemData → Action (Unit {0})
  handle_item_modification task request = do
    done ← execute_query (modification request)
    if done
        then respond task
            (create_item_data_response ResultCode.success request.user_id 0 task.client_socket)
        else send_error_response task EventType.s2c_item_data ResultCode.fail

  -- A failed query is answered like an empty inventory.
  unfoldable pub read_inventory : Task → C2sItemData → Action (Unit {0})
  read_inventory task request = do
    r ← select (select_inventory request.user_id)
    respond_or task
        (λ result. create_item_data_response_from_db result request.user_id task.client_socket)
        (respond task
          (create_item_data_response ResultCode.success request.user_id 0 task.client_socket))
        r

  unfoldable pub read_item : Task → C2sItemData → Action (Unit {0})
  read_item task request = do
    r ← select (select_item request.item_id)
    respond_or task (λ result. create_item_data_response_from_db result 0 task.client_socket)
        (send_error_response task EventType.s2c_item_data ResultCode.item_not_found) r

  unfoldable pub item_data : Task → C2sItemData → Action (Unit {0})
  item_data task request =
      if request.request_type == 0
      then read_inventory task request
      else if request.request_type == 3
      then read_item task request
      else handle_item_modification task request

  unfoldable pub handle_item_data_request : Task → Action (Unit {0})
  handle_item_data_request task = do
    request ← parse_item_data_request task.flatbuffer_data
    with_request validate_item_data_request
        (send_error_response task EventType.s2c_item_data ResultCode.invalid_user) (item_data task)
        request

  unfoldable pub monster_data : Task → Option C2sMonsterData → Action (Unit {0})
  monster_data task none = send_error_response task EventType.s2c_monster_data ResultCode.fail
  monster_data task (some request) = do
    r ← if request.request_type == 0 then select select_monsters else pure none
    respond_or task (λ result. create_monster_data_response_from_db result task.client_socket)
        (send_error_response task EventType.s2c_monster_data ResultCode.fail) r

  unfoldable pub handle_monster_data_request : Task → Action (Unit {0})
  handle_monster_data_request task = do
    request ← parse_monster_data_request task.flatbuffer_data
    monster_data task request
