-- ===== src/Database/Tasks.antt =====
-- DatabaseThread.cpp: ProcessTask and the loop of Run.
use game_database_server.Prelude.{
  Bool, true, false, not, ◌&&◌, List, [], ◌∷◌, ◌++◌, str_eq, if◌then◌else◌,
}
use text.Mathlib.Text.{starts_with}
use game_database_server.Packet.{Task, TaskType}
use game_database_server.Packet.EventType.{EventType}
use game_database_server.Packet.ResultCode.{ResultCode}
use game_database_server.Platform.{Platform}
use game_database_server.Action.{Action, pure, try_catch, ◌>>=◌, ◌>>◌}
use game_database_server.PacketManager.Defs.{is_empty, is_valid_packet, get_packet_type}
use game_database_server.Database.Respond.{send_error_response}
use game_database_server.Database.Session.{
  is_usable, reconnect_if_needed, handle_client_disconnected,
}
use game_database_server.Database.Account.{
  handle_login_request, handle_logout_request, handle_create_account_request,
}
use game_database_server.Database.Player.{
  handle_player_data_request, handle_save_player_data_request,
}
use game_database_server.Database.Item.{handle_item_data_request, handle_monster_data_request}
use game_database_server.Database.Chat.{handle_player_chat_request}
use game_database_server.Database.Shop.{
  handle_shop_list_request, handle_shop_items_request, handle_shop_transaction_request,
}
use game_database_server.Database.GameServer.{
  handle_create_game_server_request, handle_game_server_list_request,
  handle_join_game_server_request, handle_close_game_server_request,
}

abbrev pub is_disconnect : TaskType → Bool
is_disconnect TaskType.client_disconnected = true
is_disconnect _ = false

module _ ⦃p : Platform⦄ where
  -- The switch of ProcessTask; any other type is only logged.
  unfoldable pub dispatch : EventType → Task → Action (Unit {0})
  dispatch EventType.c2s_login task = handle_login_request task
  dispatch EventType.c2s_logout task = handle_logout_request task
  dispatch EventType.c2s_create_account task = handle_create_account_request task
  dispatch EventType.c2s_player_data task = handle_player_data_request task
  dispatch EventType.c2s_item_data task = handle_item_data_request task
  dispatch EventType.c2s_monster_data task = handle_monster_data_request task
  dispatch EventType.c2s_player_chat task = handle_player_chat_request task
  dispatch EventType.c2s_shop_list task = handle_shop_list_request task
  dispatch EventType.c2s_shop_items task = handle_shop_items_request task
  dispatch EventType.c2s_shop_transaction task = handle_shop_transaction_request task
  dispatch EventType.c2s_create_game_server task = handle_create_game_server_request task
  dispatch EventType.c2s_game_server_list task = handle_game_server_list_request task
  dispatch EventType.c2s_join_game_server task = handle_join_game_server_request task
  dispatch EventType.c2s_close_game_server task = handle_close_game_server_request task
  dispatch EventType.c2s_save_player_data task = handle_save_player_data_request task
  dispatch _ task = pure tt

  unfoldable pub process_packet : Task → Action (Unit {0})
  process_packet task = do
    valid ← is_valid_packet task.flatbuffer_data
    if valid then (do type ← get_packet_type task.flatbuffer_data; dispatch type task) else pure tt

  unfoldable pub process_task : Task → Action (Unit {0})
  process_task task =
      if is_disconnect task.type
      then handle_client_disconnected task
      else if not (str_eq task.query "") && starts_with task.query "FORCE_LOGOUT:"
      then pure tt
      else if is_empty task.flatbuffer_data
      then pure tt
      else (do usable ← is_usable; if usable then process_packet task else pure tt)

  -- A task with the handler of Run: the error response has the type NONE.
  unfoldable pub run_task : Task → Action (Unit {0})
  run_task task =
      try_catch (process_task task) λ _. send_error_response task EventType.none ResultCode.fail

  unfoldable pub take_task : List Task → Action (List Task)
  take_task [] = pure []
  take_task (task ∷ queue) = do run_task task; pure queue

  -- One round of the loop. Whether thirty seconds have passed is told by `check_due`; where the
  -- connection cannot be made again, nothing is taken from the queue.
  unfoldable pub run_round : Bool → List Task → Action (List Task)
  run_round true queue = do
    connected ← reconnect_if_needed
    if connected then take_task queue else pure queue
  run_round false queue = take_task queue

  -- The loop of Run while _is_running holds, oldest task first: each round has the answer of the
  -- clock and the tasks that arrive before it.
  unfoldable pub run : List (Bool × List Task) → List Task → Action (List Task)
  run [] queue = pure queue
  run ((check_due, arrived) ∷ rounds) queue = do
    rest ← run_round check_due (queue ++ arrived)
    run rounds rest
