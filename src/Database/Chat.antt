-- ===== src/Database/Chat.antt =====
-- DatabaseThread.cpp: HandlePlayerChatRequest.
use game_database_server.Prelude.{Option, none, some, ◌==◌, if◌then◌else◌}
use game_database_server.Packet.{Task}
use game_database_server.Packet.EventType.{EventType}
use game_database_server.Packet.ResultCode.{ResultCode}
use game_database_server.Packet.Request.{C2sPlayerChat}
use game_database_server.Platform.{Platform}
use game_database_server.Action.{Action, deref, ◌>>=◌}
use game_database_server.Connector.{execute_query}
use game_database_server.PacketManager.Parse.{parse_player_chat_request}
use game_database_server.PacketManager.Build.{create_player_chat_response}
use game_database_server.PacketManager.FromDb.{create_player_chat_response_from_db}
use game_database_server.Database.Respond.{send_error_response, respond, select, respond_or}
use game_database_server.Database.Escape.{escape_message}
use game_database_server.Database.Sql.{select_chats, insert_chat}

module _ ⦃p : Platform⦄ where
  unfoldable pub fail_chat : Task → Action (Unit {0})
  fail_chat task = send_error_response task EventType.s2c_player_chat ResultCode.fail

  unfoldable pub read_chats : Task → C2sPlayerChat → Action (Unit {0})
  read_chats task request = do
    r ← select (select_chats request.chat_type request.receiver_id)
    respond_or task (λ result. create_player_chat_response_from_db result task.client_socket)
        (fail_chat task) r

  -- A message that is absent is followed as a null pointer. The loop's fuel suffices, so that the
  -- second `deref` is the result of the loop.
  unfoldable pub store_chat : Task → C2sPlayerChat → Action (Unit {0})
  store_chat task request = do
    message ← deref request.message
    escaped ← deref (escape_message message)
    done ←
        execute_query (insert_chat request.sender_id request.receiver_id escaped request.chat_type)
    if done
        then respond task (create_player_chat_response ResultCode.success task.client_socket)
        else fail_chat task

  unfoldable pub player_chat : Task → Option C2sPlayerChat → Action (Unit {0})
  player_chat task none = fail_chat task
  player_chat task (some request) =
      if request.request_type == 0
      then read_chats task request
      else if request.request_type == 1
      then store_chat task request
      else fail_chat task

  unfoldable pub handle_player_chat_request : Task → Action (Unit {0})
  handle_player_chat_request task = do
    request ← parse_player_chat_request task.flatbuffer_data
    player_chat task request
