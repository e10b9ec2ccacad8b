-- ===== src/Database/Traffic/Players.antt =====
-- Players, items, monsters and chats.
use game_database_server.Prelude.{Option, none, some, arith, ◌≡◌}
use game_database_server.Packet.{Task}
use game_database_server.Packet.Request.{
  C2sItemData, C2sPlayerData, C2sMonsterData, C2sPlayerChat, C2sSavePlayerData,
}
use game_database_server.Platform.{Platform}
use game_database_server.Action.Traffic.{Answers, Answers-bind}
use game_database_server.PacketManager.Parse.{
  parse_item_data_request, parse_player_data_request, parse_monster_data_request,
  parse_player_chat_request, parse_save_player_data_request,
}
use game_database_server.PacketManager.Validate.{
  check_player_data_request, validate_player_data_request, validate_item_data_request,
  validate_save_player_data_request,
}
use game_database_server.Database.Player.{
  read_player, write_player, player_data, handle_player_data_request, save_player_data,
  handle_save_player_data_request,
}
use game_database_server.Database.Item.{
  handle_item_modification, read_inventory, read_item, item_data, handle_item_data_request,
  monster_data, handle_monster_data_request,
}
use game_database_server.Database.Chat.{
  fail_chat, read_chats, store_chat, player_chat, handle_player_chat_request,
}
use game_database_server.Database.Traffic.Calls.{parse_request-Quiet}
use game_database_server.Database.Traffic.Packets.{
  Builds, create_item_data_response-Packs, create_player_data_response-Packs,
  create_player_chat_response-Packs, create_save_player_data_response-Packs,
  create_save_player_data_error_response-Packs, create_player_data_response_from_db-Packs,
  create_item_data_response_from_db-Packs, create_monster_data_response_from_db-Packs,
  create_player_chat_response_from_db-Packs,
}
use game_database_server.Database.Traffic.Steps.{
  Answers-with_request, send_error_response-Answers, step_rules,
}

module _ ⦃p : Platform⦄ (works : Builds p) where
  read_player-Answers :
      (task : Task) (request : C2sPlayerData)
      → Answers task.client_socket (read_player task request)
  unfolding read_player
  read_player-Answers task request =
      search
        (
          step_rules,
          send_error_response-Answers works,
          create_player_data_response_from_db-Packs works,
        )
        depth 8

  write_player-Answers :
      (task : Task) (request : C2sPlayerData)
      → Answers task.client_socket (write_player task request)
  unfolding write_player
  write_player-Answers task request =
      search
        (step_rules, send_error_response-Answers works, create_player_data_response-Packs works)
        depth 8

  -- The check leaves the types 0 and 1, so that the third branch is not reached.
  player_data-Answers :
      (task : Task) (request : C2sPlayerData)
      → check_player_data_request request ≡ none
      → Answers task.client_socket (player_data task request)
  unfolding player_data check_player_data_request
  player_data-Answers task request ok =
      ground (arith, read_player-Answers task request, write_player-Answers task request)

  pub handle_player_data_request-Answers :
      (task : Task) → Answers task.client_socket (handle_player_data_request task)
  unfolding handle_player_data_request parse_player_data_request validate_player_data_request
  handle_player_data_request-Answers task = Answers-bind (parse_request-Quiet _ _ _ _) λ r.
      Answers-with_request _ _ r (send_error_response-Answers works task _ _)
        (λ request ok. player_data-Answers task request ok)

  save_player_data-Answers :
      (task : Task) (request : C2sSavePlayerData)
      → Answers task.client_socket (save_player_data task request)
  unfolding save_player_data
  save_player_data-Answers task request =
      search
        (
          step_rules,
          create_save_player_data_response-Packs works,
          create_save_player_data_error_response-Packs works,
        )
        depth 8

  pub handle_save_player_data_request-Answers :
      (task : Task) → Answers task.client_socket (handle_save_player_data_request task)
  unfolding handle_save_player_data_request parse_save_player_data_request
      validate_save_player_data_request
  handle_save_player_data_request-Answers task = Answers-bind (parse_request-Quiet _ _ _ _) λ r.
      Answers-with_request _ _ r (send_error_response-Answers works task _ _)
        (λ request _. save_player_data-Answers task request)

  handle_item_modification-Answers :
      (task : Task) (request : C2sItemData)
      → Answers task.client_socket (handle_item_modification task request)
  unfolding handle_item_modification
  handle_item_modification-Answers task request =
      search (step_rules, send_error_response-Answers works, create_item_data_response-Packs works)
        depth 8

  read_inventory-Answers :
      (task : Task) (request : C2sItemData)
      → Answers task.client_socket (read_inventory task request)
  unfolding read_inventory
  read_inventory-Answers task request =
      search
        (
          step_rules,
          create_item_data_response-Packs works,
          create_item_data_response_from_db-Packs works,
        )
        depth 8

  read_item-Answers :
      (task : Task) (request : C2sItemData) → Answers task.client_socket (read_item task request)
  unfolding read_item
  read_item-Answers task request =
      search
        (
          step_rules,
          send_error_response-Answers works,
          create_item_data_response_from_db-Packs works,
        )
        depth 8

  item_data-Answers :
      (task : Task) (request : C2sItemData) → Answers task.client_socket (item_data task request)
  unfolding item_data
  item_data-Answers task request =
      search
        (step_rules, read_inventory-Answers, read_item-Answers, handle_item_modification-Answers)
        depth 8

  pub handle_item_data_request-Answers :
      (task : Task) → Answers task.client_socket (handle_item_data_request task)
  unfolding handle_item_data_request parse_item_data_request validate_item_data_request
  handle_item_data_request-Answers task = Answers-bind (parse_request-Quiet _ _ _ _) λ r.
      Answers-with_request _ _ r (send_error_response-Answers works task _ _)
        (λ request _. item_data-Answers task request)

  monster_data-Answers :
      (task : Task) (r : Option C2sMonsterData) → Answers task.client_socket (monster_data task r)
  unfolding monster_data
  monster_data-Answers task none = send_error_response-Answers works task _ _
  monster_data-Answers task (some request) =
      search
        (
          step_rules,
          send_error_response-Answers works,
          create_monster_data_response_from_db-Packs works,
        )
        depth 8

  pub handle_monster_data_request-Answers :
      (task : Task) → Answers task.client_socket (handle_monster_data_request task)
  unfolding handle_monster_data_request parse_monster_data_request
  handle_monster_data_request-Answers task =
      Answers-bind (parse_request-Quiet _ _ _ _) λ r. monster_data-Answers task r

  fail_chat-Answers : (task : Task) → Answers task.client_socket (fail_chat task)
  unfolding fail_chat
  fail_chat-Answers task = send_error_response-Answers works task _ _

  read_chats-Answers :
      (task : Task) (request : C2sPlayerChat) → Answers task.client_socket (read_chats task request)
  unfolding read_chats
  read_chats-Answers task request =
      search (step_rules, fail_chat-Answers, create_player_chat_response_from_db-Packs works) depth
        8

  store_chat-Answers :
      (task : Task) (request : C2sPlayerChat) → Answers task.client_socket (store_chat task request)
  unfolding store_chat
  store_chat-Answers task request =
      search (step_rules, fail_chat-Answers, create_player_chat_response-Packs works) depth 8

  player_chat-Answers :
      (task : Task) (r : Option C2sPlayerChat) → Answers task.client_socket (player_chat task r)
  unfolding player_chat
  player_chat-Answers task none = fail_chat-Answers task
  player_chat-Answers task (some request) =
      search (step_rules, fail_chat-Answers, read_chats-Answers, store_chat-Answers)

  pub handle_player_chat_request-Answers :
      (task : Task) → Answers task.client_socket (handle_player_chat_request task)
  unfolding handle_player_chat_request parse_player_chat_request
  handle_player_chat_request-Answers task =
      Answers-bind (parse_request-Quiet _ _ _ _) λ r. player_chat-Answers task r
