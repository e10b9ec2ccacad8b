-- ===== src/PacketManager/FromDb/Responses.antt =====
-- ServerPacketManager.cpp: the responses from a result set.
use game_database_server.Prelude.{ℕ, true, List, [], ◌∷◌, Option, none, some, String}
use game_database_server.Packet.ResultCode.{ResultCode}
use game_database_server.Packet.Event.{
  s2c_item_data, s2c_monster_data, s2c_player_chat, s2c_shop_list, s2c_shop_items,
  s2c_game_server_list,
}
use game_database_server.Platform.{Platform, Row, ResultSet}
use game_database_server.Action.{Action, try_catch, ◌>>=◌, ◌>>◌}
use game_database_server.PacketManager.Defs.{
  clear_error, get_string_from_row, get_uint_from_row, get_float_from_row,
}
use game_database_server.PacketManager.Build.{
  build_packet, create_login_response, create_player_data_response, create_monster_data_response,
  create_player_chat_response, create_shop_list_response, create_shop_items_response,
  create_game_server_list_response,
}
use game_database_server.PacketManager.Errors.{
  create_login_error_response, create_player_data_error_response, create_item_data_error_response,
}
use game_database_server.PacketManager.FromDb.Rows.{
  read_rows, on_failure, monster_of_row, chat_of_row, shop_of_row, shop_item_of_row, server_of_row,
  read_items,
}

module _ ⦃p : Platform⦄ where
  unfoldable pub login_of_rows : List Row → String → ℕ → Action (List ℕ)
  login_of_rows [] username client_socket =
      create_login_error_response ResultCode.invalid_user client_socket
  login_of_rows (row ∷ rows) username client_socket =
      try_catch
        (do
          user_id ← get_uint_from_row row 0
          nickname ← get_string_from_row row 1
          level ← get_uint_from_row row 2
          create_login_response ResultCode.success user_id username nickname level client_socket)
        (on_failure "CreateLoginResponseFromDB"
          (create_login_error_response ResultCode.fail client_socket))

  unfoldable pub create_login_response_from_db : Option ResultSet → String → ℕ → Action (List ℕ)
  create_login_response_from_db none username client_socket =
      create_login_error_response ResultCode.fail client_socket
  create_login_response_from_db (some result) username client_socket =
      login_of_rows result.rows username client_socket

  -- The first row, if there is one.
  unfoldable pub player_data_of_rows : List Row → ℕ → ℕ → Action (List ℕ)
  player_data_of_rows [] user_id client_socket =
      create_player_data_error_response ResultCode.user_not_found client_socket
  player_data_of_rows (row ∷ rows) user_id client_socket =
      try_catch
        (do
          username ← get_string_from_row row 0
          nickname ← get_string_from_row row 1
          level ← get_uint_from_row row 2
          exp ← get_uint_from_row row 3
          hp ← get_uint_from_row row 4
          mp ← get_uint_from_row row 5
          attack ← get_uint_from_row row 6
          defense ← get_uint_from_row row 7
          gold ← get_uint_from_row row 8
          map_id ← get_uint_from_row row 9
          pos_x ← get_float_from_row row 10
          pos_y ← get_float_from_row row 11
          create_player_data_response ResultCode.success user_id username nickname level exp hp mp
              attack defense gold map_id pos_x pos_y client_socket)
        (on_failure "CreatePlayerDataResponseFromDB"
          (create_player_data_error_response ResultCode.fail client_socket))

  unfoldable pub create_player_data_response_from_db : Option ResultSet → ℕ → ℕ → Action (List ℕ)
  create_player_data_response_from_db none user_id client_socket =
      create_player_data_error_response ResultCode.fail client_socket
  create_player_data_response_from_db (some result) user_id client_socket =
      player_data_of_rows result.rows user_id client_socket

  unfoldable pub create_item_data_response_from_db : Option ResultSet → ℕ → ℕ → Action (List ℕ)
  create_item_data_response_from_db none user_id client_socket =
      create_item_data_error_response ResultCode.fail user_id client_socket
  create_item_data_response_from_db (some result) user_id client_socket = do
    clear_error
    try_catch
        (do
          read ← read_items result.num_fields true 0 result.rows
          build_packet
              (s2c_item_data (
                some (record {
                  result = ResultCode.success;
                  user_id = user_id;
                  items = read.0;
                  gold = read.1;
                })))
              client_socket)
        (on_failure "CreateItemDataResponseFromDB"
          (create_item_data_error_response ResultCode.fail user_id client_socket))

  unfoldable pub create_monster_data_response_from_db : Option ResultSet → ℕ → Action (List ℕ)
  create_monster_data_response_from_db none client_socket =
      create_monster_data_response ResultCode.fail client_socket
  create_monster_data_response_from_db (some result) client_socket = do
    clear_error
    try_catch
        (do
          monsters ← read_rows monster_of_row result.rows
          build_packet
              (s2c_monster_data
                (some (record { result = ResultCode.success; monsters = monsters })))
              client_socket)
        (on_failure "CreateMonsterDataResponseFromDB"
          (create_monster_data_response ResultCode.fail client_socket))

  unfoldable pub create_player_chat_response_from_db : Option ResultSet → ℕ → Action (List ℕ)
  create_player_chat_response_from_db none client_socket =
      create_player_chat_response ResultCode.fail client_socket
  create_player_chat_response_from_db (some result) client_socket = do
    clear_error
    try_catch
        (do
          chats ← read_rows chat_of_row result.rows
          build_packet
              (s2c_player_chat (some (record { result = ResultCode.success; chats = chats })))
              client_socket)
        (on_failure "CreatePlayerChatResponseFromDB"
          (create_player_chat_response ResultCode.fail client_socket))

  unfoldable pub create_shop_list_response_from_db : Option ResultSet → ℕ → Action (List ℕ)
  create_shop_list_response_from_db none client_socket =
      create_shop_list_response ResultCode.fail client_socket
  create_shop_list_response_from_db (some result) client_socket = do
    clear_error
    try_catch
        (do
          shops ← read_rows shop_of_row result.rows
          build_packet
              (s2c_shop_list (some (record { result = ResultCode.success; shops = shops })))
              client_socket)
        (on_failure "CreateShopListResponseFromDB"
          (create_shop_list_response ResultCode.fail client_socket))

  unfoldable pub create_shop_items_response_from_db : Option ResultSet → ℕ → ℕ → Action (List ℕ)
  create_shop_items_response_from_db none shop_id client_socket =
      create_shop_items_response ResultCode.fail shop_id client_socket
  create_shop_items_response_from_db (some result) shop_id client_socket = do
    clear_error
    try_catch
        (do
          items ← read_rows shop_item_of_row result.rows
          build_packet
              (s2c_shop_items
                (some (record { result = ResultCode.success; shop_id = shop_id; items = items })))
              client_socket)
        (on_failure "CreateShopItemsResponseFromDB"
          (create_shop_items_response ResultCode.fail shop_id client_socket))

  unfoldable pub create_game_server_list_response_from_db : Option ResultSet → ℕ → Action (List ℕ)
  create_game_server_list_response_from_db none client_socket =
      create_game_server_list_response ResultCode.fail client_socket
  create_game_server_list_response_from_db (some result) client_socket = do
    clear_error
    try_catch
        (do
          servers ← read_rows server_of_row result.rows
          build_packet
              (s2c_game_server_list
                (some (record { result = ResultCode.success; servers = servers })))
              client_socket)
        (on_failure "CreateGameServerListResponseFromDB"
          (create_game_server_list_response ResultCode.fail client_socket))
