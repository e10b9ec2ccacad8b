-- ===== src/TestClient/Calls.antt =====
-- A call of one of the methods that create a request, and the packet that it builds.
use game_database_server.Prelude.{ℕ, ◌≡◌, true, false, List, none, some, String}
use game_database_server.Packet.Event.{
  Event, DatabasePacket, c2s_close_game_server, c2s_create_account, c2s_create_game_server,
  c2s_game_server_list, c2s_item_data, c2s_join_game_server, c2s_login, c2s_logout,
  c2s_monster_data, c2s_player_chat, c2s_player_data, c2s_save_player_data, c2s_shop_items,
  c2s_shop_list, c2s_shop_transaction,
}
use game_database_server.Platform.{Platform}
use game_database_server.PacketManager.Defs.{is_empty}
use game_database_server.TestClient.Manager.{Method}
use game_database_server.TestClient.Requests.{
  create_login_request, create_logout_request, create_account_request, create_item_data_request,
  create_player_data_query_request, create_player_data_update_request, create_monster_data_request,
  create_chat_send_request, create_chat_query_request, create_shop_list_request,
  create_shop_items_request, create_shop_transaction_request, create_game_server_request,
  create_game_server_list_request, create_join_game_server_request,
  create_close_game_server_request, create_save_player_data_request,
}

-- FlatBuffers builds these bytes from the packet, they pass its verifier, and it reads the same
-- packet from them.
pub record Carries ⦃p : Platform⦄ (d : DatabasePacket) (bytes : List ℕ) : Type 0 where
  pub built : p.build d ≡ some bytes
  pub some_bytes : is_empty bytes ≡ false
  pub verified : p.verify_buffer bytes ≡ true
  pub read : p.get_database_packet bytes ≡ some d

-- A call of one of the seventeen methods.
pub data RequestCall : Type 0 where
  login : (username password : String) → RequestCall
  logout : (user_id : ℕ) → RequestCall
  account : (username password nickname : String) → RequestCall
  item_data : (user_id request_type item_id item_count : ℕ) → RequestCall
  player_data_query : (user_id : ℕ) → RequestCall
  player_data_update : (user_id level exp hp mp pos_x pos_y : ℕ) → RequestCall
  monster_data : (request_type monster_id : ℕ) → RequestCall
  chat_send : (sender_id receiver_id : ℕ) → (message : String) → (chat_type : ℕ) → RequestCall
  chat_query : (request_type sender_id receiver_id chat_type : ℕ) → RequestCall
  shop_list : (request_type map_id : ℕ) → RequestCall
  shop_items : (shop_id : ℕ) → RequestCall
  shop_transaction : (user_id shop_id item_id item_count transaction_type : ℕ) → RequestCall
  game_server :
      (user_id : ℕ)
      → (server_name server_password server_ip : String) → (server_port max_players : ℕ)
      → RequestCall
  game_server_list : (request_type : ℕ) → RequestCall
  join_game_server : (user_id server_id : ℕ) → (server_password : String) → RequestCall
  close_game_server : (user_id server_id : ℕ) → RequestCall
  save_player_data : (user_id level exp hp mp gold pos_x pos_y : ℕ) → RequestCall

-- The table that the bytes hold.
abbrev pub carried : RequestCall → Event
carried (RequestCall.login username password) =
    c2s_login (some (record { username = some username; password = some password }))
carried (RequestCall.logout user_id) = c2s_logout (some (record { user_id = user_id }))
carried (RequestCall.account username password nickname) =
    c2s_create_account (
      some
        (record { username = some username; password = some password; nickname = some nickname }))
carried (RequestCall.item_data user_id request_type item_id item_count) = c2s_item_data (
    some (record {
      user_id = user_id;
      request_type = request_type;
      item_id = item_id;
      item_count = item_count;
    }))
carried (RequestCall.player_data_query user_id) = c2s_player_data (
    some (record {
      user_id = user_id;
      request_type = 0;
      level = 0;
      exp = 0;
      hp = 0;
      mp = 0;
      pos_x = 0;
      pos_y = 0;
    }))
carried (RequestCall.player_data_update user_id level exp hp mp pos_x pos_y) = c2s_player_data (
    some (record {
      user_id = user_id;
      request_type = 1;
      level = level;
      exp = exp;
      hp = hp;
      mp = mp;
      pos_x = pos_x;
      pos_y = pos_y;
    }))
carried (RequestCall.monster_data request_type monster_id) =
    c2s_monster_data (some (record { request_type = request_type; monster_id = monster_id }))
carried (RequestCall.chat_send sender_id receiver_id message chat_type) = c2s_player_chat (
    some (record {
      request_type = 1;
      sender_id = sender_id;
      receiver_id = receiver_id;
      message = some message;
      chat_type = chat_type;
    }))
carried (RequestCall.chat_query request_type sender_id receiver_id chat_type) = c2s_player_chat (
    some (record {
      request_type = 0;
      sender_id = sender_id;
      receiver_id = receiver_id;
      message = none;
      chat_type = chat_type;
    }))
carried (RequestCall.shop_list request_type map_id) =
    c2s_shop_list (some (record { request_type = request_type; map_id = map_id }))
carried (RequestCall.shop_items shop_id) = c2s_shop_items (some (record { shop_id = shop_id }))
carried (RequestCall.shop_transaction user_id shop_id item_id item_count transaction_type) =
    c2s_shop_transaction (
      some (record {
        user_id = user_id;
        shop_id = shop_id;
        item_id = item_id;
        item_count = item_count;
        transaction_type = transaction_type;
      }))
carried
      (RequestCall.game_server user_id server_name server_password server_ip server_port
        max_players) =
    c2s_create_game_server (
      some (record {
        user_id = user_id;
        server_name = some server_name;
        server_password = some server_password;
        server_ip = some server_ip;
        server_port = server_port;
        max_players = max_players;
      }))
carried (RequestCall.game_server_list request_type) =
    c2s_game_server_list (some (record { request_type = request_type }))
carried (RequestCall.join_game_server user_id server_id server_password) = c2s_join_game_server (
    some
      (record { user_id = user_id; server_id = server_id; server_password = some server_password }))
carried (RequestCall.close_game_server user_id server_id) =
    c2s_close_game_server (some (record { user_id = user_id; server_id = server_id }))
carried (RequestCall.save_player_data user_id level exp hp mp gold pos_x pos_y) =
    c2s_save_player_data (
      some (record {
        user_id = user_id;
        level = level;
        exp = exp;
        hp = hp;
        mp = mp;
        gold = gold;
        pos_x = pos_x;
        pos_y = pos_y;
      }))

module _ ⦃p : Platform⦄ where
  abbrev pub made : RequestCall → Method (List ℕ)
  made (RequestCall.login username password) = create_login_request username password
  made (RequestCall.logout user_id) = create_logout_request user_id
  made (RequestCall.account username password nickname) =
      create_account_request username password nickname
  made (RequestCall.item_data user_id request_type item_id item_count) =
      create_item_data_request user_id request_type item_id item_count
  made (RequestCall.player_data_query user_id) = create_player_data_query_request user_id
  made (RequestCall.player_data_update user_id level exp hp mp pos_x pos_y) =
      create_player_data_update_request user_id level exp hp mp pos_x pos_y
  made (RequestCall.monster_data request_type monster_id) =
      create_monster_data_request request_type monster_id
  made (RequestCall.chat_send sender_id receiver_id message chat_type) =
      create_chat_send_request sender_id receiver_id message chat_type
  made (RequestCall.chat_query request_type sender_id receiver_id chat_type) =
      create_chat_query_request request_type sender_id receiver_id chat_type
  made (RequestCall.shop_list request_type map_id) = create_shop_list_request request_type map_id
  made (RequestCall.shop_items shop_id) = create_shop_items_request shop_id
  made (RequestCall.shop_transaction user_id shop_id item_id item_count transaction_type) =
      create_shop_transaction_request user_id shop_id item_id item_count transaction_type
  made
        (RequestCall.game_server user_id server_name server_password server_ip server_port
          max_players) =
      create_game_server_request user_id server_name server_password server_ip server_port
        max_players
  made (RequestCall.game_server_list request_type) = create_game_server_list_request request_type
  made (RequestCall.join_game_server user_id server_id server_password) =
      create_join_game_server_request user_id server_id server_password
  made (RequestCall.close_game_server user_id server_id) =
      create_close_game_server_request user_id server_id
  made (RequestCall.save_player_data user_id level exp hp mp gold pos_x pos_y) =
      create_save_player_data_request user_id level exp hp mp gold pos_x pos_y
