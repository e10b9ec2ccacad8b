-- ===== src/TestClient/Requests.antt =====
-- ClientPacketManager.cpp, CreateLoginRequest to CreateSavePlayerDataRequest.
use game_database_server.Prelude.{ℕ, List, none, some, String}
use game_database_server.Packet.Event.{
  c2s_login, c2s_logout, c2s_create_account, c2s_item_data, c2s_player_data, c2s_monster_data,
  c2s_player_chat, c2s_shop_list, c2s_shop_items, c2s_shop_transaction, c2s_create_game_server,
  c2s_game_server_list, c2s_join_game_server, c2s_close_game_server, c2s_save_player_data,
}
use game_database_server.Platform.{Platform}
use game_database_server.TestClient.Manager.{Method, create_request}

module _ ⦃p : Platform⦄ where
  unfoldable pub create_login_request : (username password : String) → Method (List ℕ)
  create_login_request username password =
      create_request "CreateLoginRequest"
        (c2s_login (some (record { username = some username; password = some password })))

  unfoldable pub create_logout_request : (user_id : ℕ) → Method (List ℕ)
  create_logout_request user_id =
      create_request "CreateLogoutRequest" (c2s_logout (some (record { user_id = user_id })))

  unfoldable pub create_account_request : (username password nickname : String) → Method (List ℕ)
  create_account_request username password nickname = create_request "CreateAccountRequest" (
      c2s_create_account (
        some (record {
          username = some username;
          password = some password;
          nickname = some nickname;
        })))

  unfoldable pub create_item_data_request :
      (user_id request_type item_id item_count : ℕ) → Method (List ℕ)
  create_item_data_request user_id request_type item_id item_count =
      create_request "CreateItemDataRequest" (
        c2s_item_data (
          some (record {
            user_id = user_id;
            request_type = request_type;
            item_id = item_id;
            item_count = item_count;
          })))

  -- The fields that the call leaves out have the schema's defaults.
  unfoldable pub create_player_data_query_request : (user_id : ℕ) → Method (List ℕ)
  create_player_data_query_request user_id = create_request "CreatePlayerDataQueryRequest" (
      c2s_player_data (
        some (record {
          user_id = user_id;
          request_type = 0;
          level = 0;
          exp = 0;
          hp = 0;
          mp = 0;
          pos_x = 0;
          pos_y = 0;
        })))

  unfoldable pub create_player_data_update_request :
      (user_id level exp hp mp pos_x pos_y : ℕ) → Method (List ℕ)
  create_player_data_update_request user_id level exp hp mp pos_x pos_y =
      create_request "CreatePlayerDataUpdateRequest" (
        c2s_player_data (
          some (record {
            user_id = user_id;
            request_type = 1;
            level = level;
            exp = exp;
            hp = hp;
            mp = mp;
            pos_x = pos_x;
            pos_y = pos_y;
          })))

  unfoldable pub create_monster_data_request : (request_type monster_id : ℕ) → Method (List ℕ)
  create_monster_data_request request_type monster_id =
      create_request "CreateMonsterDataRequest"
        (c2s_monster_data (some (record { request_type = request_type; monster_id = monster_id })))

  unfoldable pub create_chat_send_request :
      (sender_id receiver_id : ℕ) → (message : String) → (chat_type : ℕ) → Method (List ℕ)
  create_chat_send_request sender_id receiver_id message chat_type =
      create_request "CreateChatSendRequest" (
        c2s_player_chat (
          some (record {
            request_type = 1;
            sender_id = sender_id;
            receiver_id = receiver_id;
            message = some message;
            chat_type = chat_type;
          })))

  -- The parameter `request_type` is not used, and the message is absent.
  unfoldable pub create_chat_query_request :
      (request_type sender_id receiver_id chat_type : ℕ) → Method (List ℕ)
  create_chat_query_request request_type sender_id receiver_id chat_type =
      create_request "CreateChatQueryRequest" (
        c2s_player_chat (
          some (record {
            request_type = 0;
            sender_id = sender_id;
            receiver_id = receiver_id;
            message = none;
            chat_type = chat_type;
          })))

  unfoldable pub create_shop_list_request : (request_type map_id : ℕ) → Method (List ℕ)
  create_shop_list_request request_type map_id =
      create_request "CreateShopListRequest"
        (c2s_shop_list (some (record { request_type = request_type; map_id = map_id })))

  unfoldable pub create_shop_items_request : (shop_id : ℕ) → Method (List ℕ)
  create_shop_items_request shop_id =
      create_request "CreateShopItemsRequest" (c2s_shop_items (some (record { shop_id = shop_id })))

  unfoldable pub create_shop_transaction_request :
      (user_id shop_id item_id item_count transaction_type : ℕ) → Method (List ℕ)
  create_shop_transaction_request user_id shop_id item_id item_count transaction_type =
      create_request "CreateShopTransactionRequest" (
        c2s_shop_transaction (
          some (record {
            user_id = user_id;
            shop_id = shop_id;
            item_id = item_id;
            item_count = item_count;
            transaction_type = transaction_type;
          })))

  unfoldable pub create_game_server_request :
      (user_id : ℕ)
      → (server_name server_password server_ip : String) → (server_port max_players : ℕ)
      → Method (List ℕ)
  create_game_server_request user_id server_name server_password server_ip server_port max_players =
      create_request "CreateGameServerRequest" (
        c2s_create_game_server (
          some (record {
            user_id = user_id;
            server_name = some server_name;
            server_password = some server_password;
            server_ip = some server_ip;
            server_port = server_port;
            max_players = max_players;
          })))

  unfoldable pub create_game_server_list_request : (request_type : ℕ) → Method (List ℕ)
  create_game_server_list_request request_type =
      create_request "CreateGameServerListRequest"
        (c2s_game_server_list (some (record { request_type = request_type })))

  unfoldable pub create_join_game_server_request :
      (user_id server_id : ℕ) → (server_password : String) → Method (List ℕ)
  create_join_game_server_request user_id server_id server_password =
      create_request "CreateJoinGameServerRequest" (
        c2s_join_game_server (
          some (record {
            user_id = user_id;
            server_id = server_id;
            server_password = some server_password;
          })))

  unfoldable pub create_close_game_server_request : (user_id server_id : ℕ) → Method (List ℕ)
  create_close_game_server_request user_id server_id =
      create_request "CreateCloseGameServerRequest"
        (c2s_close_game_server (some (record { user_id = user_id; server_id = server_id })))

  unfoldable pub create_save_player_data_request :
      (user_id level exp hp mp gold pos_x pos_y : ℕ) → Method (List ℕ)
  create_save_player_data_request user_id level exp hp mp gold pos_x pos_y =
      create_request "CreateSavePlayerDataRequest" (
        c2s_save_player_data (
          some (record {
            user_id = user_id;
            level = level;
            exp = exp;
            hp = hp;
            mp = mp;
            gold = gold;
            pos_x = pos_x;
            pos_y = pos_y;
          })))
