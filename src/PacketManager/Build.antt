-- ===== src/PacketManager/Build.antt =====
-- ServerPacketManager.cpp, CreateLoginResponse to CreateSavePlayerDataResponse: each builds one
-- table in a packet, and returns an empty vector where the builder throws.
use game_database_server.Prelude.{ℕ, ◌%◌, ◌^◌, List, [], Option, none, some, String, ◌<>◌}
use game_database_server.Packet.ResultCode.{ResultCode}
use game_database_server.Packet.Event.{
  Event, DatabasePacket, s2c_login, s2c_logout, s2c_create_account, s2c_item_data, s2c_player_data,
  s2c_monster_data, s2c_player_chat, s2c_shop_list, s2c_shop_items, s2c_shop_transaction,
  s2c_create_game_server, s2c_game_server_list, s2c_join_game_server, s2c_close_game_server,
  s2c_save_player_data,
}
use game_database_server.Platform.{Platform}
use game_database_server.Action.{Action, pure, throw, try_catch, ◌>>◌}
use game_database_server.PacketManager.Defs.{set_error, clear_error}

-- The socket is narrowed to the parameter's uint32_t.
unfoldable pub packet_of : Event → ℕ → DatabasePacket
packet_of e client_socket = record { packet_event = e; client_socket = client_socket % 2 ^ 32 }

module _ ⦃p : Platform⦄ where
  unfoldable pub bytes_or_throw : Option (List ℕ) → Action (List ℕ)
  bytes_or_throw none = throw p.build_what
  bytes_or_throw (some bytes) = pure bytes

  -- CreateDatabasePacket, Finish and the copy of the buffer.
  unfoldable pub build_packet : Event → ℕ → Action (List ℕ)
  build_packet e client_socket = bytes_or_throw (p.build (packet_of e client_socket))

  -- The body that the methods share: ClearError, and the try block with its handler.
  unfoldable pub create_response : String → Event → ℕ → Action (List ℕ)
  create_response method e client_socket = do
    clear_error
    try_catch (build_packet e client_socket)
        λ what. do set_error (method <> " failed: " <> what); pure []

  unfoldable pub create_login_response :
      ResultCode → (user_id : ℕ) (username nickname : String) (level : ℕ) → ℕ → Action (List ℕ)
  create_login_response result user_id username nickname level client_socket =
      create_response "CreateLoginResponse"
        (s2c_login (
          some (record {
            result = result;
            user_id = user_id;
            username = some username;
            nickname = some nickname;
            level = level;
          })))
        client_socket

  unfoldable pub create_logout_response : ResultCode → (message : String) → ℕ → Action (List ℕ)
  create_logout_response result message client_socket =
      create_response "CreateLogoutResponse"
        (s2c_logout (some (record { result = result; message = some message }))) client_socket

  unfoldable pub create_account_response :
      ResultCode → (user_id : ℕ) (message : String) → ℕ → Action (List ℕ)
  create_account_response result user_id message client_socket =
      create_response "CreateAccountResponse"
        (s2c_create_account
          (some (record { result = result; user_id = user_id; message = some message })))
        client_socket

  unfoldable pub create_item_data_response : ResultCode → (user_id gold : ℕ) → ℕ → Action (List ℕ)
  create_item_data_response result user_id gold client_socket =
      create_response "CreateItemDataResponse"
        (s2c_item_data
          (some (record { result = result; user_id = user_id; items = []; gold = gold })))
        client_socket

  unfoldable pub create_player_data_response :
      ResultCode
      → (user_id : ℕ) (username nickname : String)
        (level exp hp mp attack defense gold map_id pos_x pos_y : ℕ)
      → ℕ
      → Action (List ℕ)
  create_player_data_response result user_id username nickname level exp hp mp attack defense gold
        map_id pos_x pos_y client_socket =
      create_response "CreatePlayerDataResponse"
        (s2c_player_data (
          some (record {
            result = result;
            user_id = user_id;
            username = some username;
            nickname = some nickname;
            level = level;
            exp = exp;
            hp = hp;
            mp = mp;
            attack = attack;
            defense = defense;
            gold = gold;
            map_id = map_id;
            pos_x = pos_x;
            pos_y = pos_y;
          })))
        client_socket

  unfoldable pub create_monster_data_response : ResultCode → ℕ → Action (List ℕ)
  create_monster_data_response result client_socket =
      create_response "CreateMonsterDataResponse"
        (s2c_monster_data (some (record { result = result; monsters = [] }))) client_socket

  unfoldable pub create_player_chat_response : ResultCode → ℕ → Action (List ℕ)
  create_player_chat_response result client_socket =
      create_response "CreatePlayerChatResponse"
        (s2c_player_chat (some (record { result = result; chats = [] }))) client_socket

  unfoldable pub create_shop_list_response : ResultCode → ℕ → Action (List ℕ)
  create_shop_list_response result client_socket =
      create_response "CreateShopListResponse"
        (s2c_shop_list (some (record { result = result; shops = [] }))) client_socket

  unfoldable pub create_shop_items_response : ResultCode → (shop_id : ℕ) → ℕ → Action (List ℕ)
  create_shop_items_response result shop_id client_socket =
      create_response "CreateShopItemsResponse"
        (s2c_shop_items (some (record { result = result; shop_id = shop_id; items = [] })))
        client_socket

  unfoldable pub create_shop_transaction_response :
      ResultCode → (message : String) (updated_gold : ℕ) → ℕ → Action (List ℕ)
  create_shop_transaction_response result message updated_gold client_socket =
      create_response "CreateShopTransactionResponse"
        (s2c_shop_transaction
          (some (record { result = result; message = some message; updated_gold = updated_gold })))
        client_socket

  unfoldable pub create_game_server_response :
      ResultCode → (server_id : ℕ) (message : String) → ℕ → Action (List ℕ)
  create_game_server_response result server_id message client_socket =
      create_response "CreateGameServerResponse"
        (s2c_create_game_server
          (some (record { result = result; server_id = server_id; message = some message })))
        client_socket

  unfoldable pub create_game_server_list_response : ResultCode → ℕ → Action (List ℕ)
  create_game_server_list_response result client_socket =
      create_response "CreateGameServerListResponse"
        (s2c_game_server_list (some (record { result = result; servers = [] }))) client_socket

  unfoldable pub create_join_game_server_response :
      ResultCode → (server_ip : String) (server_port : ℕ) (message : String) → ℕ → Action (List ℕ)
  create_join_game_server_response result server_ip server_port message client_socket =
      create_response "CreateJoinGameServerResponse"
        (s2c_join_game_server (
          some (record {
            result = result;
            server_ip = some server_ip;
            server_port = server_port;
            message = some message;
          })))
        client_socket

  unfoldable pub create_close_game_server_response :
      ResultCode → (message : String) → ℕ → Action (List ℕ)
  create_close_game_server_response result message client_socket =
      create_response "CreateCloseGameServerResponse"
        (s2c_close_game_server (some (record { result = result; message = some message })))
        client_socket

  unfoldable pub create_save_player_data_response :
      ResultCode → (message : String) → ℕ → Action (List ℕ)
  create_save_player_data_response result message client_socket =
      create_response "CreateSavePlayerDataResponse"
        (s2c_save_player_data (some (record { result = result; message = some message })))
        client_socket
