-- ===== src/TestClient/ReplyCalls.antt =====
-- A call of one of the server's methods that create a response, and the table that it builds.
use game_database_server.Prelude.{ℕ, List, [], some, String}
use game_database_server.Packet.ResultCode.{ResultCode}
use game_database_server.Packet.Event.{
  Event, s2c_login, s2c_logout, s2c_create_account, s2c_item_data, s2c_player_data,
  s2c_monster_data, s2c_player_chat, s2c_shop_list, s2c_shop_items, s2c_shop_transaction,
  s2c_create_game_server, s2c_game_server_list, s2c_join_game_server, s2c_close_game_server,
  s2c_save_player_data,
}
use game_database_server.Platform.{Platform}
use game_database_server.Action.{Action}
use game_database_server.PacketManager.Build.{
  create_login_response, create_logout_response, create_account_response, create_item_data_response,
  create_player_data_response, create_monster_data_response, create_player_chat_response,
  create_shop_list_response, create_shop_items_response, create_shop_transaction_response,
  create_game_server_response, create_game_server_list_response, create_join_game_server_response,
  create_close_game_server_response, create_save_player_data_response,
}

-- A call of one of the fifteen methods.
pub data ReplyCall : Type 0 where
  login : ResultCode → (user_id : ℕ) (username nickname : String) (level : ℕ) → ReplyCall
  logout : ResultCode → (message : String) → ReplyCall
  account : ResultCode → (user_id : ℕ) (message : String) → ReplyCall
  item_data : ResultCode → (user_id gold : ℕ) → ReplyCall
  player_data :
      ResultCode
      → (user_id : ℕ) (username nickname : String)
        (level exp hp mp attack defense gold map_id pos_x pos_y : ℕ)
      → ReplyCall
  monster_data : ResultCode → ReplyCall
  player_chat : ResultCode → ReplyCall
  shop_list : ResultCode → ReplyCall
  shop_items : ResultCode → (shop_id : ℕ) → ReplyCall
  shop_transaction : ResultCode → (message : String) (updated_gold : ℕ) → ReplyCall
  game_server : ResultCode → (server_id : ℕ) (message : String) → ReplyCall
  game_server_list : ResultCode → ReplyCall
  join_game_server :
      ResultCode → (server_ip : String) (server_port : ℕ) (message : String) → ReplyCall
  close_game_server : ResultCode → (message : String) → ReplyCall
  save_player_data : ResultCode → (message : String) → ReplyCall

-- The table that the bytes hold.
abbrev pub reply_body : ReplyCall → Event
reply_body (ReplyCall.login result user_id username nickname level) = s2c_login (
    some (record {
      result = result;
      user_id = user_id;
      username = some username;
      nickname = some nickname;
      level = level;
    }))
reply_body (ReplyCall.logout result message) =
    s2c_logout (some (record { result = result; message = some message }))
reply_body (ReplyCall.account result user_id message) =
    s2c_create_account
      (some (record { result = result; user_id = user_id; message = some message }))
reply_body (ReplyCall.item_data result user_id gold) =
    s2c_item_data (some (record { result = result; user_id = user_id; items = []; gold = gold }))
reply_body
      (ReplyCall.player_data result user_id username nickname level exp hp mp attack defense gold
        map_id pos_x pos_y) =
    s2c_player_data (
      some (record {
        result = result;
        user_id = user_id;
        username = some username;
        nickname = some nickname;
        level = level;
        exp = exp;
        hp = hp;
        mp = mp;
        attack = attack;
        defense = defense;
        gold = gold;
        map_id = map_id;
        pos_x = pos_x;
        pos_y = pos_y;
      }))
reply_body (ReplyCall.monster_data result) =
    s2c_monster_data (some (record { result = result; monsters = [] }))
reply_body (ReplyCall.player_chat result) =
    s2c_player_chat (some (record { result = result; chats = [] }))
reply_body (ReplyCall.shop_list result) =
    s2c_shop_list (some (record { result = result; shops = [] }))
reply_body (ReplyCall.shop_items result shop_id) =
    s2c_shop_items (some (record { result = result; shop_id = shop_id; items = [] }))
reply_body (ReplyCall.shop_transaction result message updated_gold) =
    s2c_shop_transaction
      (some (record { result = result; message = some message; updated_gold = updated_gold }))
reply_body (ReplyCall.game_server result server_id message) =
    s2c_create_game_server
      (some (record { result = result; server_id = server_id; message = some message }))
reply_body (ReplyCall.game_server_list result) =
    s2c_game_server_list (some (record { result = result; servers = [] }))
reply_body (ReplyCall.join_game_server result server_ip server_port message) =
    s2c_join_game_server (
      some (record {
        result = result;
        server_ip = some server_ip;
        server_port = server_port;
        message = some message;
      }))
reply_body (ReplyCall.close_game_server result message) =
    s2c_close_game_server (some (record { result = result; message = some message }))
reply_body (ReplyCall.save_player_data result message) =
    s2c_save_player_data (some (record { result = result; message = some message }))

module _ ⦃p : Platform⦄ where
  abbrev pub replied : ReplyCall → ℕ → Action (List ℕ)
  replied (ReplyCall.login result user_id username nickname level) client_socket =
      create_login_response result user_id username nickname level client_socket
  replied (ReplyCall.logout result message) client_socket =
      create_logout_response result message client_socket
  replied (ReplyCall.account result user_id message) client_socket =
      create_account_response result user_id message client_socket
  replied (ReplyCall.item_data result user_id gold) client_socket =
      create_item_data_response result user_id gold client_socket
  replied
        (ReplyCall.player_data result user_id username nickname level exp hp mp attack defense gold
          map_id pos_x pos_y)
        client_socket =
      create_player_data_response result user_id username nickname level exp hp mp attack defense
        gold map_id pos_x pos_y client_socket
  replied (ReplyCall.monster_data result) client_socket =
      create_monster_data_response result client_socket
  replied (ReplyCall.player_chat result) client_socket =
      create_player_chat_response result client_socket
  replied (ReplyCall.shop_list result) client_socket =
      create_shop_list_response result client_socket
  replied (ReplyCall.shop_items result shop_id) client_socket =
      create_shop_items_response result shop_id client_socket
  replied (ReplyCall.shop_transaction result message updated_gold) client_socket =
      create_shop_transaction_response result message updated_gold client_socket
  replied (ReplyCall.game_server result server_id message) client_socket =
      create_game_server_response result server_id message client_socket
  replied (ReplyCall.game_server_list result) client_socket =
      create_game_server_list_response result client_socket
  replied (ReplyCall.join_game_server result server_ip server_port message) client_socket =
      create_join_game_server_response result server_ip server_port message client_socket
  replied (ReplyCall.close_game_server result message) client_socket =
      create_close_game_server_response result message client_socket
  replied (ReplyCall.save_player_data result message) client_socket =
      create_save_player_data_response result message client_socket
