-- ===== src/TestClient/Responses.antt =====
-- ClientPacketManager.cpp, ParseLoginResponse to ParseSavePlayerDataResponse, and the tests of what
-- they return. The methods differ in the expected tag, the error text and the accessor.
use game_database_server.Prelude.{ℕ, Bool, List, Option, none, some, not, String, if◌then◌else◌}
use game_database_server.Packet.EventType.{EventType}
use game_database_server.Packet.ResultCode.{ResultCode}
use game_database_server.Packet.Response.{
  S2cLogin, S2cLogout, S2cCreateAccount, S2cItemData, S2cPlayerData, S2cMonsterData, S2cPlayerChat,
  S2cShopList, S2cShopItems, S2cShopTransaction, S2cCreateGameServer, S2cGameServerList,
  S2cJoinGameServer, S2cCloseGameServer, S2cSavePlayerData,
}
use game_database_server.Packet.Event.{Event}
use game_database_server.Packet.Accessors.{
  as_s2c_login, as_s2c_logout, as_s2c_create_account, as_s2c_item_data, as_s2c_player_data,
  as_s2c_monster_data, as_s2c_player_chat, as_s2c_shop_list, as_s2c_shop_items,
  as_s2c_shop_transaction, as_s2c_create_game_server, as_s2c_game_server_list,
  as_s2c_join_game_server, as_s2c_close_game_server, as_s2c_save_player_data,
}
use game_database_server.Platform.{Platform}
use game_database_server.PacketManager.Parse.{has_type, body_of}
use game_database_server.TestClient.Manager.{Method, fail_with, verify_packet}

module _ ⦃p : Platform⦄ where
  unfoldable pub parse_response :
      {A : Type 0} → EventType → String → (Event → Option A) → List ℕ → Method (Option A)
  parse_response type message as_body bytes m =
      let (valid, m') = verify_packet bytes m in
      let packet = p.get_database_packet bytes in
      if not valid
      then (none, m')
      else if not (has_type type packet)
      then (none, fail_with message m')
      else (body_of as_body packet, m')

  unfoldable pub parse_login_response : List ℕ → Method (Option S2cLogin)
  parse_login_response =
      parse_response EventType.s2c_login "Invalid login response packet" as_s2c_login

  unfoldable pub parse_logout_response : List ℕ → Method (Option S2cLogout)
  parse_logout_response =
      parse_response EventType.s2c_logout "Invalid logout response packet" as_s2c_logout

  unfoldable pub parse_create_account_response : List ℕ → Method (Option S2cCreateAccount)
  parse_create_account_response =
      parse_response EventType.s2c_create_account "Invalid create account response packet"
        as_s2c_create_account

  unfoldable pub parse_item_data_response : List ℕ → Method (Option S2cItemData)
  parse_item_data_response =
      parse_response EventType.s2c_item_data "Invalid item data response packet" as_s2c_item_data

  unfoldable pub parse_player_data_response : List ℕ → Method (Option S2cPlayerData)
  parse_player_data_response =
      parse_response EventType.s2c_player_data "Invalid player data response packet"
        as_s2c_player_data

  unfoldable pub parse_monster_data_response : List ℕ → Method (Option S2cMonsterData)
  parse_monster_data_response =
      parse_response EventType.s2c_monster_data "Invalid monster data response packet"
        as_s2c_monster_data

  unfoldable pub parse_player_chat_response : List ℕ → Method (Option S2cPlayerChat)
  parse_player_chat_response =
      parse_response EventType.s2c_player_chat "Invalid player chat response packet"
        as_s2c_player_chat

  unfoldable pub parse_shop_list_response : List ℕ → Method (Option S2cShopList)
  parse_shop_list_response =
      parse_response EventType.s2c_shop_list "Invalid shop list response packet" as_s2c_shop_list

  unfoldable pub parse_shop_items_response : List ℕ → Method (Option S2cShopItems)
  parse_shop_items_response =
      parse_response EventType.s2c_shop_items "Invalid shop items response packet" as_s2c_shop_items

  unfoldable pub parse_shop_transaction_response : List ℕ → Method (Option S2cShopTransaction)
  parse_shop_transaction_response =
      parse_response EventType.s2c_shop_transaction "Invalid shop transaction response packet"
        as_s2c_shop_transaction

  unfoldable pub parse_create_game_server_response : List ℕ → Method (Option S2cCreateGameServer)
  parse_create_game_server_response =
      parse_response EventType.s2c_create_game_server "Invalid create game server response packet"
        as_s2c_create_game_server

  unfoldable pub parse_game_server_list_response : List ℕ → Method (Option S2cGameServerList)
  parse_game_server_list_response =
      parse_response EventType.s2c_game_server_list "Invalid game server list response packet"
        as_s2c_game_server_list

  unfoldable pub parse_join_game_server_response : List ℕ → Method (Option S2cJoinGameServer)
  parse_join_game_server_response =
      parse_response EventType.s2c_join_game_server "Invalid join game server response packet"
        as_s2c_join_game_server

  unfoldable pub parse_close_game_server_response : List ℕ → Method (Option S2cCloseGameServer)
  parse_close_game_server_response =
      parse_response EventType.s2c_close_game_server "Invalid close game server response packet"
        as_s2c_close_game_server

  unfoldable pub parse_save_player_data_response : List ℕ → Method (Option S2cSavePlayerData)
  parse_save_player_data_response =
      parse_response EventType.s2c_save_player_data "Invalid save player data response packet"
        as_s2c_save_player_data

-- response && response->result() == ResultCode_SUCCESS
abbrev pub is_success : ResultCode → Bool
is_success ResultCode.success = Bool.true
is_success _ = Bool.false

abbrev pub result_is_success : {A : Type 0} → (A → ResultCode) → Option A → Bool
result_is_success result none = Bool.false
result_is_success result (some r) = is_success (result r)

unfoldable pub is_login_success : Option S2cLogin → Bool
is_login_success = result_is_success (λ (r : S2cLogin). r.result)

unfoldable pub is_create_account_success : Option S2cCreateAccount → Bool
is_create_account_success = result_is_success (λ (r : S2cCreateAccount). r.result)

unfoldable pub is_player_data_valid : Option S2cPlayerData → Bool
is_player_data_valid = result_is_success (λ (r : S2cPlayerData). r.result)

unfoldable pub is_item_data_valid : Option S2cItemData → Bool
is_item_data_valid = result_is_success (λ (r : S2cItemData). r.result)

unfoldable pub is_shop_list_valid : Option S2cShopList → Bool
is_shop_list_valid = result_is_success (λ (r : S2cShopList). r.result)

unfoldable pub is_shop_items_valid : Option S2cShopItems → Bool
is_shop_items_valid = result_is_success (λ (r : S2cShopItems). r.result)

unfoldable pub is_shop_transaction_success : Option S2cShopTransaction → Bool
is_shop_transaction_success = result_is_success (λ (r : S2cShopTransaction). r.result)

unfoldable pub is_create_game_server_success : Option S2cCreateGameServer → Bool
is_create_game_server_success = result_is_success (λ (r : S2cCreateGameServer). r.result)

unfoldable pub is_game_server_list_valid : Option S2cGameServerList → Bool
is_game_server_list_valid = result_is_success (λ (r : S2cGameServerList). r.result)

unfoldable pub is_join_game_server_success : Option S2cJoinGameServer → Bool
is_join_game_server_success = result_is_success (λ (r : S2cJoinGameServer). r.result)

unfoldable pub is_close_game_server_success : Option S2cCloseGameServer → Bool
is_close_game_server_success = result_is_success (λ (r : S2cCloseGameServer). r.result)

unfoldable pub is_save_player_data_success : Option S2cSavePlayerData → Bool
is_save_player_data_success = result_is_success (λ (r : S2cSavePlayerData). r.result)
