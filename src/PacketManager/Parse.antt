-- ===== src/PacketManager/Parse.antt =====
-- ServerPacketManager.cpp, ParseLoginRequest to ParseSavePlayerDataRequest: the fifteen methods
-- differ in the expected tag, the error text and the accessor, the arguments of `parse_request`.
use game_database_server.Prelude.{
  ℕ, Bool, List, Option, none, some, String, not, ◌==◌, if◌then◌else◌,
}
use game_database_server.Packet.EventType.{EventType, event_code}
use game_database_server.Packet.Request.{
  C2sLogin, C2sLogout, C2sCreateAccount, C2sItemData, C2sPlayerData, C2sMonsterData, C2sPlayerChat,
  C2sShopList, C2sShopItems, C2sShopTransaction, C2sCreateGameServer, C2sGameServerList,
  C2sJoinGameServer, C2sCloseGameServer, C2sSavePlayerData,
}
use game_database_server.Packet.Event.{
  Event, DatabasePacket, packet_event_type, as_c2s_login, as_c2s_logout, as_c2s_create_account,
  as_c2s_item_data, as_c2s_player_data, as_c2s_monster_data, as_c2s_player_chat, as_c2s_shop_list,
  as_c2s_shop_items, as_c2s_shop_transaction, as_c2s_create_game_server, as_c2s_game_server_list,
  as_c2s_join_game_server, as_c2s_close_game_server, as_c2s_save_player_data,
}
use game_database_server.Platform.{Platform}
use game_database_server.Action.{Action, pure, ◌>>=◌, ◌>>◌}
use game_database_server.PacketManager.Defs.{set_error, verify_packet}

-- `!packet || packet->packet_event_type() != type`
abbrev pub has_type : EventType → Option DatabasePacket → Bool
has_type type none = Bool.false
has_type type (some d) = event_code (packet_event_type d) == event_code type

abbrev pub body_of : {A : Type 0} → (Event → Option A) → Option DatabasePacket → Option A
body_of as_body none = none
body_of as_body (some d) = as_body d.packet_event

module _ ⦃p : Platform⦄ where
  unfoldable pub parse_request :
      {A : Type 0} → EventType → String → (Event → Option A) → List ℕ → Action (Option A)
  parse_request type message as_body bytes = do
    valid ← verify_packet bytes
    let packet = p.get_database_packet bytes
    if not valid
        then pure none
        else if not (has_type type packet)
        then (do set_error message; pure none)
        else pure (body_of as_body packet)

  unfoldable pub parse_login_request : List ℕ → Action (Option C2sLogin)
  parse_login_request =
      parse_request EventType.c2s_login "Invalid login request packet" as_c2s_login

  unfoldable pub parse_logout_request : List ℕ → Action (Option C2sLogout)
  parse_logout_request =
      parse_request EventType.c2s_logout "Invalid logout request packet" as_c2s_logout

  unfoldable pub parse_create_account_request : List ℕ → Action (Option C2sCreateAccount)
  parse_create_account_request =
      parse_request EventType.c2s_create_account "Invalid create account request packet"
        as_c2s_create_account

  unfoldable pub parse_item_data_request : List ℕ → Action (Option C2sItemData)
  parse_item_data_request =
      parse_request EventType.c2s_item_data "Invalid item data request packet" as_c2s_item_data

  unfoldable pub parse_player_data_request : List ℕ → Action (Option C2sPlayerData)
  parse_player_data_request =
      parse_request EventType.c2s_player_data "Invalid player data request packet"
        as_c2s_player_data

  unfoldable pub parse_monster_data_request : List ℕ → Action (Option C2sMonsterData)
  parse_monster_data_request =
      parse_request EventType.c2s_monster_data "Invalid monster data request packet"
        as_c2s_monster_data

  unfoldable pub parse_player_chat_request : List ℕ → Action (Option C2sPlayerChat)
  parse_player_chat_request =
      parse_request EventType.c2s_player_chat "Invalid player chat request packet"
        as_c2s_player_chat

  unfoldable pub parse_shop_list_request : List ℕ → Action (Option C2sShopList)
  parse_shop_list_request =
      parse_request EventType.c2s_shop_list "Invalid shop list request packet" as_c2s_shop_list

  unfoldable pub parse_shop_items_request : List ℕ → Action (Option C2sShopItems)
  parse_shop_items_request =
      parse_request EventType.c2s_shop_items "Invalid shop items request packet" as_c2s_shop_items

  unfoldable pub parse_shop_transaction_request : List ℕ → Action (Option C2sShopTransaction)
  parse_shop_transaction_request =
      parse_request EventType.c2s_shop_transaction "Invalid shop transaction request packet"
        as_c2s_shop_transaction

  unfoldable pub parse_create_game_server_request : List ℕ → Action (Option C2sCreateGameServer)
  parse_create_game_server_request =
      parse_request EventType.c2s_create_game_server "Invalid create game server request packet"
        as_c2s_create_game_server

  unfoldable pub parse_game_server_list_request : List ℕ → Action (Option C2sGameServerList)
  parse_game_server_list_request =
      parse_request EventType.c2s_game_server_list "Invalid game server list request packet"
        as_c2s_game_server_list

  unfoldable pub parse_join_game_server_request : List ℕ → Action (Option C2sJoinGameServer)
  parse_join_game_server_request =
      parse_request EventType.c2s_join_game_server "Invalid join game server request packet"
        as_c2s_join_game_server

  unfoldable pub parse_close_game_server_request : List ℕ → Action (Option C2sCloseGameServer)
  parse_close_game_server_request =
      parse_request EventType.c2s_close_game_server "Invalid close game server request packet"
        as_c2s_close_game_server

  unfoldable pub parse_save_player_data_request : List ℕ → Action (Option C2sSavePlayerData)
  parse_save_player_data_request =
      parse_request EventType.c2s_save_player_data "Invalid save player data request packet"
        as_c2s_save_player_data
