-- ===== src/Packet/Accessors.antt =====
-- packet->packet_event_as_S2C_Login() and its fourteen siblings: null for another tag, or with no body.
use game_database_server.Prelude.{Option}
use game_database_server.Packet.Response.{
  S2cLogin, S2cLogout, S2cCreateAccount, S2cItemData, S2cPlayerData, S2cMonsterData, S2cPlayerChat,
  S2cShopList, S2cShopItems, S2cShopTransaction, S2cCreateGameServer, S2cGameServerList,
  S2cJoinGameServer, S2cCloseGameServer, S2cSavePlayerData,
}
use game_database_server.Packet.Event.{
  Event, s2c_login, s2c_logout, s2c_create_account, s2c_item_data, s2c_player_data,
  s2c_monster_data, s2c_player_chat, s2c_shop_list, s2c_shop_items, s2c_shop_transaction,
  s2c_create_game_server, s2c_game_server_list, s2c_join_game_server, s2c_close_game_server,
  s2c_save_player_data,
}

unfoldable pub as_s2c_login : Event → Option S2cLogin
as_s2c_login (s2c_login body) = body
as_s2c_login _ = Option.none

unfoldable pub as_s2c_logout : Event → Option S2cLogout
as_s2c_logout (s2c_logout body) = body
as_s2c_logout _ = Option.none

unfoldable pub as_s2c_create_account : Event → Option S2cCreateAccount
as_s2c_create_account (s2c_create_account body) = body
as_s2c_create_account _ = Option.none

unfoldable pub as_s2c_item_data : Event → Option S2cItemData
as_s2c_item_data (s2c_item_data body) = body
as_s2c_item_data _ = Option.none

unfoldable pub as_s2c_player_data : Event → Option S2cPlayerData
as_s2c_player_data (s2c_player_data body) = body
as_s2c_player_data _ = Option.none

unfoldable pub as_s2c_monster_data : Event → Option S2cMonsterData
as_s2c_monster_data (s2c_monster_data body) = body
as_s2c_monster_data _ = Option.none

unfoldable pub as_s2c_player_chat : Event → Option S2cPlayerChat
as_s2c_player_chat (s2c_player_chat body) = body
as_s2c_player_chat _ = Option.none

unfoldable pub as_s2c_shop_list : Event → Option S2cShopList
as_s2c_shop_list (s2c_shop_list body) = body
as_s2c_shop_list _ = Option.none

unfoldable pub as_s2c_shop_items : Event → Option S2cShopItems
as_s2c_shop_items (s2c_shop_items body) = body
as_s2c_shop_items _ = Option.none

unfoldable pub as_s2c_shop_transaction : Event → Option S2cShopTransaction
as_s2c_shop_transaction (s2c_shop_transaction body) = body
as_s2c_shop_transaction _ = Option.none

unfoldable pub as_s2c_create_game_server : Event → Option S2cCreateGameServer
as_s2c_create_game_server (s2c_create_game_server body) = body
as_s2c_create_game_server _ = Option.none

unfoldable pub as_s2c_game_server_list : Event → Option S2cGameServerList
as_s2c_game_server_list (s2c_game_server_list body) = body
as_s2c_game_server_list _ = Option.none

unfoldable pub as_s2c_join_game_server : Event → Option S2cJoinGameServer
as_s2c_join_game_server (s2c_join_game_server body) = body
as_s2c_join_game_server _ = Option.none

unfoldable pub as_s2c_close_game_server : Event → Option S2cCloseGameServer
as_s2c_close_game_server (s2c_close_game_server body) = body
as_s2c_close_game_server _ = Option.none

unfoldable pub as_s2c_save_player_data : Event → Option S2cSavePlayerData
as_s2c_save_player_data (s2c_save_player_data body) = body
as_s2c_save_player_data _ = Option.none
