-- ===== src/Packet/Event.antt =====
-- The table DatabasePacket: its union with the body, absent where the buffer has a tag and no body.
use game_database_server.Prelude.{ℕ, Option}
use game_database_server.Packet.EventType.{EventType}
use game_database_server.Packet.Request.{
  C2sLogin, C2sLogout, C2sCreateAccount, C2sItemData, C2sShopList, C2sShopItems, C2sShopTransaction,
  C2sPlayerData, C2sMonsterData, C2sPlayerChat, C2sCreateGameServer, C2sGameServerList,
  C2sJoinGameServer, C2sCloseGameServer, C2sSavePlayerData,
}
use game_database_server.Packet.Response.{
  S2cLogin, S2cLogout, S2cCreateAccount, S2cItemData, S2cShopList, S2cShopItems, S2cShopTransaction,
  S2cPlayerData, S2cMonsterData, S2cPlayerChat, S2cCreateGameServer, S2cGameServerList,
  S2cJoinGameServer, S2cCloseGameServer, S2cSavePlayerData,
}

pub data Event : Type 0 where
  none : Event
  s2c_login : Option S2cLogin → Event
  c2s_login : Option C2sLogin → Event
  s2c_logout : Option S2cLogout → Event
  c2s_logout : Option C2sLogout → Event
  s2c_create_account : Option S2cCreateAccount → Event
  c2s_create_account : Option C2sCreateAccount → Event
  s2c_item_data : Option S2cItemData → Event
  c2s_item_data : Option C2sItemData → Event
  s2c_shop_list : Option S2cShopList → Event
  c2s_shop_list : Option C2sShopList → Event
  s2c_shop_items : Option S2cShopItems → Event
  c2s_shop_items : Option C2sShopItems → Event
  s2c_shop_transaction : Option S2cShopTransaction → Event
  c2s_shop_transaction : Option C2sShopTransaction → Event
  s2c_player_data : Option S2cPlayerData → Event
  c2s_player_data : Option C2sPlayerData → Event
  s2c_monster_data : Option S2cMonsterData → Event
  c2s_monster_data : Option C2sMonsterData → Event
  s2c_player_chat : Option S2cPlayerChat → Event
  c2s_player_chat : Option C2sPlayerChat → Event
  s2c_create_game_server : Option S2cCreateGameServer → Event
  c2s_create_game_server : Option C2sCreateGameServer → Event
  s2c_game_server_list : Option S2cGameServerList → Event
  c2s_game_server_list : Option C2sGameServerList → Event
  s2c_join_game_server : Option S2cJoinGameServer → Event
  c2s_join_game_server : Option C2sJoinGameServer → Event
  s2c_close_game_server : Option S2cCloseGameServer → Event
  c2s_close_game_server : Option C2sCloseGameServer → Event
  s2c_save_player_data : Option S2cSavePlayerData → Event
  c2s_save_player_data : Option C2sSavePlayerData → Event
  unknown : ℕ → Event

pub record DatabasePacket : Type 0 where
  pub packet_event : Event
  pub client_socket : ℕ

-- The tag of a union.
tag : Event → EventType
tag none = EventType.none
tag (s2c_login body) = EventType.s2c_login
tag (c2s_login body) = EventType.c2s_login
tag (s2c_logout body) = EventType.s2c_logout
tag (c2s_logout body) = EventType.c2s_logout
tag (s2c_create_account body) = EventType.s2c_create_account
tag (c2s_create_account body) = EventType.c2s_create_account
tag (s2c_item_data body) = EventType.s2c_item_data
tag (c2s_item_data body) = EventType.c2s_item_data
tag (s2c_shop_list body) = EventType.s2c_shop_list
tag (c2s_shop_list body) = EventType.c2s_shop_list
tag (s2c_shop_items body) = EventType.s2c_shop_items
tag (c2s_shop_items body) = EventType.c2s_shop_items
tag (s2c_shop_transaction body) = EventType.s2c_shop_transaction
tag (c2s_shop_transaction body) = EventType.c2s_shop_transaction
tag (s2c_player_data body) = EventType.s2c_player_data
tag (c2s_player_data body) = EventType.c2s_player_data
tag (s2c_monster_data body) = EventType.s2c_monster_data
tag (c2s_monster_data body) = EventType.c2s_monster_data
tag (s2c_player_chat body) = EventType.s2c_player_chat
tag (c2s_player_chat body) = EventType.c2s_player_chat
tag (s2c_create_game_server body) = EventType.s2c_create_game_server
tag (c2s_create_game_server body) = EventType.c2s_create_game_server
tag (s2c_game_server_list body) = EventType.s2c_game_server_list
tag (c2s_game_server_list body) = EventType.c2s_game_server_list
tag (s2c_join_game_server body) = EventType.s2c_join_game_server
tag (c2s_join_game_server body) = EventType.c2s_join_game_server
tag (s2c_close_game_server body) = EventType.s2c_close_game_server
tag (c2s_close_game_server body) = EventType.c2s_close_game_server
tag (s2c_save_player_data body) = EventType.s2c_save_player_data
tag (c2s_save_player_data body) = EventType.c2s_save_player_data
tag (unknown n) = EventType.unknown n

-- packet->packet_event_type()
unfoldable pub packet_event_type : DatabasePacket → EventType
unfolding tag
packet_event_type p = tag p.packet_event

-- packet->packet_event_as_C2S_Login(): null for another tag, or with no body
unfoldable pub as_c2s_login : Event → Option C2sLogin
as_c2s_login (c2s_login body) = body
as_c2s_login _ = Option.none

-- packet->packet_event_as_C2S_Logout(): null for another tag, or with no body
unfoldable pub as_c2s_logout : Event → Option C2sLogout
as_c2s_logout (c2s_logout body) = body
as_c2s_logout _ = Option.none

-- packet->packet_event_as_C2S_CreateAccount(): null for another tag, or with no body
unfoldable pub as_c2s_create_account : Event → Option C2sCreateAccount
as_c2s_create_account (c2s_create_account body) = body
as_c2s_create_account _ = Option.none

-- packet->packet_event_as_C2S_ItemData(): null for another tag, or with no body
unfoldable pub as_c2s_item_data : Event → Option C2sItemData
as_c2s_item_data (c2s_item_data body) = body
as_c2s_item_data _ = Option.none

-- packet->packet_event_as_C2S_ShopList(): null for another tag, or with no body
unfoldable pub as_c2s_shop_list : Event → Option C2sShopList
as_c2s_shop_list (c2s_shop_list body) = body
as_c2s_shop_list _ = Option.none

-- packet->packet_event_as_C2S_ShopItems(): null for another tag, or with no body
unfoldable pub as_c2s_shop_items : Event → Option C2sShopItems
as_c2s_shop_items (c2s_shop_items body) = body
as_c2s_shop_items _ = Option.none

-- packet->packet_event_as_C2S_ShopTransaction(): null for another tag, or with no body
unfoldable pub as_c2s_shop_transaction : Event → Option C2sShopTransaction
as_c2s_shop_transaction (c2s_shop_transaction body) = body
as_c2s_shop_transaction _ = Option.none

-- packet->packet_event_as_C2S_PlayerData(): null for another tag, or with no body
unfoldable pub as_c2s_player_data : Event → Option C2sPlayerData
as_c2s_player_data (c2s_player_data body) = body
as_c2s_player_data _ = Option.none

-- packet->packet_event_as_C2S_MonsterData(): null for another tag, or with no body
unfoldable pub as_c2s_monster_data : Event → Option C2sMonsterData
as_c2s_monster_data (c2s_monster_data body) = body
as_c2s_monster_data _ = Option.none

-- packet->packet_event_as_C2S_PlayerChat(): null for another tag, or with no body
unfoldable pub as_c2s_player_chat : Event → Option C2sPlayerChat
as_c2s_player_chat (c2s_player_chat body) = body
as_c2s_player_chat _ = Option.none

-- packet->packet_event_as_C2S_CreateGameServer(): null for another tag, or with no body
unfoldable pub as_c2s_create_game_server : Event → Option C2sCreateGameServer
as_c2s_create_game_server (c2s_create_game_server body) = body
as_c2s_create_game_server _ = Option.none

-- packet->packet_event_as_C2S_GameServerList(): null for another tag, or with no body
unfoldable pub as_c2s_game_server_list : Event → Option C2sGameServerList
as_c2s_game_server_list (c2s_game_server_list body) = body
as_c2s_game_server_list _ = Option.none

-- packet->packet_event_as_C2S_JoinGameServer(): null for another tag, or with no body
unfoldable pub as_c2s_join_game_server : Event → Option C2sJoinGameServer
as_c2s_join_game_server (c2s_join_game_server body) = body
as_c2s_join_game_server _ = Option.none

-- packet->packet_event_as_C2S_CloseGameServer(): null for another tag, or with no body
unfoldable pub as_c2s_close_game_server : Event → Option C2sCloseGameServer
as_c2s_close_game_server (c2s_close_game_server body) = body
as_c2s_close_game_server _ = Option.none

-- packet->packet_event_as_C2S_SavePlayerData(): null for another tag, or with no body
unfoldable pub as_c2s_save_player_data : Event → Option C2sSavePlayerData
as_c2s_save_player_data (c2s_save_player_data body) = body
as_c2s_save_player_data _ = Option.none
