-- ===== src/PacketManager/Names.antt =====
-- ServerPacketManager.cpp, GetPacketTypeName and GetResultCodeName.
use game_database_server.Prelude.{String}
use game_database_server.Packet.EventType.{EventType}
use game_database_server.Packet.ResultCode.{ResultCode}

unfoldable pub get_packet_type_name : EventType → String
get_packet_type_name EventType.c2s_login = "C2S_Login"
get_packet_type_name EventType.s2c_login = "S2C_Login"
get_packet_type_name EventType.c2s_logout = "C2S_Logout"
get_packet_type_name EventType.s2c_logout = "S2C_Logout"
get_packet_type_name EventType.c2s_create_account = "C2S_CreateAccount"
get_packet_type_name EventType.s2c_create_account = "S2C_CreateAccount"
get_packet_type_name EventType.c2s_item_data = "C2S_ItemData"
get_packet_type_name EventType.s2c_item_data = "S2C_ItemData"
get_packet_type_name EventType.c2s_player_data = "C2S_PlayerData"
get_packet_type_name EventType.s2c_player_data = "S2C_PlayerData"
get_packet_type_name EventType.c2s_monster_data = "C2S_MonsterData"
get_packet_type_name EventType.s2c_monster_data = "S2C_MonsterData"
get_packet_type_name EventType.c2s_player_chat = "C2S_PlayerChat"
get_packet_type_name EventType.s2c_player_chat = "S2C_PlayerChat"
get_packet_type_name EventType.c2s_shop_list = "C2S_ShopList"
get_packet_type_name EventType.s2c_shop_list = "S2C_ShopList"
get_packet_type_name EventType.c2s_shop_items = "C2S_ShopItems"
get_packet_type_name EventType.s2c_shop_items = "S2C_ShopItems"
get_packet_type_name EventType.c2s_shop_transaction = "C2S_ShopTransaction"
get_packet_type_name EventType.s2c_shop_transaction = "S2C_ShopTransaction"
get_packet_type_name EventType.c2s_create_game_server = "C2S_CreateGameServer"
get_packet_type_name EventType.s2c_create_game_server = "S2C_CreateGameServer"
get_packet_type_name EventType.c2s_game_server_list = "C2S_GameServerList"
get_packet_type_name EventType.s2c_game_server_list = "S2C_GameServerList"
get_packet_type_name EventType.c2s_join_game_server = "C2S_JoinGameServer"
get_packet_type_name EventType.s2c_join_game_server = "S2C_JoinGameServer"
get_packet_type_name EventType.c2s_close_game_server = "C2S_CloseGameServer"
get_packet_type_name EventType.s2c_close_game_server = "S2C_CloseGameServer"
get_packet_type_name EventType.c2s_save_player_data = "C2S_SavePlayerData"
get_packet_type_name EventType.s2c_save_player_data = "S2C_SavePlayerData"
get_packet_type_name _ = "Unknown"

-- The server codes have no case.
unfoldable pub get_result_code_name : ResultCode → String
get_result_code_name ResultCode.success = "SUCCESS"
get_result_code_name ResultCode.fail = "FAIL"
get_result_code_name ResultCode.invalid_user = "INVALID_USER"
get_result_code_name ResultCode.user_not_found = "USER_NOT_FOUND"
get_result_code_name ResultCode.insufficient_gold = "INSUFFICIENT_GOLD"
get_result_code_name ResultCode.item_not_found = "ITEM_NOT_FOUND"
get_result_code_name ResultCode.shop_not_found = "SHOP_NOT_FOUND"
get_result_code_name _ = "Unknown"
