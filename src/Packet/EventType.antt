-- ===== src/Packet/EventType.antt =====
-- The union tag of Common/UserEvent.fbs. A buffer's tag is one byte, and the verifier lets a tag
-- pass that the schema does not know: `unknown`.
use game_database_server.Prelude.{ℕ}

pub data EventType : Type 0 where
  none : EventType
  s2c_login : EventType
  c2s_login : EventType
  s2c_logout : EventType
  c2s_logout : EventType
  s2c_create_account : EventType
  c2s_create_account : EventType
  s2c_item_data : EventType
  c2s_item_data : EventType
  s2c_shop_list : EventType
  c2s_shop_list : EventType
  s2c_shop_items : EventType
  c2s_shop_items : EventType
  s2c_shop_transaction : EventType
  c2s_shop_transaction : EventType
  s2c_player_data : EventType
  c2s_player_data : EventType
  s2c_monster_data : EventType
  c2s_monster_data : EventType
  s2c_player_chat : EventType
  c2s_player_chat : EventType
  s2c_create_game_server : EventType
  c2s_create_game_server : EventType
  s2c_game_server_list : EventType
  c2s_game_server_list : EventType
  s2c_join_game_server : EventType
  c2s_join_game_server : EventType
  s2c_close_game_server : EventType
  c2s_close_game_server : EventType
  s2c_save_player_data : EventType
  c2s_save_player_data : EventType
  unknown : ℕ → EventType

unfoldable pub event_code : EventType → ℕ
event_code none = 0
event_code s2c_login = 1
event_code c2s_login = 2
event_code s2c_logout = 3
event_code c2s_logout = 4
event_code s2c_create_account = 5
event_code c2s_create_account = 6
event_code s2c_item_data = 7
event_code c2s_item_data = 8
event_code s2c_shop_list = 9
event_code c2s_shop_list = 10
event_code s2c_shop_items = 11
event_code c2s_shop_items = 12
event_code s2c_shop_transaction = 13
event_code c2s_shop_transaction = 14
event_code s2c_player_data = 15
event_code c2s_player_data = 16
event_code s2c_monster_data = 17
event_code c2s_monster_data = 18
event_code s2c_player_chat = 19
event_code c2s_player_chat = 20
event_code s2c_create_game_server = 21
event_code c2s_create_game_server = 22
event_code s2c_game_server_list = 23
event_code c2s_game_server_list = 24
event_code s2c_join_game_server = 25
event_code c2s_join_game_server = 26
event_code s2c_close_game_server = 27
event_code c2s_close_game_server = 28
event_code s2c_save_player_data = 29
event_code c2s_save_player_data = 30
event_code (unknown n) = n
