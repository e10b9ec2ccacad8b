-- ===== src/Packet/Response.antt =====
-- The S2C tables of Common/UserEvent.fbs and the rows that they list. A text field may be absent where a
-- table is read; the rows of items, shops, monsters and chats have texts that nobody reads, as they are
-- written. A float is its 32-bit pattern.
use game_database_server.Prelude.{ℕ, Bool, List, Option, String}
use game_database_server.Packet.ResultCode.{ResultCode}

pub record ItemData : Type 0 where
  pub item_id : ℕ
  pub item_name : String
  pub item_count : ℕ
  pub item_type : ℕ
  pub base_price : ℕ
  pub attack_bonus : ℕ
  pub defense_bonus : ℕ
  pub hp_bonus : ℕ
  pub mp_bonus : ℕ
  pub description : String

pub record ShopData : Type 0 where
  pub shop_id : ℕ
  pub shop_name : String
  pub shop_type : ℕ
  pub map_id : ℕ
  pub pos_x : ℕ
  pub pos_y : ℕ

pub record MonsterData : Type 0 where
  pub monster_id : ℕ
  pub monster_name : String
  pub level : ℕ
  pub hp : ℕ
  pub attack : ℕ
  pub defense : ℕ
  pub exp_reward : ℕ
  pub gold_reward : ℕ

pub record ChatData : Type 0 where
  pub chat_id : ℕ
  pub sender_id : ℕ
  pub sender_name : String
  pub message : String
  pub chat_type : ℕ
  pub timestamp : ℕ

pub record GameServerData : Type 0 where
  pub server_id : ℕ
  pub server_name : Option String
  pub server_ip : Option String
  pub server_port : ℕ
  pub owner_user_id : ℕ
  pub owner_nickname : Option String
  pub current_players : ℕ
  pub max_players : ℕ
  pub has_password : Bool

pub record S2cLogin : Type 0 where
  pub result : ResultCode
  pub user_id : ℕ
  pub username : Option String
  pub nickname : Option String
  pub level : ℕ

pub record S2cLogout : Type 0 where
  pub result : ResultCode
  pub message : Option String

pub record S2cCreateAccount : Type 0 where
  pub result : ResultCode
  pub user_id : ℕ
  pub message : Option String

pub record S2cItemData : Type 0 where
  pub result : ResultCode
  pub user_id : ℕ
  pub items : List ItemData
  pub gold : ℕ

pub record S2cShopList : Type 0 where
  pub result : ResultCode
  pub shops : List ShopData

pub record S2cShopItems : Type 0 where
  pub result : ResultCode
  pub shop_id : ℕ
  pub items : List ItemData

pub record S2cShopTransaction : Type 0 where
  pub result : ResultCode
  pub message : Option String
  pub updated_gold : ℕ

pub record S2cPlayerData : Type 0 where
  pub result : ResultCode
  pub user_id : ℕ
  pub username : Option String
  pub nickname : Option String
  pub level : ℕ
  pub exp : ℕ
  pub hp : ℕ
  pub mp : ℕ
  pub attack : ℕ
  pub defense : ℕ
  pub gold : ℕ
  pub map_id : ℕ
  pub pos_x : ℕ
  pub pos_y : ℕ

pub record S2cMonsterData : Type 0 where
  pub result : ResultCode
  pub monsters : List MonsterData

pub record S2cPlayerChat : Type 0 where
  pub result : ResultCode
  pub chats : List ChatData

pub record S2cCreateGameServer : Type 0 where
  pub result : ResultCode
  pub server_id : ℕ
  pub message : Option String

pub record S2cGameServerList : Type 0 where
  pub result : ResultCode
  pub servers : List GameServerData

pub record S2cJoinGameServer : Type 0 where
  pub result : ResultCode
  pub server_ip : Option String
  pub server_port : ℕ
  pub message : Option String

pub record S2cCloseGameServer : Type 0 where
  pub result : ResultCode
  pub message : Option String

pub record S2cSavePlayerData : Type 0 where
  pub result : ResultCode
  pub message : Option String
