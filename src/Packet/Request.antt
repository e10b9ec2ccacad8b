-- ===== src/Packet/Request.antt =====
-- The C2S tables of Common/UserEvent.fbs, as a handler reads them. A text field may be absent: its
-- accessor returns a null pointer, `none`. A float is its 32-bit pattern.
use game_database_server.Prelude.{ℕ, Option, String}

pub record C2sLogin : Type 0 where
  pub username : Option String
  pub password : Option String

pub record C2sLogout : Type 0 where
  pub user_id : ℕ

pub record C2sCreateAccount : Type 0 where
  pub username : Option String
  pub password : Option String
  pub nickname : Option String

pub record C2sItemData : Type 0 where
  pub user_id : ℕ
  pub request_type : ℕ
  pub item_id : ℕ
  pub item_count : ℕ

pub record C2sShopList : Type 0 where
  pub request_type : ℕ
  pub map_id : ℕ

pub record C2sShopItems : Type 0 where
  pub shop_id : ℕ

pub record C2sShopTransaction : Type 0 where
  pub user_id : ℕ
  pub shop_id : ℕ
  pub item_id : ℕ
  pub item_count : ℕ
  pub transaction_type : ℕ

pub record C2sPlayerData : Type 0 where
  pub user_id : ℕ
  pub request_type : ℕ
  pub level : ℕ
  pub exp : ℕ
  pub hp : ℕ
  pub mp : ℕ
  pub pos_x : ℕ
  pub pos_y : ℕ

-- The field monster_data is read by no handler.
pub record C2sMonsterData : Type 0 where
  pub request_type : ℕ
  pub monster_id : ℕ

pub record C2sPlayerChat : Type 0 where
  pub request_type : ℕ
  pub sender_id : ℕ
  pub receiver_id : ℕ
  pub message : Option String
  pub chat_type : ℕ

pub record C2sCreateGameServer : Type 0 where
  pub user_id : ℕ
  pub server_name : Option String
  pub server_password : Option String
  pub server_ip : Option String
  pub server_port : ℕ
  pub max_players : ℕ

pub record C2sGameServerList : Type 0 where
  pub request_type : ℕ

pub record C2sJoinGameServer : Type 0 where
  pub user_id : ℕ
  pub server_id : ℕ
  pub server_password : Option String

pub record C2sCloseGameServer : Type 0 where
  pub user_id : ℕ
  pub server_id : ℕ

pub record C2sSavePlayerData : Type 0 where
  pub user_id : ℕ
  pub level : ℕ
  pub exp : ℕ
  pub hp : ℕ
  pub mp : ℕ
  pub gold : ℕ
  pub pos_x : ℕ
  pub pos_y : ℕ
