-- ===== src/PacketManager/FromDb/Rows.antt =====
-- ServerPacketManager.cpp: the rows of a result set.
use game_database_server.Prelude.{
  ℕ, Bool, true, false, not, List, [], ◌∷◌, some, String, ◌<>◌, str_eq, ltb, if◌then◌else◌,
}
use game_database_server.Packet.Response.{ItemData, MonsterData, ChatData, ShopData, GameServerData}
use game_database_server.Platform.{Platform, Row}
use game_database_server.Action.{Action, pure, ◌>>=◌, ◌>>◌}
use game_database_server.PacketManager.Defs.{
  set_error, get_string_from_row, get_uint_from_row, get_float_from_row,
}

-- `while ((row = mysql_fetch_row(result)))`
unfoldable pub read_rows : {A : Type 0} → (Row → Action A) → List Row → Action (List A)
read_rows read [] = pure []
read_rows read (row ∷ rows) = do a ← read row; rest ← read_rows read rows; pure (a ∷ rest)

-- The handler of the try block: SetError(method failed), then another response.
unfoldable pub on_failure : String → Action (List ℕ) → String → Action (List ℕ)
on_failure method fallback what = do set_error (method <> " failed: " <> what); fallback

module _ ⦃p : Platform⦄ where
  -- One row of the inventory, or of one item.
  unfoldable pub item_of_row : Row → Action ItemData
  item_of_row row = do
    item_id ← get_uint_from_row row 0
    item_name ← get_string_from_row row 1
    item_count ← get_uint_from_row row 2
    item_type ← get_uint_from_row row 3
    base_price ← get_uint_from_row row 4
    attack_bonus ← get_uint_from_row row 5
    defense_bonus ← get_uint_from_row row 6
    hp_bonus ← get_uint_from_row row 7
    mp_bonus ← get_uint_from_row row 8
    description ← get_string_from_row row 9
    pure (record {
      item_id = item_id;
      item_name = item_name;
      item_count = item_count;
      item_type = item_type;
      base_price = base_price;
      attack_bonus = attack_bonus;
      defense_bonus = defense_bonus;
      hp_bonus = hp_bonus;
      mp_bonus = mp_bonus;
      description = description;
    })

  -- One row of the monster list.
  unfoldable pub monster_of_row : Row → Action MonsterData
  monster_of_row row = do
    monster_id ← get_uint_from_row row 0
    monster_name ← get_string_from_row row 1
    level ← get_uint_from_row row 2
    hp ← get_uint_from_row row 3
    attack ← get_uint_from_row row 4
    defense ← get_uint_from_row row 5
    exp_reward ← get_uint_from_row row 6
    gold_reward ← get_uint_from_row row 7
    pure (record {
      monster_id = monster_id;
      monster_name = monster_name;
      level = level;
      hp = hp;
      attack = attack;
      defense = defense;
      exp_reward = exp_reward;
      gold_reward = gold_reward;
    })

  -- One row of the chat log; the time stamp passes through 32 bits.
  unfoldable pub chat_of_row : Row → Action ChatData
  chat_of_row row = do
    chat_id ← get_uint_from_row row 0
    sender_id ← get_uint_from_row row 1
    sender_name ← get_string_from_row row 2
    message ← get_string_from_row row 3
    chat_type ← get_uint_from_row row 4
    timestamp ← get_uint_from_row row 5
    pure (record {
      chat_id = chat_id;
      sender_id = sender_id;
      sender_name = sender_name;
      message = message;
      chat_type = chat_type;
      timestamp = timestamp;
    })

  -- One row of the shop list.
  unfoldable pub shop_of_row : Row → Action ShopData
  shop_of_row row = do
    shop_id ← get_uint_from_row row 0
    shop_name ← get_string_from_row row 1
    shop_type ← get_uint_from_row row 2
    map_id ← get_uint_from_row row 3
    pos_x ← get_float_from_row row 4
    pos_y ← get_float_from_row row 5
    pure (record {
      shop_id = shop_id;
      shop_name = shop_name;
      shop_type = shop_type;
      map_id = map_id;
      pos_x = pos_x;
      pos_y = pos_y;
    })

  -- One row of a shop's items; the count is always 1.
  unfoldable pub shop_item_of_row : Row → Action ItemData
  shop_item_of_row row = do
    item_id ← get_uint_from_row row 0
    item_name ← get_string_from_row row 1
    item_type ← get_uint_from_row row 2
    base_price ← get_uint_from_row row 3
    attack_bonus ← get_uint_from_row row 4
    defense_bonus ← get_uint_from_row row 5
    hp_bonus ← get_uint_from_row row 6
    mp_bonus ← get_uint_from_row row 7
    description ← get_string_from_row row 8
    pure (record {
      item_id = item_id;
      item_name = item_name;
      item_count = 1;
      item_type = item_type;
      base_price = base_price;
      attack_bonus = attack_bonus;
      defense_bonus = defense_bonus;
      hp_bonus = hp_bonus;
      mp_bonus = mp_bonus;
      description = description;
    })

  -- One row of the server list; has_password compares a column with the empty text.
  unfoldable pub server_of_row : Row → Action GameServerData
  server_of_row row = do
    server_id ← get_uint_from_row row 0
    server_name ← get_string_from_row row 1
    server_ip ← get_string_from_row row 2
    server_port ← get_uint_from_row row 3
    owner_user_id ← get_uint_from_row row 4
    owner_nickname ← get_string_from_row row 5
    current_players ← get_uint_from_row row 6
    max_players ← get_uint_from_row row 7
    password_column ← get_string_from_row row 8
    pure (record {
      server_id = server_id;
      server_name = some server_name;
      server_ip = some server_ip;
      server_port = server_port;
      owner_user_id = owner_user_id;
      owner_nickname = some owner_nickname;
      current_players = current_players;
      max_players = max_players;
      has_password = not (str_eq password_column "");
    })

  -- The gold is read from column 10 of the first row, if the result has more than ten columns.
  unfoldable pub gold_of : ℕ → Bool → ℕ → Row → Action ℕ
  gold_of num_fields true gold row = if ltb 10 num_fields then get_uint_from_row row 10 else pure 0
  gold_of num_fields false gold row = pure gold

  unfoldable pub read_items : ℕ → Bool → ℕ → List Row → Action (List ItemData × ℕ)
  read_items num_fields first_row gold [] = pure ([], gold)
  read_items num_fields first_row gold (row ∷ rows) = do
    item ← item_of_row row
    gold' ← gold_of num_fields first_row gold row
    rest ← read_items num_fields false gold' rows
    pure (item ∷ rest.0, rest.1)
  -- The first row, if there is one.
