-- ===== src/Database/Sql/Players.antt =====
-- The statements about players, monsters and chats.
use game_database_server.Prelude.{ℕ, String, ◌<>◌, ◌==◌, if◌then◌else◌}
use game_database_server.Text.{show}

-- HandlePlayerDataRequest; a position is the text of a float
unfoldable pub select_player : ℕ → String
select_player user_id =
    "SELECT u.username, u.nickname, p.level, p.exp, p.hp, p.mp, p.attack, p.defense, p.gold, p.map_id, p.pos_x, p.pos_y "
    <> "FROM users u JOIN player_data p ON u.user_id = p.user_id "
    <> "WHERE u.user_id = "
    <> show user_id
    <> " AND u.is_active = 1"

unfoldable pub update_player : (user_id level exp hp mp : ℕ) (pos_x pos_y : String) → String
update_player user_id level exp hp mp pos_x pos_y =
    "UPDATE player_data SET "
    <> "level = "
    <> show level
    <> ", "
    <> "exp = "
    <> show exp
    <> ", "
    <> "hp = "
    <> show hp
    <> ", "
    <> "mp = "
    <> show mp
    <> ", "
    <> "pos_x = "
    <> pos_x
    <> ", "
    <> "pos_y = "
    <> pos_y
    <> ", "
    <> "updated_at = NOW() "
    <> "WHERE user_id = "
    <> show user_id

-- HandleSavePlayerDataRequest
unfoldable pub save_player : (user_id level exp hp mp gold : ℕ) (pos_x pos_y : String) → String
save_player user_id level exp hp mp gold pos_x pos_y =
    "UPDATE player_data SET "
    <> "level = "
    <> show level
    <> ", "
    <> "exp = "
    <> show exp
    <> ", "
    <> "hp = "
    <> show hp
    <> ", "
    <> "mp = "
    <> show mp
    <> ", "
    <> "gold = "
    <> show gold
    <> ", "
    <> "pos_x = "
    <> pos_x
    <> ", "
    <> "pos_y = "
    <> pos_y
    <> ", "
    <> "updated_at = NOW() "
    <> "WHERE user_id = "
    <> show user_id

-- HandleMonsterDataRequest
unfoldable pub select_monsters : String
select_monsters =
    "SELECT monster_id, monster_name, level, hp, attack, defense, exp_reward, gold_reward FROM monster_master ORDER BY level, monster_id"

-- HandlePlayerChatRequest
unfoldable pub select_chats : (chat_type receiver_id : ℕ) → String
select_chats chat_type receiver_id =
    "SELECT c.chat_id, c.sender_id, u.nickname, c.message, c.chat_type, UNIX_TIMESTAMP(c.timestamp) "
    <> "FROM chat_logs c "
    <> "JOIN users u ON c.sender_id = u.user_id "
    <> "WHERE c.chat_type = "
    <> show chat_type
    <> (if receiver_id == 0
        then ""
        else " AND (c.receiver_id = "
          <> show receiver_id
          <> " OR c.sender_id = "
          <> show receiver_id
          <> ")")
    <> " ORDER BY c.timestamp DESC LIMIT 50"

unfoldable pub insert_chat : (sender_id receiver_id : ℕ) → String → ℕ → String
insert_chat sender_id receiver_id escaped_message chat_type =
    "INSERT INTO chat_logs (sender_id, receiver_id, message, chat_type, timestamp) VALUES ("
    <> show sender_id
    <> ", "
    <> (if receiver_id == 0 then "NULL, " else show receiver_id <> ", ")
    <> "'"
    <> escaped_message
    <> "', "
    <> show chat_type
    <> ", NOW())"
