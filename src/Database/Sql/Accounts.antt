-- ===== src/Database/Sql/Accounts.antt =====
-- The statements of a login, a logout and a new account.
use game_database_server.Prelude.{ℕ, String, ◌<>◌}
use game_database_server.Text.{show}

-- HandleLoginRequest
unfoldable pub find_login : String → String → String
find_login username password =
    "SELECT u.user_id, u.nickname, COALESCE(p.level, 1) as level, "
    <> "COALESCE(s.is_online, 0) as is_online " <> "FROM users u "
    <> "LEFT JOIN player_data p ON u.user_id = p.user_id "
    <> "LEFT JOIN user_sessions s ON u.user_id = s.user_id " <> "WHERE u.username = '" <> username
    <> "' AND u.password = '" <> password <> "' AND u.is_active = 1"

-- HandleLogoutRequest
unfoldable pub close_servers_of_user : ℕ → String
close_servers_of_user user_id =
    "UPDATE game_servers SET is_active = FALSE "
    <> "WHERE owner_user_id = "
    <> show user_id
    <> " AND is_active = TRUE"

-- HandleCreateAccountRequest
unfoldable pub insert_user : String → String → String → String
insert_user username password nickname =
    "INSERT INTO users (username, password, nickname, created_at) " <> "SELECT '" <> username
    <> "', '" <> password <> "', '" <> nickname <> "', NOW() "
    <> "WHERE NOT EXISTS (SELECT 1 FROM users WHERE username = '" <> username <> "')"

unfoldable pub last_insert_id : String
last_insert_id = "SELECT LAST_INSERT_ID()"

-- CreateDefaultPlayerData
unfoldable pub insert_player : ℕ → String
insert_player user_id =
    "INSERT INTO player_data (user_id, level, exp, hp, mp, attack, defense, gold, map_id, pos_x, pos_y) "
    <> "VALUES ("
    <> show user_id
    <> ", 1, 0, 100, 50, 10, 5, 1000, 1, 0.0, 0.0)"

unfoldable pub insert_first_items : ℕ → String
insert_first_items user_id =
    "INSERT INTO player_inventory (user_id, item_id, item_count, acquired_at) VALUES "
    <> "("
    <> show user_id
    <> ", 1, 1, NOW()), "
    <> "("
    <> show user_id
    <> ", 3, 1, NOW())"

unfoldable pub insert_session : ℕ → String
insert_session user_id =
    "INSERT INTO user_sessions (user_id, is_online, login_time, last_activity, client_socket) "
    <> "VALUES ("
    <> show user_id
    <> ", FALSE, NOW(), NOW(), 0)"
