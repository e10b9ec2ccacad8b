-- ===== src/Database/Sql/Servers.antt =====
-- The statements about game servers.
use game_database_server.Prelude.{ℕ, String, ◌<>◌}
use game_database_server.Text.{show}

-- HandleCreateGameServerRequest
unfoldable pub insert_server :
    (server_name server_password server_ip : String)
    (server_port user_id client_socket max_players : ℕ)
    → String
insert_server server_name server_password server_ip server_port user_id client_socket max_players =
    "INSERT INTO game_servers (server_name, server_password, server_ip, server_port, "
    <> "owner_user_id, owner_nickname, owner_socket, max_players) "
    <> "SELECT '"
    <> server_name
    <> "', '"
    <> server_password
    <> "', '"
    <> server_ip
    <> "', "
    <> show server_port
    <> ", "
    <> show user_id
    <> ", "
    <> "(SELECT nickname FROM users WHERE user_id = "
    <> show user_id
    <> "), "
    <> show client_socket
    <> ", "
    <> show max_players
    <> " "
    <> "WHERE NOT EXISTS (SELECT 1 FROM game_servers WHERE server_name = '"
    <> server_name
    <> "' AND is_active = 1)"

-- HandleGameServerListRequest
unfoldable pub select_servers : ℕ → String
select_servers client_socket =
    "SELECT server_id, server_name, server_ip, server_port, owner_user_id, owner_nickname, "
    <> "current_players, max_players, "
    <> "CASE WHEN server_password = '' THEN 0 ELSE 1 END as has_password "
    <> "FROM game_servers "
    <> "WHERE is_active = 1 "
    <> "OR owner_user_id = ("
    <> "    SELECT user_id FROM user_sessions "
    <> "    WHERE client_socket = "
    <> show client_socket
    <> " AND is_online = TRUE"
    <> ") "
    <> "ORDER BY is_active DESC, created_at DESC"

-- HandleJoinGameServerRequest
unfoldable pub select_server : ℕ → String
select_server server_id =
    "SELECT server_name, server_password, server_ip, server_port, current_players, max_players, "
    <> "owner_user_id, owner_socket, created_at, is_active "
    <> "FROM game_servers "
    <> "WHERE server_id = "
    <> show server_id

unfoldable pub reactivate_server : (client_socket server_id : ℕ) → String
reactivate_server client_socket server_id =
    "UPDATE game_servers SET is_active = TRUE, owner_socket = "
    <> show client_socket
    <> " WHERE server_id = "
    <> show server_id

-- HandleCloseGameServerRequest
unfoldable pub close_server : (server_id user_id : ℕ) → String
close_server server_id user_id =
    "UPDATE game_servers SET is_active = 0 "
    <> "WHERE server_id = "
    <> show server_id
    <> " AND owner_user_id = "
    <> show user_id
    <> " AND is_active = 1"
