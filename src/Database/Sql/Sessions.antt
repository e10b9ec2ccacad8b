-- ===== src/Database/Sql/Sessions.antt =====
-- The statements about sessions and the ends of connections.
use game_database_server.Prelude.{ℕ, String, ◌<>◌}
use game_database_server.Text.{show}

-- InitializeUserSessions, DisconnectAllUsers
unfoldable pub reset_sessions : String
reset_sessions =
    "UPDATE user_sessions SET is_online = FALSE, client_socket = 0, last_activity = NOW()"

unfoldable pub close_all_servers : String
close_all_servers = "UPDATE game_servers SET is_active = FALSE WHERE is_active = TRUE"

-- SetUserOnlineStatus
unfoldable pub set_online : ℕ → ℕ → String
set_online user_id client_socket =
    "INSERT INTO user_sessions (user_id, is_online, login_time, last_activity, client_socket) "
    <> "VALUES ("
    <> show user_id
    <> ", 1, NOW(), NOW(), "
    <> show client_socket
    <> ") "
    <> "ON DUPLICATE KEY UPDATE is_online = 1, login_time = NOW(), last_activity = NOW(), client_socket = "
    <> show client_socket

unfoldable pub set_offline : ℕ → String
set_offline user_id =
    "UPDATE user_sessions SET is_online = 0, last_activity = NOW(), client_socket = 0 "
    <> "WHERE user_id = "
    <> show user_id

-- ForceLogoutExistingSession
unfoldable pub force_logout : ℕ → String
force_logout user_id =
    "UPDATE user_sessions SET "
    <> "is_online = FALSE, "
    <> "client_socket = 0, "
    <> "last_activity = NOW() "
    <> "WHERE user_id = "
    <> show user_id
    <> " AND is_online = TRUE"

-- CleanupGameServerBySocket, CleanupUserSessionBySocket
unfoldable pub close_servers_of_socket : ℕ → String
close_servers_of_socket client_socket =
    "UPDATE game_servers SET is_active = FALSE "
    <> "WHERE owner_socket = "
    <> show client_socket
    <> " AND is_active = TRUE"

unfoldable pub end_sessions_of_socket : ℕ → String
end_sessions_of_socket client_socket =
    "UPDATE user_sessions SET "
    <> "is_online = FALSE, "
    <> "client_socket = 0, "
    <> "last_activity = NOW() "
    <> "WHERE client_socket = "
    <> show client_socket
    <> " AND is_online = TRUE"

-- ShowSessionDebugInfo
unfoldable pub select_sessions : String
select_sessions =
    "\n\t\t\tSELECT s.user_id, u.username, s.is_online, s.login_time, s.last_activity \n\t\t\tFROM user_sessions s \n\t\t\tJOIN users u ON s.user_id = u.user_id \n\t\t\tORDER BY s.last_activity DESC \n\t\t\tLIMIT 10\n\t\t"
