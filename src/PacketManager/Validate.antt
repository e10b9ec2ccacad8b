-- ===== src/PacketManager/Validate.antt =====
-- ServerPacketManager.cpp, ValidateLoginRequest to ValidateSavePlayerDataRequest. A check runs the
-- method's tests in order and gives the error text of the first that refuses; `validate` sets it.
pub mod Bounds
use game_database_server.Prelude.{
  ℕ, Bool, true, false, ◌||◌, Option, none, some, String, len, ltb, ◌==◌, if◌then◌else◌,
}
use game_database_server.Packet.Request.{
  C2sLogin, C2sCreateAccount, C2sPlayerData, C2sItemData, C2sShopList, C2sShopItems,
  C2sShopTransaction, C2sCreateGameServer, C2sGameServerList, C2sJoinGameServer, C2sCloseGameServer,
  C2sSavePlayerData,
}
use game_database_server.Action.{Action, pure, ◌>>◌}
use game_database_server.PacketManager.Defs.{set_error}

-- `!field() || field()->size() == 0`
abbrev pub is_blank : Option String → Bool
is_blank none = true
is_blank (some s) = len s == 0

-- `field()->size()`, which is reached only behind `is_blank`.
abbrev pub size : Option String → ℕ
size none = 0
size (some s) = len s

-- A method refuses with an error text, or returns true.
unfoldable pub verdict : Option String → Action Bool
verdict none = pure true
verdict (some e) = do set_error e; pure false

-- A null request has its own text.
unfoldable pub validate : {A : Type 0} → String → (A → Option String) → Option A → Action Bool
validate null_text check none = verdict (some null_text)
validate null_text check (some r) = verdict (check r)

unfoldable pub check_login_request : C2sLogin → Option String
check_login_request r =
    if is_blank r.username
    then some "Username is empty"
    else if is_blank r.password
    then some "Password is empty"
    else if ltb 50 (size r.username)
    then some "Username too long"
    else if ltb 255 (size r.password)
    then some "Password too long"
    else none

unfoldable pub validate_login_request : Option C2sLogin → Action Bool
validate_login_request = validate "Login request is null" check_login_request

unfoldable pub check_create_account_request : C2sCreateAccount → Option String
check_create_account_request r =
    if is_blank r.username
    then some "Username is empty"
    else if is_blank r.password
    then some "Password is empty"
    else if is_blank r.nickname
    then some "Nickname is empty"
    else if ltb 50 (size r.username) || ltb 50 (size r.nickname)
    then some "Username or nickname too long"
    else none

unfoldable pub validate_create_account_request : Option C2sCreateAccount → Action Bool
validate_create_account_request =
    validate "Create account request is null" check_create_account_request

unfoldable pub check_player_data_request : C2sPlayerData → Option String
check_player_data_request r =
    if r.user_id == 0
    then some "Invalid user ID"
    else if ltb 1 r.request_type
    then some "Invalid request type"
    else none

unfoldable pub validate_player_data_request : Option C2sPlayerData → Action Bool
validate_player_data_request = validate "Player data request is null" check_player_data_request

unfoldable pub check_item_data_request : C2sItemData → Option String
check_item_data_request r =
    if r.user_id == 0
    then some "Invalid user ID"
    else if ltb 3 r.request_type
    then some "Invalid request type"
    else none

unfoldable pub validate_item_data_request : Option C2sItemData → Action Bool
validate_item_data_request = validate "Item data request is null" check_item_data_request

unfoldable pub check_shop_list_request : C2sShopList → Option String
check_shop_list_request r = if ltb 0 r.request_type then some "Invalid request type" else none

unfoldable pub validate_shop_list_request : Option C2sShopList → Action Bool
validate_shop_list_request = validate "Shop list request is null" check_shop_list_request

unfoldable pub check_shop_items_request : C2sShopItems → Option String
check_shop_items_request r = if r.shop_id == 0 then some "Invalid shop ID" else none

unfoldable pub validate_shop_items_request : Option C2sShopItems → Action Bool
validate_shop_items_request = validate "Shop items request is null" check_shop_items_request

unfoldable pub check_shop_transaction_request : C2sShopTransaction → Option String
check_shop_transaction_request r =
    if r.user_id == 0
    then some "Invalid user ID"
    else if r.shop_id == 0
    then some "Invalid shop ID"
    else if r.item_id == 0
    then some "Invalid item ID"
    else if r.item_count == 0
    then some "Invalid item count"
    else if ltb 1 r.transaction_type
    then some "Invalid transaction type"
    else none

unfoldable pub validate_shop_transaction_request : Option C2sShopTransaction → Action Bool
validate_shop_transaction_request =
    validate "Shop transaction request is null" check_shop_transaction_request

unfoldable pub check_create_game_server_request : C2sCreateGameServer → Option String
check_create_game_server_request r =
    if r.user_id == 0
    then some "Invalid user ID"
    else if is_blank r.server_name
    then some "Server name is empty"
    else if ltb 100 (size r.server_name)
    then some "Server name too long"
    else if is_blank r.server_ip
    then some "Server IP is empty"
    else if r.server_port == 0 || ltb 65535 r.server_port
    then some "Invalid server port"
    else if r.max_players == 0 || ltb 100 r.max_players
    then some "Invalid max players count"
    else none

unfoldable pub validate_create_game_server_request : Option C2sCreateGameServer → Action Bool
validate_create_game_server_request =
    validate "Create game server request is null" check_create_game_server_request

unfoldable pub check_game_server_list_request : C2sGameServerList → Option String
check_game_server_list_request r =
    if ltb 0 r.request_type then some "Invalid request type" else none

unfoldable pub validate_game_server_list_request : Option C2sGameServerList → Action Bool
validate_game_server_list_request =
    validate "Game server list request is null" check_game_server_list_request

unfoldable pub check_join_game_server_request : C2sJoinGameServer → Option String
check_join_game_server_request r =
    if r.user_id == 0
    then some "Invalid user ID"
    else if r.server_id == 0
    then some "Invalid server ID"
    else none

unfoldable pub validate_join_game_server_request : Option C2sJoinGameServer → Action Bool
validate_join_game_server_request =
    validate "Join game server request is null" check_join_game_server_request

unfoldable pub check_close_game_server_request : C2sCloseGameServer → Option String
check_close_game_server_request r =
    if r.user_id == 0
    then some "Invalid user ID"
    else if r.server_id == 0
    then some "Invalid server ID"
    else none

unfoldable pub validate_close_game_server_request : Option C2sCloseGameServer → Action Bool
validate_close_game_server_request =
    validate "Close game server request is null" check_close_game_server_request

unfoldable pub check_save_player_data_request : C2sSavePlayerData → Option String
check_save_player_data_request r =
    if r.user_id == 0
    then some "Invalid user ID"
    else if r.level == 0 || ltb 1000 r.level
    then some "Invalid level"
    else none

unfoldable pub validate_save_player_data_request : Option C2sSavePlayerData → Action Bool
validate_save_player_data_request =
    validate "Save player data request is null" check_save_player_data_request
