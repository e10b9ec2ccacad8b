-- ===== src/PacketManager/Validate/Bounds.antt =====
-- What the validated requests satisfy, field by field.
use game_database_server.Prelude.{ℕ, ◌≤◌, ◌≡◌, ◌≢◌, ◌↔◌, false, Option, none, String, arith}
use game_database_server.Packet.Request.{
  C2sCreateGameServer, C2sSavePlayerData, C2sShopTransaction, C2sLogin,
}
use game_database_server.PacketManager.Validate.{
  is_blank, size, check_create_game_server_request, check_save_player_data_request,
  check_shop_transaction_request, check_login_request,
}

-- A text that is there, not empty, and within a bound.
abbrev pub Sized : ℕ → Option String → Type 0
Sized most text = (is_blank text ≡ false) × (size text ≤ most)

pub check_save_player_data_request-bounds :
    (r : C2sSavePlayerData)
    → (check_save_player_data_request r ≡ none)
      ↔ ((r.user_id ≢ 0) × (1 ≤ r.level) × (r.level ≤ 1000))
unfolding check_save_player_data_request
check_save_player_data_request-bounds r = ground arith

pub check_shop_transaction_request-bounds :
    (r : C2sShopTransaction)
    → (check_shop_transaction_request r ≡ none) ↔ (
        (r.user_id ≢ 0)
        × (r.shop_id ≢ 0)
        × (r.item_id ≢ 0)
        × (1 ≤ r.item_count)
        × (r.transaction_type ≤ 1))
unfolding check_shop_transaction_request
check_shop_transaction_request-bounds r = ground arith

pub check_login_request-bounds :
    (r : C2sLogin) → (check_login_request r ≡ none) ↔ (Sized 50 r.username × Sized 255 r.password)
unfolding check_login_request
check_login_request-bounds r = ground arith

pub check_create_game_server_request-bounds :
    (r : C2sCreateGameServer)
    → (check_create_game_server_request r ≡ none) ↔ (
        (r.user_id ≢ 0)
        × Sized 100 r.server_name
        × (is_blank r.server_ip ≡ false)
        × (1 ≤ r.server_port)
        × (r.server_port ≤ 65535)
        × (1 ≤ r.max_players)
        × (r.max_players ≤ 100))
unfolding check_create_game_server_request
check_create_game_server_request-bounds r = ground arith
