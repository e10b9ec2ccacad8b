-- ===== src/PacketManager/Errors.antt =====
-- ServerPacketManager.cpp, CreateLoginErrorResponse to CreateGenericErrorResponse.
use game_database_server.Prelude.{ℕ, List, [], String}
use game_database_server.Packet.EventType.{EventType}
use game_database_server.Packet.ResultCode.{ResultCode}
use game_database_server.Platform.{Platform}
use game_database_server.Action.{Action, pure, ◌>>◌}
use game_database_server.PacketManager.Defs.{set_error}
use game_database_server.PacketManager.Build.{
  create_login_response, create_account_response, create_player_data_response,
  create_item_data_response, create_shop_list_response, create_shop_items_response,
  create_shop_transaction_response, create_game_server_response, create_game_server_list_response,
  create_join_game_server_response, create_close_game_server_response,
  create_save_player_data_response,
}

module _ ⦃p : Platform⦄ where
  unfoldable pub create_login_error_response : ResultCode → ℕ → Action (List ℕ)
  create_login_error_response error_code client_socket =
      create_login_response error_code 0 "" "" 0 client_socket

  unfoldable pub create_account_error_response : ResultCode → String → ℕ → Action (List ℕ)
  create_account_error_response error_code message client_socket =
      create_account_response error_code 0 message client_socket

  unfoldable pub create_player_data_error_response : ResultCode → ℕ → Action (List ℕ)
  create_player_data_error_response error_code client_socket =
      create_player_data_response error_code 0 "" "" 0 0 0 0 0 0 0 0 0 0 client_socket

  unfoldable pub create_item_data_error_response : ResultCode → ℕ → ℕ → Action (List ℕ)
  create_item_data_error_response error_code user_id client_socket =
      create_item_data_response error_code user_id 0 client_socket

  unfoldable pub create_shop_list_error_response : ResultCode → ℕ → Action (List ℕ)
  create_shop_list_error_response error_code client_socket =
      create_shop_list_response error_code client_socket

  unfoldable pub create_shop_items_error_response : ResultCode → ℕ → ℕ → Action (List ℕ)
  create_shop_items_error_response error_code shop_id client_socket =
      create_shop_items_response error_code shop_id client_socket

  unfoldable pub create_shop_transaction_error_response : ResultCode → String → ℕ → Action (List ℕ)
  create_shop_transaction_error_response error_code message client_socket =
      create_shop_transaction_response error_code message 0 client_socket

  unfoldable pub create_game_server_error_response : ResultCode → String → ℕ → Action (List ℕ)
  create_game_server_error_response error_code message client_socket =
      create_game_server_response error_code 0 message client_socket

  unfoldable pub create_game_server_list_error_response : ResultCode → ℕ → Action (List ℕ)
  create_game_server_list_error_response error_code client_socket =
      create_game_server_list_response error_code client_socket

  unfoldable pub create_join_game_server_error_response : ResultCode → String → ℕ → Action (List ℕ)
  create_join_game_server_error_response error_code message client_socket =
      create_join_game_server_response error_code "" 0 message client_socket

  unfoldable pub create_close_game_server_error_response : ResultCode → String → ℕ → Action (List ℕ)
  create_close_game_server_error_response error_code message client_socket =
      create_close_game_server_response error_code message client_socket

  unfoldable pub create_save_player_data_error_response : ResultCode → String → ℕ → Action (List ℕ)
  create_save_player_data_error_response error_code message client_socket =
      create_save_player_data_response error_code message client_socket

  -- Any other type, those of the logout, monster and chat responses among them, is unsupported.
  unfoldable pub create_generic_error_response : EventType → ResultCode → ℕ → Action (List ℕ)
  create_generic_error_response EventType.s2c_login error_code client_socket =
      create_login_error_response error_code client_socket
  create_generic_error_response EventType.s2c_create_account error_code client_socket =
      create_account_error_response error_code "Generic error" client_socket
  create_generic_error_response EventType.s2c_player_data error_code client_socket =
      create_player_data_error_response error_code client_socket
  create_generic_error_response EventType.s2c_item_data error_code client_socket =
      create_item_data_error_response error_code 0 client_socket
  create_generic_error_response EventType.s2c_shop_list error_code client_socket =
      create_shop_list_error_response error_code client_socket
  create_generic_error_response EventType.s2c_shop_items error_code client_socket =
      create_shop_items_error_response error_code 0 client_socket
  create_generic_error_response EventType.s2c_shop_transaction error_code client_socket =
      create_shop_transaction_error_response error_code "Generic error" client_socket
  create_generic_error_response EventType.s2c_create_game_server error_code client_socket =
      create_game_server_error_response error_code "Generic error" client_socket
  create_generic_error_response EventType.s2c_game_server_list error_code client_socket =
      create_game_server_list_error_response error_code client_socket
  create_generic_error_response EventType.s2c_join_game_server error_code client_socket =
      create_join_game_server_error_response error_code "Generic error" client_socket
  create_generic_error_response EventType.s2c_close_game_server error_code client_socket =
      create_close_game_server_error_response error_code "Generic error" client_socket
  create_generic_error_response EventType.s2c_save_player_data error_code client_socket =
      create_save_player_data_error_response error_code "Generic error" client_socket
  create_generic_error_response _ error_code client_socket = do
    set_error "Unsupported response type for generic error"
    pure []
