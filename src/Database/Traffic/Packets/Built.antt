-- ===== src/Database/Traffic/Packets/Built.antt =====
-- The methods that build a response.
use game_database_server.Prelude.{ℕ, String, refl}
use game_database_server.Packet.ResultCode.{ResultCode}
use game_database_server.Packet.Event.{Event}
use game_database_server.Platform.{Platform}
use game_database_server.Action.{pure, try_catch}
use game_database_server.PacketManager.Build.{
  packet_of, bytes_or_throw, build_packet, create_response, create_login_response,
  create_logout_response, create_account_response, create_item_data_response,
  create_player_data_response, create_monster_data_response, create_player_chat_response,
  create_shop_list_response, create_shop_items_response, create_shop_transaction_response,
  create_game_server_response, create_game_server_list_response, create_join_game_server_response,
  create_close_game_server_response, create_save_player_data_response,
}
use game_database_server.PacketManager.Errors.{
  create_login_error_response, create_account_error_response, create_player_data_error_response,
  create_item_data_error_response, create_shop_list_error_response,
  create_shop_items_error_response, create_shop_transaction_error_response,
  create_game_server_error_response, create_game_server_list_error_response,
  create_join_game_server_error_response, create_close_game_server_error_response,
  create_save_player_data_error_response,
}
use game_database_server.Database.Traffic.Calls.{clear_error-Quiet}
use game_database_server.Database.Traffic.Packets.Rules.{Builds, Packs, Packs-bind}

module _ ⦃p : Platform⦄ (works : Builds p) where
  pub build_packet-Packs : (e : Event) (client_socket : ℕ) → Packs (build_packet e client_socket)
  unfolding build_packet bytes_or_throw pure
  build_packet-Packs e client_socket =
      let (b, bytes, built) = works.finished (packet_of e client_socket) in
      rw built (record { sends = λ w. refl; full = λ w. tt })

  -- The handler of the try block is not reached, since the builder does not throw.
  create_response-Packs :
      (method : String) (e : Event) (client_socket : ℕ)
      → Packs (create_response method e client_socket)
  unfolding create_response build_packet bytes_or_throw
  create_response-Packs method e client_socket =
      let (b, bytes, built) = works.finished (packet_of e client_socket) in
      rw built (
        Packs-bind clear_error-Quiet (λ _. record {
          sends = λ w. unfold try_catch pure in refl;
          full = λ w. unfold try_catch pure in tt;
        }))

  pub create_login_response-Packs :
      (code : ResultCode) (user_id : ℕ) (username nickname : String) (level : ℕ) (n1 : ℕ)
      → Packs (create_login_response code user_id username nickname level n1)
  unfolding create_login_response
  create_login_response-Packs code user_id username nickname level n1 = create_response-Packs _ _ _

  pub create_logout_response-Packs :
      (code : ResultCode) (message : String) (n1 : ℕ)
      → Packs (create_logout_response code message n1)
  unfolding create_logout_response
  create_logout_response-Packs code message n1 = create_response-Packs _ _ _

  pub create_account_response-Packs :
      (code : ResultCode) (user_id : ℕ) (message : String) (n1 : ℕ)
      → Packs (create_account_response code user_id message n1)
  unfolding create_account_response
  create_account_response-Packs code user_id message n1 = create_response-Packs _ _ _

  pub create_item_data_response-Packs :
      (code : ResultCode) (user_id gold : ℕ) (n1 : ℕ)
      → Packs (create_item_data_response code user_id gold n1)
  unfolding create_item_data_response
  create_item_data_response-Packs code user_id gold n1 = create_response-Packs _ _ _

  pub create_player_data_response-Packs :
      (code : ResultCode) (user_id : ℕ) (username nickname : String)
      (level exp hp mp attack defense gold map_id pos_x pos_y : ℕ) (n1 : ℕ)
      → Packs (
          create_player_data_response code user_id username nickname level exp hp mp attack defense
            gold map_id pos_x pos_y n1)
  unfolding create_player_data_response
  create_player_data_response-Packs code user_id username nickname level exp hp mp attack defense
        gold map_id pos_x pos_y n1 =
      create_response-Packs _ _ _

  pub create_monster_data_response-Packs :
      (code : ResultCode) (n1 : ℕ) → Packs (create_monster_data_response code n1)
  unfolding create_monster_data_response
  create_monster_data_response-Packs code n1 = create_response-Packs _ _ _

  pub create_player_chat_response-Packs :
      (code : ResultCode) (n1 : ℕ) → Packs (create_player_chat_response code n1)
  unfolding create_player_chat_response
  create_player_chat_response-Packs code n1 = create_response-Packs _ _ _

  pub create_shop_list_response-Packs :
      (code : ResultCode) (n1 : ℕ) → Packs (create_shop_list_response code n1)
  unfolding create_shop_list_response
  create_shop_list_response-Packs code n1 = create_response-Packs _ _ _

  pub create_shop_items_response-Packs :
      (code : ResultCode) (shop_id : ℕ) (n1 : ℕ)
      → Packs (create_shop_items_response code shop_id n1)
  unfolding create_shop_items_response
  create_shop_items_response-Packs code shop_id n1 = create_response-Packs _ _ _

  pub create_shop_transaction_response-Packs :
      (code : ResultCode) (message : String) (updated_gold : ℕ) (n1 : ℕ)
      → Packs (create_shop_transaction_response code message updated_gold n1)
  unfolding create_shop_transaction_response
  create_shop_transaction_response-Packs code message updated_gold n1 = create_response-Packs _ _ _

  pub create_game_server_response-Packs :
      (code : ResultCode) (server_id : ℕ) (message : String) (n1 : ℕ)
      → Packs (create_game_server_response code server_id message n1)
  unfolding create_game_server_response
  create_game_server_response-Packs code server_id message n1 = create_response-Packs _ _ _

  pub create_game_server_list_response-Packs :
      (code : ResultCode) (n1 : ℕ) → Packs (create_game_server_list_response code n1)
  unfolding create_game_server_list_response
  create_game_server_list_response-Packs code n1 = create_response-Packs _ _ _

  pub create_join_game_server_response-Packs :
      (code : ResultCode) (server_ip : String) (server_port : ℕ) (message : String) (n1 : ℕ)
      → Packs (create_join_game_server_response code server_ip server_port message n1)
  unfolding create_join_game_server_response
  create_join_game_server_response-Packs code server_ip server_port message n1 =
      create_response-Packs _ _ _

  pub create_close_game_server_response-Packs :
      (code : ResultCode) (message : String) (n1 : ℕ)
      → Packs (create_close_game_server_response code message n1)
  unfolding create_close_game_server_response
  create_close_game_server_response-Packs code message n1 = create_response-Packs _ _ _

  pub create_save_player_data_response-Packs :
      (code : ResultCode) (message : String) (n1 : ℕ)
      → Packs (create_save_player_data_response code message n1)
  unfolding create_save_player_data_response
  create_save_player_data_response-Packs code message n1 = create_response-Packs _ _ _

  pub create_login_error_response-Packs :
      (code : ResultCode) (n1 : ℕ) → Packs (create_login_error_response code n1)
  unfolding create_login_error_response
  create_login_error_response-Packs code n1 = create_login_response-Packs _ _ _ _ _ _

  pub create_account_error_response-Packs :
      (code : ResultCode) (message : String) (n2 : ℕ)
      → Packs (create_account_error_response code message n2)
  unfolding create_account_error_response
  create_account_error_response-Packs code message n2 = create_account_response-Packs _ _ _ _

  pub create_player_data_error_response-Packs :
      (code : ResultCode) (n1 : ℕ) → Packs (create_player_data_error_response code n1)
  unfolding create_player_data_error_response
  create_player_data_error_response-Packs code n1 =
      create_player_data_response-Packs _ _ _ _ _ _ _ _ _ _ _ _ _ _ _

  pub create_item_data_error_response-Packs :
      (code : ResultCode) (n1 : ℕ) (n2 : ℕ) → Packs (create_item_data_error_response code n1 n2)
  unfolding create_item_data_error_response
  create_item_data_error_response-Packs code n1 n2 = create_item_data_response-Packs _ _ _ _

  pub create_shop_list_error_response-Packs :
      (code : ResultCode) (n1 : ℕ) → Packs (create_shop_list_error_response code n1)
  unfolding create_shop_list_error_response
  create_shop_list_error_response-Packs code n1 = create_shop_list_response-Packs _ _

  pub create_shop_items_error_response-Packs :
      (code : ResultCode) (n1 : ℕ) (n2 : ℕ) → Packs (create_shop_items_error_response code n1 n2)
  unfolding create_shop_items_error_response
  create_shop_items_error_response-Packs code n1 n2 = create_shop_items_response-Packs _ _ _

  pub create_shop_transaction_error_response-Packs :
      (code : ResultCode) (message : String) (n2 : ℕ)
      → Packs (create_shop_transaction_error_response code message n2)
  unfolding create_shop_transaction_error_response
  create_shop_transaction_error_response-Packs code message n2 =
      create_shop_transaction_response-Packs _ _ _ _

  pub create_game_server_error_response-Packs :
      (code : ResultCode) (message : String) (n2 : ℕ)
      → Packs (create_game_server_error_response code message n2)
  unfolding create_game_server_error_response
  create_game_server_error_response-Packs code message n2 =
      create_game_server_response-Packs _ _ _ _

  pub create_game_server_list_error_response-Packs :
      (code : ResultCode) (n1 : ℕ) → Packs (create_game_server_list_error_response code n1)
  unfolding create_game_server_list_error_response
  create_game_server_list_error_response-Packs code n1 = create_game_server_list_response-Packs _ _

  pub create_join_game_server_error_response-Packs :
      (code : ResultCode) (message : String) (n2 : ℕ)
      → Packs (create_join_game_server_error_response code message n2)
  unfolding create_join_game_server_error_response
  create_join_game_server_error_response-Packs code message n2 =
      create_join_game_server_response-Packs _ _ _ _ _

  pub create_close_game_server_error_response-Packs :
      (code : ResultCode) (message : String) (n2 : ℕ)
      → Packs (create_close_game_server_error_response code message n2)
  unfolding create_close_game_server_error_response
  create_close_game_server_error_response-Packs code message n2 =
      create_close_game_server_response-Packs _ _ _

  pub create_save_player_data_error_response-Packs :
      (code : ResultCode) (message : String) (n2 : ℕ)
      → Packs (create_save_player_data_error_response code message n2)
  unfolding create_save_player_data_error_response
  create_save_player_data_error_response-Packs code message n2 =
      create_save_player_data_response-Packs _ _ _
