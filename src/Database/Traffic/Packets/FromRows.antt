-- ===== src/Database/Traffic/Packets/FromRows.antt =====
-- The responses from a result set, and the generic error response.
use game_database_server.Prelude.{ℕ, List, [], ◌∷◌, Option, none, some, String}
use game_database_server.Packet.ResultCode.{ResultCode}
use game_database_server.Platform.{Platform, Row, ResultSet}
use game_database_server.Action.Traffic.{Quiet}
use game_database_server.Packet.EventType.{EventType}
use game_database_server.PacketManager.Errors.{create_generic_error_response}
use game_database_server.PacketManager.FromDb.{
  on_failure, login_of_rows, player_data_of_rows, create_login_response_from_db,
  create_player_data_response_from_db, create_item_data_response_from_db,
  create_monster_data_response_from_db, create_player_chat_response_from_db,
  create_shop_list_response_from_db, create_shop_items_response_from_db,
  create_game_server_list_response_from_db,
}
use game_database_server.Database.Traffic.Calls.{call_rules}
use game_database_server.Database.Traffic.Packets.Rules.{Builds, Packs, Packs-Quiet, packet_rules}
use game_database_server.Database.Traffic.Packets.Built.{
  build_packet-Packs, create_login_response-Packs, create_player_data_response-Packs,
  create_monster_data_response-Packs, create_player_chat_response-Packs,
  create_shop_list_response-Packs, create_shop_items_response-Packs,
  create_game_server_list_response-Packs, create_login_error_response-Packs,
  create_account_error_response-Packs, create_player_data_error_response-Packs,
  create_item_data_error_response-Packs, create_shop_list_error_response-Packs,
  create_shop_items_error_response-Packs, create_shop_transaction_error_response-Packs,
  create_game_server_error_response-Packs, create_game_server_list_error_response-Packs,
  create_join_game_server_error_response-Packs, create_close_game_server_error_response-Packs,
  create_save_player_data_error_response-Packs,
}

module _ ⦃p : Platform⦄ (works : Builds p) where
  login_of_rows-Packs :
      (rows : List Row) (message : String) (n2 : ℕ) → Packs (login_of_rows rows message n2)
  unfolding login_of_rows on_failure
  login_of_rows-Packs [] message n2 = search (create_login_error_response-Packs works)
  login_of_rows-Packs (row ∷ rows) message n2 =
      search
        (packet_rules, create_login_response-Packs works, create_login_error_response-Packs works)
        depth 24

  pub create_login_response_from_db-Packs :
      (r : Option ResultSet) (message : String) (n2 : ℕ)
      → Packs (create_login_response_from_db r message n2)
  unfolding create_login_response_from_db on_failure
  create_login_response_from_db-Packs none message n2 = create_login_error_response-Packs works _ _
  create_login_response_from_db-Packs (some r) message n2 = login_of_rows-Packs r.rows message n2

  player_data_of_rows-Packs :
      (rows : List Row) (n1 : ℕ) (n2 : ℕ) → Packs (player_data_of_rows rows n1 n2)
  unfolding player_data_of_rows on_failure
  player_data_of_rows-Packs [] n1 n2 = search (create_player_data_error_response-Packs works)
  player_data_of_rows-Packs (row ∷ rows) n1 n2 =
      search
        (
          packet_rules,
          create_player_data_response-Packs works,
          create_player_data_error_response-Packs works,
        )
        depth 24

  pub create_player_data_response_from_db-Packs :
      (r : Option ResultSet) (n1 : ℕ) (n2 : ℕ) → Packs (create_player_data_response_from_db r n1 n2)
  unfolding create_player_data_response_from_db on_failure
  create_player_data_response_from_db-Packs none n1 n2 =
      create_player_data_error_response-Packs works _ _
  create_player_data_response_from_db-Packs (some r) n1 n2 = player_data_of_rows-Packs r.rows n1 n2

  pub create_item_data_response_from_db-Packs :
      (r : Option ResultSet) (n1 : ℕ) (n2 : ℕ) → Packs (create_item_data_response_from_db r n1 n2)
  unfolding create_item_data_response_from_db on_failure
  create_item_data_response_from_db-Packs none n1 n2 =
      search (create_item_data_error_response-Packs works)
  create_item_data_response_from_db-Packs (some r) n1 n2 =
      search (packet_rules, build_packet-Packs works, create_item_data_error_response-Packs works)
        depth 12

  pub create_monster_data_response_from_db-Packs :
      (r : Option ResultSet) (n1 : ℕ) → Packs (create_monster_data_response_from_db r n1)
  unfolding create_monster_data_response_from_db on_failure
  create_monster_data_response_from_db-Packs none n1 =
      search (create_monster_data_response-Packs works)
  create_monster_data_response_from_db-Packs (some r) n1 =
      search (packet_rules, build_packet-Packs works, create_monster_data_response-Packs works)
        depth 12

  pub create_player_chat_response_from_db-Packs :
      (r : Option ResultSet) (n1 : ℕ) → Packs (create_player_chat_response_from_db r n1)
  unfolding create_player_chat_response_from_db on_failure
  create_player_chat_response_from_db-Packs none n1 =
      search (create_player_chat_response-Packs works)
  create_player_chat_response_from_db-Packs (some r) n1 =
      search (packet_rules, build_packet-Packs works, create_player_chat_response-Packs works) depth
        12

  pub create_shop_list_response_from_db-Packs :
      (r : Option ResultSet) (n1 : ℕ) → Packs (create_shop_list_response_from_db r n1)
  unfolding create_shop_list_response_from_db on_failure
  create_shop_list_response_from_db-Packs none n1 = search (create_shop_list_response-Packs works)
  create_shop_list_response_from_db-Packs (some r) n1 =
      search (packet_rules, build_packet-Packs works, create_shop_list_response-Packs works) depth
        12

  pub create_shop_items_response_from_db-Packs :
      (r : Option ResultSet) (n1 : ℕ) (n2 : ℕ) → Packs (create_shop_items_response_from_db r n1 n2)
  unfolding create_shop_items_response_from_db on_failure
  create_shop_items_response_from_db-Packs none n1 n2 =
      search (create_shop_items_response-Packs works)
  create_shop_items_response_from_db-Packs (some r) n1 n2 =
      search (packet_rules, build_packet-Packs works, create_shop_items_response-Packs works) depth
        12

  pub create_game_server_list_response_from_db-Packs :
      (r : Option ResultSet) (n1 : ℕ) → Packs (create_game_server_list_response_from_db r n1)
  unfolding create_game_server_list_response_from_db on_failure
  create_game_server_list_response_from_db-Packs none n1 =
      search (create_game_server_list_response-Packs works)
  create_game_server_list_response_from_db-Packs (some r) n1 =
      search (packet_rules, build_packet-Packs works, create_game_server_list_response-Packs works)
        depth 12

  -- Nothing is sent by the choice of the error packet; it is empty for an unsupported type.
  pub create_generic_error_response-Quiet :
      (type : EventType) (code : ResultCode) (client_socket : ℕ)
      → Quiet (create_generic_error_response type code client_socket)
  unfolding create_generic_error_response
  create_generic_error_response-Quiet EventType.s2c_login code client_socket =
      Packs-Quiet (create_login_error_response-Packs works _ _)
  create_generic_error_response-Quiet EventType.s2c_create_account code client_socket =
      Packs-Quiet (create_account_error_response-Packs works _ _ _)
  create_generic_error_response-Quiet EventType.s2c_player_data code client_socket =
      Packs-Quiet (create_player_data_error_response-Packs works _ _)
  create_generic_error_response-Quiet EventType.s2c_item_data code client_socket =
      Packs-Quiet (create_item_data_error_response-Packs works _ _ _)
  create_generic_error_response-Quiet EventType.s2c_shop_list code client_socket =
      Packs-Quiet (create_shop_list_error_response-Packs works _ _)
  create_generic_error_response-Quiet EventType.s2c_shop_items code client_socket =
      Packs-Quiet (create_shop_items_error_response-Packs works _ _ _)
  create_generic_error_response-Quiet EventType.s2c_shop_transaction code client_socket =
      Packs-Quiet (create_shop_transaction_error_response-Packs works _ _ _)
  create_generic_error_response-Quiet EventType.s2c_create_game_server code client_socket =
      Packs-Quiet (create_game_server_error_response-Packs works _ _ _)
  create_generic_error_response-Quiet EventType.s2c_game_server_list code client_socket =
      Packs-Quiet (create_game_server_list_error_response-Packs works _ _)
  create_generic_error_response-Quiet EventType.s2c_join_game_server code client_socket =
      Packs-Quiet (create_join_game_server_error_response-Packs works _ _ _)
  create_generic_error_response-Quiet EventType.s2c_close_game_server code client_socket =
      Packs-Quiet (create_close_game_server_error_response-Packs works _ _ _)
  create_generic_error_response-Quiet EventType.s2c_save_player_data code client_socket =
      Packs-Quiet (create_save_player_data_error_response-Packs works _ _ _)
  create_generic_error_response-Quiet _ code client_socket = search call_rules
