-- ===== src/TestClient/RoundTrips.antt =====
-- The methods that create a request, and what the server parses from the bytes.
use game_database_server.Prelude.{ℕ, ◌≡◌, refl, true, false, List, Option, some, String}
use game_database_server.Packet.EventType.{EventType, event_code}
use game_database_server.Packet.Event.{
  Event, DatabasePacket, packet_event_type, c2s_close_game_server, c2s_create_account,
  c2s_create_game_server, c2s_game_server_list, c2s_item_data, c2s_join_game_server, c2s_login,
  c2s_logout, c2s_monster_data, c2s_player_chat, c2s_player_data, c2s_save_player_data,
  c2s_shop_items, c2s_shop_list, c2s_shop_transaction, as_c2s_close_game_server,
  as_c2s_create_account, as_c2s_create_game_server, as_c2s_game_server_list, as_c2s_item_data,
  as_c2s_join_game_server, as_c2s_login, as_c2s_logout, as_c2s_monster_data, as_c2s_player_chat,
  as_c2s_player_data, as_c2s_save_player_data, as_c2s_shop_items, as_c2s_shop_list,
  as_c2s_shop_transaction,
}
use game_database_server.Platform.{Platform}
use game_database_server.Action.{World, ok, ◌>>=◌}
use game_database_server.PacketManager.Defs.{type_of, set_error, verify_packet}
use game_database_server.PacketManager.Parse.{
  has_type, parse_request, parse_login_request, parse_logout_request, parse_create_account_request,
  parse_item_data_request, parse_player_data_request, parse_monster_data_request,
  parse_player_chat_request, parse_shop_list_request, parse_shop_items_request,
  parse_shop_transaction_request, parse_create_game_server_request, parse_game_server_list_request,
  parse_join_game_server_request, parse_close_game_server_request, parse_save_player_data_request,
}
use game_database_server.Database.Traffic.{is_request}
use game_database_server.TestClient.Manager.{
  ClientPacketManager, forget_error, request_packet, create_request,
}
use game_database_server.TestClient.Requests.{
  create_login_request, create_logout_request, create_account_request, create_item_data_request,
  create_player_data_query_request, create_player_data_update_request, create_monster_data_request,
  create_chat_send_request, create_chat_query_request, create_shop_list_request,
  create_shop_items_request, create_shop_transaction_request, create_game_server_request,
  create_game_server_list_request, create_join_game_server_request,
  create_close_game_server_request, create_save_player_data_request,
}
use game_database_server.TestClient.Calls.{Carries, RequestCall, carried, made}

module _ ⦃p : Platform⦄ where
  -- The parser of the server for the table gives its body, and no error text.
  abbrev pub ParsedAs : Event → List ℕ → World → Type 0
  ParsedAs (c2s_login body) bytes w = parse_login_request bytes w ≡ (ok body, w)
  ParsedAs (c2s_logout body) bytes w = parse_logout_request bytes w ≡ (ok body, w)
  ParsedAs (c2s_create_account body) bytes w = parse_create_account_request bytes w ≡ (ok body, w)
  ParsedAs (c2s_item_data body) bytes w = parse_item_data_request bytes w ≡ (ok body, w)
  ParsedAs (c2s_player_data body) bytes w = parse_player_data_request bytes w ≡ (ok body, w)
  ParsedAs (c2s_monster_data body) bytes w = parse_monster_data_request bytes w ≡ (ok body, w)
  ParsedAs (c2s_player_chat body) bytes w = parse_player_chat_request bytes w ≡ (ok body, w)
  ParsedAs (c2s_shop_list body) bytes w = parse_shop_list_request bytes w ≡ (ok body, w)
  ParsedAs (c2s_shop_items body) bytes w = parse_shop_items_request bytes w ≡ (ok body, w)
  ParsedAs (c2s_shop_transaction body) bytes w =
      parse_shop_transaction_request bytes w ≡ (ok body, w)
  ParsedAs (c2s_create_game_server body) bytes w =
      parse_create_game_server_request bytes w ≡ (ok body, w)
  ParsedAs (c2s_game_server_list body) bytes w =
      parse_game_server_list_request bytes w ≡ (ok body, w)
  ParsedAs (c2s_join_game_server body) bytes w =
      parse_join_game_server_request bytes w ≡ (ok body, w)
  ParsedAs (c2s_close_game_server body) bytes w =
      parse_close_game_server_request bytes w ≡ (ok body, w)
  ParsedAs (c2s_save_player_data body) bytes w =
      parse_save_player_data_request bytes w ≡ (ok body, w)
  ParsedAs _ bytes w = false ≡ true

  created_lem :
      (method : String) (e : Event) (bytes : List ℕ) (m : ClientPacketManager)
      → Carries (request_packet e) bytes
      → create_request method e m ≡ (bytes, forget_error m)
  unfolding create_request
  created_lem method e bytes m h = rw h.built refl

  parsed_lem :
      {A : Type 0} (type : EventType) (message : String) (as_body : Event → Option A)
      (d : DatabasePacket) (bytes : List ℕ) (w : World)
      → Carries d bytes
      → has_type type (some d) ≡ true
      → parse_request type message as_body bytes w ≡ (ok (as_body d.packet_event), w)
  unfolding parse_request ◌>>=◌ verify_packet set_error
  parsed_lem type message as_body d bytes w h typed =
      rw (h.some_bytes, h.verified, h.read, typed) refl

  pub made-bytes :
      (call : RequestCall) (bytes : List ℕ) (m : ClientPacketManager)
      → Carries (request_packet (carried call)) bytes
      → made call m ≡ (bytes, forget_error m)
  unfolding create_login_request create_logout_request create_account_request
      create_item_data_request create_player_data_query_request create_player_data_update_request
      create_monster_data_request create_chat_send_request create_chat_query_request
      create_shop_list_request create_shop_items_request create_shop_transaction_request
      create_game_server_request create_game_server_list_request create_join_game_server_request
      create_close_game_server_request create_save_player_data_request
  made-bytes (RequestCall.login username password) bytes m h =
      created_lem "CreateLoginRequest" _ bytes m h
  made-bytes (RequestCall.logout user_id) bytes m h = created_lem "CreateLogoutRequest" _ bytes m h
  made-bytes (RequestCall.account username password nickname) bytes m h =
      created_lem "CreateAccountRequest" _ bytes m h
  made-bytes (RequestCall.item_data user_id request_type item_id item_count) bytes m h =
      created_lem "CreateItemDataRequest" _ bytes m h
  made-bytes (RequestCall.player_data_query user_id) bytes m h =
      created_lem "CreatePlayerDataQueryRequest" _ bytes m h
  made-bytes (RequestCall.player_data_update user_id level exp hp mp pos_x pos_y) bytes m h =
      created_lem "CreatePlayerDataUpdateRequest" _ bytes m h
  made-bytes (RequestCall.monster_data request_type monster_id) bytes m h =
      created_lem "CreateMonsterDataRequest" _ bytes m h
  made-bytes (RequestCall.chat_send sender_id receiver_id message chat_type) bytes m h =
      created_lem "CreateChatSendRequest" _ bytes m h
  made-bytes (RequestCall.chat_query request_type sender_id receiver_id chat_type) bytes m h =
      created_lem "CreateChatQueryRequest" _ bytes m h
  made-bytes (RequestCall.shop_list request_type map_id) bytes m h =
      created_lem "CreateShopListRequest" _ bytes m h
  made-bytes (RequestCall.shop_items shop_id) bytes m h =
      created_lem "CreateShopItemsRequest" _ bytes m h
  made-bytes (RequestCall.shop_transaction user_id shop_id item_id item_count transaction_type)
        bytes m h =
      created_lem "CreateShopTransactionRequest" _ bytes m h
  made-bytes
        (RequestCall.game_server user_id server_name server_password server_ip server_port
          max_players)
        bytes m h =
      created_lem "CreateGameServerRequest" _ bytes m h
  made-bytes (RequestCall.game_server_list request_type) bytes m h =
      created_lem "CreateGameServerListRequest" _ bytes m h
  made-bytes (RequestCall.join_game_server user_id server_id server_password) bytes m h =
      created_lem "CreateJoinGameServerRequest" _ bytes m h
  made-bytes (RequestCall.close_game_server user_id server_id) bytes m h =
      created_lem "CreateCloseGameServerRequest" _ bytes m h
  made-bytes (RequestCall.save_player_data user_id level exp hp mp gold pos_x pos_y) bytes m h =
      created_lem "CreateSavePlayerDataRequest" _ bytes m h

  carried-ParsedAs :
      (call : RequestCall) (bytes : List ℕ) (w : World)
      → Carries (request_packet (carried call)) bytes
      → ParsedAs (carried call) bytes w
  unfolding packet_event_type event_code request_packet parse_login_request parse_logout_request
      parse_create_account_request parse_item_data_request parse_player_data_request
      parse_monster_data_request parse_player_chat_request parse_shop_list_request
      parse_shop_items_request parse_shop_transaction_request parse_create_game_server_request
      parse_game_server_list_request parse_join_game_server_request parse_close_game_server_request
      parse_save_player_data_request as_c2s_login as_c2s_logout as_c2s_create_account
      as_c2s_item_data as_c2s_player_data as_c2s_monster_data as_c2s_player_chat as_c2s_shop_list
      as_c2s_shop_items as_c2s_shop_transaction as_c2s_create_game_server as_c2s_game_server_list
      as_c2s_join_game_server as_c2s_close_game_server as_c2s_save_player_data
  carried-ParsedAs (RequestCall.login username password) bytes w h =
      parsed_lem EventType.c2s_login _ as_c2s_login _ bytes w h refl
  carried-ParsedAs (RequestCall.logout user_id) bytes w h =
      parsed_lem EventType.c2s_logout _ as_c2s_logout _ bytes w h refl
  carried-ParsedAs (RequestCall.account username password nickname) bytes w h =
      parsed_lem EventType.c2s_create_account _ as_c2s_create_account _ bytes w h refl
  carried-ParsedAs (RequestCall.item_data user_id request_type item_id item_count) bytes w h =
      parsed_lem EventType.c2s_item_data _ as_c2s_item_data _ bytes w h refl
  carried-ParsedAs (RequestCall.player_data_query user_id) bytes w h =
      parsed_lem EventType.c2s_player_data _ as_c2s_player_data _ bytes w h refl
  carried-ParsedAs (RequestCall.player_data_update user_id level exp hp mp pos_x pos_y) bytes w h =
      parsed_lem EventType.c2s_player_data _ as_c2s_player_data _ bytes w h refl
  carried-ParsedAs (RequestCall.monster_data request_type monster_id) bytes w h =
      parsed_lem EventType.c2s_monster_data _ as_c2s_monster_data _ bytes w h refl
  carried-ParsedAs (RequestCall.chat_send sender_id receiver_id message chat_type) bytes w h =
      parsed_lem EventType.c2s_player_chat _ as_c2s_player_chat _ bytes w h refl
  carried-ParsedAs (RequestCall.chat_query request_type sender_id receiver_id chat_type) bytes w h =
      parsed_lem EventType.c2s_player_chat _ as_c2s_player_chat _ bytes w h refl
  carried-ParsedAs (RequestCall.shop_list request_type map_id) bytes w h =
      parsed_lem EventType.c2s_shop_list _ as_c2s_shop_list _ bytes w h refl
  carried-ParsedAs (RequestCall.shop_items shop_id) bytes w h =
      parsed_lem EventType.c2s_shop_items _ as_c2s_shop_items _ bytes w h refl
  carried-ParsedAs
        (RequestCall.shop_transaction user_id shop_id item_id item_count transaction_type) bytes w
        h =
      parsed_lem EventType.c2s_shop_transaction _ as_c2s_shop_transaction _ bytes w h refl
  carried-ParsedAs
        (RequestCall.game_server user_id server_name server_password server_ip server_port
          max_players)
        bytes w h =
      parsed_lem EventType.c2s_create_game_server _ as_c2s_create_game_server _ bytes w h refl
  carried-ParsedAs (RequestCall.game_server_list request_type) bytes w h =
      parsed_lem EventType.c2s_game_server_list _ as_c2s_game_server_list _ bytes w h refl
  carried-ParsedAs (RequestCall.join_game_server user_id server_id server_password) bytes w h =
      parsed_lem EventType.c2s_join_game_server _ as_c2s_join_game_server _ bytes w h refl
  carried-ParsedAs (RequestCall.close_game_server user_id server_id) bytes w h =
      parsed_lem EventType.c2s_close_game_server _ as_c2s_close_game_server _ bytes w h refl
  carried-ParsedAs (RequestCall.save_player_data user_id level exp hp mp gold pos_x pos_y) bytes w
        h =
      parsed_lem EventType.c2s_save_player_data _ as_c2s_save_player_data _ bytes w h refl

  -- The switch of ProcessTask has a case for each request.
  pub carried-is_request :
      (call : RequestCall) → is_request (type_of (some (request_packet (carried call)))) ≡ true
  unfolding packet_event_type request_packet
  carried-is_request (RequestCall.login username password) = refl
  carried-is_request (RequestCall.logout user_id) = refl
  carried-is_request (RequestCall.account username password nickname) = refl
  carried-is_request (RequestCall.item_data user_id request_type item_id item_count) = refl
  carried-is_request (RequestCall.player_data_query user_id) = refl
  carried-is_request (RequestCall.player_data_update user_id level exp hp mp pos_x pos_y) = refl
  carried-is_request (RequestCall.monster_data request_type monster_id) = refl
  carried-is_request (RequestCall.chat_send sender_id receiver_id message chat_type) = refl
  carried-is_request (RequestCall.chat_query request_type sender_id receiver_id chat_type) = refl
  carried-is_request (RequestCall.shop_list request_type map_id) = refl
  carried-is_request (RequestCall.shop_items shop_id) = refl
  carried-is_request
        (RequestCall.shop_transaction user_id shop_id item_id item_count transaction_type) =
      refl
  carried-is_request
        (RequestCall.game_server user_id server_name server_password server_ip server_port
          max_players) =
      refl
  carried-is_request (RequestCall.game_server_list request_type) = refl
  carried-is_request (RequestCall.join_game_server user_id server_id server_password) = refl
  carried-is_request (RequestCall.close_game_server user_id server_id) = refl
  carried-is_request (RequestCall.save_player_data user_id level exp hp mp gold pos_x pos_y) = refl

  -- For every call of the seventeen methods with bytes that carry its table, the method returns
  -- these bytes with no error text, and the server's parser for the table gives back every argument
  -- of the call, in its field of the table, but for the request_type of CreateChatQueryRequest: the
  -- method drops it, and the parser finds 0.
  pub made-parse :
      (call : RequestCall) (bytes : List ℕ) (m : ClientPacketManager) (w : World)
      → Carries (request_packet (carried call)) bytes
      → (made call m ≡ (bytes, forget_error m)) × ParsedAs (carried call) bytes w
  made-parse call bytes m w h = (made-bytes call bytes m h, carried-ParsedAs call bytes w h)
