-- ===== src/TestClient/Replies.antt =====
-- The methods that create a response, and what the client parses from the bytes.
use game_database_server.Prelude.{ℕ, ◌≡◌, refl, true, false, List, Option, some, String}
use game_database_server.Packet.EventType.{EventType, event_code}
use game_database_server.Packet.Event.{
  Event, DatabasePacket, packet_event_type, s2c_login, s2c_logout, s2c_create_account,
  s2c_item_data, s2c_player_data, s2c_monster_data, s2c_player_chat, s2c_shop_list, s2c_shop_items,
  s2c_shop_transaction, s2c_create_game_server, s2c_game_server_list, s2c_join_game_server,
  s2c_close_game_server, s2c_save_player_data,
}
use game_database_server.Packet.Accessors.{
  as_s2c_login, as_s2c_logout, as_s2c_create_account, as_s2c_item_data, as_s2c_player_data,
  as_s2c_monster_data, as_s2c_player_chat, as_s2c_shop_list, as_s2c_shop_items,
  as_s2c_shop_transaction, as_s2c_create_game_server, as_s2c_game_server_list,
  as_s2c_join_game_server, as_s2c_close_game_server, as_s2c_save_player_data,
}
use game_database_server.Platform.{Platform}
use game_database_server.Action.{World, ok, ◌>>=◌}
use game_database_server.PacketManager.Defs.{clear_error}
use game_database_server.PacketManager.Parse.{has_type}
use game_database_server.PacketManager.Build.{
  packet_of, bytes_or_throw, build_packet, create_response, create_login_response,
  create_logout_response, create_account_response, create_item_data_response,
  create_player_data_response, create_monster_data_response, create_player_chat_response,
  create_shop_list_response, create_shop_items_response, create_shop_transaction_response,
  create_game_server_response, create_game_server_list_response, create_join_game_server_response,
  create_close_game_server_response, create_save_player_data_response,
}
use game_database_server.TestClient.Manager.{ClientPacketManager, verify_packet}
use game_database_server.TestClient.Responses.{
  parse_response, parse_login_response, parse_logout_response, parse_create_account_response,
  parse_item_data_response, parse_player_data_response, parse_monster_data_response,
  parse_player_chat_response, parse_shop_list_response, parse_shop_items_response,
  parse_shop_transaction_response, parse_create_game_server_response,
  parse_game_server_list_response, parse_join_game_server_response,
  parse_close_game_server_response, parse_save_player_data_response,
}
use game_database_server.TestClient.Calls.{Carries}
use game_database_server.TestClient.ReplyCalls.{ReplyCall, reply_body, replied}

module _ ⦃p : Platform⦄ where
  -- The parser of the client for the table gives its body, and no error text.
  abbrev pub UnderstoodAs : Event → List ℕ → ClientPacketManager → Type 0
  UnderstoodAs (s2c_login body) bytes m = parse_login_response bytes m ≡ (body, m)
  UnderstoodAs (s2c_logout body) bytes m = parse_logout_response bytes m ≡ (body, m)
  UnderstoodAs (s2c_create_account body) bytes m = parse_create_account_response bytes m ≡ (body, m)
  UnderstoodAs (s2c_item_data body) bytes m = parse_item_data_response bytes m ≡ (body, m)
  UnderstoodAs (s2c_player_data body) bytes m = parse_player_data_response bytes m ≡ (body, m)
  UnderstoodAs (s2c_monster_data body) bytes m = parse_monster_data_response bytes m ≡ (body, m)
  UnderstoodAs (s2c_player_chat body) bytes m = parse_player_chat_response bytes m ≡ (body, m)
  UnderstoodAs (s2c_shop_list body) bytes m = parse_shop_list_response bytes m ≡ (body, m)
  UnderstoodAs (s2c_shop_items body) bytes m = parse_shop_items_response bytes m ≡ (body, m)
  UnderstoodAs (s2c_shop_transaction body) bytes m =
      parse_shop_transaction_response bytes m ≡ (body, m)
  UnderstoodAs (s2c_create_game_server body) bytes m =
      parse_create_game_server_response bytes m ≡ (body, m)
  UnderstoodAs (s2c_game_server_list body) bytes m =
      parse_game_server_list_response bytes m ≡ (body, m)
  UnderstoodAs (s2c_join_game_server body) bytes m =
      parse_join_game_server_response bytes m ≡ (body, m)
  UnderstoodAs (s2c_close_game_server body) bytes m =
      parse_close_game_server_response bytes m ≡ (body, m)
  UnderstoodAs (s2c_save_player_data body) bytes m =
      parse_save_player_data_response bytes m ≡ (body, m)
  UnderstoodAs _ bytes m = false ≡ true

  replied_lem :
      (method : String) (e : Event) (s : ℕ) (bytes : List ℕ) (w : World)
      → Carries (packet_of e s) bytes
      → create_response method e s w ≡ (ok bytes, record w { last_error = "" })
  unfolding create_response ◌>>=◌ clear_error build_packet bytes_or_throw
  replied_lem method e s bytes w h = rw h.built refl

  understood_lem :
      {A : Type 0} (type : EventType) (message : String) (as_body : Event → Option A)
      (d : DatabasePacket) (bytes : List ℕ) (m : ClientPacketManager)
      → Carries d bytes
      → has_type type (some d) ≡ true
      → parse_response type message as_body bytes m ≡ (as_body d.packet_event, m)
  unfolding parse_response verify_packet
  understood_lem type message as_body d bytes m h typed =
      rw (h.some_bytes, h.verified, h.read, typed) refl

  replied-bytes :
      (call : ReplyCall) (s : ℕ) (bytes : List ℕ) (w : World)
      → Carries (packet_of (reply_body call) s) bytes
      → replied call s w ≡ (ok bytes, record w { last_error = "" })
  unfolding create_login_response create_logout_response create_account_response
      create_item_data_response create_player_data_response create_monster_data_response
      create_player_chat_response create_shop_list_response create_shop_items_response
      create_shop_transaction_response create_game_server_response create_game_server_list_response
      create_join_game_server_response create_close_game_server_response
      create_save_player_data_response
  replied-bytes (ReplyCall.login result user_id username nickname level) s bytes w h =
      replied_lem "CreateLoginResponse" _ s bytes w h
  replied-bytes (ReplyCall.logout result message) s bytes w h =
      replied_lem "CreateLogoutResponse" _ s bytes w h
  replied-bytes (ReplyCall.account result user_id message) s bytes w h =
      replied_lem "CreateAccountResponse" _ s bytes w h
  replied-bytes (ReplyCall.item_data result user_id gold) s bytes w h =
      replied_lem "CreateItemDataResponse" _ s bytes w h
  replied-bytes
        (ReplyCall.player_data result user_id username nickname level exp hp mp attack defense gold
          map_id pos_x pos_y)
        s bytes w h =
      replied_lem "CreatePlayerDataResponse" _ s bytes w h
  replied-bytes (ReplyCall.monster_data result) s bytes w h =
      replied_lem "CreateMonsterDataResponse" _ s bytes w h
  replied-bytes (ReplyCall.player_chat result) s bytes w h =
      replied_lem "CreatePlayerChatResponse" _ s bytes w h
  replied-bytes (ReplyCall.shop_list result) s bytes w h =
      replied_lem "CreateShopListResponse" _ s bytes w h
  replied-bytes (ReplyCall.shop_items result shop_id) s bytes w h =
      replied_lem "CreateShopItemsResponse" _ s bytes w h
  replied-bytes (ReplyCall.shop_transaction result message updated_gold) s bytes w h =
      replied_lem "CreateShopTransactionResponse" _ s bytes w h
  replied-bytes (ReplyCall.game_server result server_id message) s bytes w h =
      replied_lem "CreateGameServerResponse" _ s bytes w h
  replied-bytes (ReplyCall.game_server_list result) s bytes w h =
      replied_lem "CreateGameServerListResponse" _ s bytes w h
  replied-bytes (ReplyCall.join_game_server result server_ip server_port message) s bytes w h =
      replied_lem "CreateJoinGameServerResponse" _ s bytes w h
  replied-bytes (ReplyCall.close_game_server result message) s bytes w h =
      replied_lem "CreateCloseGameServerResponse" _ s bytes w h
  replied-bytes (ReplyCall.save_player_data result message) s bytes w h =
      replied_lem "CreateSavePlayerDataResponse" _ s bytes w h

  reply-UnderstoodAs :
      (call : ReplyCall) (s : ℕ) (bytes : List ℕ) (m : ClientPacketManager)
      → Carries (packet_of (reply_body call) s) bytes
      → UnderstoodAs (reply_body call) bytes m
  unfolding packet_event_type event_code packet_of parse_login_response parse_logout_response
      parse_create_account_response parse_item_data_response parse_player_data_response
      parse_monster_data_response parse_player_chat_response parse_shop_list_response
      parse_shop_items_response parse_shop_transaction_response parse_create_game_server_response
      parse_game_server_list_response parse_join_game_server_response
      parse_close_game_server_response parse_save_player_data_response as_s2c_login as_s2c_logout
      as_s2c_create_account as_s2c_item_data as_s2c_player_data as_s2c_monster_data
      as_s2c_player_chat as_s2c_shop_list as_s2c_shop_items as_s2c_shop_transaction
      as_s2c_create_game_server as_s2c_game_server_list as_s2c_join_game_server
      as_s2c_close_game_server as_s2c_save_player_data
  reply-UnderstoodAs (ReplyCall.login result user_id username nickname level) s bytes m h =
      understood_lem EventType.s2c_login _ as_s2c_login _ bytes m h refl
  reply-UnderstoodAs (ReplyCall.logout result message) s bytes m h =
      understood_lem EventType.s2c_logout _ as_s2c_logout _ bytes m h refl
  reply-UnderstoodAs (ReplyCall.account result user_id message) s bytes m h =
      understood_lem EventType.s2c_create_account _ as_s2c_create_account _ bytes m h refl
  reply-UnderstoodAs (ReplyCall.item_data result user_id gold) s bytes m h =
      understood_lem EventType.s2c_item_data _ as_s2c_item_data _ bytes m h refl
  reply-UnderstoodAs
        (ReplyCall.player_data result user_id username nickname level exp hp mp attack defense gold
          map_id pos_x pos_y)
        s bytes m h =
      understood_lem EventType.s2c_player_data _ as_s2c_player_data _ bytes m h refl
  reply-UnderstoodAs (ReplyCall.monster_data result) s bytes m h =
      understood_lem EventType.s2c_monster_data _ as_s2c_monster_data _ bytes m h refl
  reply-UnderstoodAs (ReplyCall.player_chat result) s bytes m h =
      understood_lem EventType.s2c_player_chat _ as_s2c_player_chat _ bytes m h refl
  reply-UnderstoodAs (ReplyCall.shop_list result) s bytes m h =
      understood_lem EventType.s2c_shop_list _ as_s2c_shop_list _ bytes m h refl
  reply-UnderstoodAs (ReplyCall.shop_items result shop_id) s bytes m h =
      understood_lem EventType.s2c_shop_items _ as_s2c_shop_items _ bytes m h refl
  reply-UnderstoodAs (ReplyCall.shop_transaction result message updated_gold) s bytes m h =
      understood_lem EventType.s2c_shop_transaction _ as_s2c_shop_transaction _ bytes m h refl
  reply-UnderstoodAs (ReplyCall.game_server result server_id message) s bytes m h =
      understood_lem EventType.s2c_create_game_server _ as_s2c_create_game_server _ bytes m h refl
  reply-UnderstoodAs (ReplyCall.game_server_list result) s bytes m h =
      understood_lem EventType.s2c_game_server_list _ as_s2c_game_server_list _ bytes m h refl
  reply-UnderstoodAs (ReplyCall.join_game_server result server_ip server_port message) s bytes m h =
      understood_lem EventType.s2c_join_game_server _ as_s2c_join_game_server _ bytes m h refl
  reply-UnderstoodAs (ReplyCall.close_game_server result message) s bytes m h =
      understood_lem EventType.s2c_close_game_server _ as_s2c_close_game_server _ bytes m h refl
  reply-UnderstoodAs (ReplyCall.save_player_data result message) s bytes m h =
      understood_lem EventType.s2c_save_player_data _ as_s2c_save_player_data _ bytes m h refl

  -- For every call of the fifteen methods with bytes that carry its table, the method returns these
  -- bytes and clears the error text, and the client's parser for the table gives back every argument
  -- of the call, in its field of the table.
  pub replied-parse :
      (call : ReplyCall) (s : ℕ) (bytes : List ℕ) (w : World) (m : ClientPacketManager)
      → Carries (packet_of (reply_body call) s) bytes
      → (replied call s w ≡ (ok bytes, record w { last_error = "" }))
        × UnderstoodAs (reply_body call) bytes m
  replied-parse call s bytes w m h =
      (replied-bytes call s bytes w h, reply-UnderstoodAs call s bytes m h)
