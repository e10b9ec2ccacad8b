-- ===== src/TestClient/Answering.antt =====
-- RunTestLoop where every text that a test follows is there: each test returns.
use game_database_server.Prelude.{
  ℕ, ◌≡◌, refl, ap, ◌∙◌, Bool, true, false, ◌||◌, List, [], ◌∷◌, Option, none, some, String, str_eq,
  ◌==◌, if◌then◌else◌,
}
use game_database_server.Text.{stoul}
use game_database_server.Packet.Response.{S2cLogin, S2cLogout}
use game_database_server.Packet.Accessors.{
  as_s2c_login, as_s2c_logout, as_s2c_create_account, as_s2c_create_game_server,
  as_s2c_game_server_list, as_s2c_join_game_server,
}
use game_database_server.Platform.{Platform}
use game_database_server.PacketManager.Defs.{is_empty}
use game_database_server.TestClient.Manager.{Method}
use game_database_server.TestClient.Requests.{
  create_login_request, create_logout_request, create_account_request,
}
use game_database_server.TestClient.Responses.{
  parse_login_response, parse_logout_response, parse_create_account_response,
  parse_create_game_server_response, parse_game_server_list_response,
  parse_join_game_server_response, is_login_success, is_success, is_create_account_success,
  is_create_game_server_success, is_game_server_list_valid, is_join_game_server_success,
}
use game_database_server.TestClient.Network.{Network}
use game_database_server.TestClient.Session.{
  GameServerTestClient, managed, try_reconnect, send_packet, receive_packet,
}
use game_database_server.TestClient.Texts.{
  login_texts, logout_texts, SendsTexts, Checked, Checked-if, Answered, returns, Answered-if,
  told-Answered, logged_in-Answered, logged_out-Answered, parse_response-Checked,
}
use game_database_server.TestClient.Tests.{
  Choice, Progress, account_texts, game_server_texts, list_texts, join_texts, told, logged_in,
  logged_out, receive_response, exchange, log_in, receive_login, send_again, test_login, log_out,
  test_logout, test_create_account, port_and_players, create_with, test_create_game_server,
  test_game_server_list, join_with, test_join_game_server, run_choice, going, run_test_loop,
}

-- Whether the exit is among the choices.
abbrev pub exits : List Choice → Bool
exits [] = false
exits (Choice.exit ∷ choices) = true
exits (choice ∷ choices) = exits choices

module _ ⦃p : Platform⦄ ⦃net : Network⦄ where
  -- A parser whose responses have their texts.
  abbrev Checks : {A : Type 0} → (A → Bool) → (List ℕ → Method (Option A)) → Type 0
  Checks texts parse = (bytes : List ℕ) (m : _) → Checked texts (parse bytes m).0

  exchange-Checked :
      {A : Type 0} (texts : A → Bool) (create : Method (List ℕ))
      (parse : List ℕ → Method (Option A)) (c : GameServerTestClient)
      → Checks texts parse
      → Checked texts (exchange create parse c).0
  unfolding exchange receive_response
  exchange-Checked texts create parse c h =
      let made = managed create c in
      let sent = send_packet made.0 made.1 in
      let received = receive_packet sent.1 in
      Checked-if texts (is_empty made.0) (none, made.1) _ tt
        (Checked-if texts sent.0 (receive_response parse sent.1) (none, sent.1)
          (Checked-if texts (is_empty received.0) (none, received.1)
            (managed (parse received.0) received.1) tt (h received.0 _))
          tt)

  -- The tests whose end is a response that is told.
  told_of :
      {A : Type 0} (texts : A → Bool) (success : Option A → Bool) (create : Method (List ℕ))
      (parse : List ℕ → Method (Option A)) (c : GameServerTestClient)
      → Checks texts parse
      → Answered (told texts success (exchange create parse c).0)
  told_of texts success create parse c h =
      told-Answered texts success _ (exchange-Checked texts create parse c h)

  log_in-Answered :
      (r : Option S2cLogin) (c : GameServerTestClient)
      → Checked login_texts r
      → Answered (log_in r c).0
  log_in-Answered none c h = returns false
  log_in-Answered (some r) c h =
      Answered-if (is_login_success (some r)) (logged_in r.username r.nickname r.user_id c) _
        (logged_in-Answered r.username r.nickname r.user_id c h) (returns false)

  log_out-Answered :
      (r : Option S2cLogout) (c : GameServerTestClient)
      → Checked logout_texts r
      → Answered (log_out r c).0
  log_out-Answered none c h = returns false
  log_out-Answered (some r) c h =
      Answered-if (is_success r.result) (logged_out r.message c) _
        (logged_out-Answered r.message c h) (returns false)

  module _ (t : SendsTexts) where
    receive_login-Answered : (c : GameServerTestClient) → Answered (receive_login c).0
    unfolding receive_login parse_login_response
    receive_login-Answered c =
        let received = receive_packet c in
        Answered-if (is_empty received.0) (some false, (try_reconnect received.1).1) _
          (returns false)
          (log_in-Answered _ _
            (parse_response-Checked _ _ as_s2c_login login_texts received.0 _ t.login))

    send_again-Answered :
        (packet : List ℕ) (c : GameServerTestClient) → Answered (send_again packet c).0
    unfolding send_again
    send_again-Answered packet c =
        let again = try_reconnect c in
        let sent = send_packet packet again.1 in
        Answered-if again.0 (if sent.0 then receive_login sent.1 else (some false, sent.1)) _
          (Answered-if sent.0 (receive_login sent.1) _ (receive_login-Answered sent.1)
            (returns false))
          (returns false)

    test_login-Answered :
        (username password : String) (c : GameServerTestClient)
        → Answered (test_login username password c).0
    unfolding test_login
    test_login-Answered username password c =
        let made = managed (create_login_request username password) c in
        let sent = send_packet made.0 made.1 in
        Answered-if (str_eq username "" || str_eq password "") (some false, c) _ (returns false)
          (Answered-if (is_empty made.0) (some false, made.1) _ (returns false)
            (Answered-if sent.0 (receive_login sent.1) _ (receive_login-Answered sent.1)
              (send_again-Answered made.0 sent.1)))

    test_logout-Answered : (c : GameServerTestClient) → Answered (test_logout c).0
    unfolding test_logout parse_logout_response
    test_logout-Answered c =
        Answered-if (c.current_user_id == 0) (some false, c) _ (returns false)
          (log_out-Answered _ _ (
            exchange-Checked logout_texts (create_logout_request c.current_user_id) _ c
              λ bytes m. parse_response-Checked _ _ as_s2c_logout logout_texts bytes m t.logout))

    account-Answered :
        (username password nickname : String) (c : GameServerTestClient)
        → Answered (test_create_account username password nickname c).0
    unfolding test_create_account parse_create_account_response
    account-Answered username password nickname c =
        let (r, c') =
          exchange (create_account_request username password nickname) parse_create_account_response
            c in
        Answered-if (str_eq username "" || str_eq password "" || str_eq nickname "") (some false, c)
          (told account_texts is_create_account_success r, c') (returns false)
          (told_of account_texts is_create_account_success _ _ c λ bytes m.
            parse_response-Checked _ _ as_s2c_create_account account_texts bytes m t.account)

    create_with-Answered :
        (server_name server_password server_ip : String) (numbers : Option (ℕ × ℕ))
        (c : GameServerTestClient)
        → Answered (create_with server_name server_password server_ip numbers c).0
    unfolding parse_create_game_server_response
    create_with-Answered server_name server_password server_ip none c = returns false
    create_with-Answered server_name server_password server_ip (some (port, players)) c =
        told_of game_server_texts is_create_game_server_success _ _ c λ bytes m.
          parse_response-Checked _ _ as_s2c_create_game_server game_server_texts bytes m
            t.game_server

    create-Answered :
        (server_name server_password server_ip port players : String) (c : GameServerTestClient)
        → Answered (test_create_game_server server_name server_password server_ip port players c).0
    unfolding test_create_game_server
    create-Answered server_name server_password server_ip port players c =
        Answered-if (c.current_user_id == 0) (some false, c) _ (returns false)
          (Answered-if (str_eq server_name "" || str_eq server_ip "" || str_eq port "")
            (some false, c) _ (returns false)
            (create_with-Answered server_name server_password server_ip
              (port_and_players port players) c))

    list-Answered : (c : GameServerTestClient) → Answered (test_game_server_list c).0
    unfolding test_game_server_list parse_game_server_list_response
    list-Answered c = told_of list_texts is_game_server_list_valid _ _ c λ bytes m.
        parse_response-Checked _ _ as_s2c_game_server_list list_texts bytes m t.game_server_list

    join_with-Answered :
        (server_password : String) (server_id : Option ℕ) (c : GameServerTestClient)
        → Answered (join_with server_password server_id c).0
    unfolding parse_join_game_server_response
    join_with-Answered server_password none c = returns false
    join_with-Answered server_password (some server_id) c =
        told_of join_texts is_join_game_server_success _ _ c
          λ bytes m. parse_response-Checked _ _ as_s2c_join_game_server join_texts bytes m t.join

    join-Answered :
        (server_id server_password : String) (c : GameServerTestClient)
        → Answered (test_join_game_server server_id server_password c).0
    unfolding test_join_game_server
    join-Answered server_id server_password c =
        Answered-if (c.current_user_id == 0) (some false, c) _ (returns false)
          (Answered-if (str_eq server_id "") (some false, c) _ (returns false)
            (join_with-Answered server_password (stoul server_id) c))

    pub run_choice-Answered :
        (choice : Choice) (c : GameServerTestClient) → Answered (run_choice choice c).0
    unfolding run_choice
    run_choice-Answered (Choice.login username password) c = test_login-Answered username password c
    run_choice-Answered Choice.logout c = test_logout-Answered c
    run_choice-Answered (Choice.create_account username password nickname) c =
        account-Answered username password nickname c
    run_choice-Answered (Choice.create_game_server n w i o m) c = create-Answered n w i o m c
    run_choice-Answered Choice.game_server_list c = list-Answered c
    run_choice-Answered (Choice.join_game_server i w) c = join-Answered i w c
    run_choice-Answered Choice.reconnect c = returns (try_reconnect c).0
    run_choice-Answered Choice.show_status c = returns false
    run_choice-Answered Choice.exit c = returns false
    run_choice-Answered Choice.other c = returns false

  going-Answered :
      (done : Option Bool) (c : GameServerTestClient)
      (rest : Progress (Unit {0}) × GameServerTestClient)
      → Answered done
      → going done c rest ≡ rest
  going-Answered none c rest (b, e) = absurd cc
  going-Answered (some done) c rest h = refl

  -- RunTestLoop returns where the exit is among the choices, and waits for more otherwise.
  pub run_test_loop-ends :
      SendsTexts
      → (choices : List Choice) (c : GameServerTestClient)
      → (run_test_loop choices c).0
        ≡ (if exits choices then Progress.returned tt else Progress.waiting)
  unfolding run_test_loop
  run_test_loop-ends t [] c = refl
  run_test_loop-ends t (Choice.exit ∷ choices) c = refl
  run_test_loop-ends t (choice ∷ choices) c =
      ap (λ (x : Progress (Unit {0}) × GameServerTestClient). x.0)
        (going-Answered (run_choice choice c).0 (run_choice choice c).1 _
          (run_choice-Answered t choice c))
      ∙ run_test_loop-ends t choices (run_choice choice c).1
