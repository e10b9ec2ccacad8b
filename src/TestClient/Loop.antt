-- ===== src/TestClient/Loop.antt =====
-- RunTestLoop: what every choice of the menu keeps.
use game_database_server.Prelude.{
  ℕ, Bool, true, false, ◌||◌, List, [], ◌∷◌, Option, none, some, String, str_eq, ◌==◌,
  if◌then◌else◌,
}
use game_database_server.Text.{stoul}
use game_database_server.Packet.Response.{S2cLogout}
use game_database_server.Platform.{Platform}
use game_database_server.TestClient.Requests.{create_logout_request, create_account_request}
use game_database_server.TestClient.Responses.{parse_logout_response, is_success}
use game_database_server.TestClient.Network.{Network}
use game_database_server.TestClient.Session.{GameServerTestClient}
use game_database_server.TestClient.Tests.{
  Choice, Progress, logged_out, going, exchange, log_out, test_logout, test_create_account,
  port_and_players, create_with, test_create_game_server, test_game_server_list, join_with,
  test_join_game_server, run_choice, run_test_loop,
}
use game_database_server.TestClient.Consistency.{
  IsConsistent, Kept, Kept-refl, Kept-if, Kept-try_reconnect,
}
use game_database_server.TestClient.Users.{Kept-exchange, test_login-Login}

module _ ⦃p : Platform⦄ ⦃net : Network⦄ where
  Kept-account :
      (username password nickname : String) (c : GameServerTestClient)
      → Kept c (test_create_account username password nickname c).1
  unfolding test_create_account
  Kept-account username password nickname c =
      Kept-if (str_eq username "" || str_eq password "" || str_eq nickname "") (some false, c) _
        (Kept-refl c) (Kept-exchange (create_account_request username password nickname) _ c)

  Kept-create_with :
      (server_name server_password server_ip : String) (numbers : Option (ℕ × ℕ))
      (c : GameServerTestClient)
      → Kept c (create_with server_name server_password server_ip numbers c).1
  Kept-create_with server_name server_password server_ip none c = Kept-refl c
  Kept-create_with server_name server_password server_ip (some (port, players)) c =
      Kept-exchange _ _ c

  Kept-create :
      (server_name server_password server_ip port players : String) (c : GameServerTestClient)
      → Kept c (test_create_game_server server_name server_password server_ip port players c).1
  unfolding test_create_game_server
  Kept-create server_name server_password server_ip port players c =
      Kept-if (c.current_user_id == 0) (some false, c) _ (Kept-refl c)
        (Kept-if (str_eq server_name "" || str_eq server_ip "" || str_eq port "") (some false, c) _
          (Kept-refl c)
          (Kept-create_with server_name server_password server_ip (port_and_players port players)
            c))

  Kept-list : (c : GameServerTestClient) → Kept c (test_game_server_list c).1
  unfolding test_game_server_list
  Kept-list c = Kept-exchange _ _ c

  Kept-join_with :
      (server_password : String) (server_id : Option ℕ) (c : GameServerTestClient)
      → Kept c (join_with server_password server_id c).1
  Kept-join_with server_password none c = Kept-refl c
  Kept-join_with server_password (some server_id) c = Kept-exchange _ _ c

  Kept-join :
      (server_id server_password : String) (c : GameServerTestClient)
      → Kept c (test_join_game_server server_id server_password c).1
  unfolding test_join_game_server
  Kept-join server_id server_password c =
      Kept-if (c.current_user_id == 0) (some false, c) _ (Kept-refl c)
        (Kept-if (str_eq server_id "") (some false, c) _ (Kept-refl c)
          (Kept-join_with server_password (stoul server_id) c))

  IsConsistent-if :
      (b : Bool) (x y : Option Bool × GameServerTestClient)
      → IsConsistent x.1
      → IsConsistent y.1
      → IsConsistent (if◌then◌else◌ {A = Option Bool × GameServerTestClient} b x y).1
  IsConsistent-if true x y h k = h
  IsConsistent-if false x y h k = k

  logged_out-IsConsistent :
      (message : Option String) (c : GameServerTestClient)
      → IsConsistent c
      → IsConsistent (logged_out message c).1
  logged_out-IsConsistent none c h = h
  logged_out-IsConsistent (some message) c h = h

  log_out-IsConsistent :
      (r : Option S2cLogout) (c : GameServerTestClient)
      → IsConsistent c
      → IsConsistent (log_out r c).1
  log_out-IsConsistent none c h = h
  log_out-IsConsistent (some r) c h =
      IsConsistent-if (is_success r.result) (logged_out r.message c) (some false, c)
        (logged_out-IsConsistent r.message c h) h

  logout-IsConsistent : (c : GameServerTestClient) → IsConsistent c → IsConsistent (test_logout c).1
  unfolding test_logout
  logout-IsConsistent c h =
      let ended = exchange (create_logout_request c.current_user_id) parse_logout_response c in
      IsConsistent-if (c.current_user_id == 0) (some false, c) (log_out ended.0 ended.1) h
        (log_out-IsConsistent ended.0 ended.1 ((Kept-exchange _ _ c).consistent h))

  run_choice-IsConsistent :
      (choice : Choice) (c : GameServerTestClient)
      → IsConsistent c
      → IsConsistent (run_choice choice c).1
  unfolding run_choice
  run_choice-IsConsistent (Choice.login username password) c h =
      (test_login-Login username password c).0 h
  run_choice-IsConsistent Choice.logout c h = logout-IsConsistent c h
  run_choice-IsConsistent (Choice.create_account username password nickname) c h =
      (Kept-account username password nickname c).consistent h
  run_choice-IsConsistent (Choice.create_game_server n w i o m) c h =
      (Kept-create n w i o m c).consistent h
  run_choice-IsConsistent Choice.game_server_list c h = (Kept-list c).consistent h
  run_choice-IsConsistent (Choice.join_game_server i w) c h = (Kept-join i w c).consistent h
  run_choice-IsConsistent Choice.reconnect c h = (Kept-try_reconnect c).consistent h
  run_choice-IsConsistent Choice.show_status c h = h
  run_choice-IsConsistent Choice.exit c h = h
  run_choice-IsConsistent Choice.other c h = h

  going-IsConsistent :
      (done : Option Bool) (c : GameServerTestClient)
      (rest : Progress (Unit {0}) × GameServerTestClient)
      → IsConsistent c
      → IsConsistent rest.1
      → IsConsistent (going done c rest).1
  going-IsConsistent none c rest h k = h
  going-IsConsistent (some done) c rest h k = k

  -- Whatever the user chooses and whatever the network answers, RunTestLoop keeps that a client which
  -- counts as connected has a socket.
  pub run_test_loop-IsConsistent :
      (choices : List Choice) (c : GameServerTestClient)
      → IsConsistent c
      → IsConsistent (run_test_loop choices c).1
  unfolding run_test_loop
  run_test_loop-IsConsistent [] c h = h
  run_test_loop-IsConsistent (Choice.exit ∷ choices) c h = h
  run_test_loop-IsConsistent (choice ∷ choices) c h =
      let kept = run_choice-IsConsistent choice c h in
      going-IsConsistent (run_choice choice c).0 (run_choice choice c).1 _ kept
        (run_test_loop-IsConsistent choices _ kept)
