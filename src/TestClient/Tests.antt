-- ===== src/TestClient/Tests.antt =====
-- ClientMain.cpp, TestLogin to TestJoinGameServer, with the lines that the user types as arguments.
use game_database_server.Prelude.{
  ℕ, Bool, true, false, not, ◌&&◌, ◌||◌, List, [], ◌∷◌, Option, none, some, String, str_eq, ◌==◌,
  if◌then◌else◌,
}
use game_database_server.Text.{stoul}
use game_database_server.Packet.Response.{
  S2cLogin, S2cLogout, S2cCreateAccount, S2cCreateGameServer, S2cGameServerList, S2cJoinGameServer,
  GameServerData,
}
use game_database_server.Platform.{Platform}
use game_database_server.PacketManager.Defs.{is_empty}
use game_database_server.TestClient.Manager.{Method}
use game_database_server.TestClient.Requests.{
  create_login_request, create_logout_request, create_account_request, create_game_server_request,
  create_game_server_list_request, create_join_game_server_request,
}
use game_database_server.TestClient.Responses.{
  parse_login_response, parse_logout_response, parse_create_account_response,
  parse_create_game_server_response, parse_game_server_list_response,
  parse_join_game_server_response, is_login_success, is_create_account_success,
  is_create_game_server_success, is_game_server_list_valid, is_join_game_server_success, is_success,
}
use game_database_server.TestClient.Network.{Network}
use game_database_server.TestClient.Session.{
  GameServerTestClient, managed, try_reconnect, send_packet, receive_packet,
}

-- The choices of the menu with the lines that are typed behind them; `other` is a line that is no
-- choice.
pub data Choice : Type 0 where
  login : (username password : String) → Choice
  logout : Choice
  create_account : (username password nickname : String) → Choice
  create_game_server :
      (server_name server_password server_ip server_port max_players : String) → Choice
  game_server_list : Choice
  join_game_server : (server_id server_password : String) → Choice
  show_status reconnect exit other : Choice

-- The result; `none` where a null pointer is followed, and the process stops.
abbrev pub Test : Type 0
Test = GameServerTestClient → Option Bool × GameServerTestClient

-- RunTestLoop and main: returned, waiting for the next line, or stopped by a null pointer.
pub data Progress (A : Type 0) : Type 0 where
  returned : A → Progress A
  waiting crashed : Progress A

abbrev pub has_text : Option String → Bool
has_text none = false
has_text (some t) = true

-- The texts of a response that its test follows to print them.
abbrev pub account_texts : S2cCreateAccount → Bool
account_texts r = has_text r.message

abbrev pub game_server_texts : S2cCreateGameServer → Bool
game_server_texts r = has_text r.message

abbrev pub server_texts : List GameServerData → Bool
server_texts [] = true
server_texts (d ∷ ds) =
    has_text d.owner_nickname
    && (has_text d.server_name && (has_text d.server_ip && server_texts ds))

abbrev pub list_texts : S2cGameServerList → Bool
list_texts r = not (is_success r.result) || server_texts r.servers

abbrev pub join_texts : S2cJoinGameServer → Bool
join_texts r = has_text r.message && (not (is_success r.result) || has_text r.server_ip)

-- The result of a test for a response, or for none.
abbrev pub told :
    {A : Type 0} (texts : A → Bool) (success : Option A → Bool) → Option A → Option Bool
told texts success none = some false
told texts success (some r) = if texts r then some (success (some r)) else none

-- The user of a successful response: username()->str() and nickname()->str().
abbrev pub logged_in : (username nickname : Option String) (user_id : ℕ) → Test
logged_in none nickname user_id c = (none, record c { current_user_id = user_id })
logged_in (some username) none user_id c =
    (none, record c { current_user_id = user_id; current_username = username })
logged_in (some username) (some nickname) user_id c =
    (some true, record c { current_user_id = user_id; current_username = username })

-- message()->str() of a successful response.
abbrev pub logged_out : (message : Option String) → Test
logged_out none c = (none, c)
logged_out (some message) c = (some true, record c { current_user_id = 0; current_username = "" })

module _ ⦃p : Platform⦄ ⦃net : Network⦄ where
  -- The response is received and parsed; `none` where that fails.
  unfoldable pub receive_response :
      {A : Type 0}
      → (List ℕ → Method (Option A))
      → GameServerTestClient
      → Option A × GameServerTestClient
  receive_response parse c =
      let (response, c') = receive_packet c in
      if is_empty response then (none, c') else managed (parse response) c'

  -- What the tests share: the packet is made and sent, and the response is received and parsed.
  unfoldable pub exchange :
      {A : Type 0}
      → Method (List ℕ)
      → (List ℕ → Method (Option A))
      → GameServerTestClient
      → Option A × GameServerTestClient
  exchange create parse c =
      let (packet, c1) = managed create c in
      let (done, c2) = send_packet packet c1 in
      if is_empty packet then (none, c1) else if done then receive_response parse c2 else (none, c2)

  abbrev pub log_in : Option S2cLogin → Test
  log_in none c = (some false, c)
  log_in (some r) c =
      if is_login_success (some r)
      then logged_in r.username r.nickname r.user_id c
      else (some false, c)

  -- The end of TestLogin, which connects again where no response comes.
  unfoldable pub receive_login : Test
  receive_login c =
      let (response, c') = receive_packet c in
      if is_empty response
      then (some false, (try_reconnect c').1)
      else let (r, c'') = managed (parse_login_response response) c' in log_in r c''

  -- A packet that could not be sent is sent once more on a new connection.
  unfoldable pub send_again : List ℕ → Test
  send_again packet c =
      let (again, c') = try_reconnect c in
      let (done, c'') = send_packet packet c' in
      if again then (if done then receive_login c'' else (some false, c'')) else (some false, c')

  unfoldable pub test_login : (username password : String) → Test
  test_login username password c =
      let (packet, c1) = managed (create_login_request username password) c in
      let (done, c2) = send_packet packet c1 in
      if str_eq username "" || str_eq password ""
      then (some false, c)
      else if is_empty packet
      then (some false, c1)
      else if done
      then receive_login c2
      else send_again packet c2

  abbrev pub log_out : Option S2cLogout → Test
  log_out none c = (some false, c)
  log_out (some r) c = if is_success r.result then logged_out r.message c else (some false, c)

  unfoldable pub test_logout : Test
  test_logout c =
      let (r, c') = exchange (create_logout_request c.current_user_id) parse_logout_response c in
      if c.current_user_id == 0 then (some false, c) else log_out r c'

  unfoldable pub test_create_account : (username password nickname : String) → Test
  test_create_account username password nickname c =
      let (r, c') =
        exchange (create_account_request username password nickname) parse_create_account_response
          c in
      if str_eq username "" || str_eq password "" || str_eq nickname ""
      then (some false, c)
      else (told account_texts is_create_account_success r, c')

  -- The numbers that were typed; none for the most players are 10.
  abbrev pub port_and_players : (port players : String) → Option (ℕ × ℕ)
  port_and_players port players = elim (stoul port) [
    | none ↦ none
    | some n ↦
        if str_eq players ""
        then some (n, 10)
        else elim (stoul players) [ none ↦ none | some m ↦ some (n, m) ]
  ]

  abbrev pub create_with : (server_name server_password server_ip : String) → Option (ℕ × ℕ) → Test
  create_with server_name server_password server_ip none c = (some false, c)
  create_with server_name server_password server_ip (some (port, players)) c =
      let (r, c') =
        exchange
          (create_game_server_request c.current_user_id server_name server_password server_ip port
            players)
          parse_create_game_server_response c in
      (told game_server_texts is_create_game_server_success r, c')

  unfoldable pub test_create_game_server :
      (server_name server_password server_ip server_port max_players : String) → Test
  test_create_game_server server_name server_password server_ip server_port max_players c =
      if c.current_user_id == 0
      then (some false, c)
      else if str_eq server_name "" || str_eq server_ip "" || str_eq server_port ""
      then (some false, c)
      else create_with server_name server_password server_ip
          (port_and_players server_port max_players) c

  unfoldable pub test_game_server_list : Test
  test_game_server_list c =
      let (r, c') =
        exchange (create_game_server_list_request 0) parse_game_server_list_response c in
      (told list_texts is_game_server_list_valid r, c')

  abbrev pub join_with : (server_password : String) → Option ℕ → Test
  join_with server_password none c = (some false, c)
  join_with server_password (some server_id) c =
      let (r, c') =
        exchange (create_join_game_server_request c.current_user_id server_id server_password)
          parse_join_game_server_response c in
      (told join_texts is_join_game_server_success r, c')

  unfoldable pub test_join_game_server : (server_id server_password : String) → Test
  test_join_game_server server_id server_password c =
      if c.current_user_id == 0
      then (some false, c)
      else if str_eq server_id ""
      then (some false, c)
      else join_with server_password (stoul server_id) c

  -- The switch of RunTestLoop.
  unfoldable pub run_choice : Choice → Test
  run_choice (Choice.login username password) c = test_login username password c
  run_choice Choice.logout c = test_logout c
  run_choice (Choice.create_account username password nickname) c =
      test_create_account username password nickname c
  run_choice
        (Choice.create_game_server server_name server_password server_ip server_port max_players)
        c =
      test_create_game_server server_name server_password server_ip server_port max_players c
  run_choice Choice.game_server_list c = test_game_server_list c
  run_choice (Choice.join_game_server server_id server_password) c =
      test_join_game_server server_id server_password c
  run_choice Choice.reconnect c = let (done, c') = try_reconnect c in (some done, c')
  run_choice _ c = (some false, c)

  abbrev pub going :
      Option Bool
      → GameServerTestClient
      → Progress (Unit {0}) × GameServerTestClient
      → Progress (Unit {0}) × GameServerTestClient
  going none c rest = (Progress.crashed, c)
  going (some done) c rest = rest

  -- RunTestLoop for the choices that are typed: it returns at the choice of the exit, and where no
  -- choice is left it waits for one.
  unfoldable pub run_test_loop :
      List Choice → GameServerTestClient → Progress (Unit {0}) × GameServerTestClient
  run_test_loop [] c = (Progress.waiting, c)
  run_test_loop (Choice.exit ∷ choices) c = (Progress.returned tt, c)
  run_test_loop (choice ∷ choices) c =
      let (done, c') = run_choice choice c in
      let rest = run_test_loop choices c' in going done c' rest
