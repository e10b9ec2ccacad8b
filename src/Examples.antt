-- ===== src/Examples.antt =====
-- A platform whose every answer is fixed, and the theorems at concrete requests.
pub mod Clients
pub mod Connection
pub mod Queue
pub mod Rows
pub mod LockFree
pub mod Console
pub mod Accepting
use game_database_server.Prelude.{
  List, none, ◌≢◌, ◌++◌, not, Bool, String, str_eq, ◌≡◌, ◌⊎◌, ◌^◌, ◌*◌, ◌%◌, ◌≤◌, ◌+◌, ◌<◌, ◌↔◌,
  refl, true, false, [], ◌∷◌, some,
}
use game_database_server.Packet.{Task, DbResponse, packet_task}
use game_database_server.Packet.Request.{
  C2sCreateGameServer, C2sLogin, C2sShopTransaction, C2sJoinGameServer,
}
use game_database_server.Packet.Event.{c2s_login, packet_event_type}
use game_database_server.Platform.{Platform, Row}
use game_database_server.Action.{World, crash}
use game_database_server.Action.Once.{AtMostOne}
use game_database_server.Database.Tasks.{run_task}
use game_database_server.Database.Traffic.{
  Builds, IsPacket, run_task-answers_once, run_task-AtMostOne,
}
use game_database_server.Database.GameServer.{join_server}
use game_database_server.Database.GameServer.Join.{MayJoin, Told, join_server-discloses}
use game_database_server.Database.Shop.{mul32, pay}
use game_database_server.Database.Shop.Purchase.{Settled, pay-charges, mul32-exact}
use game_database_server.Connector.{is_connected}
use Prim.Native.Char.{Char}
use text.Mathlib.Text.{starts_with}
use game_database_server.Text.{chars, of_chars, c_str, show, stoul}
use game_database_server.PacketManager.Validate.{
  is_blank, check_create_game_server_request, check_shop_transaction_request, check_login_request,
}
use game_database_server.PacketManager.Validate.Bounds.{
  Sized, check_create_game_server_request-bounds, check_shop_transaction_request-bounds,
  check_login_request-bounds,
}
use game_database_server.Database.Escape.{is_quote, escape_loop, escape_message}
use game_database_server.Database.Escape.Quotes.{escaped, escape_message_lem}
use game_database_server.Database.Escape.Literal.{
  Reader, after_literal, escape_loop-stays_inside, escape_loop-leaves,
}
use game_database_server.Database.Sql.{
  take_items, delete_items, add_gold, commit, start_transaction, select_gold,
}
use game_database_server.Database.Shop.{sell}
use game_database_server.Database.Shop.Sale.{
  RolledBack, Confirmed, sell-rolls_back, sell-misreports, sell-confirms,
}
use game_database_server.Database.Account.{finish_login}
use game_database_server.Database.Account.Login.{LoginEnds, finish_login-ends}

abbrev pub row : Row
row = some "1" ∷ some "Ann" ∷ some "2" ∷ some "0" ∷ []

-- Every statement works and gives one row; every buffer holds a login.
abbrev pub demo : Platform
demo = record {
  init_succeeds = λ h. true;
  connect_succeeds = λ h. true;
  query_succeeds = λ h text. true;
  stored = λ h. some (record { num_fields = 4; rows = row ∷ [] });
  affected = λ h. 1;
  verify_buffer = λ bytes. true;
  get_database_packet = λ bytes. some (record {
    packet_event = c2s_login (some (record { username = some "ann"; password = some "pw" }));
    client_socket = 7;
  });
  build = λ d. some (d.client_socket ∷ 0 ∷ []);
  build_what = "buffer too large";
  show_float = λ x. "1.5";
  stof = λ s. some 0;
  stof_what = λ s. "stof";
  stoul_what = λ s. "stoul";
}

abbrev demo-Builds : Builds demo
demo-Builds = record { finished = λ d. (d.client_socket, 0 ∷ [], refl) }

abbrev pub world : World
world = record {
  info = record {
    host = "localhost";
    user = "root";
    password = "";
    database = "gamedb";
    port = 3306;
  };
  conn = true;
  is_init = true;
  history = [];
  results = 0;
  last_error = "";
  sent = [];
}

abbrev pub task : Task
task = packet_task 7 1 (1 ∷ 2 ∷ [])

task-IsPacket : IsPacket ⦃p = demo⦄ task
unfolding packet_event_type
task-IsPacket = record {
  of_client = refl;
  no_query = refl;
  has_data = refl;
  verified = refl;
  requests = refl;
}

run_task-answers_once_example :
    ((run_task ⦃p = demo⦄ task world).0 ≡ crash)
    ⊎ ((r : DbResponse) × (r.client_socket ≡ 7)
        × ((run_task ⦃p = demo⦄ task world).1.sent ≡ r ∷ []))
unfolding is_connected
run_task-answers_once_example =
    run_task-answers_once ⦃p = demo⦄ demo-Builds task world task-IsPacket refl

run_task-AtMostOne_example : AtMostOne 7 [] (run_task ⦃p = demo⦄ task world).1.sent
run_task-AtMostOne_example = run_task-AtMostOne ⦃p = demo⦄ demo-Builds task world

abbrev joining : C2sJoinGameServer
joining = record { user_id = 3; server_id = 5; server_password = some "pw" }

join_server-discloses_example :
    Told ⦃p = demo⦄ task world "10.0.0.1" 7777
      (MayJoin true false 2 10 "pw" "pw")
      (MayJoin true false 2 10 "pw" "pw" → true ≡ false)
      (join_server ⦃p = demo⦄ task joining "pw" "10.0.0.1" 7777 2 10 true false world)
unfolding is_connected
join_server-discloses_example =
    join_server-discloses ⦃p = demo⦄ demo-Builds task joining "pw" "10.0.0.1" "pw" 7777 2 10 true
      false world refl refl

abbrev buying : C2sShopTransaction
buying = record { user_id = 3; shop_id = 1; item_id = 9; item_count = 4; transaction_type = 0 }

pay-charges_example :
    Settled ⦃p = demo⦄ task buying world
      (25 * 4 % 2 ^ 32)
      300
      (pay ⦃p = demo⦄ task buying 25 300 world)
unfolding is_connected
pay-charges_example = pay-charges ⦃p = demo⦄ demo-Builds task buying 25 300 world refl

escape_message_lem_example : escape_message "it's" ≡ some (of_chars (escaped (chars "it's")))
escape_message_lem_example = escape_message_lem "it's"

escape_loop-stays_inside_example :
    after_literal Reader.inside ("h" ∷ "\\" ∷ "'" ∷ "'" ∷ "," ∷ []) ≡ some ("," ∷ [])
unfolding is_quote escape_loop
escape_loop-stays_inside_example =
    escape_loop-stays_inside ("h" ∷ "'" ∷ []) ("h" ∷ "\\" ∷ "'" ∷ []) "," [] refl refl refl

escape_loop-leaves_example :
    (rest : List Char) × (after_literal Reader.inside ("\\" ∷ "\\" ∷ "'" ∷ ";" ∷ "'" ∷ [])
      ≡ some (rest ++ "'" ∷ []))
    × (escape_loop 2 (";" ∷ []) 0 ≡ some rest)
unfolding escape_loop
escape_loop-leaves_example =
    escape_loop-leaves ";" [] ("\\" ∷ "\\" ∷ "'" ∷ ";" ∷ []) ("'" ∷ []) refl

-- A platform on which the statements that satisfy a test are refused.
abbrev demo_without : (String → Bool) → Platform
demo_without refused = record demo {
  query_succeeds = λ h text. not (refused text);
  stored = λ h. some (record { num_fields = 1; rows = (some "50" ∷ []) ∷ [] });
}

abbrev without-Builds : (refused : String → Bool) → Builds (demo_without refused)
without-Builds refused = record { finished = λ d. (d.client_socket, 0 ∷ [], refl) }

abbrev selling : C2sShopTransaction
selling = record { user_id = 3; shop_id = 1; item_id = 9; item_count = 2; transaction_type = 1 }

-- The statement of COMMIT is refused.
abbrev no_commit : Platform
no_commit = demo_without (λ text. str_eq text commit)

sell-rolls_back_example :
    RolledBack ⦃p = no_commit⦄ task world (sell ⦃p = no_commit⦄ task selling 5 20 world)
unfolding is_connected commit c_str start_transaction
sell-rolls_back_example =
    sell-rolls_back ⦃p = no_commit⦄ (without-Builds _) task selling 5 20 world refl refl refl
      (λ m. refl)

-- Queries are refused.
abbrev no_select : Platform
no_select = demo_without (λ text. starts_with text "SELECT")

sell-misreports_example :
    RolledBack ⦃p = no_select⦄ task world (sell ⦃p = no_select⦄ task selling 5 20 world)
unfolding is_connected commit c_str start_transaction take_items delete_items add_gold select_gold
    show
sell-misreports_example =
    sell-misreports ⦃p = no_select⦄ (without-Builds _) task selling 5 20 world refl refl refl
      (refl, refl, refl) refl refl

-- Nothing is refused.
abbrev all_works : Platform
all_works = demo_without (λ text. false)

sell-confirms_example :
    Confirmed ⦃p = all_works⦄ task selling 20 50 world
      (sell ⦃p = all_works⦄ task selling 5 20 world)
unfolding is_connected stoul
sell-confirms_example =
    sell-confirms ⦃p = all_works⦄ (without-Builds (λ text. false)) task selling 5 20 world 1 50 "50"
      [] [] refl refl refl (refl, refl, refl) refl refl refl refl

finish_login-ends_example :
    LoginEnds ⦃p = all_works⦄ task "ann" 3 "Ann" 2 true world
      (finish_login ⦃p = all_works⦄ task "ann" 3 "Ann" 2 true world)
unfolding is_connected
finish_login-ends_example =
    finish_login-ends ⦃p = all_works⦄ (without-Builds (λ text. false)) task "ann" 3 "Ann" 2 true
      world refl

abbrev creating : C2sCreateGameServer
creating = record {
  user_id = 3;
  server_name = some "arena";
  server_password = none;
  server_ip = some "10.0.0.1";
  server_port = 7777;
  max_players = 10;
}

check_create_game_server_request-bounds_example :
    (check_create_game_server_request creating ≡ none) ↔ (
      (creating.user_id ≢ 0)
      × Sized 100 (some "arena")
      × (is_blank (some "10.0.0.1") ≡ false)
      × (1 ≤ 7777)
      × (7777 ≤ 65535)
      × (1 ≤ 10)
      × (10 ≤ 100))
check_create_game_server_request-bounds_example = check_create_game_server_request-bounds creating
