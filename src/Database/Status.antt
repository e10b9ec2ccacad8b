-- ===== src/Database/Status.antt =====
-- DatabaseThread: the object with its flag, from the constructor to the destructor, and GetStatus.
use game_database_server.Prelude.{Bool, true, false, [], String, ◌<>◌}
use game_database_server.Text.{show}
use game_database_server.Platform.{Platform}
use game_database_server.Action.{World, Outcome, ok}
use game_database_server.Connector.{is_connected}
use game_database_server.Database.Session.{connect_db, disconnect_all_users}

pub record DatabaseThread : Type 0 where
  pub world : World
  pub is_running : Bool

-- The constructor, with its connector.
unfoldable pub new_database_thread : DatabaseThread
new_database_thread = record {
  world = record {
    info = record {
      host = "127.0.0.1";
      user = "root";
      password = "1234";
      database = "gamedb";
      port = 3306;
    };
    conn = false;
    is_init = false;
    history = [];
    results = 0;
    last_error = "";
    sent = [];
  };
  is_running = false;
}

unfoldable pub is_db_connected : DatabaseThread → Bool
is_db_connected d = is_connected d.world

abbrev pub yes_or_no : Bool → String
yes_or_no true = "YES"
yes_or_no false = "NO"

unfoldable pub get_status : DatabaseThread → String
unfolding is_db_connected
get_status d =
    "[DatabaseThread Status] Running: "
    <> yes_or_no d.is_running
    <> ", DB Connected: "
    <> yes_or_no (is_db_connected d)
    <> ", Host: "
    <> d.world.info.host
    <> ":"
    <> show d.world.info.port
    <> ", Database: "
    <> d.world.info.database

-- _is_running behind the result of ConnectDB.
abbrev pub runs_after : Outcome Bool → Bool → Bool
runs_after (ok true) before = true
runs_after _ before = before

module _ ⦃p : Platform⦄ where
  -- ConnectDB with what it does to the flag.
  unfoldable pub start_database : DatabaseThread → Outcome Bool × DatabaseThread
  start_database d =
      let (result, w) = connect_db d.world in
      (result, record d { world = w; is_running = runs_after result d.is_running })

  -- Stop, which the destructor calls before it joins the thread.
  unfoldable pub stop_database : DatabaseThread → DatabaseThread
  stop_database d = record d { world = (disconnect_all_users d.world).1; is_running = false }
