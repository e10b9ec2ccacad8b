-- ===== src/Server/Main.antt =====
-- Server: the constructor, Destroy of the singleton, and ServerMain.cpp from main to its Cleanup.
use game_database_server.Prelude.{Bool, true, false, List, [], Option, none, some}
use game_database_server.Platform.{Platform}
use game_database_server.Action.{Outcome, ok, thrown, crash}
use game_database_server.Database.Status.{new_database_thread}
use game_database_server.Server.Loop.{Server, stop_server, destroy_server, ServerEvent, run_server}
use game_database_server.Server.Start.{Startup, initialize}

-- Server(), with the database thread that Initialize makes: it has no connection before ConnectDB.
unfoldable pub new_server : Server
new_server = record {
  is_running = false;
  worker_threads = [];
  server_sock = none;
  world = new_database_thread.world;
  closed = [];
  closed_listeners = [];
}

module _ ⦃p : Platform⦄ where
  -- Destroy: Stop, and the destructor by reset.
  unfoldable pub destroy_instance : Server → Option Server
  destroy_instance v = destroy_server (stop_server v)

  abbrev pub cleaned : Option Server → Option Server
  cleaned none = none
  cleaned (some v) = destroy_instance v

  -- Behind Initialize: Run with the other threads, or the handler of main; Cleanup runs in both
  -- cases, at exit. The result is true for 0 and false for -1.
  abbrev pub finish_main :
      List ServerEvent → Outcome (Unit {0}) × Server → Outcome Bool × Option Server
  finish_main events (ok u, v) = (ok true, cleaned (run_server events v))
  finish_main events (thrown what, v) = (ok false, destroy_instance v)
  finish_main events (crash, v) = (crash, none)

  unfoldable pub main : Startup → List ServerEvent → Outcome Bool × Option Server
  unfolding destroy_instance
  main startup events = finish_main events (initialize startup new_server)
