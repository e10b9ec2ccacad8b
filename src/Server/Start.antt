-- ===== src/Server/Start.antt =====
-- Server: Initialize, with what Winsock answers as an argument.
use game_database_server.Prelude.{ℕ, Bool, true, false, ◌∷◌, Option, none, some, not, if◌then◌else◌}
use game_database_server.Platform.{Platform}
use game_database_server.Action.{World, Outcome, ok, thrown, crash}
use game_database_server.Database.Session.{connect_db}
use game_database_server.Server.Loop.{Server}

-- WSAStartup, socket, bind and listen.
pub record Startup : Type 0 where
  pub starts : Bool
  pub socket : Option ℕ
  pub binds : Bool
  pub listens : Bool

-- closesocket(_server_sock); the field keeps the number.
abbrev pub close_server_sock : ℕ → Server → Server
close_server_sock s v = record v { closed_listeners = s ∷ v.closed_listeners }

-- Behind ConnectDB.
abbrev pub finish_initialize : ℕ → Server → Outcome Bool × World → Outcome (Unit {0}) × Server
finish_initialize s v (ok true, w) = (ok tt, record v { world = w; is_running = true })
finish_initialize s v (ok false, w) =
    (thrown "Database connection failed", close_server_sock s (record v { world = w }))
finish_initialize s v (thrown what, w) = (thrown what, record v { world = w })
finish_initialize s v (crash, w) = (crash, record v { world = w })

module _ ⦃p : Platform⦄ where
  -- Behind the creation of the socket.
  abbrev pub with_socket : Startup → Option ℕ → Server → Outcome (Unit {0}) × Server
  with_socket startup none v = (thrown "Socket creation failed", record v { server_sock = none })
  with_socket startup (some s) v =
      let opened : Server = record v { server_sock = some s } in
      if not startup.binds
      then (thrown "Socket bind failed", close_server_sock s opened)
      else if not startup.listens
      then (thrown "Socket listen failed", close_server_sock s opened)
      else finish_initialize s opened (connect_db v.world)

  unfoldable pub initialize : Startup → Server → Outcome (Unit {0}) × Server
  initialize startup v =
      if not startup.starts
      then (thrown "WSAStartup failed", v)
      else with_socket startup startup.socket v
