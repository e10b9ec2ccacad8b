-- ===== src/TestClient/Main.antt =====
-- ClientMain.cpp: main, with Initialize, the destructor, and what they leave of the connection.
use game_database_server.Prelude.{
  ℕ, ◌≡◌, ◌⊎◌, Bool, true, false, ◌∷◌, List, none, some, if◌then◌else◌,
}
use game_database_server.Platform.{Platform}
use game_database_server.TestClient.Network.{Network}
use game_database_server.TestClient.Session.{
  GameServerTestClient, new_client, disconnect, connect_client,
}
use game_database_server.TestClient.Tests.{Choice, Progress, run_test_loop}

-- The destructor, where RunTestLoop returns. The result is true for 0 and false for -1.
abbrev pub leave : Progress (Unit {0}) × GameServerTestClient → Progress Bool × GameServerTestClient
leave (Progress.returned u, c) = (Progress.returned true, disconnect c)
leave (Progress.waiting, c) = (Progress.waiting, c)
leave (Progress.crashed, c) = (Progress.crashed, c)

module _ ⦃p : Platform⦄ ⦃net : Network⦄ where
  -- Behind Connect.
  abbrev pub run_client :
      List Choice → Bool × GameServerTestClient → Progress Bool × GameServerTestClient
  run_client choices (true, c) = leave (run_test_loop choices c)
  run_client choices (false, c) = (Progress.returned false, disconnect c)

  -- The first argument is whether WSAStartup works, which is the result of Initialize.
  unfoldable pub client_main : Bool → List Choice → Progress Bool × GameServerTestClient
  unfolding connect_client
  client_main starts choices =
      if starts
      then run_client choices (connect_client new_client)
      else (Progress.returned false, disconnect new_client)

-- A client that does not count as connected is left as it is; any other has a socket, closes it and
-- forgets it.
abbrev pub Parted : GameServerTestClient → GameServerTestClient → Type 0
Parted c d =
    ((c.connected ≡ false) × (d ≡ c))
    ⊎ ((s : ℕ) × (c.client_socket ≡ some s)
        × (d ≡ record c { client_socket = none; connected = false; closed = s ∷ c.closed }))

-- The client that RunTestLoop leaves, and what main has come to: at the exit the destructor has run and
-- main has returned 0, and without an exit it has not returned.
abbrev pub Ended : Bool → GameServerTestClient → Progress Bool × GameServerTestClient → Type 0
Ended true c x = (x.0 ≡ Progress.returned true) × Parted c x.1
Ended false c x = x ≡ (Progress.waiting, c)
