-- ===== src/TestClient/Network.antt =====
-- What Winsock answers to the client: a parameter of its methods.
use game_database_server.Prelude.{ℕ, List}

-- socket fails; connect fails on a new socket; or the socket is connected.
pub data ConnectResult : Type 0 where
  no_socket : ConnectResult
  refused connected : ℕ → ConnectResult

-- The answers by the number of the call.
pub record Network : Type 0 where
  pub connects : ℕ → ConnectResult
  -- How many bytes a call of send takes where it is given as many; 0 is its error.
  pub accepts : ℕ → ℕ
  -- What has come when recv is called; nothing is the end of the connection, or an error.
  pub arrives : ℕ → List ℕ
