-- ===== src/Action.antt =====
-- The database thread's state, and its methods as actions on it: what was written before an
-- exception stays written, and a null pointer that is followed stops the process.
pub mod Traffic
pub mod Once
use game_database_server.Prelude.{ℕ, Bool, List, ◌∷◌, Option, none, some, String, if◌then◌else◌}
use game_database_server.Packet.{DbResponse}
use game_database_server.Platform.{Call, History}

-- _host, _user, _password, _database and _port of DatabaseThread.
pub record ConnectionInfo : Type 0 where
  pub host : String
  pub user : String
  pub password : String
  pub database : String
  pub port : ℕ

pub record World : Type 0 where
  pub info : ConnectionInfo
  -- MySqlConnector: whether conn is set, and _is_init.
  pub conn : Bool
  pub is_init : Bool
  -- The calls made to the client library, and the result sets stored and not yet freed.
  pub history : History
  pub results : ℕ
  -- ServerPacketManager: _last_error.
  pub last_error : String
  -- What was put into SendQueue, the newest first.
  pub sent : List DbResponse

-- `thrown` is a std::exception with its text; `crash` is undefined behaviour.
pub data Outcome (A : Type 0) : Type 0 where
  ok : A → Outcome A
  thrown : String → Outcome A
  crash : Outcome A

abbrev pub Action : Type 0 → Type 0
Action A = World → Outcome A × World

module _ {A : Type 0} where
  unfoldable pub pure : A → Action A
  pure a w = (ok a, w)

  unfoldable pub throw : String → Action A
  throw what w = (thrown what, w)

  unfoldable pub undefined : Action A
  undefined w = (crash, w)

module _ {A B : Type 0} where
  abbrev pub continue : Outcome A → (A → Action B) → Action B
  continue (ok a) f w = f a w
  continue (thrown what) f w = (thrown what, w)
  continue crash f w = (crash, w)

module _ {A : Type 0} where
  abbrev pub handle : Outcome A → (String → Action A) → Action A
  handle (ok a) h w = (ok a, w)
  handle (thrown what) h w = h what w
  handle crash h w = (crash, w)

  -- try { m } catch (const std::exception& e) { h(e.what()) }
  unfoldable pub try_catch : Action A → (String → Action A) → Action A
  try_catch m h w = handle (m w).0 h (m w).1

  -- Following a pointer.
  unfoldable pub deref : Option A → Action A
  unfolding pure undefined
  deref none = undefined
  deref (some a) = pure a

unfoldable pub gets : {A : Type 0} → (World → A) → Action A
gets f w = (ok (f w), w)

unfoldable pub record_call : Call → Action (Unit {0})
record_call c w = (ok tt, record w { history = c ∷ w.history })

module _ {A B : Type 0} where
  infixl 5 ◌>>=◌ ◌>>◌
  -- Whoever unfolds this unfolds the actions above with it.
  unfoldable pub ◌>>=◌ : Action A → (A → Action B) → Action B
  unfolding pure throw undefined deref gets record_call try_catch
  ◌>>=◌ m f w = continue (m w).0 f (m w).1

  abbrev pub ◌>>◌ : Action A → Action B → Action B
  m >> n = m >>= λ _. n
