-- ===== src/Connector.antt =====
-- Project1/MySqlConnector.cpp. Its fields are `conn` and `is_init` of the world; conn_result is
-- written and never read again. The logging is not modelled.
pub mod Query
use game_database_server.Prelude.{
  ℕ, ◌+◌, ◌-◌, ◌%◌, ◌^◌, Bool, true, false, not, ◌&&◌, ◌||◌, Option, none, some, ◌∷◌, String, ltb,
  if◌then◌else◌,
}
use game_database_server.Text.{c_str}
use game_database_server.Platform.{Platform, Call, ResultSet}
use game_database_server.Action.{Action, World, pure, undefined, gets, record_call, ok, ◌>>=◌, ◌>>◌}

unfoldable pub set_conn : Bool → Action (Unit {0})
set_conn b w = (ok tt, record w { conn = b })

unfoldable pub set_init : Action (Unit {0})
set_init w = (ok tt, record w { is_init = true })

unfoldable pub count_result : Option ResultSet → Action (Option ResultSet)
count_result none w = (ok none, w)
count_result (some r) w = (ok (some r), record w { results = w.results + 1 })

module _ ⦃p : Platform⦄ where
  -- mysql_init, then the two options.
  unfoldable pub init : Action Bool
  init = do
    h ← gets (λ w. w.history)
    record_call Call.init
    set_conn (p.init_succeeds h)
    if p.init_succeeds h
        then (do record_call Call.options; record_call Call.options; set_init; pure true)
        else pure false

  unfoldable pub connect : Action Bool
  connect = do
    h ← gets (λ w. w.history)
    i ← gets (λ w. w.info)
    record_call (Call.real_connect i.host i.user i.password i.port i.database)
    pure (p.connect_succeeds h)

  -- The character set is set before the test of conn. mysql_query reads the text as a C string.
  unfoldable pub execute_query : String → Action Bool
  execute_query text = do
    conn ← gets (λ w. w.conn)
    is_init ← gets (λ w. w.is_init)
    if conn
        then (do
          record_call Call.set_character_set
          h ← gets (λ w. w.history)
          if not conn || not is_init then pure false else (do
            record_call (Call.query (c_str text))
            pure (p.query_succeeds h (c_str text))))
        else undefined

  unfoldable pub get_result : Action (Option ResultSet)
  get_result = do
    conn ← gets (λ w. w.conn)
    h ← gets (λ w. w.history)
    if conn then (do record_call Call.store_result; count_result (p.stored h)) else pure none

  -- The number is a C++ int: the low 32 bits, -1 without a connection.
  unfoldable pub get_affected_rows : Action ℕ
  get_affected_rows = do
    conn ← gets (λ w. w.conn)
    h ← gets (λ w. w.history)
    if conn
        then (do record_call Call.affected_rows; pure (p.affected h % 2 ^ 32))
        else pure (2 ^ 32 - 1)

-- mysql_free_result; the callers pass no null pointer.
unfoldable pub free_result : Action (Unit {0})
free_result w =
    (ok tt, record w { history = Call.free_result ∷ w.history; results = w.results - 1 })

-- conn && _is_init
unfoldable pub is_connected : World → Bool
is_connected w = w.conn && w.is_init

-- ~MySqlConnector and a new MySqlConnector: `_sql_connector.reset()` and make_unique.
unfoldable pub renew : Action (Unit {0})
renew w = (
  ok tt,
  record w {
    conn = false;
    is_init = false;
    history = if w.conn then Call.close ∷ w.history else w.history;
  },
)

-- `n > 0` for the pattern of an int.
abbrev pub is_positive : ℕ → Bool
is_positive n = ltb 0 n && ltb n (2 ^ 31)
