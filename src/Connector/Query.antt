-- ===== src/Connector/Query.antt =====
-- MySqlConnector::ExecuteQuery while there is a connection.
use game_database_server.Prelude.{
  ◌%◌, ◌^◌, ◌≡◌, refl, ◌+◌, some, Bool, true, false, ◌&&◌, ◌∷◌, String,
}
use game_database_server.Text.{c_str}
use game_database_server.Platform.{Platform, Call, ResultSet}
use game_database_server.Action.{World, ok, ◌>>=◌}
use game_database_server.Connector.{
  get_affected_rows, execute_query, get_result, count_result, is_connected,
}

and-left : (a b : Bool) → (a && b) ≡ true → a ≡ true
and-left true b h = refl
and-left false b h = cc

and-right : (a b : Bool) → (a && b) ≡ true → b ≡ true
and-right true b h = h
and-right false b h = cc

-- The state after a statement.
abbrev pub queried : String → World → World
queried text w = record w { history = Call.query (c_str text) ∷ Call.set_character_set ∷ w.history }

pub connected_lem : (w : World) → is_connected w ≡ true → (w.conn ≡ true) × (w.is_init ≡ true)
unfolding is_connected
connected_lem w h = (and-left _ _ h, and-right _ _ h)

pub execute_query_lem :
    ⦃p : Platform⦄ (text : String) (w : World)
    → is_connected w ≡ true
    → execute_query text w
      ≡ (ok (p.query_succeeds (Call.set_character_set ∷ w.history) (c_str text)), queried text w)
unfolding execute_query ◌>>=◌
execute_query_lem text w h = rw ((connected_lem w h).0, (connected_lem w h).1)

-- Whether a statement works in a state.
abbrev pub works_in : ⦃p : Platform⦄ → String → World → Bool
works_in ⦃p⦄ text w = p.query_succeeds (Call.set_character_set ∷ w.history) (c_str text)

pub is_connected-queried :
    (text : String) (w : World) → is_connected w ≡ true → is_connected (queried text w) ≡ true
unfolding is_connected
is_connected-queried text w h = h

-- The state after a result set has been stored.
abbrev pub stored : World → World
stored w = record w { history = Call.store_result ∷ w.history; results = w.results + 1 }

pub get_result_lem :
    ⦃p : Platform⦄ (r : ResultSet) (w : World)
    → is_connected w ≡ true
    → p.stored w.history ≡ some r
    → get_result w ≡ (ok (some r), stored w)
unfolding get_result count_result ◌>>=◌
get_result_lem r w c row = rw ((connected_lem w c).0, row)

-- The state after the affected rows have been asked for.
abbrev pub counted : World → World
counted w = record w { history = Call.affected_rows ∷ w.history }

pub get_affected_rows_lem :
    ⦃p : Platform⦄ (w : World)
    → is_connected w ≡ true
    → get_affected_rows w ≡ (ok (p.affected w.history % 2 ^ 32), counted w)
unfolding get_affected_rows ◌>>=◌
get_affected_rows_lem w c = rw ((connected_lem w c).0)
