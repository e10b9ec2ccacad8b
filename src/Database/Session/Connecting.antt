-- ===== src/Database/Session/Connecting.antt =====
-- ConnectDB always returns: no exception and no null pointer.
use game_database_server.Prelude.{
  Bool, true, false, ◌≡◌, refl, ◌%◌, ◌^◌, ◌-◌, inl, inr, Bool-cases, if◌then◌else◌,
}
use game_database_server.Platform.{Platform}
use game_database_server.Action.{World, Action, ok, pure, ◌>>=◌}
use game_database_server.Connector.{
  init, connect, get_affected_rows, is_connected, set_conn, set_init,
}
use game_database_server.Connector.Query.{execute_query_lem}
use game_database_server.Database.Session.{
  check_db_connection, execute_and_count, initialize_user_sessions, connect_db,
}
use game_database_server.Database.Sql.{reset_sessions}

pub record Returns {A : Type 0} (m : Action A) : Type 0 where
  pub at : (w : World) → (a : A) × ((m w).0 ≡ ok a)

module _ {A B : Type 0} where
  Returns-bind :
      {m : Action A} {f : A → Action B} → Returns m → ((a : A) → Returns (f a)) → Returns (m >>= f)
  unfolding ◌>>=◌
  Returns-bind {m} {f} hm hf = record {
    at = λ w. let (a, e) = hm.at w in let (b, k) = (hf a).at (m w).1 in (b, rw e k);
  }

Returns-if :
    {A : Type 0} (b : Bool) {m n : Action A} → Returns m → Returns n → Returns (if b then m else n)
Returns-if true h k = h
Returns-if false h k = k

Returns-pure : {A : Type 0} (a : A) → Returns (pure a)
unfolding pure
Returns-pure a = record { at = λ w. (a, refl) }

module _ ⦃p : Platform⦄ where
  init-Returns : Returns init
  unfolding init set_conn set_init ◌>>=◌
  init-Returns = record {
    at = λ w. elim (Bool-cases (p.init_succeeds w.history)) [
      | inl e ↦ (true, rw e refl)
      | inr e ↦ (false, rw e refl)
    ];
  }

  connect-Returns : Returns connect
  unfolding connect ◌>>=◌
  connect-Returns = record { at = λ w. (_, refl) }

  get_affected_rows-Returns : Returns get_affected_rows
  unfolding get_affected_rows ◌>>=◌
  get_affected_rows-Returns = record {
    at = λ w. elim (Bool-cases w.conn) [
      | inl e ↦ (p.affected w.history % 2 ^ 32, rw e refl)
      | inr e ↦ (2 ^ 32 - 1, rw e refl)
    ];
  }

  counting-Returns :
      (done : Bool) → Returns (if done then (do _ ← get_affected_rows; pure true) else pure false)
  counting-Returns done =
      Returns-if done (Returns-bind get_affected_rows-Returns λ n. Returns-pure true)
        (Returns-pure false)

  reset-returns :
      (w : World)
      → is_connected w ≡ true
      → (b : Bool) × ((execute_and_count reset_sessions w).0 ≡ ok b)
  unfolding execute_and_count ◌>>=◌
  reset-returns w c = rw (execute_query_lem reset_sessions w c) ((counting-Returns _).at _)

  initialize_user_sessions-Returns : Returns initialize_user_sessions
  unfolding initialize_user_sessions check_db_connection ◌>>=◌
  initialize_user_sessions-Returns = record {
    at = λ w. elim (Bool-cases (is_connected w)) [
      | inl e ↦ let (b, k) = reset-returns w e in (b, rw e k)
      | inr e ↦ (false, rw e refl)
    ];
  }

  pub connect_db-Returns : Returns connect_db
  unfolding connect_db
  connect_db-Returns = Returns-bind init-Returns λ initialised.
      Returns-bind (Returns-if initialised connect-Returns (Returns-pure false))
        λ connected. Returns-if connected initialize_user_sessions-Returns (Returns-pure false)
