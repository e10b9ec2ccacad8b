-- ===== src/Database/Account/Login.antt =====
-- The end of HandleLoginRequest: a second login of a user.
use game_database_server.Prelude.{
  ℕ, ◌≡◌, ◌⊎◌, inl, inr, refl, Bool, true, false, ◌∷◌, some, String, Bool-cases,
}
use game_database_server.Text.{c_str}
use game_database_server.Packet.{Task}
use game_database_server.Packet.EventType.{EventType}
use game_database_server.Packet.ResultCode.{ResultCode}
use game_database_server.Packet.Event.{Event, s2c_login}
use game_database_server.Platform.{Platform, Call}
use game_database_server.Action.{World, Outcome, ok, ◌>>=◌}
use game_database_server.Connector.{is_connected}
use game_database_server.Connector.Query.{
  queried, counted, works_in, execute_query_lem, get_affected_rows_lem, is_connected-queried,
}
use game_database_server.PacketManager.Build.{create_login_response}
use game_database_server.PacketManager.Errors.{
  create_generic_error_response, create_login_error_response,
}
use game_database_server.Database.Sql.{force_logout, set_online}
use game_database_server.Database.Session.{
  check_db_connection, execute_and_count, force_logout_existing_session, set_user_online_status,
}
use game_database_server.Database.Respond.{respond, enqueue, send_response, send_error_response}
use game_database_server.Database.Account.{finish_login}
use game_database_server.Database.Traffic.{Builds}
use game_database_server.Database.Reply.{
  answered, answered_error, Says, buffer, create_response_lem, Says-answered, Says-answered_error,
}

abbrev pub login_event : ResultCode → ℕ → (username nickname : String) → ℕ → Event
login_event code user_id username nickname level = s2c_login (
    some (record {
      result = code;
      user_id = user_id;
      username = some username;
      nickname = some nickname;
      level = level;
    }))

-- The text is the first statement run, and nothing else is a statement: behind it only the
-- affected rows are asked for.
abbrev pub Ran : String → World → World → Type 0
Ran text before after =
    (after.history ≡ Call.query (c_str text) ∷ Call.set_character_set ∷ before.history)
    ⊎ (after.history
        ≡ Call.affected_rows ∷ Call.query (c_str text) ∷ Call.set_character_set ∷ before.history)

-- The user is online: the one statement run is that which ends the old session, and the new login
-- is refused.
abbrev pub Refused : ⦃p : Platform⦄ → Task → (user_id : ℕ) → World → World → Type 0
Refused task user_id before after =
    Ran (force_logout user_id) before after
    × Says task before after (login_event ResultCode.fail 0 "" "" 0)

-- The user is not online: the one statement run marks the user as online with the client's socket,
-- and the login is confirmed where it works.
abbrev pub Decided :
    ⦃p : Platform⦄
    → Task
    → (username : String) (user_id : ℕ) (nickname : String) (level : ℕ) → World
    → World
    → Type 0
Decided task username user_id nickname level before after =
    Ran (set_online user_id task.client_socket) before after
    × (((works_in (set_online user_id task.client_socket) before ≡ true)
          × Says task before after (login_event ResultCode.success user_id username nickname level))
        ⊎ ((works_in (set_online user_id task.client_socket) before ≡ false)
            × Says task before after (login_event ResultCode.fail 0 "" "" 0)))

abbrev pub LoginEnds :
    ⦃p : Platform⦄
    → Task
    → (username : String) (user_id : ℕ) (nickname : String) (level : ℕ) → (online : Bool) → World
    → Outcome (Unit {0}) × World
    → Type 0
LoginEnds task username user_id nickname level true before x =
    (x.0 ≡ ok tt) × Refused task user_id before x.1
LoginEnds task username user_id nickname level false before x =
    (x.0 ≡ ok tt) × Decided task username user_id nickname level before x.1

module _ ⦃p : Platform⦄ (works : Builds p) where
  respond_login_lem :
      (task : Task) (code : ResultCode) (user_id : ℕ) (username nickname : String) (level : ℕ)
      (w : World)
      → respond task
          (create_login_response code user_id username nickname level task.client_socket)
          w
        ≡ (ok tt, answered works task (login_event code user_id username nickname level) w)
  unfolding send_response enqueue buffer create_login_response ◌>>=◌
  respond_login_lem task code user_id username nickname level w =
      rw (create_response_lem works _ _ _ _)

  fail_login_lem :
      (task : Task) (w : World)
      → send_error_response task EventType.s2c_login ResultCode.fail w ≡ (
        ok tt,
        answered_error works task ResultCode.fail (login_event ResultCode.fail 0 "" "" 0) w,
      )
  unfolding send_error_response create_generic_error_response create_login_error_response
      create_login_response enqueue buffer ◌>>=◌
  fail_login_lem task w = rw (create_response_lem works _ _ _ _)

  -- With a connection, a login with the right password returns and answers once, by whether the
  -- user's session is marked as online. If it is, that session is ended, no session is made, and
  -- the login is refused. If not, one statement makes the session, and the login succeeds with the
  -- user's data where the statement works and fails where it does not.
  pub finish_login-ends :
      (task : Task) (username : String) (user_id : ℕ) (nickname : String) (level : ℕ)
      (online : Bool) (w : World)
      → is_connected w ≡ true
      → LoginEnds task username user_id nickname level online w
          (finish_login task username user_id nickname level online w)
  unfolding finish_login force_logout_existing_session execute_and_count set_user_online_status
      check_db_connection create_login_error_response ◌>>=◌
  finish_login-ends task username user_id nickname level true w c =
      elim (Bool-cases (works_in (force_logout user_id) w)) [
        | inl done ↦
            rw
              (
                execute_query_lem (force_logout user_id) w c,
                done,
                get_affected_rows_lem (queried (force_logout user_id) w)
                    (is_connected-queried (force_logout user_id) w c),
                respond_login_lem,
              )
              (
                refl,
                (
                  inr refl,
                  Says-answered works task _ w (counted (queried (force_logout user_id) w)) refl,
                ),
              )
        | inr failed ↦
            rw (execute_query_lem (force_logout user_id) w c, failed, respond_login_lem)
              (
                refl,
                (inl refl, Says-answered works task _ w (queried (force_logout user_id) w) refl),
              )
      ]
  finish_login-ends task username user_id nickname level false w c =
      let text = set_online user_id task.client_socket in
      elim (Bool-cases (works_in text w)) [
        | inl done ↦
            rw (c, execute_query_lem text w c, done, respond_login_lem)
              (refl, (inl refl, inl (refl, Says-answered works task _ w (queried text w) refl)))
        | inr failed ↦
            rw (c, execute_query_lem text w c, failed, fail_login_lem)
              (
                refl,
                (inl refl, inr (refl, Says-answered_error works task _ _ w (queried text w) refl)),
              )
      ]
