-- ===== src/Database/GameServer/Join.antt =====
-- HandleJoinGameServerRequest: who is told where a game server runs.
use game_database_server.Prelude.{
  ℕ, ◌<◌, ◌≡◌, ◌≢◌, ◌⊎◌, inl, inr, refl, Bool, true, false, ◌∷◌, some, String, str_eq, eq_iff, leb,
  leb→le, arith, Bool-cases,
}
use game_database_server.Packet.{Task}
use game_database_server.Packet.ResultCode.{ResultCode}
use game_database_server.Packet.Request.{C2sJoinGameServer}
use game_database_server.Packet.Response.{S2cJoinGameServer}
use game_database_server.Packet.Event.{s2c_join_game_server}
use game_database_server.Platform.{Platform}
use game_database_server.Action.{World, Outcome, ok, ◌>>=◌}
use game_database_server.PacketManager.Build.{create_join_game_server_response}
use game_database_server.PacketManager.Errors.{
  create_generic_error_response, create_join_game_server_error_response,
}
use game_database_server.Connector.{is_connected}
use game_database_server.Text.{c_str}
use game_database_server.Platform.{Call}
use game_database_server.Database.Respond.{enqueue, respond, send_response, send_error_response}
use game_database_server.Database.Traffic.{Builds}
use game_database_server.Database.Reply.{
  Says-answered_error, Says, buffer, create_response_lem, Says-answered,
}
use game_database_server.Database.GameServer.{
  fail_join, refuse_join, password_differs, admit, join_server,
}
use game_database_server.Connector.Query.{queried, execute_query_lem}
use game_database_server.Database.Sql.{reactivate_server}

-- The owner, or anybody while the server is active, has room, and asks for no other password.
abbrev pub MayJoin :
    (is_active is_owner : Bool) (current most : ℕ) (password given : String) → Type 0
MayJoin is_active is_owner current most password given =
    (is_owner ≡ true)
    ⊎ ((is_active ≡ true) × (current < most) × ((password ≡ "") ⊎ (password ≡ given)))

-- A reply with the address, or one without it.
abbrev pub Opens : S2cJoinGameServer → (ip : String) (port : ℕ) → Type 0
Opens r ip port = (r.result ≡ ResultCode.success) × (r.server_ip ≡ some ip) × (r.server_port ≡ port)

abbrev pub Hides : S2cJoinGameServer → Type 0
Hides r = (r.result ≢ ResultCode.success) × (r.server_ip ≡ some "") × (r.server_port ≡ 0)

-- The action has returned, and the client is told the address or not, by the two conditions.
abbrev pub Told :
    ⦃p : Platform⦄ (task : Task) (before : World) (ip : String) (port : ℕ) (shown hidden : Type 0)
    → Outcome (Unit {0}) × World
    → Type 0
Told task before ip port shown hidden x =
    (x.0 ≡ ok tt)
    × ((r : S2cJoinGameServer) × Says task before x.1 (s2c_join_game_server (some r))
        × ((Opens r ip port × shown) ⊎ (Hides r × hidden)))

room_lem : {current most : ℕ} → leb most current ≡ false → current < most
room_lem h = ground arith

module _ {current most : ℕ} {is_active : Bool} {password given : String} where
  full_lem : leb most current ≡ true → ¬ MayJoin is_active false current most password given
  full_lem full (inl e) = cc
  full_lem full (inr (a, room, q)) = omega (arith, leb→le most current full)

  wrong_lem :
      str_eq password "" ≡ false
      → str_eq password given ≡ false
      → ¬ MayJoin is_active false current most password given
  wrong_lem asked differs (inl e) = cc
  wrong_lem asked differs (inr (a, room, inl e)) = cc ((eq_iff password "").1 e)
  wrong_lem asked differs (inr (a, room, inr e)) = cc ((eq_iff password given).1 e)

-- Whether the statement that starts the server again works.
abbrev reactivated : ⦃p : Platform⦄ → Task → C2sJoinGameServer → World → Bool
reactivated ⦃p⦄ task request w =
    p.query_succeeds (Call.set_character_set ∷ w.history)
      (c_str (reactivate_server task.client_socket request.server_id))

module _ ⦃p : Platform⦄ (works : Builds p) where
  module _ (task : Task) (before : World) (ip : String) (port : ℕ) (shown hidden : Type 0)
      (v : World) (same : v.sent ≡ before.sent) where
    refused-Told :
        (code : ResultCode) (message : String)
        → code ≢ ResultCode.success
        → hidden
        → Told task before ip port shown hidden (refuse_join task code message v)
    unfolding refuse_join send_response enqueue buffer create_join_game_server_response
        create_join_game_server_error_response ◌>>=◌
    refused-Told code message n c =
        rw (create_response_lem works _ _ _ _)
          (refl, (_, Says-answered works task _ before v same, inr ((n, refl, refl), c)))

    opened-Told :
        (message : String)
        → shown
        → Told task before ip port shown hidden (
            respond task
              (create_join_game_server_response ResultCode.success ip port message
                task.client_socket)
              v)
    unfolding send_response enqueue buffer create_join_game_server_response ◌>>=◌
    opened-Told message o =
        rw (create_response_lem works _ _ _ _)
          (refl, (_, Says-answered works task _ before v same, inl ((refl, refl, refl), o)))

  module _ (task : Task) (request : C2sJoinGameServer) (before : World) (password ip given : String)
      (port now most : ℕ) where
    admit-Told :
        (is_active is_owner : Bool) (v : World)
        → v.sent ≡ before.sent
        → request.server_password ≡ some given
        → (is_owner ≡ false → is_active ≡ true)
        → Told task before ip port
            (MayJoin is_active is_owner now most password given)
            (MayJoin is_active is_owner now most password given → is_active ≡ false)
            (admit task request password ip port now most is_active is_owner v)
    unfolding admit password_differs ◌>>=◌
    admit-Told is_active true v same g a = opened-Told task before ip port _ _ v same _ (inl refl)
    admit-Told is_active false v same g a = elim (Bool-cases (leb most now)) [
      | inl full ↦ rw full (
          refused-Told task before ip port _ _ v same _ _ (λ e. cc) (λ m. absurd (full_lem full m)))
      | inr room ↦ elim (Bool-cases (str_eq password "")) [
        | inl free ↦
            rw (room, free)
              (opened-Told task before ip port _ _ v same _
                (inr (a refl, room_lem room, inl ((eq_iff _ _).0 free))))
        | inr asked ↦ elim (Bool-cases (str_eq password given)) [
          | inl same_password ↦
              rw (room, asked, g, same_password)
                (opened-Told task before ip port _ _ v same _
                  (inr (a refl, room_lem room, inr ((eq_iff _ _).0 same_password))))
          | inr differs ↦
              rw (room, asked, g, differs)
                (refused-Told task before ip port _ _ v same _ _ (λ e. cc)
                  (λ m. absurd (wrong_lem asked differs m)))
        ]
      ]
    ]

    -- Where the server could not be started again.
    failed-Told :
        (shown hidden : Type 0) (v : World)
        → v.sent ≡ before.sent
        → hidden
        → Told task before ip port shown hidden (fail_join task v)
    unfolding fail_join send_error_response create_generic_error_response enqueue buffer
        create_join_game_server_response create_join_game_server_error_response ◌>>=◌
    failed-Told shown hidden v same h = rw (create_response_lem works _ _ _ _) (
      refl,
      (_, Says-answered_error works task _ _ before v same, inr (((λ e. cc), refl, refl), h)),
    )

  -- With a connection to the database and a password in the request, HandleJoinGameServerRequest
  -- answers from a server's row with exactly one response. Either it is a success with the row's
  -- address and port, and the client owns the server, or the server is active with a free place
  -- and has no password or the request's; or the response is no success, with an empty address
  -- and port 0, and that condition does not hold or the server was inactive.
  pub join_server-discloses :
      (task : Task) (request : C2sJoinGameServer) (password ip given : String) (port now most : ℕ)
      (is_active is_owner : Bool) (w : World)
      → is_connected w ≡ true
      → request.server_password ≡ some given
      → Told task w ip port
          (MayJoin is_active is_owner now most password given)
          ((MayJoin is_active is_owner now most password given) → is_active ≡ false)
          (join_server task request password ip port now most is_active is_owner w)
  unfolding join_server ◌>>=◌
  join_server-discloses task request password ip given port now most true is_owner w c g =
      admit-Told task request w password ip given port now most true is_owner w refl g (λ e. refl)
  join_server-discloses task request password ip given port now most false false w c g =
      refused-Told task w ip port _ _ w refl _ _ (λ e. cc) (λ e. refl)
  join_server-discloses task request password ip given port now most false true w c g =
      elim (Bool-cases (reactivated task request w)) [
        | inl h ↦
            rw (execute_query_lem (reactivate_server task.client_socket request.server_id) w c, h)
              (admit-Told task request w password ip given port now most false true
                (queried (reactivate_server task.client_socket request.server_id) w) refl g
                (λ e. cc))
        | inr h ↦
            rw (execute_query_lem (reactivate_server task.client_socket request.server_id) w c, h)
              (failed-Told task request w password ip given port now most _ _
                (queried (reactivate_server task.client_socket request.server_id) w) refl
                (λ e. refl))
      ]
