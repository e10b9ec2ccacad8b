-- ===== src/TestClient/Users.antt =====
-- TestLogin to TestJoinGameServer: who is logged in, and the connection.
use game_database_server.Prelude.{
  ℕ, ◌≡◌, refl, ◌⊎◌, inl, inr, Bool, true, false, ◌||◌, List, Option, none, some, String, str_eq,
  if◌then◌else◌,
}
use game_database_server.Packet.ResultCode.{ResultCode}
use game_database_server.Packet.Response.{S2cLogin}
use game_database_server.Platform.{Platform}
use game_database_server.PacketManager.Defs.{is_empty}
use game_database_server.TestClient.Manager.{Method}
use game_database_server.TestClient.Requests.{create_login_request}
use game_database_server.TestClient.Responses.{parse_login_response, is_login_success, is_success}
use game_database_server.TestClient.Network.{Network}
use game_database_server.TestClient.Session.{
  GameServerTestClient, managed, try_reconnect, send_packet, receive_packet,
}
use game_database_server.TestClient.Tests.{
  receive_response, exchange, logged_in, log_in, receive_login, send_again, test_login,
}
use game_database_server.TestClient.Consistency.{
  IsConsistent, Kept, Kept-refl, Kept-trans, Kept-if, Kept-managed, Kept-try_reconnect,
  Kept-send_packet, Kept-receive_packet,
}

success_of : (code : ResultCode) → is_success code ≡ true → code ≡ ResultCode.success
success_of ResultCode.success h = refl
success_of _ h = cc

module _ ⦃p : Platform⦄ ⦃net : Network⦄ where
  Kept-receive_response :
      {A : Type 0} (parse : List ℕ → Method (Option A)) (c : GameServerTestClient)
      → Kept c (receive_response parse c).1
  unfolding receive_response
  Kept-receive_response parse c =
      Kept-if (is_empty (receive_packet c).0) (none, (receive_packet c).1) _ (Kept-receive_packet c)
        (Kept-trans (Kept-receive_packet c) (Kept-managed (parse (receive_packet c).0) _))

  pub Kept-exchange :
      {A : Type 0} (create : Method (List ℕ)) (parse : List ℕ → Method (Option A))
      (c : GameServerTestClient)
      → Kept c (exchange create parse c).1
  unfolding exchange
  Kept-exchange create parse c =
      let c1 = (managed create c).1 in
      let sent = send_packet (managed create c).0 c1 in
      Kept-if (is_empty (managed create c).0) (none, c1) _ (Kept-managed create c)
        (Kept-if sent.0 (receive_response parse sent.1) (none, sent.1)
          (Kept-trans (Kept-managed create c) (
            Kept-trans (Kept-send_packet (managed create c).0 c1)
              (Kept-receive_response parse sent.1)))
          (Kept-trans (Kept-managed create c) (Kept-send_packet (managed create c).0 c1)))

  -- ParseLoginResponse on what ReceivePacket gives.
  abbrev pub parsed : GameServerTestClient → Option S2cLogin × GameServerTestClient
  parsed d = managed (parse_login_response (receive_packet d).0) (receive_packet d).1

  -- The request is made and sent, and sent once more on a new connection.
  abbrev pub sent :
      (username password : String) → GameServerTestClient → Bool × GameServerTestClient
  sent username password c =
      let (packet, c') = managed (create_login_request username password) c in send_packet packet c'

  abbrev pub resent :
      (username password : String) → GameServerTestClient → Bool × GameServerTestClient
  resent username password c =
      send_packet (managed (create_login_request username password) c).0
        (try_reconnect (sent username password c).1).1

  -- The client behind the call of SendPacket that has worked.
  abbrev pub Awaits : (username password : String) (c d : GameServerTestClient) → Type 0
  Awaits username password c d =
      (((sent username password c).0 ≡ true) × (d ≡ (sent username password c).1))
      ⊎ (((sent username password c).0 ≡ false)
          × ((try_reconnect (sent username password c).1).0 ≡ true)
          × ((resent username password c).0 ≡ true)
          × (d ≡ (resent username password c).1))

  -- The client has the user of the response, or a text of it is null and the process stops.
  abbrev pub Taken : S2cLogin → GameServerTestClient → Option Bool × GameServerTestClient → Type 0
  Taken r e x =
      ((name : String) × ((nick : String) × (r.username ≡ some name)
          × (r.nickname ≡ some nick)
          × (x ≡ (some true, record e { current_user_id = r.user_id; current_username = name }))))
      ⊎ (((r.username ≡ none) ⊎ (r.nickname ≡ none)) × (x.0 ≡ none))

  -- A response with the result SUCCESS has come and is taken, or the user stays.
  abbrev pub Ends :
      (GameServerTestClient → Type 0)
      → GameServerTestClient
      → Option Bool × GameServerTestClient
      → Type 0
  Ends waits c x =
      ((d : GameServerTestClient) × (waits d
          × ((r : S2cLogin) × ((parsed d).0 ≡ some r)
              × (r.result ≡ ResultCode.success)
              × Taken r (parsed d).1 x)))
      ⊎ ((x.0 ≡ some false)
          × (x.1.current_user_id ≡ c.current_user_id)
          × (x.1.current_username ≡ c.current_username))

  abbrev pub LogsIn :
      (username password : String)
      → GameServerTestClient
      → Option Bool × GameServerTestClient
      → Type 0
  LogsIn username password c x = Ends (Awaits username password c) c x

  abbrev Login :
      (GameServerTestClient → Type 0)
      → GameServerTestClient
      → Option Bool × GameServerTestClient
      → Type 0
  Login waits c x = (IsConsistent c → IsConsistent x.1) × Ends waits c x

  module _ (waits : GameServerTestClient → Type 0) (c : GameServerTestClient) where
    fails : (d : GameServerTestClient) → Kept c d → Login waits c (some false, d)
    fails d k = (k.consistent, inr (refl, k.user_id, k.username))

    Login-if :
        (b : Bool) (x y : Option Bool × GameServerTestClient)
        → (b ≡ true → Login waits c x)
        → (b ≡ false → Login waits c y)
        → Login waits c (if b then x else y)
    Login-if true x y h k = h refl
    Login-if false x y h k = k refl

    log_in-Login :
        (e : GameServerTestClient) (r : Option S2cLogin)
        → waits e
        → Kept c (parsed e).1
        → (parsed e).0 ≡ r
        → Login waits c (log_in r (parsed e).1)
    unfolding is_login_success
    log_in-Login e none q k h = fails (parsed e).1 k
    log_in-Login e (some r) q k h =
        Login-if (is_success r.result) _ _ (λ v. taken v r.username r.nickname refl refl)
          λ v. fails (parsed e).1 k
      where
        taken :
            is_success r.result ≡ true
            → (o n : Option String) → r.username ≡ o
            → r.nickname ≡ n
            → Login waits c (logged_in o n r.user_id (parsed e).1)
        taken v none n e1 e2 =
            (k.consistent, inl (e, (q, (r, h, success_of r.result v, inr (inl e1, refl)))))
        taken v (some name) none e1 e2 =
            (k.consistent, inl (e, (q, (r, h, success_of r.result v, inr (inr e2, refl)))))
        taken v (some name) (some nick) e1 e2 = (
          k.consistent,
          inl (e, (q, (r, h, success_of r.result v, inl (name, (nick, e1, e2, refl))))),
        )

    receive_login-Login :
        (d : GameServerTestClient) → waits d → Kept c d → Login waits c (receive_login d)
    unfolding receive_login
    receive_login-Login d q k =
        let d' = (receive_packet d).1 in
        let k' = Kept-trans k (Kept-receive_packet d) in
        Login-if (is_empty (receive_packet d).0) (some false, (try_reconnect d').1) _
          (λ v. fails _ (Kept-trans k' (Kept-try_reconnect d')))
          λ v.
            log_in-Login d (parsed d).0 q
              (Kept-trans k' (Kept-managed (parse_login_response (receive_packet d).0) d')) refl

    send_again-Login :
        (packet : List ℕ) (d : GameServerTestClient)
        → ((try_reconnect d).0 ≡ true
            → (send_packet packet (try_reconnect d).1).0 ≡ true
            → waits (send_packet packet (try_reconnect d).1).1)
        → Kept c d
        → Login waits c (send_again packet d)
    unfolding send_again
    send_again-Login packet d q k =
        let again = try_reconnect d in
        let sent = send_packet packet again.1 in
        let k' = Kept-trans k (Kept-try_reconnect d) in
        let k'' = Kept-trans k' (Kept-send_packet packet again.1) in
        Login-if again.0 (if sent.0 then receive_login sent.1 else (some false, sent.1))
          (some false, again.1)
          (λ v.
            Login-if sent.0 (receive_login sent.1) (some false, sent.1)
              (λ w. receive_login-Login sent.1 (q v w) k'') λ w. fails sent.1 k'')
          λ v. fails again.1 k'

  pub test_login-Login :
      (username password : String) (c : GameServerTestClient)
      → Login (Awaits username password c) c (test_login username password c)
  unfolding test_login
  test_login-Login username password c =
      let waits = Awaits username password c in
      let made = managed (create_login_request username password) c in
      let first = sent username password c in
      let k = Kept-managed (create_login_request username password) c in
      let k' = Kept-trans k (Kept-send_packet made.0 made.1) in
      Login-if waits c (str_eq username "" || str_eq password "") (some false, c) _
        (λ v. fails waits c c (Kept-refl c))
        λ v.
          Login-if waits c (is_empty made.0) (some false, made.1) _ (λ w. fails waits c made.1 k)
            λ w.
              Login-if waits c first.0 (receive_login first.1) (send_again made.0 first.1)
                (λ e. receive_login-Login waits c first.1 (inl (e, refl)) k')
                λ e. send_again-Login waits c made.0 first.1 (λ v w. inr (e, v, w, refl)) k'

  -- Where TestLogin returns true, the packet received behind the request that was sent, or sent
  -- again on a new connection, parsed to a response whose result is SUCCESS, and nothing of the
  -- client changes behind the parse but the user, which is the one of that response. Where the
  -- process stops, a text of such a response is null. Otherwise TestLogin returns false, and the
  -- client's user is the one before.
  pub test_login-LogsIn :
      (username password : String) (c : GameServerTestClient)
      → LogsIn username password c (test_login username password c)
  test_login-LogsIn username password c = (test_login-Login username password c).1
