-- ===== src/TestClient/Reconnecting.antt =====
-- TryReconnect: its three attempts, and the socket that a failed send leaves.
use game_database_server.Prelude.{
  ℕ, zero, suc, ◌+◌, ◌<◌, ◌≡◌, refl, ap, ◌∙◌, subst, ◌⊎◌, inl, inr, Bool, true, false, List, Option,
  none, some, if◌then◌else◌, arith,
}
use game_database_server.PacketManager.Defs.{is_empty}
use game_database_server.TestClient.Network.{Network, ConnectResult}
use game_database_server.TestClient.Session.{
  GameServerTestClient, is_connected_client, is_socket, close_client, disconnect, connecting,
  connect_client, reconnect_loop, try_reconnect, send_packet,
}
use game_database_server.TestClient.Consistency.{IsConsistent}

module _ ⦃net : Network⦄ where
  -- One of so many calls of connect gave the socket that the client has; or all of them failed.
  abbrev pub TriedFrom : ℕ → ℕ → Bool × GameServerTestClient → Type 0
  TriedFrom left n x =
      ((x.0 ≡ true)
        × (x.1.connected ≡ true)
        × ((k : ℕ) × ((s : ℕ) × (k < left)
              × (net.connects (n + k) ≡ ConnectResult.connected s)
              × (x.1.client_socket ≡ some s)
              × (x.1.attempts ≡ n + suc k))))
      ⊎ ((x.0 ≡ false) × (x.1.connected ≡ false) × (x.1.attempts ≡ n + left))

  abbrev pub Tried : ℕ → GameServerTestClient → Bool × GameServerTestClient → Type 0
  Tried left c x = TriedFrom left c.attempts x

  Tried-again :
      (left : ℕ) (c d : GameServerTestClient) (x : Bool × GameServerTestClient)
      → d.attempts ≡ suc c.attempts
      → Tried left d x
      → Tried (suc left) c x
  Tried-again left c d x e (inl (done, on, (k, (s, less, answer, socket, n)))) = inl (
    done,
    on,
    (suc k, (s, omega arith, ap net.connects (omega arith) ∙ answer, socket, omega arith)),
  )
  Tried-again left c d x e (inr (failed, off, n)) = inr (failed, off, omega arith)

  -- The state when connect is called.
  abbrev attempting : GameServerTestClient → GameServerTestClient
  attempting c = record c { attempts = suc c.attempts }

  -- The attempt and what follows it, by the answer of connect.
  abbrev attempt : ℕ → ConnectResult → GameServerTestClient → Bool × GameServerTestClient
  attempt left answer c =
      let d = connecting answer (attempting c) in
      if d.0 then (true, d.1) else reconnect_loop left d.1

  attempt-Tried :
      (left : ℕ) (c : GameServerTestClient) (answer : ConnectResult)
      → net.connects c.attempts ≡ answer
      → c.connected ≡ false
      → ((d : GameServerTestClient) → d.connected ≡ false → Tried left d (reconnect_loop left d))
      → Tried (suc left) c (attempt left answer c)
  attempt-Tried left c ConnectResult.no_socket e off again =
      let d = (connecting ConnectResult.no_socket (attempting c)).1 in
      Tried-again left c d (reconnect_loop left d) refl (again d off)
  attempt-Tried left c (ConnectResult.refused s) e off again =
      let d = (connecting (ConnectResult.refused s) (attempting c)).1 in
      Tried-again left c d (reconnect_loop left d) refl (again d off)
  attempt-Tried left c (ConnectResult.connected s) e off again =
      inl (refl, refl, (0, (s, omega arith, ap net.connects (omega arith) ∙ e, refl, omega arith)))

  connect_lem :
      (c : GameServerTestClient)
      → c.connected ≡ false
      → connect_client c ≡ connecting (net.connects c.attempts) (attempting c)
  unfolding connect_client
  connect_lem c h = rw h refl

  reconnect_loop-Tried :
      (left : ℕ) (c : GameServerTestClient)
      → c.connected ≡ false
      → Tried left c (reconnect_loop left c)
  unfolding reconnect_loop
  reconnect_loop-Tried zero c h = inr (refl, h, omega arith)
  reconnect_loop-Tried (suc left) c h =
      rw (connect_lem c h)
        (attempt-Tried left c (net.connects c.attempts) refl h (reconnect_loop-Tried left))

  close-off :
      (s : Option ℕ) (c : GameServerTestClient)
      → is_socket s ≡ true
      → (close_client s c).connected ≡ false
  close-off none c h = absurd cc
  close-off (some s) c h = refl

  close-attempts :
      (s : Option ℕ) (c : GameServerTestClient) → (close_client s c).attempts ≡ c.attempts
  close-attempts none c = refl
  close-attempts (some s) c = refl

  disconnect-off : (c : GameServerTestClient) → IsConsistent c → (disconnect c).connected ≡ false
  unfolding disconnect
  disconnect-off c h = decide c.connected refl
    where
      decide :
          (b : Bool)
          → c.connected ≡ b
          → (if b then close_client c.client_socket c else c).connected ≡ false
      decide true e = close-off c.client_socket c (h e)
      decide false e = e

  disconnect-attempts : (c : GameServerTestClient) → (disconnect c).attempts ≡ c.attempts
  unfolding disconnect
  disconnect-attempts c = decide c.connected
    where
      decide : (b : Bool) → (if b then close_client c.client_socket c else c).attempts ≡ c.attempts
      decide true = close-attempts c.client_socket c
      decide false = refl

  -- For a client that has a socket if it counts as connected, TryReconnect calls connect one to three
  -- times: it returns true with the socket that the last call connected, or it returns false after
  -- three calls and the client does not count as connected.
  pub try_reconnect-Tried :
      (c : GameServerTestClient) → IsConsistent c → Tried 3 c (try_reconnect c)
  unfolding try_reconnect
  try_reconnect-Tried c h =
      subst (λ n. TriedFrom 3 n (reconnect_loop 3 (disconnect c))) (disconnect-attempts c)
        (reconnect_loop-Tried 3 (disconnect c) (disconnect-off c h))

  lost_send :
      (packet : List ℕ) (c : GameServerTestClient) (s : ℕ)
      → c.connected ≡ true
      → c.client_socket ≡ some s
      → is_empty packet ≡ false
      → net.accepts c.sends ≡ 0
      → ((send_packet packet c).0 ≡ false)
        × ((send_packet packet c).1.connected ≡ false)
        × ((send_packet packet c).1.attempts ≡ c.attempts)
        × ((send_packet packet c).1.closed ≡ c.closed)
  unfolding send_packet is_connected_client
  lost_send packet c s on socket some_bytes fails =
      rw (on, socket, some_bytes, fails) (refl, refl, refl, refl)

  disconnect_lem : (c : GameServerTestClient) → c.connected ≡ false → disconnect c ≡ c
  unfolding disconnect
  disconnect_lem c off = rw off refl

  loop_lem :
      (left : ℕ) (c : GameServerTestClient)
      → c.connected ≡ false
      → reconnect_loop (suc left) c ≡ attempt left (net.connects c.attempts) c
  unfolding reconnect_loop
  loop_lem left c off = rw (connect_lem c off) refl

  reconnect_off :
      (c : GameServerTestClient) (s : ℕ)
      → c.connected ≡ false
      → net.connects c.attempts ≡ ConnectResult.connected s
      → ((try_reconnect c).0 ≡ true)
        × ((try_reconnect c).1.client_socket ≡ some s)
        × ((try_reconnect c).1.closed ≡ c.closed)
  unfolding try_reconnect
  reconnect_off c s off answer =
      rw (disconnect_lem c off, loop_lem 2 c off, answer) (refl, refl, refl)

  -- A connected client whose packet the network does not take and that then connects again has the
  -- new socket, and the old one was never closed.
  pub try_reconnect-leaks :
      (packet : List ℕ) (c : GameServerTestClient) (s s' : ℕ)
      → c.connected ≡ true
      → c.client_socket ≡ some s
      → is_empty packet ≡ false
      → net.accepts c.sends ≡ 0
      → net.connects c.attempts ≡ ConnectResult.connected s'
      → let x = send_packet packet c in
        (x.0 ≡ false)
        × ((try_reconnect x.1).0 ≡ true)
        × ((try_reconnect x.1).1.client_socket ≡ some s')
        × ((try_reconnect x.1).1.closed ≡ c.closed)
  try_reconnect-leaks packet c s s' on socket some_bytes fails answer =
      let (failed, off, attempts, closed) = lost_send packet c s on socket some_bytes fails in
      let (done, new, kept) =
        reconnect_off (send_packet packet c).1 s' off (ap net.connects attempts ∙ answer) in
      (failed, done, new, kept ∙ closed)
