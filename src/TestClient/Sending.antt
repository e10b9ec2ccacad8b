-- ===== src/TestClient/Sending.antt =====
-- SendPacket: what has gone over the wire on each branch.
use game_database_server.Prelude.{
  ℕ, zero, suc, ◌≤◌, ◌≡◌, refl, sym, ap, ◌∙◌, ◌⊎◌, inl, inr, Bool, true, false, not, ◌||◌, List, [],
  ◌∷◌, ◌++◌, ◌==◌, if◌then◌else◌, length, take, drop, take-append-drop, length-drop, append_assoc,
  append-nil, arith,
}
use game_database_server.PacketManager.Defs.{is_empty}
use game_database_server.Worker.Framing.{header_of}
use game_database_server.TestClient.Network.{Network}
use game_database_server.TestClient.Session.{
  GameServerTestClient, is_connected_client, lose, sending, send_rest, send_packet,
}

module _ {A : Type 0} where
  -- Two first parts, of a list and of what is behind the first, are a first part together.
  take-take : (n m : ℕ) (xs : List A) → (k : ℕ) × (take n xs ++ take m (drop n xs) ≡ take k xs)
  take-take zero m xs = (m, refl)
  take-take (suc n) zero [] = (0, refl)
  take-take (suc n) (suc m) [] = (0, refl)
  take-take (suc n) m (x ∷ xs) = let (k, e) = take-take n m xs in (suc k, ap (λ l. x ∷ l) e)

-- The bytes went out whole; or only the first so many, and the connection counts as lost.
abbrev SentOrLost : List ℕ → GameServerTestClient → Bool × GameServerTestClient → Type 0
SentOrLost bytes c x =
    ((x.0 ≡ true) × (x.1.wire ≡ c.wire ++ bytes) × (x.1.connected ≡ c.connected))
    ⊎ ((x.0 ≡ false) × (x.1.connected ≡ false) × ((m : ℕ) × (x.1.wire ≡ c.wire ++ take m bytes)))

module _ ⦃net : Network⦄ where
  -- A call of send that took the first bytes, and what becomes of those behind them.
  moved :
      (bytes : List ℕ) (c : GameServerTestClient) (x : Bool × GameServerTestClient)
      → SentOrLost (drop (net.accepts c.sends) bytes) (sending bytes c) x
      → SentOrLost bytes c x
  moved bytes c x (inl (done, wire, kept)) =
      let n = net.accepts c.sends in
      inl (
        done,
        wire
            ∙ (append_assoc c.wire (take n bytes) (drop n bytes)
                ∙ ap (λ l. c.wire ++ l) (take-append-drop n bytes)),
        kept,
      )
  moved bytes c x (inr (failed, lost, (m, wire))) =
      let n = net.accepts c.sends in
      let (k, e) = take-take n m bytes in
      inr (
        failed,
        lost,
        (
          k,
          wire
              ∙ (append_assoc c.wire (take n bytes) (take m (drop n bytes))
                  ∙ ap (λ l. c.wire ++ l) e),
        ),
      )

  -- The error branch of a call.
  stopped :
      (bytes : List ℕ) (c : GameServerTestClient)
      → SentOrLost bytes c (false, lose (sending bytes c))
  stopped bytes c = inr (refl, refl, (net.accepts c.sends, refl))

  SentOrLost-unless :
      (bytes : List ℕ) (c : GameServerTestClient) (b : Bool) (x y : Bool × GameServerTestClient)
      → SentOrLost bytes c x
      → (b ≡ false → SentOrLost bytes c y)
      → SentOrLost bytes c (if b then x else y)
  SentOrLost-unless bytes c true x y h k = h
  SentOrLost-unless bytes c false x y h k = k refl

  shorter :
      (n fuel : ℕ) (b : ℕ) (bytes : List ℕ)
      → (n == 0) ≡ false
      → length (b ∷ bytes) ≤ suc fuel
      → length (drop n (b ∷ bytes)) ≤ fuel
  shorter n fuel b bytes e h = rw (length-drop n (b ∷ bytes)) (ground arith)

  send_rest-SentOrLost :
      (fuel : ℕ) (bytes : List ℕ) (c : GameServerTestClient)
      → length bytes ≤ fuel
      → SentOrLost bytes c (send_rest fuel bytes c)
  unfolding send_rest
  send_rest-SentOrLost zero [] c h = inl (refl, sym (append-nil c.wire), refl)
  send_rest-SentOrLost (suc fuel) [] c h = inl (refl, sym (append-nil c.wire), refl)
  send_rest-SentOrLost zero (b ∷ bytes) c h = absurd (omega arith)
  send_rest-SentOrLost (suc fuel) (b ∷ bytes) c h =
      let rest = drop (net.accepts c.sends) (b ∷ bytes) in
      let c' = sending (b ∷ bytes) c in
      SentOrLost-unless (b ∷ bytes) c (net.accepts c.sends == 0) (false, lose c')
        (send_rest fuel rest c') (stopped (b ∷ bytes) c)
        λ e.
          moved (b ∷ bytes) c (send_rest fuel rest c')
            (send_rest-SentOrLost fuel rest c' (shorter (net.accepts c.sends) fuel b bytes e h))

  -- What SendPacket has put on the wire, by what it returns.
  abbrev pub Framed : List ℕ → GameServerTestClient → Bool × GameServerTestClient → Type 0
  Framed packet c x =
      ((x.0 ≡ true)
        × (is_connected_client c ≡ true)
        × (is_connected_client x.1 ≡ true)
        × (x.1.wire ≡ (c.wire ++ take (net.accepts c.sends) (header_of (length packet))) ++ packet))
      ⊎ (((x.0 ≡ false)
            × (x.1.connected ≡ false)
            × (is_connected_client c ≡ true)
            × ((n : ℕ) × ((m : ℕ) × (x.1.wire
                    ≡ (c.wire ++ take n (header_of (length packet))) ++ take m packet))))
          ⊎ ((x ≡ (false, c)) × ((is_connected_client c ≡ false) ⊎ (packet ≡ []))))

  client_socket-if :
      (c : GameServerTestClient) (b : Bool) (x y : Bool × GameServerTestClient)
      → x.1.client_socket ≡ c.client_socket
      → y.1.client_socket ≡ c.client_socket
      → (if◌then◌else◌ {A = Bool × GameServerTestClient} b x y).1.client_socket ≡ c.client_socket
  client_socket-if c true x y h k = h
  client_socket-if c false x y h k = k

  -- The client's socket stays.
  send_rest-client_socket :
      (fuel : ℕ) (bytes : List ℕ) (c : GameServerTestClient)
      → (send_rest fuel bytes c).1.client_socket ≡ c.client_socket
  unfolding send_rest
  send_rest-client_socket zero [] c = refl
  send_rest-client_socket (suc fuel) [] c = refl
  send_rest-client_socket zero (b ∷ bytes) c = refl
  send_rest-client_socket (suc fuel) (b ∷ bytes) c =
      let c' = sending (b ∷ bytes) c in
      let rest = drop (net.accepts c.sends) (b ∷ bytes) in
      client_socket-if c (net.accepts c.sends == 0) (false, lose c') (send_rest fuel rest c') refl
        (send_rest-client_socket fuel rest c')

  connected_lem :
      (c d : GameServerTestClient)
      → is_connected_client c ≡ true
      → d.connected ≡ c.connected
      → d.client_socket ≡ c.client_socket
      → is_connected_client d ≡ true
  unfolding is_connected_client
  connected_lem c d h k s = rw (k, s) h

  body-Framed :
      (packet : List ℕ) (c : GameServerTestClient) (x : Bool × GameServerTestClient)
      → is_connected_client c ≡ true
      → x.1.client_socket ≡ c.client_socket
      → SentOrLost packet (sending (header_of (length packet)) c) x
      → Framed packet c x
  body-Framed packet c x on s (inl (done, wire, kept)) =
      inl (done, on, connected_lem c x.1 on kept s, wire)
  body-Framed packet c x on s (inr (failed, lost, (m, wire))) =
      inr (inl (failed, lost, on, (net.accepts c.sends, (m, wire))))

  Framed-if :
      (packet : List ℕ) (c : GameServerTestClient) (b : Bool) (x y : Bool × GameServerTestClient)
      → (b ≡ true → Framed packet c x)
      → (b ≡ false → Framed packet c y)
      → Framed packet c (if b then x else y)
  Framed-if packet c true x y h k = h refl
  Framed-if packet c false x y h k = k refl

  refused :
      (packet : List ℕ) (c : GameServerTestClient)
      → (not (is_connected_client c) || is_empty packet) ≡ true
      → Framed packet c (false, c)
  refused [] c h = inr (inr (refl, inr refl))
  refused (b ∷ packet) c h = inr (inr (refl, inl (ground arith)))

  on_of :
      (packet : List ℕ) (c : GameServerTestClient)
      → (not (is_connected_client c) || is_empty packet) ≡ false
      → is_connected_client c ≡ true
  on_of packet c h = ground arith

  -- SendPacket returns true only for a client that is connected and stays it, with as much of the four
  -- bytes of the size as the one call of send for them has taken, and behind it all bytes of the packet
  -- on the wire in their order; where that call takes one to three bytes the size is incomplete. It returns false with the connection given up and a first part of both
  -- on the wire, or with nothing changed where the client was not connected or the packet is empty.
  pub send_packet-Framed :
      (packet : List ℕ) (c : GameServerTestClient) → Framed packet c (send_packet packet c)
  unfolding send_packet
  send_packet-Framed packet c =
      let header = header_of (length packet) in
      let c' = sending header c in
      let rest = send_rest (length packet) packet c' in
      let body = if net.accepts c.sends == 0 then (false, lose c') else rest in
      Framed-if packet c (not (is_connected_client c) || is_empty packet) (false, c) body
        (refused packet c)
        λ h.
          let on = on_of packet c h in
          Framed-if packet c (net.accepts c.sends == 0) (false, lose c') rest
            (λ e. inr (
              inl (
                refl,
                refl,
                on,
                (
                  net.accepts c.sends,
                  (0, sym (append-nil (c.wire ++ take (net.accepts c.sends) header))),
                ),
              )))
            (λ e.
              body-Framed packet c rest on (send_rest-client_socket (length packet) packet c')
                (send_rest-SentOrLost (length packet) packet c' (omega arith)))
