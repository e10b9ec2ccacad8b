-- ===== src/TestClient/Receiving.antt =====
-- ReceivePacket: what it returns on each branch, and the packet that a worker has sent.
use game_database_server.Prelude.{
  ℕ, zero, suc, ◌+◌, ◌-◌, ◌≤◌, ◌≡◌, refl, ◌∙◌, ◌⊎◌, inl, inr, Bool, true, false, not, ◌||◌, List,
  [], ◌∷◌, ◌++◌, ltb, ◌==◌, if◌then◌else◌, length, take, length-take-le, length-append, arith,
}
use game_database_server.PacketManager.Defs.{is_empty}
use game_database_server.Worker.Transfer.{packet_size_of}
use game_database_server.TestClient.Network.{Network}
use game_database_server.TestClient.Session.{
  GameServerTestClient, is_connected_client, lose, pad_header, received, receive_rest,
  receive_sized, receive_headed, receive_packet,
}

module _ ⦃net : Network⦄ where
  -- A packet of the given size with the connection kept, or nothing and the connection lost.
  abbrev SizedOrLost : ℕ → GameServerTestClient → List ℕ × GameServerTestClient → Type 0
  SizedOrLost size c x =
      ((length x.0 ≡ size) × (x.1.connected ≡ c.connected)) ⊎ ((x.0 ≡ []) × (x.1.connected ≡ false))

  SizedOrLost-unless :
      (size : ℕ) (c : GameServerTestClient) (b : Bool) (x y : List ℕ × GameServerTestClient)
      → SizedOrLost size c x
      → (b ≡ false → SizedOrLost size c y)
      → SizedOrLost size c (if b then x else y)
  SizedOrLost-unless size c true x y h k = h
  SizedOrLost-unless size c false x y h k = k refl

  length-take-nonzero :
      (n : ℕ) (xs : List ℕ) → is_empty (take (suc n) xs) ≡ false → 1 ≤ length (take (suc n) xs)
  length-take-nonzero n [] h = absurd cc
  length-take-nonzero n (x ∷ xs) h = omega arith

  receive_rest-SizedOrLost :
      (size fuel missing : ℕ) (so_far : List ℕ) (c : GameServerTestClient)
      → missing ≤ fuel
      → length so_far + missing ≡ size
      → SizedOrLost size c (receive_rest fuel missing so_far c)
  unfolding receive_rest
  receive_rest-SizedOrLost size zero zero so_far c h e = inl (omega arith, refl)
  receive_rest-SizedOrLost size (suc fuel) zero so_far c h e = inl (omega arith, refl)
  receive_rest-SizedOrLost size zero (suc missing) so_far c h e = absurd (omega arith)
  receive_rest-SizedOrLost size (suc fuel) (suc missing) so_far c h e =
      let bytes = take (suc missing) (net.arrives c.receives) in
      let most = length-take-le (suc missing) (net.arrives c.receives) in
      SizedOrLost-unless size c (is_empty bytes) ([], lose (received c))
        (receive_rest fuel (suc missing - length bytes) (so_far ++ bytes) (received c))
        (inr (refl, refl))
        λ v.
          let some_bytes = length-take-nonzero missing (net.arrives c.receives) v in
          receive_rest-SizedOrLost size fuel (suc missing - length bytes) (so_far ++ bytes)
            (received c) (omega arith) (rw (length-append so_far bytes) (omega arith))

  -- What ReceivePacket gives, by the size in the header that it has read.
  abbrev pub Sized : ℕ → GameServerTestClient → List ℕ × GameServerTestClient → Type 0
  Sized size c x =
      ((length x.0 ≡ size)
        × (1 ≤ size)
        × (size ≤ 65536)
        × (is_connected_client c ≡ true)
        × (x.1.connected ≡ true))
      ⊎ ((x.0 ≡ []) × ((x.1.connected ≡ false) ⊎ (is_connected_client c ≡ false)))

  Sized-if :
      (size : ℕ) (c : GameServerTestClient) (b : Bool) (x y : List ℕ × GameServerTestClient)
      → (b ≡ true → Sized size c x)
      → (b ≡ false → Sized size c y)
      → Sized size c (if b then x else y)
  Sized-if size c true x y h k = h refl
  Sized-if size c false x y h k = k refl

  least : (size : ℕ) → (size == 0 || ltb 65536 size) ≡ false → (1 ≤ size) × (size ≤ 65536)
  least size h = (ground arith, ground arith)

  connected_of : (c : GameServerTestClient) → is_connected_client c ≡ true → c.connected ≡ true
  unfolding is_connected_client
  connected_of c h = ground arith

  Sized-of :
      (size : ℕ) (c : GameServerTestClient) (x : List ℕ × GameServerTestClient)
      → (size == 0 || ltb 65536 size) ≡ false
      → is_connected_client c ≡ true
      → SizedOrLost size (received c) x
      → Sized size c x
  Sized-of size c x within on (inl (n, kept)) =
      inl (n, (least size within).0, (least size within).1, on, kept ∙ connected_of c on)
  Sized-of size c x within on (inr (nothing, lost)) = inr (nothing, inl lost)

  -- ReceivePacket returns a packet of 1 to 65536 bytes, as many as the header says that it has read,
  -- and keeps the connection; or it returns nothing, and the connection is given up or was not there.
  pub receive_packet-Sized :
      (c : GameServerTestClient)
      → Sized (packet_size_of (pad_header (take 4 (net.arrives c.receives)))) c (receive_packet c)
  unfolding receive_packet receive_headed receive_sized
  receive_packet-Sized c =
      let header = take 4 (net.arrives c.receives) in
      let size = packet_size_of (pad_header header) in
      let c' = received c in
      let rest = receive_rest size size [] c' in
      let sized = if size == 0 || ltb 65536 size then ([], lose c') else rest in
      let headed = if is_empty header then ([], lose c') else sized in
      Sized-if size c (not (is_connected_client c)) ([], c) headed
        (λ off. inr (refl, inr (ground arith)))
        λ on.
          Sized-if size c (is_empty header) ([], lose c') sized (λ e. inr (refl, inl refl))
            λ some_bytes.
              Sized-if size c (size == 0 || ltb 65536 size) ([], lose c') rest
                (λ e. inr (refl, inl refl))
                λ within.
                  Sized-of size c rest within (ground arith)
                    (receive_rest-SizedOrLost size size size [] c' (omega arith) (omega arith))
