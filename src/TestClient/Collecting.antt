-- ===== src/TestClient/Collecting.antt =====
-- ReceivePacket on a packet that a worker has sent with its header.
use game_database_server.Prelude.{
  ℕ, zero, suc, ◌-◌, ◌≤◌, ◌≡◌, refl, sym, ap, true, false, List, [], ◌∷◌, ◌++◌, ltb, ◌==◌, length,
  take, length-append, append_assoc, append-nil, arith,
}
use game_database_server.PacketManager.Defs.{is_empty}
use game_database_server.Worker.Framing.{header_of, header_lem}
use game_database_server.TestClient.Network.{Network}
use game_database_server.TestClient.Session.{
  GameServerTestClient, is_connected_client, received, receive_rest, receive_sized, receive_headed,
  receive_packet,
}

-- The bytes of the pieces in which a packet comes.
abbrev pub joined_pieces : List (List ℕ) → List ℕ
joined_pieces [] = []
joined_pieces (x ∷ pieces) = x ++ joined_pieces pieces

pub take-all : {A : Type 0} (n : ℕ) (xs : List A) → length xs ≤ n → take n xs ≡ xs
take-all zero [] h = refl
take-all zero (x ∷ xs) h = absurd (omega arith)
take-all (suc n) [] h = refl
take-all (suc n) (x ∷ xs) h = ap (λ l. x ∷ l) (take-all n xs (omega arith))

some_piece : (x : List ℕ) → 1 ≤ length x → is_empty x ≡ false
some_piece [] h = absurd (omega arith)
some_piece (b ∷ x) h = refl

zero_test : (n : ℕ) → 1 ≤ n → (n == 0) ≡ false
zero_test n h = ground arith

most_test : (n : ℕ) → n ≤ 65536 → ltb 65536 n ≡ false
most_test n h = ground arith

module _ ⦃net : Network⦄ where
  -- The calls of recv from the given one on bring these pieces, each of a byte at least.
  abbrev pub Brings : ℕ → List (List ℕ) → Type 0
  Brings k [] = Unit {0}
  Brings k (x ∷ pieces) = (net.arrives k ≡ x) × (1 ≤ length x) × Brings (suc k) pieces

  abbrev Collected : List ℕ → GameServerTestClient → List ℕ × GameServerTestClient → Type 0
  Collected bytes c x = (x.0 ≡ bytes) × (x.1.connected ≡ c.connected)

  receive_rest-piece :
      (fuel missing : ℕ) (so_far x : List ℕ) (c : GameServerTestClient)
      → net.arrives c.receives ≡ x
      → 1 ≤ length x
      → length x ≤ missing
      → receive_rest (suc fuel) missing so_far c
        ≡ receive_rest fuel (missing - length x) (so_far ++ x) (received c)
  unfolding receive_rest
  receive_rest-piece fuel zero so_far x c e h k = absurd (omega arith)
  receive_rest-piece fuel (suc missing) so_far x c e h k =
      rw (e, take-all (suc missing) x k, some_piece x h) refl

  receive_rest-Collected :
      (pieces : List (List ℕ)) (fuel missing : ℕ) (so_far : List ℕ) (c : GameServerTestClient)
      → missing ≤ fuel
      → missing ≡ length (joined_pieces pieces)
      → Brings c.receives pieces
      → Collected (so_far ++ joined_pieces pieces) c (receive_rest fuel missing so_far c)
  unfolding receive_rest
  receive_rest-Collected [] zero zero so_far c h e k = (sym (append-nil so_far), refl)
  receive_rest-Collected [] (suc fuel) zero so_far c h e k = (sym (append-nil so_far), refl)
  receive_rest-Collected [] fuel (suc missing) so_far c h e k = absurd (omega arith)
  receive_rest-Collected (x ∷ pieces) zero missing so_far c h e (brings, one, rest) =
      absurd (omega (arith, length-append x (joined_pieces pieces)))
  receive_rest-Collected (x ∷ pieces) (suc fuel) missing so_far c h e (brings, one, rest) =
      let n = length-append x (joined_pieces pieces) in
      rw
        (
          receive_rest-piece fuel missing so_far x c brings one (omega arith),
          sym (append_assoc so_far x (joined_pieces pieces)),
        )
        (receive_rest-Collected pieces fuel (missing - length x) (so_far ++ x) (received c)
          (omega arith) (omega arith) rest)

  headed_lem :
      (size : ℕ) (c : GameServerTestClient)
      → 1 ≤ size
      → size ≤ 65536
      → receive_headed (header_of size) c ≡ receive_rest size size [] c
  unfolding receive_headed receive_sized
  headed_lem size c one most =
      rw (header_lem size (omega arith), zero_test size one, most_test size most) refl

  -- A connected client that finds the header of a packet of 1 to 65536 bytes, as SendToClient writes
  -- it, and then the bytes of the packet in any pieces, returns exactly the packet and stays
  -- connected.
  pub receive_packet-collects :
      (pieces : List (List ℕ)) (c : GameServerTestClient)
      → is_connected_client c ≡ true
      → 1 ≤ length (joined_pieces pieces)
      → length (joined_pieces pieces) ≤ 65536
      → net.arrives c.receives ≡ header_of (length (joined_pieces pieces))
      → Brings (suc c.receives) pieces
      → ((receive_packet c).0 ≡ joined_pieces pieces)
        × ((receive_packet c).1.connected ≡ c.connected)
  unfolding receive_packet
  receive_packet-collects pieces c on one most header brings =
      rw (on, header, headed_lem (length (joined_pieces pieces)) (received c) one most)
        (receive_rest-Collected pieces _ _ [] (received c) (omega arith) refl brings)
