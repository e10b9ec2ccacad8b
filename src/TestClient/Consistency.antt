-- ===== src/TestClient/Consistency.antt =====
-- What the methods on the connection keep, and that a client which counts as connected has a socket.
use game_database_server.Prelude.{
  ℕ, zero, suc, ◌≡◌, refl, ◌∙◌, Bool, true, false, not, ◌||◌, List, [], ◌∷◌, Option, none, some,
  ◌==◌, ltb, if◌then◌else◌, take,
}
use game_database_server.PacketManager.Defs.{is_empty}
use game_database_server.Worker.Transfer.{packet_size_of}
use game_database_server.TestClient.Manager.{Method}
use game_database_server.TestClient.Network.{Network, ConnectResult}
use game_database_server.TestClient.Session.{
  GameServerTestClient, managed, is_socket, disconnect, close_client, lose, connecting,
  connect_client, reconnect_loop, try_reconnect, sending, send_rest, send_packet, received,
  receive_rest, receive_sized, receive_headed, receive_packet, is_connected_client, pad_header,
}

abbrev pub IsConsistent : GameServerTestClient → Type 0
IsConsistent c = c.connected ≡ true → is_socket c.client_socket ≡ true

-- The user stays, and a consistent client stays consistent.
pub record Kept (c d : GameServerTestClient) : Type 0 where
  pub user_id : d.current_user_id ≡ c.current_user_id
  pub username : d.current_username ≡ c.current_username
  pub consistent : IsConsistent c → IsConsistent d

pub Kept-refl : (c : GameServerTestClient) → Kept c c
Kept-refl c = record { user_id = refl; username = refl; consistent = λ h. h }

pub Kept-trans : {c d e : GameServerTestClient} → Kept c d → Kept d e → Kept c e
Kept-trans h k = record {
  user_id = k.user_id ∙ h.user_id;
  username = k.username ∙ h.username;
  consistent = λ v. k.consistent (h.consistent v);
}

pub Kept-if :
    {B : Type 0} {c : GameServerTestClient} (b : Bool) (x y : B × GameServerTestClient)
    → Kept c x.1
    → Kept c y.1
    → Kept c (if b then x else y).1
Kept-if true x y h k = h
Kept-if false x y h k = k

Kept-unless :
    {B : Type 0} {c : GameServerTestClient} (b : Bool) (x y : B × GameServerTestClient)
    → Kept c x.1
    → (b ≡ false → Kept c y.1)
    → Kept c (if b then x else y).1
Kept-unless true x y h k = h
Kept-unless false x y h k = k refl

Kept-when :
    {c : GameServerTestClient} (b : Bool) (d : GameServerTestClient)
    → Kept c d
    → Kept c (if b then d else c)
Kept-when true d h = h
Kept-when false d h = Kept-refl _

Kept-lose : (c : GameServerTestClient) → Kept c (lose c)
Kept-lose c = record { user_id = refl; username = refl; consistent = λ h e. cc }

pub Kept-managed :
    {A : Type 0} (method : Method A) (c : GameServerTestClient) → Kept c (managed method c).1
Kept-managed method c = record { user_id = refl; username = refl; consistent = λ h. h }

Kept-disconnect : (c : GameServerTestClient) → Kept c (disconnect c)
unfolding disconnect
Kept-disconnect c = Kept-when c.connected _ (Kept-close c.client_socket c)
  where
    Kept-close : (s : Option ℕ) (c : GameServerTestClient) → Kept c (close_client s c)
    Kept-close none c = Kept-refl c
    Kept-close (some s) c = record { user_id = refl; username = refl; consistent = λ h e. cc }

module _ ⦃net : Network⦄ where
  Kept-connecting :
      (r : ConnectResult) (c : GameServerTestClient)
      → c.connected ≡ false
      → Kept c (connecting r c).1
  Kept-connecting ConnectResult.no_socket c off = record {
    user_id = refl;
    username = refl;
    consistent = λ h e. cc;
  }
  Kept-connecting (ConnectResult.refused s) c off = record {
    user_id = refl;
    username = refl;
    consistent = λ h e. cc;
  }
  Kept-connecting (ConnectResult.connected s) c off = record {
    user_id = refl;
    username = refl;
    consistent = λ h e. refl;
  }

  Kept-attempt : (c : GameServerTestClient) → Kept c (record c { attempts = suc c.attempts })
  Kept-attempt c = record { user_id = refl; username = refl; consistent = λ h. h }

  Kept-connect : (c : GameServerTestClient) → Kept c (connect_client c).1
  unfolding connect_client
  Kept-connect c =
      Kept-unless c.connected _ _ (Kept-refl c)
        λ off. Kept-trans (Kept-attempt c) (Kept-connecting (net.connects c.attempts) _ off)

  Kept-reconnect_loop : (left : ℕ) (c : GameServerTestClient) → Kept c (reconnect_loop left c).1
  unfolding reconnect_loop
  Kept-reconnect_loop zero c = Kept-refl c
  Kept-reconnect_loop (suc left) c =
      Kept-if (connect_client c).0 _ _ (Kept-connect c)
        (Kept-trans (Kept-connect c) (Kept-reconnect_loop left (connect_client c).1))

  pub Kept-try_reconnect : (c : GameServerTestClient) → Kept c (try_reconnect c).1
  unfolding try_reconnect
  Kept-try_reconnect c = Kept-trans (Kept-disconnect c) (Kept-reconnect_loop 3 (disconnect c))

  Kept-sending : (bytes : List ℕ) (c : GameServerTestClient) → Kept c (sending bytes c)
  Kept-sending bytes c = record { user_id = refl; username = refl; consistent = λ h. h }

  Kept-send_rest :
      (fuel : ℕ) (bytes : List ℕ) (c : GameServerTestClient) → Kept c (send_rest fuel bytes c).1
  unfolding send_rest
  Kept-send_rest zero [] c = Kept-refl c
  Kept-send_rest (suc fuel) [] c = Kept-refl c
  Kept-send_rest zero (b ∷ bytes) c = Kept-refl c
  Kept-send_rest (suc fuel) (b ∷ bytes) c =
      Kept-if (net.accepts c.sends == 0) _ _ (Kept-trans (Kept-sending (b ∷ bytes) c) (Kept-lose _))
        (Kept-trans (Kept-sending (b ∷ bytes) c) (Kept-send_rest fuel _ _))

  pub Kept-send_packet :
      (packet : List ℕ) (c : GameServerTestClient) → Kept c (send_packet packet c).1
  unfolding send_packet
  Kept-send_packet packet c = Kept-if _ _ _ (Kept-refl c) (
      Kept-if (net.accepts c.sends == 0) _ _ (Kept-trans (Kept-sending _ c) (Kept-lose _))
        (Kept-trans (Kept-sending _ c) (Kept-send_rest _ packet _)))

  Kept-received : (c : GameServerTestClient) → Kept c (received c)
  Kept-received c = record { user_id = refl; username = refl; consistent = λ h. h }

  Kept-receive_rest :
      (fuel missing : ℕ) (so_far : List ℕ) (c : GameServerTestClient)
      → Kept c (receive_rest fuel missing so_far c).1
  unfolding receive_rest
  Kept-receive_rest zero zero so_far c = Kept-refl c
  Kept-receive_rest (suc fuel) zero so_far c = Kept-refl c
  Kept-receive_rest zero (suc missing) so_far c = Kept-refl c
  Kept-receive_rest (suc fuel) (suc missing) so_far c =
      Kept-if _ _ _ (Kept-trans (Kept-received c) (Kept-lose _))
        (Kept-trans (Kept-received c) (Kept-receive_rest fuel _ _ _))

  Kept-receive_sized : (size : ℕ) (c : GameServerTestClient) → Kept c (receive_sized size c).1
  unfolding receive_sized
  Kept-receive_sized size c =
      Kept-if (size == 0 || ltb 65536 size) _ _ (Kept-lose c) (Kept-receive_rest size size [] c)

  Kept-receive_headed :
      (header : List ℕ) (c : GameServerTestClient) → Kept c (receive_headed header c).1
  unfolding receive_headed
  Kept-receive_headed header c =
      Kept-if (is_empty header) ([], lose c) _ (Kept-lose c)
        (Kept-receive_sized (packet_size_of (pad_header header)) c)

  pub Kept-receive_packet : (c : GameServerTestClient) → Kept c (receive_packet c).1
  unfolding receive_packet
  Kept-receive_packet c =
      Kept-if (not (is_connected_client c)) ([], c) _ (Kept-refl c)
        (Kept-trans (Kept-received c) (Kept-receive_headed (take 4 (net.arrives c.receives)) _))
