-- ===== src/Database/Traffic/Packets/Rules.antt =====
-- Actions that give a packet: they send nothing and give bytes.
use game_database_server.Prelude.{
  ℕ, ◌≡◌, ◌∙◌, ap, Bool, true, false, List, [], ◌∷◌, some, String, refl,
}
use game_database_server.Packet.{DbResponse, Task}
use game_database_server.Packet.Event.{DatabasePacket}
use game_database_server.Platform.{Platform, Row}
use game_database_server.Action
use game_database_server.Action.{World, Outcome, ok, thrown, crash, Action, pure, try_catch, ◌>>=◌}
use game_database_server.Action.Traffic.{Quiet, Answers, Quiet-pure, Quiet-bind}
use game_database_server.PacketManager.FromDb.{
  read_rows, item_of_row, monster_of_row, chat_of_row, shop_of_row, shop_item_of_row, server_of_row,
  gold_of, read_items,
}
use game_database_server.Database.Respond.{enqueue, success_response, send_response}
use game_database_server.Database.Traffic.Calls.{call_rules, clear_error-Quiet}

-- A FlatBufferBuilder throws only where memory runs out, and a finished buffer is never empty.
pub record Builds (p : Platform) : Type 0 where
  pub finished : (d : DatabasePacket) → (b : ℕ) × (bytes : List ℕ) × (p.build d ≡ some (b ∷ bytes))

-- A vector of bytes that an action returns is not empty.
abbrev pub Full : Outcome (List ℕ) → Type 0
Full (ok []) = ⊥
Full (ok (b ∷ bytes)) = Unit {0}
Full (thrown what) = Unit {0}
Full crash = Unit {0}

-- The action sends nothing and returns a vector that is not empty.
pub record Packs (m : Action (List ℕ)) : Type 0 where
  pub sends : (w : World) → (m w).1.sent ≡ w.sent
  pub full : (w : World) → Full (m w).0

pub Packs-bind :
    {A : Type 0} {m : Action A} {f : A → Action (List ℕ)}
    → Quiet m
    → ((a : A) → Packs (f a))
    → Packs (m >>= f)
unfolding ◌>>=◌
Packs-bind {A} {m} {f} qm pf = record {
  sends = λ w. quiet (m w).0 (m w).1 w.sent (qm.at w);
  full = λ w. full (m w).0 (m w).1;
}
  where
    quiet :
        (r : Outcome A) (v : World) (before : List DbResponse)
        → v.sent ≡ before
        → (Action.continue r f v).1.sent ≡ before
    quiet (ok a) v before e = (pf a).sends v ∙ e
    quiet (thrown what) v before e = e
    quiet crash v before e = e

    full : (r : Outcome A) (v : World) → Full (Action.continue r f v).0
    full (ok a) v = (pf a).full v
    full (thrown what) v = tt
    full crash v = tt

pub Packs-try_catch :
    {m : Action (List ℕ)} {h : String → Action (List ℕ)}
    → Packs m
    → ((what : String) → Packs (h what))
    → Packs (try_catch m h)
unfolding try_catch
Packs-try_catch {m} {h} pm ph = record {
  sends = λ w. quiet (m w).0 (m w).1 w.sent (pm.sends w);
  full = λ w. full (m w).0 (m w).1 (pm.full w);
}
  where
    quiet :
        (r : Outcome (List ℕ)) (v : World) (before : List DbResponse)
        → v.sent ≡ before
        → (Action.handle r h v).1.sent ≡ before
    quiet (ok a) v before e = e
    quiet (thrown what) v before e = (ph what).sends v ∙ e
    quiet crash v before e = e

    full : (r : Outcome (List ℕ)) (v : World) → Full r → Full (Action.handle r h v).0
    full (ok a) v e = e
    full (thrown what) v e = (ph what).full v
    full crash v e = tt

-- A packet that is not empty is sent, to the client of the task.
pub Answers-respond :
    (task : Task) {m : Action (List ℕ)}
    → Packs m
    → Answers task.client_socket (m >>= send_response task)
unfolding ◌>>=◌ send_response enqueue
Answers-respond task {m} pm = record {
  at = λ w. rest (m w).0 (m w).1 w.sent (pm.sends w) (pm.full w);
}
  where
    rest :
        (r : Outcome (List ℕ)) (v : World) (before : List DbResponse)
        → v.sent ≡ before
        → Full r
        → Action.Traffic.Replied task.client_socket
            (Action.continue r (send_response task) v).0
            before
            (Action.continue r (send_response task) v).1.sent
    rest (ok []) v before e h = absurd h
    rest (ok (b ∷ bytes)) v before e h =
        (success_response task (b ∷ bytes), refl, ap (λ l. success_response task (b ∷ bytes) ∷ l) e)
    rest (thrown what) v before e h = e
    rest crash v before e h = e

pub Packs-Quiet : {m : Action (List ℕ)} → Packs m → Quiet m
Packs-Quiet pm = record { at = pm.sends }

module _ ⦃p : Platform⦄ where
  pub item_of_row-Quiet : (row : Row) → Quiet (item_of_row row)
  unfolding item_of_row
  item_of_row-Quiet row = search call_rules depth 24

  pub monster_of_row-Quiet : (row : Row) → Quiet (monster_of_row row)
  unfolding monster_of_row
  monster_of_row-Quiet row = search call_rules depth 24

  pub chat_of_row-Quiet : (row : Row) → Quiet (chat_of_row row)
  unfolding chat_of_row
  chat_of_row-Quiet row = search call_rules depth 24

  pub shop_of_row-Quiet : (row : Row) → Quiet (shop_of_row row)
  unfolding shop_of_row
  shop_of_row-Quiet row = search call_rules depth 24

  pub shop_item_of_row-Quiet : (row : Row) → Quiet (shop_item_of_row row)
  unfolding shop_item_of_row
  shop_item_of_row-Quiet row = search call_rules depth 24

  pub server_of_row-Quiet : (row : Row) → Quiet (server_of_row row)
  unfolding server_of_row
  server_of_row-Quiet row = search call_rules depth 24

  pub gold_of-Quiet :
      (num_fields : ℕ) (first_row : Bool) (gold : ℕ) (row : Row)
      → Quiet (gold_of num_fields first_row gold row)
  unfolding gold_of
  gold_of-Quiet num_fields true gold row = search call_rules
  gold_of-Quiet num_fields false gold row = search call_rules

  pub read_items-Quiet :
      (num_fields : ℕ) (first_row : Bool) (gold : ℕ) (rows : List Row)
      → Quiet (read_items num_fields first_row gold rows)
  unfolding read_items
  read_items-Quiet num_fields first_row gold [] = search call_rules
  read_items-Quiet num_fields first_row gold (row ∷ rows) =
      Quiet-bind (item_of_row-Quiet row) λ item.
        Quiet-bind (gold_of-Quiet num_fields first_row gold row)
          λ gold'. Quiet-bind (read_items-Quiet num_fields false gold' rows) λ rest. Quiet-pure _

pub read_rows-Quiet :
    {A : Type 0} {read : Row → Action A} (rows : List Row)
    → ((row : Row) → Quiet (read row))
    → Quiet (read_rows read rows)
unfolding read_rows
read_rows-Quiet [] q = Quiet-pure _
read_rows-Quiet (row ∷ rows) q =
    Quiet-bind (q row) λ a. Quiet-bind (read_rows-Quiet rows q) λ rest. Quiet-pure _

pub ruleset packet_rules = (
  call_rules, Packs-bind, Packs-try_catch, read_rows-Quiet, read_items-Quiet, item_of_row-Quiet,
  monster_of_row-Quiet, chat_of_row-Quiet, shop_of_row-Quiet, shop_item_of_row-Quiet,
  server_of_row-Quiet,
)
