-- ===== src/Database/Shop/Sale.antt =====
-- HandleShopSell: the transaction of a sale, its end and what the client is told.
use game_database_server.Prelude.{
  ℕ, ◌≡◌, ◌+◌, ◌-◌, ◌/◌, inl, inr, refl, true, false, List, ◌∷◌, String, some, arith, ltb,
}
use game_database_server.Text.{c_str, stoul}
use game_database_server.Packet.{Task}
use game_database_server.Packet.ResultCode.{ResultCode}
use game_database_server.Packet.Request.{C2sShopTransaction}
use game_database_server.Platform.{Platform, Call, History, Row}
use game_database_server.Action.{World, Outcome, ok, ◌>>=◌}
use game_database_server.Connector.{is_connected, free_result}
use game_database_server.Connector.Query.{
  queried, get_result_lem, works_in, execute_query_lem, is_connected-queried,
}
use game_database_server.Database.Sql.{start_transaction, commit, rollback, select_gold}
use game_database_server.Database.Traffic.{Builds}
use game_database_server.Database.Respond.{select, stoul_cell}
use game_database_server.PacketManager.Defs.{cell, stoul_or_throw, or_throw}
use game_database_server.Database.Reply.{Says, Says-answered, Says-answered_error}
use game_database_server.Database.Shop.{mul32, gold_result, gold_rows, commit_sale, roll_back, sell}
use game_database_server.Database.Shop.Replies.{
  transaction_event, confirm_transaction_lem, fail_transaction_lem,
}
use game_database_server.Database.Shop.Transaction.{
  added, committed, asked, MovesItems, is_connected-added, move_items_lem,
}

-- The method has returned, its last statement was ROLLBACK, and the client is told of a failure.
abbrev pub RolledBack : ⦃p : Platform⦄ → Task → World → Outcome (Unit {0}) × World → Type 0
RolledBack task before x =
    (x.0 ≡ ok tt)
    × ((h : History) × (x.1.history ≡ Call.query (c_str rollback) ∷ h))
    × Says task before x.1 (transaction_event ResultCode.fail "Generic error" 0)

-- The state after a result set has been stored and freed.
abbrev freed : World → World
freed w = record w {
  history = Call.free_result ∷ Call.store_result ∷ w.history;
  results = w.results + 1 - 1;
}

-- The method has returned, has read and freed one result set behind the query for the gold, and the
-- client is told the gold.
abbrev pub Confirmed :
    ⦃p : Platform⦄
    → Task
    → C2sShopTransaction
    → (sum gold : ℕ) → World
    → Outcome (Unit {0}) × World
    → Type 0
Confirmed task request sum gold before x =
    (x.0 ≡ ok tt)
    × (x.1.history ≡ Call.free_result ∷ Call.store_result ∷ (asked request sum before).history)
    × (x.1.results ≡ before.results)
    × Says task before x.1 (transaction_event ResultCode.success "판매 완료" gold)

module _ ⦃p : Platform⦄ (works : Builds p) where
  roll_back_lem :
      (task : Task) (before v : World)
      → v.sent ≡ before.sent
      → is_connected v ≡ true
      → RolledBack task before (roll_back task v)
  unfolding roll_back ◌>>=◌
  roll_back_lem task before v same c =
      rw (execute_query_lem rollback v c, fail_transaction_lem works)
        (refl, (_, refl), Says-answered_error works task _ _ before (queried rollback v) same)

  -- With a connection and enough items, a sale that is started and not committed, because one of
  -- its three statements or COMMIT itself fails, ends with ROLLBACK and an answer of failure.
  pub sell-rolls_back :
      (task : Task) (request : C2sShopTransaction) (owned price : ℕ) (w : World)
      → is_connected w ≡ true
      → ltb owned request.item_count ≡ false
      → works_in start_transaction w ≡ true
      → (MovesItems request (mul32 (price / 2) request.item_count) w
          → works_in commit (added request (mul32 (price / 2) request.item_count) w) ≡ false)
      → RolledBack task w (sell task request owned price w)
  unfolding sell commit_sale ◌>>=◌
  sell-rolls_back task request owned price w c enough s fails =
      let sum = mul32 (price / 2) request.item_count in
      let start = execute_query_lem start_transaction w c in
      elim (move_items_lem request sum w c) [
        | inr (v, moved, same, cv, n) ↦
            rw (enough, start, s, moved) (roll_back_lem task w v same cv)
        | inl (m, moved) ↦
            rw
              (
                enough,
                start,
                s,
                moved,
                execute_query_lem commit (added request sum w) (is_connected-added request sum w c),
                fails m,
              )
              (roll_back_lem task w (committed request sum w) refl (
                is_connected-queried commit (added request sum w)
                  (is_connected-added request sum w c)))
      ]

  -- With a connection and enough items, a sale whose statements and COMMIT all work, and for which
  -- only the query for the new gold fails, also ends with ROLLBACK and an answer of failure: the
  -- client is told that the completed sale failed.
  pub sell-misreports :
      (task : Task) (request : C2sShopTransaction) (owned price : ℕ) (w : World)
      → is_connected w ≡ true
      → ltb owned request.item_count ≡ false
      → works_in start_transaction w ≡ true
      → MovesItems request (mul32 (price / 2) request.item_count) w
      → works_in commit (added request (mul32 (price / 2) request.item_count) w) ≡ true
      → works_in
          (select_gold request.user_id)
          (committed request (mul32 (price / 2) request.item_count) w)
        ≡ false
      → RolledBack task w (sell task request owned price w)
  unfolding sell commit_sale select gold_result ◌>>=◌
  sell-misreports task request owned price w c enough s m done lost =
      let sum = mul32 (price / 2) request.item_count in
      let ca = is_connected-added request sum w c in
      let cc1 = is_connected-queried commit (added request sum w) ca in
      let cc2 = is_connected-queried (select_gold request.user_id) (committed request sum w) cc1 in
      elim (move_items_lem request sum w c) [
        | inr (v, moved, same, cv, n) ↦ absurd (n m)
        | inl (_, moved) ↦
            rw
              (
                enough,
                execute_query_lem start_transaction w c,
                s,
                moved,
                execute_query_lem commit (added request sum w) ca,
                done,
                execute_query_lem (select_gold request.user_id) (committed request sum w) cc1,
                lost,
              )
              (roll_back_lem task w
                (queried (select_gold request.user_id) (committed request sum w)) refl cc2)
      ]

  -- With a connection and enough items, a sale whose statements, COMMIT and query for the gold all
  -- work, and whose gold is a number, is answered with a success and that gold; the calls made are
  -- the six statements in their order and the reading of the one result set, which is freed.
  pub sell-confirms :
      (task : Task) (request : C2sShopTransaction) (owned price : ℕ) (w : World) (fields n : ℕ)
      (text : String) (cells : Row) (rows : List Row)
      → is_connected w ≡ true
      → ltb owned request.item_count ≡ false
      → works_in start_transaction w ≡ true
      → MovesItems request (mul32 (price / 2) request.item_count) w
      → works_in commit (added request (mul32 (price / 2) request.item_count) w) ≡ true
      → works_in
          (select_gold request.user_id)
          (committed request (mul32 (price / 2) request.item_count) w)
        ≡ true
      → p.stored (asked request (mul32 (price / 2) request.item_count) w).history
        ≡ some (record { num_fields = fields; rows = (some text ∷ cells) ∷ rows })
      → stoul text ≡ some n
      → Confirmed task request
          (mul32 (price / 2) request.item_count)
          n
          w
          (sell task request owned price w)
  unfolding sell commit_sale select gold_result gold_rows stoul_cell cell stoul_or_throw or_throw
      free_result ◌>>=◌
  sell-confirms task request owned price w fields n text cells rows c enough s m done read row
        number =
      let sum = mul32 (price / 2) request.item_count in
      let ca = is_connected-added request sum w c in
      let cb = is_connected-queried commit (added request sum w) ca in
      let cd = is_connected-queried (select_gold request.user_id) (committed request sum w) cb in
      elim (move_items_lem request sum w c) [
        | inr (v, moved, same, cv, bad) ↦ absurd (bad m)
        | inl (_, moved) ↦
            rw
              (
                enough,
                execute_query_lem start_transaction w c,
                s,
                moved,
                execute_query_lem commit (added request sum w) ca,
                done,
                execute_query_lem (select_gold request.user_id) (committed request sum w) cb,
                read,
                get_result_lem _ (asked request sum w) cd row,
                number,
                confirm_transaction_lem works,
              )
              (
                refl,
                refl,
                omega arith,
                Says-answered works task _ w (freed (asked request sum w)) refl,
              )
      ]
