-- ===== src/Database/Shop/Transaction.antt =====
-- HandleShopSell: the statements of a sale and the states behind them.
use game_database_server.Prelude.{ℕ, ◌≡◌, ◌⊎◌, inl, inr, refl, true, false, Bool-cases}
use game_database_server.Packet.Request.{C2sShopTransaction}
use game_database_server.Platform.{Platform}
use game_database_server.Action.{World, ok, ◌>>=◌}
use game_database_server.Connector.{is_connected}
use game_database_server.Connector.Query.{
  queried, works_in, execute_query_lem, is_connected-queried,
}
use game_database_server.Database.Sql.{
  start_transaction, take_items, delete_items, add_gold, commit, select_gold,
}
use game_database_server.Database.Shop.{move_items, execute_if}

-- The states behind the five statements of a sale, in their order.
module _ (request : C2sShopTransaction) (gold : ℕ) (w : World) where
  abbrev pub started : World
  started = queried start_transaction w

  abbrev pub taken : World
  taken = queried (take_items request.user_id request.item_id request.item_count) started

  abbrev pub deleted : World
  deleted = queried (delete_items request.user_id request.item_id) taken

  abbrev pub added : World
  added = queried (add_gold gold request.user_id) deleted

  abbrev pub committed : World
  committed = queried commit added

  -- The query for the gold.
  abbrev pub asked : World
  asked = queried (select_gold request.user_id) committed

  -- The statements between START TRANSACTION and COMMIT all work.
  abbrev pub MovesItems : ⦃p : Platform⦄ → Type 0
  MovesItems =
      (works_in (take_items request.user_id request.item_id request.item_count) started ≡ true)
      × (works_in (delete_items request.user_id request.item_id) taken ≡ true)
      × (works_in (add_gold gold request.user_id) deleted ≡ true)

pub is_connected-added :
    (request : C2sShopTransaction) (gold : ℕ) (w : World)
    → is_connected w ≡ true
    → is_connected (added request gold w) ≡ true
unfolding is_connected
is_connected-added request gold w c = c

module _ ⦃p : Platform⦄ where
  -- The three statements all work, or nothing but statements has been done.
  pub move_items_lem :
      (request : C2sShopTransaction) (gold : ℕ) (w : World)
      → is_connected w ≡ true
      → (MovesItems request gold w
          × (move_items request gold (started request gold w) ≡ (ok true, added request gold w)))
        ⊎ ((v : World) × (move_items request gold (started request gold w) ≡ (ok false, v))
            × (v.sent ≡ w.sent)
            × (is_connected v ≡ true)
            × ¬ MovesItems request gold w)
  unfolding move_items execute_if ◌>>=◌
  move_items_lem request gold w c =
      let c1 = is_connected-queried start_transaction w c in
      let c2 =
        is_connected-queried (take_items request.user_id request.item_id request.item_count)
          (started request gold w) c1 in
      let c3 =
        is_connected-queried (delete_items request.user_id request.item_id) (taken request gold w)
          c2 in
      let c4 = is_connected-queried (add_gold gold request.user_id) (deleted request gold w) c3 in
      let take =
        execute_query_lem (take_items request.user_id request.item_id request.item_count)
          (started request gold w) c1 in
      let remove =
        execute_query_lem (delete_items request.user_id request.item_id) (taken request gold w)
          c2 in
      let pay = execute_query_lem (add_gold gold request.user_id) (deleted request gold w) c3 in
      elim (Bool-cases (
        works_in (take_items request.user_id request.item_id request.item_count)
          (started request gold w))) [
            | inr bad ↦ inr (taken request gold w, rw (take, bad) refl, refl, c2, λ m. cc m.0)
            | inl good ↦
                elim (Bool-cases (
                  works_in (delete_items request.user_id request.item_id) (taken request gold w))) [
                    | inr bad ↦ inr (
                      deleted request gold w,
                      rw (take, good, remove, bad) refl,
                      refl,
                      c3,
                      λ m. cc m.1,
                    )
                    | inl fine ↦
                        elim (Bool-cases
                          (works_in (add_gold gold request.user_id) (deleted request gold w))) [
                            | inr bad ↦ inr (
                              added request gold w,
                              rw (take, good, remove, fine, pay, bad) refl,
                              refl,
                              c4,
                              λ m. cc m.2,
                            )
                            | inl last ↦
                                inl (
                                  (good, fine, last),
                                  rw (take, good, remove, fine, pay, last) refl,
                                )
                          ]
                  ]
          ]
