-- ===== src/Database/Shop/Purchase.antt =====
-- HandleShopPurchase: what a purchase costs.
use game_database_server.Prelude.{
  ℕ, ◌+◌, ◌-◌, ◌*◌, ◌%◌, ◌^◌, ◌≤◌, ◌<◌, ◌≡◌, ◌⊎◌, ◌↔◌, inl, inr, refl, Bool, true, false, ◌∷◌,
  arith, ltb, ltb→lt, Bool-cases,
}
use game_database_server.Text.{c_str}
use game_database_server.Packet.{Task}
use game_database_server.Packet.ResultCode.{ResultCode}
use game_database_server.Packet.Request.{C2sShopTransaction}
use game_database_server.Platform.{Platform, Call}
use game_database_server.Action.{World, Outcome, ok, ◌>>=◌}
use game_database_server.Connector.{is_connected}
use game_database_server.Connector.Query.{queried, execute_query_lem}
use game_database_server.Database.Sql.{purchase}
use game_database_server.Database.Traffic.{Builds}
use game_database_server.Database.Reply.{Says, Says-answered, Says-answered_error}
use game_database_server.Database.Shop.{mul32, pay}
use game_database_server.Database.Shop.Replies.{
  transaction_event, refuse_transaction_lem, confirm_transaction_lem, fail_transaction_lem,
}

-- The call of the one statement that takes the gold and gives the items.
abbrev pub purchase_call : C2sShopTransaction → (total_price : ℕ) → Call
purchase_call request total_price =
    Call.query (c_str (purchase total_price request.user_id request.item_id request.item_count))

-- A price above the gold: no call is made to the database.
abbrev pub Unaffordable : ⦃p : Platform⦄ → Task → World → (total gold : ℕ) → World → Type 0
Unaffordable task before total gold after =
    (gold < total)
    × (after.history ≡ before.history)
    × Says task before after (transaction_event ResultCode.insufficient_gold "골드가 부족합니다" 0)

-- The statement worked, and the gold that is reported is what it leaves.
abbrev pub Bought : ⦃p : Platform⦄ → Task → World → (total gold : ℕ) → World → Type 0
Bought task before total gold after =
    (left : ℕ) × (left + total ≡ gold)
    × Says task before after (transaction_event ResultCode.success "구매 완료" left)

-- The statement was refused by the database.
abbrev pub NotBought : ⦃p : Platform⦄ → Task → World → World → Type 0
NotBought task before after =
    Says task before after (transaction_event ResultCode.fail "Generic error" 0)

-- The method has returned, with one of the three ends.
abbrev pub Settled :
    ⦃p : Platform⦄
    → Task
    → C2sShopTransaction
    → World
    → (total gold : ℕ) → Outcome (Unit {0}) × World
    → Type 0
Settled task request before total gold x =
    (x.0 ≡ ok tt)
    × (Unaffordable task before total gold x.1
        ⊎ ((x.1.history ≡ purchase_call request total ∷ Call.set_character_set ∷ before.history)
            × (Bought task before total gold x.1 ⊎ NotBought task before x.1)))

-- The number of the statement's result.
abbrev purchased : ⦃p : Platform⦄ → C2sShopTransaction → (total : ℕ) → World → Bool
purchased ⦃p⦄ request total w =
    p.query_succeeds (Call.set_character_set ∷ w.history)
      (c_str (purchase total request.user_id request.item_id request.item_count))

left_lem : (total gold : ℕ) → ltb gold total ≡ false → (gold - total) + total ≡ gold
left_lem total gold h = ground arith

module _ ⦃p : Platform⦄ (works : Builds p) where
  -- With a connection, a purchase returns and answers once, and its charge is the product of price
  -- and count modulo 2^32. A charge above the gold is refused without a call to the database. Else
  -- one statement is run, which takes the charge; the answer is a success whose gold is short of
  -- the old gold by the charge where the statement works, and a failure where it does not.
  pub pay-charges :
      (task : Task) (request : C2sShopTransaction) (price gold : ℕ) (w : World)
      → is_connected w ≡ true
      → Settled task request w
          (price * request.item_count % 2 ^ 32)
          gold
          (pay task request price gold w)
  unfolding pay ◌>>=◌
  pay-charges task request price gold w c =
      let total = mul32 price request.item_count in
      elim (Bool-cases (ltb gold total)) [
        | inl poor ↦
            rw (poor, refuse_transaction_lem works)
              (refl, inl (ltb→lt _ _ poor, refl, Says-answered works task _ w w refl))
        | inr rich ↦ elim (Bool-cases (purchased request total w)) [
          | inl done ↦
              rw (rich, execute_query_lem _ w c, done, confirm_transaction_lem works)
                (
                  refl,
                  inr (
                    refl,
                    inl (_, left_lem _ _ rich, Says-answered works task _ w (queried _ w) refl),
                  ),
                )
          | inr failed ↦
              rw (rich, execute_query_lem _ w c, failed, fail_transaction_lem works)
                (refl, inr (refl, inr (Says-answered_error works task _ _ w (queried _ w) refl)))
        ]
      ]

-- The charge of a purchase is the price of all its items exactly where that is below 2^32; from
-- there on the charge is lower, by a multiple of 2^32.
pub mul32-exact :
    (price count : ℕ)
    → ((mul32 price count ≡ price * count) ↔ (price * count < 2 ^ 32))
      × ((2 ^ 32 ≤ price * count) → mul32 price count + 2 ^ 32 ≤ price * count)
mul32-exact price count = ((λ h. omega (arith, h), λ h. omega (arith, h)), λ h. omega (arith, h))
