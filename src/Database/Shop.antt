-- ===== src/Database/Shop.antt =====
-- DatabaseThread.cpp: HandleShopListRequest to HandleShopTransactionRequest, HandleShopPurchase,
-- HandleShopSell. Prices and counts are uint32_t, and their products wrap.
pub mod Replies
pub mod Purchase
pub mod Transaction
pub mod Sale
use game_database_server.Prelude.{
  ℕ, ◌-◌, ◌*◌, ◌/◌, ◌%◌, ◌^◌, Bool, true, false, List, [], ◌∷◌, Option, none, some, String, ltb,
  ◌==◌, if◌then◌else◌,
}
use game_database_server.Packet.{Task}
use game_database_server.Packet.EventType.{EventType}
use game_database_server.Packet.ResultCode.{ResultCode}
use game_database_server.Packet.Request.{C2sShopList, C2sShopItems, C2sShopTransaction}
use game_database_server.Platform.{Platform, Row, ResultSet}
use game_database_server.Action.{Action, pure, deref, ◌>>=◌, ◌>>◌}
use game_database_server.Connector.{execute_query, get_result, free_result}
use game_database_server.PacketManager.Parse.{
  parse_shop_list_request, parse_shop_items_request, parse_shop_transaction_request,
}
use game_database_server.PacketManager.Validate.{
  validate_shop_list_request, validate_shop_items_request, validate_shop_transaction_request,
}
use game_database_server.PacketManager.Build.{create_shop_transaction_response}
use game_database_server.PacketManager.Errors.{create_shop_transaction_error_response}
use game_database_server.PacketManager.FromDb.{
  create_shop_list_response_from_db, create_shop_items_response_from_db,
}
use game_database_server.Database.Respond.{
  send_error_response, respond, with_request, select, respond_or, stoul_cell,
}
use game_database_server.Database.Sql.{
  select_shops, select_shop_items, select_price, purchase, select_owned, take_items, delete_items,
  add_gold, select_gold, start_transaction, commit, rollback,
}

abbrev pub mul32 : ℕ → ℕ → ℕ
mul32 a b = a * b % 2 ^ 32

module _ ⦃p : Platform⦄ where
  unfoldable pub fail_transaction : Task → ResultCode → Action (Unit {0})
  fail_transaction task code = send_error_response task EventType.s2c_shop_transaction code

  unfoldable pub refuse_transaction : Task → ResultCode → String → Action (Unit {0})
  refuse_transaction task code message =
      respond task (create_shop_transaction_error_response code message task.client_socket)

  unfoldable pub confirm_transaction : Task → String → ℕ → Action (Unit {0})
  confirm_transaction task message gold =
      respond task
        (create_shop_transaction_response ResultCode.success message gold task.client_socket)

  unfoldable pub shop_list : Task → C2sShopList → Action (Unit {0})
  shop_list task request = do
    r ← select (select_shops request.map_id)
    respond_or task (λ result. create_shop_list_response_from_db result task.client_socket)
        (send_error_response task EventType.s2c_shop_list ResultCode.shop_not_found) r

  unfoldable pub handle_shop_list_request : Task → Action (Unit {0})
  handle_shop_list_request task = do
    request ← parse_shop_list_request task.flatbuffer_data
    with_request validate_shop_list_request
        (send_error_response task EventType.s2c_shop_list ResultCode.fail) (shop_list task) request

  unfoldable pub shop_items : Task → C2sShopItems → Action (Unit {0})
  shop_items task request = do
    r ← select (select_shop_items request.shop_id)
    respond_or task
        (λ result. create_shop_items_response_from_db result request.shop_id task.client_socket)
        (send_error_response task EventType.s2c_shop_items ResultCode.item_not_found) r

  unfoldable pub handle_shop_items_request : Task → Action (Unit {0})
  handle_shop_items_request task = do
    request ← parse_shop_items_request task.flatbuffer_data
    with_request validate_shop_items_request
        (send_error_response task EventType.s2c_shop_items ResultCode.fail) (shop_items task)
        request

  -- HandleShopPurchase from the price and the gold on.
  unfoldable pub pay : Task → C2sShopTransaction → (item_price current_gold : ℕ) → Action (Unit {0})
  pay task request item_price current_gold =
      let total_price = mul32 item_price request.item_count in
      if ltb current_gold total_price
      then refuse_transaction task ResultCode.insufficient_gold "골드가 부족합니다"
      else (do
        done ←
            execute_query (purchase total_price request.user_id request.item_id request.item_count)
        if done
            then confirm_transaction task "구매 완료" (current_gold - total_price)
            else fail_transaction task ResultCode.fail)

  unfoldable pub purchase_rows : Task → C2sShopTransaction → List Row → Action (Unit {0})
  purchase_rows task request [] = do free_result; fail_transaction task ResultCode.item_not_found
  purchase_rows task request (row ∷ rows) = do
    item_price ← stoul_cell row 0
    current_gold ← stoul_cell row 1
    free_result
    pay task request item_price current_gold

  unfoldable pub purchase_result : Task → C2sShopTransaction → Option ResultSet → Action (Unit {0})
  purchase_result task request none = fail_transaction task ResultCode.item_not_found
  purchase_result task request (some r) = purchase_rows task request r.rows

  unfoldable pub handle_shop_purchase : Task → C2sShopTransaction → Action (Unit {0})
  handle_shop_purchase task request = do
    done ← execute_query (select_price request.item_id request.user_id)
    if done
        then (do r ← get_result; purchase_result task request r)
        else fail_transaction task ResultCode.fail

  -- `if (success) { if (!ExecuteQuery(text)) success = false; }`
  unfoldable pub execute_if : Bool → String → Action Bool
  execute_if true text = execute_query text
  execute_if false text = pure false

  unfoldable pub gold_rows : Task → List Row → Action Bool
  gold_rows task [] = do free_result; pure false
  gold_rows task (row ∷ rows) = do
    current_gold ← stoul_cell row 0
    free_result
    confirm_transaction task "판매 완료" current_gold
    pure true

  unfoldable pub gold_result : Task → Option ResultSet → Action Bool
  gold_result task none = pure false
  gold_result task (some r) = gold_rows task r.rows

  -- COMMIT, the query for the gold and the response; true where the method returns here.
  unfoldable pub commit_sale : Task → C2sShopTransaction → Action Bool
  commit_sale task request = do
    committed ← execute_query commit
    if committed
        then (do r ← select (select_gold request.user_id); gold_result task r)
        else pure false

  unfoldable pub roll_back : Task → Action (Unit {0})
  roll_back task = do _ ← execute_query rollback; fail_transaction task ResultCode.fail

  -- The three statements between START TRANSACTION and COMMIT, each only if those before worked.
  unfoldable pub move_items : C2sShopTransaction → ℕ → Action Bool
  move_items request sell_price = do
    taken ← execute_query (take_items request.user_id request.item_id request.item_count)
    deleted ← execute_if taken (delete_items request.user_id request.item_id)
    execute_if deleted (add_gold sell_price request.user_id)

  -- HandleShopSell from the count and the price on.
  unfoldable pub sell : Task → C2sShopTransaction → (owned_count item_price : ℕ) → Action (Unit {0})
  sell task request owned_count item_price =
      let sell_price = mul32 (item_price / 2) request.item_count in
      if ltb owned_count request.item_count
      then refuse_transaction task ResultCode.item_not_found "보유 아이템이 부족합니다"
      else (do
        started ← execute_query start_transaction
        if started
            then (do
              success ← move_items request sell_price
              returned ← if success then commit_sale task request else pure false
              if returned then pure tt else roll_back task)
            else fail_transaction task ResultCode.fail)

  unfoldable pub sell_rows : Task → C2sShopTransaction → List Row → Action (Unit {0})
  sell_rows task request [] = do
    free_result
    refuse_transaction task ResultCode.item_not_found "아이템을 보유하고 있지 않습니다"
  sell_rows task request (row ∷ rows) = do
    owned_count ← stoul_cell row 0
    item_price ← stoul_cell row 1
    free_result
    sell task request owned_count item_price

  unfoldable pub sell_result : Task → C2sShopTransaction → Option ResultSet → Action (Unit {0})
  sell_result task request none =
      refuse_transaction task ResultCode.item_not_found "아이템을 보유하고 있지 않습니다"
  sell_result task request (some r) = sell_rows task request r.rows

  unfoldable pub handle_shop_sell : Task → C2sShopTransaction → Action (Unit {0})
  handle_shop_sell task request = do
    done ← execute_query (select_owned request.user_id request.item_id)
    if done
        then (do r ← get_result; sell_result task request r)
        else fail_transaction task ResultCode.fail

  unfoldable pub shop_transaction : Task → C2sShopTransaction → Action (Unit {0})
  shop_transaction task request =
      if request.transaction_type == 0
      then handle_shop_purchase task request
      else if request.transaction_type == 1
      then handle_shop_sell task request
      else pure tt

  -- The request is read for the log before it is tested for null.
  unfoldable pub handle_shop_transaction_request : Task → Action (Unit {0})
  handle_shop_transaction_request task = do
    request ← parse_shop_transaction_request task.flatbuffer_data
    _ ← deref request
    with_request validate_shop_transaction_request (fail_transaction task ResultCode.fail)
        (shop_transaction task) request
