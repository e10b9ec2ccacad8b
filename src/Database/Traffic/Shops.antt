-- ===== src/Database/Traffic/Shops.antt =====
-- Shops.
use game_database_server.Prelude.{
  String, ℕ, Bool, true, false, List, [], Option, none, some, arith, ◌∷◌, ◌≡◌,
}
use game_database_server.Packet.{Task}
use game_database_server.Packet.ResultCode.{ResultCode}
use game_database_server.Packet.Request.{C2sShopList, C2sShopItems, C2sShopTransaction}
use game_database_server.Platform.{Platform, Row, ResultSet}
use game_database_server.Action.Traffic.{
  Quiet, Answers, AnswersIf, Answers-bind, Quiet-pure, answer_rules, AnswersIf-false, Quiet-deref,
}
use game_database_server.PacketManager.Parse.{
  parse_shop_list_request, parse_shop_items_request, parse_shop_transaction_request,
}
use game_database_server.PacketManager.Validate.{
  validate_shop_list_request, validate_shop_items_request, check_shop_transaction_request,
  validate_shop_transaction_request,
}
use game_database_server.Database.Shop.{
  fail_transaction, refuse_transaction, confirm_transaction, shop_list, handle_shop_list_request,
  shop_items, handle_shop_items_request, pay, purchase_rows, purchase_result, handle_shop_purchase,
  execute_if, gold_rows, gold_result, commit_sale, roll_back, move_items, sell, sell_rows,
  sell_result, handle_shop_sell, shop_transaction, handle_shop_transaction_request,
}
use game_database_server.Database.Traffic.Calls.{
  parse_request-Quiet, free_result-Quiet, execute_query-Quiet,
}
use game_database_server.Database.Traffic.Packets.{
  Builds, create_shop_transaction_response-Packs, create_shop_transaction_error_response-Packs,
  create_shop_list_response_from_db-Packs, create_shop_items_response_from_db-Packs,
}
use game_database_server.Database.Traffic.Steps.{
  Answers-with_request, send_error_response-Answers, step_rules,
}

module _ ⦃p : Platform⦄ (works : Builds p) where
  shop_list-Answers :
      (task : Task) (request : C2sShopList) → Answers task.client_socket (shop_list task request)
  unfolding shop_list
  shop_list-Answers task request =
      search
        (
          step_rules,
          send_error_response-Answers works,
          create_shop_list_response_from_db-Packs works,
        )
        depth 8

  pub handle_shop_list_request-Answers :
      (task : Task) → Answers task.client_socket (handle_shop_list_request task)
  unfolding handle_shop_list_request parse_shop_list_request validate_shop_list_request
  handle_shop_list_request-Answers task = Answers-bind (parse_request-Quiet _ _ _ _) λ r.
      Answers-with_request _ _ r (send_error_response-Answers works task _ _)
        (λ request _. shop_list-Answers task request)

  shop_items-Answers :
      (task : Task) (request : C2sShopItems) → Answers task.client_socket (shop_items task request)
  unfolding shop_items
  shop_items-Answers task request =
      search
        (
          step_rules,
          send_error_response-Answers works,
          create_shop_items_response_from_db-Packs works,
        )
        depth 8

  pub handle_shop_items_request-Answers :
      (task : Task) → Answers task.client_socket (handle_shop_items_request task)
  unfolding handle_shop_items_request parse_shop_items_request validate_shop_items_request
  handle_shop_items_request-Answers task = Answers-bind (parse_request-Quiet _ _ _ _) λ r.
      Answers-with_request _ _ r (send_error_response-Answers works task _ _)
        (λ request _. shop_items-Answers task request)

  fail_transaction-Answers :
      (task : Task) (code : ResultCode) → Answers task.client_socket (fail_transaction task code)
  unfolding fail_transaction
  fail_transaction-Answers task code = send_error_response-Answers works task _ _

  refuse_transaction-Answers :
      (task : Task) (code : ResultCode) (message : String)
      → Answers task.client_socket (refuse_transaction task code message)
  unfolding refuse_transaction
  refuse_transaction-Answers task code message =
      search (step_rules, create_shop_transaction_error_response-Packs works)

  confirm_transaction-Answers :
      (task : Task) (message : String) (gold : ℕ)
      → Answers task.client_socket (confirm_transaction task message gold)
  unfolding confirm_transaction
  confirm_transaction-Answers task message gold =
      search (step_rules, create_shop_transaction_response-Packs works)

  pay-Answers :
      (task : Task) (request : C2sShopTransaction) (price gold : ℕ)
      → Answers task.client_socket (pay task request price gold)
  unfolding pay
  pay-Answers task request price gold =
      search
        (
          step_rules, fail_transaction-Answers, refuse_transaction-Answers,
          confirm_transaction-Answers,
        )
        depth 8

  purchase_rows-Answers :
      (task : Task) (request : C2sShopTransaction) (rows : List Row)
      → Answers task.client_socket (purchase_rows task request rows)
  unfolding purchase_rows
  purchase_rows-Answers task request [] = search (step_rules, fail_transaction-Answers)
  purchase_rows-Answers task request (row ∷ rows) = search (step_rules, pay-Answers) depth 8

  purchase_result-Answers :
      (task : Task) (request : C2sShopTransaction) (r : Option ResultSet)
      → Answers task.client_socket (purchase_result task request r)
  unfolding purchase_result
  purchase_result-Answers task request none = fail_transaction-Answers task _
  purchase_result-Answers task request (some r) = purchase_rows-Answers task request r.rows

  handle_shop_purchase-Answers :
      (task : Task) (request : C2sShopTransaction)
      → Answers task.client_socket (handle_shop_purchase task request)
  unfolding handle_shop_purchase
  handle_shop_purchase-Answers task request =
      search (step_rules, fail_transaction-Answers, purchase_result-Answers) depth 8

  execute_if-Quiet : (b : Bool) (text : String) → Quiet (execute_if b text)
  unfolding execute_if
  execute_if-Quiet true text = execute_query-Quiet text
  execute_if-Quiet false text = Quiet-pure false

  move_items-Quiet : (request : C2sShopTransaction) (price : ℕ) → Quiet (move_items request price)
  unfolding move_items
  move_items-Quiet request price = search (step_rules, execute_if-Quiet) depth 8

  gold_rows-AnswersIf :
      (task : Task) (rows : List Row) → AnswersIf task.client_socket (gold_rows task rows)
  unfolding gold_rows
  gold_rows-AnswersIf task [] = search (answer_rules, free_result-Quiet)
  gold_rows-AnswersIf task (row ∷ rows) =
      search (answer_rules, step_rules, confirm_transaction-Answers) depth 8

  gold_result-AnswersIf :
      (task : Task) (r : Option ResultSet) → AnswersIf task.client_socket (gold_result task r)
  unfolding gold_result
  gold_result-AnswersIf task none = AnswersIf-false
  gold_result-AnswersIf task (some r) = gold_rows-AnswersIf task r.rows

  commit_sale-AnswersIf :
      (task : Task) (request : C2sShopTransaction)
      → AnswersIf task.client_socket (commit_sale task request)
  unfolding commit_sale
  commit_sale-AnswersIf task request =
      search (answer_rules, step_rules, gold_result-AnswersIf) depth 8

  roll_back-Answers : (task : Task) → Answers task.client_socket (roll_back task)
  unfolding roll_back
  roll_back-Answers task = search (step_rules, fail_transaction-Answers)

  -- The method answers once: where the sale is committed and read back, or after the rollback.
  sell-Answers :
      (task : Task) (request : C2sShopTransaction) (count price : ℕ)
      → Answers task.client_socket (sell task request count price)
  unfolding sell
  sell-Answers task request count price =
      search
        (
          answer_rules, step_rules, fail_transaction-Answers, refuse_transaction-Answers,
          move_items-Quiet, commit_sale-AnswersIf, roll_back-Answers,
        )
        depth 12

  sell_rows-Answers :
      (task : Task) (request : C2sShopTransaction) (rows : List Row)
      → Answers task.client_socket (sell_rows task request rows)
  unfolding sell_rows
  sell_rows-Answers task request [] = search (step_rules, refuse_transaction-Answers)
  sell_rows-Answers task request (row ∷ rows) = search (step_rules, sell-Answers) depth 8

  sell_result-Answers :
      (task : Task) (request : C2sShopTransaction) (r : Option ResultSet)
      → Answers task.client_socket (sell_result task request r)
  unfolding sell_result
  sell_result-Answers task request none = refuse_transaction-Answers task _ _
  sell_result-Answers task request (some r) = sell_rows-Answers task request r.rows

  handle_shop_sell-Answers :
      (task : Task) (request : C2sShopTransaction)
      → Answers task.client_socket (handle_shop_sell task request)
  unfolding handle_shop_sell
  handle_shop_sell-Answers task request =
      search (step_rules, fail_transaction-Answers, sell_result-Answers) depth 8

  shop_transaction-Answers :
      (task : Task) (request : C2sShopTransaction)
      → check_shop_transaction_request request ≡ none
      → Answers task.client_socket (shop_transaction task request)
  unfolding shop_transaction check_shop_transaction_request
  shop_transaction-Answers task request ok =
      ground
        (arith, handle_shop_purchase-Answers task request, handle_shop_sell-Answers task request)

  pub handle_shop_transaction_request-Answers :
      (task : Task) → Answers task.client_socket (handle_shop_transaction_request task)
  unfolding handle_shop_transaction_request parse_shop_transaction_request
      validate_shop_transaction_request
  handle_shop_transaction_request-Answers task = Answers-bind (parse_request-Quiet _ _ _ _) λ r.
      Answers-bind (Quiet-deref r) λ _.
        Answers-with_request _ _ r (fail_transaction-Answers task _)
          (λ request ok. shop_transaction-Answers task request ok)
