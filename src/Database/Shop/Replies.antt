-- ===== src/Database/Shop/Replies.antt =====
-- The three kinds of response to a shop transaction, as the states that they leave.
use game_database_server.Prelude.{ℕ, ◌≡◌, some, String}
use game_database_server.Packet.{Task}
use game_database_server.Packet.ResultCode.{ResultCode}
use game_database_server.Packet.Event.{Event, s2c_shop_transaction}
use game_database_server.Platform.{Platform}
use game_database_server.Action.{World, ok, ◌>>=◌}
use game_database_server.PacketManager.Build.{create_shop_transaction_response}
use game_database_server.PacketManager.Errors.{
  create_generic_error_response, create_shop_transaction_error_response,
}
use game_database_server.Database.Respond.{enqueue, send_response, send_error_response}
use game_database_server.Database.Traffic.{Builds}
use game_database_server.Database.Reply.{buffer, answered, answered_error, create_response_lem}
use game_database_server.Database.Shop.{fail_transaction, refuse_transaction, confirm_transaction}

-- The response with its three fields.
abbrev pub transaction_event : ResultCode → (message : String) (gold : ℕ) → Event
transaction_event code message gold =
    s2c_shop_transaction
      (some (record { result = code; message = some message; updated_gold = gold }))

module _ ⦃p : Platform⦄ (works : Builds p) where
  pub refuse_transaction_lem :
      (task : Task) (code : ResultCode) (message : String) (w : World)
      → refuse_transaction task code message w
        ≡ (ok tt, answered works task (transaction_event code message 0) w)
  unfolding refuse_transaction send_response enqueue buffer create_shop_transaction_response
      create_shop_transaction_error_response ◌>>=◌
  refuse_transaction_lem task code message w = rw (create_response_lem works _ _ _ _)

  pub confirm_transaction_lem :
      (task : Task) (message : String) (gold : ℕ) (w : World)
      → confirm_transaction task message gold w
        ≡ (ok tt, answered works task (transaction_event ResultCode.success message gold) w)
  unfolding confirm_transaction send_response enqueue buffer create_shop_transaction_response ◌>>=◌
  confirm_transaction_lem task message gold w = rw (create_response_lem works _ _ _ _)

  pub fail_transaction_lem :
      (task : Task) (code : ResultCode) (w : World)
      → fail_transaction task code w
        ≡ (ok tt, answered_error works task code (transaction_event code "Generic error" 0) w)
  unfolding fail_transaction send_error_response create_generic_error_response enqueue buffer
      create_shop_transaction_response create_shop_transaction_error_response ◌>>=◌
  fail_transaction_lem task code w = rw (create_response_lem works _ _ _ _)
