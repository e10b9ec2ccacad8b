-- ===== src/Database/Traffic/Tasks.antt =====
-- ProcessTask and the round of Run: how many responses a task causes.
use game_database_server.Prelude.{
  ℕ, ◌≡◌, ◌≢◌, refl, ◌⊎◌, inl, inr, Bool, true, false, List, ◌∷◌, String, Bool-cases,
}
use game_database_server.Packet.{Task, DbResponse}
use game_database_server.Packet.EventType.{EventType}
use game_database_server.Packet.ResultCode.{ResultCode}
use game_database_server.Platform.{Platform}
use game_database_server.Action
use game_database_server.Action.{World, Outcome, ok, thrown, crash, pure, try_catch, ◌>>=◌}
use game_database_server.Action.Traffic.{Answers, Replied, Quiet-pure}
use game_database_server.Action.Once.{
  AtMostOne, AnswersOnceAtMost, Quiet-AnswersOnceAtMost, Answers-AnswersOnceAtMost,
  AnswersOnceAtMost-bind, AnswersOnceAtMost-if, caught-AtMostOne, caught-once,
}
use game_database_server.Connector.{is_connected}
use game_database_server.PacketManager.Defs.{
  set_error, is_empty, type_of, verify_packet, is_valid_packet, get_packet_type,
}
use game_database_server.PacketManager.Errors.{create_generic_error_response}
use game_database_server.Database.Session.{check_db_connection, is_usable}
use game_database_server.Database.Tasks.{
  is_disconnect, dispatch, process_packet, process_task, run_task,
}
use game_database_server.Database.Respond.{enqueue, send_error_response}
use game_database_server.Database.Traffic.Calls.{is_valid_packet-Quiet, get_packet_type-Quiet}
use game_database_server.Database.Traffic.Packets.{Builds}
use game_database_server.Database.Traffic.Steps.{
  is_usable-Quiet, send_error_response-Answers, handle_client_disconnected-Quiet,
}
use game_database_server.Database.Traffic.Accounts.{
  handle_login_request-Answers, handle_logout_request-Answers,
  handle_create_account_request-Answers,
}
use game_database_server.Database.Traffic.Players.{
  handle_player_data_request-Answers, handle_item_data_request-Answers,
  handle_monster_data_request-Answers, handle_player_chat_request-Answers,
  handle_save_player_data_request-Answers,
}
use game_database_server.Database.Traffic.Servers.{
  handle_create_game_server_request-Answers, handle_game_server_list_request-Answers,
  handle_join_game_server_request-Answers, handle_close_game_server_request-Answers,
}
use game_database_server.Database.Traffic.Shops.{
  handle_shop_list_request-Answers, handle_shop_items_request-Answers,
  handle_shop_transaction_request-Answers,
}

-- The types that the switch of ProcessTask has a case for.
abbrev pub is_request : EventType → Bool
is_request EventType.c2s_login = true
is_request EventType.c2s_logout = true
is_request EventType.c2s_create_account = true
is_request EventType.c2s_player_data = true
is_request EventType.c2s_item_data = true
is_request EventType.c2s_monster_data = true
is_request EventType.c2s_player_chat = true
is_request EventType.c2s_shop_list = true
is_request EventType.c2s_shop_items = true
is_request EventType.c2s_shop_transaction = true
is_request EventType.c2s_create_game_server = true
is_request EventType.c2s_game_server_list = true
is_request EventType.c2s_join_game_server = true
is_request EventType.c2s_close_game_server = true
is_request EventType.c2s_save_player_data = true
is_request _ = false

-- What a task needs to reach its handler while the database is connected.
pub record IsPacket ⦃p : Platform⦄ (task : Task) : Type 0 where
  pub of_client : is_disconnect task.type ≡ false
  pub no_query : task.query ≡ ""
  pub has_data : is_empty task.flatbuffer_data ≡ false
  pub verified : p.verify_buffer task.flatbuffer_data ≡ true
  pub requests : is_request (type_of (p.get_database_packet task.flatbuffer_data)) ≡ true

module _ ⦃p : Platform⦄ (works : Builds p) where
  dispatch-Answers :
      (type : EventType) (task : Task)
      → is_request type ≡ true
      → Answers task.client_socket (dispatch type task)
  unfolding dispatch
  dispatch-Answers EventType.c2s_login task h = handle_login_request-Answers works task
  dispatch-Answers EventType.c2s_logout task h = handle_logout_request-Answers works task
  dispatch-Answers EventType.c2s_create_account task h =
      handle_create_account_request-Answers works task
  dispatch-Answers EventType.c2s_player_data task h = handle_player_data_request-Answers works task
  dispatch-Answers EventType.c2s_item_data task h = handle_item_data_request-Answers works task
  dispatch-Answers EventType.c2s_monster_data task h =
      handle_monster_data_request-Answers works task
  dispatch-Answers EventType.c2s_player_chat task h = handle_player_chat_request-Answers works task
  dispatch-Answers EventType.c2s_shop_list task h = handle_shop_list_request-Answers works task
  dispatch-Answers EventType.c2s_shop_items task h = handle_shop_items_request-Answers works task
  dispatch-Answers EventType.c2s_shop_transaction task h =
      handle_shop_transaction_request-Answers works task
  dispatch-Answers EventType.c2s_create_game_server task h =
      handle_create_game_server_request-Answers works task
  dispatch-Answers EventType.c2s_game_server_list task h =
      handle_game_server_list_request-Answers works task
  dispatch-Answers EventType.c2s_join_game_server task h =
      handle_join_game_server_request-Answers works task
  dispatch-Answers EventType.c2s_close_game_server task h =
      handle_close_game_server_request-Answers works task
  dispatch-Answers EventType.c2s_save_player_data task h =
      handle_save_player_data_request-Answers works task
  dispatch-Answers _ task h = cc

module _ ⦃p : Platform⦄ where
  process_task-eq-dispatch :
      (task : Task) (w : World)
      → IsPacket task
      → is_connected w ≡ true
      → process_task task w ≡ dispatch (type_of (p.get_database_packet task.flatbuffer_data)) task w
  unfolding process_task process_packet is_usable check_db_connection is_valid_packet
      get_packet_type verify_packet ◌>>=◌
  process_task-eq-dispatch task w h c = rw (h.of_client, h.no_query, h.has_data, c, h.verified)

module _ ⦃p : Platform⦄ where
  dispatch_other :
      (type : EventType) (task : Task) → is_request type ≡ false → dispatch type task ≡ pure tt
  unfolding dispatch
  dispatch_other EventType.c2s_login task h = cc
  dispatch_other EventType.c2s_logout task h = cc
  dispatch_other EventType.c2s_create_account task h = cc
  dispatch_other EventType.c2s_player_data task h = cc
  dispatch_other EventType.c2s_item_data task h = cc
  dispatch_other EventType.c2s_monster_data task h = cc
  dispatch_other EventType.c2s_player_chat task h = cc
  dispatch_other EventType.c2s_shop_list task h = cc
  dispatch_other EventType.c2s_shop_items task h = cc
  dispatch_other EventType.c2s_shop_transaction task h = cc
  dispatch_other EventType.c2s_create_game_server task h = cc
  dispatch_other EventType.c2s_game_server_list task h = cc
  dispatch_other EventType.c2s_join_game_server task h = cc
  dispatch_other EventType.c2s_close_game_server task h = cc
  dispatch_other EventType.c2s_save_player_data task h = cc
  dispatch_other _ task h = refl

  -- The handler of Run does not throw: for the type NONE there is no packet to build.
  pub run_task_returns :
      (task : Task) (w : World) (what : String) → (run_task task w).0 ≢ thrown what
  unfolding run_task try_catch send_error_response create_generic_error_response set_error enqueue
      ◌>>=◌
  run_task_returns task w what = returns (process_task task w).0 (process_task task w).1
    where
      returns :
          (r : Outcome (Unit {0})) (v : World)
          → (Action.handle r (λ _. send_error_response task EventType.none ResultCode.fail) v).0
            ≢ thrown what
      returns (ok u) v h = cc
      returns (thrown _) v h = cc
      returns crash v h = cc

-- One answer, or the end of the process.
once_or_crash :
    {s : ℕ} (r : Outcome (Unit {0})) (before after : List DbResponse)
    → ((what : String) → r ≢ thrown what)
    → Replied s r before after
    → (r ≡ crash) ⊎ ((a : DbResponse) × (a.client_socket ≡ s) × (after ≡ a ∷ before))
once_or_crash (ok u) before after n h = inr h
once_or_crash (thrown what) before after n h = absurd (n what refl)
once_or_crash crash before after n h = inl refl

module _ ⦃p : Platform⦄ (works : Builds p) where
  error-Answers :
      (task : Task)
      → Answers task.client_socket (send_error_response task EventType.none ResultCode.fail)
  error-Answers task = send_error_response-Answers works task EventType.none ResultCode.fail

  run_task-Replied :
      (task : Task) (w : World)
      → IsPacket task
      → is_connected w ≡ true
      → Replied task.client_socket (run_task task w).0 w.sent (run_task task w).1.sent
  unfolding run_task try_catch
  run_task-Replied task w h c =
      rw (process_task-eq-dispatch task w h c)
        (caught-once w (dispatch-Answers works _ task h.requests) (λ _. error-Answers task))

  -- Where FlatBuffers builds its packets and the database is connected, a task with a verified
  -- packet of one of the fifteen request types puts exactly one response into SendQueue, for the
  -- socket of the task, whatever the database answers and also where the handler throws; the only
  -- exception is undefined behaviour in the handler.
  pub run_task-answers_once :
      (task : Task) (w : World)
      → IsPacket task
      → is_connected w ≡ true
      → ((run_task task w).0 ≡ crash)
        ⊎ ((r : DbResponse) × (r.client_socket ≡ task.client_socket)
            × ((run_task task w).1.sent ≡ r ∷ w.sent))
  run_task-answers_once task w h c =
      once_or_crash (run_task task w).0 w.sent (run_task task w).1.sent (run_task_returns task w)
        (run_task-Replied task w h c)

  dispatch-AnswersOnceAtMost :
      (type : EventType) (task : Task) → AnswersOnceAtMost task.client_socket (dispatch type task)
  dispatch-AnswersOnceAtMost type task = elim (Bool-cases (is_request type)) [
    | inl h ↦ Answers-AnswersOnceAtMost (dispatch-Answers works type task h)
    | inr h ↦ rw (dispatch_other type task h) (Quiet-AnswersOnceAtMost (Quiet-pure tt))
  ]

  process_task-AnswersOnceAtMost :
      (task : Task) → AnswersOnceAtMost task.client_socket (process_task task)
  unfolding process_task process_packet
  process_task-AnswersOnceAtMost task =
      search
        (
          AnswersOnceAtMost-if, AnswersOnceAtMost-bind, dispatch-AnswersOnceAtMost, is_usable-Quiet,
          is_valid_packet-Quiet, get_packet_type-Quiet, Quiet-AnswersOnceAtMost, Quiet-pure,
          handle_client_disconnected-Quiet,
        )
        depth 10

  -- Any task, in any state, causes at most one response, and only to its own socket.
  pub run_task-AtMostOne :
      (task : Task) (w : World) → AtMostOne task.client_socket w.sent (run_task task w).1.sent
  unfolding run_task
  run_task-AtMostOne task w =
      caught-AtMostOne w (process_task-AnswersOnceAtMost task) (λ _. error-Answers task)
