-- ===== src/Database/Respond.antt =====
-- DatabaseThread.cpp, SendResponse and SendErrorResponse, and the shapes that its handlers share.
use game_database_server.Prelude.{
  ℕ, Bool, true, false, List, [], ◌∷◌, Option, none, some, String, if◌then◌else◌,
}
use game_database_server.Packet.{Task, DbResponse}
use game_database_server.Packet.EventType.{EventType}
use game_database_server.Packet.ResultCode.{ResultCode}
use game_database_server.Platform.{Platform, Row, ResultSet}
use game_database_server.Action.{Action, pure, deref, ok, ◌>>=◌, ◌>>◌}
use game_database_server.Connector.{
  execute_query, get_result, get_affected_rows, free_result, is_positive,
}
use game_database_server.PacketManager.Defs.{is_empty, cell, stoul_or_throw}
use game_database_server.PacketManager.Errors.{create_generic_error_response}
use game_database_server.PacketManager.Names.{get_result_code_name}
use game_database_server.Database.Sql.{last_insert_id}

-- SendQueue->enqueue
unfoldable pub enqueue : DbResponse → Action (Unit {0})
enqueue r w = (ok tt, record w { sent = r ∷ w.sent })

-- The response that SendResponse puts together.
abbrev pub success_response : Task → List ℕ → DbResponse
success_response task packet = record {
  task_id = task.id;
  client_socket = task.client_socket;
  worker_thread_id = task.worker_thread_id;
  success = true;
  error_message = "";
  affected_rows = 0;
  response_data = packet;
}

-- The response that SendErrorResponse puts together.
abbrev pub error_response : Task → ResultCode → List ℕ → DbResponse
error_response task code packet = record {
  task_id = task.id;
  client_socket = task.client_socket;
  worker_thread_id = task.worker_thread_id;
  success = false;
  error_message = get_result_code_name code;
  affected_rows = 0;
  response_data = packet;
}

unfoldable pub send_response : Task → List ℕ → Action (Unit {0})
send_response task packet =
    if is_empty packet then pure tt else enqueue (success_response task packet)

-- `auto responsePacket = create(...); SendResponse(task, responsePacket);`
abbrev pub respond : Task → Action (List ℕ) → Action (Unit {0})
respond task create = do packet ← create; send_response task packet

-- `if (!request || !validate(request)) { refused; return; } body`
unfoldable pub with_request :
    {A : Type 0}
    → (Option A → Action Bool)
    → Action (Unit {0})
    → (A → Action (Unit {0}))
    → Option A
    → Action (Unit {0})
with_request validate refused body none = refused
with_request validate refused body (some r) = do
  valid ← validate (some r)
  if valid then body r else refused

-- `if (result) { respond; return; } otherwise`
unfoldable pub respond_or :
    Task
    → (Option ResultSet → Action (List ℕ))
    → Action (Unit {0})
    → Option ResultSet
    → Action (Unit {0})
respond_or task create otherwise none = otherwise
respond_or task create otherwise (some r) = respond task (create (some r))

module _ ⦃p : Platform⦄ where
  unfoldable pub send_error_response : Task → EventType → ResultCode → Action (Unit {0})
  send_error_response task type code = do
    packet ← create_generic_error_response type code task.client_socket
    enqueue (error_response task code packet)

  -- `if (ExecuteQuery(text)) result = GetResult();`, null where the query failed
  unfoldable pub select : String → Action (Option ResultSet)
  select text = do done ← execute_query text; if done then get_result else pure none

  -- `ExecuteQuery(text) && GetAffectedRows() > 0`
  unfoldable pub execute_and_affect : String → Action Bool
  execute_and_affect text = do
    done ← execute_query text
    if done then (do n ← get_affected_rows; pure (is_positive n)) else pure false

  -- std::stoul(row[i]), where a null cell is a null pointer
  unfoldable pub stoul_cell : Row → ℕ → Action ℕ
  stoul_cell row i = do c ← cell row i; s ← deref c; stoul_or_throw s

  -- The first row's number, the result freed on both branches; an exception leaves it.
  unfoldable pub id_of_rows : List Row → Action (Option ℕ)
  id_of_rows [] = do free_result; pure none
  id_of_rows (row ∷ rows) = do n ← stoul_cell row 0; free_result; pure (some n)

  unfoldable pub id_of_result : Option ResultSet → Action (Option ℕ)
  id_of_result none = pure none
  id_of_result (some r) = id_of_rows r.rows

  -- The insertion of HandleCreateAccountRequest and HandleCreateGameServerRequest with the query
  -- for the new id; `none` where either fails.
  unfoldable pub insert_and_get_id : String → Action (Option ℕ)
  insert_and_get_id text = do
    inserted ← execute_and_affect text
    if inserted then (do r ← select last_insert_id; id_of_result r) else pure none
