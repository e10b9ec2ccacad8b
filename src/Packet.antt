-- ===== src/Packet.antt =====
-- Common/Packet.h: what the two queues carry. A SOCKET is a number; byte vectors are lists of
-- numbers below 256. The packets' tables, from Common/UserEvent.fbs, stand in the modules below.
pub mod EventType
pub mod ResultCode
pub mod Request
pub mod Response
pub mod Event
pub mod Accessors
use game_database_server.Prelude.{ℕ, ◌^◌, ◌-◌, Bool, true, false, List, [], String}

pub data TaskType : Type 0 where
  query update insert item_delete client_disconnected : TaskType

pub record DbResponse : Type 0 where
  pub task_id : ℕ
  pub client_socket : ℕ
  pub worker_thread_id : ℕ
  pub success : Bool
  pub error_message : String
  pub affected_rows : ℕ
  pub response_data : List ℕ

pub record Task : Type 0 where
  pub id : ℕ
  pub client_socket : ℕ
  pub worker_thread_id : ℕ
  pub type : TaskType
  pub query : String
  pub flatbuffer_data : List ℕ

-- INVALID_SOCKET is ~0 of a 64-bit SOCKET.
abbrev pub invalid_socket : ℕ
invalid_socket = 2 ^ 64 - 1

-- DBResponse()
abbrev pub empty_response : DbResponse
empty_response = record {
  task_id = 0;
  client_socket = invalid_socket;
  worker_thread_id = 0;
  success = false;
  error_message = "";
  affected_rows = 0;
  response_data = [];
}

-- Task(sock, thread_id, data, size)
abbrev pub packet_task : ℕ → ℕ → List ℕ → Task
packet_task sock thread_id bytes = record {
  id = 0;
  client_socket = sock;
  worker_thread_id = thread_id;
  type = TaskType.query;
  query = "";
  flatbuffer_data = bytes;
}

-- Task(sock, disconnect_type)
abbrev pub disconnect_task : ℕ → TaskType → Task
disconnect_task sock disconnect_type = record {
  id = 0;
  client_socket = sock;
  worker_thread_id = 0;
  type = disconnect_type;
  query = "";
  flatbuffer_data = [];
}
