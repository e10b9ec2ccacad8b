-- ===== src/Worker/Clients.antt =====
-- WorkerThread: its fields, AddClient, RemoveSocketFromList and HasClient.
use game_database_server.Prelude.{
  ℕ, zero, suc, ◌+◌, ◌-◌, Bool, true, false, List, [], ◌∷◌, Option, none, some, leb, ◌==◌,
  if◌then◌else◌,
}
use game_database_server.Packet.{Task, TaskType, disconnect_task}

-- SocketNode; a pointer is an address, and a null pointer is `none`.
pub record SocketNode : Type 0 where
  pub socket : ℕ
  pub next : Option ℕ

-- What stands at an address; `none` where nothing has been allocated or the node was deleted.
abbrev pub Heap : Type 0
Heap = ℕ → Option SocketNode

pub record WorkerThread : Type 0 where
  pub do_thread : Bool
  pub head : Option ℕ
  pub tail : Option ℕ
  pub client_count : ℕ
  -- Whether _task_queue is not null.
  pub has_queue : Bool
  pub heap : Heap
  -- The address of the next node.
  pub fresh : ℕ
  -- What was put into the task queue, and the sockets that were closed, the newest first.
  pub tasks : List Task
  pub closed : List ℕ

abbrev pub max_client_count : ℕ
max_client_count = 50

abbrev pub write : ℕ → Option SocketNode → Heap → Heap
write a n h b = if b == a then n else h b

abbrev pub set_next : Option ℕ → Option SocketNode → Option SocketNode
set_next next none = none
set_next next (some n) = some (record n { next = next })

abbrev pub no_node : Heap
no_node a = none

-- The second constructor: one node, and both ends point to it.
unfoldable pub new_worker : Bool → ℕ → WorkerThread
new_worker has_queue client_socket = record {
  do_thread = true;
  head = some 0;
  tail = some 0;
  client_count = 1;
  has_queue = has_queue;
  heap = write 0 (some (record { socket = client_socket; next = none })) no_node;
  fresh = 1;
  tasks = [];
  closed = [];
}

unfoldable pub is_full_access : WorkerThread → Bool
is_full_access w = leb max_client_count w.client_count

unfoldable pub stop_thread : WorkerThread → WorkerThread
stop_thread w = record w { do_thread = false }

-- closesocket
unfoldable pub close_socket : ℕ → WorkerThread → WorkerThread
close_socket s w = record w { closed = s ∷ w.closed }

-- `new SocketNode(s)`, at the address `w.fresh`
unfoldable pub new_node : ℕ → WorkerThread → WorkerThread
new_node s w = record w {
  heap = write w.fresh (some (record { socket = s; next = none })) w.heap;
  fresh = suc w.fresh;
}

-- The branch for a null tail: the node that was made before is forgotten, and the count is set.
unfoldable pub add_first : ℕ → WorkerThread → WorkerThread
unfolding new_node
add_first s w = record (new_node s w) { head = some w.fresh; tail = some w.fresh; client_count = 1 }

-- A round for the tail `t`: the new node is put behind it where nothing is, else the tail moves on.
abbrev pub add_behind :
    (WorkerThread → Option WorkerThread)
    → (t node : ℕ) → Option SocketNode
    → WorkerThread
    → Option WorkerThread
add_behind again t node none w = none
add_behind again t node (some n) w = elim n.next [
  | none ↦ some (record w {
    heap = write t (some (record n { next = some node })) w.heap;
    tail = some node;
    client_count = w.client_count + 1;
  })
  | some m ↦ again (record w { tail = some m })
]

-- The loop of AddClient, with fuel. Here and below `none` means that the fuel ran out or that a
-- pointer to no node was followed.
unfoldable pub add_loop : ℕ → ℕ → ℕ → WorkerThread → Option WorkerThread
unfolding add_first
add_loop zero s node w = none
add_loop (suc fuel) s node w = elim w.tail [
  | none ↦ some (add_first s w)
  | some t ↦ add_behind (add_loop fuel s node) t node (w.heap t) w
]

-- A round that does not end moves the tail one node on, and the list has client_count nodes.
unfoldable pub add_client : ℕ → WorkerThread → Option WorkerThread
unfolding is_full_access close_socket new_node add_loop
add_client s w =
    if is_full_access w
    then some (close_socket s w)
    else add_loop (suc (suc w.client_count)) s w.fresh (new_node s w)

-- What both branches of RemoveSocketFromList do behind the exchange: the task for the database
-- thread, the socket, the node and the count.
unfoldable pub finish_removal : ℕ → ℕ → WorkerThread → WorkerThread
finish_removal s a w = record w {
  tasks = if w.has_queue then disconnect_task s TaskType.client_disconnected ∷ w.tasks else w.tasks;
  closed = s ∷ w.closed;
  heap = write a none w.heap;
  client_count = w.client_count - 1;
}

abbrev pub is_address : ℕ → Option ℕ → Bool
is_address a none = false
is_address a (some b) = a == b

abbrev pub is_null : Option ℕ → Bool
is_null none = true
is_null (some a) = false

-- The first node is taken out, or one behind `prev`.
unfoldable pub unlink : (prev : Option ℕ) → (a : ℕ) → Option ℕ → WorkerThread → WorkerThread
unlink none a next w = record w { head = next; tail = if is_null next then none else w.tail }
unlink (some b) a next w = record w {
  heap = write b (set_next next (w.heap b)) w.heap;
  tail = if is_address a w.tail then some b else w.tail;
}

-- The loop of RemoveSocketFromList, with fuel.
unfoldable pub remove_loop : ℕ → ℕ → (prev current : Option ℕ) → WorkerThread → Option WorkerThread
unfolding finish_removal unlink
remove_loop zero s prev current w = none
remove_loop (suc fuel) s prev none w = some w
remove_loop (suc fuel) s prev (some a) w = elim (w.heap a) [
  | none ↦ none
  | some n ↦
      let rest = remove_loop fuel s (some a) n.next w in
      if n.socket == s then some (finish_removal n.socket a (unlink prev a n.next w)) else rest
]

unfoldable pub remove_socket_from_list : ℕ → WorkerThread → Option WorkerThread
unfolding remove_loop
remove_socket_from_list s w = remove_loop (suc w.client_count) s none w.head w

-- The loop of HasClient, with fuel.
unfoldable pub has_loop : ℕ → ℕ → Option ℕ → Heap → Option Bool
has_loop zero s current h = none
has_loop (suc fuel) s none h = some false
has_loop (suc fuel) s (some a) h = elim (h a) [
  | none ↦ none
  | some n ↦ let rest = has_loop fuel s n.next h in if n.socket == s then some true else rest
]

unfoldable pub has_client : ℕ → WorkerThread → Option Bool
unfolding has_loop
has_client s w = has_loop (suc w.client_count) s w.head w.heap
