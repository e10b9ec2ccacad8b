-- ===== src/LockFreeQueue/Dequeue.antt =====
-- LockFreeQueue.h: dequeue, a shared access at a time.
use game_database_server.Prelude.{ℕ, Option, none, some, ◌==◌, if◌then◌else◌}
use game_database_server.LockFreeQueue.Memory.{Node, Memory, store_at, swing_tail}

-- Where a thread stands in dequeue, with its local variables.
pub data Consumer (A : Type 0) : Type 0 where
  -- before `head_.load()` at the head of the loop
  start : Consumer A
  -- before `tail_.load()`
  at_tail : (first : ℕ) → Consumer A
  -- before `first->next.load()`
  at_next : (first last : ℕ) → Consumer A
  -- before the test `first == head_.load()`
  at_check : (first last : ℕ) → (next : Option ℕ) → Consumer A
  -- before the exchange on `tail_`
  at_help : (last next : ℕ) → Consumer A
  -- before `next->data.load()`
  at_data : (first next : ℕ) → Consumer A
  -- before the exchange on `head_`
  at_swing : (first next value : ℕ) → Consumer A
  -- before the item is copied and the two are deleted
  at_take : (first value : ℕ) → Consumer A
  -- the method has returned: false as `none`, true with the item
  returned : Option A → Consumer A
  -- deleted memory was read, or was deleted again
  fault : Consumer A

module _ {A : Type 0} where
  abbrev pub load_first_next : (first last : ℕ) → Option Node → Consumer A
  load_first_next first last none = Consumer.fault
  load_first_next first last (some n) = Consumer.at_check first last n.next

  -- The branches for `first == last` and for other nodes.
  abbrev pub only_dummy : ℕ → Option ℕ → Consumer A
  only_dummy last none = Consumer.returned none
  only_dummy last (some next) = Consumer.at_help last next

  abbrev pub more_nodes : ℕ → Option ℕ → Consumer A
  more_nodes first none = Consumer.start
  more_nodes first (some next) = Consumer.at_data first next

  abbrev pub read_pointer : (first next : ℕ) → Option ℕ → Consumer A
  read_pointer first next none = Consumer.start
  read_pointer first next (some value) = Consumer.at_swing first next value

  abbrev pub read_data : (first next : ℕ) → Option Node → Consumer A
  read_data first next none = Consumer.fault
  read_data first next (some n) = read_pointer first next n.data_at

  -- `result = *data; delete data; delete first;`
  abbrev pub take_item :
      (first value : ℕ) → Option A → Option Node → Memory A → Memory A × Consumer A
  take_item first value none n m = (m, Consumer.fault)
  take_item first value (some v) none m = (m, Consumer.fault)
  take_item first value (some v) (some n) m = (
    record m { values = store_at value none m.values; nodes = store_at first none m.nodes },
    Consumer.returned (some v),
  )

  -- One access of a thread; where dequeue has returned it is called again.
  unfoldable pub dequeue_step : Memory A → Consumer A → Memory A × Consumer A
  dequeue_step m Consumer.start = (m, Consumer.at_tail m.head)
  dequeue_step m (Consumer.at_tail first) = (m, Consumer.at_next first m.tail)
  dequeue_step m (Consumer.at_next first last) = (m, load_first_next first last (m.nodes first))
  dequeue_step m (Consumer.at_check first last next) = (
    m,
    (if first == m.head
        then (if first == last then only_dummy last next else more_nodes first next)
        else Consumer.start),
  )
  dequeue_step m (Consumer.at_help last next) = (swing_tail last next m, Consumer.start)
  dequeue_step m (Consumer.at_data first next) = (m, read_data first next (m.nodes next))
  dequeue_step m (Consumer.at_swing first next value) =
      if m.head == first
      then (record m { head = next }, Consumer.at_take first value)
      else (m, Consumer.start)
  dequeue_step m (Consumer.at_take first value) =
      take_item first value (m.values value) (m.nodes first) m
  dequeue_step m (Consumer.returned result) = (m, Consumer.start)
  dequeue_step m Consumer.fault = (m, Consumer.fault)
