-- ===== src/LockFreeQueue/Enqueue.antt =====
-- LockFreeQueue.h: enqueue, a shared access at a time.
use game_database_server.Prelude.{ℕ, suc, Option, none, some, ◌==◌, if◌then◌else◌}
use game_database_server.LockFreeQueue.Memory.{Node, Memory, store_at, swing_tail}

-- Where a thread stands in enqueue, with its local variables.
pub data Producer : Type 0 where
  -- outside of the method
  idle : Producer
  -- before `tail_.load()` at the head of the loop
  at_tail : (node : ℕ) → Producer
  -- before `last->next.load()`
  at_next : (node last : ℕ) → Producer
  -- before the test `last == tail_.load()`
  at_check : (node last : ℕ) → (next : Option ℕ) → Producer
  -- before the exchange on `last->next`, where `next` is null
  at_link : (node last : ℕ) → Producer
  -- before the exchange on `tail_` where `next` is not null
  at_help : (node last next : ℕ) → Producer
  -- before the exchange on `tail_` that follows the link
  at_swing : (node last : ℕ) → Producer
  -- a deleted node was read
  fault : Producer

abbrev pub branch : (node last : ℕ) → Option ℕ → Producer
branch node last none = Producer.at_link node last
branch node last (some next) = Producer.at_help node last next

module _ {A : Type 0} where
  -- `new Node`, `new T(item)` and the store: nobody else sees them.
  abbrev pub allocate : A → Memory A → Memory A
  allocate item m = record m {
    nodes = store_at m.fresh (some (record { data_at = some m.fresh; next = none })) m.nodes;
    values = store_at m.fresh (some item) m.values;
    fresh = suc m.fresh;
  }

  abbrev pub load_next : (node last : ℕ) → Option Node → Memory A → Memory A × Producer
  load_next node last none m = (m, Producer.fault)
  load_next node last (some n) m = (m, Producer.at_check node last n.next)

  -- compare_exchange_weak(next, new_node) on `last->next`, where `next` is null
  abbrev pub link : (node last : ℕ) → Option Node → Memory A → Memory A × Producer
  link node last none m = (m, Producer.fault)
  link node last (some n) m = elim n.next [
    | none ↦ (
      record m { nodes = store_at last (some (record n { next = some node })) m.nodes },
      Producer.at_swing node last,
    )
    | some a ↦ (m, Producer.at_tail node)
  ]

  -- One access of a thread; from `idle` it calls enqueue with the item.
  unfoldable pub enqueue_step : A → Memory A → Producer → Memory A × Producer
  enqueue_step item m Producer.idle = (allocate item m, Producer.at_tail m.fresh)
  enqueue_step item m (Producer.at_tail node) = (m, Producer.at_next node m.tail)
  enqueue_step item m (Producer.at_next node last) = load_next node last (m.nodes last) m
  enqueue_step item m (Producer.at_check node last next) =
      (m, (if last == m.tail then branch node last next else Producer.at_tail node))
  enqueue_step item m (Producer.at_link node last) = link node last (m.nodes last) m
  enqueue_step item m (Producer.at_help node last next) =
      (swing_tail last next m, Producer.at_tail node)
  enqueue_step item m (Producer.at_swing node last) = (swing_tail last node m, Producer.idle)
  enqueue_step item m Producer.fault = (m, Producer.fault)
