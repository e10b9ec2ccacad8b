-- ===== src/LockFreeQueue/Threads.antt =====
-- The threads of a queue: several that enqueue and one that dequeues, interleaved in any order.
-- RecvPakets has the workers as producers and the database thread as consumer; SendPackets has the
-- database thread as its only producer and the server's response thread as consumer.
use game_database_server.Prelude.{ℕ, ◌<◌, List, [], ◌∷◌, ◌++◌, some, ◌==◌, if◌then◌else◌}
use game_database_server.LockFreeQueue.Memory.{Memory, new_queue}
use game_database_server.LockFreeQueue.Enqueue.{Producer, enqueue_step}
use game_database_server.LockFreeQueue.Dequeue.{Consumer, dequeue_step}

abbrev pub update : {B : Type 0} → (ℕ → B) → ℕ → B → ℕ → B
update f i b j = if j == i then b else f j

-- The memory and where each thread stands, with the items that enqueue was called with and those
-- that dequeue returned, the oldest first.
pub record Threads (A : Type 0) : Type 0 where
  pub memory : Memory A
  pub producers : ℕ → Producer
  pub consumer : Consumer A
  pub put : List A
  pub got : List A

module _ {A : Type 0} where
  abbrev pub called : A → Producer → List A
  called item Producer.idle = item ∷ []
  called item _ = []

  abbrev pub item_of : Consumer A → List A
  item_of (Consumer.returned (some v)) = v ∷ []
  item_of _ = []

  -- The access of the producer `i`, which calls enqueue with the item where it is idle.
  unfoldable pub produce : ℕ → A → Threads A → Threads A
  produce i item t =
      let after = enqueue_step item t.memory (t.producers i) in
      record t {
        memory = after.0;
        producers = update t.producers i after.1;
        put = t.put ++ called item (t.producers i);
      }

  unfoldable pub consume : Threads A → Threads A
  consume t =
      let after = dequeue_step t.memory t.consumer in
      record t { memory = after.0; consumer = after.1; got = t.got ++ item_of after.1 }

  unfoldable pub new_threads : Threads A
  new_threads = record {
    memory = new_queue;
    producers = λ i. Producer.idle;
    consumer = Consumer.start;
    put = [];
    got = [];
  }

  -- A step of one of `n` producers or of the consumer.
  pub data Step (n : ℕ) (t : Threads A) : Threads A → Type 0 where
    producing : (i : ℕ) (item : A) → i < n → Step n t (produce i item t)
    consuming : Step n t (consume t)

  pub data Reach (n : ℕ) : Threads A → Type 0 where
    created : Reach n new_threads
    later : {t u : Threads A} → Reach n t → Step n t u → Reach n u
