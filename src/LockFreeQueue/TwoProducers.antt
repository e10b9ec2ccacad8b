-- ===== src/LockFreeQueue/TwoProducers.antt =====
-- Two producers and one consumer, as RecvPakets has with two workers.
use game_database_server.Prelude.{ℕ, ◌<◌, ◌≡◌, refl, arith}
use game_database_server.LockFreeQueue.Memory.{new_queue}
use game_database_server.LockFreeQueue.Enqueue.{Producer, enqueue_step}
use game_database_server.LockFreeQueue.Dequeue.{dequeue_step}
use game_database_server.LockFreeQueue.Threads.{
  Threads, produce, consume, new_threads, producing, consuming, Reach, created, later,
}

module _ {A : Type 0} where
  enqueues :
      {n : ℕ} {t : Threads A} (i : ℕ) (item : A) → i < n → Reach n t → Reach n (produce i item t)
  enqueues i item h r = later r (producing i item h)

  dequeues : {n : ℕ} {t : Threads A} → Reach n t → Reach n (consume t)
  dequeues r = later r consuming

  -- For any two items there is an interleaving of two calls of enqueue with one of dequeue in which
  -- enqueue reads a node that dequeue has deleted: the first producer has loaded `tail_`, the
  -- second puts its item in, and the consumer takes it out.
  pub enqueue_faults : (x y : A) → (t : Threads A) × Reach 2 t × (t.producers 0 ≡ Producer.fault)
  unfolding produce consume enqueue_step dequeue_step new_threads new_queue
  enqueue_faults x y = (
    _,
    enqueues 0 x (omega arith) (
        dequeues (
          dequeues (
            dequeues (
              dequeues (
                dequeues (
                  dequeues (
                    dequeues (
                      enqueues 1 y (omega arith) (
                        enqueues 1 y (omega arith) (
                          enqueues 1 y (omega arith) (
                            enqueues 1 y (omega arith) (
                              enqueues 1 y (omega arith) (
                                enqueues 1 y (omega arith) (
                                  enqueues 0 x (omega arith)
                                    (enqueues 0 x (omega arith) created))))))))))))))),
    refl,
  )
