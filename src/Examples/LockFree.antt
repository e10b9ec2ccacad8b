-- ===== src/Examples/LockFree.antt =====
-- The theorems on the lock-free queue, for one producer that puts in 5.
use game_database_server.Prelude.{
  length, ◌+◌, ◌==◌, ℕ, zero, suc, ◌≡◌, ◌≢◌, refl, ◌⊎◌, List, [], ◌∷◌, ◌++◌, none, some, arith,
}
use game_database_server.LockFreeQueue.Memory.{size, empty, Memory, new_queue, Destroyed, destroy}
use game_database_server.LockFreeQueue.Enqueue.{Producer, enqueue_step}
use game_database_server.LockFreeQueue.Dequeue.{Consumer, dequeue_step}
use game_database_server.LockFreeQueue.Threads.{
  Threads, produce, consume, new_threads, producing, consuming, Reach, created, later,
}
use game_database_server.LockFreeQueue.Invariant.{IsPrefix}
use game_database_server.LockFreeQueue.OneProducer.{IsSound, Reach-IsSound, Reach-IsPrefix}
use game_database_server.LockFreeQueue.Sizes.{size-counts}
use game_database_server.LockFreeQueue.TwoProducers.{enqueue_faults}
use game_database_server.LockFreeQueue.Progress.{alone, dequeue-ends}
use game_database_server.LockFreeQueue.History.{LastTaken}
use game_database_server.LockFreeQueue.Destruction.{destroy-deletes_twice}

-- So many accesses of the producer, and then of the consumer.
abbrev produced : ℕ → Threads ℕ → Threads ℕ
produced zero t = t
produced (suc n) t = produce 0 5 (produced n t)

abbrev consumed : ℕ → Threads ℕ → Threads ℕ
consumed zero t = t
consumed (suc n) t = consume (consumed n t)

Reach-produced : (n : ℕ) {t : Threads ℕ} → Reach 1 t → Reach 1 (produced n t)
Reach-produced zero r = r
Reach-produced (suc n) r = later (Reach-produced n r) (producing 0 5 (omega arith))

Reach-consumed : (n : ℕ) {t : Threads ℕ} → Reach 1 t → Reach 1 (consumed n t)
Reach-consumed zero r = r
Reach-consumed (suc n) r = later (Reach-consumed n r) consuming

-- A whole call of enqueue; then dequeue up to its return.
abbrev filled : Threads ℕ
filled = produced 6 new_threads

abbrev drained : Threads ℕ
drained = consumed 7 filled

Reach-filled : Reach 1 filled
Reach-filled = Reach-produced 6 created

Reach-drained : Reach 1 drained
Reach-drained = Reach-consumed 7 Reach-filled

Reach-IsSound_example : IsSound drained
Reach-IsSound_example = Reach-IsSound Reach-drained

Reach-IsPrefix_example :
    (drained.producers 0 ≢ Producer.fault)
    × (drained.consumer ≢ Consumer.fault)
    × IsPrefix drained.got drained.put
Reach-IsPrefix_example = Reach-IsPrefix Reach-drained

enqueue_faults_example : (t : Threads ℕ) × Reach 2 t × (t.producers 0 ≡ Producer.fault)
enqueue_faults_example = enqueue_faults 5 6

dequeue-ends_example :
    ((filled.put ≡ filled.got)
      × ((alone 4 (filled.memory, Consumer.start)).1 ≡ Consumer.returned none))
    ⊎ ((v : ℕ) × (rest : List ℕ) × (filled.put ≡ filled.got ++ v ∷ rest)
        × ((alone 7 (filled.memory, Consumer.start)).1 ≡ Consumer.returned (some v)))
unfolding produce new_threads new_queue enqueue_step
dequeue-ends_example = dequeue-ends Reach-filled refl refl

destroy-deletes_twice_example :
    ((drained.got ≡ []) × ((m : Memory ℕ) × (destroy drained.memory ≡ Destroyed.finished m)))
    ⊎ ((d : ℕ) × (LastTaken drained d
          × (destroy drained.memory ≡ Destroyed.item_deleted_again (some d))))
unfolding produce consume new_threads new_queue enqueue_step dequeue_step
destroy-deletes_twice_example = destroy-deletes_twice (some 5) Reach-drained refl refl

-- One item is in the queue.
size-counts_example :
    (n : ℕ) × (size filled.memory ≡ some n)
    × (length filled.put ≡ length filled.got + n)
    × (empty filled.memory ≡ (n == 0))
unfolding produce new_threads new_queue enqueue_step
size-counts_example = size-counts Reach-filled refl refl
