-- ===== src/LockFreeQueue/Sizes.antt =====
-- LockFreeQueue::size and empty, between the calls of one producer and one consumer.
use game_database_server.Prelude.{
  ℕ, zero, suc, ◌+◌, ◌-◌, ◌≤◌, ◌<◌, ◌≡◌, refl, subst, false, List, ◌==◌, Option, none, some, length,
  arith,
}
use game_database_server.LockFreeQueue.Memory.{Memory, empty, count_from, size}
use game_database_server.LockFreeQueue.Enqueue.{Producer}
use game_database_server.LockFreeQueue.Dequeue.{Consumer}
use game_database_server.LockFreeQueue.Threads.{Threads, Reach}
use game_database_server.LockFreeQueue.Invariant.{datum, Linked, Settled, Enqueuing, Dequeuing}
use game_database_server.LockFreeQueue.OneProducer.{Reach-IsSound}

module _ {A : Type 0} where
  -- From the node at `a` so many nodes follow.
  abbrev Follow : ℕ → ℕ → ℕ → Memory A → Type 0
  Follow fuel a k m =
      (next : Option ℕ) × (m.nodes a ≡ some (record { data_at = datum a; next = next }))
      × (count_from fuel next m ≡ some k)

  count_from-Follow :
      (k fuel a end : ℕ) (m : Memory A) (put : List A)
      → Linked m put end
      → m.head ≤ a
      → end ≡ a + k
      → k < fuel
      → Follow fuel a k m
  unfolding count_from
  count_from-Follow k zero a end m put l h e f = absurd (omega arith)
  count_from-Follow zero (suc fuel) a end m put l h e f =
      let at_end : end ≡ a = omega arith in
      (
        none,
        subst (λ b. m.nodes b ≡ some (record { data_at = datum b; next = none })) at_end l.outer,
        refl,
      )
  count_from-Follow (suc k) (suc fuel) a end m put l h e f =
      let (next, node, counted) =
        count_from-Follow k fuel (suc a) end m put l (omega arith) (omega arith) (omega arith) in
      (some (suc a), l.inner a h (omega arith), rw (count_from, node, counted) refl)

  empty-test :
      (m : Memory A) (put : List A) (end k : ℕ)
      → Linked m put end
      → m.tail ≡ end
      → end ≡ m.head + k
      → empty m ≡ (k == 0)
  unfolding empty
  empty-test m put end zero l t e =
      let same : m.tail ≡ m.head = omega arith in
      let at_end : end ≡ m.head = omega arith in
      let outer =
        subst (λ b. m.nodes b ≡ some (record { data_at = datum b; next = none })) at_end l.outer in
      rw outer (ground (arith, same))
  empty-test m put end (suc k) l t e =
      let apart : (m.head == m.tail) ≡ false = ground arith in
      let more : (suc k == 0) ≡ false = ground arith in rw (apart, more) refl

  -- Where neither a call of enqueue nor one of dequeue is under way, size ends with the number of the
  -- items that were put in and not taken out, and empty tells whether it is 0.
  pub size-counts :
      {t : Threads A}
      → Reach 1 t
      → t.producers 0 ≡ Producer.idle
      → t.consumer ≡ Consumer.start
      → (n : ℕ) × (size t.memory ≡ some n)
        × (length t.put ≡ length t.got + n)
        × (empty t.memory ≡ (n == 0))
  unfolding size
  size-counts {t} r quiet ready =
      let inv = Reach-IsSound r in
      let (fresh, counted, at_end) = subst (Enqueuing t.memory t.put inv.end) quiet inv.enqueuing in
      let settled : Settled t.memory t.got =
        subst (Dequeuing t.memory t.put t.got inv.end) ready inv.dequeuing in
      let n = inv.end - t.memory.head in
      let ordered : t.memory.head ≤ inv.end =
        omega (arith, inv.linked.head_le, inv.linked.tail_le) in
      let (next, node, size_is) =
        count_from-Follow n t.memory.fresh t.memory.head inv.end t.memory t.put inv.linked
          (omega arith) (omega arith) (omega arith) in
      (
        n,
        rw (size, node) size_is,
        omega (arith, settled.passed),
        empty-test t.memory t.put inv.end n inv.linked at_end (omega arith),
      )
