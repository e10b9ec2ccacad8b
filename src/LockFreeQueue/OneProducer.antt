-- ===== src/LockFreeQueue/OneProducer.antt =====
-- One producer and one consumer, as SendPackets has: what every interleaving keeps.
use game_database_server.Prelude.{
  ℕ, ◌≡◌, ◌≢◌, ap, ◌∙◌, subst, List, [], ◌∷◌, ◌++◌, none, length, length-append, append-nil, arith,
  inl, inr,
}
use game_database_server.LockFreeQueue.Enqueue.{Producer}
use game_database_server.LockFreeQueue.Dequeue.{Consumer, load_first_next, dequeue_step}
use game_database_server.LockFreeQueue.Threads.{
  Threads, produce, consume, new_threads, Step, producing, consuming, Reach, created, later,
}
use game_database_server.LockFreeQueue.Invariant.{
  Enqueuing, Dequeuing, IsPrefix, Inv, new_queue-Inv,
}
use game_database_server.LockFreeQueue.Enqueued.{enqueue_step-Inv}
use game_database_server.LockFreeQueue.Dequeued.{dequeue_step-Inv}
use game_database_server.LockFreeQueue.Writes.{last_or_before}

module _ {A : Type 0} where
  abbrev pub IsSound : Threads A → Type 0
  IsSound t = Inv t.memory t.put t.got (t.producers 0) t.consumer

  produce-IsSound : (item : A) (t : Threads A) → IsSound t → IsSound (produce 0 item t)
  unfolding produce
  produce-IsSound item t h = enqueue_step-Inv item t.memory t.put t.got t.consumer (t.producers 0) h

  consume-IsSound : (t : Threads A) → IsSound t → IsSound (consume t)
  unfolding consume
  consume-IsSound t h = dequeue_step-Inv t.memory t.put t.got (t.producers 0) t.consumer h

  Step-IsSound : {t u : Threads A} → Step 1 t u → IsSound t → IsSound u
  Step-IsSound {t} (producing i item l) h =
      subst (λ j. IsSound (produce j item t)) (let e : 0 ≡ i = omega arith in e)
        (produce-IsSound item t h)
  Step-IsSound {t} consuming h = consume-IsSound t h

  -- Every reachable state of one producer and one consumer has the nodes from `head` on linked in
  -- the order of the calls of enqueue, with the items of these calls, and the local variables of
  -- both threads fit to it.
  pub Reach-IsSound : {t : Threads A} → Reach 1 t → IsSound t
  unfolding new_threads
  Reach-IsSound created = new_queue-Inv
  Reach-IsSound (later r s) = Step-IsSound s (Reach-IsSound r)

  -- In no interleaving of one producer and one consumer is deleted memory read or deleted again,
  -- and what dequeue has returned is at any time a first part of what enqueue was called with, in
  -- the same order: nothing is lost, doubled or overtaken.
  pub Reach-IsPrefix :
      {t : Threads A}
      → Reach 1 t
      → (t.producers 0 ≢ Producer.fault) × (t.consumer ≢ Consumer.fault) × IsPrefix t.got t.put
  Reach-IsPrefix {t} r = (
    λ e. subst (Enqueuing t.memory t.put inv.end) e inv.enqueuing,
    λ e. subst (Dequeuing t.memory t.put t.got inv.end) e inv.dequeuing,
    inv.in_order,
  )
    where
      inv : IsSound t
      inv = Reach-IsSound r

  -- A list that is a first part of another and as long is the other.
  prefix_whole : (put got rest : List A) → put ≡ got ++ rest → length put ≡ length got → put ≡ got
  prefix_whole put got [] e l = e ∙ append-nil got
  prefix_whole put got (x ∷ rest) e l =
      absurd (omega (arith, length-append got (x ∷ rest), ap length e))

  -- Where the consumer reads a null `next` and no call of enqueue is under way, everything that was
  -- put in has been returned: dequeue returns false only from such a read.
  pub consume-empty :
      {t : Threads A} (first last : ℕ)
      → Reach 1 t
      → t.producers 0 ≡ Producer.idle
      → t.consumer ≡ Consumer.at_next first last
      → (consume t).consumer ≡ Consumer.at_check first last none
      → t.put ≡ t.got
  unfolding consume dequeue_step
  consume-empty {t} first last r quiet here null =
      let inv = Reach-IsSound r in
      let (fresh, counted, at_end) = subst (Enqueuing t.memory t.put inv.end) quiet inv.enqueuing in
      let (settled, at_head, behind) =
        subst (Dequeuing t.memory t.put t.got inv.end) here inv.dequeuing in
      elim (last_or_before first inv.end (omega (arith, inv.linked.head_le, inv.linked.tail_le))) [
        | inl e ↦
            prefix_whole t.put t.got (inv.in_order.0) (inv.in_order.1)
              (omega (arith, counted, settled.passed))
        | inr l ↦ cc (
          ap (λ c. (dequeue_step t.memory c).1) here,
          ap (load_first_next {A = A} first last) (inv.linked.inner first (omega arith) l),
        )
      ]
