-- ===== src/LockFreeQueue/Progress.antt =====
-- dequeue with nobody else at work: it ends, with the oldest item.
use game_database_server.Prelude.{
  ℕ, zero, suc, ◌+◌, ◌<◌, ◌≡◌, ◌≢◌, refl, sym, ap, ◌∙◌, subst, List, [], ◌∷◌, ◌++◌, Option, none,
  some, length, length-append, append-nil, get_elem?, arith, inl, inr, ◌⊎◌,
}
use game_database_server.LockFreeQueue.Memory.{Memory}
use game_database_server.LockFreeQueue.Enqueue.{Producer}
use game_database_server.LockFreeQueue.Dequeue.{Consumer, dequeue_step}
use game_database_server.LockFreeQueue.Threads.{Threads, Reach}
use game_database_server.LockFreeQueue.Invariant.{Enqueuing, Dequeuing, IsPrefix}
use game_database_server.LockFreeQueue.Kept.{node_between, get_elem?-append_next}
use game_database_server.LockFreeQueue.OneProducer.{IsSound, Reach-IsSound}
use game_database_server.LockFreeQueue.Writes.{==_of_eq, ==_of_ne}

module _ {A : Type 0} where
  -- So many accesses of the consumer.
  abbrev pub alone : ℕ → Memory A × Consumer A → Memory A × Consumer A
  alone zero s = s
  alone (suc n) s = alone n (dequeue_step s.0 s.1)

  -- The accesses of a call that finds an item.
  takes :
      (m : Memory A) (v : A) (d x : Option ℕ)
      → m.nodes m.head ≡ some (record { data_at = d; next = some (suc m.head) })
      → m.nodes (suc m.head) ≡ some (record { data_at = some (suc m.head); next = x })
      → m.values (suc m.head) ≡ some v
      → m.head ≢ m.tail
      → (alone 7 (m, Consumer.start)).1 ≡ Consumer.returned (some v)
  unfolding dequeue_step
  takes m v d x here there item other =
      rw
        (
          here,
          ==_of_eq m.head m.head refl,
          ==_of_ne m.head m.tail other,
          there,
          ==_of_eq m.head m.head refl,
          item,
          here,
        )
        refl

  -- The accesses of a call that finds none.
  gives_up :
      (m : Memory A) (d : Option ℕ)
      → m.nodes m.head ≡ some (record { data_at = d; next = none })
      → m.head ≡ m.tail
      → (alone 4 (m, Consumer.start)).1 ≡ Consumer.returned none
  unfolding dequeue_step
  gives_up m d here e = rw (here, ==_of_eq m.head m.head refl, ==_of_eq m.head m.tail e) refl

  -- With one producer that is outside of enqueue, a call of dequeue ends by itself: after four
  -- accesses it returns false, and everything put in had been returned; or after seven accesses it
  -- returns true with the item that follows those returned.
  pub dequeue-ends :
      {t : Threads A}
      → Reach 1 t
      → t.producers 0 ≡ Producer.idle
      → t.consumer ≡ Consumer.start
      → ((t.put ≡ t.got) × ((alone 4 (t.memory, Consumer.start)).1 ≡ Consumer.returned none))
        ⊎ ((v : A) × (rest : List A) × (t.put ≡ t.got ++ v ∷ rest)
            × ((alone 7 (t.memory, Consumer.start)).1 ≡ Consumer.returned (some v)))
  dequeue-ends {t} r quiet ready = ends inv.in_order
    where
      inv : IsSound t
      inv = Reach-IsSound r

      producer : Enqueuing t.memory t.put inv.end Producer.idle
      producer = subst (Enqueuing t.memory t.put inv.end) quiet inv.enqueuing

      consumer : Dequeuing t.memory t.put t.got inv.end Consumer.start
      consumer = subst (Dequeuing t.memory t.put t.got inv.end) ready inv.dequeuing

      ends :
          IsPrefix t.got t.put
          → ((t.put ≡ t.got) × ((alone 4 (t.memory, Consumer.start)).1 ≡ Consumer.returned none))
            ⊎ ((v : A) × (rest : List A) × (t.put ≡ t.got ++ v ∷ rest)
                × ((alone 7 (t.memory, Consumer.start)).1 ≡ Consumer.returned (some v)))
      ends ([], e) =
          let l : length t.put ≡ length t.got = ap length (e ∙ append-nil t.got) in
          let at_end : t.memory.head ≡ inv.end = omega (arith, l, producer.1, consumer.passed) in
          inl (
            e ∙ append-nil t.got,
            gives_up t.memory _ (ap (t.memory.nodes) at_end ∙ inv.linked.outer)
                (at_end ∙ sym (producer.2)),
          )
      ends (v ∷ rest, e) =
          let l : length t.put ≡ length t.got + suc (length rest) =
            ap length e ∙ length-append t.got (v ∷ rest) in
          let before : t.memory.head < inv.end = omega (arith, l, producer.1, consumer.passed) in
          let (x, node, seen) =
            node_between t.memory t.put inv.end (suc t.memory.head) inv.linked (omega arith)
              before in
          inr (
            v,
            rest,
            e,
            takes t.memory v _ x (inv.linked.inner t.memory.head (omega arith) before) node
                (inv.linked.holds t.memory.head (omega arith) before
                  ∙ ap (get_elem? t.put) (sym consumer.passed)
                  ∙ ap (λ q. get_elem? q (length t.got)) e
                  ∙ get_elem?-append_next t.got (v ∷ rest))
                (λ h. omega (arith, producer.2)),
          )
