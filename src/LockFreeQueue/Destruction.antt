-- ===== src/LockFreeQueue/Destruction.antt =====
-- ~LockFreeQueue behind the calls of one producer and one consumer.
use game_database_server.Prelude.{
  ℕ, zero, suc, ◌+◌, ◌≤◌, ◌<◌, ◌≡◌, refl, sym, ap, ◌∙◌, subst, List, [], ◌∷◌, Option, none, some,
  length, arith, ◌⊎◌, inl, inr,
}
use game_database_server.LockFreeQueue.Memory.{Memory, Destroyed, store_at, destroy_from, destroy}
use game_database_server.LockFreeQueue.Enqueue.{Producer}
use game_database_server.LockFreeQueue.Dequeue.{Consumer}
use game_database_server.LockFreeQueue.Threads.{Threads, Reach}
use game_database_server.LockFreeQueue.Invariant.{datum, Linked, Settled, Enqueuing, Dequeuing}
use game_database_server.LockFreeQueue.History.{LastTaken, Told, Reach-Told}
use game_database_server.LockFreeQueue.Kept.{node_between, item_at}
use game_database_server.LockFreeQueue.OneProducer.{IsSound, Reach-IsSound}
use game_database_server.LockFreeQueue.Writes.{store_at_other, last_or_before}

module _ {A : Type 0} where
  -- The item of a node can be deleted.
  abbrev Deletable : Memory A → Option ℕ → Type 0
  Deletable m none = Unit {0}
  Deletable m (some d) = (v : A) × (m.values d ≡ some v)

  -- The nodes from `a` to `end`, with items that are not deleted.
  record Whole (m : Memory A) (a end : ℕ) : Type 0 where
    inner :
        (b : ℕ)
        → a ≤ b
        → b < end
        → m.nodes b ≡ some (record { data_at = datum b; next = some (suc b) })
    outer : m.nodes end ≡ some (record { data_at = datum end; next = none })
    items : (b : ℕ) → a ≤ b → b ≤ end → Deletable m (datum b)

  abbrev removed : ℕ → Memory A → Memory A
  removed zero m = record m { nodes = store_at zero none m.nodes }
  removed (suc a) m = record m {
    values = store_at (suc a) none m.values;
    nodes = store_at (suc a) none m.nodes;
  }

  -- A round of the destructor.
  round :
      (fuel a : ℕ) (m : Memory A) (next : Option ℕ)
      → m.nodes a ≡ some (record { data_at = datum a; next = next })
      → Deletable m (datum a)
      → destroy_from (suc fuel) (some a) m ≡ destroy_from fuel next (removed a m)
  unfolding destroy_from
  round fuel zero m next node item = rw (node, destroy_from) refl
  round fuel (suc a) m next node (v, item) = rw (node, destroy_from, item) refl

  values_kept : (a b : ℕ) (m : Memory A) → a < b → (removed a m).values b ≡ m.values b
  values_kept zero b m h = refl
  values_kept (suc a) b m h = store_at_other (suc a) b none m.values (omega arith)

  nodes_kept : (a b : ℕ) (m : Memory A) → a < b → (removed a m).nodes b ≡ m.nodes b
  nodes_kept zero b m h = store_at_other zero b none m.nodes (omega arith)
  nodes_kept (suc a) b m h = store_at_other (suc a) b none m.nodes (omega arith)

  Deletable-kept :
      (a b : ℕ) (m : Memory A) → a < b → Deletable m (datum b) → Deletable (removed a m) (datum b)
  Deletable-kept a zero m h d = tt
  Deletable-kept a (suc b) m h (v, e) = (v, values_kept a (suc b) m h ∙ e)

  rest-Whole :
      (a end : ℕ) (m : Memory A) → a < end → Whole m a end → Whole (removed a m) (suc a) end
  rest-Whole a end m h w = record {
    inner = λ b l k. nodes_kept a b m l ∙ w.inner b (omega arith) k;
    outer = nodes_kept a end m h ∙ w.outer;
    items = λ b l k. Deletable-kept a b m l (w.items b (omega arith) k);
  }

  ends :
      (fuel a end : ℕ) (m : Memory A)
      → suc end < fuel + a
      → a ≤ end
      → Whole m a end
      → (m' : Memory A) × (destroy_from fuel (some a) m ≡ Destroyed.finished m')
  unfolding destroy_from
  ends zero a end m f h w = absurd (omega arith)
  ends (suc zero) a end m f h w = absurd (omega arith)
  ends (suc (suc fuel)) a end m f h w = elim (last_or_before a end (omega arith)) [
    | inl e ↦ (removed a m, round (suc fuel) a m none (rw (e) w.outer) (w.items a (omega arith) h))
    | inr l ↦
        let (m', rest) =
          ends (suc fuel) (suc a) end (removed a m) (omega arith) l (rest-Whole a end m l w) in
        (
          m',
          round (suc fuel) a m (some (suc a)) (w.inner a (omega arith) l)
                (w.items a (omega arith) h)
              ∙ rest,
        )
  ]

  faults_at :
      (fuel a : ℕ) (m : Memory A) (next : Option ℕ)
      → m.nodes (suc a) ≡ some (record { data_at = some (suc a); next = next })
      → m.values (suc a) ≡ none
      → destroy_from (suc fuel) (some (suc a)) m ≡ Destroyed.item_deleted_again (some (suc a))
  unfolding destroy_from
  faults_at fuel a m next node spent = rw (node, destroy_from, spent) refl

  Whole-new :
      (m : Memory A) (put : List A) (end : ℕ) → Linked m put end → m.head ≡ 0 → Whole m 0 end
  Whole-new m put end l h = record {
    inner = λ b k. l.inner b (omega arith);
    outer = l.outer;
    items = items;
  }
    where
      items : (b : ℕ) → 0 ≤ b → b ≤ end → Deletable m (datum b)
      items zero g k = tt
      items (suc b) g k =
          let (v, e) = item_at put b (omega (arith, l.called)) in (v, l.holds b (omega arith) k ∙ e)

  taken_last :
      {t : Threads A} (x : A) (got : List A) → t.got ≡ x ∷ got → Told t → LastTaken t (length t.got)
  taken_last x got e (inl h) = absurd cc
  taken_last x got e (inr h) = h

  module _ {t : Threads A} (result : Option A) (r : Reach 1 t)
      (quiet : t.producers 0 ≡ Producer.idle) (done : t.consumer ≡ Consumer.returned result) where
    inv : IsSound t
    inv = Reach-IsSound r

    producer : Enqueuing t.memory t.put inv.end Producer.idle
    producer = subst (Enqueuing t.memory t.put inv.end) quiet inv.enqueuing

    settled : Settled t.memory t.got
    settled = subst (Dequeuing t.memory t.put t.got inv.end) done inv.dequeuing

    destroyed :
        (got : List A)
        → t.got ≡ got
        → ((t.got ≡ []) × ((m : Memory A) × (destroy t.memory ≡ Destroyed.finished m)))
          ⊎ ((d : ℕ) × (LastTaken t d × (destroy t.memory ≡ Destroyed.item_deleted_again (some d))))
    unfolding destroy
    destroyed [] e =
        let here : 0 ≡ t.memory.head = ap length (sym e) ∙ settled.passed in
        inl (
          e,
          subst
              (λ a.
                (m : Memory A) × (destroy_from (suc t.memory.fresh) (some a) t.memory
                  ≡ Destroyed.finished m))
              here
              (ends (suc t.memory.fresh) 0 inv.end t.memory (omega (arith, producer.0))
                (omega arith) (Whole-new t.memory t.put inv.end inv.linked (sym here))),
        )
    destroyed (x ∷ got) e =
        let here : suc (length got) ≡ t.memory.head = ap length (sym e) ∙ settled.passed in
        let (next, node, seen) =
          node_between t.memory t.put inv.end t.memory.head inv.linked (omega arith)
            (omega (arith, inv.linked.head_le, inv.linked.tail_le)) in
        inr (
          length t.got,
          (
            taken_last x got e (Reach-Told r),
            subst
                (λ a.
                  destroy_from (suc t.memory.fresh) (some a) t.memory
                  ≡ Destroyed.item_deleted_again (some (length t.got)))
                here
                (faults_at t.memory.fresh (length got) t.memory next
                    (subst
                      (λ a. t.memory.nodes a ≡ some (record { data_at = datum a; next = next }))
                      (sym here) node)
                    (subst (λ a. t.memory.values a ≡ none) (sym here) settled.spent)
                  ∙ ap (λ n. Destroyed.item_deleted_again (some n)) (ap length (sym e))),
          ),
        )

    -- Behind the calls of one producer and one consumer the destructor ends where dequeue has
    -- returned no item; where it has returned one, the destructor deletes an item a second time: the
    -- one at the address from which the last item returned was copied before it was deleted there.
    pub destroy-deletes_twice :
        ((t.got ≡ []) × ((m : Memory A) × (destroy t.memory ≡ Destroyed.finished m)))
        ⊎ ((d : ℕ) × (LastTaken t d × (destroy t.memory ≡ Destroyed.item_deleted_again (some d))))
    destroy-deletes_twice = destroyed t.got refl
