-- ===== src/LockFreeQueue/Dequeued.antt =====
-- A step of the consumer keeps the invariant.
use game_database_server.Prelude.{
  ℕ, suc, ◌≤◌, ◌≡◌, refl, sym, ap, ◌∙◌, subst, List, [], ◌∷◌, ◌++◌, Option, none, some, ◌==◌,
  if◌then◌else◌, length-append, append-nil, get_elem?, arith, ==_iff, Bool-cases, inl, inr,
}
use game_database_server.LockFreeQueue.Memory.{Memory, store_at, swing_tail}
use game_database_server.LockFreeQueue.Enqueue.{Producer}
use game_database_server.LockFreeQueue.Dequeue.{Consumer, only_dummy, more_nodes, dequeue_step}
use game_database_server.LockFreeQueue.Threads.{item_of}
use game_database_server.LockFreeQueue.Invariant.{datum, Dequeuing, Inv}
use game_database_server.LockFreeQueue.Writes.{==_of_eq, ne_of_==, store_at_other, store_at_same}
use game_database_server.LockFreeQueue.Kept.{
  Keeps, Enqueuing-keep, prefix_longer, node_between, item_at,
}

module _ {A : Type 0} where
  module _ (m : Memory A) (put got : List A) (p : Producer) where
    moves :
        {c d : Consumer A} (inv : Inv m put got p c)
        → Dequeuing m put got inv.end d
        → Inv m put got p d
    moves inv h = record {
      end = inv.end;
      linked = inv.linked;
      enqueuing = inv.enqueuing;
      dequeuing = h;
      in_order = inv.in_order;
    }

    checked :
        (first last : ℕ) (next : Option ℕ)
        → Inv m put got p (Consumer.at_check first last next)
        → Inv m put got p (if first == last then only_dummy last next else more_nodes first next)
    checked first last none inv =
        let (s, e, t, k) = inv.dequeuing in
        elim (Bool-cases (first == last)) [
          | inl same ↦ rw (same) (moves inv s)
          | inr other ↦ rw (other) (moves inv s)
        ]
    checked first last (some next) inv =
        let (s, e, t, k) = inv.dequeuing in
        elim (Bool-cases (first == last)) [
          | inl same ↦ rw (same) (
              moves inv (
                s,
                omega (arith, (==_iff first last).0 same),
                omega (arith, (==_iff first last).0 same),
                omega (arith, (==_iff first last).0 same),
              ))
          | inr other ↦ rw (other) (moves inv (s, e, k.0, t (ne_of_== first last other)))
        ]

    module _ (last next : ℕ) (inv : Inv m put got p (Consumer.at_help last next)) where
      open inv use {end, linked, enqueuing, dequeuing, in_order}

      abbrev moved : ℕ
      moved = if m.tail == last then next else m.tail

      moved_on : m.tail ≤ moved
      moved_on = ground (arith, dequeuing.1, dequeuing.2)

      moved-le : moved ≤ end
      moved-le = ground (arith, dequeuing.2, dequeuing.3, linked.tail_le)

      moved_end : m.tail ≡ end → moved ≡ end
      moved_end e = ground (arith, dequeuing.3)

      helped-Inv : Inv (swing_tail last next m) put got p Consumer.start
      helped-Inv = record {
        end = end;
        linked = record {
          head_le = omega (arith, linked.head_le, moved_on);
          tail_le = moved-le;
          inner = linked.inner;
          outer = linked.outer;
          holds = linked.holds;
          called = linked.called;
        };
        enqueuing = Enqueuing-keep m (swing_tail last next m) put end keeps p enqueuing;
        dequeuing = record { passed = (dequeuing.0).passed; spent = (dequeuing.0).spent };
        in_order = in_order;
      }
        where
          keeps : Keeps m (swing_tail last next m) end
          keeps = record {
            fresh_kept = refl;
            tail_kept = moved_end;
            tail_grows = moved_on;
            node_kept = refl;
            value_kept = refl;
          }

    module _ (first next value : ℕ)
        (inv : Inv m put got p (Consumer.at_swing first next value)) where
      open inv use {end, linked, enqueuing, dequeuing, in_order}

      swung-Inv : Inv (record m { head = next }) put got p (Consumer.at_take first value)
      swung-Inv = record {
        end = end;
        linked = record {
          head_le = omega (arith, dequeuing.2, dequeuing.3);
          tail_le = linked.tail_le;
          inner = λ a h k. linked.inner a (omega (arith, dequeuing.1, dequeuing.2)) k;
          outer = linked.outer;
          holds = λ a h k. linked.holds a (omega (arith, dequeuing.1, dequeuing.2)) k;
          called = linked.called;
        };
        enqueuing = Enqueuing-keep m (record m { head = next }) put end keeps p enqueuing;
        dequeuing = (
          sym (dequeuing.2),
          dequeuing.4,
          (dequeuing.0).passed ∙ sym (dequeuing.1),
          ap (m.values) (dequeuing.2)
              ∙ linked.holds first (omega (arith, dequeuing.1))
                  (omega (arith, dequeuing.3, linked.tail_le)),
          (
            record { data_at = datum first; next = some (suc first) },
            linked.inner first (omega (arith, dequeuing.1))
                (omega (arith, dequeuing.3, linked.tail_le)),
          ),
        );
        in_order = in_order;
      }
        where
          keeps : Keeps m (record m { head = next }) end
          keeps = record {
            fresh_kept = refl;
            tail_kept = λ e. e;
            tail_grows = omega arith;
            node_kept = refl;
            value_kept = refl;
          }

    module _ (first value : ℕ) (inv : Inv m put got p (Consumer.at_take first value)) where
      open inv use {end, linked, enqueuing, dequeuing, in_order}

      abbrev taking : Memory A
      taking = record m {
        values = store_at value none m.values;
        nodes = store_at first none m.nodes;
      }

      taken-Inv :
          (v : A)
          → m.values m.head ≡ some v
          → Inv taking put (got ++ v ∷ []) p (Consumer.returned (some v))
      taken-Inv v e = record {
        end = end;
        linked = record {
          head_le = linked.head_le;
          tail_le = linked.tail_le;
          inner = λ a h k.
              store_at_other first a none m.nodes (omega (arith, dequeuing.0)) ∙ linked.inner a h k;
          outer =
              store_at_other first end none m.nodes
                (omega (arith, dequeuing.0, linked.head_le, linked.tail_le))
              ∙ linked.outer;
          holds = λ a h k.
              store_at_other value (suc a) none m.values (omega (arith, dequeuing.1))
              ∙ linked.holds a h k;
          called = linked.called;
        };
        enqueuing = Enqueuing-keep m taking put end keeps p enqueuing;
        dequeuing = record {
          passed = omega (arith, length-append got (v ∷ []), dequeuing.2, dequeuing.0);
          spent =
              subst (λ b. store_at value none m.values b ≡ none) (dequeuing.1)
                (store_at_same value none m.values);
        };
        in_order =
            prefix_longer put got (in_order.0) v (in_order.1)
              (ap (get_elem? put) (dequeuing.2) ∙ sym (dequeuing.3) ∙ e);
      }
        where
          keeps : Keeps m taking end
          keeps = record {
            fresh_kept = refl;
            tail_kept = λ t. t;
            tail_grows = omega arith;
            node_kept =
                store_at_other first (suc end) none m.nodes
                  (omega (arith, dequeuing.0, linked.head_le, linked.tail_le));
            value_kept =
                store_at_other value (suc end) none m.values
                  (omega (arith, dequeuing.1, linked.head_le, linked.tail_le));
          }

    nothing_returned :
        (first last : ℕ) (next : Option ℕ)
        → item_of {A = A} (if first == last then only_dummy last next else more_nodes first next)
          ≡ []
    nothing_returned first last none = ground arith
    nothing_returned first last (some next) = ground arith

    same :
        {m' : Memory A} {c : Consumer A}
        → item_of c ≡ []
        → Inv m' put got p c
        → Inv m' put (got ++ item_of c) p c
    same e inv = rw (e, append-nil got) inv

    pub dequeue_step-Inv :
        (c : Consumer A)
        → Inv m put got p c
        → Inv (dequeue_step m c).0 put (got ++ item_of (dequeue_step m c).1) p (dequeue_step m c).1
    unfolding dequeue_step
    dequeue_step-Inv Consumer.start inv = same refl (moves inv (inv.dequeuing, refl))
    dequeue_step-Inv (Consumer.at_tail first) inv =
        same refl
          (moves inv (inv.dequeuing.0, inv.dequeuing.1, λ n. omega (arith, inv.linked.head_le, n)))
    dequeue_step-Inv (Consumer.at_next first last) inv =
        let (s, e, t) = inv.dequeuing in
        let (x, node, seen) =
          node_between m put inv.end first inv.linked (omega arith)
            (omega (arith, inv.linked.head_le, inv.linked.tail_le)) in
        rw (node) (same refl (moves inv (s, e, t, seen)))
    dequeue_step-Inv (Consumer.at_check first last next) inv =
        rw (==_of_eq first m.head (inv.dequeuing.1))
          (same (nothing_returned first last next) (checked first last next inv))
    dequeue_step-Inv (Consumer.at_help last next) inv = same refl (helped-Inv last next inv)
    dequeue_step-Inv (Consumer.at_data first next) inv =
        let (s, e, n, l) = inv.dequeuing in
        let (x, node, seen) =
          node_between m put inv.end (suc first) inv.linked (omega arith)
            (omega (arith, inv.linked.tail_le)) in
        rw (n, node) (same refl (moves inv (s, e, refl, l, refl)))
    dequeue_step-Inv (Consumer.at_swing first next value) inv =
        rw (==_of_eq m.head first (sym (inv.dequeuing.1)))
          (same refl (swung-Inv first next value inv))
    dequeue_step-Inv (Consumer.at_take first value) inv =
        let (f, v, l, i, (n, node)) = inv.dequeuing in
        let (a, item) =
          item_at put first
            (omega (arith, inv.linked.head_le, inv.linked.tail_le, inv.linked.called)) in
        rw (ap (m.values) v ∙ i ∙ item, node) (taken-Inv first value inv a (i ∙ item))
    dequeue_step-Inv (Consumer.returned result) inv = same refl (moves inv inv.dequeuing)
    dequeue_step-Inv Consumer.fault inv = absurd inv.dequeuing
