-- ===== src/LockFreeQueue/Enqueued.antt =====
-- A step of the only producer keeps the invariant.
use game_database_server.Prelude.{
  ℕ, suc, ◌≤◌, ◌<◌, ◌≡◌, ◌≢◌, refl, sym, ap, ◌∙◌, subst, List, [], ◌∷◌, ◌++◌, none, some, ◌==◌,
  if◌then◌else◌, length-append, append_assoc, append-nil, get_elem?, arith, Bool-cases, inl, inr,
}
use game_database_server.LockFreeQueue.Memory.{Memory, store_at, swing_tail}
use game_database_server.LockFreeQueue.Enqueue.{Producer, allocate, enqueue_step}
use game_database_server.LockFreeQueue.Dequeue.{Consumer}
use game_database_server.LockFreeQueue.Threads.{called}
use game_database_server.LockFreeQueue.Invariant.{datum, Enqueuing, Inv}
use game_database_server.LockFreeQueue.Writes.{
  ==_of_eq, ne_of_==, store_at_other, store_at_same, last_or_before,
}
use game_database_server.LockFreeQueue.Producing.{
  get_elem?-append, get_elem?-length, Grows, Dequeuing-grow,
}

module _ {A : Type 0} where
  module _ (item : A) (m : Memory A) (put got : List A) (c : Consumer A)
      (inv : Inv m put got Producer.idle c) where
    open inv use {end, linked, enqueuing, dequeuing, in_order}
    open linked use {head_le, tail_le, inner, outer, holds}

    abbrev more : List A
    more = put ++ item ∷ []

    called-Inv : Inv (allocate item m) more got (Producer.at_tail m.fresh) c
    called-Inv = record {
      end = end;
      linked = record {
        head_le = head_le;
        tail_le = tail_le;
        inner =
            λ a h k. store_at_other m.fresh a _ m.nodes (omega (arith, enqueuing.0)) ∙ inner a h k;
        outer = store_at_other m.fresh end _ m.nodes (omega (arith, enqueuing.0)) ∙ outer;
        holds = λ a h k.
            store_at_other m.fresh (suc a) _ m.values (omega (arith, enqueuing.0))
            ∙ holds a h k
            ∙ sym (get_elem?-append put (item ∷ []) a (omega (arith, enqueuing.1)));
        called = omega (arith, enqueuing.1, length-append put (item ∷ []));
      };
      enqueuing = record {
        follows = enqueuing.0;
        newest = refl;
        counted = omega (arith, enqueuing.0, enqueuing.1, length-append put (item ∷ []));
        alone = store_at_same m.fresh _ m.nodes;
        item =
            store_at_same m.fresh _ m.values
            ∙ sym (get_elem?-length put item)
            ∙ ap (get_elem? more) (enqueuing.1);
        at_end = enqueuing.2;
      };
      dequeuing = Dequeuing-grow m (allocate item m) put more got end end grows c dequeuing;
      in_order = (
        in_order.0 ++ item ∷ [],
        ap (λ l. l ++ item ∷ []) (in_order.1) ∙ append_assoc got (in_order.0) (item ∷ []),
      );
    }
      where
        grows : Grows m (allocate item m) put more end end
        grows = record {
          head_kept = refl;
          tail_grows = omega arith;
          end_grows = omega arith;
          value_kept = store_at_other m.fresh m.head _ m.values (omega (arith, enqueuing.0));
          node_kept = λ a e. store_at_other m.fresh a _ m.nodes (omega (arith, enqueuing.0));
          item_kept = λ a e. get_elem?-append put (item ∷ []) a (omega (arith, enqueuing.1));
        }

  module _ (m : Memory A) (put got : List A) (c : Consumer A) (node last : ℕ)
      (inv : Inv m put got (Producer.at_link node last) c) where
    open inv use {end, linked, enqueuing, dequeuing, in_order}
    open linked use {head_le, tail_le, inner, outer, holds}
    open (enqueuing.0) use {follows, newest, counted, alone, at_end}

    abbrev linking : Memory A
    linking = record m {
      nodes = store_at end (some (record { data_at = datum end; next = some node })) m.nodes;
    }

    linked_nodes :
        (a : ℕ)
        → m.head ≤ a
        → a < suc end
        → linking.nodes a ≡ some (record { data_at = datum a; next = some (suc a) })
    linked_nodes a h k = elim (last_or_before a end k) [
      | inl e ↦ rw (e) (
          store_at_same end _ m.nodes
          ∙ ap (λ b. some (record { data_at = datum end; next = some b })) follows)
      | inr l ↦ store_at_other end a _ m.nodes (omega arith) ∙ inner a h l
    ]

    linked_values : (a : ℕ) → m.head ≤ a → a < suc end → m.values (suc a) ≡ get_elem? put a
    linked_values a h k = elim (last_or_before a end k) [
      | inl e ↦ rw (e) (ap (m.values) (sym follows) ∙ (enqueuing.0).item)
      | inr l ↦ holds a h l
    ]

    linked-Inv : Inv linking put got (Producer.at_swing node end) c
    linked-Inv = record {
      end = suc end;
      linked = record {
        head_le = head_le;
        tail_le = omega arith;
        inner = linked_nodes;
        outer =
            store_at_other end (suc end) _ m.nodes (omega arith)
            ∙ subst (λ b. m.nodes b ≡ some (record { data_at = some b; next = none })) follows
                alone;
        holds = linked_values;
        called = omega (arith, counted, follows);
      };
      enqueuing = (follows, refl, omega arith, omega arith, omega (arith, at_end));
      dequeuing = Dequeuing-grow m linking put put got end (suc end) grows c dequeuing;
      in_order = in_order;
    }
      where
        grows : Grows m linking put put end (suc end)
        grows = record {
          head_kept = refl;
          tail_grows = omega arith;
          end_grows = omega arith;
          value_kept = refl;
          node_kept = λ a e. store_at_other end a _ m.nodes (omega arith);
          item_kept = λ a e. refl;
        }

  module _ (m : Memory A) (put got : List A) (c : Consumer A) (node last : ℕ)
      (inv : Inv m put got (Producer.at_swing node last) c) where
    open inv use {end, linked, enqueuing, dequeuing, in_order}
    open linked use {head_le, tail_le, inner, outer, holds}

    -- The tail is at the end behind the exchange, whoever has moved it.
    at_the_end : (if m.tail == last then node else m.tail) ≡ end
    at_the_end = elim (Bool-cases (m.tail == last)) [
      | inl e ↦ rw (e) (enqueuing.0)
      | inr n ↦ rw (n) (omega (arith, ne_of_== m.tail last n, enqueuing.1, enqueuing.4))
    ]

    swung-Inv : Inv (swing_tail last node m) put got Producer.idle c
    swung-Inv = record {
      end = end;
      linked = record {
        head_le = omega (arith, at_the_end);
        tail_le = omega (arith, at_the_end);
        inner = inner;
        outer = outer;
        holds = holds;
        called = omega arith;
      };
      enqueuing = (enqueuing.2, enqueuing.3, at_the_end);
      dequeuing = Dequeuing-grow m (swing_tail last node m) put put got end end grows c dequeuing;
      in_order = in_order;
    }
      where
        grows : Grows m (swing_tail last node m) put put end end
        grows = record {
          head_kept = refl;
          tail_grows = omega (arith, at_the_end);
          end_grows = omega arith;
          value_kept = refl;
          node_kept = λ a e. refl;
          item_kept = λ a e. refl;
        }

  module _ (item : A) (m : Memory A) (put got : List A) (c : Consumer A) where
    moves :
        {p q : Producer} (inv : Inv m put got p c) → Enqueuing m put inv.end q → Inv m put got q c
    moves inv e = record {
      end = inv.end;
      linked = inv.linked;
      enqueuing = e;
      dequeuing = inv.dequeuing;
      in_order = inv.in_order;
    }

    same : {m' : Memory A} {p : Producer} (l : List A) → Inv m' l got p c → Inv m' (l ++ []) got p c
    same l inv = rw (append-nil l) inv

    stepped :
        (p : Producer)
        → p ≢ Producer.idle
        → Inv m put got p c
        → Inv (enqueue_step item m p).0 put got (enqueue_step item m p).1 c
    unfolding enqueue_step
    stepped Producer.idle n inv = absurd (n refl)
    stepped (Producer.at_tail node) n inv = moves inv (inv.enqueuing, inv.enqueuing.at_end)
    stepped (Producer.at_next node last) n inv =
        let (pending, e) = inv.enqueuing in
        rw (e, inv.linked.outer) (moves inv (pending, refl, refl))
    stepped (Producer.at_check node last next) n inv =
        let (pending, e, f) = inv.enqueuing in
        rw (==_of_eq last m.tail (e ∙ sym pending.at_end), f) (moves inv (pending, e))
    stepped (Producer.at_link node last) n inv =
        rw (inv.enqueuing.1, inv.linked.outer) (linked-Inv m put got c node last inv)
    stepped (Producer.at_help node last next) n inv = absurd inv.enqueuing
    stepped (Producer.at_swing node last) n inv = swung-Inv m put got c node last inv
    stepped Producer.fault n inv = absurd inv.enqueuing

    pub enqueue_step-Inv :
        (p : Producer)
        → Inv m put got p c
        → Inv (enqueue_step item m p).0 (put ++ called item p) got (enqueue_step item m p).1 c
    unfolding enqueue_step
    enqueue_step-Inv Producer.idle inv = called-Inv item m put got c inv
    enqueue_step-Inv (Producer.at_tail node) inv =
        same put (stepped (Producer.at_tail node) (λ e. cc) inv)
    enqueue_step-Inv (Producer.at_next node last) inv =
        same put (stepped (Producer.at_next node last) (λ e. cc) inv)
    enqueue_step-Inv (Producer.at_check node last next) inv =
        same put (stepped (Producer.at_check node last next) (λ e. cc) inv)
    enqueue_step-Inv (Producer.at_link node last) inv =
        same put (stepped (Producer.at_link node last) (λ e. cc) inv)
    enqueue_step-Inv (Producer.at_help node last next) inv =
        same put (stepped (Producer.at_help node last next) (λ e. cc) inv)
    enqueue_step-Inv (Producer.at_swing node last) inv =
        same put (stepped (Producer.at_swing node last) (λ e. cc) inv)
    enqueue_step-Inv (Producer.fault) inv = same put (stepped (Producer.fault) (λ e. cc) inv)
