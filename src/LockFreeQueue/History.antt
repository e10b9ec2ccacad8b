-- ===== src/LockFreeQueue/History.antt =====
-- Which access of dequeue has returned the last item, and from which address.
use game_database_server.Prelude.{
  ℕ, ◌≡◌, refl, ap, sym, ◌∙◌, ◌⊎◌, inl, inr, Bool, true, false, [], ◌∷◌, ◌++◌, Option, none, some,
  length, length-append, append-nil, ◌==◌, if◌then◌else◌, arith, subst,
}
use game_database_server.LockFreeQueue.Memory.{Node, Memory}
use game_database_server.LockFreeQueue.Dequeue.{
  Consumer, load_first_next, only_dummy, more_nodes, read_pointer, read_data, take_item,
  dequeue_step,
}
use game_database_server.LockFreeQueue.Threads.{
  Threads, item_of, produce, consume, new_threads, Step, producing, consuming, Reach, created,
  later,
}
use game_database_server.LockFreeQueue.Invariant.{Dequeuing}
use game_database_server.LockFreeQueue.OneProducer.{Reach-IsSound}

module _ {A : Type 0} where
  -- The steps of one producer and one consumer that lead from a state to another.
  pub data Leads (u : Threads A) : Threads A → Type 0 where
    arrived : Leads u u
    onward : {s t : Threads A} → Leads u s → Step 1 s t → Leads u t

  -- In a state on the way the consumer stood before the copy of the item at the address `d`; since
  -- then no other item was returned.
  pub record LastTaken (t : Threads A) (d : ℕ) : Type 0 where
    pub before : Threads A
    pub reached : Reach 1 before
    pub first : ℕ
    pub at_take : before.consumer ≡ Consumer.at_take first d
    pub item : A
    pub held : before.memory.values d ≡ some item
    pub since : Leads (consume before) t
    pub last : t.got ≡ before.got ++ (item ∷ [])

  -- An access that returns an item is the copy of one.
  abbrev Takes : Memory A → Consumer A → Consumer A → Type 0
  Takes m c after =
      (item_of after ≡ [])
      ⊎ ((first : ℕ) × ((d : ℕ) × ((v : A) × (c ≡ Consumer.at_take first d)
              × (m.values d ≡ some v)
              × (item_of after ≡ v ∷ []))))

  silent_if :
      (b : Bool) (x y : Consumer A)
      → item_of x ≡ []
      → item_of y ≡ []
      → item_of (if b then x else y) ≡ []
  silent_if true x y h k = h
  silent_if false x y h k = k

  load_silent :
      (first last : ℕ) (n : Option Node) → item_of (load_first_next {A = A} first last n) ≡ []
  load_silent first last none = refl
  load_silent first last (some n) = refl

  dummy_silent : (last : ℕ) (next : Option ℕ) → item_of (only_dummy {A = A} last next) ≡ []
  dummy_silent last none = refl
  dummy_silent last (some next) = refl

  more_silent : (first : ℕ) (next : Option ℕ) → item_of (more_nodes {A = A} first next) ≡ []
  more_silent first none = refl
  more_silent first (some next) = refl

  pointer_silent :
      (first next : ℕ) (d : Option ℕ) → item_of (read_pointer {A = A} first next d) ≡ []
  pointer_silent first next none = refl
  pointer_silent first next (some d) = refl

  data_silent : (first next : ℕ) (n : Option Node) → item_of (read_data {A = A} first next n) ≡ []
  data_silent first next none = refl
  data_silent first next (some n) = pointer_silent first next n.data_at

  swing_silent :
      (b : Bool) (m n : Memory A) (first value : ℕ)
      → item_of
          (if◌then◌else◌ {A = Memory A × Consumer A} b
            (n, Consumer.at_take first value)
            (m, Consumer.start)).1
        ≡ []
  swing_silent true m n first value = refl
  swing_silent false m n first value = refl

  take_Takes :
      (m : Memory A) (first d : ℕ) (v : Option A) (n : Option Node)
      → m.values d ≡ v
      → Takes m (Consumer.at_take first d) (take_item first d v n m).1
  take_Takes m first d none n e = inl refl
  take_Takes m first d (some v) none e = inl refl
  take_Takes m first d (some v) (some n) e = inr (first, (d, (v, refl, e, refl)))

  dequeue_step-Takes : (m : Memory A) (c : Consumer A) → Takes m c (dequeue_step m c).1
  unfolding dequeue_step
  dequeue_step-Takes m Consumer.start = inl refl
  dequeue_step-Takes m (Consumer.at_tail first) = inl refl
  dequeue_step-Takes m (Consumer.at_next first last) = inl (load_silent first last (m.nodes first))
  dequeue_step-Takes m (Consumer.at_check first last next) = inl (
      silent_if (first == m.head) _ _
        (silent_if (first == last) _ _ (dummy_silent last next) (more_silent first next)) refl)
  dequeue_step-Takes m (Consumer.at_help last next) = inl refl
  dequeue_step-Takes m (Consumer.at_data first next) = inl (data_silent first next (m.nodes next))
  dequeue_step-Takes m (Consumer.at_swing first next value) =
      inl (swing_silent (m.head == first) m _ first value)
  dequeue_step-Takes m (Consumer.at_take first d) =
      take_Takes m first d (m.values d) (m.nodes first) refl
  dequeue_step-Takes m (Consumer.returned result) = inl refl
  dequeue_step-Takes m Consumer.fault = inl refl

  -- Nothing was returned, or the last item was taken from the address of its number.
  abbrev pub Told : Threads A → Type 0
  Told t = (t.got ≡ []) ⊎ LastTaken t (length t.got)

  goes_on : {t u : Threads A} → Step 1 t u → u.got ≡ t.got → Told t → Told u
  goes_on step e (inl h) = inl (e ∙ h)
  goes_on {t} {u} step e (inr h) = inr (record {
    before = h.before;
    reached = h.reached;
    first = h.first;
    at_take = h.at_take ∙ ap (λ n. Consumer.at_take h.first (length n)) (sym e);
    item = h.item;
    held = ap (λ n. h.before.memory.values (length n)) e ∙ h.held;
    since = onward h.since step;
    last = e ∙ h.last;
  })

  takes :
      (t : Threads A)
      → Reach 1 t
      → Told t
      → Takes t.memory t.consumer (consume t).consumer
      → Told (consume t)
  unfolding consume
  takes t r h (inl e) = goes_on consuming (ap (λ n. t.got ++ n) e ∙ append-nil t.got) h
  takes t r h (inr (first, (d, (v, at, held, e)))) =
      let inv = Reach-IsSound r in
      let (passed, at_head, counted, same, old) =
        subst (Dequeuing t.memory t.put t.got inv.end) at inv.dequeuing in
      let got : (consume t).got ≡ t.got ++ (v ∷ []) = ap (λ n. t.got ++ n) e in
      let number : length (consume t).got ≡ d =
        ap length got ∙ length-append t.got (v ∷ []) ∙ omega (arith, counted, passed, at_head) in
      inr (record {
        before = t;
        reached = r;
        first = first;
        at_take = at ∙ ap (Consumer.at_take first) (sym number);
        item = v;
        held = ap t.memory.values number ∙ held;
        since = arrived;
        last = got;
      })

  pub Reach-Told : {t : Threads A} → Reach 1 t → Told t
  unfolding new_threads produce consume
  Reach-Told created = inl refl
  Reach-Told (later r (producing i item l)) = goes_on (producing i item l) refl (Reach-Told r)
  Reach-Told (later {t} r consuming) =
      takes t r (Reach-Told r) (dequeue_step-Takes t.memory t.consumer)
