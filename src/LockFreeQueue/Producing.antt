-- ===== src/LockFreeQueue/Producing.antt =====
-- A step of the only producer keeps the invariant.
use game_database_server.Prelude.{
  ℕ, zero, suc, ◌≤◌, ◌<◌, ◌≡◌, refl, sym, ap, ◌∙◌, List, [], ◌∷◌, ◌++◌, Option, none, some, length,
  get_elem?, arith,
}
use game_database_server.LockFreeQueue.Memory.{Memory}
use game_database_server.LockFreeQueue.Dequeue.{Consumer}
use game_database_server.LockFreeQueue.Invariant.{Settled, Seen, Dequeuing}

module _ {A : Type 0} where
  pub get_elem?-append :
      (xs ys : List A) (i : ℕ) → i < length xs → get_elem? (xs ++ ys) i ≡ get_elem? xs i
  get_elem?-append [] ys i h = absurd (omega arith)
  get_elem?-append (x ∷ xs) ys zero h = refl
  get_elem?-append (x ∷ xs) ys (suc i) h = get_elem?-append xs ys i (omega arith)

  pub get_elem?-length : (xs : List A) (y : A) → get_elem? (xs ++ y ∷ []) (length xs) ≡ some y
  get_elem?-length [] y = refl
  get_elem?-length (x ∷ xs) y = get_elem?-length xs y

  -- What the consumer relies on, where the producer only adds to it.
  pub record Grows (m m' : Memory A) (put put' : List A) (end end' : ℕ) : Type 0 where
    pub head_kept : m'.head ≡ m.head
    pub tail_grows : m.tail ≤ m'.tail
    pub end_grows : end ≤ end'
    pub value_kept : m'.values m.head ≡ m.values m.head
    pub node_kept : (a : ℕ) → suc a ≡ m.head → m'.nodes a ≡ m.nodes a
    pub item_kept : (a : ℕ) → suc a ≡ m.head → get_elem? put' a ≡ get_elem? put a

  module _ (m m' : Memory A) (put put' got : List A) (end end' : ℕ)
      (g : Grows m m' put put' end end') where
    open g use {head_kept, tail_grows, end_grows, value_kept, node_kept, item_kept}

    Settled-grow : Settled m got → Settled m' got
    Settled-grow s = record {
      passed = s.passed ∙ sym head_kept;
      spent = ap (m'.values) head_kept ∙ value_kept ∙ s.spent;
    }

    Seen-grow : (first : ℕ) (next : Option ℕ) → Seen m end first next → Seen m' end' first next
    Seen-grow first none s = tt
    Seen-grow first (some next) s = omega arith

    pub Dequeuing-grow : (c : Consumer A) → Dequeuing m put got end c → Dequeuing m' put' got end' c
    Dequeuing-grow Consumer.start s = Settled-grow s
    Dequeuing-grow (Consumer.at_tail first) (s, e) = (Settled-grow s, omega arith)
    Dequeuing-grow (Consumer.at_next first last) (s, e, t) =
        (Settled-grow s, omega arith, λ n. omega (arith, t n))
    Dequeuing-grow (Consumer.at_check first last next) (s, e, t, k) =
        (Settled-grow s, omega arith, λ n. omega (arith, t n), Seen-grow first next k)
    Dequeuing-grow (Consumer.at_help last next) (s, e, n, l) =
        (Settled-grow s, omega arith, omega arith, omega arith)
    Dequeuing-grow (Consumer.at_data first next) (s, e, n, l) =
        (Settled-grow s, omega arith, omega arith, omega arith)
    Dequeuing-grow (Consumer.at_swing first next value) (s, e, n, l, v) =
        (Settled-grow s, omega arith, omega arith, omega arith, omega arith)
    Dequeuing-grow (Consumer.at_take first value) (f, v, l, i, (n, k)) = (
      omega arith,
      omega arith,
      omega arith,
      ap (m'.values) head_kept ∙ value_kept ∙ i ∙ sym (item_kept first f),
      (n, node_kept first f ∙ k),
    )
    Dequeuing-grow (Consumer.returned result) s = Settled-grow s
    Dequeuing-grow Consumer.fault s = s
