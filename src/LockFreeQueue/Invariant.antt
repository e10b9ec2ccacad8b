-- ===== src/LockFreeQueue/Invariant.antt =====
-- One producer and one consumer: the nodes stand at consecutive addresses from `head` on, and each
-- holds the item of its call of enqueue.
use game_database_server.Prelude.{
  ℕ, zero, suc, ◌≤◌, ◌<◌, ◌≡◌, ◌≢◌, refl, List, [], ◌++◌, Option, none, some, length, get_elem?,
  arith,
}
use game_database_server.LockFreeQueue.Memory.{Node, Memory, new_queue}
use game_database_server.LockFreeQueue.Enqueue.{Producer}
use game_database_server.LockFreeQueue.Dequeue.{Consumer}

-- The pointer of a node to its item: the dummy of the constructor has none.
abbrev pub datum : ℕ → Option ℕ
datum zero = none
datum (suc a) = some (suc a)

module _ {A : Type 0} where
  -- The nodes from `head` to `end` are linked in the order of their addresses, and hold the items
  -- behind `head`.
  pub record Linked (m : Memory A) (put : List A) (end : ℕ) : Type 0 where
    pub head_le : m.head ≤ m.tail
    pub tail_le : m.tail ≤ end
    pub inner :
        (a : ℕ)
        → m.head ≤ a
        → a < end
        → m.nodes a ≡ some (record { data_at = datum a; next = some (suc a) })
    pub outer : m.nodes end ≡ some (record { data_at = datum end; next = none })
    pub holds : (a : ℕ) → m.head ≤ a → a < end → m.values (suc a) ≡ get_elem? put a
    pub called : end ≤ length put

  -- A node that is not yet linked.
  pub record Pending (m : Memory A) (put : List A) (end node : ℕ) : Type 0 where
    pub follows : node ≡ suc end
    pub newest : m.fresh ≡ suc node
    pub counted : length put ≡ node
    pub alone : m.nodes node ≡ some (record { data_at = some node; next = none })
    pub item : m.values node ≡ get_elem? put end
    pub at_end : m.tail ≡ end

  abbrev pub Enqueuing : Memory A → List A → ℕ → Producer → Type 0
  Enqueuing m put end Producer.idle = (m.fresh ≡ suc end) × (length put ≡ end) × (m.tail ≡ end)
  Enqueuing m put end (Producer.at_tail node) = Pending m put end node
  Enqueuing m put end (Producer.at_next node last) = Pending m put end node × (last ≡ end)
  Enqueuing m put end (Producer.at_check node last next) =
      Pending m put end node × (last ≡ end) × (next ≡ none)
  Enqueuing m put end (Producer.at_link node last) = Pending m put end node × (last ≡ end)
  Enqueuing m put end (Producer.at_help node last next) = ⊥
  Enqueuing m put end (Producer.at_swing node last) =
      (node ≡ end) × (suc last ≡ end) × (m.fresh ≡ suc end) × (length put ≡ end) × (last ≤ m.tail)
  Enqueuing m put end Producer.fault = ⊥

  -- As many items were returned as nodes were passed, and the item of the dummy is deleted.
  pub record Settled (m : Memory A) (got : List A) : Type 0 where
    pub passed : length got ≡ m.head
    pub spent : m.values m.head ≡ none

  -- The nodes behind `head` that the consumer has seen.
  abbrev pub Seen : Memory A → ℕ → ℕ → Option ℕ → Type 0
  Seen m end first none = Unit {0}
  Seen m end first (some next) = (next ≡ suc first) × (first < end)

  abbrev pub Dequeuing : Memory A → List A → List A → ℕ → Consumer A → Type 0
  Dequeuing m put got end Consumer.start = Settled m got
  Dequeuing m put got end (Consumer.at_tail first) = Settled m got × (first ≡ m.head)
  Dequeuing m put got end (Consumer.at_next first last) =
      Settled m got × (first ≡ m.head) × (first ≢ last → first < m.tail)
  Dequeuing m put got end (Consumer.at_check first last next) =
      Settled m got × (first ≡ m.head) × (first ≢ last → first < m.tail) × Seen m end first next
  Dequeuing m put got end (Consumer.at_help last next) =
      Settled m got × (last ≡ m.head) × (next ≡ suc last) × (last < end)
  Dequeuing m put got end (Consumer.at_data first next) =
      Settled m got × (first ≡ m.head) × (next ≡ suc first) × (first < m.tail)
  Dequeuing m put got end (Consumer.at_swing first next value) =
      Settled m got × (first ≡ m.head) × (next ≡ suc first) × (first < m.tail) × (value ≡ next)
  Dequeuing m put got end (Consumer.at_take first value) =
      (suc first ≡ m.head)
      × (value ≡ m.head)
      × (length got ≡ first)
      × (m.values m.head ≡ get_elem? put first)
      × ((n : Node) × (m.nodes first ≡ some n))
  Dequeuing m put got end (Consumer.returned result) = Settled m got
  Dequeuing m put got end Consumer.fault = ⊥

  -- The items returned are a first part of those that were put in.
  abbrev pub IsPrefix : List A → List A → Type 0
  IsPrefix got put = (rest : List A) × (put ≡ got ++ rest)

  pub record Inv (m : Memory A) (put got : List A) (p : Producer) (c : Consumer A) : Type 0 where
    pub end : ℕ
    pub linked : Linked m put end
    pub enqueuing : Enqueuing m put end p
    pub dequeuing : Dequeuing m put got end c
    pub in_order : IsPrefix got put

  pub new_queue-Inv : Inv new_queue [] [] Producer.idle Consumer.start
  unfolding new_queue
  new_queue-Inv = record {
    end = 0;
    linked = record {
      head_le = omega arith;
      tail_le = omega arith;
      inner = λ a h k. absurd (omega arith);
      outer = refl;
      holds = λ a h k. absurd (omega arith);
      called = omega arith;
    };
    enqueuing = (refl, refl, refl);
    dequeuing = record { passed = refl; spent = refl };
    in_order = ([], refl);
  }
