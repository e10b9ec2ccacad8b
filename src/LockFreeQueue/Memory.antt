-- ===== src/LockFreeQueue/Memory.antt =====
-- LockFreeQueue.h: the nodes of the queue in memory, its construction and its destruction.
use game_database_server.Prelude.{ℕ, zero, suc, Bool, Option, none, some, ◌==◌, ◌&&◌, if◌then◌else◌}

-- `next` and the pointer `data`; a null pointer is `none`.
pub record Node : Type 0 where
  pub data_at : Option ℕ
  pub next : Option ℕ

-- The nodes and the items by their addresses, `none` where nothing is allocated or it was deleted.
-- An address that `new` gives was never given before.
pub record Memory (A : Type 0) : Type 0 where
  pub nodes : ℕ → Option Node
  pub values : ℕ → Option A
  pub fresh : ℕ
  pub head : ℕ
  pub tail : ℕ

abbrev pub store_at : {B : Type 0} → ℕ → Option B → (ℕ → Option B) → ℕ → Option B
store_at a v f b = if b == a then v else f b

abbrev pub nothing : {B : Type 0} → ℕ → Option B
nothing a = none

abbrev pub next_of : Option Node → Option ℕ
next_of none = none
next_of (some n) = n.next

abbrev pub is_nullptr : Option ℕ → Bool
is_nullptr none = Bool.true
is_nullptr (some a) = Bool.false

-- compare_exchange_weak on `tail_`, which fails only where another value stands.
abbrev pub swing_tail : {A : Type 0} → (expected desired : ℕ) → Memory A → Memory A
swing_tail expected desired m = record m { tail = if m.tail == expected then desired else m.tail }

-- The destructor ends, or it deletes a node or an item that was deleted before, by its address; or the
-- fuel of the model has run out.
pub data Destroyed (A : Type 0) : Type 0 where
  finished : Memory A → Destroyed A
  node_deleted_again : (node : ℕ) → Destroyed A
  item_deleted_again : (value : Option ℕ) → Destroyed A
  out_of_fuel : Destroyed A

module _ {A : Type 0} where
  -- The constructor: a dummy node.
  unfoldable pub new_queue : Memory A
  new_queue = record {
    nodes = store_at 0 (some (record { data_at = none; next = none })) nothing;
    values = nothing;
    fresh = 1;
    head = 0;
    tail = 0;
  }

  unfoldable pub empty : Memory A → Bool
  empty m = m.head == m.tail && is_nullptr (next_of (m.nodes m.head))

  -- The loop of size, with fuel; `none` is a deleted node, or the end of the fuel.
  unfoldable pub count_from : ℕ → Option ℕ → Memory A → Option ℕ
  count_from zero current m = none
  count_from (suc fuel) none m = some 0
  count_from (suc fuel) (some a) m = elim (m.nodes a) [
    | none ↦ none
    | some n ↦ elim (count_from fuel n.next m) [ none ↦ none | some k ↦ some (suc k) ]
  ]

  unfoldable pub size : Memory A → Option ℕ
  unfolding count_from
  size m = elim (m.nodes m.head) [ none ↦ none | some n ↦ count_from m.fresh n.next m ]

  -- `delete data`, where it is not null; `none` where it was deleted before.
  abbrev pub delete_value : Option ℕ → Memory A → Option (Memory A)
  delete_value none m = some m
  delete_value (some d) m = elim (m.values d) [
    | none ↦ none
    | some v ↦ some (record m { values = store_at d none m.values })
  ]

  -- The destructor from a node on, with fuel.
  unfoldable pub destroy_from : ℕ → Option ℕ → Memory A → Destroyed A
  destroy_from zero current m = Destroyed.out_of_fuel
  destroy_from (suc fuel) none m = Destroyed.finished m
  destroy_from (suc fuel) (some a) m = elim (m.nodes a) [
    | none ↦ Destroyed.node_deleted_again a
    | some n ↦ elim (delete_value n.data_at m) [
      | none ↦ Destroyed.item_deleted_again n.data_at
      | some m' ↦ destroy_from fuel n.next (record m' { nodes = store_at a none m'.nodes })
    ]
  ]

  -- A queue has fewer nodes than addresses were given.
  unfoldable pub destroy : Memory A → Destroyed A
  unfolding destroy_from
  destroy m = destroy_from (suc m.fresh) (some m.head) m
