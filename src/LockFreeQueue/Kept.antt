-- ===== src/LockFreeQueue/Kept.antt =====
-- What a step of the consumer leaves to the producer, and where the next item stands.
use game_database_server.Prelude.{
  ℕ, zero, suc, ◌≤◌, ◌<◌, ◌≡◌, refl, sym, ap, ◌∙◌, subst, List, [], ◌∷◌, ◌++◌, Option, none, some,
  length, append_assoc, get_elem?, arith, inl, inr,
}
use game_database_server.LockFreeQueue.Memory.{Memory}
use game_database_server.LockFreeQueue.Enqueue.{Producer}
use game_database_server.LockFreeQueue.Invariant.{datum, Linked, Pending, Enqueuing, Seen, IsPrefix}
use game_database_server.LockFreeQueue.Writes.{last_or_before}

module _ {A : Type 0} where
  -- What the producer relies on.
  pub record Keeps (m m' : Memory A) (end : ℕ) : Type 0 where
    pub fresh_kept : m'.fresh ≡ m.fresh
    pub tail_kept : m.tail ≡ end → m'.tail ≡ end
    pub tail_grows : m.tail ≤ m'.tail
    pub node_kept : m'.nodes (suc end) ≡ m.nodes (suc end)
    pub value_kept : m'.values (suc end) ≡ m.values (suc end)

  module _ (m m' : Memory A) (put : List A) (end : ℕ) (k : Keeps m m' end) where
    open k use {fresh_kept, tail_kept, tail_grows, node_kept, value_kept}

    pub Pending-keep : (node : ℕ) → Pending m put end node → Pending m' put end node
    Pending-keep node h = record {
      follows = h.follows;
      newest = fresh_kept ∙ h.newest;
      counted = h.counted;
      alone =
          subst (λ b. m'.nodes b ≡ some (record { data_at = some b; next = none })) (sym h.follows)
            (node_kept
              ∙ subst (λ b. m.nodes b ≡ some (record { data_at = some b; next = none })) h.follows
                  h.alone);
      item =
          subst (λ b. m'.values b ≡ get_elem? put end) (sym h.follows)
            (value_kept ∙ subst (λ b. m.values b ≡ get_elem? put end) h.follows h.item);
      at_end = tail_kept h.at_end;
    }

    pub Enqueuing-keep : (p : Producer) → Enqueuing m put end p → Enqueuing m' put end p
    Enqueuing-keep Producer.idle (f, l, t) = (fresh_kept ∙ f, l, tail_kept t)
    Enqueuing-keep (Producer.at_tail node) h = Pending-keep node h
    Enqueuing-keep (Producer.at_next node last) (h, e) = (Pending-keep node h, e)
    Enqueuing-keep (Producer.at_check node last next) (h, e, n) = (Pending-keep node h, e, n)
    Enqueuing-keep (Producer.at_link node last) (h, e) = (Pending-keep node h, e)
    Enqueuing-keep (Producer.at_help node last next) h = h
    Enqueuing-keep (Producer.at_swing node last) (a, b, f, l, t) =
        (a, b, fresh_kept ∙ f, l, omega arith)
    Enqueuing-keep Producer.fault h = h

  pub get_elem?-append_next :
      (got rest : List A) → get_elem? (got ++ rest) (length got) ≡ get_elem? rest 0
  get_elem?-append_next [] rest = refl
  get_elem?-append_next (x ∷ got) rest = get_elem?-append_next got rest

  pub prefix_longer :
      (put got rest : List A) (v : A)
      → put ≡ got ++ rest
      → get_elem? put (length got) ≡ some v
      → IsPrefix (got ++ v ∷ []) put
  prefix_longer put got [] v e g =
      cc (ap (λ l. get_elem? l (length got)) e, get_elem?-append_next got [])
  prefix_longer put got (x ∷ rest) v e g =
      (rest, e ∙ sym (append_assoc got (x ∷ []) rest) ∙ ap (λ y. (got ++ y ∷ []) ++ rest) (front g))
    where
      front : get_elem? put (length got) ≡ some v → x ≡ v
      front h = cc (ap (λ l. get_elem? l (length got)) e, get_elem?-append_next got (x ∷ rest))

  pub node_between :
      (m : Memory A) (put : List A) (end a : ℕ)
      → Linked m put end
      → m.head ≤ a
      → a ≤ end
      → (next : Option ℕ) × (m.nodes a ≡ some (record { data_at = datum a; next = next }))
        × Seen m end a next
  node_between m put end a linked h k = elim (last_or_before a end (omega arith)) [
    | inl e ↦ (none, rw (e) linked.outer, tt)
    | inr l ↦ (some (suc a), linked.inner a h l, (refl, l))
  ]

  pub item_at : (put : List A) (i : ℕ) → i < length put → (v : A) × (get_elem? put i ≡ some v)
  item_at [] i h = absurd (omega arith)
  item_at (x ∷ put) zero h = (x, refl)
  item_at (x ∷ put) (suc i) h = item_at put i (omega arith)
