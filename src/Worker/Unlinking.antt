-- ===== src/Worker/Unlinking.antt =====
-- The nodes behind the removal of one of them.
use game_database_server.Prelude.{
  ℕ, suc, ◌-◌, ◌≡◌, refl, sym, ◌∙◌, inl, inr, Bool, true, false, List, [], ◌∷◌, ◌++◌, Option, none,
  some, ◌==◌, ==_iff, if◌then◌else◌, length, length-append, append-nil, arith, Bool-cases,
}
use game_database_server.Packet.{TaskType, disconnect_task}
use game_database_server.Worker.Clients.{
  Heap, WorkerThread, write, is_address, is_null, finish_removal, unlink,
}
use game_database_server.Worker.Chain.{
  Place, Segment, Absent, Distinct, Below, last_address, Segment-append, Segment-write,
  Segment-relink, Segment-last, last_address-append, Absent-append, append-Absent,
}
use game_database_server.Worker.Growth.{Holds}

-- The list without its first place of the socket, and whether there is one.
abbrev pub without : ℕ → List Place → List Place
without s [] = []
without s (c ∷ l) = let rest = without s l in if c.socket == s then l else c ∷ rest

abbrev pub has : ℕ → List Place → Bool
has s [] = false
has s (c ∷ l) = let rest = has s l in if c.socket == s then true else rest

module _ (c : Place) (r : List Place) where
  Distinct-drop : (p : List Place) → Distinct (p ++ c ∷ r) → Distinct (p ++ r)
  Distinct-drop [] (a, d) = d
  Distinct-drop (x ∷ p) (a, d) = (
    append-Absent x.address p r (Absent-append x.address p (c ∷ r) a).0
        (Absent-append x.address p (c ∷ r) a).1.1,
    Distinct-drop p d,
  )

  Below-drop : (n : ℕ) (p : List Place) → Below n (p ++ c ∷ r) → Below n (p ++ r)
  Below-drop n [] (a, d) = d
  Below-drop n (x ∷ p) (a, d) = (a, Below-drop n p d)

  Distinct-front : (p : List Place) → Distinct (p ++ c ∷ r) → Absent c.address p
  Distinct-front [] d = tt
  Distinct-front (x ∷ p) (a, d) =
      ((λ e. (Absent-append x.address p (c ∷ r) a).1.0 (sym e)), Distinct-front p d)

  Distinct-back : (p : List Place) → Distinct (p ++ c ∷ r) → Absent c.address r
  Distinct-back [] (a, d) = a
  Distinct-back (x ∷ p) (a, d) = Distinct-back p d

  last_address-back : (p : List Place) → last_address (p ++ c ∷ r) ≡ last_address (c ∷ r)
  last_address-back [] = refl
  last_address-back (x ∷ []) = refl
  last_address-back (x ∷ y ∷ p) = last_address-back (y ∷ p)

  length-drop : (p : List Place) → length (p ++ c ∷ r) ≡ suc (length (p ++ r))
  length-drop p = omega (arith, length-append p (c ∷ r), length-append p r)

-- The parts of a list without repetition.
Distinct-of : (p r : List Place) → Distinct (p ++ r) → Distinct p
Distinct-of [] r d = tt
Distinct-of (x ∷ p) r (a, d) = ((Absent-append x.address p r a).0, Distinct-of p r d)

last-Absent :
    (k : List Place) (d : Place) (r : List Place)
    → Distinct ((k ++ d ∷ []) ++ r)
    → Absent d.address r
last-Absent [] d r (a, q) = a
last-Absent (x ∷ k) d r (a, q) = last-Absent k d r q

other_last :
    (a : ℕ) (c : Place) (r : List Place)
    → Absent a (c ∷ r)
    → is_address a (last_address (c ∷ r)) ≡ false
other_last a c [] (n, d) = elim (Bool-cases (a == c.address)) [
  | inl e ↦ absurd (n (sym ((==_iff a c.address).0 e)))
  | inr e ↦ e
]
other_last a c (x ∷ r) (n, d) = other_last a x r d

-- Where a segment leads is null exactly where it is empty.
module _ (h : Heap) (next : Option ℕ) where
  end_lem : Segment h next [] none → is_null next ≡ true
  end_lem e = rw e refl

  more_lem : (x : Place) (r : List Place) → Segment h next (x ∷ r) none → is_null next ≡ false
  more_lem x r (at, s) = rw at refl

same : (a : ℕ) → (a == a) ≡ true
same a = (==_iff a a).1 refl

-- The state behind the removal of the place behind `p`.
abbrev pub removed : WorkerThread → List Place → Place → Option ℕ → WorkerThread
removed w p c next = finish_removal c.socket c.address (unlink (last_address p) c.address next w)

pub first-Holds :
    (w : WorkerThread) (c : Place) (r : List Place) (next : Option ℕ)
    → Holds w (c ∷ r)
    → Segment w.heap next r none
    → Holds (removed w [] c next) r
unfolding finish_removal unlink
first-Holds w c [] next h s = record {
  chain = s;
  distinct = tt;
  below = tt;
  tail = rw (end_lem w.heap next s) refl;
  count = omega (arith, h.count);
  few = omega (arith, h.few);
}
first-Holds w c (x ∷ r) next h s = record {
  chain = Segment-write w.heap c.address none next none (x ∷ r) h.distinct.0 s;
  distinct = h.distinct.1;
  below = h.below.1;
  tail = rw (more_lem w.heap next x r s) h.tail;
  count = omega (arith, h.count);
  few = omega (arith, h.few);
}

-- The tail behind the removal of a place that is not the first.
tail_lem :
    (w : WorkerThread) (k : List Place) (d c : Place) (r : List Place)
    → Holds w ((k ++ d ∷ []) ++ c ∷ r)
    → (if is_address c.address w.tail then some d.address else w.tail)
      ≡ last_address ((k ++ d ∷ []) ++ r)
tail_lem w k d c [] h =
    let p = k ++ d ∷ [] in
    rw (h.tail ∙ last_address-back c [] p, same c.address, append-nil p)
      (sym (last_address-append k d))
tail_lem w k d c (x ∷ r) h =
    let p = k ++ d ∷ [] in
    rw
      (
        h.tail ∙ last_address-back c (x ∷ r) p,
        other_last c.address x r (Distinct-back c (x ∷ r) p h.distinct),
      )
      (sym (last_address-back x r p))

-- The state behind the removal of a place that is not the first, with the link that is changed.
abbrev pub bridged : WorkerThread → (d c : Place) → Option ℕ → WorkerThread
bridged w d c next = record w {
  tasks =
      if w.has_queue
      then disconnect_task c.socket TaskType.client_disconnected ∷ w.tasks
      else w.tasks;
  closed = c.socket ∷ w.closed;
  heap =
      write c.address none
        (write d.address (some (record { socket = d.socket; next = next })) w.heap);
  tail = if is_address c.address w.tail then some d.address else w.tail;
  client_count = w.client_count - 1;
}

pub bridged_lem :
    (w : WorkerThread) (k : List Place) (d c : Place) (next : Option ℕ)
    → Segment w.heap w.head (k ++ d ∷ []) (some c.address)
    → removed w (k ++ d ∷ []) c next ≡ bridged w d c next
unfolding finish_removal unlink
bridged_lem w k d c next front =
    rw (last_address-append k d, Segment-last w.heap w.head (some c.address) k d front) refl

pub later-Holds :
    (w : WorkerThread) (k : List Place) (d c : Place) (r : List Place) (next : Option ℕ)
    → Holds w ((k ++ d ∷ []) ++ c ∷ r)
    → Segment w.heap w.head (k ++ d ∷ []) (some c.address)
    → Segment w.heap next r none
    → Holds (bridged w d c next) ((k ++ d ∷ []) ++ r)
later-Holds w k d c r next h front back =
    let p = k ++ d ∷ [] in
    let link = some (record { socket = d.socket; next = next }) in
    let kept = Distinct-drop c r p h.distinct in
    record {
      chain =
          Segment-write (write d.address link w.heap) c.address none w.head none (p ++ r)
            (append-Absent c.address p r (Distinct-front c r p h.distinct)
              (Distinct-back c r p h.distinct))
            (Segment-append (write d.address link w.heap) w.head next none p r
              (Segment-relink w.heap w.head (some c.address) next k d (Distinct-of p r kept) front)
              (Segment-write w.heap d.address link next none r (last-Absent k d r kept) back));
      distinct = kept;
      below = Below-drop c r w.fresh p h.below;
      tail = tail_lem w k d c r h;
      count = omega (arith, h.count, length-drop c r p);
      few = omega (arith, h.few, length-drop c r p);
    }
