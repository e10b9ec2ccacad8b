-- ===== src/Worker/Chain.antt =====
-- The nodes that a pointer leads to, as a list.
use game_database_server.Prelude.{
  ℕ, ◌<◌, ◌≤◌, ◌≡◌, ◌≢◌, refl, sym, ap, ◌∙◌, ◌⊎◌, inl, inr, List, [], ◌∷◌, ◌++◌, Option, none, some,
  ◌==◌, ==_iff, arith, Bool-cases,
}
use game_database_server.Worker.Clients.{SocketNode, Heap, write}

-- A node by its address and its socket.
pub record Place : Type 0 where
  pub address : ℕ
  pub socket : ℕ

-- The places from one pointer up to another.
abbrev pub Segment : Heap → Option ℕ → List Place → Option ℕ → Type 0
Segment h start [] end = start ≡ end
Segment h start (c ∷ l) end =
    (start ≡ some c.address)
    × ((next : Option ℕ) × (h c.address ≡ some (record { socket = c.socket; next = next }))
        × Segment h next l end)

abbrev pub Absent : ℕ → List Place → Type 0
Absent a [] = Unit {0}
Absent a (c ∷ l) = (c.address ≢ a) × Absent a l

abbrev pub Distinct : List Place → Type 0
Distinct [] = Unit {0}
Distinct (c ∷ l) = Absent c.address l × Distinct l

abbrev pub Below : ℕ → List Place → Type 0
Below n [] = Unit {0}
Below n (c ∷ l) = (c.address < n) × Below n l

abbrev pub last_address : List Place → Option ℕ
last_address [] = none
last_address (c ∷ []) = some c.address
last_address (c ∷ d ∷ l) = last_address (d ∷ l)

pub write-same : (a : ℕ) (n : Option SocketNode) (h : Heap) → write a n h a ≡ n
write-same a n h = rw ((==_iff a a).1 refl)

pub write-other : (a b : ℕ) (n : Option SocketNode) (h : Heap) → b ≢ a → write a n h b ≡ h b
write-other a b n h d = elim (Bool-cases (b == a)) [
  | inl e ↦ absurd (d ((==_iff b a).0 e))
  | inr e ↦ rw e
]

pub Segment-append :
    (h : Heap) (start middle end : Option ℕ) (k l : List Place)
    → Segment h start k middle
    → Segment h middle l end
    → Segment h start (k ++ l) end
Segment-append h start middle end [] l s t = rw s t
Segment-append h start middle end (c ∷ k) l (at, (next, node, s)) t =
    (at, (next, node, Segment-append h next middle end k l s t))

-- A write elsewhere changes nothing.
pub Segment-write :
    (h : Heap) (a : ℕ) (n : Option SocketNode) (start end : Option ℕ) (l : List Place)
    → Absent a l
    → Segment h start l end
    → Segment (write a n h) start l end
Segment-write h a n start end [] absent s = s
Segment-write h a n start end (c ∷ l) (d, absent) (at, (next, node, s)) =
    (at, (next, write-other a c.address n h d ∙ node, Segment-write h a n next end l absent s))

pub Absent-append : (a : ℕ) (k l : List Place) → Absent a (k ++ l) → Absent a k × Absent a l
Absent-append a [] l d = (tt, d)
Absent-append a (c ∷ k) l (n, d) = ((n, (Absent-append a k l d).0), (Absent-append a k l d).1)

pub append-Absent : (a : ℕ) (k l : List Place) → Absent a k → Absent a l → Absent a (k ++ l)
append-Absent a [] l d e = e
append-Absent a (c ∷ k) l (n, d) e = (n, append-Absent a k l d e)

pub Below-Absent : (n : ℕ) (l : List Place) → Below n l → Absent n l
Below-Absent n [] b = tt
Below-Absent n (c ∷ l) (less, b) = ((λ e. omega (arith, e, less)), Below-Absent n l b)

-- The link of the last node of a segment is changed.
pub Segment-relink :
    (h : Heap) (start end more : Option ℕ) (k : List Place) (c : Place)
    → Distinct (k ++ c ∷ [])
    → Segment h start (k ++ c ∷ []) end
    → Segment
        (write c.address (some (record { socket = c.socket; next = more })) h)
        start
        (k ++ c ∷ [])
        more
Segment-relink h start end more [] c d (at, (next, node, s)) =
    (at, (more, write-same c.address _ h, refl))
Segment-relink h start end more (x ∷ k) c (absent, d) (at, (next, node, s)) = (
  at,
  (
    next,
    write-other c.address x.address _ h
          (λ e. (Absent-append x.address k (c ∷ []) absent).1.0 (sym e))
        ∙ node,
    Segment-relink h next end more k c d s,
  ),
)

-- A segment ends where its last node's link points.
pub Segment-last :
    (h : Heap) (start end : Option ℕ) (k : List Place) (c : Place)
    → Segment h start (k ++ c ∷ []) end
    → h c.address ≡ some (record { socket = c.socket; next = end })
Segment-last h start end [] c (at, (next, node, s)) = rw (sym s) node
Segment-last h start end (x ∷ k) c (at, (next, node, s)) = Segment-last h next end k c s

pub last_address-append : (k : List Place) (c : Place) → last_address (k ++ c ∷ []) ≡ some c.address
last_address-append [] c = refl
last_address-append (x ∷ []) c = refl
last_address-append (x ∷ y ∷ k) c = last_address-append (y ∷ k) c

-- A list is empty or has a last place.
pub last-cases : (l : List Place) → (l ≡ []) ⊎ ((k : List Place) × (c : Place) × (l ≡ k ++ c ∷ []))
last-cases [] = inl refl
last-cases (x ∷ l) = elim (last-cases l) [
  | inl e ↦ inr ([], x, ap (λ m. x ∷ m) e)
  | inr (k, c, e) ↦ inr (x ∷ k, c, ap (λ m. x ∷ m) e)
]

pub Distinct-append :
    (l : List Place) (c : Place) → Distinct l → Absent c.address l → Distinct (l ++ c ∷ [])
Distinct-append [] c d a = (tt, tt)
Distinct-append (x ∷ l) c (absent, d) (n, a) =
    (append-Absent x.address l (c ∷ []) absent ((λ e. n (sym e)), tt), Distinct-append l c d a)

pub append-Below : (n : ℕ) (k l : List Place) → Below n k → Below n l → Below n (k ++ l)
append-Below n [] l a b = b
append-Below n (c ∷ k) l (less, a) b = (less, append-Below n k l a b)

pub Below-mono : (n m : ℕ) (l : List Place) → n ≤ m → Below n l → Below m l
Below-mono n m [] le b = tt
Below-mono n m (c ∷ l) le (less, b) = (omega arith, Below-mono n m l le b)
