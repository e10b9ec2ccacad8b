-- ===== src/Worker/Ledger.antt =====
-- The account of a worker's sockets: each that it was given is in its list or was closed.
use game_database_server.Prelude.{
  ℕ, ◌+◌, ◌≡◌, refl, ap, ◌∙◌, inl, inr, Bool, true, false, List, [], ◌∷◌, ◌++◌, Option, some, ◌==◌,
  ==_iff, if◌then◌else◌, arith, Bool-cases,
}
use game_database_server.Worker.Clients.{
  WorkerThread, close_socket, add_client, remove_socket_from_list,
}
use game_database_server.Worker.Chain.{Place}
use game_database_server.Worker.Growth.{Holds, add_client-grows}
use game_database_server.Worker.Removal.{remove_socket_from_list-Ends}
use game_database_server.Worker.Unlinking.{without, has}

abbrev pub one_if : Bool → ℕ
one_if true = 1
one_if false = 0

-- How often a socket is in a list.
abbrev pub times : ℕ → List ℕ → ℕ
times s [] = 0
times s (x ∷ l) = one_if (x == s) + times s l

abbrev pub placed : ℕ → List Place → ℕ
placed s [] = 0
placed s (c ∷ l) = one_if (c.socket == s) + placed s l

-- As often as a socket was handed to the worker, it is in the list or was closed.
pub record Accounts (handed : List ℕ) (w : WorkerThread) : Type 0 where
  pub places : List Place
  pub holds : Holds w places
  pub balanced : (s : ℕ) → placed s places + times s w.closed ≡ times s handed

-- A call ends with the account kept.
abbrev pub Runs : List ℕ → Option WorkerThread → Type 0
Runs handed o = (v : WorkerThread) × (o ≡ some v) × Accounts handed v

pub Runs-some : {handed : List ℕ} (w : WorkerThread) → Accounts handed w → Runs handed (some w)
Runs-some w h = (w, refl, h)

placed-append : (s : ℕ) (l k : List Place) → placed s (l ++ k) ≡ placed s l + placed s k
placed-append s [] k = omega arith
placed-append s (c ∷ l) k = omega (arith, placed-append s l k)

placed-without :
    (t s : ℕ) (l : List Place)
    → has s l ≡ true
    → placed t l ≡ placed t (without s l) + one_if (s == t)
placed-without t s [] h = absurd cc
placed-without t s (c ∷ l) h = elim (Bool-cases (c.socket == s)) [
  | inl e ↦ rw (e, (==_iff c.socket s).0 e) (omega arith)
  | inr e ↦
      let deeper : has s l ≡ true =
        rw⁻¹ (ap (λ b. if◌then◌else◌ {A = Bool} b true (has s l)) e) h in
      rw e (omega (arith, placed-without t s l deeper))
]

pub remove_socket_from_list-Runs :
    {handed : List ℕ} (s : ℕ) (w : WorkerThread)
    → Accounts handed w
    → Runs handed (remove_socket_from_list s w)
remove_socket_from_list-Runs s w h = elim (remove_socket_from_list-Ends s w h.places h.holds) [
  | inl (missing, e) ↦ (w, e, h)
  | inr (found, (v, e, (holds, closed, tasks))) ↦ (
    v,
    e,
    record {
      places = without s h.places;
      holds = holds;
      balanced = λ t. rw closed (omega (arith, placed-without t s h.places found, h.balanced t));
    },
  )
]

pub Holds-same :
    (w v : WorkerThread) (l : List Place)
    → v.heap ≡ w.heap
    → v.head ≡ w.head
    → v.tail ≡ w.tail
    → v.fresh ≡ w.fresh
    → v.client_count ≡ w.client_count
    → Holds w l
    → Holds v l
Holds-same w v l heap head tail fresh count h = record {
  chain = rw (heap, head) h.chain;
  distinct = h.distinct;
  below = rw fresh h.below;
  tail = tail ∙ h.tail;
  count = count ∙ h.count;
  few = h.few;
}

-- The list and the closed sockets stay.
pub Accounts-same :
    {handed : List ℕ} (w v : WorkerThread)
    → v.heap ≡ w.heap
    → v.head ≡ w.head
    → v.tail ≡ w.tail
    → v.fresh ≡ w.fresh
    → v.client_count ≡ w.client_count
    → v.closed ≡ w.closed
    → Accounts handed w
    → Accounts handed v
Accounts-same w v heap head tail fresh count closed h = record {
  places = h.places;
  holds = Holds-same w v h.places heap head tail fresh count h.holds;
  balanced = λ s. rw closed (h.balanced s);
}

pub add_client-Runs :
    {handed : List ℕ} (s : ℕ) (w : WorkerThread)
    → Accounts handed w
    → Runs (s ∷ handed) (add_client s w)
unfolding close_socket
add_client-Runs s w h = elim (add_client-grows s w h.places h.holds) [
  | inl (full, e) ↦ (
    close_socket s w,
    e,
    record {
      places = h.places;
      holds = Holds-same w (close_socket s w) h.places refl refl refl refl refl h.holds;
      balanced = λ t. omega (arith, h.balanced t);
    },
  )
  | inr (room, (v, e, (a, holds, (tasks, closed, on, queue)))) ↦ (
    v,
    e,
    record {
      places = h.places ++ record { address = a; socket = s } ∷ [];
      holds = holds;
      balanced = λ t.
          rw (closed, placed-append t h.places (record { address = a; socket = s } ∷ []))
            (omega (arith, h.balanced t));
    },
  )
]
