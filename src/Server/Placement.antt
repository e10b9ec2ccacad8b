-- ===== src/Server/Placement.antt =====
-- An accepted client is put into a list of clients.
use mathlib.Core.Option
use game_database_server.Prelude.{
  ℕ, zero, suc, ◌+◌, ◌≡◌, ◌≢◌, inl, inr, refl, sym, ap, ◌∙◌, true, false, List, [], ◌∷◌, ◌++◌,
  Option, none, some, length, arith, Bool-cases, Option-cases,
}
use game_database_server.Worker.Clients.{
  WorkerThread, new_worker, is_full_access, add_client, max_client_count,
}
use game_database_server.Worker.Chain.{Place}
use game_database_server.Worker.Growth.{Holds, new_worker-Holds, add_client-grows}
use game_database_server.Server.Workers.{can_use, find_can_use_worker_thread, add_at, place_client}

-- Every worker holds its list of places.
abbrev pub Serving : List WorkerThread → List (List Place) → Type 0
Serving [] [] = Unit {0}
Serving [] (l ∷ lists) = ⊥
Serving (w ∷ workers) [] = ⊥
Serving (w ∷ workers) (l ∷ lists) = Holds w l × Serving workers lists

-- The sockets of all lists, in their order.
abbrev pub clients : List (List Place) → ℕ
clients [] = 0
clients (l ∷ lists) = length l + clients lists

-- One place of the socket is new, somewhere, and all others are as they were.
pub data OneMore (s : ℕ) : List (List Place) → List (List Place) → Type 0 where
  in_new_worker : (a : ℕ) → OneMore s [] ((record { address = a; socket = s } ∷ []) ∷ [])
  in_first :
      (a : ℕ) (l : List Place) (lists : List (List Place))
      → OneMore s (l ∷ lists) ((l ++ record { address = a; socket = s } ∷ []) ∷ lists)
  in_later :
      (l : List Place) (lists more : List (List Place))
      → OneMore s lists more
      → OneMore s (l ∷ lists) (l ∷ more)

-- The workers behind a placement hold one more client.
abbrev pub Joined : ℕ → List (List Place) → List WorkerThread → Type 0
Joined s lists workers = (more : List (List Place)) × Serving workers more × OneMore s lists more

abbrev pub Placed : ℕ → List (List Place) → Option (List WorkerThread) → Type 0
Placed s lists o = (workers : List WorkerThread) × (o ≡ some workers) × Joined s lists workers

some_inj : {a b : ℕ} → (some a ≡ some b) → a ≡ b
some_inj e = cc e

suc≢0 : (n : ℕ) → ¬ (suc n ≡ 0)
suc≢0 n e = omega (arith, e)

suc_inj : {a b : ℕ} → suc a ≡ suc b → a ≡ b
suc_inj e = omega (arith, e)

not_first : (o : Option ℕ) → ¬ (Option.map suc o ≡ some 0)
not_first none e = cc
not_first (some n) e = absurd (suc≢0 n (some_inj e))

pub not_later : (i : ℕ) → ¬ (some 0 ≡ some (suc i))
not_later i e = absurd (suc≢0 i (sym (some_inj e)))

pub before : (o : Option ℕ) (i : ℕ) → Option.map suc o ≡ some (suc i) → o ≡ some i
before none i e = cc
before (some n) i e = ap some (suc_inj (some_inj e))

module _ (w : WorkerThread) (workers : List WorkerThread) where
  pub here_lem : can_use w ≡ true → find_can_use_worker_thread (w ∷ workers) ≡ some 0
  unfolding find_can_use_worker_thread
  here_lem u = rw (find_can_use_worker_thread, u) refl

  pub later_lem :
      can_use w ≡ false
      → find_can_use_worker_thread (w ∷ workers)
        ≡ Option.map suc (find_can_use_worker_thread workers)
  unfolding find_can_use_worker_thread
  later_lem u = rw (find_can_use_worker_thread, u) refl

module _ (s : ℕ) where
  cons-Joined :
      (w : WorkerThread) (l : List Place) (workers : List WorkerThread) (lists : List (List Place))
      → Holds w l
      → Joined s lists workers
      → Joined s (l ∷ lists) (w ∷ workers)
  cons-Joined w l workers lists h (more, serving, one) =
      (l ∷ more, (h, serving), OneMore.in_later l lists more one)

  cons-Placed :
      (w : WorkerThread) (l : List Place) (o : Option (List WorkerThread))
      (lists : List (List Place))
      → Holds w l
      → Placed s lists o
      → Placed s (l ∷ lists) (Option.map (λ v. w ∷ v) o)
  cons-Placed w l o lists h (workers, e, joined) =
      (w ∷ workers, ap (Option.map (λ v. w ∷ v)) e, cons-Joined w l workers lists h joined)

  new_worker-Joined :
      (workers : List WorkerThread) (lists : List (List Place))
      → Serving workers lists
      → Joined s lists (workers ++ new_worker true s ∷ [])
  new_worker-Joined [] [] h = (_, (new_worker-Holds true s, tt), OneMore.in_new_worker 0)
  new_worker-Joined [] (l ∷ lists) h = absurd h
  new_worker-Joined (w ∷ workers) [] h = absurd h
  new_worker-Joined (w ∷ workers) (l ∷ lists) (h, hs) =
      cons-Joined w l _ lists h (new_worker-Joined workers lists hs)

  room_lem :
      (w : WorkerThread) (l : List Place)
      → Holds w l
      → can_use w ≡ true
      → length l ≢ max_client_count
  unfolding can_use is_full_access
  room_lem w l h u e = ground (arith, h.count)

  first-Placed :
      (w : WorkerThread) (l : List Place) (workers : List WorkerThread) (lists : List (List Place))
      → Holds w l
      → Serving workers lists
      → can_use w ≡ true
      → Placed s (l ∷ lists) (Option.map (λ v. v ∷ workers) (add_client s w))
  first-Placed w l workers lists h hs u = elim (add_client-grows s w l h) [
    | inl (full, e) ↦ absurd (room_lem w l h u full)
    | inr (room, (v, e, (a, held, kept))) ↦ (
      v ∷ workers,
      ap (Option.map (λ x. x ∷ workers)) e,
      (_, (held, hs), OneMore.in_first a l lists),
    )
  ]

  -- The worker that is found takes the client.
  found-Placed :
      (workers : List WorkerThread) (lists : List (List Place)) (i : ℕ)
      → Serving workers lists
      → find_can_use_worker_thread workers ≡ some i
      → Placed s lists (add_at i s workers)
  unfolding find_can_use_worker_thread add_at
  found-Placed [] lists i h e = cc
  found-Placed (w ∷ workers) [] i h e = absurd h
  found-Placed (w ∷ workers) (l ∷ lists) zero (h, hs) e = elim (Bool-cases (can_use w)) [
    | inl u ↦ first-Placed w l workers lists h hs u
    | inr n ↦ absurd (not_first _ (sym (later_lem w workers n) ∙ e))
  ]
  found-Placed (w ∷ workers) (l ∷ lists) (suc i) (h, hs) e = elim (Bool-cases (can_use w)) [
    | inl u ↦ absurd (not_later i (sym (here_lem w workers u) ∙ e))
    | inr n ↦
        cons-Placed w l (add_at i s workers) lists h
          (found-Placed workers lists i hs (before _ i (sym (later_lem w workers n) ∙ e)))
  ]

  -- From workers that hold their lists of clients, an accepted client ends as the last of one list,
  -- of a worker that had room for it or of a new worker, and every other list stays as it is; no
  -- list gets longer than 50, and no client is turned away.
  pub place_client-Placed :
      (workers : List WorkerThread) (lists : List (List Place))
      → Serving workers lists
      → Placed s lists (place_client s workers)
  unfolding place_client
  place_client-Placed workers lists h = elim (Option-cases (find_can_use_worker_thread workers)) [
    | inl missing ↦ rw (place_client, missing) (_, refl, new_worker-Joined workers lists h)
    | inr (i, found) ↦ rw (place_client, found) (found-Placed workers lists i h found)
  ]
