-- ===== src/Server/Sharing.antt =====
-- The account of the sockets of all workers, through each operation on their list.
use mathlib.Core.Option
use game_database_server.Prelude.{
  ℕ, zero, suc, ◌+◌, ◌≡◌, refl, sym, ap, ◌∙◌, subst, inl, inr, true, List, [], ◌∷◌, ◌++◌, Option,
  some, ◌==◌, arith, Bool-cases, Option-cases,
}
use game_database_server.Worker.Clients.{WorkerThread, new_worker, stop_thread, add_client}
use game_database_server.Worker.Serving.{WorkerCall, perform, destroy_worker}
use game_database_server.Worker.Ledger.{
  one_if, times, Accounts, Runs, Accounts-same, add_client-Runs,
}
use game_database_server.Worker.Lifetime.{
  Enough, handed_by, perform-Runs, destroy_worker-closes, new_worker-Accounts,
}
use game_database_server.Server.Workers.{
  can_use, find_can_use_worker_thread, add_at, place_client, stop_workers,
}
use game_database_server.Server.Placement.{not_later, before, here_lem, later_lem}
use game_database_server.Server.Loop.{both_closed, destroy_all, perform_at}

-- Every worker has its account, and `n` counts each socket in all of them.
abbrev pub Shared : List WorkerThread → (ℕ → ℕ) → Type 0
Shared [] n = (s : ℕ) → n s ≡ 0
Shared (w ∷ workers) n =
    (handed : List ℕ) × ((rest : ℕ → ℕ) × Accounts handed w
      × Shared workers rest
      × ((s : ℕ) → n s ≡ times s handed + rest s))

abbrev pub Shares : (ℕ → ℕ) → Option (List WorkerThread) → Type 0
Shares n o = (workers : List WorkerThread) × (o ≡ some workers) × Shared workers n

abbrev with_one : ℕ → (ℕ → ℕ) → ℕ → ℕ
with_one s n t = one_if (s == t) + n t

Shared-same :
    (workers : List WorkerThread) (n m : ℕ → ℕ)
    → ((s : ℕ) → m s ≡ n s)
    → Shared workers n
    → Shared workers m
Shared-same [] n m e h = λ s. e s ∙ h s
Shared-same (w ∷ workers) n m e (handed, (rest, account, h, total)) =
    (handed, (rest, account, h, λ s. e s ∙ total s))

-- A new worker behind the others.
Shared-snoc :
    (s : ℕ) (workers : List WorkerThread) (n : ℕ → ℕ)
    → Shared workers n
    → Shared (workers ++ new_worker true s ∷ []) (with_one s n)
Shared-snoc s [] n h =
    (s ∷ [], ((λ t. 0), new_worker-Accounts true s, (λ t. refl), λ t. omega (arith, h t)))
Shared-snoc s (w ∷ workers) n (handed, (rest, account, h, total)) =
    (handed, (with_one s rest, account, Shared-snoc s workers rest h, λ t. omega (arith, total t)))

-- One worker less or more before the others.
cons-Shares :
    (n : ℕ → ℕ) (w : WorkerThread) (handed : List ℕ) (rest : ℕ → ℕ) (o : Option (List WorkerThread))
    → Accounts handed w
    → Shares rest o
    → ((s : ℕ) → n s ≡ times s handed + rest s)
    → Shares n (Option.map (λ l. w ∷ l) o)
cons-Shares n w handed rest o account (workers, e, h) total =
    (w ∷ workers, ap (Option.map (λ l. w ∷ l)) e, (handed, (rest, account, h, total)))

first-Shares :
    (n : ℕ → ℕ) (workers : List WorkerThread) (handed : List ℕ) (rest : ℕ → ℕ)
    (o : Option WorkerThread)
    → Runs handed o
    → Shared workers rest
    → ((s : ℕ) → n s ≡ times s handed + rest s)
    → Shares n (Option.map (λ v. v ∷ workers) o)
first-Shares n workers handed rest o (v, e, account) h total =
    (v ∷ workers, ap (Option.map (λ v. v ∷ workers)) e, (handed, (rest, account, h, total)))

-- Where a worker is found it takes the client.
add_at-Shares :
    (s : ℕ) (workers : List WorkerThread) (n : ℕ → ℕ) (i : ℕ)
    → find_can_use_worker_thread workers ≡ some i
    → Shared workers n
    → Shares (with_one s n) (add_at i s workers)
unfolding find_can_use_worker_thread add_at
add_at-Shares s [] n i e h = absurd cc
add_at-Shares s (w ∷ workers) n zero e (handed, (rest, account, h, total)) =
    first-Shares (with_one s n) workers (s ∷ handed) rest (add_client s w)
      (add_client-Runs s w account) h (λ t. omega (arith, total t))
add_at-Shares s (w ∷ workers) n (suc i) e (handed, (rest, account, h, total)) =
    elim (Bool-cases (can_use w)) [
      | inl u ↦ absurd (not_later i (sym (here_lem w workers u) ∙ e))
      | inr u ↦
          cons-Shares (with_one s n) w handed (with_one s rest) (add_at i s workers) account
            (add_at-Shares s workers rest i (before _ i (sym (later_lem w workers u) ∙ e)) h)
            (λ t. omega (arith, total t))
    ]

pub place_client-Shares :
    (s : ℕ) (workers : List WorkerThread) (n : ℕ → ℕ)
    → Shared workers n
    → Shares (with_one s n) (place_client s workers)
unfolding place_client
place_client-Shares s workers n h = elim (Option-cases (find_can_use_worker_thread workers)) [
  | inl missing ↦ rw (place_client, missing) (_, refl, Shared-snoc s workers n h)
  | inr (i, found) ↦ rw (place_client, found) (add_at-Shares s workers n i found h)
]

pub stop_workers-Shared :
    (workers : List WorkerThread) (n : ℕ → ℕ) → Shared workers n → Shared (stop_workers workers) n
unfolding stop_workers stop_thread
stop_workers-Shared [] n h = h
stop_workers-Shared (w ∷ workers) n (handed, (rest, account, h, total)) = (
  handed,
  (
    rest,
    Accounts-same w (stop_thread w) refl refl refl refl refl refl account,
    stop_workers-Shared workers rest h,
    total,
  ),
)

-- A round of a worker hands nothing over.
pub perform_at-Shares :
    (i : ℕ) (call : WorkerCall) (workers : List WorkerThread) (n : ℕ → ℕ)
    → Enough call
    → ((handed : List ℕ) → handed_by call handed ≡ handed)
    → Shared workers n
    → Shares n (perform_at i call workers)
unfolding perform_at
perform_at-Shares zero call [] n enough none_handed h = ([], refl, h)
perform_at-Shares (suc i) call [] n enough none_handed h = ([], refl, h)
perform_at-Shares zero call (w ∷ workers) n enough none_handed (handed, (rest, account, h, total)) =
    first-Shares n workers handed rest (perform call w)
      (subst (λ l. Runs l (perform call w)) (none_handed handed)
        (perform-Runs call w enough account))
      h total
perform_at-Shares (suc i) call (w ∷ workers) n enough none_handed
      (handed, (rest, account, h, total)) =
    cons-Shares n w handed rest (perform_at i call workers) account
      (perform_at-Shares i call workers rest enough none_handed h) total

-- The destructors close what the workers have.
abbrev pub Closes : (ℕ → ℕ) → Option (List ℕ) → Type 0
Closes n o = (sockets : List ℕ) × (o ≡ some sockets) × ((s : ℕ) → times s sockets ≡ n s)

pub times-append : (s : ℕ) (l k : List ℕ) → times s (l ++ k) ≡ times s l + times s k
times-append s [] k = omega arith
times-append s (x ∷ l) k = omega (arith, times-append s l k)

both-Closes :
    (n rest : ℕ → ℕ) (w : WorkerThread) (handed : List ℕ) (o : Option (List ℕ))
    → Accounts handed w
    → Closes rest o
    → ((s : ℕ) → n s ≡ times s handed + rest s)
    → Closes n (both_closed (destroy_worker w) o)
both-Closes n rest w handed o account (sockets, e, closed) total =
    let (u, made, all) = destroy_worker-closes w account in
    rw (made, e)
      (
        u.closed ++ sockets,
        refl,
        λ s. omega (arith, times-append s u.closed sockets, all s, closed s, total s),
      )

pub destroy_all-Closes :
    (workers : List WorkerThread) (n : ℕ → ℕ) → Shared workers n → Closes n (destroy_all workers)
unfolding destroy_all
destroy_all-Closes [] n h = ([], refl, λ s. sym (h s))
destroy_all-Closes (w ∷ workers) n (handed, (rest, account, h, total)) =
    both-Closes n rest w handed (destroy_all workers) account (destroy_all-Closes workers rest h)
      total
