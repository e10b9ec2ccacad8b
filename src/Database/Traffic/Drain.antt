-- ===== src/Database/Traffic/Drain.antt =====
-- The loop of Run: it empties RecvQueue.
use game_database_server.Prelude.{
  ℕ, zero, suc, ◌≤◌, ◌≡◌, ◌≢◌, refl, ◌⊎◌, inl, inr, Bool, false, List, [], ◌∷◌, ◌++◌, String,
  length, append-nil, arith,
}
use game_database_server.Packet.{Task}
use game_database_server.Platform.{Platform}
use game_database_server.Action.{World, Outcome, ok, thrown, crash, Action, pure, ◌>>=◌}
use game_database_server.Database.Tasks.{run_task, take_task, run_round, run}
use game_database_server.Database.Traffic.Tasks.{run_task_returns}

-- Rounds in which nothing arrives and no connection is checked.
abbrev pub idle : ℕ → List (Bool × List Task)
idle zero = []
idle (suc n) = (false, []) ∷ idle n

abbrev pub Drained : Outcome (List Task) → Type 0
Drained r = (r ≡ ok []) ⊎ (r ≡ crash)

module _ ⦃p : Platform⦄ where
  -- A task is taken from the queue, and what follows drains the rest.
  take_task-Drained :
      (task : Task) (queue : List Task) (f : List Task → Action (List Task)) (w : World)
      → ((u : World) → Drained (f queue u).0)
      → Drained ((take_task (task ∷ queue) >>= f) w).0
  unfolding take_task ◌>>=◌
  take_task-Drained task queue f w rest =
      taken (run_task task w).0 (run_task task w).1 (run_task_returns task w)
    where
      taken :
          (r : Outcome (Unit {0})) (v : World)
          → ((what : String) → r ≢ thrown what)
          → Drained (((λ _. (r, v)) >>= (λ _. pure queue) >>= f) v).0
      taken (ok u) v m = rest v
      taken (thrown what) v m = absurd (m what refl)
      taken crash v m = inr refl

  -- As many idle rounds as tasks wait are enough: the loop returns with an empty queue, unless the
  -- process stops by undefined behaviour in a task.
  pub run-drains :
      (n : ℕ) (queue : List Task) (w : World)
      → length queue ≤ n
      → ((run (idle n) queue w).0 ≡ ok []) ⊎ ((run (idle n) queue w).0 ≡ crash)
  unfolding run run_round take_task ◌>>=◌
  run-drains zero [] w h = inl refl
  run-drains zero (task ∷ queue) w h = absurd (omega (arith, h))
  run-drains (suc n) [] w h = run-drains n [] w (omega arith)
  run-drains (suc n) (task ∷ queue) w h =
      take_task-Drained task (queue ++ []) (run (idle n)) w
        λ v. run-drains n (queue ++ []) v (rw (append-nil queue) (omega (arith, h)))
