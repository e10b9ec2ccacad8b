-- ===== src/Database/Traffic/Order.antt =====
-- The loop of Run: the order in which tasks are taken from RecvQueue and answered.
use game_database_server.Prelude.{
  ◌≡◌, ◌≢◌, refl, sym, ap, ◌∙◌, subst, ◌⊎◌, inl, inr, Bool, true, false, List, [], ◌∷◌, ◌++◌,
  String, append_assoc, append-nil, Bool-cases, if◌then◌else◌,
}
use game_database_server.Packet.{Task, DbResponse}
use game_database_server.Platform.{Platform}
use game_database_server.Action
use game_database_server.Action.{World, Outcome, ok, thrown, crash, pure, ◌>>=◌}
use game_database_server.Action.Once.{AtMostOne}
use game_database_server.Connector.{init, connect, is_connected, renew, set_conn, set_init}
use game_database_server.Database.Session.{check_db_connection, reconnect_if_needed}
use game_database_server.Database.Tasks.{run_task, take_task, run_round, run}
use game_database_server.Database.Traffic.Packets.{Builds}
use game_database_server.Database.Traffic.Steps.{reconnect_if_needed-Quiet}
use game_database_server.Database.Session.Reconnect.{renewed, prepared}
use game_database_server.Database.Traffic.Tasks.{run_task-AtMostOne, run_task_returns}

-- Each of the tasks in turn causes at most one response, and only to its own socket.
abbrev pub Answered : List Task → List DbResponse → List DbResponse → Type 0
Answered [] before after = after ≡ before
Answered (task ∷ tasks) before after =
    (mid : List DbResponse) × (AtMostOne task.client_socket before mid) × (Answered tasks mid after)

-- The tasks are split in two: those processed, in order, and those left. The loop returns what is
-- left, or the process has stopped.
abbrev pub InOrder : List Task → List DbResponse → List DbResponse → Outcome (List Task) → Type 0
InOrder tasks before after r =
    (done : List Task) × (rest : List Task) × (tasks ≡ done ++ rest)
    × (Answered done before after)
    × ((r ≡ ok rest) ⊎ (r ≡ crash))

-- The tasks that arrive in the rounds.
abbrev pub arrivals : List (Bool × List Task) → List Task
arrivals [] = []
arrivals ((check_due, arrived) ∷ rounds) = arrived ++ arrivals rounds

Answered-append :
    (xs ys : List Task) (before mid after : List DbResponse)
    → Answered xs before mid
    → Answered ys mid after
    → Answered (xs ++ ys) before after
Answered-append [] ys before mid after h k = subst (λ b. Answered ys b after) h k
Answered-append (x ∷ xs) ys before mid after (one, a, h) k =
    (one, a, Answered-append xs ys one mid after h k)

module _ (queue arrived later done left : List Task) (split : queue ++ arrived ≡ done ++ left) where
  split_later : queue ++ (arrived ++ later) ≡ done ++ (left ++ later)
  split_later =
      sym (append_assoc queue arrived later)
      ∙ ap (λ q. q ++ later) split
      ∙ append_assoc done left later

  module _ {before mid after : List DbResponse} (answered : Answered done before mid) where
    -- What follows a round is in order after it.
    InOrder-append :
        {r : Outcome (List Task)}
        → InOrder (left ++ later) mid after r
        → InOrder (queue ++ (arrived ++ later)) before after r
    InOrder-append (more, rest, e, a, h) = (
      done ++ more,
      rest,
      split_later ∙ ap (λ q. done ++ q) e ∙ sym (append_assoc done more rest),
      Answered-append done more before mid after answered a,
      h,
    )

ok_left : (rest left : List Task) → (ok rest ≡ ok left) ⊎ (ok rest ≡ crash) → rest ≡ left
ok_left rest left (inl h) = cc
ok_left rest left (inr h) = cc

none_processed : (tasks : List Task) (sent : List DbResponse) → InOrder tasks sent sent (ok tasks)
none_processed tasks sent = ([], tasks, refl, refl, inl refl)

module _ ⦃p : Platform⦄ where
  reconnect_returns : (w : World) → (b : Bool) × ((reconnect_if_needed w).0 ≡ ok b)
  unfolding reconnect_if_needed check_db_connection renew init connect set_conn set_init ◌>>=◌
  reconnect_returns w = elim (Bool-cases (is_connected w)) [
    | inl c ↦ rw (c) (true, refl)
    | inr c ↦ elim (Bool-cases (p.init_succeeds (renewed w))) [
      | inl i ↦ rw (c, i) (p.connect_succeeds (prepared w), refl)
      | inr i ↦ rw (c, i) (false, refl)
    ]
  ]

module _ ⦃p : Platform⦄ (works : Builds p) where
  take_task-InOrder :
      (queue : List Task) (w : World)
      → InOrder queue w.sent (take_task queue w).1.sent (take_task queue w).0
  unfolding take_task ◌>>=◌
  take_task-InOrder [] w = none_processed [] w.sent
  take_task-InOrder (task ∷ queue) w =
      taken (run_task task w).0 (run_task task w).1 (run_task_returns task w)
        (run_task-AtMostOne works task w)
    where
      taken :
          (r : Outcome (Unit {0})) (v : World)
          → ((what : String) → r ≢ thrown what)
          → AtMostOne task.client_socket w.sent v.sent
          → InOrder
              (task ∷ queue)
              w.sent
              (Action.continue r (λ _. pure queue) v).1.sent
              (Action.continue r (λ _. pure queue) v).0
      taken (ok u) v n a = (task ∷ [], queue, refl, (v.sent, a, refl), inl refl)
      taken (thrown what) v n a = absurd (n what refl)
      taken crash v n a = (task ∷ [], queue, refl, (v.sent, a, refl), inr refl)

  run_round-InOrder :
      (check_due : Bool) (queue : List Task) (w : World)
      → InOrder queue w.sent (run_round check_due queue w).1.sent (run_round check_due queue w).0
  unfolding run_round ◌>>=◌
  run_round-InOrder true queue w =
      checked (reconnect_if_needed w).0 (reconnect_if_needed w).1 w.sent (reconnect_returns w)
        (reconnect_if_needed-Quiet.at w)
    where
      next : Bool → Action.Action (List Task)
      next connected = if connected then take_task queue else pure queue

      checked :
          (r : Outcome Bool) (v : World) (before : List DbResponse)
          → (b : Bool) × (r ≡ ok b)
          → v.sent ≡ before
          → InOrder queue before (Action.continue r next v).1.sent (Action.continue r next v).0
      checked (ok true) v before h e =
          subst (λ b. InOrder queue b (take_task queue v).1.sent (take_task queue v).0) e
            (take_task-InOrder queue v)
      checked (ok false) v before h e =
          subst (λ b. InOrder queue b v.sent (ok queue)) e (none_processed queue v.sent)
      checked (thrown what) v before (b, h) e = cc
      checked crash v before (b, h) e = cc
  run_round-InOrder false queue w = take_task-InOrder queue w

  -- Where FlatBuffers builds its packets, the loop of Run, started with any queue in any state,
  -- processes the tasks that wait and arrive in their order, oldest first: those processed are a
  -- first part of them, each of these in turn causes at most one response, to its own socket, and
  -- the loop returns the others in their order, unless the process stops by undefined behaviour.
  pub run-InOrder :
      (rounds : List (Bool × List Task)) (queue : List Task) (w : World)
      → InOrder (queue ++ arrivals rounds) w.sent (run rounds queue w).1.sent (run rounds queue w).0
  unfolding run ◌>>=◌
  run-InOrder [] queue w =
      subst (λ q. InOrder q w.sent w.sent (ok queue)) (sym (append-nil queue))
        (none_processed queue w.sent)
  run-InOrder ((check_due, arrived) ∷ rounds) queue w =
      joined (run_round check_due (queue ++ arrived) w).0
        (run_round check_due (queue ++ arrived) w).1
        (run_round-InOrder check_due (queue ++ arrived) w) (run-InOrder rounds)
    where
      joined :
          (r : Outcome (List Task)) (v : World)
          → InOrder (queue ++ arrived) w.sent v.sent r
          → ((rest : List Task) (u : World)
              → InOrder
                  (rest ++ arrivals rounds)
                  u.sent
                  (run rounds rest u).1.sent
                  (run rounds rest u).0)
          → InOrder
              (queue ++ (arrived ++ arrivals rounds))
              w.sent
              (Action.continue r (run rounds) v).1.sent
              (Action.continue r (run rounds) v).0
      joined (ok rest) v (done, left, e, a, h) following =
          InOrder-append queue arrived (arrivals rounds) done left e a (
            subst
              (λ q.
                InOrder (q ++ arrivals rounds) v.sent (run rounds rest v).1.sent
                  (run rounds rest v).0)
              (ok_left rest left h) (following rest v))
      joined (thrown what) v (done, left, e, a, inl h) following = cc
      joined (thrown what) v (done, left, e, a, inr h) following = cc
      joined crash v (done, left, e, a, h) following =
          InOrder-append queue arrived (arrivals rounds) done left e a
            ([], left ++ arrivals rounds, refl, refl, inr refl)
