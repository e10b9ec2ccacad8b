-- ===== src/Server/Responding.antt =====
-- The account of the sockets through ClearDeadThreads and ProcessDBResponse.
use game_database_server.Prelude.{
  ℕ, ◌+◌, ◌≡◌, refl, sym, ap, ◌∙◌, subst, inl, inr, Bool, true, false, List, [], ◌∷◌, ◌++◌, Option,
  none, some, if◌then◌else◌, arith, Bool-cases,
}
use game_database_server.Packet.{DbResponse}
use game_database_server.PacketManager.Defs.{is_empty}
use game_database_server.Worker.Clients.{WorkerThread}
use game_database_server.Worker.Removal.{has_client-has}
use game_database_server.Worker.Unlinking.{has}
use game_database_server.Worker.Transfer.{SendResult, Sending, send_to_client}
use game_database_server.Worker.Serving.{worker_of, destroy_worker}
use game_database_server.Worker.Ledger.{times, Accounts, Runs}
use game_database_server.Worker.Exchange.{EnoughSend, send_to_client-Runs}
use game_database_server.Worker.Lifetime.{destroy_worker-closes}
use game_database_server.Server.Workers.{
  clear_dead_threads, Delivered, after_sending, behind, send_by_socket, process_db_response,
}
use game_database_server.Server.Delivery.{step_true, step_false}
use game_database_server.Server.Loop.{both_closed, destroy_dead}
use game_database_server.Server.Sharing.{Shared, times-append}

-- The dead workers are destroyed, and the others share what is left.
abbrev pub Cleared : (ℕ → ℕ) → Option (List ℕ) → List WorkerThread → Type 0
Cleared n o left =
    (sockets : List ℕ) × ((m : ℕ → ℕ) × (o ≡ some sockets)
      × Shared left m
      × ((s : ℕ) → times s sockets + m s ≡ n s))

kept-Cleared :
    (n rest : ℕ → ℕ) (w : WorkerThread) (handed : List ℕ) (o : Option (List ℕ))
    (left : List WorkerThread)
    → Accounts handed w
    → ((s : ℕ) → n s ≡ times s handed + rest s)
    → Cleared rest o left
    → Cleared n o (w ∷ left)
kept-Cleared n rest w handed o left account total (sockets, (m, e, h, closed)) = (
  sockets,
  (
    (λ s. times s handed + m s),
    e,
    (handed, (m, account, h, λ s. refl)),
    λ s. omega (arith, closed s, total s),
  ),
)

gone-Cleared :
    (n rest : ℕ → ℕ) (w : WorkerThread) (handed : List ℕ) (o : Option (List ℕ))
    (left : List WorkerThread)
    → Accounts handed w
    → ((s : ℕ) → n s ≡ times s handed + rest s)
    → Cleared rest o left
    → Cleared n (both_closed (destroy_worker w) o) left
gone-Cleared n rest w handed o left account total (sockets, (m, e, h, closed)) =
    let (u, made, all) = destroy_worker-closes w account in
    rw (made, e)
      (
        u.closed ++ sockets,
        (m, refl, h, λ s. omega (arith, times-append s u.closed sockets, all s, closed s, total s)),
      )

Cleared-if :
    (n : ℕ → ℕ) (b : Bool) (x y : Option (List ℕ)) (l k : List WorkerThread)
    → Cleared n x l
    → Cleared n y k
    → Cleared n (if b then x else y) (if b then l else k)
Cleared-if n true x y l k h g = h
Cleared-if n false x y l k h g = g

pub clear_dead_threads-Cleared :
    (workers : List WorkerThread) (n : ℕ → ℕ)
    → Shared workers n
    → Cleared n (destroy_dead workers) (clear_dead_threads workers)
unfolding destroy_dead clear_dead_threads
clear_dead_threads-Cleared [] n h = ([], (n, refl, h, λ s. omega arith))
clear_dead_threads-Cleared (w ∷ workers) n (handed, (rest, account, h, total)) =
    let o = destroy_dead workers in
    let left = clear_dead_threads workers in
    let cleared = clear_dead_threads-Cleared workers rest h in
    Cleared-if n w.do_thread o (both_closed (destroy_worker w) o) (w ∷ left) left
      (kept-Cleared n rest w handed o left account total cleared)
      (gone-Cleared n rest w handed o left account total cleared)

abbrev pub Delivers : (ℕ → ℕ) → Option Delivered → Type 0
Delivers n o = (d : Delivered) × (o ≡ some d) × Shared d.workers n

some_inj : {w v : WorkerThread} → some w ≡ some v → w ≡ v
some_inj e = cc e

after_sending-Delivers :
    (n rest : ℕ → ℕ) (handed : List ℕ) (workers : List WorkerThread) (o : Option Sending)
    → Runs handed (worker_of o)
    → Shared workers rest
    → ((s : ℕ) → n s ≡ times s handed + rest s)
    → Delivers n (after_sending workers o)
after_sending-Delivers n rest handed workers none (v, e, account) h total = absurd cc
after_sending-Delivers n rest handed workers (some sending) (v, e, account) h total =
    (_, refl, (handed, (rest, subst (Accounts handed) (sym (some_inj e)) account, h, total)))

behind-Delivers :
    (n rest : ℕ → ℕ) (handed : List ℕ) (w : WorkerThread) (o : Option Delivered)
    → Accounts handed w
    → Delivers rest o
    → ((s : ℕ) → n s ≡ times s handed + rest s)
    → Delivers n (behind w o)
behind-Delivers n rest handed w o account (d, e, h) total =
    rw e (_, refl, (handed, (rest, account, h, total)))

send_by_socket-Delivers :
    (s : ℕ) (bytes : List ℕ) (results : List SendResult) (workers : List WorkerThread) (n : ℕ → ℕ)
    → EnoughSend results
    → Shared workers n
    → Delivers n (send_by_socket s bytes results workers)
unfolding send_by_socket
send_by_socket-Delivers s bytes results [] n enough h = (_, refl, h)
send_by_socket-Delivers s bytes results (w ∷ workers) n enough (handed, (rest, account, h, total)) =
    let known = has_client-has s w account.places account.holds in
    elim (Bool-cases (has s account.places)) [
      | inl found ↦ rw (step_true s bytes results w workers (known ∙ ap some found)) (
          after_sending-Delivers n rest handed workers (send_to_client s bytes results w)
            (send_to_client-Runs s bytes results w enough account) h total)
      | inr missing ↦ rw (step_false s bytes results w workers (known ∙ ap some missing)) (
          behind-Delivers n rest handed w (send_by_socket s bytes results workers) account
            (send_by_socket-Delivers s bytes results workers rest enough h) total)
    ]

Delivers-if :
    (n : ℕ → ℕ) (b : Bool) (x y : Option Delivered)
    → Delivers n x
    → Delivers n y
    → Delivers n (if b then x else y)
Delivers-if n true x y h k = h
Delivers-if n false x y h k = k

pub process_db_response-Delivers :
    (response : DbResponse) (results : List SendResult) (workers : List WorkerThread) (n : ℕ → ℕ)
    → EnoughSend results
    → Shared workers n
    → Delivers n (process_db_response response results workers)
unfolding process_db_response
process_db_response-Delivers response results workers n enough h =
    Delivers-if n (is_empty response.response_data)
      (some (record { workers = workers; sending = none })) _ (_, refl, h)
      (send_by_socket-Delivers response.client_socket response.response_data results workers n
        enough h)
