-- ===== src/Worker/Lifetime.antt =====
-- A worker from its construction to its destruction: what becomes of the sockets.
use game_database_server.Prelude.{
  ℕ, zero, suc, ◌+◌, ◌<◌, ◌≡◌, refl, ◌∙◌, Bool, List, [], ◌∷◌, Option, none, some, ◌==◌,
  if◌then◌else◌, length, arith,
}
use game_database_server.Worker.Clients.{
  Heap, WorkerThread, new_worker, stop_thread, remove_socket_from_list, write,
}
use game_database_server.Worker.Chain.{Place, Segment, Distinct, Segment-write}
use game_database_server.Worker.Growth.{new_worker-Holds}
use game_database_server.Worker.Transfer.{RecvResult, process_client_data}
use game_database_server.Worker.Serving.{
  SelectResult, listed, socket_list, after, remove_errored, process_readable, serve_sockets,
  serve_round, WorkerCall, perform, run_on_server_thread, close_nodes, destroy_worker,
}
use game_database_server.Worker.Ledger.{
  times, placed, Accounts, Runs, Runs-some, Accounts-same, remove_socket_from_list-Runs,
  add_client-Runs,
}
use game_database_server.Worker.Exchange.{
  Runs-if, Runs-after, EnoughRecv, EnoughSend, process_client_data-Runs, send_to_client-Runs,
}

remove_errored-Runs :
    {handed : List ℕ} (errored : ℕ → Bool) (sockets : List ℕ) (w : WorkerThread)
    → Accounts handed w
    → Runs handed (remove_errored errored sockets w)
unfolding remove_errored
remove_errored-Runs errored [] w h = Runs-some w h
remove_errored-Runs errored (s ∷ sockets) w h =
    Runs-after (if errored s then remove_socket_from_list s w else some w)
      (remove_errored errored sockets)
      (Runs-if (errored s) (remove_socket_from_list s w) (some w)
        (remove_socket_from_list-Runs s w h) (Runs-some w h))
      (remove_errored-Runs errored sockets)

process_readable-Runs :
    {handed : List ℕ} (readable : ℕ → Bool) (receives : ℕ → List RecvResult) (sockets : List ℕ)
    (w : WorkerThread)
    → ((s : ℕ) → EnoughRecv (receives s))
    → Accounts handed w
    → Runs handed (process_readable readable receives sockets w)
unfolding process_readable
process_readable-Runs readable receives [] w enough h = Runs-some w h
process_readable-Runs readable receives (s ∷ sockets) w enough h =
    Runs-after (if readable s then process_client_data s (receives s) w else some w)
      (process_readable readable receives sockets)
      (Runs-if (readable s) (process_client_data s (receives s) w) (some w)
        (process_client_data-Runs s (receives s) w (enough s) h) (Runs-some w h))
      (λ v k. process_readable-Runs readable receives sockets v enough k)

serve_sockets-Runs :
    {handed : List ℕ} (select : SelectResult) (receives : ℕ → List RecvResult) (sockets : List ℕ)
    (w : WorkerThread)
    → ((s : ℕ) → EnoughRecv (receives s))
    → Accounts handed w
    → Runs handed (serve_sockets select receives sockets w)
unfolding serve_sockets
serve_sockets-Runs select receives [] w enough h = Runs-some w h
serve_sockets-Runs SelectResult.failed receives (s ∷ sockets) w enough h = Runs-some w h
serve_sockets-Runs (SelectResult.ready readable errored) receives (s ∷ sockets) w enough h =
    Runs-after (remove_errored errored (s ∷ sockets) w)
      (process_readable readable receives (s ∷ sockets))
      (remove_errored-Runs errored (s ∷ sockets) w h)
      (λ v k. process_readable-Runs readable receives (s ∷ sockets) v enough k)

-- The copy of the sockets ends.
socket_list-ends :
    (h : Heap) (l : List Place) (fuel : ℕ) (current : Option ℕ)
    → length l < fuel
    → Segment h current l none
    → (sockets : List ℕ) × (socket_list fuel current h ≡ some sockets)
unfolding socket_list
socket_list-ends h l zero current enough chain = absurd (omega arith)
socket_list-ends h [] (suc fuel) current enough chain = rw chain ([], refl)
socket_list-ends h (c ∷ l) (suc fuel) current enough (at, (next, node, chain)) =
    let (sockets, e) = socket_list-ends h l fuel next (omega arith) chain in
    rw (at, socket_list, node, e) (listed c.socket sockets, refl)

serve_round-Runs :
    {handed : List ℕ} (select : SelectResult) (receives : ℕ → List RecvResult) (w : WorkerThread)
    → ((s : ℕ) → EnoughRecv (receives s))
    → Accounts handed w
    → Runs handed (serve_round select receives w)
unfolding serve_round
serve_round-Runs select receives w enough h =
    let (sockets, e) =
      socket_list-ends w.heap h.places (suc w.client_count) w.head (omega (arith, h.holds.count))
        h.holds.chain in
    Runs-if (w.client_count == 0) (some w) _ (Runs-some w h)
      (rw e (serve_sockets-Runs select receives sockets w enough h))

-- What Winsock answers in a call lasts to its end.
abbrev pub Enough : WorkerCall → Type 0
Enough (WorkerCall.round select receives) = (s : ℕ) → EnoughRecv (receives s)
Enough (WorkerCall.send s bytes results) = EnoughSend results
Enough (WorkerCall.add s) = Unit {0}
Enough WorkerCall.stop = Unit {0}

abbrev pub AllEnough : List WorkerCall → Type 0
AllEnough [] = Unit {0}
AllEnough (call ∷ calls) = Enough call × AllEnough calls

-- The sockets that the calls hand to the worker, with those before.
abbrev pub handed_by : WorkerCall → List ℕ → List ℕ
handed_by (WorkerCall.add s) handed = s ∷ handed
handed_by (WorkerCall.round select receives) handed = handed
handed_by (WorkerCall.send s bytes results) handed = handed
handed_by WorkerCall.stop handed = handed

abbrev pub handed_over : List WorkerCall → List ℕ → List ℕ
handed_over [] handed = handed
handed_over (call ∷ calls) handed = handed_over calls (handed_by call handed)

pub perform-Runs :
    {handed : List ℕ} (call : WorkerCall) (w : WorkerThread)
    → Enough call
    → Accounts handed w
    → Runs (handed_by call handed) (perform call w)
unfolding perform stop_thread
perform-Runs (WorkerCall.round select receives) w enough h =
    Runs-if w.do_thread (serve_round select receives w) (some w)
      (serve_round-Runs select receives w enough h) (Runs-some w h)
perform-Runs (WorkerCall.add s) w enough h = add_client-Runs s w h
perform-Runs (WorkerCall.send s bytes results) w enough h =
    send_to_client-Runs s bytes results w enough h
perform-Runs WorkerCall.stop w enough h =
    Runs-some _ (Accounts-same w _ refl refl refl refl refl refl h)

run_on_server_thread-Runs :
    {handed : List ℕ} (calls : List WorkerCall) (w : WorkerThread)
    → AllEnough calls
    → Accounts handed w
    → Runs (handed_over calls handed) (run_on_server_thread calls w)
unfolding run_on_server_thread
run_on_server_thread-Runs [] w enough h = Runs-some w h
run_on_server_thread-Runs (call ∷ calls) w (enough, more) h =
    Runs-after (perform call w) (run_on_server_thread calls) (perform-Runs call w enough h)
      (λ v k. run_on_server_thread-Runs calls v more k)

close_nodes-closes :
    (l : List Place) (fuel : ℕ) (current : Option ℕ) (w : WorkerThread)
    → length l < fuel
    → Segment w.heap current l none
    → Distinct l
    → (v : WorkerThread) × (close_nodes fuel current w ≡ some v)
      × ((s : ℕ) → times s v.closed ≡ placed s l + times s w.closed)
unfolding close_nodes
close_nodes-closes l zero current w enough chain distinct = absurd (omega arith)
close_nodes-closes [] (suc fuel) current w enough chain distinct =
    rw chain (w, refl, λ s. omega arith)
close_nodes-closes (c ∷ l) (suc fuel) current w enough (at, (next, node, chain)) (apart, distinct) =
    let w' : WorkerThread = record w {
      closed = c.socket ∷ w.closed;
      heap = write c.address none w.heap;
    } in
    let (v, e, total) =
      close_nodes-closes l fuel next w' (omega arith)
        (Segment-write w.heap c.address none next none l apart chain) distinct in
    rw (at, close_nodes, node) (v, e, λ s. omega (arith, total s))

-- The account at the end, behind a worker's calls and its destructor.
pub destroy_worker-closes :
    {handed : List ℕ} (w : WorkerThread)
    → Accounts handed w
    → (u : WorkerThread) × (destroy_worker w ≡ some u)
      × ((s : ℕ) → times s u.closed ≡ times s handed)
unfolding destroy_worker stop_thread
destroy_worker-closes w h =
    let (u, e, total) =
      close_nodes-closes h.places (suc w.client_count) w.head (stop_thread w)
        (omega (arith, h.holds.count)) h.holds.chain h.holds.distinct in
    (u, e, λ s. total s ∙ h.balanced s)

pub new_worker-Accounts : (has_queue : Bool) (s : ℕ) → Accounts (s ∷ []) (new_worker has_queue s)
unfolding new_worker
new_worker-Accounts has_queue s = record {
  places = record { address = 0; socket = s } ∷ [];
  holds = new_worker-Holds has_queue s;
  balanced = λ t. omega arith;
}

-- A worker that is made for a socket runs through any sequence of rounds of its loop and of calls by
-- other threads, one at a time, and then through its destructor, where the answers of select, send
-- and recv last so long. Every socket that it was given, the first and those of AddClient, has then
-- been closed as often as it was given, and no other socket has been closed.
pub destroy_worker-closes_once :
    (has_queue : Bool) (s : ℕ) (calls : List WorkerCall)
    → AllEnough calls
    → (u : WorkerThread) × (after
          (run_on_server_thread calls (new_worker has_queue s))
          destroy_worker
        ≡ some u)
      × ((t : ℕ) → times t u.closed ≡ times t (handed_over calls (s ∷ [])))
destroy_worker-closes_once has_queue s calls enough =
    let (v, e, h) =
      run_on_server_thread-Runs calls (new_worker has_queue s) enough
        (new_worker-Accounts has_queue s) in
    rw e (destroy_worker-closes v h)

-- At any time between two calls no worker's list holds more than 50 clients, and each socket is in
-- the list or closed as often as it was given.
pub run_on_server_thread-Accounts :
    (has_queue : Bool) (s : ℕ) (calls : List WorkerCall)
    → AllEnough calls
    → Runs (handed_over calls (s ∷ [])) (run_on_server_thread calls (new_worker has_queue s))
run_on_server_thread-Accounts has_queue s calls enough =
    run_on_server_thread-Runs calls (new_worker has_queue s) enough
      (new_worker-Accounts has_queue s)
