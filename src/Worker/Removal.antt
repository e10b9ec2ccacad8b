-- ===== src/Worker/Removal.antt =====
-- RemoveSocketFromList and HasClient against the list of places.
use game_database_server.Prelude.{
  ℕ, suc, zero, ◌<◌, ◌≡◌, refl, sym, ◌⊎◌, inl, inr, Bool, true, false, List, [], ◌∷◌, ◌++◌, Option,
  none, some, ◌==◌, ==_iff, if◌then◌else◌, length, append_assoc, arith, Bool-cases, subst,
}
use game_database_server.Packet.{Task, TaskType, disconnect_task}
use game_database_server.Worker.Clients.{
  SocketNode, Heap, WorkerThread, finish_removal, unlink, remove_loop, remove_socket_from_list,
  has_loop, has_client,
}
use game_database_server.Worker.Chain.{
  Place, Segment, last_address, Segment-append, last_address-append, last-cases,
}
use game_database_server.Worker.Growth.{Holds}
use game_database_server.Worker.Unlinking.{
  without, has, removed, bridged_lem, first-Holds, later-Holds,
}

-- The task that tells the database thread that a client has gone.
abbrev pub notified : ℕ → WorkerThread → List Task
notified s w =
    if w.has_queue then disconnect_task s TaskType.client_disconnected ∷ w.tasks else w.tasks

-- The list is without the socket, which is closed, and the database thread is told of it.
abbrev pub Parted : ℕ → WorkerThread → List Place → WorkerThread → Type 0
Parted s w l v = Holds v l × (v.closed ≡ s ∷ w.closed) × (v.tasks ≡ notified s w)

hit-Parted :
    (w : WorkerThread) (p : List Place) (c : Place) (r : List Place) (next : Option ℕ)
    → Holds w (p ++ c ∷ r)
    → Segment w.heap w.head p (some c.address)
    → Segment w.heap next r none
    → Parted c.socket w (p ++ r) (removed w p c next)
unfolding finish_removal unlink
hit-Parted w p c r next h front back = elim (last-cases p) [
  | inl e ↦ rw e (first-Holds w c r next (subst (λ m. Holds w (m ++ c ∷ r)) e h) back, refl, refl)
  | inr (k, d, e) ↦
      let front_of = subst (λ m. Segment w.heap w.head m (some c.address)) e front in
      rw e (
        subst (Parted c.socket w ((k ++ d ∷ []) ++ r)) (sym (bridged_lem w k d c next front_of)) (
          later-Holds w k d c r next (subst (λ m. Holds w (m ++ c ∷ r)) e h) front_of back,
          refl,
          refl,
        ))
]

-- How a removal ends, for the list that is to be left, and for the places before and behind.
abbrev pub EndsWith : ℕ → WorkerThread → Bool → List Place → Option WorkerThread → Type 0
EndsWith s w found left o =
    ((found ≡ false) × (o ≡ some w))
    ⊎ ((found ≡ true) × ((v : WorkerThread) × (o ≡ some v) × Parted s w left v))

abbrev pub Ends : ℕ → WorkerThread → (front behind : List Place) → Option WorkerThread → Type 0
Ends s w p l o = EndsWith s w (has s l) (p ++ without s l) o

module _ (s : ℕ) (w : WorkerThread) (fuel : ℕ) (prev : Option ℕ) (a : ℕ) (n : SocketNode)
    (node : w.heap a ≡ some n) where
  loop_hit :
      (n.socket == s) ≡ true
      → remove_loop (suc fuel) s prev (some a) w
        ≡ some (finish_removal n.socket a (unlink prev a n.next w))
  unfolding remove_loop
  loop_hit e = rw (remove_loop, node, e) refl

  loop_miss :
      (n.socket == s) ≡ false
      → remove_loop (suc fuel) s prev (some a) w ≡ remove_loop fuel s (some a) n.next w
  unfolding remove_loop
  loop_miss e = rw (remove_loop, node, e) refl

remove_loop_lem :
    (s : ℕ) (w : WorkerThread) (l p : List Place) (fuel : ℕ) (current : Option ℕ)
    → length l < fuel
    → Holds w (p ++ l)
    → Segment w.heap w.head p current
    → Segment w.heap current l none
    → Ends s w p l (remove_loop fuel s (last_address p) current w)
unfolding remove_loop finish_removal unlink
remove_loop_lem s w l p zero current enough h front back = absurd (omega arith)
remove_loop_lem s w [] p (suc fuel) current enough h front back = rw back (inl (refl, refl))
remove_loop_lem s w (c ∷ r) p (suc fuel) current enough h front (at, (next, node, back)) =
    elim (Bool-cases (c.socket == s)) [
      | inl e ↦
          rw (at, loop_hit s w fuel (last_address p) c.address _ node e, e)
            (inr (
              refl,
              (
                _,
                refl,
                subst (λ t. Parted t w (p ++ r) (removed w p c next)) ((==_iff c.socket s).0 e)
                    (hit-Parted w p c r next h (subst (Segment w.heap w.head p) at front) back),
              ),
            ))
      | inr e ↦
          rw (at, loop_miss s w fuel (last_address p) c.address _ node e, e)
            (subst (λ m. EndsWith s w (has s r) m (remove_loop fuel s (some c.address) next w))
              (append_assoc p (c ∷ []) (without s r))
              (subst (λ q. Ends s w (p ++ c ∷ []) r (remove_loop fuel s q next w))
                (last_address-append p c)
                (remove_loop_lem s w r (p ++ c ∷ []) fuel next (omega arith)
                  (subst (Holds w) (sym (append_assoc p (c ∷ []) r)) h)
                  (Segment-append w.heap w.head current next p (c ∷ []) front
                    (at, (next, node, refl)))
                  back)))
    ]

-- RemoveSocketFromList ends, and changes nothing where the worker does not have the socket. Where
-- it has, the list is without the first place of the socket and otherwise in its order, the socket
-- is closed, and the database thread is told of it if there is a task queue.
pub remove_socket_from_list-Ends :
    (s : ℕ) (w : WorkerThread) (l : List Place)
    → Holds w l
    → Ends s w [] l (remove_socket_from_list s w)
unfolding remove_socket_from_list
remove_socket_from_list-Ends s w l h =
    remove_loop_lem s w l [] (suc w.client_count) w.head (omega (arith, h.count)) h refl h.chain

has_loop_lem :
    (s : ℕ) (h : Heap) (l : List Place) (fuel : ℕ) (current : Option ℕ)
    → length l < fuel
    → Segment h current l none
    → has_loop fuel s current h ≡ some (has s l)
unfolding has_loop
has_loop_lem s h l zero current enough chain = absurd (omega arith)
has_loop_lem s h [] (suc fuel) current enough chain = rw chain refl
has_loop_lem s h (c ∷ l) (suc fuel) current enough (at, (next, node, chain)) =
    elim (Bool-cases (c.socket == s)) [
      | inl e ↦ rw (at, has_loop, node, e) refl
      | inr e ↦ rw (at, has_loop, node, e) (has_loop_lem s h l fuel next (omega arith) chain)
    ]

-- HasClient ends, and tells whether the socket is in the list.
pub has_client-has :
    (s : ℕ) (w : WorkerThread) (l : List Place) → Holds w l → has_client s w ≡ some (has s l)
unfolding has_client
has_client-has s w l h =
    has_loop_lem s w.heap l (suc w.client_count) w.head (omega (arith, h.count)) h.chain
