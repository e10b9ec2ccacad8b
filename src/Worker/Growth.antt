-- ===== src/Worker/Growth.antt =====
-- AddClient against a list of sockets with a bound.
use game_database_server.Prelude.{
  ℕ, suc, ◌+◌, ◌<◌, ◌≤◌, ◌≡◌, ◌≢◌, refl, ◌∙◌, sym, ◌⊎◌, inl, inr, Bool, false, List, [], ◌∷◌, ◌++◌,
  none, some, leb, leb→le, length, length-append, arith, Bool-cases, subst,
}
use game_database_server.Worker.Clients.{
  Heap, WorkerThread, max_client_count, write, new_worker, is_full_access, close_socket, new_node,
  add_first, add_loop, add_client,
}
use game_database_server.Worker.Chain.{
  Place, Segment, Absent, write-other, Distinct, Below, last_address, write-same, Segment-append,
  Segment-write, Below-Absent, Segment-relink, Segment-last, last_address-append, last-cases,
  Distinct-append, append-Below, Below-mono,
}

-- The worker's list holds these places: the head leads to them and to nothing else, the tail is
-- the last, the count is right, and no address is used twice or will be given out again.
pub record Holds (w : WorkerThread) (l : List Place) : Type 0 where
  pub chain : Segment w.heap w.head l none
  pub distinct : Distinct l
  pub below : Below w.fresh l
  pub tail : w.tail ≡ last_address l
  pub count : w.client_count ≡ length l
  pub few : length l ≤ max_client_count

pub new_worker-Holds :
    (has_queue : Bool) (s : ℕ)
    → Holds (new_worker has_queue s) (record { address = 0; socket = s } ∷ [])
unfolding new_worker
new_worker-Holds has_queue s = record {
  chain = (refl, (none, refl, refl));
  distinct = (tt, tt);
  below = (omega arith, tt);
  tail = refl;
  count = refl;
  few = omega arith;
}

-- Nothing but the list of clients has changed.
abbrev pub KeepsRest : WorkerThread → WorkerThread → Type 0
KeepsRest w v =
    (v.tasks ≡ w.tasks)
    × (v.closed ≡ w.closed)
    × (v.do_thread ≡ w.do_thread)
    × (v.has_queue ≡ w.has_queue)

-- Behind the places of `w` there is one more, with the socket.
abbrev pub Grown : ℕ → WorkerThread → List Place → WorkerThread → Type 0
Grown s w l v = (a : ℕ) × Holds v (l ++ record { address = a; socket = s } ∷ []) × KeepsRest w v

-- The heap with the new node, and the state where it is behind the last place.
abbrev with_node : ℕ → WorkerThread → Heap
with_node s w = write w.fresh (some (record { socket = s; next = none })) w.heap

abbrev appended : ℕ → WorkerThread → Place → WorkerThread
appended s w c = record w {
  heap = write c.address (some (record { socket = c.socket; next = some w.fresh })) (with_node s w);
  fresh = suc w.fresh;
  tail = some w.fresh;
  client_count = w.client_count + 1;
}

module _ (s : ℕ) (w : WorkerThread) where
  apart : (k : List Place) (c : Place) → Absent w.fresh (k ++ c ∷ []) → w.fresh ≢ c.address
  apart [] c (n, d) e = n (sym e)
  apart (x ∷ k) c (n, d) e = apart k c d e

  appended-Holds :
      (k : List Place) (c : Place)
      → Holds w (k ++ c ∷ [])
      → length (k ++ c ∷ []) < max_client_count
      → Holds (appended s w c) ((k ++ c ∷ []) ++ record { address = w.fresh; socket = s } ∷ [])
  appended-Holds k c h room =
      let away = Below-Absent w.fresh (k ++ c ∷ []) h.below in
      let new : Place = record { address = w.fresh; socket = s } in
      record {
        chain =
            Segment-append (appended s w c).heap w.head (some w.fresh) none (k ++ c ∷ []) (new ∷ [])
              (Segment-relink (with_node s w) w.head none (some w.fresh) k c h.distinct
                (Segment-write w.heap w.fresh _ w.head none (k ++ c ∷ []) away h.chain))
              (
                refl,
                (
                  none,
                  write-other c.address w.fresh _ (with_node s w) (apart k c away)
                      ∙ write-same w.fresh _ w.heap,
                  refl,
                ),
              );
        distinct = Distinct-append (k ++ c ∷ []) new h.distinct away;
        below =
            append-Below (suc w.fresh) (k ++ c ∷ []) (new ∷ [])
              (Below-mono w.fresh (suc w.fresh) (k ++ c ∷ []) (omega arith) h.below)
              (omega arith, tt);
        tail = sym (last_address-append (k ++ c ∷ []) new);
        count = omega (arith, h.count, length-append (k ++ c ∷ []) (new ∷ []));
        few = omega (arith, room, length-append (k ++ c ∷ []) (new ∷ []));
      }

  add_loop-last :
      (fuel : ℕ) (k : List Place) (c : Place)
      → Holds w (k ++ c ∷ [])
      → add_loop (suc fuel) s w.fresh (new_node s w) ≡ some (appended s w c)
  unfolding new_node add_first add_loop
  add_loop-last fuel k c h =
      let away = Below-Absent w.fresh (k ++ c ∷ []) h.below in
      rw
        (
          h.tail,
          last_address-append k c,
          Segment-last (with_node s w) w.head none k c
              (Segment-write w.heap w.fresh _ w.head none (k ++ c ∷ []) away h.chain),
        )
        refl

  -- The list is empty: a second node is made, and the first is never used.
  first-Holds : Holds w [] → Grown s w [] (add_first s (new_node s w))
  unfolding new_node add_first
  first-Holds h = (
    suc w.fresh,
    record {
      chain = (refl, (none, write-same (suc w.fresh) _ (with_node s w), refl));
      distinct = (tt, tt);
      below = (omega arith, tt);
      tail = refl;
      count = refl;
      few = omega arith;
    },
    (refl, refl, refl, refl),
  )

  add_loop-first :
      (fuel : ℕ)
      → Holds w []
      → add_loop (suc fuel) s w.fresh (new_node s w) ≡ some (add_first s (new_node s w))
  unfolding new_node add_first add_loop
  add_loop-first fuel h = rw h.tail refl

  abbrev GrowsTo : List Place → Type 0
  GrowsTo l = (v : WorkerThread) × (add_client s w ≡ some v) × Grown s w l v

  grow_empty : leb max_client_count w.client_count ≡ false → Holds w [] → GrowsTo []
  unfolding add_client is_full_access
  grow_empty room h = (_, rw (room, add_loop-first (suc w.client_count) h) refl, first-Holds h)

  room_lem :
      (l : List Place)
      → Holds w l
      → leb max_client_count w.client_count ≡ false
      → length l < max_client_count
  room_lem l h room = ground (arith, h.count)

  grow_last :
      (k : List Place) (c : Place)
      → leb max_client_count w.client_count ≡ false
      → Holds w (k ++ c ∷ [])
      → GrowsTo (k ++ c ∷ [])
  unfolding add_client is_full_access
  grow_last k c room h = (
    appended s w c,
    rw (room, add_loop-last (suc w.client_count) k c h) refl,
    (w.fresh, appended-Holds k c h (room_lem _ h room), (refl, refl, refl, refl)),
  )

  -- Where the worker has 50 clients, AddClient closes the new socket and changes nothing else.
  -- Otherwise it ends with the socket as the last of the list, and with all others in their order.
  pub add_client-grows :
      (l : List Place)
      → Holds w l
      → ((length l ≡ max_client_count) × (add_client s w ≡ some (close_socket s w)))
        ⊎ ((length l < max_client_count)
            × ((v : WorkerThread) × (add_client s w ≡ some v) × Grown s w l v))
  unfolding add_client is_full_access
  add_client-grows l h = elim (Bool-cases (leb max_client_count w.client_count)) [
    | inl full ↦ inl (omega (arith, leb→le _ _ full, h.count, h.few), rw full refl)
    | inr room ↦ elim (last-cases l) [
      | inl e ↦
          inr (room_lem l h room, subst GrowsTo (sym e) (grow_empty room (subst (Holds w) e h)))
      | inr (k, c, e) ↦
          inr (room_lem l h room, subst GrowsTo (sym e) (grow_last k c room (subst (Holds w) e h)))
    ]
  ]
