-- ===== src/Server/Delivery.antt =====
-- The way of a response to its client.
use game_database_server.Prelude.{
  ℕ, ◌≡◌, ◌⊎◌, inl, inr, refl, ap, ◌∙◌, Bool, true, false, List, [], ◌∷◌, ◌++◌, Option, none, some,
  if◌then◌else◌, Bool-cases,
}
use game_database_server.Packet.{DbResponse}
use game_database_server.PacketManager.Defs.{is_empty}
use game_database_server.Worker.Clients.{WorkerThread, has_client}
use game_database_server.Worker.Chain.{Place}
use game_database_server.Worker.Removal.{has_client-has}
use game_database_server.Worker.Unlinking.{has}
use game_database_server.Worker.Transfer.{SendResult, send_to_client}
use game_database_server.Server.Workers.{
  Delivered, after_sending, behind, send_by_socket, process_db_response,
}
use game_database_server.Server.Placement.{Serving}

abbrev pub nobody_has : ℕ → List (List Place) → Bool
nobody_has s [] = true
nobody_has s (l ∷ lists) = let rest = nobody_has s lists in if has s l then false else rest

abbrev pub behind_all : List WorkerThread → Option Delivered → Option Delivered
behind_all [] o = o
behind_all (w ∷ front) o = behind w (behind_all front o)

-- No worker has the socket, and nothing is done; or one worker has it, none before does, it sends
-- the bytes, and the others are as they were.
abbrev pub Routed :
    ℕ → List ℕ → List SendResult → List WorkerThread → List (List Place) → Option Delivered → Type 0
Routed s bytes results workers lists o =
    ((nobody_has s lists ≡ true) × (o ≡ some (record { workers = workers; sending = none })))
    ⊎ ((front : List WorkerThread) × (w : WorkerThread) × (rest : List WorkerThread) × (workers
          ≡ front ++ w ∷ rest)
        × (has_client s w ≡ some true)
        × (send_by_socket s bytes results front ≡ some (record { workers = front; sending = none }))
        × (o ≡ behind_all front (after_sending rest (send_to_client s bytes results w))))

module _ (s : ℕ) (bytes : List ℕ) (results : List SendResult) where
  pub step_true :
      (w : WorkerThread) (workers : List WorkerThread)
      → has_client s w ≡ some true
      → send_by_socket s bytes results (w ∷ workers)
        ≡ after_sending workers (send_to_client s bytes results w)
  unfolding send_by_socket
  step_true w workers e = rw (send_by_socket, e) refl

  pub step_false :
      (w : WorkerThread) (workers : List WorkerThread)
      → has_client s w ≡ some false
      → send_by_socket s bytes results (w ∷ workers)
        ≡ behind w (send_by_socket s bytes results workers)
  unfolding send_by_socket
  step_false w workers e = rw (send_by_socket, e) refl

  step_end : send_by_socket s bytes results [] ≡ some (record { workers = []; sending = none })
  unfolding send_by_socket
  step_end = refl

  send_by_socket-Routed :
      (workers : List WorkerThread) (lists : List (List Place))
      → Serving workers lists
      → Routed s bytes results workers lists (send_by_socket s bytes results workers)
  send_by_socket-Routed [] [] h = inl (refl, step_end)
  send_by_socket-Routed [] (l ∷ lists) h = absurd h
  send_by_socket-Routed (w ∷ workers) [] h = absurd h
  send_by_socket-Routed (w ∷ workers) (l ∷ lists) (h, hs) = elim (Bool-cases (has s l)) [
    | inl listed ↦ inr (
      [],
      w,
      workers,
      refl,
      has_client-has s w l h ∙ ap some listed,
      step_end,
      step_true w workers (has_client-has s w l h ∙ ap some listed),
    )
    | inr unlisted ↦
        let lacks = has_client-has s w l h ∙ ap some unlisted in
        elim (send_by_socket-Routed workers lists hs) [
          | inl (nobody, e) ↦ inl (rw unlisted nobody, rw (step_false w workers lacks, e) refl)
          | inr (front, v, rest, split, found, skipped, e) ↦ inr (
            w ∷ front,
            v,
            rest,
            ap (λ x. w ∷ x) split,
            found,
            rw (step_false w front lacks, skipped) refl,
            rw (step_false w workers lacks, e) refl,
          )
        ]
  ]

-- A response without data is dropped: no worker sends anything. Any other response is sent by the
-- first worker that has its socket, and all other workers stay as they are; where no worker has
-- the socket, nothing is sent.
pub process_db_response-Routed :
    (response : DbResponse) (results : List SendResult) (workers : List WorkerThread)
    (lists : List (List Place))
    → Serving workers lists
    → ((is_empty response.response_data ≡ true)
        × (process_db_response response results workers
            ≡ some (record { workers = workers; sending = none })))
      ⊎ ((is_empty response.response_data ≡ false)
          × Routed response.client_socket response.response_data results workers lists
              (process_db_response response results workers))
unfolding process_db_response
process_db_response-Routed response results workers lists h =
    elim (Bool-cases (is_empty response.response_data)) [
      | inl e ↦ inl (e, rw (process_db_response, e) refl)
      | inr e ↦ inr (
        e,
        rw (process_db_response, e)
            (send_by_socket-Routed response.client_socket response.response_data results workers
              lists h),
      )
    ]
