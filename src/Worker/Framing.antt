-- ===== src/Worker/Framing.antt =====
-- What SendToClient sends and ProcessClientData takes together.
use game_database_server.Prelude.{
  ℕ, zero, suc, ◌+◌, ◌-◌, ◌*◌, ◌/◌, ◌%◌, ◌^◌, ◌<◌, ◌≤◌, ◌≡◌, inl, inr, refl, sym, ap, ◌∙◌, true,
  false, ◌&&◌, List, [], ◌∷◌, ◌++◌, some, ltb, ◌==◌, length, length-append, append_assoc,
  append-nil, arith, Bool-cases,
}
use game_database_server.Packet.{packet_task}
use game_database_server.Worker.Clients.{WorkerThread}
use game_database_server.Worker.Transfer.{
  SendResult, RecvResult, SendEnd, RecvEnd, send_loop, recv_loop, process_client_data,
  packet_size_of,
}

-- What one call of recv brings behind a number of calls that would have blocked.
pub record Chunk : Type 0 where
  pub waits : ℕ
  pub bytes : List ℕ

-- Each brings a byte at least, and no five calls in a row would have blocked.
abbrev pub Arrive : List Chunk → Type 0
Arrive [] = Unit {0}
Arrive (c ∷ chunks) = (1 ≤ length c.bytes) × (c.waits ≤ 4) × Arrive chunks

abbrev pub joined : List Chunk → List ℕ
joined [] = []
joined (c ∷ chunks) = c.bytes ++ joined chunks

abbrev pub waiting : ℕ → List RecvResult → List RecvResult
waiting zero results = results
waiting (suc n) results = RecvResult.would_block ∷ waiting n results

abbrev pub arriving : List Chunk → List RecvResult
arriving [] = []
arriving (c ∷ chunks) = waiting c.waits (RecvResult.received c.bytes ∷ arriving chunks)

going : (total size retry : ℕ) → total < size → retry < 5 → (ltb total size && ltb retry 5) ≡ true
going total size retry a b = ground arith

recv_loop-waiting :
    (n : ℕ) (results : List RecvResult) (size : ℕ) (so_far : List ℕ) (retry : ℕ)
    → length so_far < size
    → retry + n ≤ 4
    → recv_loop (waiting n results) size so_far retry ≡ recv_loop results size so_far (retry + n)
unfolding recv_loop
recv_loop-waiting zero results size so_far retry less few =
    ap (recv_loop results size so_far) (omega arith)
recv_loop-waiting (suc n) results size so_far retry less few =
    rw (going (length so_far) size retry less (omega arith)) (
      recv_loop-waiting n results size so_far (retry + 1) less (omega arith)
      ∙ ap (recv_loop results size so_far) (omega arith))

recv_loop-received :
    (bytes : List ℕ) (results : List RecvResult) (size : ℕ) (so_far : List ℕ) (retry : ℕ)
    → length so_far < size
    → retry ≤ 4
    → recv_loop (RecvResult.received bytes ∷ results) size so_far retry
      ≡ recv_loop results size (so_far ++ bytes) 0
unfolding recv_loop
recv_loop-received bytes results size so_far retry less few =
    rw (going (length so_far) size retry less (omega arith)) refl

recv_loop-end :
    (size : ℕ) (so_far : List ℕ)
    → length so_far ≡ size
    → recv_loop [] size so_far 0 ≡ some (RecvEnd.collected so_far)
unfolding recv_loop
recv_loop-end size so_far e = ground arith

recv_loop-joined :
    (chunks : List Chunk) (size : ℕ) (so_far : List ℕ)
    → Arrive chunks
    → length (so_far ++ joined chunks) ≡ size
    → recv_loop (arriving chunks) size so_far 0 ≡ some (RecvEnd.collected (so_far ++ joined chunks))
recv_loop-joined [] size so_far c e =
    recv_loop-end size so_far (omega (arith, e, length-append so_far []))
    ∙ ap (λ l. some (RecvEnd.collected l)) (sym (append-nil so_far))
recv_loop-joined (c ∷ chunks) size so_far (one, few, cs) e =
    let less : length so_far < size = omega (
      arith,
      e,
      one,
      length-append so_far (c.bytes ++ joined chunks),
      length-append c.bytes (joined chunks),
    ) in
    let zero_plus : 0 + c.waits ≡ c.waits = omega arith in
    recv_loop-waiting c.waits (RecvResult.received c.bytes ∷ arriving chunks) size so_far 0 less
      (omega (arith, few))
    ∙ ap (recv_loop (RecvResult.received c.bytes ∷ arriving chunks) size so_far) zero_plus
    ∙ recv_loop-received c.bytes (arriving chunks) size so_far c.waits less few
    ∙ recv_loop-joined chunks size (so_far ++ c.bytes) cs (
        omega (
          arith,
          e,
          append_assoc so_far c.bytes (joined chunks),
          length-append so_far (c.bytes ++ joined chunks),
          length-append c.bytes (joined chunks),
          length-append (so_far ++ c.bytes) (joined chunks),
          length-append so_far c.bytes,
        ))
    ∙ ap (λ l. some (RecvEnd.collected l)) (append_assoc so_far c.bytes (joined chunks))

-- htonl: a size in four bytes, the highest first.
abbrev pub header_of : ℕ → List ℕ
header_of n = n / 2 ^ 24 % 256 ∷ n / 2 ^ 16 % 256 ∷ n / 2 ^ 8 % 256 ∷ n % 256 ∷ []

pub header_lem : (n : ℕ) → n < 2 ^ 32 → packet_size_of (header_of n) ≡ n
header_lem n h = omega (arith, h)

nonzero : (n : ℕ) → 1 ≤ n → (n == 0) ≡ false
nonzero n h = ground arith

within : (n : ℕ) → n ≤ 65536 → ltb 65536 n ≡ false
within n h = ground arith

complete : (n : ℕ) → ltb n n ≡ false
complete n = ground arith

-- A packet of 1 to 65536 bytes that comes in any chunks behind its header, with fewer than five
-- calls in a row that would have blocked, becomes one task with exactly its bytes and its client's
-- socket, and nothing else changes.
pub process_client_data-collects :
    (s : ℕ) (chunks : List Chunk) (w : WorkerThread)
    → Arrive chunks
    → 1 ≤ length (joined chunks)
    → length (joined chunks) ≤ 65536
    → w.has_queue ≡ true
    → process_client_data s
        (RecvResult.received (header_of (length (joined chunks))) ∷ arriving chunks)
        w
      ≡ some (record w { tasks = packet_task s 0 (joined chunks) ∷ w.tasks })
unfolding process_client_data
process_client_data-collects s chunks w c one most queue =
    rw
      (
        header_lem (length (joined chunks)) (omega arith),
        nonzero (length (joined chunks)) one,
        within _ most,
        recv_loop-joined chunks (length (joined chunks)) [] c refl,
        complete (length (joined chunks)),
        queue,
      )
      refl

-- What a call of send takes is a byte at least.
abbrev pub Progress : List SendResult → Type 0
Progress [] = Unit {0}
Progress (SendResult.sent n ∷ results) = (1 ≤ n) × Progress results
Progress (SendResult.would_block ∷ results) = Progress results
Progress (SendResult.failed ∷ results) = Progress results

sending :
    (total size retry : ℕ) → (ltb total size && ltb retry 3) ≡ true → (total < size) × (retry < 3)
sending total size retry on = ground arith

-- The loop of SendToClient makes at most four calls for each byte that is left, and three more.
pub send_loop-ends :
    (results : List SendResult) (size total retry : ℕ)
    → Progress results
    → 4 * (size - total) + (3 - retry) ≤ length results
    → (e : SendEnd) × (send_loop results size total retry ≡ some e)
unfolding send_loop
send_loop-ends [] size total retry p enough = elim (Bool-cases (ltb total size && ltb retry 3)) [
  | inl on ↦ absurd (omega (arith, sending total size retry on, enough))
  | inr off ↦ rw off (_, refl)
]
send_loop-ends (SendResult.sent n ∷ results) size total retry (one, p) enough =
    elim (Bool-cases (ltb total size && ltb retry 3)) [
      | inl on ↦ rw on (
          send_loop-ends results size (total + n) 0 p
            (omega (arith, sending total size retry on, enough, one)))
      | inr off ↦ rw off (_, refl)
    ]
send_loop-ends (SendResult.would_block ∷ results) size total retry p enough =
    elim (Bool-cases (ltb total size && ltb retry 3)) [
      | inl on ↦ rw on (
          send_loop-ends results size total (retry + 1) p
            (omega (arith, sending total size retry on, enough)))
      | inr off ↦ rw off (_, refl)
    ]
send_loop-ends (SendResult.failed ∷ results) size total retry p enough =
    elim (Bool-cases (ltb total size && ltb retry 3)) [
      | inl on ↦ rw on (_, refl)
      | inr off ↦ rw off (_, refl)
    ]
