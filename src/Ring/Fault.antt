-- ===== src/Ring/Fault.antt =====
-- Where the ring buffer goes wrong: a length prefix across the end, and a message that is longer
-- than the reader's buffer.
use gateway_g_rpc.Prelude.{
  ℕ, ◌+◌, ◌<◌, ◌≡◌, ◌↔◌, refl, ap, ◌∙◌, List, [], ◌∷◌, length, arith, dec_lt, lt→ltb, le→ltb-false,
}
use gateway_g_rpc.Shm.{Outcome, err, fault, invalid_state, out_of_bounds}
use gateway_g_rpc.Queue
use gateway_g_rpc.Queue.{Queue, size, Op, send, receive, Reply}
use gateway_g_rpc.Ring.{SharedMemoryRingBuffer, write, settle_write}
use gateway_g_rpc.Ring.Inv.{IsSlice, Holds}
use gateway_g_rpc.Ring.Write.{write-full, write-room, write_frame-out_of_bounds}
use gateway_g_rpc.Ring.Refine.{used-eq-size, write-ok, run, IsAligned, AllAligned, run_refines}

-- `write` leaves the mapping exactly when the message fits in the free space and the four bytes of
-- its length prefix reach past the end of the data area.
pub write-out_of_bounds_iff :
    {s : SharedMemoryRingBuffer} {q : Queue} (m : List ℕ)
    → Holds s q
    → IsSlice m
    → ((write s m).1 ≡ fault out_of_bounds) ↔ (
        (size q + (4 + length m) < s.header.capacity)
        × (s.header.capacity < s.header.write_pos + 4))
write-out_of_bounds_iff {s} {q} m h sl = elim (dec_lt (size q + (4 + length m)) s.header.capacity) [
  | yes room ↦ elim (dec_lt s.header.capacity (s.header.write_pos + 4)) [
    | yes over ↦ (
      λ _. (room, over),
      λ _.
          ap (λ (p : SharedMemoryRingBuffer × Outcome ℕ). p.1)
            (write-room h.valid m (omega (arith, used-eq-size h))
              ∙ ap (settle_write s (length m)) (write_frame-out_of_bounds h.valid m over)),
    )
    | no fits ↦ (rw (write-ok m h room (omega arith)) (λ e. cc), λ p. absurd (omega arith))
  ]
  | no full ↦ (
    rw (write-full h.valid m sl (omega (arith, used-eq-size h))) (λ e. cc),
    λ p. absurd (omega arith),
  )
]

-- Every buffer that the reader passes is shorter than `m`.
abbrev pub AllShorter : List ℕ → List Op → Type 0
AllShorter m [] = Unit
AllShorter m (send d ∷ ops) = AllShorter m ops
AllShorter m (receive buf ∷ ops) = (length buf < length m) × AllShorter m ops

-- Every read failed and left the reader's buffer alone.
abbrev pub AllRefused : List Op → List Reply → Type 0
AllRefused [] rs = Unit
AllRefused (op ∷ ops) [] = ⊥
AllRefused (send d ∷ ops) (r ∷ rs) = AllRefused ops rs
AllRefused (receive buf ∷ ops) (r ∷ rs) = (r ≡ (buf, err invalid_state)) × AllRefused ops rs

queue_blocked :
    (cap : ℕ) (m : List ℕ) (ops : List Op) (q : Queue)
    → AllShorter m ops
    → AllRefused ops (Queue.run cap (m ∷ q) ops)
unfolding Queue.run Queue.push Queue.pop
queue_blocked cap m [] q h = tt
queue_blocked cap m (send d ∷ ops) q h = elim (dec_lt (size (m ∷ q) + (4 + length d)) cap) [
  | yes room ↦ rw (lt→ltb (size (m ∷ q) + (4 + length d)) cap room) (queue_blocked cap m ops _ h)
  | no full ↦
      rw (le→ltb-false (size (m ∷ q) + (4 + length d)) cap (omega arith))
        (queue_blocked cap m ops q h)
]
queue_blocked cap m (receive buf ∷ ops) q (h, hs) =
    rw (lt→ltb (length buf) (length m) h) (refl, queue_blocked cap m ops q hs)

-- A message longer than every buffer that the reader passes blocks the ring for ever: whatever the
-- two sides do, all reads fail with `InvalidState`, and no later message is received. (The ring and
-- the messages sent are aligned, so that no call leaves the mapping.)
pub blocked_for_ever :
    (ops : List Op) (m : List ℕ) {s : SharedMemoryRingBuffer} {q : Queue}
    → Holds s (m ∷ q)
    → IsAligned s
    → AllAligned ops
    → AllShorter m ops
    → AllRefused ops (run s ops)
blocked_for_ever ops m {s} {q} h a all short =
    rw (run_refines ops h a all) (queue_blocked s.header.capacity m ops q short)
