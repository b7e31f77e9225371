-- ===== src/Ring/Refine.antt =====
-- A valid ring behaves as the bounded queue of the messages that it holds, as long as no length
-- prefix crosses the end.
use gateway_g_rpc.Prelude.{
  ℕ, ◌+◌, ◌%◌, ◌≤◌, ◌<◌, ◌≡◌, refl, sym, ap, ap₂, ◌∙◌, List, [], ◌∷◌, ◌++◌, lt→ltb, le→ltb-false,
  length, arith, length-append, append_assoc, append-nil, dec_lt, drop,
}
use gateway_g_rpc.Shm.{Outcome, ok}
use gateway_g_rpc.Queue
use gateway_g_rpc.Queue.{Queue, size, fill, Op, send, receive, Reply}
use gateway_g_rpc.Ring.{SharedMemoryRingBuffer, write, read, settle_write}
use gateway_g_rpc.Ring.Inv.{IsValid, IsSlice, used, contents, frame, encode, Holds, length-contents}
use gateway_g_rpc.Ring.Write.{
  write-full, write-room, write_frame_lem, written, written-IsValid, contents-written,
}
use gateway_g_rpc.Ring.Read.{read-empty, read-too_small, read-ok, after-IsValid, contents-after}

pub length-encode : (q : Queue) → length (encode q) ≡ size q
length-encode [] = refl
length-encode (m ∷ q) = omega (arith, length-append m (encode q), length-encode q)

pub encode-append : (q : Queue) (m : List ℕ) → encode (q ++ (m ∷ [])) ≡ encode q ++ frame m
encode-append [] m = append-nil (frame m)
encode-append (x ∷ q) m =
    ap (λ r. frame x ++ r) (encode-append q m) ∙ sym (append_assoc (frame x) (encode q) (frame m))

-- What the queue counts is what lies between the two positions.
pub used-eq-size : {s : SharedMemoryRingBuffer} {q : Queue} → Holds s q → used s.header ≡ size q
used-eq-size {s} {q} h = sym (length-contents s) ∙ ap length h.bytes ∙ length-encode q

-- The four bytes of the next length prefix do not reach past the end.
abbrev pub PrefixFits : SharedMemoryRingBuffer → Type 0
PrefixFits s = s.header.write_pos + 4 ≤ s.header.capacity

pub Holds-written :
    {s : SharedMemoryRingBuffer} {q : Queue} (m : List ℕ)
    → Holds s q
    → size q + (4 + length m) < s.header.capacity
    → PrefixFits s
    → Holds (written s m) (q ++ (m ∷ []))
Holds-written {s} {q} m h room fits = record {
  valid = written-IsValid h.valid m (omega (arith, used-eq-size h));
  bytes =
      contents-written h.valid m (omega (arith, used-eq-size h)) fits
      ∙ ap (λ c. c ++ frame m) h.bytes
      ∙ sym (encode-append q m);
}

pub write-ok :
    {s : SharedMemoryRingBuffer} {q : Queue} (m : List ℕ)
    → Holds s q
    → size q + (4 + length m) < s.header.capacity
    → PrefixFits s
    → write s m ≡ (written s m, ok (length m))
write-ok {s} m h room fits =
    write-room h.valid m (omega (arith, used-eq-size h))
    ∙ ap (settle_write s (length m)) (write_frame_lem h.valid m (omega arith) fits)

-- If the next length prefix does not reach past the end, `write` returns what the bounded queue
-- returns, an error included, and leaves a valid ring that holds the queue's messages.
pub write_refines :
    {s : SharedMemoryRingBuffer} {q : Queue} (m : List ℕ)
    → Holds s q
    → IsSlice m
    → PrefixFits s
    → ((write s m).1 ≡ (Queue.push s.header.capacity q m).1)
      × Holds (write s m).0 (Queue.push s.header.capacity q m).0
unfolding Queue.push
write_refines {s} {q} m h sl fits = elim (dec_lt (size q + (4 + length m)) s.header.capacity) [
  | yes room ↦ rw (write-ok m h room fits, lt→ltb _ _ room) (refl, Holds-written m h room fits)
  | no full ↦
      rw
        (
          write-full h.valid m sl (omega (arith, used-eq-size h)),
          le→ltb-false (size q + (4 + length m)) s.header.capacity (omega arith),
        )
        (refl, h)
]

-- `read` returns what the queue returns, on each of its branches, and leaves a valid ring that
-- holds the queue's remaining messages.
pub read_refines :
    {s : SharedMemoryRingBuffer} (q : Queue) (buf : List ℕ)
    → Holds s q
    → ((read s buf).1 ≡ (Queue.pop q buf).1)
      × ((read s buf).2 ≡ (Queue.pop q buf).2)
      × Holds (read s buf).0 (Queue.pop q buf).0
unfolding Queue.pop
read_refines [] buf h = rw (read-empty h.valid buf (used-eq-size h)) (refl, refl, h)
read_refines {s} (m ∷ q) buf h = elim (dec_lt (length buf) (length m)) [
  | yes small ↦
      rw (read-too_small h.valid m (encode q) buf split small, lt→ltb _ _ small) (refl, refl, h)
  | no fits ↦
      rw
        (
          read-ok h.valid m (encode q) buf split (omega arith),
          le→ltb-false (length buf) (length m) (omega arith),
        )
        (
          ap (λ (k : ℕ). m ++ drop k buf) (omega arith),
          refl,
          record {
            valid = after-IsValid h.valid m (encode q) buf split;
            bytes = contents-after h.valid m (encode q) buf split;
          },
        )
]
  where
    split : contents s ≡ frame m ++ encode q
    split = h.bytes

-- The calls of a writer and a reader, one after the other, and what each returns.
pub run : SharedMemoryRingBuffer → List Op → List Reply
run s [] = []
run s (send m ∷ ops) = let (s', o) = write s m in (m, o) ∷ run s' ops
run s (receive buf ∷ ops) = let (s', buf', o) = read s buf in (buf', o) ∷ run s' ops

-- The capacity and the write position are multiples of four.
abbrev pub IsAligned : SharedMemoryRingBuffer → Type 0
IsAligned s = (s.header.capacity % 4 ≡ 0) × (s.header.write_pos % 4 ≡ 0)

-- The messages that are sent are slices whose lengths are multiples of four.
abbrev pub AllAligned : List Op → Type 0
AllAligned [] = Unit
AllAligned (send m ∷ ops) = (length m % 4 ≡ 0) × IsSlice m × AllAligned ops
AllAligned (receive buf ∷ ops) = AllAligned ops

IsAligned-fits : {s : SharedMemoryRingBuffer} → IsValid s → IsAligned s → PrefixFits s
IsAligned-fits v a = omega arith

write-IsAligned :
    {s : SharedMemoryRingBuffer} {q : Queue} (m : List ℕ)
    → Holds s q
    → length m % 4 ≡ 0
    → IsSlice m
    → IsAligned s
    → IsAligned (write s m).0 × ((write s m).0.header.capacity ≡ s.header.capacity)
write-IsAligned {s} {q} m h hm sl a = elim (dec_lt (size q + (4 + length m)) s.header.capacity) [
  | yes room ↦ rw (write-ok m h room (IsAligned-fits h.valid a)) (ground (arith, h.valid))
  | no full ↦ rw (write-full h.valid m sl (omega (arith, used-eq-size h))) (a, refl)
]

pub read-header :
    {s : SharedMemoryRingBuffer} (q : Queue) (buf : List ℕ)
    → Holds s q
    → ((read s buf).0.header.write_pos ≡ s.header.write_pos)
      × ((read s buf).0.header.capacity ≡ s.header.capacity)
read-header [] buf h = rw (read-empty h.valid buf (used-eq-size h)) (refl, refl)
read-header {s} (m ∷ q) buf h = elim (dec_lt (length buf) (length m)) [
  | yes small ↦ rw (read-too_small h.valid m (encode q) buf (h.bytes) small) (refl, refl)
  | no fits ↦ rw (read-ok h.valid m (encode q) buf (h.bytes) (omega arith)) (refl, refl)
]

-- On an aligned ring, no sequence of calls that sends aligned messages can tell the ring from the
-- bounded queue: messages come out whole, in order and once, and no call leaves the mapping.
pub run_refines :
    (ops : List Op) {s : SharedMemoryRingBuffer} {q : Queue}
    → Holds s q
    → IsAligned s
    → AllAligned ops
    → run s ops ≡ Queue.run s.header.capacity q ops
unfolding run Queue.run
run_refines [] h a all = refl
run_refines (send m ∷ ops) {s} {q} h a (hm, sl, all) =
    ap₂ (λ (x : Reply) (xs : List Reply). x ∷ xs) (ap (λ (o : Outcome ℕ). (m, o)) step.0)
      (run_refines ops step.1 keep.0 all
        ∙ ap (λ c. Queue.run c (Queue.push s.header.capacity q m).0 ops) keep.1)
  where
    step :
        ((write s m).1 ≡ (Queue.push s.header.capacity q m).1)
        × Holds (write s m).0 (Queue.push s.header.capacity q m).0
    step = write_refines m h sl (IsAligned-fits h.valid a)

    keep : IsAligned (write s m).0 × ((write s m).0.header.capacity ≡ s.header.capacity)
    keep = write-IsAligned m h hm sl a
run_refines (receive buf ∷ ops) {s} {q} h a all =
    ap₂ (λ (x : Reply) (xs : List Reply). x ∷ xs)
      (ap₂ (λ (b : List ℕ) (o : Outcome ℕ). (b, o)) step.0 step.1)
      (run_refines ops step.2 (rw (keep.0, keep.1) a) all
        ∙ ap (λ c. Queue.run c (Queue.pop q buf).0 ops) keep.1)
  where
    step :
        ((read s buf).1 ≡ (Queue.pop q buf).1)
        × ((read s buf).2 ≡ (Queue.pop q buf).2)
        × Holds (read s buf).0 (Queue.pop q buf).0
    step = read_refines q buf h

    keep :
        ((read s buf).0.header.write_pos ≡ s.header.write_pos)
        × ((read s buf).0.header.capacity ≡ s.header.capacity)
    keep = read-header q buf h
