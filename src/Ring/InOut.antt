-- ===== src/Ring/InOut.antt =====
-- Messages that go into a ring, and come out of it.
use gateway_g_rpc.Prelude.{
  ℕ, zero, suc, ◌≡◌, refl, List, [], ◌∷◌, ◌++◌, length, take, arith, append-nil, subst,
}
use gateway_g_rpc.Shm.{Outcome, ok, err, fault}
use gateway_g_rpc.Queue.{Queue, AllFit}
use gateway_g_rpc.Ring.{SharedMemoryRingBuffer, write, read, splice}
use gateway_g_rpc.Ring.Inv.{Holds, encode}
use gateway_g_rpc.Ring.Write.{written}
use gateway_g_rpc.Ring.Read.{read-ok, after}
use gateway_g_rpc.Ring.Refine.{write-ok, Holds-written}
use gateway_g_rpc.Ring.Several.{written_all, AllRoom, Holds-filled, Holds-after}
use gateway_g_rpc.Bytes.{take-splice, length-splice}

-- Messages are written until one fails.
pub write_all : List (List ℕ) → SharedMemoryRingBuffer → Outcome SharedMemoryRingBuffer
write_all [] s = ok s
write_all (m ∷ ms) s =
    let (s', result) = write s m in
    elim result [ ok _ ↦ write_all ms s' | err e ↦ err e | fault f ↦ fault f ]

-- So many messages are read with one buffer, until one fails: the ring, and what was read.
pub read_all :
    ℕ → List ℕ → SharedMemoryRingBuffer → Outcome (SharedMemoryRingBuffer × List (List ℕ))
read_all zero buf s = ok (s, [])
read_all (suc n) buf s =
    let (s', buf', result) = read s buf in
    elim result [
      | ok k ↦ elim (read_all n buf' s') [
        | ok (s'', ms) ↦ ok (s'', take k buf' ∷ ms)
        | err e ↦ err e
        | fault f ↦ fault f
      ]
      | err e ↦ err e
      | fault f ↦ fault f
    ]

write_all-written :
    (ms q : Queue) (s : SharedMemoryRingBuffer)
    → Holds s q
    → AllRoom s q ms
    → write_all ms s ≡ ok (written_all s ms)
unfolding write_all
write_all-written [] q s h room = refl
write_all-written (m ∷ ms) q s h (fits, prefix, room) = ground (
  arith,
  write-ok m h fits prefix,
  write_all-written ms (q ++ (m ∷ [])) (written s m) (Holds-written m h fits prefix) room,
)

read_all-reads :
    (ms : Queue) (s : SharedMemoryRingBuffer) (buf : List ℕ)
    → Holds s ms
    → AllFit (length buf) ms
    → (s' : SharedMemoryRingBuffer) × (read_all (length ms) buf s ≡ ok (s', ms)) × Holds s' []
unfolding read_all
read_all-reads [] s buf h fit = (s, refl, h)
read_all-reads (m ∷ ms) s buf h (fits, fit) =
    let (s', run, empty) =
      read_all-reads ms (after h.valid m (encode ms) buf h.bytes) (splice buf 0 m)
        (Holds-after m ms buf h) (rw (length-splice buf m fits) fit) in
    (
      s',
      ground (arith, read-ok h.valid m (encode ms) buf h.bytes fits, run, take-splice buf m),
      empty,
    )

-- Messages that are written into an empty ring, each with room for it and its length prefix, and a
-- prefix that does not cross the end, are read back as they were, in order, by as many reads into a
-- buffer that is as long as each of them; the ring is empty again.
pub read_all-write_all :
    (ms : Queue) (s : SharedMemoryRingBuffer) (buf : List ℕ)
    → Holds s []
    → AllRoom s [] ms
    → AllFit (length buf) ms
    → (s' s'' : SharedMemoryRingBuffer) × (write_all ms s ≡ ok s')
      × (read_all (length ms) buf s' ≡ ok (s'', ms))
      × Holds s'' []
read_all-write_all ms s buf h room fit =
    let (s'', run, empty) =
      read_all-reads ms (written_all s ms) buf
        (subst (λ q. Holds (written_all s ms) q) (append-nil ms) (Holds-filled ms h room)) fit in
    (written_all s ms, s'', write_all-written ms [] s h room, run, empty)
