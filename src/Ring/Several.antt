-- ===== src/Ring/Several.antt =====
-- What a read leaves, and several writes in a row, while no one reads.
use gateway_g_rpc.Prelude.{
  ℕ, List, ◌+◌, ◌<◌, subst, [], ◌∷◌, ◌++◌, length, append_assoc, append-nil, sym,
}
use gateway_g_rpc.Queue.{Queue, size}
use gateway_g_rpc.Ring.{SharedMemoryRingBuffer}
use gateway_g_rpc.Ring.Inv.{Holds, encode}
use gateway_g_rpc.Ring.Write.{written}
use gateway_g_rpc.Ring.Read.{after, after-IsValid, contents-after}
use gateway_g_rpc.Ring.Refine.{PrefixFits, Holds-written}

pub Holds-after :
    {s : SharedMemoryRingBuffer} (m : List ℕ) (q : Queue) (buf : List ℕ) (h : Holds s (m ∷ q))
    → Holds (after h.valid m (encode q) buf h.bytes) q
Holds-after m q buf h = record {
  valid = after-IsValid h.valid m (encode q) buf h.bytes;
  bytes = contents-after h.valid m (encode q) buf h.bytes;
}

abbrev pub written_all : SharedMemoryRingBuffer → Queue → SharedMemoryRingBuffer
written_all s [] = s
written_all s (m ∷ ms) = written_all (written s m) ms

-- Each message has room behind the messages `q` and the ones before it, and a length prefix that does
-- not cross the end.
abbrev pub AllRoom : SharedMemoryRingBuffer → Queue → Queue → Type 0
AllRoom s q [] = Unit
AllRoom s q (m ∷ ms) =
    (size q + (4 + length m) < s.header.capacity)
    × PrefixFits s
    × AllRoom (written s m) (q ++ (m ∷ [])) ms

pub Holds-written_all :
    (ms : Queue) {s : SharedMemoryRingBuffer} {q : Queue}
    → Holds s q
    → AllRoom s q ms
    → Holds (written_all s ms) (q ++ ms)
Holds-written_all [] {s} {q} h room = subst (Holds s) (sym (append-nil q)) h
Holds-written_all (m ∷ ms) {s} {q} h (fits, prefix, room) =
    subst (Holds (written_all s (m ∷ ms))) (append_assoc q (m ∷ []) ms)
      (Holds-written_all ms (Holds-written m h fits prefix) room)

-- The messages of an empty buffer, in front of none.
pub Holds-filled :
    (ms : Queue) {s : SharedMemoryRingBuffer}
    → Holds s []
    → AllRoom s [] ms
    → Holds (written_all s ms) (ms ++ [])
Holds-filled ms {s} h room =
    subst (Holds (written_all s ms)) (sym (append-nil ms)) (Holds-written_all ms h room)
