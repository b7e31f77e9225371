-- ===== src/Signals/Wakeups.antt =====
-- What the count of the signals gives the reader.
use gateway_g_rpc.Prelude.{
  ℕ, ◌+◌, ◌<◌, ◌≡◌, sym, ◌∙◌, Bool, false, Option, some, List, [], ◌∷◌, arith, ◌==◌, length,
}
use gateway_g_rpc.Shm.{ok}
use gateway_g_rpc.Queue.{Queue, AllFit, NoneEmpty}
use gateway_g_rpc.Ring.{SharedMemoryRingBuffer, read}
use gateway_g_rpc.Ring.Inv.{Holds, encode}
use gateway_g_rpc.Ring.Read.{read-ok}
use gateway_g_rpc.Ring.Several.{Holds-after}
use gateway_g_rpc.Bytes.{length-splice}
use gateway_g_rpc.EventFd.{EventKernel, EventFd}
use gateway_g_rpc.Signals.{
  Channel, rounds_left, Step, put, put_failed, signalled, woken, not_ready, took, Reach, start,
  step, IsFresh,
}
use gateway_g_rpc.Signals.Counted.{
  write-kept, Counted, put-Counted, signalled-Counted, woken-Counted, not_ready-Counted,
}

positive : (n : ℕ) → 0 < n → (n == 0) ≡ false
positive n h = ground arith

module _ (os : EventKernel) (e : EventFd) (stop : ℕ → ℕ) where
  took-Counted_of :
      (c : Channel os) (r k : ℕ) (q : Queue)
      → Holds c.buffer q
      → AllFit (length c.buf) q
      → NoneEmpty q
      → os.counter c.kernel e.fd ≡ some (false, k)
      → length q ≡ k + c.remaining + c.unsignalled
      → c.remaining ≡ r + 1
      → Counted os e (record c {
        buffer = (read c.buffer c.buf).0;
        buf = (read c.buffer c.buf).1;
        remaining = rounds_left os stop r (read c.buffer c.buf).2;
      })
  took-Counted_of c r k [] h fit ne counted total left = absurd (omega arith)
  took-Counted_of c r k (m ∷ q) h (fits, fit) (pos, ne) counted total left =
      rw (read-ok h.valid m (encode q) c.buf h.bytes fits, positive (length m) pos)
        (record {
          queue = q;
          signals = k;
          holds = Holds-after m q c.buf h;
          fit = rw (length-splice c.buf m fits) fit;
          some_bytes = ne;
          counter = counted;
          total = omega arith;
        })

  step-Counted : (c d : Channel os) → Counted os e c → Step os e stop c d → Counted os e d
  step-Counted c _ i (put m n sl pos fits sent) = put-Counted os e c m n i sl pos fits sent
  step-Counted c _ i (put_failed m x sl failed) = record {
    queue = i.queue;
    signals = i.signals;
    holds = write-kept m x i.holds sl failed;
    fit = i.fit;
    some_bytes = i.some_bytes;
    counter = i.counter;
    total = i.total;
  }
  step-Counted c _ i (signalled u between) = signalled-Counted os e c u i between
  step-Counted c _ i (woken count idle got) = woken-Counted os e c count i idle got
  step-Counted c _ i (not_ready idle got) = not_ready-Counted os e c i got
  step-Counted c _ i (took r left) =
      took-Counted_of c r i.signals i.queue i.holds i.fit i.some_bytes i.counter i.total left

  fresh-Counted : (c : Channel os) → IsFresh os e stop c → Counted os e c
  fresh-Counted c f = record {
    queue = [];
    signals = 0;
    holds = f.empty;
    fit = tt;
    some_bytes = tt;
    counter = f.silent;
    total = omega (arith, f.none_between, f.none_left);
  }

  -- From a fresh channel on, in every order of the steps of the writers and the reader, the messages
  -- in the ring buffer are exactly as many as the signals that are not taken, the rounds that the
  -- reader has left and the writers between their message and its signal.
  pub Reach-Counted :
      (c d : Channel os) → IsFresh os e stop c → Reach os e stop c d → Counted os e d
  Reach-Counted c _ f start = fresh-Counted c f
  Reach-Counted c d' f (step d _ r s) = step-Counted d d' (Reach-Counted c d f r) s

  finds_of :
      (d : Channel os) (q : Queue)
      → Holds d.buffer q
      → AllFit (length d.buf) q
      → 0 < length q
      → (m : List ℕ) × (p : Queue) × Holds d.buffer (m ∷ p)
        × ((read d.buffer d.buf).2 ≡ ok (length m))
  finds_of d [] h fit some_left = absurd (omega arith)
  finds_of d (m ∷ q) h (fits, fit) some_left =
      (m, q, h, rw (read-ok h.valid m (encode q) d.buf h.bytes fits))

  -- No round of the reader is in vain: from a fresh channel on, as long as the reader has rounds left,
  -- in every order of the steps of the writers and the reader, its next read returns the oldest message
  -- of the ring buffer, and never an error. The messages are not empty and fit in the reader's buffer.
  pub reader-finds :
      (c d : Channel os)
      → IsFresh os e stop c
      → Reach os e stop c d
      → 0 < d.remaining
      → (m : List ℕ) × (p : Queue) × Holds d.buffer (m ∷ p)
        × ((read d.buffer d.buf).2 ≡ ok (length m))
  reader-finds c d f r left =
      let i = Reach-Counted c d f r in finds_of d i.queue i.holds i.fit (omega (arith, i.total))

  empty_of : (s : SharedMemoryRingBuffer) (q : Queue) → Holds s q → length q ≡ 0 → Holds s []
  empty_of s [] h e = h
  empty_of s (m ∷ q) h e = absurd (omega arith)

  -- No wake-up is lost: from a fresh channel on, when the event counter is zero, the reader has no
  -- round left and no writer stands between its message and its signal, the ring buffer is empty.
  -- The messages that have been written are not empty and are no longer than the reader's buffer.
  pub quiet-empty :
      (c d : Channel os)
      → IsFresh os e stop c
      → Reach os e stop c d
      → os.counter d.kernel e.fd ≡ some (false, 0)
      → d.remaining ≡ 0
      → d.unsignalled ≡ 0
      → Holds d.buffer []
  quiet-empty c d f r silent idle between =
      let i = Reach-Counted c d f r in
      empty_of d.buffer i.queue i.holds (omega (arith, i.total, zero_signals i.signals i.counter))
    where
      zero_signals : (k : ℕ) → os.counter d.kernel e.fd ≡ some (false, k) → k ≡ 0
      zero_signals k p = same (sym p ∙ silent)
        where
          same : ◌≡◌ {A = Option (Bool × ℕ)} (some (false, k)) (some (false, 0)) → k ≡ 0
          same q = cc
