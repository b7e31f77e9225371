-- ===== src/Signals/Counted.antt =====
-- Every message is announced once: no wake-up is lost, and none is in vain.
use gateway_g_rpc.Prelude.{
  ℕ, ◌+◌, ◌*◌, ◌≤◌, ◌<◌, ◌≡◌, sym, ap, ◌∙◌, false, Option, none, some, List, [], ◌∷◌, ◌++◌, arith,
  if◌then◌else◌, length, length-append, dec_lt, lt→ltb, inl, inr,
}
use gateway_g_rpc.Shm.{ShmError, Outcome, ok, err, fault, buffer_full, out_of_bounds}
use gateway_g_rpc.Queue.{Queue, size, AllFit, NoneEmpty}
use gateway_g_rpc.Ring.{SharedMemoryRingBuffer, write, settle_write}
use gateway_g_rpc.Ring.Inv.{IsSlice, Holds, used-lt}
use gateway_g_rpc.Ring.Write.{write-full, write-room, write_frame-out_of_bounds}
use gateway_g_rpc.Ring.Refine.{write-ok, Holds-written, used-eq-size}
use gateway_g_rpc.EventFd.{EventKernel, EventFd, signal_eventfd, wait_round, counter_max}
use gateway_g_rpc.EventFd.Laws.{signal_eventfd_lem, wait_round_lem}
use gateway_g_rpc.Signals.{Channel}

-- A `write` that returns a length has added its message.
pub write-added :
    {s : SharedMemoryRingBuffer} {q : Queue} (m : List ℕ) (n : ℕ)
    → Holds s q
    → IsSlice m
    → (write s m).1 ≡ ok n
    → Holds (write s m).0 (q ++ (m ∷ []))
write-added {s} {q} m n h sl e = elim (dec_lt (size q + (4 + length m)) s.header.capacity) [
  | yes room ↦ elim (dec_lt s.header.capacity (s.header.write_pos + 4)) [
    | yes over ↦ absurd (
        crossed (
          sym (
            ap (λ (p : SharedMemoryRingBuffer × Outcome ℕ). p.1)
              (write-room h.valid m (omega (arith, used-eq-size h))
                ∙ ap (settle_write s (length m)) (write_frame-out_of_bounds h.valid m over)))
          ∙ e))
    | no fits ↦ rw (write-ok m h room (omega arith)) (Holds-written m h room (omega arith))
  ]
  | no full ↦ absurd (
      refused (
        sym (
          ap (λ (p : SharedMemoryRingBuffer × Outcome ℕ). p.1)
            (write-full h.valid m sl (omega (arith, used-eq-size h))))
        ∙ e))
]
  where
    crossed : fault out_of_bounds ≡ ok n → ⊥
    crossed p = cc

    refused : err buffer_full ≡ ok n → ⊥
    refused p = cc

-- A `write` that fails leaves the ring buffer alone.
pub write-kept :
    {s : SharedMemoryRingBuffer} {q : Queue} (m : List ℕ) (x : ShmError)
    → Holds s q
    → IsSlice m
    → (write s m).1 ≡ err x
    → Holds (write s m).0 q
write-kept {s} {q} m x h sl e = elim (dec_lt (size q + (4 + length m)) s.header.capacity) [
  | yes room ↦ elim (dec_lt s.header.capacity (s.header.write_pos + 4)) [
    | yes over ↦
        rw
          (write-room h.valid m (omega (arith, used-eq-size h))
            ∙ ap (settle_write s (length m)) (write_frame-out_of_bounds h.valid m over))
          h
    | no fits ↦ absurd (
        accepted (
          sym
            (ap (λ (p : SharedMemoryRingBuffer × Outcome ℕ). p.1) (write-ok m h room (omega arith)))
          ∙ e))
  ]
  | no full ↦ rw (write-full h.valid m sl (omega (arith, used-eq-size h))) h
]
  where
    accepted : ok (length m) ≡ err x → ⊥
    accepted p = cc

AllFit-append :
    (n : ℕ) (q : Queue) (m : List ℕ) → AllFit n q → length m ≤ n → AllFit n (q ++ (m ∷ []))
AllFit-append n [] m h p = (p, tt)
AllFit-append n (x ∷ q) m (p, h) p' = (p, AllFit-append n q m h p')

NoneEmpty-append : (q : Queue) (m : List ℕ) → NoneEmpty q → 0 < length m → NoneEmpty (q ++ (m ∷ []))
NoneEmpty-append [] m h p = (p, tt)
NoneEmpty-append (x ∷ q) m (p, h) p' = (p, NoneEmpty-append q m h p')

length-size : (q : Queue) → 4 * length q ≤ size q
length-size [] = omega arith
length-size (m ∷ q) = omega (arith, length-size q)

module _ (os : EventKernel) (e : EventFd) where
  -- The messages in the ring buffer are as many as the signals in the counter, the rounds that the
  -- reader has left and the writers that have not signalled yet.
  pub record Counted (c : Channel os) : Type 0 where
    pub queue : Queue
    pub signals : ℕ
    pub holds : Holds c.buffer queue
    pub fit : AllFit (length c.buf) queue
    pub some_bytes : NoneEmpty queue
    pub counter : os.counter c.kernel e.fd ≡ some (false, signals)
    pub total : length queue ≡ signals + c.remaining + c.unsignalled

  pub put-Counted :
      (c : Channel os) (m : List ℕ) (n : ℕ)
      → Counted c
      → IsSlice m
      → 0 < length m
      → length m ≤ length c.buf
      → (write c.buffer m).1 ≡ ok n
      → Counted (record c { buffer = (write c.buffer m).0; unsignalled = c.unsignalled + 1 })
  put-Counted c m n i sl pos fits sent = record {
    queue = i.queue ++ (m ∷ []);
    signals = i.signals;
    holds = write-added m n i.holds sl sent;
    fit = AllFit-append (length c.buf) i.queue m i.fit fits;
    some_bytes = NoneEmpty-append i.queue m i.some_bytes pos;
    counter = i.counter;
    total = omega (arith, length-append i.queue (m ∷ []), i.total);
  }

  -- Messages take at least four bytes each, so the counter is never full.
  signals-lt : (c : Channel os) (i : Counted c) → i.signals < counter_max
  signals-lt c i = omega (
    arith,
    length-size i.queue,
    i.total,
    used-lt i.holds.valid,
    used-eq-size i.holds,
    i.holds.valid.small,
  )

  pub signalled-Counted :
      (c : Channel os) (u : ℕ)
      → Counted c
      → c.unsignalled ≡ u + 1
      → Counted (record c { kernel = (signal_eventfd os e c.kernel).0; unsignalled = u })
  signalled-Counted c u i between = record {
    queue = i.queue;
    signals = i.signals + 1;
    holds = i.holds;
    fit = i.fit;
    some_bytes = i.some_bytes;
    counter =
        (signal_eventfd_lem os e c.kernel i.signals false i.counter).1
        ∙ ap (λ b. some (false, if b then i.signals + 1 else i.signals))
            (lt→ltb i.signals counter_max (signals-lt c i));
    total = omega (arith, i.total, between);
  }

  pub woken-Counted :
      (c : Channel os) (count : ℕ)
      → Counted c
      → c.remaining ≡ 0
      → (wait_round os e c.kernel).1 ≡ some (ok count)
      → Counted (record c { kernel = (wait_round os e c.kernel).0; remaining = count })
  woken-Counted c count i idle got = elim (wait_round_lem os e c.kernel i.signals i.counter) [
    | inl (p, q) ↦
        absurd
          (nothing (sym (ap (λ (r : EventKernel.Kernel os × Option (Outcome ℕ)). r.1) q) ∙ got))
    | inr (p, q, left) ↦ record {
      queue = i.queue;
      signals = 0;
      holds = i.holds;
      fit = i.fit;
      some_bytes = i.some_bytes;
      counter = left;
      total = omega (arith, i.total, idle, same (sym got ∙ q));
    }
  ]
    where
      nothing : none ≡ some (ok count) → ⊥
      nothing p = cc

      same : some (ok count) ≡ some (ok i.signals) → count ≡ i.signals
      same p = cc

  pub not_ready-Counted :
      (c : Channel os)
      → Counted c
      → (wait_round os e c.kernel).1 ≡ none
      → Counted (record c { kernel = (wait_round os e c.kernel).0 })
  not_ready-Counted c i got = elim (wait_round_lem os e c.kernel i.signals i.counter) [
    | inl (p, q) ↦ record {
      queue = i.queue;
      signals = i.signals;
      holds = i.holds;
      fit = i.fit;
      some_bytes = i.some_bytes;
      counter = rw q i.counter;
      total = i.total;
    }
    | inr (p, q, left) ↦ absurd (something (sym got ∙ q))
  ]
    where
      something : none ≡ some (ok i.signals) → ⊥
      something p = cc
