-- ===== src/Signals/Tests.antt =====
-- One message of two bytes goes through: written, signalled, announced and taken.
use gateway_g_rpc.Prelude.{ℕ, ◌≡◌, refl, ap, false, some, List, [], ◌∷◌, arith, length, inl, inr}
use gateway_g_rpc.Shm.{Outcome, ok, err, fault}
use gateway_g_rpc.Queue.{Queue}
use gateway_g_rpc.Ring.{SharedMemoryRingBuffer, write, read}
use gateway_g_rpc.Ring.Inv.{Holds}
use gateway_g_rpc.Ring.Refine.{write-ok}
use gateway_g_rpc.EventFd.{EventFd, signal_eventfd, wait_round}
use gateway_g_rpc.EventFd.Laws.{signal_eventfd_lem, wait_round_lem}
use gateway_g_rpc.Signals.{
  Channel, rounds_left, put, signalled, woken, took, Reach, start, step, IsFresh,
}
use gateway_g_rpc.Signals.Counted.{Counted}
use gateway_g_rpc.Signals.Wakeups.{Reach-Counted, reader-finds, quiet-empty}
use gateway_g_rpc.Samples.{ring, Holds-ring}
use gateway_g_rpc.Samples.Kernel.{Table, table_kernel, table}

abbrev event : EventFd
event = record { fd = 3 }

abbrev two : List ℕ
two = 1 ∷ 2 ∷ []

abbrev go_on : ℕ → ℕ
go_on r = r

abbrev fresh : Channel table_kernel
fresh = record {
  buffer = ring;
  kernel = table;
  unsignalled = 0;
  buf = 0 ∷ 0 ∷ 0 ∷ [];
  remaining = 0;
}

fresh-IsFresh : IsFresh table_kernel event go_on fresh
fresh-IsFresh = record { empty = Holds-ring; silent = refl; none_between = refl; none_left = refl }

abbrev after_put : Channel table_kernel
after_put = record fresh { buffer = (write ring two).0; unsignalled = 1 }

abbrev after_signal : Channel table_kernel
after_signal = record after_put {
  kernel = (signal_eventfd table_kernel event table).0;
  unsignalled = 0;
}

abbrev woken_kernel : Table
woken_kernel = (wait_round table_kernel event after_signal.kernel).0

abbrev after_wake : Channel table_kernel
after_wake = record after_signal { kernel = woken_kernel; remaining = 1 }

abbrev after_take : Channel table_kernel
after_take = record after_wake {
  buffer = (read after_wake.buffer after_wake.buf).0;
  buf = (read after_wake.buffer after_wake.buf).1;
  remaining = rounds_left table_kernel go_on 0 (read after_wake.buffer after_wake.buf).2;
}

announced :
    ((wait_round table_kernel event after_signal.kernel).1 ≡ some (ok 1))
    × (woken_kernel.counters 3 ≡ some (false, 0))
announced =
    elim (wait_round_lem table_kernel event after_signal.kernel 1
      (signal_eventfd_lem table_kernel event table 0 false refl).1) [
        | inl (p, q) ↦ absurd (omega arith)
        | inr (p, q, left) ↦ (q, left)
      ]

Reach-put : Reach table_kernel event go_on fresh after_put
Reach-put = step fresh after_put start (
    put two 2 (omega arith) (omega arith) (omega arith) (
      ap (λ (r : SharedMemoryRingBuffer × Outcome ℕ). r.1)
        (write-ok two Holds-ring (omega arith) (omega arith))))

Reach-wake : Reach table_kernel event go_on fresh after_wake
Reach-wake =
    step after_signal after_wake (step after_put after_signal Reach-put (signalled 0 refl))
      (woken 1 refl announced.0)

Reach-take : Reach table_kernel event go_on fresh after_take
Reach-take = step after_wake after_take Reach-wake (took 0 refl)

no_rounds : (o : Outcome ℕ) → rounds_left table_kernel go_on 0 o ≡ 0
no_rounds (ok n) = ground arith
no_rounds (err x) = refl
no_rounds (fault f) = refl

counts_announced : Counted table_kernel event after_wake
counts_announced = Reach-Counted table_kernel event go_on fresh after_wake fresh-IsFresh Reach-wake

reader-finds_example :
    (m : List ℕ) × (p : Queue) × Holds after_wake.buffer (m ∷ p)
    × ((read after_wake.buffer after_wake.buf).2 ≡ ok (length m))
reader-finds_example =
    reader-finds table_kernel event go_on fresh after_wake fresh-IsFresh Reach-wake (omega arith)

quiet-empty_example : Holds after_take.buffer []
quiet-empty_example =
    quiet-empty table_kernel event go_on fresh after_take fresh-IsFresh Reach-take announced.1
      (no_rounds (read after_wake.buffer after_wake.buf).2) refl
