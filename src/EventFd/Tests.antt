-- ===== src/EventFd/Tests.antt =====
-- A kernel with a table of counters, which meets what `EventKernel` asks, and the theorems over it.
use gateway_g_rpc.Prelude.{ℕ, ◌<◌, ◌≡◌, refl, true, false, none, some, arith, inl, ◌⊎◌}
use gateway_g_rpc.Shm.{nix, ok, err}
use gateway_g_rpc.EventFd.{
  EventFd, ebadf, new, signal, wait, try_wait, clear, drop_fd, wait_round, signal_times,
  signal_eventfd,
}
use gateway_g_rpc.Samples.Kernel.{Table, put, table_eventfd, table_kernel, table}
use gateway_g_rpc.EventFd.Pair.{
  EventFdPair, split, new_pair, wait_receiver, try_wait_receiver, new_pair-closed,
}
use gateway_g_rpc.EventFd.Laws.{
  wait-signal_times, clear-signal_times, wait-semaphore, wait-would_block, new-closed,
  wait_round_lem, signal_eventfd_lem,
}

abbrev three : EventFd
three = record { fd = 3 }

abbrev four : EventFd
four = record { fd = 4 }

two_signals :
    let k' = signal_times table_kernel 2 three table in
    ((wait table_kernel three k').1 ≡ ok 2)
    × ((try_wait table_kernel three (wait table_kernel three k').0).1 ≡ ok none)
two_signals = wait-signal_times table_kernel 1 three table refl (omega arith)

semaphore_waits :
    let k' = signal_times table_kernel 2 four table in
    ((wait table_kernel four k').1 ≡ ok 1)
    × ((wait table_kernel four k').0.counters 4 ≡ some (true, 1))
semaphore_waits = wait-semaphore table_kernel 1 four table refl (omega arith)

no_signal : wait table_kernel three table ≡ (table, err (nix 11))
no_signal = wait-would_block table_kernel three table false refl

-- What `new` leaves: descriptor 5 is taken, and closed.
abbrev after_new : Table
after_new = put (table_eventfd false table).0 5 none

new-closed_example :
    (signal table_kernel (record { fd = 5 }) after_new ≡ (after_new, err (nix 9)))
    × (wait table_kernel (record { fd = 5 }) after_new ≡ (after_new, err (nix 9)))
unfolding new
new-closed_example = new-closed table_kernel (record { fd = 5 }) table after_new (inl refl)

one_round :
    ((◌≡◌ {A = ℕ} 2 0)
      × (wait_round table_kernel three (put table 3 (some (false, 2)))
          ≡ (put table 3 (some (false, 2)), none)))
    ⊎ ((0 < 2)
        × ((wait_round table_kernel three (put table 3 (some (false, 2)))).1 ≡ some (ok 2))
        × ((wait_round table_kernel three (put table 3 (some (false, 2)))).0.counters 3
            ≡ some (false, 0)))
one_round = wait_round_lem table_kernel three (put table 3 (some (false, 2))) 2 refl

one_signal :
    ((signal_eventfd table_kernel three table).1 ≡ ok tt)
    × ((signal_eventfd table_kernel three table).0.counters 3 ≡ some (false, 1))
one_signal = signal_eventfd_lem table_kernel three table 0 false refl

cleared :
    let k' = signal_times table_kernel 2 three table in
    ((clear table_kernel three k').1 ≡ ok 2)
    × ((clear table_kernel three (clear table_kernel three k').0).1 ≡ ok 0)
    × ((clear table_kernel three (drop_fd table_kernel three k')).1 ≡ err (nix ebadf))
cleared = clear-signal_times table_kernel 2 three table refl (omega arith)

abbrev fives : EventFdPair
fives = record { tx = record { fd = 5 }; rx = record { fd = 6 } }

-- The descriptors of a new pair in a kernel that uses no number twice.
fresh_pair : new_pair table_kernel table ≡ ((new_pair table_kernel table).0, ok fives)
unfolding new_pair new
fresh_pair = refl

new_pair-closed_example :
    let k' = (new_pair table_kernel table).0 in
    (wait_receiver table_kernel (split fives).1 k' ≡ (k', err (nix 9)))
    × (try_wait_receiver table_kernel (split fives).1 k' ≡ (k', err (nix 9)))
new_pair-closed_example =
    new_pair-closed table_kernel table (new_pair table_kernel table).0 fives fresh_pair
