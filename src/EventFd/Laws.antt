-- ===== src/EventFd/Laws.antt =====
-- Signals are counted, and a wait takes them.
use gateway_g_rpc.Prelude.{
  ℕ, zero, suc, ◌+◌, ◌≤◌, ◌<◌, ◌≡◌, refl, ap, ◌∙◌, Bool, true, false, Option, none, some, arith,
  ◌⊎◌, inl, inr, ltb, if◌then◌else◌, dec_lt, lt→ltb, le→ltb-false,
}
use gateway_g_rpc.Shm.{nix, Outcome, ok, err}
use gateway_g_rpc.EventFd.{
  EventKernel, EventFd, Sys, returned, errno, eagain, ebadf, counter_max, wrap_fd, new,
  new_semaphore, signal, wait, try_wait, clear, drop_fd, signal_eventfd, wait_round, signal_times,
}

module _ (os : EventKernel) where
  open os use {
    Kernel, counter, eventfd, read8, write8, close, eventfd_zero, read-empty, read-counter,
    read-semaphore, write-fits, write-overflows, read-closed, write-closed, close-closed,
  }

  signal-counted :
      (e : EventFd) (k : Kernel) (c : ℕ) (semaphore : Bool)
      → counter k e.fd ≡ some (semaphore, c)
      → c + 1 ≤ counter_max
      → ((signal os e k).1 ≡ ok tt) × (counter (signal os e k).0 e.fd ≡ some (semaphore, c + 1))
  unfolding signal
  signal-counted e k c semaphore h room =
      let (r, c') = write-fits k e.fd c 1 semaphore h room in (rw r, c')

  -- `n` signals add `n` to the counter, if it does not overflow.
  pub signal_times-counted :
      (n : ℕ) (e : EventFd) (k : Kernel) (c : ℕ) (semaphore : Bool)
      → counter k e.fd ≡ some (semaphore, c)
      → c + n ≤ counter_max
      → counter (signal_times os n e k) e.fd ≡ some (semaphore, c + n)
  unfolding signal_times
  signal_times-counted zero e k c semaphore h room = h ∙ ap (λ j. some (semaphore, j)) (omega arith)
  signal_times-counted (suc n) e k c semaphore h room =
      signal_times-counted n e (signal os e k).0 (c + 1) semaphore
        (signal-counted e k c semaphore h (omega arith)).1 (omega arith)
      ∙ ap (λ j. some (semaphore, j)) (omega arith)

  wait-takes :
      (e : EventFd) (k : Kernel) (c : ℕ)
      → counter k e.fd ≡ some (false, suc c)
      → ((wait os e k).1 ≡ ok (suc c)) × (counter (wait os e k).0 e.fd ≡ some (false, 0))
  unfolding wait
  wait-takes e k c h = let (r, c') = read-counter k e.fd c h in (rw r, c')

  try_wait-empty :
      (e : EventFd) (k : Kernel) (semaphore : Bool)
      → counter k e.fd ≡ some (semaphore, 0)
      → try_wait os e k ≡ (k, ok none)
  unfolding try_wait
  try_wait-empty e k semaphore h = rw (read-empty k e.fd semaphore h)

  -- After one or more signals to an empty counter, `wait` returns their number at once, and a
  -- `try_wait` after it finds nothing.
  pub wait-signal_times :
      (n : ℕ) (e : EventFd) (k : Kernel)
      → counter k e.fd ≡ some (false, 0)
      → suc n ≤ counter_max
      → let k' = signal_times os (suc n) e k in
        ((wait os e k').1 ≡ ok (suc n)) × ((try_wait os e (wait os e k').0).1 ≡ ok none)
  wait-signal_times n e k h room =
      (taken.0, ap (λ (r : Kernel × Outcome (Option ℕ)). r.1) (try_wait-empty e _ false taken.1))
    where
      counted : counter (signal_times os (suc n) e k) e.fd ≡ some (false, suc n)
      counted =
          signal_times-counted (suc n) e k 0 false h (omega arith)
          ∙ ap (λ j. some (false, j)) (omega arith)

      taken :
          ((wait os e (signal_times os (suc n) e k)).1 ≡ ok (suc n))
          × (counter (wait os e (signal_times os (suc n) e k)).0 e.fd ≡ some (false, 0))
      taken = wait-takes e _ n counted

  -- On a semaphore each `wait` takes one signal.
  pub wait-semaphore :
      (n : ℕ) (e : EventFd) (k : Kernel)
      → counter k e.fd ≡ some (true, 0)
      → suc n ≤ counter_max
      → let k' = signal_times os (suc n) e k in
        ((wait os e k').1 ≡ ok 1) × (counter (wait os e k').0 e.fd ≡ some (true, n))
  unfolding wait
  wait-semaphore n e k h room = let (r, c) = read-semaphore _ e.fd n counted in (rw r, c)
    where
      counted : counter (signal_times os (suc n) e k) e.fd ≡ some (true, suc n)
      counted =
          signal_times-counted (suc n) e k 0 true h (omega arith)
          ∙ ap (λ j. some (true, j)) (omega arith)

  -- `wait` does not block: with no signal it fails with `EAGAIN`, and so it does on a semaphore.
  pub wait-would_block :
      (e : EventFd) (k : Kernel) (semaphore : Bool)
      → counter k e.fd ≡ some (semaphore, 0)
      → wait os e k ≡ (k, err (nix eagain))
  unfolding wait
  wait-would_block e k semaphore h = rw (read-empty k e.fd semaphore h)

  clear-counted :
      (e : EventFd) (k : Kernel) (c : ℕ)
      → counter k e.fd ≡ some (false, c)
      → ((clear os e k).1 ≡ ok c) × (counter (clear os e k).0 e.fd ≡ some (false, 0))
  unfolding clear
  clear-counted e k zero h = rw (read-empty k e.fd false h) (refl, h)
  clear-counted e k (suc c) h = let (r, c') = read-counter k e.fd c h in (rw r, c')

  -- After any number of signals to an empty counter, none included, `clear` returns their number, and
  -- a second `clear` returns 0. After `drop` it fails with `EBADF`.
  pub clear-signal_times :
      (n : ℕ) (e : EventFd) (k : Kernel)
      → counter k e.fd ≡ some (false, 0)
      → n ≤ counter_max
      → let k' = signal_times os n e k in
        ((clear os e k').1 ≡ ok n)
        × ((clear os e (clear os e k').0).1 ≡ ok 0)
        × ((clear os e (drop_fd os e k')).1 ≡ err (nix ebadf))
  unfolding clear drop_fd
  clear-signal_times n e k h room =
      let counted =
        signal_times-counted n e k 0 false h (omega arith)
        ∙ ap (λ j. some (false, j)) (omega arith) in
      let (r, c) = clear-counted e _ n counted in
      (
        r,
        (clear-counted e _ 0 c).0,
        rw (
            read-closed (close e.fd (signal_times os n e k)) e.fd
              (close-closed (signal_times os n e k) e.fd)),
      )

  abbrev fd_of : Outcome EventFd → ℕ
  fd_of (ok e) = e.fd
  fd_of _ = 0

  wrap_fd-closed :
      (e : EventFd) (k' k : Kernel) (r : Sys ℕ)
      → wrap_fd os k r ≡ (k', ok e)
      → counter k' e.fd ≡ none
  wrap_fd-closed e k' k (returned fd) p = rw (← closed, ← same) (close-closed k fd)
    where
      closed : close fd k ≡ k'
      closed = ap (λ (q : Kernel × Outcome EventFd). q.0) p

      same : fd ≡ e.fd
      same = ap (λ (q : Kernel × Outcome EventFd). fd_of q.1) p
  wrap_fd-closed e k' k (errno n) p = absurd (not_ok (ap (λ (q : Kernel × Outcome EventFd). q.1) p))
    where
      not_ok : err (nix n) ≡ ok e → ⊥
      not_ok q = cc

  pub new-gone :
      (e : EventFd) (k k' : Kernel)
      → (new os k ≡ (k', ok e)) ⊎ (new_semaphore os k ≡ (k', ok e))
      → counter k' e.fd ≡ none
  unfolding new new_semaphore
  new-gone e k k' (inl p) = wrap_fd-closed e k' _ (eventfd false k).1 p
  new-gone e k k' (inr p) = wrap_fd-closed e k' _ (eventfd true k).1 p

  -- The descriptor of an `EventFd` that `new` or `new_semaphore` returns is closed: signalling it and
  -- waiting for it fail with `EBADF`.
  pub new-closed :
      (e : EventFd) (k k' : Kernel)
      → (new os k ≡ (k', ok e)) ⊎ (new_semaphore os k ≡ (k', ok e))
      → (signal os e k' ≡ (k', err (nix ebadf))) × (wait os e k' ≡ (k', err (nix ebadf)))
  unfolding signal wait
  new-closed e k k' h =
      let gone = new-gone e k k' h in
      rw (write-closed k' e.fd 1 gone, read-closed k' e.fd gone) (refl, refl)

  -- On an open counter, the round of the waiting loop that finds signals returns their number and
  -- clears the counter, and one that finds none goes round again: between two results no signal is lost
  -- or counted twice.
  pub wait_round_lem :
      (e : EventFd) (k : Kernel) (c : ℕ)
      → counter k e.fd ≡ some (false, c)
      → ((c ≡ 0) × (wait_round os e k ≡ (k, none)))
        ⊎ ((0 < c)
            × ((wait_round os e k).1 ≡ some (ok c))
            × (counter (wait_round os e k).0 e.fd ≡ some (false, 0)))
  unfolding wait_round
  wait_round_lem e k zero h = inl (refl, rw (read-empty k e.fd false h))
  wait_round_lem e k (suc c) h =
      let (r, c') = read-counter k e.fd c h in
      inr (omega arith, rw (r, lt→ltb 0 (suc c) (omega arith)), c')

  -- `signal_eventfd` never fails on an open counter, and counts the signal unless the counter is full.
  pub signal_eventfd_lem :
      (e : EventFd) (k : Kernel) (c : ℕ) (semaphore : Bool)
      → counter k e.fd ≡ some (semaphore, c)
      → ((signal_eventfd os e k).1 ≡ ok tt)
        × (counter (signal_eventfd os e k).0 e.fd
            ≡ some (semaphore, if ltb c counter_max then c + 1 else c))
  unfolding signal_eventfd
  signal_eventfd_lem e k c semaphore h = elim (dec_lt c counter_max) [
    | yes room ↦
        let (r, c') = write-fits k e.fd c 1 semaphore h (omega arith) in
        (rw r, rw (lt→ltb c counter_max room) c')
    | no full ↦
        rw
          (
            write-overflows k e.fd c 1 semaphore h (omega arith),
            le→ltb-false c counter_max (omega arith),
          )
          (refl, h)
  ]
