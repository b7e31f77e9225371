-- ===== src/EventFd.antt =====
-- shared-memory/src/eventfd.rs, and the signalling of gateway/src/shm_transport_eventfd.rs and
-- backend/src/shm_server_eventfd.rs, over the kernel's event counters.
pub mod Laws
pub mod Wait
pub mod Pair
mod Tests
use gateway_g_rpc.Prelude.{
  ℕ, zero, suc, ◌+◌, ◌-◌, ◌^◌, ◌≤◌, ◌<◌, ◌≡◌, ◌≢◌, Bool, true, false, Option, none, some, List, [],
  ◌∷◌, ltb, ◌==◌, if◌then◌else◌,
}
use gateway_g_rpc.Shm.{ShmError, nix, invalid_state, Outcome, ok, err, fault}

-- What a system call returns: a value, or an error number.
pub data Sys {ℓ} (A : Type ℓ) : Type ℓ where
  returned : A → Sys A
  errno : ℕ → Sys A

abbrev pub eagain : ℕ
eagain = 11

abbrev pub ebadf : ℕ
ebadf = 9

-- The largest value of a counter.
abbrev pub counter_max : ℕ
counter_max = 2 ^ 64 - 2

-- eventfd(2), for descriptors opened with `EFD_NONBLOCK`. `counter k fd` is the counter behind an
-- open descriptor, with whether it is a semaphore. `read8` returns the number of bytes read and the
-- `u64` in the buffer.
pub record EventKernel : Type 1 where
  pub Kernel : Type 0
  pub counter : Kernel → ℕ → Option (Bool × ℕ)
  pub eventfd : Bool → Kernel → Kernel × Sys ℕ
  pub read8 : ℕ → Kernel → Kernel × Sys (ℕ × ℕ)
  pub write8 : ℕ → ℕ → Kernel → Kernel × Sys ℕ
  pub close : ℕ → Kernel → Kernel
  pub eventfd_zero :
      (semaphore : Bool) (k k' : Kernel) (fd : ℕ)
      → eventfd semaphore k ≡ (k', returned fd)
      → counter k' fd ≡ some (semaphore, 0)
  pub read-empty :
      (k : Kernel) (fd : ℕ) (semaphore : Bool)
      → counter k fd ≡ some (semaphore, 0)
      → read8 fd k ≡ (k, errno eagain)
  pub read-counter :
      (k : Kernel) (fd n : ℕ)
      → counter k fd ≡ some (false, suc n)
      → ((read8 fd k).1 ≡ returned (8, suc n)) × (counter (read8 fd k).0 fd ≡ some (false, 0))
  pub read-semaphore :
      (k : Kernel) (fd n : ℕ)
      → counter k fd ≡ some (true, suc n)
      → ((read8 fd k).1 ≡ returned (8, 1)) × (counter (read8 fd k).0 fd ≡ some (true, n))
  pub write-fits :
      (k : Kernel) (fd n v : ℕ) (semaphore : Bool)
      → counter k fd ≡ some (semaphore, n)
      → n + v ≤ counter_max
      → ((write8 fd v k).1 ≡ returned 8) × (counter (write8 fd v k).0 fd ≡ some (semaphore, n + v))
  pub write-overflows :
      (k : Kernel) (fd n v : ℕ) (semaphore : Bool)
      → counter k fd ≡ some (semaphore, n)
      → counter_max < n + v
      → write8 fd v k ≡ (k, errno eagain)
  pub write-keeps :
      (k : Kernel) (fd other v : ℕ) → other ≢ fd → counter (write8 fd v k).0 other ≡ counter k other
  pub read-closed : (k : Kernel) (fd : ℕ) → counter k fd ≡ none → read8 fd k ≡ (k, errno ebadf)
  pub write-closed :
      (k : Kernel) (fd v : ℕ) → counter k fd ≡ none → write8 fd v k ≡ (k, errno ebadf)
  pub close-closed : (k : Kernel) (fd : ℕ) → counter (close fd k) fd ≡ none

pub record EventFd : Type 0 where
  pub fd : ℕ

module _ (os : EventKernel) where
  open os use {Kernel, eventfd, read8, write8, close}

  -- `eventfd` of the nix crate returns an `OwnedFd`, which the end of the body drops: it closes.
  abbrev pub wrap_fd : Kernel → Sys ℕ → Kernel × Outcome EventFd
  wrap_fd k (returned fd) = (close fd k, ok (record { fd = fd }))
  wrap_fd k (errno e) = (k, err (nix e))

  pub new : Kernel → Kernel × Outcome EventFd
  new k = wrap_fd (eventfd false k).0 (eventfd false k).1

  pub new_semaphore : Kernel → Kernel × Outcome EventFd
  new_semaphore k = wrap_fd (eventfd true k).0 (eventfd true k).1

  pub signal : EventFd → Kernel → Kernel × Outcome (Unit {0})
  signal self k = (
    (write8 self.fd 1 k).0,
    elim (write8 self.fd 1 k).1 [ returned _ ↦ ok tt | errno e ↦ err (nix e) ],
  )

  pub wait : EventFd → Kernel → Kernel × Outcome ℕ
  wait self k = (
    (read8 self.fd k).0,
    elim (read8 self.fd k).1 [
      | returned (n, value) ↦ if n == 8 then ok value else err invalid_state
      | errno e ↦ err (nix e)
    ],
  )

  pub try_wait : EventFd → Kernel → Kernel × Outcome (Option ℕ)
  try_wait self k = (
    (read8 self.fd k).0,
    elim (read8 self.fd k).1 [
      | returned (n, value) ↦ if n == 8 then ok (some value) else err invalid_state
      | errno e ↦ if e == eagain then ok none else err (nix e)
    ],
  )

  pub clear : EventFd → Kernel → Kernel × Outcome ℕ
  clear self k = (
    (read8 self.fd k).0,
    elim (read8 self.fd k).1 [
      | returned (n, value) ↦ if n == 8 then ok value else err invalid_state
      | errno e ↦ if e == eagain then ok 0 else err (nix e)
    ],
  )

  -- `Drop`
  pub drop_fd : EventFd → Kernel → Kernel
  drop_fd self k = close self.fd k

  -- `signal_eventfd` of the transport and of the server: a full counter is no error.
  unfoldable pub signal_eventfd : EventFd → Kernel → Kernel × Outcome (Unit {0})
  signal_eventfd self k = (
    (write8 self.fd 1 k).0,
    elim (write8 self.fd 1 k).1 [
      | returned _ ↦ ok tt
      | errno e ↦ if e == eagain then ok tt else err (nix e)
    ],
  )

  -- One round of the loop of `wait_eventfd` and `wait_eventfd_async`, once the descriptor is
  -- readable: `none` goes round again.
  pub wait_round : EventFd → Kernel → Kernel × Option (Outcome ℕ)
  wait_round self k = (
    (read8 self.fd k).0,
    elim (read8 self.fd k).1 [
      | returned (n, count) ↦ if ltb 0 count then some (ok count) else none
      | errno e ↦ if e == eagain then none else some (err (nix e))
    ],
  )

  -- `wait_eventfd` and `wait_eventfd_async`: a round whenever the descriptor is readable, on the
  -- kernel as the round finds it; `none` as long as no round has come to an end.
  pub wait_eventfd : EventFd → List Kernel → Option (Kernel × Outcome ℕ)
  unfolding wait_round
  wait_eventfd self [] = none
  wait_eventfd self (k ∷ ks) =
      let rest = wait_eventfd self ks in
      let (k', result) = wait_round self k in elim result [ some r ↦ some (k', r) | none ↦ rest ]

  -- `n` signals in a row: the kernel that they leave.
  pub signal_times : ℕ → EventFd → Kernel → Kernel
  signal_times zero self k = k
  signal_times (suc n) self k = signal_times n self (signal self k).0
