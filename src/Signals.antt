-- ===== src/Signals.antt =====
-- How the eventfd transport keeps messages and signals together: writers of one ring buffer signal
-- after each message (`ShmTransportEventfd::call`, the tasks of `ShmServerEventfd::run`), and the one
-- reader takes as many messages as it has been signalled (the loops of `start_response_listener` and
-- of `run`). The writers and the reader run side by side: each access is a step.
pub mod Counted
pub mod Wakeups
mod Tests
use gateway_g_rpc.Prelude.{
  ℕ, zero, suc, ◌+◌, ◌≤◌, ◌<◌, ◌≡◌, false, Option, none, some, List, [], ◌==◌, if◌then◌else◌,
  length,
}
use gateway_g_rpc.Shm.{ShmError, Outcome, ok, err, fault}
use gateway_g_rpc.Ring.{SharedMemoryRingBuffer, write, read}
use gateway_g_rpc.Ring.Inv.{IsSlice, Holds}
use gateway_g_rpc.EventFd.{EventKernel, EventFd, signal_eventfd, wait_round}

module _ (os : EventKernel) where
  open os use {Kernel}

  -- The ring buffer, the kernel with the event counter, how many writers stand between their `write`
  -- and their signal, and the reader's buffer and rounds that are left of its `for _ in 0..count`.
  pub record Channel : Type 0 where
    pub buffer : SharedMemoryRingBuffer
    pub kernel : Kernel
    pub unsignalled : ℕ
    pub buf : List ℕ
    pub remaining : ℕ

  -- The rounds that are left after a read: `stop` says what a failed read and an empty message leave,
  -- which is none for the gateway's `break`, and all for the backend's `continue`.
  abbrev pub rounds_left : (ℕ → ℕ) → ℕ → Outcome ℕ → ℕ
  rounds_left stop r (ok n) = if n == 0 then stop r else r
  rounds_left stop r (err _) = stop r
  rounds_left stop r (fault _) = r

  module _ (e : EventFd) (stop : ℕ → ℕ) where
    -- The messages that are written are not empty and fit in the reader's buffer.
    pub data Step (c : Channel) : Channel → Type 0 where
      put :
          (m : List ℕ) (n : ℕ)
          → IsSlice m
          → 0 < length m
          → length m ≤ length c.buf
          → (write c.buffer m).1 ≡ ok n
          → Step c (record c { buffer = (write c.buffer m).0; unsignalled = c.unsignalled + 1 })
      put_failed :
          (m : List ℕ) (x : ShmError)
          → IsSlice m
          → (write c.buffer m).1 ≡ err x
          → Step c (record c { buffer = (write c.buffer m).0 })
      signalled :
          (u : ℕ)
          → c.unsignalled ≡ u + 1
          → Step c (record c { kernel = (signal_eventfd os e c.kernel).0; unsignalled = u })
      woken :
          (count : ℕ)
          → c.remaining ≡ 0
          → (wait_round os e c.kernel).1 ≡ some (ok count)
          → Step c (record c { kernel = (wait_round os e c.kernel).0; remaining = count })
      not_ready :
          c.remaining ≡ 0
          → (wait_round os e c.kernel).1 ≡ none
          → Step c (record c { kernel = (wait_round os e c.kernel).0 })
      took :
          (r : ℕ)
          → c.remaining ≡ r + 1
          → Step c (record c {
            buffer = (read c.buffer c.buf).0;
            buf = (read c.buffer c.buf).1;
            remaining = rounds_left stop r (read c.buffer c.buf).2;
          })

    -- Any number of steps.
    pub data Reach (c : Channel) : Channel → Type 0 where
      start : Reach c c
      step : (d d' : Channel) → Reach c d → Step d d' → Reach c d'

    -- A channel that nobody has used.
    pub record IsFresh (c : Channel) : Type 0 where
      pub empty : Holds c.buffer []
      pub silent : os.counter c.kernel e.fd ≡ some (false, 0)
      pub none_between : c.unsignalled ≡ 0
      pub none_left : c.remaining ≡ 0
