-- ===== src/Startup.antt =====
-- How the two processes find each other's ring buffers: the backend creates them (`main` of
-- backend/src/main.rs, `new` of the servers), and the gateway waits for them (`ShmTransport::new` of
-- gateway/src/transport.rs and `new` of the other transports).
pub mod Shared
pub mod Sockets
pub mod Strangers
mod Tests
use Prim.Native.String.{String, ◌++◌ as ◌<>◌}
use gateway_g_rpc.Prelude.{ℕ, Option, none, some}
use gateway_g_rpc.Shm.{Fault, Outcome, ok, err, fault, ShmConfig, default_config}
use gateway_g_rpc.Ring.{SharedMemoryRingBuffer}
use gateway_g_rpc.Setup.{ShmOs, create, open_existing}
use gateway_g_rpc.Transport.{CallError, wait_for_shm}

-- `format!("{}_req_buf", name)` and `format!("{}_resp_buf", name)`
abbrev pub req_name : String → String
req_name name = name <> "_req_buf"

abbrev pub resp_name : String → String
resp_name name = name <> "_resp_buf"

-- The request buffer and the response buffer.
pub record Buffers : Type 0 where
  pub requests : SharedMemoryRingBuffer
  pub responses : SharedMemoryRingBuffer

module _ (sys : ShmOs) where
  open sys use {Os}

  abbrev pub second_made :
      SharedMemoryRingBuffer → Os × Outcome SharedMemoryRingBuffer → Os × Outcome Buffers
  second_made requests (os, ok responses) =
      (os, ok (record { requests = requests; responses = responses }))
  second_made requests (os, err e) = (os, err e)
  second_made requests (os, fault f) = (os, fault f)

  abbrev pub first_made :
      String → ShmConfig → Os × Outcome SharedMemoryRingBuffer → Os × Outcome Buffers
  first_made name config (os, ok requests) =
      second_made requests (create sys (resp_name name) config os)
  first_made name config (os, err e) = (os, err e)
  first_made name config (os, fault f) = (os, fault f)

  -- What the backend creates under a name.
  unfoldable pub create_buffers : String → ShmConfig → Os → Os × Outcome Buffers
  create_buffers name config os = first_made name config (create sys (req_name name) config os)

  -- An attempt of `wait_for_shm`; every failure is retried.
  abbrev pub opened : Outcome SharedMemoryRingBuffer → Option SharedMemoryRingBuffer
  opened (ok buffer) = some buffer
  opened (err e) = none
  opened (fault f) = none

  -- The attempts for one name, each on the system as it finds it.
  abbrev pub attempts : String → ShmConfig → (ℕ → Os) → ℕ → Option SharedMemoryRingBuffer
  attempts name config at k = opened (open_existing sys name config (at k)).1

  abbrev pub second_found :
      SharedMemoryRingBuffer → Option (Option SharedMemoryRingBuffer) → Option (Option Buffers)
  second_found requests none = none
  second_found requests (some none) = some none
  second_found requests (some (some responses)) =
      some (some (record { requests = requests; responses = responses }))

  abbrev pub first_found :
      Option (Option SharedMemoryRingBuffer)
      → Option (Option SharedMemoryRingBuffer)
      → Option (Option Buffers)
  first_found none second = none
  first_found (some none) second = some none
  first_found (some (some requests)) second = second_found requests second

  -- `ShmTransport::new`: it waits for the request buffer, and then for the response buffer. Inside
  -- the result, `none` is the timeout.
  pub connect : String → ShmConfig → (ℕ → Os) → (ℕ → Os) → Option (Option Buffers)
  connect name config at then_at =
      first_found (wait_for_shm (attempts (req_name name) config at))
        (wait_for_shm (attempts (resp_name name) config then_at))
