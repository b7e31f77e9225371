-- ===== src/UdsTrip.antt =====
-- A request through the Unix-socket transport and back: `call` of `ShmTransportUds` and the task that
-- listens for its notifications (gateway/src/shm_transport_uds.rs), the request loop and a task of
-- `ShmServerUds` (backend/src/shm_server_uds.rs).
pub mod Completes
mod Tests
use Prim.Native.String.{String}
use gateway_g_rpc.Prelude.{ℕ, Bool, true, false, Option, none, some, List, [], ◌∷◌, if◌then◌else◌}
use gateway_g_rpc.Shm.{Outcome, ok, err, fault}
use gateway_g_rpc.Proto.{EchoResponse, Codec}
use gateway_g_rpc.Ring.{SharedMemoryRingBuffer}
use gateway_g_rpc.Mux.{Listener, drain}

-- What `notify_read.read_exact` finds: a byte, with the response buffer as the backend has left it,
-- or an error of the socket.
pub data Notice : Type 0 where
  byte : SharedMemoryRingBuffer → Notice
  socket_failed : Notice

-- The listener's task: what it owns, and whether it still runs.
pub record Listening : Type 0 where
  pub listener : Listener
  pub is_running : Bool

module _ (codec : Codec (String × EchoResponse)) where
  abbrev pub drained : Option (Outcome Listener) → Option (Outcome Listening)
  drained none = none
  drained (some (ok l)) = some (ok (record { listener = l; is_running = true }))
  drained (some (err e)) = some (err e)
  drained (some (fault f)) = some (fault f)

  abbrev pub react : ℕ → Notice → Listening → Option (Outcome Listening)
  react fuel (byte buffer) s =
      drained (drain codec fuel (record s.listener { response_buffer = buffer }))
  react fuel socket_failed s = some (ok (record s { is_running = false }))

  -- A round of the listener's outer loop, with fuel for the inner one; a task that has ended does
  -- nothing.
  pub hear : ℕ → Notice → Listening → Option (Outcome Listening)
  hear fuel notice s = if s.is_running then react fuel notice s else some (ok s)

  abbrev pub and_then :
      (Listening → Option (Outcome Listening))
      → Option (Outcome Listening)
      → Option (Outcome Listening)
  and_then f (some (ok s)) = f s
  and_then f (some (err e)) = some (err e)
  and_then f (some (fault x)) = some (fault x)
  and_then f none = none

  -- The rounds for the notices, one after the other.
  pub hear_all : ℕ → List Notice → Listening → Option (Outcome Listening)
  hear_all fuel [] s = some (ok s)
  hear_all fuel (n ∷ ns) s = and_then (λ t. hear_all fuel ns t) (hear fuel n s)
