-- ===== src/InFlight.antt =====
-- Many calls of the eventfd transport at a time: their starts, one batch of the server, their tasks in
-- any order, and one batch of the listener (gateway/src/shm_transport_eventfd.rs and
-- backend/src/shm_server_eventfd.rs).
pub mod Starts
pub mod Tasks
pub mod Completes
mod Tests
use Prim.Native.String.{String}
use gateway_g_rpc.Prelude.{ℕ, ◌≡◌, Option, none, some, List, [], ◌∷◌, ◌++◌}
use gateway_g_rpc.Shm.{Outcome}
use gateway_g_rpc.Proto.{EchoRequest, EchoResponse, Codec}
use gateway_g_rpc.Queue.{Queue}
use gateway_g_rpc.Ring.{SharedMemoryRingBuffer}
use gateway_g_rpc.EventFd.{EventKernel, EventFd}
use gateway_g_rpc.Transport.{Call}
use gateway_g_rpc.Mux.{Gateway, start_call}
use gateway_g_rpc.Mux.Route.{Reply}
use gateway_g_rpc.Server.{task_response, run_task}

-- A call, with the time that its task takes and the bytes of its two messages.
pub record Planned : Type 0 where
  pub id : String
  pub tx : ℕ
  pub request : EchoRequest
  pub processing : ℕ
  pub request_bytes : List ℕ
  pub response_bytes : List ℕ

abbrev pub response_of : Planned → EchoResponse
response_of p = task_response p.processing p.request

abbrev pub reply_of : Planned → Reply
reply_of p = record { id = p.id; tx = p.tx; response = response_of p; bytes = p.response_bytes }

abbrev pub replies : List Planned → List Reply
replies [] = []
replies (p ∷ ps) = reply_of p ∷ replies ps

abbrev pub request_queue : List Planned → Queue
request_queue [] = []
request_queue (p ∷ ps) = p.request_bytes ∷ request_queue ps

abbrev pub tasks_of : List Planned → List (String × EchoRequest)
tasks_of [] = []
tasks_of (p ∷ ps) = (p.id, p.request) ∷ tasks_of ps

module _ (os : EventKernel) (codec : Codec (String × EchoRequest)) (e : EventFd) where
  open os use {Kernel}

  -- The calls start one after the other; what each start returns comes last.
  pub start_all : List Planned → Gateway → Kernel → Gateway × Kernel × List (Call (Unit {0}))
  start_all [] g k = (g, k, [])
  start_all (p ∷ ps) g k =
      let (g', k', result) = start_call os codec e p.id p.tx p.request g k in
      let (g'', k'', results) = start_all ps g' k' in (g'', k'', result ∷ results)

module _ {K : Type 0} (notify : K → K) (codec : Codec (String × EchoResponse)) where
  -- The tasks run one after the other, in the order of the list.
  pub run_all :
      List Planned
      → SharedMemoryRingBuffer
      → K
      → SharedMemoryRingBuffer × K × List (Outcome (Unit {0}))
  run_all [] buffer k = (buffer, k, [])
  run_all (p ∷ ps) buffer k =
      let (buffer', k', result) = run_task notify codec p.processing (p.id, p.request) buffer k in
      let (buffer'', k'', results) = run_all ps buffer' k' in (buffer'', k'', result ∷ results)
