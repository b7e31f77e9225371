-- ===== src/System.antt =====
-- The eventfd transport and its server as one system: calls, request loop, tasks and listener, which
-- take their steps in any order (gateway/src/shm_transport_eventfd.rs and
-- backend/src/shm_server_eventfd.rs).
--
-- A start of a call, a task and a batch is a step each; only the two loops read, and a batch may be of
-- any length, so the steps of the others may fall between any two reads. That a loop is woken is a
-- step of its own, with no condition on the batch that follows. A call that fails has still put its
-- sender into the map.
pub mod Count
pub mod Calls
pub mod Hears
pub mod Inv
pub mod Tasks
pub mod Starts
pub mod Settled
pub mod Answers
pub mod Errors
pub mod Uds
pub mod Batches
mod Tests
mod UdsTests
use Prim.Native.String.{String}
use text.Mathlib.Text.{◌==◌ as str_eq}
use gateway_g_rpc.Prelude.{
  ℕ, zero, suc, ◌<◌, ◌≡◌, Bool, true, false, Option, none, some, List, [], ◌∷◌, ◌++◌, ◌==◌, length,
  if◌then◌else◌,
}
use gateway_g_rpc.Shm.{ShmError, Outcome, ok, err, fault}
use gateway_g_rpc.Proto.{EchoRequest, EchoResponse, Codec}
use gateway_g_rpc.Ring.{SharedMemoryRingBuffer, write}
use gateway_g_rpc.EventFd.{EventKernel, EventFd, wait_round}
use gateway_g_rpc.Mux.{Gateway, Listener, start_call, listen}
use gateway_g_rpc.Server.{RequestLoop, serve_batch, run_task, signal_gateway, task_response}
use gateway_g_rpc.Transport.{Call, CallError, done, failed, crashed, waiting}
use gateway_g_rpc.Mux.Await.{await_call}
use gateway_g_rpc.System.Count.{Started, count, has_id, has_tx}

-- The attempt to write a value into a ring buffer: whether its bytes are there afterwards.
pub data Put {A : Type 0} (codec : Codec A) (a : A) (buffer : SharedMemoryRingBuffer)
    : Bool → Type 0 where
  put :
      (bs : List ℕ) (n : ℕ)
      → codec.to_vec a ≡ some bs
      → (write buffer bs).1 ≡ ok n
      → Put codec a buffer true
  not_put :
      (bs : List ℕ) (x : ShmError)
      → codec.to_vec a ≡ some bs
      → (write buffer bs).1 ≡ err x
      → Put codec a buffer false
  not_encoded : codec.to_vec a ≡ none → Put codec a buffer false

-- The identifiers whose message did not go into a buffer.
abbrev pub note : Bool → String → List String → List String
note true id lost = lost
note false id lost = id ∷ lost

-- The errors that calls have returned, behind the start of a call with its result: `?` returns an error
-- at once, and behind a start that is done the call awaits its channel.
abbrev pub note_error :
    String → Call (Unit {0}) → List (String × CallError) → List (String × CallError)
note_error id (failed e) errors = (id, e) ∷ errors
note_error id (done u) errors = errors
note_error id (crashed f) errors = errors
note_error id waiting errors = errors

-- The error with which the start of a call has ended.
unfoldable pub error_of : String → List (String × CallError) → Option CallError
error_of id [] = none
error_of id ((i, e) ∷ errors) = if str_eq i id then some e else error_of id errors

abbrev pub failed_or : Option CallError → Call EchoResponse → Call EchoResponse
failed_or (some e) awaited = failed e
failed_or none awaited = awaited

module _ (K : Type 0) where
  -- Both processes, with the calls that have been made, the identifiers of those whose request or
  -- response could not be written, and the errors with which their starts have ended.
  pub record System : Type 0 where
    pub gateway : Gateway
    pub response_buffer : SharedMemoryRingBuffer
    pub request_buf : List ℕ
    pub response_buf : List ℕ
    pub tasks : List (String × EchoRequest)
    pub kernel : K
    pub history : List Started
    pub lost : List String
    pub errors : List (String × CallError)

  -- What a call that has been made returns: the error of its start, or what its channel gives.
  abbrev pub call_result : Started → System → Call EchoResponse
  call_result c s = failed_or (error_of c.id s.errors) (await_call c.tx s.gateway.calls)

  abbrev pub loop_of : System → RequestLoop
  loop_of s = record {
    request_buffer = s.gateway.request_buffer;
    request_buf = s.request_buf;
    tasks = s.tasks;
  }

  abbrev pub listener_of : System → Listener
  listener_of s = record {
    response_buffer = s.response_buffer;
    response_buf = s.response_buf;
    calls = s.gateway.calls;
  }

  abbrev pub served : RequestLoop → System → System
  served l s = record s {
    gateway = record s.gateway { request_buffer = l.request_buffer };
    request_buf = l.request_buf;
    tasks = l.tasks;
  }

  abbrev pub heard : Listener → System → System
  heard l s = record s {
    gateway = record s.gateway { calls = l.calls };
    response_buffer = l.response_buffer;
    response_buf = l.response_buf;
  }

  -- The system behind the start of a call, which has left the gateway `g` and the kernel `k`, with the
  -- result `result`.
  abbrev pub after_call : Gateway → K → Call (Unit {0}) → Bool → Started → System → System
  after_call g k result b c s = record s {
    gateway = g;
    kernel = k;
    history = c ∷ s.history;
    lost = note b c.id s.lost;
    errors = note_error c.id result s.errors;
  }

  abbrev pub ran :
      (K → K)
      → Codec (String × EchoResponse)
      → ℕ
      → Bool
      → String
      → EchoRequest
      → List (String × EchoRequest)
      → System
      → System
  ran notify codec processing b id request others s =
      let r = run_task notify codec processing (id, request) s.response_buffer s.kernel in
      record s { response_buffer = r.0; kernel = r.1; tasks = others; lost = note b id s.lost }

module _ (os : EventKernel) (request_codec : Codec (String × EchoRequest))
    (response_codec : Codec (String × EchoResponse)) (request_event response_event : EventFd) where
  open os use {Kernel}

  abbrev pub called : Bool → Started → System Kernel → System Kernel
  called b c s =
      let r = start_call os request_codec request_event c.id c.tx c.request s.gateway s.kernel in
      after_call Kernel r.0 r.1 r.2 b c s

  -- A call has an identifier and a channel that no call before had. No step faults.
  pub data Step (s : System Kernel) : System Kernel → Type 0 where
    call :
        (c : Started) (b : Bool)
        → count (has_id c.id) s.history ≡ 0
        → count (has_tx c.tx) s.history ≡ 0
        → Put request_codec (c.id, c.request) s.gateway.request_buffer b
        → Step s (called b c s)
    serve :
        (n : ℕ) (l : RequestLoop)
        → serve_batch request_codec n (loop_of Kernel s) ≡ ok l
        → Step s (served Kernel l s)
    task :
        (processing : ℕ) (b : Bool) (id : String) (request : EchoRequest)
        (before after : List (String × EchoRequest))
        → s.tasks ≡ before ++ ((id, request) ∷ after)
        → Put response_codec (id, task_response processing request) s.response_buffer b
        → Step s (
            ran Kernel
              (signal_gateway os response_event)
              response_codec
              processing
              b
              id
              request
              (before ++ after)
              s)
    hear :
        (n : ℕ) (l : Listener)
        → listen response_codec n (listener_of Kernel s) ≡ ok l
        → Step s (heard Kernel l s)
    woken : (e : EventFd) → Step s (record s { kernel = (wait_round os e s.kernel).0 })

  -- Any number of steps.
  pub data Reach (s : System Kernel) : System Kernel → Type 0 where
    start : Reach s s
    step : (t u : System Kernel) → Reach s t → Step t u → Reach s u
