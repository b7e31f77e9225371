-- ===== src/Dispatch.antt =====
-- gateway/src/transport.rs and gateway/src/main.rs: the choice of a transport, and the HTTP handler
-- over a transport that may keep it waiting.
pub mod HttpTrip
mod Tests
use Prim.Native.String.{String}
use gateway_g_rpc.Prelude.{ℕ, Option, none, some, List}
use gateway_g_rpc.Proto.{EchoRequest, EchoResponse}
use gateway_g_rpc.Transport.{CallError, Call, done, failed, crashed, waiting}
use gateway_g_rpc.Http.{
  Libraries, HttpRequest, HttpResponse, Counters, Answer, answered, refused, echo_request,
  bad_request, respond, count_answer, count_request,
}

-- `TransportEnum`, over what each transport holds.
pub data TransportEnum (Tcp Uds Shm ShmUds ShmEventfd : Type 0) : Type 0 where
  tcp : Tcp → TransportEnum Tcp Uds Shm ShmUds ShmEventfd
  uds : Uds → TransportEnum Tcp Uds Shm ShmUds ShmEventfd
  shm : Shm → TransportEnum Tcp Uds Shm ShmUds ShmEventfd
  shm_uds : ShmUds → TransportEnum Tcp Uds Shm ShmUds ShmEventfd
  shm_eventfd : ShmEventfd → TransportEnum Tcp Uds Shm ShmUds ShmEventfd

-- The transports' own `call`.
pub record Calls (Tcp Uds Shm ShmUds ShmEventfd : Type 0) : Type 0 where
  pub call_tcp : Tcp → EchoRequest → Call EchoResponse
  pub call_uds : Uds → EchoRequest → Call EchoResponse
  pub call_shm : Shm → EchoRequest → Call EchoResponse
  pub call_shm_uds : ShmUds → EchoRequest → Call EchoResponse
  pub call_shm_eventfd : ShmEventfd → EchoRequest → Call EchoResponse

module _ {Tcp Uds Shm ShmUds ShmEventfd : Type 0}
    (calls : Calls Tcp Uds Shm ShmUds ShmEventfd) where
  unfoldable pub call :
      TransportEnum Tcp Uds Shm ShmUds ShmEventfd → EchoRequest → Call EchoResponse
  call (tcp t) request = calls.call_tcp t request
  call (uds t) request = calls.call_uds t request
  call (shm t) request = calls.call_shm t request
  call (shm_uds t) request = calls.call_shm_uds t request
  call (shm_eventfd t) request = calls.call_shm_eventfd t request

-- What the handler makes of a call: nothing as long as it waits, or once it has crashed.
abbrev pub to_answer : Call EchoResponse → Option (Answer CallError)
to_answer (done response) = some (answered response)
to_answer (failed e) = some (refused e)
to_answer (crashed f) = none
to_answer waiting = none

module _ (lib : Libraries CallError) where
  abbrev pub respond_to : Counters → Option (Answer CallError) → Option (Counters × HttpResponse)
  respond_to c none = none
  respond_to c (some answer) = some (count_answer lib answer c, respond lib answer)

  -- The handler behind `collect_body`, over a transport that may give no answer.
  abbrev pub forward_call :
      (EchoRequest → Call EchoResponse)
      → Option (List ℕ)
      → String
      → ℕ
      → Counters
      → Option (Counters × HttpResponse)
  forward_call transport none path elapsed c = some (c, bad_request lib)
  forward_call transport (some bytes) path elapsed c =
      respond_to c (to_answer (transport (echo_request lib path bytes elapsed)))

  -- `Gateway::handle_request` over the whole of `call`: `none` as long as the call waits.
  pub handle_call :
      (EchoRequest → Call EchoResponse)
      → HttpRequest
      → ℕ
      → Counters
      → Option (Counters × HttpResponse)
  handle_call transport req elapsed c =
      forward_call transport req.body req.path elapsed (count_request lib c)
