-- ===== src/UdsTrip/Completes.antt =====
-- A call of the Unix-socket transport from its start to its response.
use Prim.Native.String.{String}
use gateway_g_rpc.Prelude.{ℕ, ◌≡◌, Bool, true, some, List, [], ◌∷◌}
use gateway_g_rpc.Shm.{Outcome, ok}
use gateway_g_rpc.Proto.{EchoRequest, EchoResponse, Codec}
use gateway_g_rpc.Ring.{SharedMemoryRingBuffer}
use gateway_g_rpc.Ring.Inv.{Holds}
use gateway_g_rpc.Transport.{Call, done, waiting}
use gateway_g_rpc.Mux.{Gateway}
use gateway_g_rpc.Mux.Await.{await_call}
use gateway_g_rpc.Server.{RequestLoop, serve_notified, task_response}
use gateway_g_rpc.UdsTrip.{byte, Listening, hear}

module _ {S K : Type 0} (write_u8 : S → S × Bool) (notify : K → K)
    (request_codec : Codec (String × EchoRequest)) (response_codec : Codec (String × EchoResponse))
    (id : String) (tx : ℕ) (request : EchoRequest) (processing : ℕ) where
  abbrev pub answer : EchoResponse
  answer = task_response processing request

  -- After the start of the call and the run of its task: the call waits; the byte of notification
  -- makes the server spawn the task of this request; the byte that the task sends makes the listener
  -- hand the response out, and the call returns it. The two buffers are empty, the listener runs on.
  pub record Completed (request_buf response_buf : List ℕ) (started : Gateway × S × Call (Unit {0}))
      (finished : SharedMemoryRingBuffer × K × Outcome (Unit {0})) : Type 0 where
    pub sent : started.2 ≡ done tt
    pub waits : await_call tx started.0.calls ≡ waiting
    pub served : RequestLoop
    pub noticed :
        serve_notified request_codec (record {
          request_buffer = started.0.request_buffer;
          request_buf = request_buf;
          tasks = [];
        })
        ≡ ok served
    pub spawned : served.tasks ≡ (id, request) ∷ []
    pub no_request : Holds served.request_buffer []
    pub ran : finished.2 ≡ ok tt
    pub heard : Listening
    pub handed :
        (old : SharedMemoryRingBuffer)
        → hear response_codec 2 (byte finished.0) (record {
          listener = record {
            response_buffer = old;
            response_buf = response_buf;
            calls = started.0.calls;
          };
          is_running = true;
        })
          ≡ some (ok heard)
    pub runs_on : heard.is_running ≡ true
    pub no_response : Holds heard.listener.response_buffer []
    pub returns : await_call tx heard.listener.calls ≡ done answer
