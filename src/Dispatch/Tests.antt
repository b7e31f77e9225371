-- ===== src/Dispatch/Tests.antt =====
-- One HTTP request through two rings of 16 bytes, and a choice among transports.
use gateway_g_rpc.Prelude.{ℕ, ◌≡◌, refl, none, some, List, [], ◌∷◌, arith}
use gateway_g_rpc.Transport
use gateway_g_rpc.Transport.{CallError, Call, done, failed, waiting, Tick}
use gateway_g_rpc.RoundTrip.{Exchange}
use gateway_g_rpc.Samples.Json.{json}
use gateway_g_rpc.Http.{Libraries, Counters, echo_request, respond}
use gateway_g_rpc.Dispatch.{tcp, shm, Calls, call, handle_call}
use gateway_g_rpc.Samples.{request_codec, response_codec, ring, Holds-ring, reading}

-- Every body is the JSON object with an empty message.
abbrev lib : Libraries CallError
lib = json (some "")

abbrev body : List ℕ
body = 1 ∷ 2 ∷ 3 ∷ []

abbrev zeros : Counters
zeros = record {
  http_requests_total = 0;
  http_request_durations = 0;
  grpc_requests_total = 0;
  grpc_request_durations = 0;
}

abbrev exchange :
    Exchange request_codec response_codec reading (echo_request lib "/echo" body 0) ring ring
unfolding echo_request
exchange = record {
  request_bytes = body;
  response_bytes = body;
  request_encoded = refl;
  response_encoded = refl;
  request_empty = Holds-ring;
  response_empty = Holds-ring;
  request_fits = omega arith;
  response_fits = omega arith;
  request_short = omega arith;
  response_short = omega arith;
  request_prefix = omega arith;
  response_prefix = omega arith;
}

-- Two transports that are told apart by what they do: one waits, the other cannot serialise.
abbrev calls : Calls (Unit {0}) (Unit {0}) (Unit {0}) (Unit {0}) (Unit {0})
calls = record {
  call_tcp = λ _ _. waiting;
  call_uds = λ _ _. waiting;
  call_shm = λ _ _. failed CallError.serialize_failed;
  call_shm_uds = λ _ _. waiting;
  call_shm_eventfd = λ _ _. waiting;
}

waits : handle_call lib (call calls (tcp tt)) (record { path = "/"; body = some [] }) 0 zeros ≡ none
unfolding call handle_call
waits = refl

fails :
    handle_call lib (call calls (shm tt)) (record { path = "/"; body = some [] }) 0 zeros
    ≡ some (
      record {
        http_requests_total = 1;
        http_request_durations = 1;
        grpc_requests_total = 1;
        grpc_request_durations = 0;
      },
      record { status = 503; content_type = none; body = "Service Unavailable: down" },
    )
unfolding call handle_call respond
fails = refl
