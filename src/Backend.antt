-- ===== src/Backend.antt =====
-- backend/src/main.rs: the echo service, and one round of the polling shared-memory server.
-- Times are nanoseconds that the caller of a function has read from the clock.
pub mod Echo
pub mod Rounds
mod Tests
use gateway_g_rpc.Prelude.{ℕ, ◌+◌, ◌/◌, List, [], ◌∷◌, Option, none, some, take}
use gateway_g_rpc.Shm.{Outcome, ok, err, fault, ◌>>=◌}
use gateway_g_rpc.Proto.{EchoRequest, EchoResponse, Codec, as_i64}
use gateway_g_rpc.Ring.{SharedMemoryRingBuffer, write, read}

-- What the clock shows in one request: `recv_time.elapsed()` and `start.elapsed()`.
pub record Reading : Type 0 where
  pub recv_elapsed : ℕ
  pub processing : ℕ

-- The response of `echo` and of `run_shm_server`.
abbrev pub echo_response : Reading → EchoRequest → EchoResponse
echo_response t req = record {
  message = req.message;
  timestamp_ns = as_i64 t.recv_elapsed;
  processing_time_us = as_i64 (t.processing / 1000);
  payload = req.payload;
}

-- The two Prometheus metrics of the backend, as counts.
pub record BackendMetrics : Type 0 where
  pub request_counter : ℕ
  pub request_durations : ℕ

-- `EchoServiceTrait::echo`, which always succeeds.
unfoldable pub echo : BackendMetrics → Reading → EchoRequest → BackendMetrics × EchoResponse
echo metrics t req = (
  record {
    request_counter = metrics.request_counter + 1;
    request_durations = metrics.request_durations + 1;
  },
  echo_response t req,
)

pub record ShmServer : Type 0 where
  pub request_buffer : SharedMemoryRingBuffer
  pub response_buffer : SharedMemoryRingBuffer
  pub request_buf : List ℕ

module _ (request_codec : Codec EchoRequest) (response_codec : Codec EchoResponse) where
  -- A failed `write` of the response is logged and forgotten.
  pub send_response : ShmServer → EchoResponse → Outcome ShmServer
  send_response s response = elim (response_codec.to_vec response) [
    | none ↦ ok s
    | some payload ↦
        let (response_buffer, result) = write s.response_buffer payload in
        elim result [
          | ok _ ↦ ok (record s { response_buffer = response_buffer })
          | err _ ↦ ok (record s { response_buffer = response_buffer })
          | fault f ↦ fault f
        ]
  ]

  -- One round of the loop of `run_shm_server`.
  pub serve_round : Reading → ShmServer → Outcome ShmServer
  unfolding send_response
  serve_round t s =
      let (request_buffer, request_buf, result) = read s.request_buffer s.request_buf in
      let s' : ShmServer = record s {
        request_buffer = request_buffer;
        request_buf = request_buf;
      } in
      elim result [
        | ok n ↦ elim (request_codec.from_slice (take n request_buf)) [
          | none ↦ ok s'
          | some request ↦ send_response s' (echo_response t request)
        ]
        | err _ ↦ ok s'
        | fault f ↦ fault f
      ]

  -- The rounds of the loop of `run_shm_server`, each with what the clock shows in it.
  pub run_shm_server : List Reading → ShmServer → Outcome ShmServer
  unfolding serve_round
  run_shm_server [] s = ok s
  run_shm_server (t ∷ ts) s = serve_round t s >>= (λ s'. run_shm_server ts s')
