-- ===== src/Transport.antt =====
-- gateway/src/transport.rs: waiting for the backend's shared memory, and the polling shared-memory
-- transport.
pub mod Wait
pub mod Poll
mod Tests
use gateway_g_rpc.Prelude.{
  ℕ, zero, suc, ◌+◌, ◌*◌, List, [], ◌∷◌, Option, none, some, ltb, if◌then◌else◌, take, replicate,
}
use gateway_g_rpc.Shm.{ShmError, Fault, Outcome, ok, err, fault}
use gateway_g_rpc.Proto.{EchoRequest, EchoResponse, Codec}
use gateway_g_rpc.Ring.{SharedMemoryRingBuffer, write, read}

-- The `anyhow` errors of the transports.
pub data CallError : Type 0 where
  serialize_failed : CallError
  write_failed : ShmError → CallError
  request_timeout : CallError
  deserialize_failed : CallError
  signal_failed : CallError
  channel_closed : CallError

-- What has come of a call: its result, a fault, or nothing yet.
pub data Call {ℓ} (A : Type ℓ) : Type ℓ where
  done : A → Call A
  failed : CallError → Call A
  crashed : Fault → Call A
  waiting : Call A

-- The loop of `wait_for_shm`. `opens k` is the result of `SharedMemoryRingBuffer::open` in the
-- attempt with `attempts = k` (`none` is an error). The result is `none` if the fuel runs out; inside
-- it, `none` is the timeout. Each failed attempt but the last sleeps.
module _ {ℓ} {B : Type ℓ} (opens : ℕ → Option B) where
  pub wait_loop : ℕ → ℕ → Option (Option B)
  wait_loop zero attempts = none
  wait_loop (suc fuel) attempts = elim (opens attempts) [
    | some buffer ↦ some (some buffer)
    | none ↦ if ltb 50 (attempts + 1) then some none else wait_loop fuel (attempts + 1)
  ]

  -- 51 rounds are enough.
  pub wait_for_shm : Option (Option B)
  unfolding wait_loop
  wait_for_shm = wait_loop 51 0

abbrev pub timeout_ns : ℕ
timeout_ns = 30 * 1000000000

-- One turn of the polling loop finds the clock and the response buffer as the environment left them.
pub record Tick : Type 0 where
  pub elapsed : ℕ
  pub found : SharedMemoryRingBuffer

module _ (request_codec : Codec EchoRequest) where
  -- `call` up to the polling loop: the request is serialised and written.
  pub send_request : SharedMemoryRingBuffer → EchoRequest → SharedMemoryRingBuffer × Call (Unit {0})
  send_request request_buffer request = elim (request_codec.to_vec request) [
    | none ↦ (request_buffer, failed serialize_failed)
    | some payload ↦
        let (buffer, result) = write request_buffer payload in
        elim result [
          | ok _ ↦ (buffer, done tt)
          | err e ↦ (buffer, failed (write_failed e))
          | fault f ↦ (buffer, crashed f)
        ]
  ]

-- The match on the result of `from_slice`.
abbrev pub parse_response : Option EchoResponse → Call EchoResponse
parse_response none = failed deserialize_failed
parse_response (some response) = done response

module _ (response_codec : Codec EchoResponse) where
  -- The polling loop over the turns that the environment gives it. It returns the response buffer
  -- that it leaves, if it has read it, and the result.
  pub poll : List ℕ → List Tick → Option SharedMemoryRingBuffer × Call EchoResponse
  poll response_buf [] = (none, waiting)
  poll response_buf (tick ∷ ticks) =
      let (buffer, response_buf', result) = read tick.found response_buf in
      let again = poll response_buf' ticks in
      if ltb timeout_ns tick.elapsed then (none, failed request_timeout) else elim result [
        | ok n ↦ (some buffer, parse_response (response_codec.from_slice (take n response_buf')))
        | err _ ↦ again
        | fault f ↦ (none, crashed f)
      ]

module _ (request_codec : Codec EchoRequest) (response_codec : Codec EchoResponse) where
  -- `Transport::call` of `ShmTransport`.
  pub call :
      SharedMemoryRingBuffer
      → EchoRequest
      → List Tick
      → SharedMemoryRingBuffer × Option SharedMemoryRingBuffer × Call EchoResponse
  unfolding send_request poll
  call request_buffer request ticks =
      let (buffer, sent) = send_request request_codec request_buffer request in
      elim sent [
        | done _ ↦
            let (left, result) = poll response_codec (replicate 65536 0) ticks in
            (buffer, left, result)
        | failed e ↦ (buffer, none, failed e)
        | crashed f ↦ (buffer, none, crashed f)
        | waiting ↦ (buffer, none, waiting)
      ]
