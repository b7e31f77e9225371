-- ===== src/RoundTrip.antt =====
-- A request through the polling shared-memory transport and back: `ShmTransport::call` of the
-- gateway and `run_shm_server` of the backend, over one pair of ring buffers.
pub mod Crossed
mod Tests
use gateway_g_rpc.Prelude.{
  ℕ, ◌+◌, ◌≤◌, ◌<◌, ◌≡◌, List, [], ◌∷◌, ◌++◌, Option, some, none, refl, ap, ◌∙◌, arith, length,
  replicate, length-replicate,
}
use gateway_g_rpc.Shm.{ok}
use gateway_g_rpc.Proto.{EchoRequest, EchoResponse, Codec}
use gateway_g_rpc.Queue.{Queue, size}
use gateway_g_rpc.Ring.{SharedMemoryRingBuffer}
use gateway_g_rpc.Ring.Inv.{Holds, encode}
use gateway_g_rpc.Ring.Write.{written}
use gateway_g_rpc.Ring.Read.{after}
use gateway_g_rpc.Ring.Refine.{PrefixFits, write-ok, Holds-written}
use gateway_g_rpc.Backend.{Reading, echo_response, ShmServer, serve_round}
use gateway_g_rpc.Backend.Echo.{serve-answers}
use gateway_g_rpc.Ring.Several.{Holds-after}
use gateway_g_rpc.Transport.{Call, done, Tick, send_request, poll, call, timeout_ns, parse_response}
use gateway_g_rpc.Transport.Poll.{AllEmpty, poll-first, call-sent, send_request-ok}

-- The gateway's buffer of 65536 bytes, and the backend's.
abbrev pub buffer_len : ℕ
buffer_len = 65536

-- A request of the gateway, and the response that the backend makes of it, as bytes that fit.
pub record Exchange (request_codec : Codec EchoRequest) (response_codec : Codec EchoResponse)
    (t : Reading) (request : EchoRequest) (requests responses : SharedMemoryRingBuffer)
    : Type 0 where
  pub request_bytes : List ℕ
  pub response_bytes : List ℕ
  pub request_encoded : request_codec.to_vec request ≡ some request_bytes
  pub response_encoded : response_codec.to_vec (echo_response t request) ≡ some response_bytes
  pub request_empty : Holds requests []
  pub response_empty : Holds responses []
  pub request_fits : 4 + length request_bytes < requests.header.capacity
  pub response_fits : 4 + length response_bytes < responses.header.capacity
  pub request_short : length request_bytes ≤ buffer_len
  pub response_short : length response_bytes ≤ buffer_len
  pub request_prefix : PrefixFits requests
  pub response_prefix : PrefixFits responses

module _ (request_codec : Codec EchoRequest) (response_codec : Codec EchoResponse) (t : Reading)
    (request : EchoRequest) {requests responses : SharedMemoryRingBuffer}
    (x : Exchange request_codec response_codec t request requests responses) where
  pub send_lem :
      send_request request_codec requests request ≡ (written requests x.request_bytes, done tt)
  send_lem =
      send_request-ok request_codec request x.request_bytes x.request_encoded x.request_empty
        (omega (arith, x.request_fits)) x.request_prefix

  -- The server behind the write of the request.
  abbrev server : List ℕ → ShmServer
  server buf = record {
    request_buffer = written requests x.request_bytes;
    response_buffer = responses;
    request_buf = buf;
  }

  -- With both ring buffers empty, the request that `call` writes is taken by the next round of the
  -- server, and the response that this round writes is what `call` returns: the request's message
  -- and payload with the server's times. It is the result of the first turn of the polling loop that
  -- finds the server's response buffer, if that turn is in time and the turns before find it empty;
  -- both buffers are empty again. The exchange fits in the buffers, and no length prefix crosses
  -- their ends.
  pub call_round_trip :
      (buf : List ℕ) (before ticks : List Tick) (elapsed : ℕ)
      → length buf ≡ buffer_len
      → AllEmpty before
      → elapsed ≤ timeout_ns
      → (s : ShmServer) × (left : SharedMemoryRingBuffer) × (serve_round request_codec
            response_codec t
            (server buf)
          ≡ ok s)
        × (call request_codec response_codec requests request
              (before ++ (record { elapsed = elapsed; found = s.response_buffer } ∷ ticks))
            ≡ (written requests x.request_bytes, some left, done (echo_response t request)))
        × Holds s.request_buffer []
        × Holds left []
  call_round_trip buf before ticks elapsed hb all time = (
    s,
    left,
    served.1,
    call-sent request_codec response_codec requests _ request _ send_lem
        ∙ ap
            (λ (r : Option SharedMemoryRingBuffer × Call EchoResponse).
              (written requests x.request_bytes, r.0, r.1))
            (polled
              ∙ ap (λ d. (some left, parse_response d))
                  (response_codec.round_trip (echo_response t request) x.response_bytes
                    x.response_encoded)),
    served.2,
    Holds-after x.response_bytes [] (replicate 65536 0) responded,
  )
    where
      served :
          (s : ShmServer) × (serve_round request_codec response_codec t (server buf) ≡ ok s)
          × Holds s.request_buffer []
          × Holds s.response_buffer (x.response_bytes ∷ [])
      served =
          serve-answers request_codec response_codec t (server buf) x.request_bytes [] []
            (Holds-written x.request_bytes x.request_empty (omega (arith, x.request_fits))
              x.request_prefix)
            x.response_empty (omega (arith, x.request_short)) request
            (request_codec.round_trip request x.request_bytes x.request_encoded) x.response_bytes
            x.response_encoded (omega (arith, x.response_fits)) x.response_prefix

      s : ShmServer
      s = served.0

      responded : Holds s.response_buffer (x.response_bytes ∷ [])
      responded = served.3

      left : SharedMemoryRingBuffer
      left = after responded.valid x.response_bytes [] (replicate 65536 0) responded.bytes

      polled :
          poll response_codec
            (replicate 65536 0)
            (before ++ (record { elapsed = elapsed; found = s.response_buffer } ∷ ticks))
          ≡ (some left, parse_response (response_codec.from_slice x.response_bytes))
      polled =
          poll-first response_codec (replicate 65536 0) before ticks
            (record { elapsed = elapsed; found = s.response_buffer }) x.response_bytes [] all time
            responded (omega (arith, length-replicate {A = ℕ} 65536 0, x.response_short))
