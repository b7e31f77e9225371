-- ===== src/RoundTrip/Crossed.antt =====
-- Two calls of the polling transport at a time: nothing says which response belongs to which call.
use gateway_g_rpc.Prelude.{
  ℕ, ◌+◌, ◌≤◌, ◌<◌, ◌≡◌, ap, ◌∙◌, Option, some, List, [], ◌∷◌, arith, length, replicate,
  length-replicate,
}
use gateway_g_rpc.Shm.{ok}
use gateway_g_rpc.Proto.{EchoRequest, EchoResponse, Codec}
use gateway_g_rpc.Queue.{size}
use gateway_g_rpc.Ring.{SharedMemoryRingBuffer}
use gateway_g_rpc.Ring.Inv.{Holds, encode}
use gateway_g_rpc.Ring.Write.{written}
use gateway_g_rpc.Ring.Read.{after}
use gateway_g_rpc.Ring.Refine.{PrefixFits, Holds-written}
use gateway_g_rpc.Backend.{Reading, echo_response, ShmServer, serve_round}
use gateway_g_rpc.Backend.Echo.{serve-written, taken}
use gateway_g_rpc.Ring.Several.{Holds-after}
use gateway_g_rpc.Transport.{Call, done, call, timeout_ns, parse_response}
use gateway_g_rpc.Transport.Poll.{poll-first, call-sent, send_request-ok}
use gateway_g_rpc.Bytes.{length-splice}
use gateway_g_rpc.RoundTrip.{buffer_len}

-- Two requests in a row and the two responses, as bytes that fit in one pair of empty ring buffers.
pub record Exchanges (request_codec : Codec EchoRequest) (response_codec : Codec EchoResponse)
    (t u : Reading) (a b : EchoRequest) (requests responses : SharedMemoryRingBuffer) : Type 0 where
  pub a_bytes : List ℕ
  pub b_bytes : List ℕ
  pub ra_bytes : List ℕ
  pub rb_bytes : List ℕ
  pub a_encoded : request_codec.to_vec a ≡ some a_bytes
  pub b_encoded : request_codec.to_vec b ≡ some b_bytes
  pub ra_encoded : response_codec.to_vec (echo_response t a) ≡ some ra_bytes
  pub rb_encoded : response_codec.to_vec (echo_response u b) ≡ some rb_bytes
  pub request_empty : Holds requests []
  pub response_empty : Holds responses []
  pub requests_fit : (4 + length a_bytes) + (4 + length b_bytes) < requests.header.capacity
  pub responses_fit : (4 + length ra_bytes) + (4 + length rb_bytes) < responses.header.capacity
  pub a_short : length a_bytes ≤ buffer_len
  pub b_short : length b_bytes ≤ buffer_len
  pub ra_short : length ra_bytes ≤ buffer_len
  pub rb_short : length rb_bytes ≤ buffer_len
  pub request_prefix : PrefixFits requests
  pub request_prefix_2 : PrefixFits (written requests a_bytes)
  pub response_prefix : PrefixFits responses
  pub response_prefix_2 : PrefixFits (written responses ra_bytes)

module _ (request_codec : Codec EchoRequest) (response_codec : Codec EchoResponse) where
  -- A call whose request is written, and whose first turn finds a response.
  call-finds :
      (requests found : SharedMemoryRingBuffer) (r : EchoRequest) (bytes : List ℕ) (m : List ℕ)
      (q : List (List ℕ)) (response : EchoResponse) (elapsed : ℕ) (queue : List (List ℕ))
      → request_codec.to_vec r ≡ some bytes
      → (h : Holds requests queue) → size queue + (4 + length bytes) < requests.header.capacity
      → PrefixFits requests
      → elapsed ≤ timeout_ns
      → (f : Holds found (m ∷ q)) → length m ≤ buffer_len
      → response_codec.to_vec response ≡ some m
      → (left : SharedMemoryRingBuffer) × (call request_codec response_codec requests r
            (record { elapsed = elapsed; found = found } ∷ [])
          ≡ (written requests bytes, some left, done response))
        × Holds left q
  call-finds requests found r bytes m q response elapsed queue e h room prefix time f short e' = (
    after f.valid m (encode q) (replicate 65536 0) f.bytes,
    call-sent request_codec response_codec requests (written requests bytes) r _
          (send_request-ok request_codec r bytes e h room prefix)
        ∙ ap
            (λ (p : Option SharedMemoryRingBuffer × Call EchoResponse).
              (written requests bytes, p.0, p.1))
            (poll-first response_codec (replicate 65536 0) [] []
                (record { elapsed = elapsed; found = found }) m q tt time f
                (omega (arith, length-replicate {A = ℕ} 65536 0, short))
              ∙ ap
                  (λ d. (
                    some (after f.valid m (encode q) (replicate 65536 0) f.bytes),
                    parse_response d,
                  ))
                  (response_codec.round_trip response m e')),
    Holds-after m q (replicate 65536 0) f,
  )

  module _ (t u : Reading) (a b : EchoRequest) {requests responses : SharedMemoryRingBuffer}
      (x : Exchanges request_codec response_codec t u a b requests responses) where
    -- Nothing in a message of the polling transport says which call it belongs to: if two calls
    -- have written their requests, the server has answered both, and the call of the second request
    -- polls first, then it returns the response to the first request, and the call of the first
    -- request returns the response to the second. Both buffers are empty again, and no call has
    -- seen an error. The requests and the responses are encoded, fit in the empty ring buffers two
    -- at a time, with no length prefix across their ends, and are no longer than the 65536 bytes
    -- that they are read into; both polls are in time.
    pub calls_crossed :
        (buf : List ℕ) (early late : ℕ)
        → length buf ≡ buffer_len
        → early ≤ timeout_ns
        → late ≤ timeout_ns
        → (s s' : ShmServer) × (left left' : SharedMemoryRingBuffer) × (serve_round request_codec
              response_codec t
              (record {
                request_buffer = written (written requests x.a_bytes) x.b_bytes;
                response_buffer = responses;
                request_buf = buf;
              })
            ≡ ok s)
          × (serve_round request_codec response_codec u s ≡ ok s')
          × (call request_codec response_codec
                (written requests x.a_bytes)
                b
                (record { elapsed = early; found = s'.response_buffer } ∷ [])
              ≡ (
                written (written requests x.a_bytes) x.b_bytes,
                some left,
                done (echo_response t a),
              ))
          × (call request_codec response_codec requests a
                (record { elapsed = late; found = left } ∷ [])
              ≡ (written requests x.a_bytes, some left', done (echo_response u b)))
          × Holds s'.request_buffer []
          × Holds left' []
    calls_crossed buf early late hb time time' =
        let (left, call_b, left_holds) =
          call-finds (written requests x.a_bytes) s'.response_buffer b x.b_bytes x.ra_bytes
            (x.rb_bytes ∷ []) (echo_response t a) early (x.a_bytes ∷ []) x.b_encoded one_request
            (omega (arith, x.requests_fit)) x.request_prefix_2 time both_responses x.ra_short
            x.ra_encoded in
        let (left', call_a, left_empty) =
          call-finds requests left a x.a_bytes x.rb_bytes [] (echo_response u b) late [] x.a_encoded
            x.request_empty (omega (arith, x.requests_fit)) x.request_prefix time' left_holds
            x.rb_short x.rb_encoded in
        (s, s', left, left', first, second, call_b, call_a, no_request, left_empty)
      where
        one_request : Holds (written requests x.a_bytes) (x.a_bytes ∷ [])
        one_request =
            Holds-written x.a_bytes x.request_empty (omega (arith, x.requests_fit)) x.request_prefix

        both_requests :
            Holds (written (written requests x.a_bytes) x.b_bytes) (x.a_bytes ∷ x.b_bytes ∷ [])
        both_requests =
            Holds-written x.b_bytes one_request (omega (arith, x.requests_fit)) x.request_prefix_2

        one_response : Holds (written responses x.ra_bytes) (x.ra_bytes ∷ [])
        one_response =
            Holds-written x.ra_bytes x.response_empty (omega (arith, x.responses_fit))
              x.response_prefix

        start : ShmServer
        start = record {
          request_buffer = written (written requests x.a_bytes) x.b_bytes;
          response_buffer = responses;
          request_buf = buf;
        }

        s : ShmServer
        s =
            record (taken request_codec response_codec t start x.a_bytes (x.b_bytes ∷ []) []
              both_requests x.response_empty (omega (arith, x.a_short))) {
                response_buffer = written responses x.ra_bytes;
              }

        first : serve_round request_codec response_codec t start ≡ ok s
        first =
            serve-written request_codec response_codec t start x.a_bytes (x.b_bytes ∷ []) []
              both_requests x.response_empty (omega (arith, x.a_short)) a
              (request_codec.round_trip a x.a_bytes x.a_encoded) x.ra_bytes x.ra_encoded
              (omega (arith, x.responses_fit)) x.response_prefix

        waiting_request : Holds s.request_buffer (x.b_bytes ∷ [])
        waiting_request = Holds-after x.a_bytes (x.b_bytes ∷ []) buf both_requests

        same_len : length x.b_bytes ≤ length s.request_buf
        same_len =
            omega
              (arith, x.b_short, x.a_short, length-splice buf x.a_bytes (omega (arith, x.a_short)))

        s' : ShmServer
        s' =
            record (taken request_codec response_codec u s x.b_bytes [] (x.ra_bytes ∷ [])
              waiting_request one_response same_len) {
                response_buffer = written (written responses x.ra_bytes) x.rb_bytes;
              }

        second : serve_round request_codec response_codec u s ≡ ok s'
        second =
            serve-written request_codec response_codec u s x.b_bytes [] (x.ra_bytes ∷ [])
              waiting_request one_response same_len b
              (request_codec.round_trip b x.b_bytes x.b_encoded) x.rb_bytes x.rb_encoded
              (omega (arith, x.responses_fit)) x.response_prefix_2

        both_responses : Holds s'.response_buffer (x.ra_bytes ∷ x.rb_bytes ∷ [])
        both_responses =
            Holds-written x.rb_bytes one_response (omega (arith, x.responses_fit))
              x.response_prefix_2

        no_request : Holds s'.request_buffer []
        no_request = Holds-after x.b_bytes [] s.request_buf waiting_request
