-- ===== src/Backend/Echo.antt =====
-- What one round of the polling server does to the two ring buffers.
use gateway_g_rpc.Prelude.{ℕ, ◌+◌, ◌≤◌, ◌<◌, ◌≡◌, List, [], ◌∷◌, ◌++◌, some, arith, length}
use gateway_g_rpc.Shm.{ok}
use gateway_g_rpc.Proto.{EchoRequest, EchoResponse, Codec}
use gateway_g_rpc.Queue.{Queue, size}
use gateway_g_rpc.Ring.{splice}
use gateway_g_rpc.Ring.Inv.{Holds, encode}
use gateway_g_rpc.Ring.Write.{written, write-full}
use gateway_g_rpc.Ring.Read.{read-ok, after}
use gateway_g_rpc.Ring.Several.{Holds-after}
use gateway_g_rpc.Ring.Refine.{PrefixFits, write-ok, Holds-written, used-eq-size}
use gateway_g_rpc.Backend.{Reading, echo_response, ShmServer, send_response, serve_round}
use gateway_g_rpc.Bytes.{take-splice}

module _ (request_codec : Codec EchoRequest) (response_codec : Codec EchoResponse) (t : Reading)
    (s : ShmServer) (m : List ℕ) (q p : Queue) (requests : Holds s.request_buffer (m ∷ q))
    (responses : Holds s.response_buffer p) (fits : length m ≤ length s.request_buf) where
  -- The server behind the read of the request `m`.
  abbrev pub taken : ShmServer
  taken = record s {
    request_buffer = after requests.valid m (encode q) s.request_buf requests.bytes;
    request_buf = splice s.request_buf 0 m;
  }

  module _ (r : EchoRequest) (parsed : request_codec.from_slice m ≡ some r) where
    serve_taken :
        serve_round request_codec response_codec t s
        ≡ send_response request_codec response_codec taken (echo_response t r)
    unfolding serve_round
    serve_taken = ground (
      arith,
      read-ok requests.valid m (encode q) s.request_buf requests.bytes fits,
      take-splice s.request_buf m,
    )

    module _ (bs : List ℕ) (written_as : response_codec.to_vec (echo_response t r) ≡ some bs) where
      -- The server behind the answer.
      pub serve-written :
          size p + (4 + length bs) < s.response_buffer.header.capacity
          → PrefixFits s.response_buffer
          → serve_round request_codec response_codec t s
            ≡ ok (record taken { response_buffer = written s.response_buffer bs })
      unfolding send_response
      serve-written room prefix = ground (arith, serve_taken, write-ok bs responses room prefix)

      -- A round that finds a request which it can parse takes it and answers it: the response with
      -- the request's message and payload is the newest message of the response buffer, if that has
      -- room and the response's length prefix does not reach past its end.
      pub serve-answers :
          size p + (4 + length bs) < s.response_buffer.header.capacity
          → PrefixFits s.response_buffer
          → (s' : ShmServer) × (serve_round request_codec response_codec t s ≡ ok s')
            × Holds s'.request_buffer q
            × Holds s'.response_buffer (p ++ (bs ∷ []))
      serve-answers room prefix = (
        record taken { response_buffer = written s.response_buffer bs },
        serve-written room prefix,
        Holds-after m q s.request_buf requests,
        Holds-written bs responses room prefix,
      )

      -- If the response buffer has no room, the round takes the request and leaves no response: the
      -- error of `write` is only logged, and the request is never answered.
      pub serve-drops :
          s.response_buffer.header.capacity ≤ size p + (4 + length bs)
          → (s' : ShmServer) × (serve_round request_codec response_codec t s ≡ ok s')
            × Holds s'.request_buffer q
            × Holds s'.response_buffer p
      unfolding send_response
      serve-drops full = (
        taken,
        ground (
          arith,
          serve_taken,
          write-full responses.valid bs (response_codec.slice (echo_response t r) bs written_as)
              (omega (arith, used-eq-size responses)),
        ),
        Holds-after m q s.request_buf requests,
        responses,
      )
