-- ===== src/RoundTrip/Tests.antt =====
-- One exchange over two rings of 16 bytes.
use gateway_g_rpc.Prelude.{◌≡◌, refl, some, [], ◌∷◌, arith, replicate, length-replicate}
use gateway_g_rpc.Shm.{ok}
use gateway_g_rpc.Ring.{SharedMemoryRingBuffer}
use gateway_g_rpc.Ring.Inv.{Holds}
use gateway_g_rpc.Ring.Write.{written}
use gateway_g_rpc.Backend.{echo_response, ShmServer, serve_round}
use gateway_g_rpc.Transport.{done, Tick, call}
use gateway_g_rpc.RoundTrip.{Exchange, call_round_trip}
use gateway_g_rpc.RoundTrip.Crossed.{Exchanges, calls_crossed}
use gateway_g_rpc.Proto.{EchoRequest}
use gateway_g_rpc.Samples.{request_codec, response_codec, ring, Holds-ring, ping, reading}

abbrev exchange : Exchange request_codec response_codec reading ping ring ring
exchange = record {
  request_bytes = 1 ∷ 2 ∷ 3 ∷ [];
  response_bytes = 1 ∷ 2 ∷ 3 ∷ [];
  request_encoded = refl;
  response_encoded = refl;
  request_empty = Holds-ring;
  response_empty = Holds-ring;
  request_fits = omega arith;
  response_fits = omega arith;
  request_short = omega arith;
  response_short = omega arith;
  request_prefix = omega arith;
  response_prefix = omega arith;
}

abbrev idle : Tick
idle = record { elapsed = 5; found = ring }

call_round_trip_run :
    (s : ShmServer) × (left : SharedMemoryRingBuffer) × (serve_round request_codec response_codec
        reading
        (record {
          request_buffer = written ring (1 ∷ 2 ∷ 3 ∷ []);
          response_buffer = ring;
          request_buf = replicate 65536 0;
        })
      ≡ ok s)
    × (call request_codec response_codec ring ping
          (idle ∷ record { elapsed = 2000; found = s.response_buffer } ∷ [])
        ≡ (written ring (1 ∷ 2 ∷ 3 ∷ []), some left, done (echo_response reading ping)))
    × Holds s.request_buffer []
    × Holds left []
call_round_trip_run =
    call_round_trip request_codec response_codec reading ping exchange (replicate 65536 0)
      (idle ∷ []) [] 2000 (length-replicate 65536 0) (omega arith, Holds-ring, tt) (omega arith)

abbrev pong : EchoRequest
pong = record { message = ""; timestamp_ns = 0; payload = 4 ∷ 5 ∷ 6 ∷ [] }

abbrev exchanges : Exchanges request_codec response_codec reading reading ping pong ring ring
exchanges = record {
  a_bytes = 1 ∷ 2 ∷ 3 ∷ [];
  b_bytes = 4 ∷ 5 ∷ 6 ∷ [];
  ra_bytes = 1 ∷ 2 ∷ 3 ∷ [];
  rb_bytes = 4 ∷ 5 ∷ 6 ∷ [];
  a_encoded = refl;
  b_encoded = refl;
  ra_encoded = refl;
  rb_encoded = refl;
  request_empty = Holds-ring;
  response_empty = Holds-ring;
  requests_fit = omega arith;
  responses_fit = omega arith;
  a_short = omega arith;
  b_short = omega arith;
  ra_short = omega arith;
  rb_short = omega arith;
  request_prefix = omega arith;
  request_prefix_2 = omega arith;
  response_prefix = omega arith;
  response_prefix_2 = omega arith;
}

calls_crossed_example :
    (s s' : ShmServer) × (left left' : SharedMemoryRingBuffer) × (serve_round request_codec
        response_codec reading
        (record {
          request_buffer = written (written ring (1 ∷ 2 ∷ 3 ∷ [])) (4 ∷ 5 ∷ 6 ∷ []);
          response_buffer = ring;
          request_buf = replicate 65536 0;
        })
      ≡ ok s)
    × (serve_round request_codec response_codec reading s ≡ ok s')
    × (call request_codec response_codec
          (written ring (1 ∷ 2 ∷ 3 ∷ []))
          pong
          (record { elapsed = 5; found = s'.response_buffer } ∷ [])
        ≡ (
          written (written ring (1 ∷ 2 ∷ 3 ∷ [])) (4 ∷ 5 ∷ 6 ∷ []),
          some left,
          done (echo_response reading ping),
        ))
    × (call request_codec response_codec ring ping (record { elapsed = 9; found = left } ∷ [])
        ≡ (written ring (1 ∷ 2 ∷ 3 ∷ []), some left', done (echo_response reading pong)))
    × Holds s'.request_buffer []
    × Holds left' []
calls_crossed_example =
    calls_crossed request_codec response_codec reading reading ping pong exchanges
      (replicate 65536 0) 5 9 (length-replicate 65536 0) (omega arith) (omega arith)
