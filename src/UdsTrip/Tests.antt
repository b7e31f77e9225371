-- ===== src/UdsTrip/Tests.antt =====
-- One call over two rings of 16 bytes, and a socket that fails while it waits.
use gateway_g_rpc.Prelude.{ℕ, ◌+◌, ◌≡◌, refl, Bool, true, false, some, List, [], ◌∷◌, arith}
use gateway_g_rpc.Shm.{ok}
use gateway_g_rpc.Trip.{Exchange}
use gateway_g_rpc.Mux.{Calls, Listener}
use gateway_g_rpc.UdsTrip.{byte, socket_failed, hear, hear_all}
use gateway_g_rpc.Samples.{request_codec, response_codec_of, ring, Holds-ring, ping}
use gateway_g_rpc.Samples.Ids.{with_id}

abbrev buf : List ℕ
buf = 0 ∷ 0 ∷ 0 ∷ 0 ∷ []

abbrev exchange :
    Exchange (with_id request_codec) (with_id (response_codec_of 0)) "a" ping 0 ring ring buf buf
exchange = record {
  request_bytes = ping.payload;
  response_bytes = ping.payload;
  request_encoded = refl;
  response_encoded = refl;
  request_empty = Holds-ring;
  response_empty = Holds-ring;
  request_fits = omega arith;
  response_fits = omega arith;
  request_some = omega arith;
  response_some = omega arith;
  request_short = omega arith;
  response_short = omega arith;
  request_prefix = omega arith;
  response_prefix = omega arith;
}

abbrev calls : Calls
calls = record { pending_requests = ("b", 2) ∷ []; sent = [] }

abbrev write_u8 : ℕ → ℕ × Bool
write_u8 n = (n + 1, true)

abbrev listener : Listener
listener = record { response_buffer = ring; response_buf = buf; calls = calls }

-- An error of the socket ends the task, whatever comes after it.
hear_all_stopped :
    hear_all
      (with_id (response_codec_of 0))
      5
      (socket_failed ∷ byte ring ∷ [])
      (record { listener = listener; is_running = true })
    ≡ some (ok (record { listener = listener; is_running = false }))
unfolding hear_all hear
hear_all_stopped = refl
