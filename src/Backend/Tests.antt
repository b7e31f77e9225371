-- ===== src/Backend/Tests.antt =====
-- One round of the server, with room for the response and without.
use gateway_g_rpc.Prelude.{ℕ, ◌≡◌, refl, List, [], ◌∷◌, arith}
use gateway_g_rpc.Shm.{ok}
use gateway_g_rpc.Ring.{SharedMemoryRingBuffer}
use gateway_g_rpc.Ring.Inv.{Holds}
use gateway_g_rpc.Ring.Write.{written}
use gateway_g_rpc.Ring.Refine.{Holds-written}
use gateway_g_rpc.Backend.{ShmServer, serve_round, run_shm_server, echo}
use gateway_g_rpc.Backend.Echo.{serve-answers, serve-drops}
use gateway_g_rpc.Ring.Several.{written_all, AllRoom, Holds-written_all}
use gateway_g_rpc.Backend.Rounds.{Asked, asked_bytes, run_shm_server-answers}
use gateway_g_rpc.Samples.{request_codec, response_codec, ring, Holds-ring, ping, reading}

abbrev three : List ℕ
three = 1 ∷ 2 ∷ 3 ∷ []

abbrev loaded : SharedMemoryRingBuffer
loaded = written ring three

Holds-loaded : Holds loaded (three ∷ [])
Holds-loaded = Holds-written three Holds-ring (omega arith) (omega arith)

abbrev server : SharedMemoryRingBuffer → ShmServer
server responses = record {
  request_buffer = loaded;
  response_buffer = responses;
  request_buf = 0 ∷ 0 ∷ 0 ∷ 0 ∷ [];
}

-- Nine bytes of a response that nobody has read.
abbrev nine : List ℕ
nine = 0 ∷ 0 ∷ 0 ∷ 0 ∷ 0 ∷ 0 ∷ 0 ∷ 0 ∷ 0 ∷ []

abbrev crowded : SharedMemoryRingBuffer
crowded = written ring nine

Holds-crowded : Holds crowded (nine ∷ [])
Holds-crowded = Holds-written nine Holds-ring (omega arith) (omega arith)

one_answer :
    (s' : ShmServer) × (serve_round request_codec response_codec reading (server ring) ≡ ok s')
    × Holds s'.request_buffer []
    × Holds s'.response_buffer (three ∷ [])
one_answer =
    serve-answers request_codec response_codec reading (server ring) three [] [] Holds-loaded
      Holds-ring (omega arith) (record ping { payload = three }) refl three refl (omega arith)
      (omega arith)

serve-drops_run :
    (s' : ShmServer) × (serve_round request_codec response_codec reading (server crowded) ≡ ok s')
    × Holds s'.request_buffer []
    × Holds s'.response_buffer (nine ∷ [])
serve-drops_run =
    serve-drops request_codec response_codec reading (server crowded) three [] (nine ∷ [])
      Holds-loaded Holds-crowded (omega arith) (record ping { payload = three }) refl three refl
      (omega arith)

echo_counts :
    (echo (record { request_counter = 4; request_durations = 3 }) reading ping).0
    ≡ record { request_counter = 5; request_durations = 4 }
unfolding echo
echo_counts = refl

abbrev four : List ℕ
four = 4 ∷ 5 ∷ 6 ∷ []

abbrev asked : List ℕ → Asked
asked payload = record {
  request = record { message = ""; timestamp_ns = 0; payload = payload };
  reading = reading;
  request_bytes = payload;
  response_bytes = payload;
}

abbrev both : List Asked
both = asked three ∷ asked four ∷ []

abbrev busy : ShmServer
busy = record {
  request_buffer = written_all ring (asked_bytes both);
  response_buffer = ring;
  request_buf = 0 ∷ 0 ∷ 0 ∷ 0 ∷ [];
}

both-AllRoom : AllRoom ring [] (three ∷ four ∷ [])
both-AllRoom = (omega arith, omega arith, (omega arith, omega arith, tt))

run_shm_server-answers_example :
    (s' : ShmServer) × (run_shm_server request_codec response_codec (reading ∷ reading ∷ []) busy
      ≡ ok s')
    × Holds s'.request_buffer []
    × (s'.response_buffer ≡ written_all ring (three ∷ four ∷ []))
    × Holds s'.response_buffer (three ∷ four ∷ [])
run_shm_server-answers_example =
    run_shm_server-answers request_codec response_codec both busy [] []
      (Holds-written_all (asked_bytes both) Holds-ring both-AllRoom) Holds-ring both-AllRoom
      (omega arith, (omega arith, tt)) (refl, refl, (refl, refl, tt))
