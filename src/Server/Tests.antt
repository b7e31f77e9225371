-- ===== src/Server/Tests.antt =====
-- A request in the buffer of a server that is notified of it.
use gateway_g_rpc.Prelude.{ℕ, ◌≡◌, List, [], ◌∷◌, arith}
use gateway_g_rpc.Shm.{ok}
use gateway_g_rpc.Ring.{SharedMemoryRingBuffer}
use gateway_g_rpc.Ring.Inv.{Holds}
use gateway_g_rpc.Ring.Write.{written}
use gateway_g_rpc.Ring.Refine.{Holds-written}
use gateway_g_rpc.Server.{RequestLoop, serve_batch, serve_notified}
use gateway_g_rpc.Server.Batch.{Served, serve_batch-takes, serve_notified-takes, servers-blocked}
use gateway_g_rpc.Samples.{request_codec, ring, Holds-ring}
use gateway_g_rpc.Samples.Ids.{with_id}

abbrev two : List ℕ
two = 1 ∷ 2 ∷ []

abbrev loaded : SharedMemoryRingBuffer
loaded = written ring two

Holds-loaded : Holds loaded (two ∷ [])
Holds-loaded = Holds-written two Holds-ring (omega arith) (omega arith)

abbrev server : List ℕ → RequestLoop
server buf = record { request_buffer = loaded; request_buf = buf; tasks = [] }

abbrev room : List ℕ
room = 0 ∷ 0 ∷ 0 ∷ []

batch_taken :
    (s' : RequestLoop) × (serve_batch (with_id request_codec) 1 (server room) ≡ ok s')
    × Served (with_id request_codec) (server room) (two ∷ []) [] s'
batch_taken =
    serve_batch-takes (with_id request_codec) (two ∷ []) [] (server room) Holds-loaded (omega arith)
      (omega arith)

serve_notified-takes_example :
    (s' : RequestLoop) × (serve_notified (with_id request_codec) (server room) ≡ ok s')
    × Served (with_id request_codec) (server room) (two ∷ []) [] s'
serve_notified-takes_example =
    serve_notified-takes (with_id request_codec) two [] (server room) Holds-loaded (omega arith)

both_blocked :
    (serve_batch (with_id request_codec) 5 (server []) ≡ ok (server []))
    × (serve_notified (with_id request_codec) (server []) ≡ ok (server []))
both_blocked =
    servers-blocked (with_id request_codec) two [] (server []) 5 Holds-loaded (omega arith)
