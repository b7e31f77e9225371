-- ===== src/Server/Task.antt =====
-- What a task leaves in the response buffer and in the gateway's event counter.
use Prim.Native.String.{String}
use gateway_g_rpc.Prelude.{ℕ, ◌+◌, ◌≤◌, ◌<◌, ◌≡◌, some, List, arith, length}
use gateway_g_rpc.Shm.{ok}
use gateway_g_rpc.Proto.{EchoRequest, EchoResponse, Codec}
use gateway_g_rpc.Queue.{Queue, size}
use gateway_g_rpc.Ring.{SharedMemoryRingBuffer}
use gateway_g_rpc.Ring.Inv.{Holds}
use gateway_g_rpc.Ring.Write.{written, write-full}
use gateway_g_rpc.Ring.Refine.{PrefixFits, write-ok, used-eq-size}
use gateway_g_rpc.Server.{task_response, run_task}

module _ {ℓ} {K : Type ℓ} (notify : K → K) (codec : Codec (String × EchoResponse)) (processing : ℕ)
    (id : String) (request : EchoRequest) (k : K) {buffer : SharedMemoryRingBuffer} {p : Queue}
    (responses : Holds buffer p) (bs : List ℕ)
    (encoded : codec.to_vec (id, task_response processing request) ≡ some bs) where
  pub run_task-sent :
      size p + (4 + length bs) < buffer.header.capacity
      → PrefixFits buffer
      → run_task notify codec processing (id, request) buffer k
        ≡ (written buffer bs, notify k, ok tt)
  unfolding run_task
  run_task-sent room prefix = ground (arith, encoded, write-ok bs responses room prefix)

  pub run_task-dropped :
      buffer.header.capacity ≤ size p + (4 + length bs)
      → run_task notify codec processing (id, request) buffer k ≡ (buffer, k, ok tt)
  unfolding run_task
  run_task-dropped full = ground (
    arith,
    encoded,
    write-full responses.valid bs (codec.slice (id, task_response processing request) bs encoded)
        (omega (arith, used-eq-size responses)),
  )
