-- ===== src/InFlight/Tasks.antt =====
-- What the tasks of many calls leave, in whatever order they run.
use Prim.Native.String.{String}
use gateway_g_rpc.Prelude.{◌≡◌, refl, List, [], ◌∷◌, ◌++◌}
use gateway_g_rpc.Shm.{Outcome, ok}
use gateway_g_rpc.Proto.{EchoResponse, Codec}
use gateway_g_rpc.Queue.{Queue}
use gateway_g_rpc.Ring.{SharedMemoryRingBuffer}
use gateway_g_rpc.Ring.Inv.{Holds}
use gateway_g_rpc.Ring.Write.{written}
use gateway_g_rpc.Ring.Refine.{Holds-written}
use gateway_g_rpc.Ring.Several.{written_all, AllRoom}
use gateway_g_rpc.Mux.Route.{all_bytes, AllEncoded}
use gateway_g_rpc.Server.Task.{run_task-sent}
use gateway_g_rpc.InFlight.{Planned, replies, run_all}

-- No task has crashed.
abbrev pub AllRan : List (Outcome (Unit {0})) → Type 0
AllRan [] = Unit
AllRan (r ∷ rs) = (r ≡ ok tt) × AllRan rs

module _ {K : Type 0} (notify : K → K) (codec : Codec (String × EchoResponse)) where
  pub record Finished (ps : List Planned) (buffer : SharedMemoryRingBuffer)
      (r : SharedMemoryRingBuffer × K × List (Outcome (Unit {0}))) : Type 0 where
    pub written_back : r.0 ≡ written_all buffer (all_bytes (replies ps))
    pub all_ran : AllRan r.2

  pub run_all-Finished :
      (ps : List Planned) (buffer : SharedMemoryRingBuffer) (q : Queue) (k : K)
      → Holds buffer q
      → AllRoom buffer q (all_bytes (replies ps))
      → AllEncoded codec (replies ps)
      → Finished ps buffer (run_all notify codec ps buffer k)
  unfolding run_all
  run_all-Finished [] buffer q k h room enc = record { written_back = refl; all_ran = tt }
  run_all-Finished (p ∷ ps) buffer q k h (fits, prefix, room) (e, enc) =
      let rest : Finished ps (written buffer p.response_bytes)
          (run_all notify codec ps (written buffer p.response_bytes) (notify k)) =
        run_all-Finished ps (written buffer p.response_bytes) (q ++ (p.response_bytes ∷ []))
          (notify k) (Holds-written p.response_bytes h fits prefix) room enc in
      rw (run_task-sent notify codec p.processing p.id p.request k h p.response_bytes e fits prefix)
        (record { written_back = rest.written_back; all_ran = (refl, rest.all_ran) })
