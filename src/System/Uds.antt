-- ===== src/System/Uds.antt =====
-- The Unix-socket transport and its server as one system (gateway/src/shm_transport_uds.rs and
-- backend/src/shm_server_uds.rs). The server reads one message for a byte of notification, the listener
-- all that there are.
use Prim.Native.String.{String}
use mathlib.Core.List.{Memᴰ}
use gateway_g_rpc.Prelude.{ℕ, ◌≡◌, refl, subst, ◌++◌, Bool, some, List, [], ◌∷◌}
use gateway_g_rpc.Shm.{ok}
use gateway_g_rpc.Proto.{EchoRequest, EchoResponse, Codec}
use gateway_g_rpc.Ring.Inv.{Holds}
use gateway_g_rpc.Transport.{done}
use gateway_g_rpc.Mux.{Listener, start_call_uds, drain}
use gateway_g_rpc.Mux.Await.{await_call}
use gateway_g_rpc.Server.{RequestLoop, serve_notified, task_response}
use gateway_g_rpc.System.{System, Put, after_call, ran, served, heard, loop_of, listener_of}
use gateway_g_rpc.System.Errors.{Erred, Settled, lost-Erred, called-Erred, call_result-Settled}
use gateway_g_rpc.System.Count.{Started, has_id, has_tx, count}
use gateway_g_rpc.System.Inv.{Inv}
use gateway_g_rpc.System.Calls.{called-Inv}
use gateway_g_rpc.System.Starts.{start_call_uds-IsStart, start_call_uds-Ends}
use gateway_g_rpc.System.Tasks.{ran-Inv}
use gateway_g_rpc.System.Batches.{notified-Inv}
use gateway_g_rpc.System.Hears.{drained-Inv}
use gateway_g_rpc.System.Settled.{IsNew, new-Inv, woken-Inv, own_lem, settled_lem}

-- `write_u8` writes a byte on the gateway's side, and says whether it succeeds; `notify` is what a task
-- of the server does to the socket, whose error is only logged.
module _ {S : Type 0} (write_u8 : S → S × Bool) (notify : S → S)
    (request_codec : Codec (String × EchoRequest))
    (response_codec : Codec (String × EchoResponse)) where
  abbrev pub called_uds : Bool → Started → System S → System S
  called_uds b c s =
      let r = start_call_uds write_u8 request_codec c.id c.tx c.request s.gateway s.kernel in
      after_call S r.0 r.1 r.2 b c s

  -- A call has an identifier and a channel that no call before had. No step faults. Of the bytes on
  -- the socket nothing is asked: any may come, and any may be lost.
  pub data UdsStep (s : System S) : System S → Type 0 where
    call :
        (c : Started) (b : Bool)
        → count (has_id c.id) s.history ≡ 0
        → count (has_tx c.tx) s.history ≡ 0
        → Put request_codec (c.id, c.request) s.gateway.request_buffer b
        → UdsStep s (called_uds b c s)
    serve :
        (l : RequestLoop)
        → serve_notified request_codec (loop_of S s) ≡ ok l
        → UdsStep s (served S l s)
    task :
        (processing : ℕ) (b : Bool) (id : String) (request : EchoRequest)
        (before after : List (String × EchoRequest))
        → s.tasks ≡ before ++ ((id, request) ∷ after)
        → Put response_codec (id, task_response processing request) s.response_buffer b
        → UdsStep s (ran S notify response_codec processing b id request (before ++ after) s)
    hear :
        (fuel : ℕ) (l : Listener)
        → drain response_codec fuel (listener_of S s) ≡ some (ok l)
        → UdsStep s (heard S l s)
    other : (k : S) → UdsStep s (record s { kernel = k })

  -- Any number of steps.
  pub data UdsReach (s : System S) : System S → Type 0 where
    start : UdsReach s s
    step : (t u : System S) → UdsReach s t → UdsStep t u → UdsReach s u

  abbrev IsInv : System S → Type 0
  IsInv s = Inv S request_codec response_codec s

  step-Inv : (s s' : System S) → IsInv s → UdsStep s s' → IsInv s'
  step-Inv s _ i (call c b new_id new_tx p) =
      let r = start_call_uds write_u8 request_codec c.id c.tx c.request s.gateway s.kernel in
      called-Inv S request_codec response_codec s i c new_id new_tx r.0 r.1 r.2
        (start_call_uds-IsStart write_u8 request_codec response_codec c s.gateway s.kernel) b p
  step-Inv s _ i (serve l e) = notified-Inv S request_codec response_codec s l i e
  step-Inv s _ i (task processing b id request before after e p) =
      ran-Inv S request_codec response_codec notify s i processing id request before after e b p
  step-Inv s _ i (hear fuel l e) = drained-Inv S request_codec response_codec fuel s l i e
  step-Inv s _ i (other k) = woken-Inv S request_codec response_codec s k i

  reach-Inv : (s s' : System S) → IsInv s → UdsReach s s' → IsInv s'
  reach-Inv s _ i start = i
  reach-Inv s _ i (step t u r p) = step-Inv t u (reach-Inv s t i r) p

  step-Erred : (s s' : System S) → Erred S s → UdsStep s s' → Erred S s'
  step-Erred s _ i (call c b new_id new_tx p) =
      let r = start_call_uds write_u8 request_codec c.id c.tx c.request s.gateway s.kernel in
      called-Erred S s r.0 r.1 c b r.2 i
        (start_call_uds-Ends write_u8 request_codec response_codec c s.gateway s.kernel b p)
  step-Erred s _ i (serve l e) = i
  step-Erred s _ i (task processing b id request before after e p) =
      lost-Erred S s (ran S notify response_codec processing b id request (before ++ after) s) b id
        i refl refl
  step-Erred s _ i (hear fuel l e) = i
  step-Erred s _ i (other k) = i

  run-Erred : (s s' : System S) → Erred S s → UdsReach s s' → Erred S s'
  run-Erred s _ i start = i
  run-Erred s _ i (step t u r p) = step-Erred t u (run-Erred s t i r) p

  module _ (s s' : System S) (n : IsNew S s) (r : UdsReach s s') where
    here : IsInv s'
    here = reach-Inv s s' (new-Inv S request_codec response_codec s n) r

    -- Whatever steps the system of the Unix-socket transport and its server has taken from a new one,
    -- in whatever order, and whatever bytes of notification are lost: a call that has returned a
    -- response has returned the one to its own request, by the time that its task has taken.
    pub uds_answers-own :
        (c : Started) (response : EchoResponse)
        → Memᴰ c s'.history
        → await_call c.tx s'.gateway.calls ≡ done response
        → (processing : ℕ) × (response ≡ task_response processing c.request)
    uds_answers-own c response m e = own_lem S request_codec response_codec s' here c response m e

    -- Whatever steps the system of the Unix-socket transport and its server has taken from a new
    -- one, whenever both ring buffers are empty and no task is left, every call that has been made
    -- has returned the response to its own request; or its request or its response could not be
    -- written into a ring buffer; or its request was written, but the byte of notification failed,
    -- and the call has returned that error.
    pub uds_none_forgotten :
        (c : Started)
        → Memᴰ c s'.history
        → Holds s'.gateway.request_buffer []
        → Holds s'.response_buffer []
        → s'.tasks ≡ []
        → Settled S c s'
    uds_none_forgotten c m no_request no_response no_task =
        call_result-Settled S s' c
          (run-Erred s s' (λ id e x. elim (subst (λ errors. Memᴰ (id, e) errors) n.no_error x) [ ])
            r)
          (settled_lem S request_codec response_codec s' here c m no_request no_response no_task)
