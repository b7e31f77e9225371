-- ===== src/System/Answers.antt =====
-- What the steps of the system of the eventfd transport come to.
use Prim.Native.String.{String}
use mathlib.Core.List.{Memᴰ}
use gateway_g_rpc.Prelude.{ℕ, ◌<◌, ◌≡◌, refl, subst, ◌++◌, some, List, [], length}
use gateway_g_rpc.Proto.{EchoRequest, EchoResponse, Codec}
use gateway_g_rpc.Ring.Inv.{Holds}
use gateway_g_rpc.EventFd.{EventKernel, EventFd, wait_round}
use gateway_g_rpc.Transport.{done}
use gateway_g_rpc.Mux.{start_call}
use gateway_g_rpc.Mux.Await.{await_call}
use gateway_g_rpc.Server.{task_response, signal_gateway}
use gateway_g_rpc.System.{System, ran, Step, call, serve, task, hear, woken, Reach, start, step}
use gateway_g_rpc.System.Errors.{Erred, Settled, lost-Erred, called-Erred, call_result-Settled}
use gateway_g_rpc.System.Count.{Started}
use gateway_g_rpc.System.Inv.{Inv}
use gateway_g_rpc.System.Calls.{called-Inv}
use gateway_g_rpc.System.Starts.{start_call-IsStart, start_call-Ends}
use gateway_g_rpc.System.Tasks.{ran-Inv}
use gateway_g_rpc.System.Batches.{served-Inv}
use gateway_g_rpc.System.Hears.{heard-Inv}
use gateway_g_rpc.System.Settled.{IsNew, new-Inv, woken-Inv, own_lem, settled_lem}

module _ (os : EventKernel) (request_codec : Codec (String × EchoRequest))
    (response_codec : Codec (String × EchoResponse)) (request_event response_event : EventFd)
    (request_bytes : (call : String × EchoRequest) (bs : List ℕ)
      → request_codec.to_vec call ≡ some bs
      → 0 < length bs)
    (response_bytes : (call : String × EchoResponse) (bs : List ℕ)
      → response_codec.to_vec call ≡ some bs
      → 0 < length bs) where
  open os use {Kernel}

  abbrev IsInv : System Kernel → Type 0
  IsInv s = Inv Kernel request_codec response_codec s

  step-Inv :
      (s s' : System Kernel)
      → IsInv s
      → Step os request_codec response_codec request_event response_event s s'
      → IsInv s'
  step-Inv s _ i (call c b new_id new_tx p) =
      let r = start_call os request_codec request_event c.id c.tx c.request s.gateway s.kernel in
      called-Inv Kernel request_codec response_codec s i c new_id new_tx r.0 r.1 r.2
        (start_call-IsStart os request_codec response_codec request_event c s.gateway s.kernel) b p
  step-Inv s _ i (serve n l e) =
      served-Inv Kernel request_codec response_codec request_bytes n s l i e
  step-Inv s _ i (task processing b id request before after e p) =
      ran-Inv Kernel request_codec response_codec (signal_gateway os response_event) s i processing
        id request before after e b p
  step-Inv s _ i (hear n l e) =
      heard-Inv Kernel request_codec response_codec response_bytes n s l i e
  step-Inv s _ i (woken e) =
      woken-Inv Kernel request_codec response_codec s (wait_round os e s.kernel).0 i

  reach-Inv :
      (s s' : System Kernel)
      → IsInv s
      → Reach os request_codec response_codec request_event response_event s s'
      → IsInv s'
  reach-Inv s _ i start = i
  reach-Inv s _ i (step t u r p) = step-Inv t u (reach-Inv s t i r) p

  step-Erred :
      (s s' : System Kernel)
      → Erred Kernel s
      → Step os request_codec response_codec request_event response_event s s'
      → Erred Kernel s'
  step-Erred s _ i (call c b new_id new_tx p) =
      let r = start_call os request_codec request_event c.id c.tx c.request s.gateway s.kernel in
      called-Erred Kernel s r.0 r.1 c b r.2 i
        (start_call-Ends os request_codec response_codec request_event c s.gateway s.kernel b p)
  step-Erred s _ i (serve n l e) = i
  step-Erred s _ i (task processing b id request before after e p) =
      lost-Erred Kernel s
        (ran Kernel (signal_gateway os response_event) response_codec processing b id request
          (before ++ after) s)
        b id i refl refl
  step-Erred s _ i (hear n l e) = i
  step-Erred s _ i (woken e) = i

  run-Erred :
      (s s' : System Kernel)
      → Erred Kernel s
      → Reach os request_codec response_codec request_event response_event s s'
      → Erred Kernel s'
  run-Erred s _ i start = i
  run-Erred s _ i (step t u r p) = step-Erred t u (run-Erred s t i r) p

  module _ (s s' : System Kernel) (n : IsNew Kernel s)
      (r : Reach os request_codec response_codec request_event response_event s s') where
    here : IsInv s'
    here = reach-Inv s s' (new-Inv Kernel request_codec response_codec s n) r

    -- Whatever steps the system of the eventfd transport and its server has taken from a new one, in
    -- whatever order, a call that has returned a response has returned the one to its own request, by
    -- the time that its task has taken.
    pub answers-own :
        (c : Started) (response : EchoResponse)
        → Memᴰ c s'.history
        → await_call c.tx s'.gateway.calls ≡ done response
        → (processing : ℕ) × (response ≡ task_response processing c.request)
    answers-own c response m e = own_lem Kernel request_codec response_codec s' here c response m e

    -- Whatever steps the system of the eventfd transport and its server has taken from a new one,
    -- whenever both ring buffers are empty and no task is left, every call that has been made has
    -- returned the response to its own request; or its request or its response could not be written
    -- into a ring buffer; or its request was written, but the signal failed, and the call has
    -- returned that error.
    pub none_forgotten :
        (c : Started)
        → Memᴰ c s'.history
        → Holds s'.gateway.request_buffer []
        → Holds s'.response_buffer []
        → s'.tasks ≡ []
        → Settled Kernel c s'
    none_forgotten c m no_request no_response no_task =
        call_result-Settled Kernel s' c
          (run-Erred s s' (λ id e x. elim (subst (λ errors. Memᴰ (id, e) errors) n.no_error x) [ ])
            r)
          (settled_lem Kernel request_codec response_codec s' here c m no_request no_response
            no_task)
