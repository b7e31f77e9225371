-- ===== src/Dispatch/HttpTrip.antt =====
-- An HTTP request through the polling shared-memory transport to the backend and back.
use Prim.Native.String.{String}
use gateway_g_rpc.Prelude.{ℕ, ◌≡◌, some, Option-cases, inl, inr}
use gateway_g_rpc.Proto.{EchoRequest, EchoResponse}
use gateway_g_rpc.Transport
use gateway_g_rpc.Transport.{CallError, Call, done, failed, waiting}
use gateway_g_rpc.Http.{Libraries, HttpRequest, Counters, Answer, echo_request, handle_request}
use gateway_g_rpc.Dispatch.{to_answer, handle_call}

module _ (lib : Libraries CallError) where
  -- Where every call is answered or refused, the handler over whole calls is the handler over their
  -- answers.
  pub handle_call_lem :
      (transport : EchoRequest → Call EchoResponse) (answers : EchoRequest → Answer CallError)
      (req : HttpRequest) (elapsed : ℕ) (c : Counters)
      → ((r : EchoRequest) → to_answer (transport r) ≡ some (answers r))
      → handle_call lib transport req elapsed c ≡ some (handle_request lib answers req elapsed c)
  unfolding handle_call handle_request
  handle_call_lem transport answers req elapsed c all = elim (Option-cases req.body) [
    | inl gone ↦ rw gone
    | inr (bytes, here) ↦ rw (here, all (echo_request lib req.path bytes elapsed))
  ]
