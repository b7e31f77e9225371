-- ===== src/System/UdsTests.antt =====
-- One call of the Unix-socket transport over two rings of 16 bytes; the socket counts its bytes.
use mathlib.Core.List.{Memᴰ}
use gateway_g_rpc.Prelude.{
  ℕ, suc, ◌≡◌, ◌∙◌, inl, inr, refl, sym, ap, subst, Bool, true, some, [], ◌∷◌, arith,
}
use gateway_g_rpc.Shm.{Outcome, ok}
use gateway_g_rpc.Ring.{SharedMemoryRingBuffer}
use gateway_g_rpc.Ring.Inv.{Holds}
use gateway_g_rpc.Ring.Refine.{Holds-written}
use gateway_g_rpc.Transport.{done}
use gateway_g_rpc.Mux.{Listener, drain}
use gateway_g_rpc.Mux.Start.{start_call_uds-waits}
use gateway_g_rpc.Mux.Await.{await_call}
use gateway_g_rpc.Mux.Listen.{Took, drain-takes}
use gateway_g_rpc.Server.{RequestLoop, serve_notified, task_response}
use gateway_g_rpc.Server.Batch.{Served, serve_notified-takes}
use gateway_g_rpc.Server.Task.{run_task-sent}
use gateway_g_rpc.System.{
  System, call_result, note_error, error_of, failed_or, put, served, ran, heard, loop_of,
  listener_of,
}
use gateway_g_rpc.System.Errors.{Settled, await-unsignalled}
use gateway_g_rpc.System.Count.{count}
use gateway_g_rpc.System.Settled.{IsNew}
use gateway_g_rpc.System.Uds
use gateway_g_rpc.System.Uds.{called_uds, UdsReach, uds_answers-own, uds_none_forgotten}
use gateway_g_rpc.System.Tests.{requests, responses, buf, first, bytes, wrote}
use gateway_g_rpc.Samples.{ring, Holds-ring}

abbrev write_u8 : ℕ → ℕ × Bool
write_u8 n = (suc n, true)

abbrev notify : ℕ → ℕ
notify n = suc n

abbrev fresh : System ℕ
fresh = record {
  gateway = record { request_buffer = ring; calls = record { pending_requests = []; sent = [] } };
  response_buffer = ring;
  request_buf = buf;
  response_buf = buf;
  tasks = [];
  kernel = 0;
  history = [];
  lost = [];
  errors = [];
}

fresh-IsNew : IsNew ℕ fresh
fresh-IsNew = record {
  no_request = Holds-ring;
  no_response = Holds-ring;
  no_task = refl;
  none_sent = refl;
  no_history = refl;
  none_lost = refl;
  no_error = refl;
}

abbrev waiting : System ℕ
waiting = called_uds write_u8 notify requests responses true first fresh

waiting-Holds : Holds waiting.gateway.request_buffer (bytes ∷ [])
waiting-Holds =
    (start_call_uds-waits write_u8 requests "a" 0 first.request fresh.gateway bytes 0 refl
      Holds-ring (omega arith) (omega arith)).0

abbrev Steps : System ℕ → Type 0
Steps s = UdsReach write_u8 notify requests responses fresh s

to_waiting : Steps waiting
unfolding count
to_waiting =
    Uds.step fresh waiting Uds.start (Uds.call first true refl refl (put bytes 3 refl wrote))

notified :
    (l : RequestLoop) × (serve_notified requests (loop_of ℕ waiting) ≡ ok l)
    × Served requests (loop_of ℕ waiting) (bytes ∷ []) [] l
notified = serve_notified-takes requests bytes [] (loop_of ℕ waiting) waiting-Holds (omega arith)

abbrev running : System ℕ
running = served ℕ notified.0 waiting

to_running : Steps running
to_running = Uds.step waiting running to_waiting (Uds.serve notified.0 notified.1)

abbrev responded : System ℕ
responded = ran ℕ notify responses 0 true "a" first.request [] running

to_responded : Steps responded
to_responded =
    Uds.step running responded to_running
      (Uds.task 0 true "a" first.request [] [] notified.2.spawned (put bytes 3 refl wrote))

responded-Holds : Holds responded.response_buffer (bytes ∷ [])
responded-Holds =
    subst (λ b. Holds b (bytes ∷ []))
      (sym (
        ap (λ (r : SharedMemoryRingBuffer × ℕ × Outcome (Unit {0})). r.0)
          (run_task-sent notify responses 0 "a" first.request running.kernel Holds-ring bytes refl
            (omega arith) (omega arith))))
      (Holds-written bytes Holds-ring (omega arith) (omega arith))

round :
    (l : Listener) × (drain responses 2 (listener_of ℕ responded) ≡ some (ok l))
    × Took responses (listener_of ℕ responded) (bytes ∷ []) [] l
round =
    drain-takes responses (bytes ∷ []) (listener_of ℕ responded) 2 responded-Holds (omega arith, tt)
      (omega arith)

abbrev finished : System ℕ
finished = heard ℕ round.0 responded

to_finished : Steps finished
to_finished = Uds.step responded finished to_responded (Uds.hear 2 round.0 round.1)

-- Its start has returned no error.
no_errors : finished.errors ≡ []
no_errors =
    ap (λ r. note_error "a" r [])
      (start_call_uds-waits write_u8 requests "a" 0 first.request fresh.gateway bytes 0 refl
        Holds-ring (omega arith) (omega arith)).3

as_awaited : call_result ℕ first finished ≡ await_call 0 finished.gateway.calls
unfolding error_of
as_awaited =
    ap (λ errors. failed_or (error_of "a" errors) (await_call 0 finished.gateway.calls)) no_errors

answered :
    (processing : ℕ) × (await_call 0 finished.gateway.calls
      ≡ done (task_response processing first.request))
answered =
    elim (uds_none_forgotten write_u8 notify requests responses fresh finished fresh-IsNew
      to_finished first (Memᴰ.head refl) notified.2.left round.2.left refl) [
        | inl lost ↦ elim lost [ ]
        | inr (inl bad) ↦ absurd (await-unsignalled 0 finished.gateway.calls (sym as_awaited ∙ bad))
        | inr (inr (processing, own)) ↦ (processing, sym as_awaited ∙ own)
      ]

uds_answers-own_example :
    (processing : ℕ) × (task_response answered.0 first.request
      ≡ task_response processing first.request)
uds_answers-own_example =
    uds_answers-own write_u8 notify requests responses fresh finished fresh-IsNew to_finished first
      (task_response answered.0 first.request) (Memᴰ.head refl) answered.1

uds_none_forgotten_example : Settled ℕ first finished
uds_none_forgotten_example =
    uds_none_forgotten write_u8 notify requests responses fresh finished fresh-IsNew to_finished
      first (Memᴰ.head refl) notified.2.left round.2.left refl
