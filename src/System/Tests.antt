-- ===== src/System/Tests.antt =====
-- One call over two rings of 16 bytes: it starts, is served, its task runs, and its response is heard.
use Prim.Native.String.{String}
use mathlib.Core.List.{Memᴰ}
use gateway_g_rpc.Prelude.{
  ℕ, ◌<◌, ◌≡◌, ◌∙◌, refl, sym, ap, subst, true, false, some, List, [], ◌∷◌, arith, length, inl, inr,
}
use gateway_g_rpc.Shm.{Outcome, ok}
use gateway_g_rpc.Proto.{EchoRequest, EchoResponse, Codec}
use gateway_g_rpc.Ring.{SharedMemoryRingBuffer, write}
use gateway_g_rpc.Ring.Inv.{Holds}
use gateway_g_rpc.Ring.Refine.{write-ok, Holds-written}
use gateway_g_rpc.EventFd.{EventFd}
use gateway_g_rpc.Transport.{done}
use gateway_g_rpc.Mux.{Listener, listen}
use gateway_g_rpc.Mux.Start.{start_call-waits}
use gateway_g_rpc.Mux.Await.{await_call}
use gateway_g_rpc.Mux.Listen.{Took, listen-takes}
use gateway_g_rpc.Server.{RequestLoop, serve_batch, signal_gateway, task_response}
use gateway_g_rpc.Server.Batch.{Served, serve_batch-takes}
use gateway_g_rpc.Server.Task.{run_task-sent}
use gateway_g_rpc.System.{
  System, call_result, note_error, error_of, failed_or, put, called, served, ran, heard, loop_of,
  listener_of, call, serve, task, hear, Reach, start, step,
}
use gateway_g_rpc.System.Errors.{Settled, await-unsignalled}
use gateway_g_rpc.System.Count.{Started, count}
use gateway_g_rpc.System.Answers.{answers-own, none_forgotten}
use gateway_g_rpc.System.Settled.{IsNew}
use gateway_g_rpc.Samples.{request_codec, response_codec_of, ring, Holds-ring}
use gateway_g_rpc.Samples.Ids.{with_ab}
use gateway_g_rpc.Samples.Kernel.{Table, put as put_counter, table_kernel, table}

abbrev pub requests : Codec (String × EchoRequest)
requests = with_ab request_codec

abbrev pub responses : Codec (String × EchoResponse)
responses = with_ab (response_codec_of 0)

request-some :
    (a : String × EchoRequest) (bs : List ℕ) → requests.to_vec a ≡ some bs → 0 < length bs
request-some (id, r) bs h = ground arith

response-some :
    (a : String × EchoResponse) (bs : List ℕ) → responses.to_vec a ≡ some bs → 0 < length bs
response-some (id, r) bs h = ground arith

abbrev request_event : EventFd
request_event = record { fd = 3 }

abbrev response_event : EventFd
response_event = record { fd = 6 }

abbrev pub buf : List ℕ
buf = 0 ∷ 0 ∷ 0 ∷ 0 ∷ []

abbrev pub first : Started
first = record {
  id = "a";
  tx = 0;
  request = record { message = ""; timestamp_ns = 0; payload = 7 ∷ 8 ∷ [] };
}

abbrev pub bytes : List ℕ
bytes = 1 ∷ 7 ∷ 8 ∷ []

abbrev fresh : System Table
fresh = record {
  gateway = record { request_buffer = ring; calls = record { pending_requests = []; sent = [] } };
  response_buffer = ring;
  request_buf = buf;
  response_buf = buf;
  tasks = [];
  kernel = put_counter table 6 (some (false, 0));
  history = [];
  lost = [];
  errors = [];
}

fresh-IsNew : IsNew Table fresh
fresh-IsNew = record {
  no_request = Holds-ring;
  no_response = Holds-ring;
  no_task = refl;
  none_sent = refl;
  no_history = refl;
  none_lost = refl;
  no_error = refl;
}

-- The call has started.
abbrev waiting : System Table
waiting = called table_kernel requests responses request_event response_event true first fresh

waiting-Holds : Holds waiting.gateway.request_buffer (bytes ∷ [])
waiting-Holds =
    (start_call-waits table_kernel requests request_event "a" 0 first.request fresh.gateway bytes
      fresh.kernel refl Holds-ring 0 false (omega arith) (omega arith) refl (omega arith)).1

pub wrote : (write ring bytes).1 ≡ ok 3
wrote =
    ap (λ (r : SharedMemoryRingBuffer × Outcome ℕ). r.1)
      (write-ok bytes Holds-ring (omega arith) (omega arith))

abbrev Steps : System Table → Type 0
Steps s = Reach table_kernel requests responses request_event response_event fresh s

to_waiting : Steps waiting
unfolding count
to_waiting = step fresh waiting start (call first true refl refl (put bytes 3 refl wrote))

batch :
    (l : RequestLoop) × (serve_batch requests 1 (loop_of Table waiting) ≡ ok l)
    × Served requests (loop_of Table waiting) (bytes ∷ []) [] l
batch =
    serve_batch-takes requests (bytes ∷ []) [] (loop_of Table waiting) waiting-Holds
      (omega arith, tt) (omega arith, tt)

-- Its request is a task.
abbrev running : System Table
running = served Table batch.0 waiting

to_running : Steps running
to_running = step waiting running to_waiting (serve 1 batch.0 batch.1)

-- Its response is in the buffer.
abbrev responded : System Table
responded =
    ran Table (signal_gateway table_kernel response_event) responses 0 true "a" first.request []
      running

to_responded : Steps responded
to_responded =
    step running responded to_running
      (task 0 true "a" first.request [] [] batch.2.spawned (put bytes 3 refl wrote))

responded-Holds : Holds responded.response_buffer (bytes ∷ [])
responded-Holds =
    subst (λ b. Holds b (bytes ∷ []))
      (sym (
        ap (λ (r : SharedMemoryRingBuffer × Table × Outcome (Unit {0})). r.0)
          (run_task-sent (signal_gateway table_kernel response_event) responses 0 "a" first.request
            running.kernel Holds-ring bytes refl (omega arith) (omega arith))))
      (Holds-written bytes Holds-ring (omega arith) (omega arith))

round :
    (l : Listener) × (listen responses 1 (listener_of Table responded) ≡ ok l)
    × Took responses (listener_of Table responded) (bytes ∷ []) [] l
round =
    listen-takes responses (bytes ∷ []) [] (listener_of Table responded) responded-Holds
      (omega arith, tt) (omega arith, tt)

-- It has been answered.
abbrev finished : System Table
finished = heard Table round.0 responded

to_finished : Steps finished
to_finished = step responded finished to_responded (hear 1 round.0 round.1)

none_forgotten_example : Settled Table first finished
none_forgotten_example =
    none_forgotten table_kernel requests responses request_event response_event request-some
      response-some fresh finished fresh-IsNew to_finished first (Memᴰ.head refl) batch.2.left
      round.2.left refl

-- Its start has returned no error.
no_errors : finished.errors ≡ []
no_errors =
    ap (λ r. note_error "a" r [])
      (start_call-waits table_kernel requests request_event "a" 0 first.request fresh.gateway bytes
        fresh.kernel refl Holds-ring 0 false (omega arith) (omega arith) refl (omega arith)).0

as_awaited : call_result Table first finished ≡ await_call 0 finished.gateway.calls
unfolding error_of
as_awaited =
    ap (λ errors. failed_or (error_of "a" errors) (await_call 0 finished.gateway.calls)) no_errors

answered :
    (processing : ℕ) × (await_call 0 finished.gateway.calls
      ≡ done (task_response processing first.request))
answered =
    elim (none_forgotten table_kernel requests responses request_event response_event request-some
      response-some fresh finished fresh-IsNew to_finished first (Memᴰ.head refl) batch.2.left
      round.2.left refl) [
        | inl lost ↦ elim lost [ ]
        | inr (inl bad) ↦ absurd (await-unsignalled 0 finished.gateway.calls (sym as_awaited ∙ bad))
        | inr (inr (processing, own)) ↦ (processing, sym as_awaited ∙ own)
      ]

answers-own_example :
    (processing : ℕ) × (task_response answered.0 first.request
      ≡ task_response processing first.request)
answers-own_example =
    answers-own table_kernel requests responses request_event response_event request-some
      response-some fresh finished fresh-IsNew to_finished first
      (task_response answered.0 first.request) (Memᴰ.head refl) answered.1
