-- ===== src/MuxTrip.antt =====
-- A request through the eventfd transport and back: `ShmTransportEventfd::call` and its listener in
-- the gateway, the request loop and a task of `ShmServerEventfd` in the backend.
mod Tests
use Prim.Native.String.{String}
use text.Mathlib.TextEquality.{eq_iff}
use gateway_g_rpc.Prelude.{
  ℕ, ◌+◌, ◌≤◌, ◌<◌, ◌≡◌, refl, ap, sym, subst, ◌∙◌, Bool, Option, none, some, List, [], ◌∷◌, ◌++◌,
  arith, length, if◌then◌else◌,
}
use gateway_g_rpc.Shm.{Outcome, ok}
use gateway_g_rpc.Proto.{EchoRequest, EchoResponse, Codec}
use gateway_g_rpc.Ring.{SharedMemoryRingBuffer}
use gateway_g_rpc.Ring.Inv.{Holds}
use gateway_g_rpc.Ring.Write.{written}
use gateway_g_rpc.Ring.Refine.{PrefixFits, Holds-written}
use gateway_g_rpc.EventFd.{EventKernel, EventFd, signal_eventfd}
use gateway_g_rpc.EventFd.Laws.{signal_eventfd_lem}
use gateway_g_rpc.Transport.{Call, done, waiting}
use gateway_g_rpc.Trip.{Exchange}
use gateway_g_rpc.Mux.{Calls, Listener, Gateway, lookup, hand_out, listen, start_call}
use gateway_g_rpc.Mux.Pending.{hand_out_lem}
use gateway_g_rpc.Mux.Listen.{Took, accept_lem, listen-takes}
use gateway_g_rpc.Mux.Await.{find_sent, await_call, await-entered, await-sent}
use gateway_g_rpc.Mux.Start.{start_call-sent, entered, lookup-entered}
use gateway_g_rpc.Server.{RequestLoop, spawn, serve_batch, task_response, run_task, signal_gateway}
use gateway_g_rpc.Server.Batch.{Served, serve_batch-takes}
use gateway_g_rpc.Server.Task.{run_task-sent}

module _ (os : EventKernel) (request_codec : Codec (String × EchoRequest))
    (response_codec : Codec (String × EchoResponse)) (id : String) (tx : ℕ) (request : EchoRequest)
    (processing : ℕ) where
  open os use {Kernel}

  abbrev pub answer : EchoResponse
  answer = task_response processing request

  -- After the start of the call and the run of its task: the server's batch of one has spawned the
  -- task of this request; the listener's batch of one sends its response to the call's channel,
  -- behind what had been sent, and to no other; the call no longer waits; both buffers are empty.
  pub record Delivered (g : Gateway) (request_buf response_buf : List ℕ)
      (started : Gateway × Kernel × Call (Unit {0}))
      (finished : SharedMemoryRingBuffer × Kernel × Outcome (Unit {0})) : Type 0 where
    pub waits : started.2 ≡ done tt
    pub served : RequestLoop
    pub batch :
        serve_batch request_codec 1 (record {
          request_buffer = started.0.request_buffer;
          request_buf = request_buf;
          tasks = [];
        })
        ≡ ok served
    pub spawned : served.tasks ≡ (id, request) ∷ []
    pub no_request : Holds served.request_buffer []
    pub ran : finished.2 ≡ ok tt
    pub heard : Listener
    pub handed :
        listen response_codec 1 (record {
          response_buffer = finished.0;
          response_buf = response_buf;
          calls = started.0.calls;
        })
        ≡ ok heard
    pub sent : heard.calls.sent ≡ g.calls.sent ++ ((tx, answer) ∷ [])
    pub answered : lookup id heard.calls.pending_requests ≡ none
    pub no_response : Holds heard.response_buffer []

  module _ {requests responses : SharedMemoryRingBuffer} {request_buf response_buf : List ℕ}
      (x : Exchange request_codec response_codec id request processing requests responses
        request_buf response_buf) where
    -- The server's turn, on the buffer that the call has written.
    served_lem :
        (s' : RequestLoop) × (serve_batch request_codec 1 (record {
          request_buffer = written requests x.request_bytes;
          request_buf = request_buf;
          tasks = [];
        })
          ≡ ok s')
        × (s'.tasks ≡ (id, request) ∷ [])
        × Holds s'.request_buffer []
    served_lem =
        let (s', run, done_) =
          serve_batch-takes request_codec (x.request_bytes ∷ []) [] _
            (Holds-written x.request_bytes x.request_empty (omega (arith, x.request_fits))
              x.request_prefix)
            (x.request_short, tt) (x.request_some, tt) in
        (
          s',
          run,
          done_.spawned
              ∙ ap (λ r. spawn request_codec r [])
                  (request_codec.round_trip (id, request) x.request_bytes x.request_encoded),
          done_.left,
        )

    -- The listener's turn, on the buffer that the task has written.
    heard_lem :
        (s : Calls)
        → lookup id s.pending_requests ≡ some tx
        → (l' : Listener) × (listen response_codec 1 (record {
          response_buffer = written responses x.response_bytes;
          response_buf = response_buf;
          calls = s;
        })
            ≡ ok l')
          × (l'.calls ≡ hand_out id answer s)
          × Holds l'.response_buffer []
    heard_lem s h =
        let (l', run, took) =
          listen-takes response_codec (x.response_bytes ∷ []) [] _
            (Holds-written x.response_bytes x.response_empty (omega (arith, x.response_fits))
              x.response_prefix)
            (x.response_short, tt) (x.response_some, tt) in
        (
          l',
          run,
          took.handed
              ∙ accept_lem response_codec x.response_bytes id answer s
                  (response_codec.round_trip (id, answer) x.response_bytes x.response_encoded),
          took.left,
        )

    -- A call of the eventfd transport whose request and response fit in the empty ring buffers, and
    -- whose length prefixes do not reach past their ends, is delivered: it starts to wait, the server's
    -- batch for its one signal spawns the task of exactly this request, the task writes its response,
    -- and the listener's batch for the task's signal sends it to the channel of this call. Other calls
    -- may wait in the map all the time.
    pub event_call-Delivered :
        (request_event response_event : EventFd) (calls : Calls) (k : Kernel) (c : ℕ)
        (semaphore : Bool)
        → os.counter k request_event.fd ≡ some (semaphore, c)
        → let g : Gateway = record { request_buffer = requests; calls = calls } in
          let started = start_call os request_codec request_event id tx request g k in
          Delivered g request_buf response_buf started (
            run_task
              (signal_gateway os response_event)
              response_codec
              processing
              (id, request)
              responses
              started.1)
    event_call-Delivered request_event response_event calls k c semaphore opened =
        let waits_in = lookup-entered id tx g in
        let heard = heard_lem waiting_gateway.calls waits_in in
        let out = hand_out_lem id id tx answer answer waiting_gateway.calls waits_in in
        subst
          (λ (r : Gateway × Kernel × Call (Unit {0})).
            Delivered g request_buf response_buf r
              (run_task notify response_codec processing (id, request) responses r.1))
          (sym (
            start_call-sent os request_codec request_event id tx request g x.request_bytes k
              x.request_encoded x.request_empty (omega (arith, x.request_fits)) x.request_prefix
              (signal_eventfd_lem os request_event k c semaphore opened).0))
          (subst (Delivered g request_buf response_buf (waiting_gateway, k', done tt))
            (sym (
              run_task-sent notify response_codec processing id request k' x.response_empty
                x.response_bytes x.response_encoded (omega (arith, x.response_fits))
                x.response_prefix))
            (record {
              waits = refl;
              served = served_lem.0;
              batch = served_lem.1;
              spawned = served_lem.2;
              no_request = served_lem.3;
              ran = refl;
              heard = heard.0;
              handed = heard.1;
              sent = ap Calls.sent heard.2 ∙ out.0;
              answered =
                  ap (λ (s : Calls). lookup id s.pending_requests) heard.2
                  ∙ out.1
                  ∙ ap
                      (λ (b : Bool).
                        if b then none else lookup id waiting_gateway.calls.pending_requests)
                      ((eq_iff id id).1 refl);
              no_response = heard.3;
            }))
      where
        g : Gateway
        g = record { request_buffer = requests; calls = calls }

        notify : Kernel → Kernel
        notify = signal_gateway os response_event

        k' : Kernel
        k' = (signal_eventfd os request_event k).0

        waiting_gateway : Gateway
        waiting_gateway =
            entered os request_codec request_event id tx request g x.request_bytes k
              x.request_encoded x.request_empty (written requests x.request_bytes)

    -- Such a call completes, if nothing has been sent on its channel before: it waits when it has
    -- started, and after the listener's batch of one it returns the response to its request.
    pub event_call-completes :
        (request_event response_event : EventFd) (calls : Calls) (k : Kernel) (c : ℕ)
        (semaphore : Bool)
        → os.counter k request_event.fd ≡ some (semaphore, c)
        → find_sent tx calls.sent ≡ none
        → let g : Gateway = record { request_buffer = requests; calls = calls } in
          let started = start_call os request_codec request_event id tx request g k in
          let finished =
            run_task
              (signal_gateway os response_event)
              response_codec
              processing
              (id, request)
              responses
              started.1 in
          (await_call tx started.0.calls ≡ waiting)
          × (heard : Listener) × (listen response_codec 1 (record {
            response_buffer = finished.0;
            response_buf = response_buf;
            calls = started.0.calls;
          })
              ≡ ok heard)
          × (await_call tx heard.calls ≡ done answer)
    event_call-completes request_event response_event calls k c semaphore opened fresh =
        let d = event_call-Delivered request_event response_event calls k c semaphore opened in
        (
          subst (λ (r : Gateway × Kernel × Call (Unit {0})). await_call tx r.0.calls ≡ waiting)
              (sym (
                start_call-sent os request_codec request_event id tx request g x.request_bytes k
                  x.request_encoded x.request_empty (omega (arith, x.request_fits)) x.request_prefix
                  (signal_eventfd_lem os request_event k c semaphore opened).0))
              (await-entered id tx calls fresh),
          d.heard,
          d.handed,
          await-sent tx answer calls.sent d.heard.calls fresh d.sent,
        )
      where
        g : Gateway
        g = record { request_buffer = requests; calls = calls }
