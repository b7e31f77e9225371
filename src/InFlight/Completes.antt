-- ===== src/InFlight/Completes.antt =====
-- Many calls at a time: each call whose task has run returns the response to its own request.
use Prim.Native.String.{String}
use mathlib.Core.List.{Memᴰ}
use gateway_g_rpc.Prelude.{
  ℕ, ◌≡◌, sym, ap, subst, ◌∙◌, Bool, none, some, List, [], ◌∷◌, ◌++◌, arith, ==_iff, append_assoc,
  length,
}
use gateway_g_rpc.Shm.{Outcome, ok}
use gateway_g_rpc.Proto.{EchoRequest, EchoResponse, Codec}
use gateway_g_rpc.Queue.{AllFit, NoneEmpty}
use gateway_g_rpc.Ring.{SharedMemoryRingBuffer}
use gateway_g_rpc.Ring.Inv.{Holds}
use gateway_g_rpc.Ring.Several.{AllRoom, Holds-filled}
use gateway_g_rpc.EventFd.{EventKernel, EventFd}
use gateway_g_rpc.Transport.{Call, done}
use gateway_g_rpc.Mux.{Gateway, Calls, Listener, lookup, listen}
use gateway_g_rpc.Mux.Await.{find_sent, has_sender, received_or, await_call}
use gateway_g_rpc.Mux.Route.{all_bytes, sends, AllDistinct, AllWait, AllEncoded, listen-routes}
use gateway_g_rpc.Server.{RequestLoop, serve_batch, signal_gateway}
use gateway_g_rpc.Server.Batch.{serve_batch-takes}
use gateway_g_rpc.InFlight.{
  Planned, replies, response_of, request_queue, tasks_of, start_all, run_all,
}
use gateway_g_rpc.InFlight.Starts.{
  AllDone, AllRequests, entered_all-AllWait, spawn_all-tasks, Started, start_all-Started,
}
use gateway_g_rpc.InFlight.Tasks.{AllRan, Finished, run_all-Finished}

abbrev pub AllAmong : List Planned → List Planned → Type 0
AllAmong [] cs = Unit
AllAmong (p ∷ ps) cs = Memᴰ p cs × AllAmong ps cs

-- The channel of each call is new: nothing has been sent on it, and none of the calls before has it.
abbrev pub AllFresh : List Planned → List (ℕ × EchoResponse) → Type 0
AllFresh [] sent = Unit
AllFresh (p ∷ ps) sent =
    (find_sent p.tx sent ≡ none) × AllFresh ps (sent ++ ((p.tx, response_of p) ∷ []))

-- Each of the calls returns the response to its own request.
abbrev pub AllReturn : List Planned → Calls → Type 0
AllReturn [] s = Unit
AllReturn (p ∷ ps) s = (await_call p.tx s ≡ done (response_of p)) × AllReturn ps s

waits_among :
    (p : Planned) (cs : List Planned) (s : Calls)
    → Memᴰ p cs
    → AllWait (replies cs) s
    → lookup p.id s.pending_requests ≡ some p.tx
waits_among p [] s m wait = elim m [ ]
waits_among p (c ∷ cs) s (Memᴰ.head e) (w, wait) =
    subst (λ (x : Planned). lookup x.id s.pending_requests ≡ some x.tx) (sym e) w
waits_among p (c ∷ cs) s (Memᴰ.tail m) (w, wait) = waits_among p cs s m wait

AllWait-among :
    (ps cs : List Planned) (s : Calls)
    → AllAmong ps cs
    → AllWait (replies cs) s
    → AllWait (replies ps) s
AllWait-among [] cs s among wait = tt
AllWait-among (p ∷ ps) cs s (m, among) wait =
    (waits_among p cs s m wait, AllWait-among ps cs s among wait)

find_sent-first :
    (tx : ℕ) (response : EchoResponse) (before after : List (ℕ × EchoResponse))
    → find_sent tx before ≡ none
    → find_sent tx (before ++ ((tx, response) ∷ after)) ≡ some response
unfolding find_sent
find_sent-first tx response [] after h = ground (arith, ==_iff tx tx)
find_sent-first tx response ((t, r) ∷ before) after h =
    ground (arith, find_sent-first tx response before after)

all_return :
    (ps : List Planned) (before : List (ℕ × EchoResponse)) (s : Calls)
    → AllFresh ps before
    → s.sent ≡ before ++ sends (replies ps)
    → AllReturn ps s
unfolding await_call
all_return [] before s fresh e = tt
all_return (p ∷ ps) before s (new, fresh) e = (
  ap (λ o. received_or o (has_sender p.tx s.pending_requests))
      (ap (find_sent p.tx) e
        ∙ find_sent-first p.tx (response_of p) before (sends (replies ps)) new),
  all_return ps (before ++ ((p.tx, response_of p) ∷ [])) s fresh
      (e ∙ sym (append_assoc before ((p.tx, response_of p) ∷ []) (sends (replies ps)))),
)

-- The calls `calls` start on the gateway `g`; the tasks of `finished` have run, in this order. The
-- identifiers are different, the channels new, and the messages fit in the two empty ring buffers and
-- in the buffers of the server and the listener.
pub record Flights (request_codec : Codec (String × EchoRequest))
    (response_codec : Codec (String × EchoResponse)) (calls finished : List Planned) (g : Gateway)
    (responses : SharedMemoryRingBuffer) (request_buf response_buf : List ℕ) : Type 0 where
  pub requests_encoded : AllRequests request_codec calls
  pub responses_encoded : AllEncoded response_codec (replies finished)
  pub request_empty : Holds g.request_buffer []
  pub response_empty : Holds responses []
  pub request_room : AllRoom g.request_buffer [] (request_queue calls)
  pub response_room : AllRoom responses [] (all_bytes (replies finished))
  pub requests_some : NoneEmpty (request_queue calls)
  pub responses_some : NoneEmpty (all_bytes (replies finished))
  pub requests_short : AllFit (length request_buf) (request_queue calls)
  pub responses_short : AllFit (length response_buf) (all_bytes (replies finished))
  pub distinct : AllDistinct (replies calls)
  pub finished_distinct : AllDistinct (replies finished)
  pub among : AllAmong finished calls
  pub fresh : AllFresh finished g.calls.sent

module _ (os : EventKernel) (request_codec : Codec (String × EchoRequest))
    (response_codec : Codec (String × EchoResponse)) where
  open os use {Kernel, counter}

  -- Every start succeeds, one batch of the server spawns all tasks in the order of the calls, no task
  -- crashes, and one batch of the listener makes the call of every task that has run return the
  -- response to its own request; the buffers are empty again.
  pub record Landed (calls finished : List Planned) (request_buf response_buf : List ℕ)
      (started : Gateway × Kernel × List (Call (Unit {0})))
      (ran : SharedMemoryRingBuffer × Kernel × List (Outcome (Unit {0}))) : Type 0 where
    pub all_done : AllDone started.2
    pub served : RequestLoop
    pub batch :
        serve_batch request_codec (length (request_queue calls)) (record {
          request_buffer = started.0.request_buffer;
          request_buf = request_buf;
          tasks = [];
        })
        ≡ ok served
    pub spawned : served.tasks ≡ tasks_of calls
    pub no_request : Holds served.request_buffer []
    pub all_ran : AllRan ran.2
    pub heard : Listener
    pub listened :
        listen response_codec
          (length (all_bytes (replies finished)))
          (record { response_buffer = ran.0; response_buf = response_buf; calls = started.0.calls })
        ≡ ok heard
    pub no_response : Holds heard.response_buffer []
    pub all_return : AllReturn finished heard.calls

  -- Any number of calls of the eventfd transport whose messages fit in the empty ring buffers all
  -- start; one batch of the server spawns their tasks in order; and whatever tasks have run, in
  -- whatever order, one batch of the listener makes each of their calls return the response to its
  -- own request, and empties the response buffer. The identifiers are different and the channels
  -- new; the messages are encoded, are not empty and are no longer than the buffers of the server
  -- and of the listener that they are read into, no length prefix crosses the end of a ring, and
  -- the counter of the request event is open.
  pub event_calls-Landed :
      (request_event response_event : EventFd) (calls finished : List Planned) (g : Gateway)
      (responses : SharedMemoryRingBuffer) (request_buf response_buf : List ℕ) (k : Kernel) (c : ℕ)
      (semaphore : Bool)
      → Flights request_codec response_codec calls finished g responses request_buf response_buf
      → counter k request_event.fd ≡ some (semaphore, c)
      → let started = start_all os request_codec request_event calls g k in
        Landed calls finished request_buf response_buf started
          (run_all (signal_gateway os response_event) response_codec finished responses started.1)
  event_calls-Landed request_event response_event calls finished g responses request_buf
        response_buf k c semaphore x opened =
      let (served, batch, s) =
        serve_batch-takes request_codec (request_queue calls) [] _
          (subst (λ b. Holds b (request_queue calls ++ [])) (sym started_lem.buffer)
            (Holds-filled (request_queue calls) x.request_empty x.request_room))
          x.requests_short x.requests_some in
      let (heard, listened, no_response, sent, left) =
        listen-routes response_codec (replies finished) [] _ ""
          (subst (λ b. Holds b (all_bytes (replies finished) ++ [])) (sym finished_lem.written_back)
            (Holds-filled (all_bytes (replies finished)) x.response_empty x.response_room))
          x.responses_short x.responses_some x.responses_encoded
          (AllWait-among finished calls started.0.calls x.among (
            entered_all-AllWait calls g.calls.pending_requests started.0.calls x.distinct
              started_lem.waiting_calls))
          x.finished_distinct in
      record {
        all_done = started_lem.all_done;
        served = served;
        batch = batch;
        spawned = s.spawned ∙ spawn_all-tasks request_codec calls [] x.requests_encoded;
        no_request = s.left;
        all_ran = finished_lem.all_ran;
        heard = heard;
        listened = listened;
        no_response = no_response;
        all_return =
            all_return finished g.calls.sent heard.calls x.fresh
              (sent ∙ ap (λ t. t ++ sends (replies finished)) started_lem.unsent);
      }
    where
      started : Gateway × Kernel × List (Call (Unit {0}))
      started = start_all os request_codec request_event calls g k

      started_lem : Started request_codec os request_event calls g started
      started_lem =
          start_all-Started request_codec os request_event calls g [] k c semaphore x.request_empty
            x.request_room x.requests_encoded opened

      finished_lem :
          Finished
            (signal_gateway os response_event)
            response_codec
            finished
            responses
            (run_all (signal_gateway os response_event) response_codec finished responses started.1)
      finished_lem =
          run_all-Finished (signal_gateway os response_event) response_codec finished responses []
            started.1 x.response_empty x.response_room x.responses_encoded
