-- ===== src/System/Tasks.antt =====
-- A task that runs, and where every call is behind it.
use Prim.Native.String.{String}
use gateway_g_rpc.Prelude.{
  ℕ, ◌+◌, ◌≡◌, refl, sym, ap, ap₂, subst, ◌∙◌, Bool, none, some, List, [], ◌∷◌, ◌++◌, arith,
}
use gateway_g_rpc.Shm.{ShmError, ok, err}
use gateway_g_rpc.Proto.{EchoRequest, EchoResponse, Codec}
use gateway_g_rpc.Ring.{SharedMemoryRingBuffer, write}
use gateway_g_rpc.Ring.Inv.{Holds}
use gateway_g_rpc.Signals.Counted.{write-added, write-kept}
use gateway_g_rpc.Mux.Route.{all_bytes}
use gateway_g_rpc.Server.{task_response, run_task}
use gateway_g_rpc.InFlight.{Planned, replies, tasks_of}
use gateway_g_rpc.System.{System, Put, put, not_put, not_encoded, ran}
use gateway_g_rpc.System.Count.{count, Every, Every-append, Every-left, Every-right}
use gateway_g_rpc.System.Inv.{
  Inv, count_of, count_of-append, all_bytes-append, Waits, IsAnswered, is_id,
}

-- Where a task of a list of calls comes from.
pub record Chosen (ps : List Planned) (before after : List (String × EchoRequest)) (id : String)
    (request : EchoRequest) : Type 0 where
  pub first : List Planned
  pub chosen : Planned
  pub others : List Planned
  pub split : ps ≡ first ++ (chosen ∷ others)
  pub same_id : chosen.id ≡ id
  pub same_request : chosen.request ≡ request
  pub left : tasks_of (first ++ others) ≡ before ++ after

choose :
    (ps : List Planned) (before after : List (String × EchoRequest)) (id : String)
    (request : EchoRequest)
    → before ++ ((id, request) ∷ after) ≡ tasks_of ps
    → Chosen ps before after id request
choose [] [] after id request e = cc
choose [] (b ∷ before) after id request e = cc
choose (p ∷ ps) [] after id request e = record {
  first = [];
  chosen = p;
  others = ps;
  split = refl;
  same_id = cc;
  same_request = cc;
  left = cc;
}
choose (p ∷ ps) (b ∷ before) after id request e =
    let rest : Chosen ps before after id request = choose ps before after id request cc in
    record {
      first = p ∷ rest.first;
      chosen = rest.chosen;
      others = rest.others;
      split = ap (λ l. p ∷ l) rest.split;
      same_id = rest.same_id;
      same_request = rest.same_request;
      left = (let l = rest.left in cc);
    }

module _ (K : Type 0) (request_codec : Codec (String × EchoRequest))
    (response_codec : Codec (String × EchoResponse)) where
  module _ (notify : K → K) (processing : ℕ) (id : String) (request : EchoRequest)
      (buffer : SharedMemoryRingBuffer) (k : K) where
    abbrev left_buffer : SharedMemoryRingBuffer
    left_buffer = (run_task notify response_codec processing (id, request) buffer k).0

    run_task-ok :
        (bs : List ℕ) (n : ℕ)
        → response_codec.to_vec (id, task_response processing request) ≡ some bs
        → (write buffer bs).1 ≡ ok n
        → left_buffer ≡ (write buffer bs).0
    unfolding run_task
    run_task-ok bs n enc w = ground (arith, enc, w)

    run_task-err :
        (bs : List ℕ) (x : ShmError)
        → response_codec.to_vec (id, task_response processing request) ≡ some bs
        → (write buffer bs).1 ≡ err x
        → left_buffer ≡ (write buffer bs).0
    unfolding run_task
    run_task-err bs x enc w = ground (arith, enc, w)

    run_task-unencoded :
        response_codec.to_vec (id, task_response processing request) ≡ none → left_buffer ≡ buffer
    unfolding run_task
    run_task-unencoded enc = ground (arith, enc)

  module _ (s : System K) (i : Inv K request_codec response_codec s) (processing : ℕ) (id : String)
      (request : EchoRequest) (before others : List (String × EchoRequest)) (k : K)
      (c : Chosen i.running before others id request) where
    abbrev behind : SharedMemoryRingBuffer → List String → System K
    behind buffer lost = record s {
      response_buffer = buffer;
      kernel = k;
      tasks = before ++ others;
      lost = lost;
    }

    all_parts :
        Every (Waits s.gateway.calls.pending_requests s.history) (c.first ++ (c.chosen ∷ c.others))
    all_parts =
        subst (λ l. Every (Waits s.gateway.calls.pending_requests s.history) l) c.split
          i.all_running

    all_left : Every (Waits s.gateway.calls.pending_requests s.history) (c.first ++ c.others)
    all_left =
        Every-append _ c.first c.others (Every-left _ c.first _ all_parts)
          (Every-right _ c.first (c.chosen ∷ c.others) all_parts).1

    count_parts :
        (j : String)
        → count_of j i.running ≡ count_of j (c.first ++ c.others) + count_of j (c.chosen ∷ [])
    unfolding count
    count_parts j =
        ap (count_of j) c.split
        ∙ ground (
          arith,
          count_of-append j c.first (c.chosen ∷ c.others),
          count_of-append j c.first c.others,
        )

    behind-Inv :
        (answered : List Planned) (buffer : SharedMemoryRingBuffer) (lost : List String)
        → Holds buffer (all_bytes (replies answered))
        → Every
            (IsAnswered K request_codec response_codec s.gateway.calls.pending_requests s.history)
            answered
        → ((j : String)
            → count_of j answered + count (is_id j) lost
              ≡ count_of j i.answered + count (is_id j) s.lost + count_of j (c.chosen ∷ []))
        → Inv K request_codec response_codec (behind buffer lost)
    behind-Inv answered buffer lost h all_answered more = record {
      queued = i.queued;
      running = c.first ++ c.others;
      answered = answered;
      delivered = i.delivered;
      requests = i.requests;
      responses = h;
      tasks = sym c.left;
      sent = i.sent;
      all_queued = i.all_queued;
      all_running = all_left;
      all_answered = all_answered;
      all_made = i.all_made;
      conserved = λ j.
          (let one = more j in let all = i.conserved j in let parts = count_parts j in omega arith);
      unique_ids = i.unique_ids;
      unique_txs = i.unique_txs;
    }

    dropped-Inv :
        (buffer : SharedMemoryRingBuffer)
        → Holds buffer (all_bytes (replies i.answered))
        → Inv K request_codec response_codec (behind buffer (id ∷ s.lost))
    unfolding count
    dropped-Inv buffer h =
        behind-Inv i.answered buffer (id ∷ s.lost) h i.all_answered
          (λ j. rw c.same_id (ground arith))

    answered-Inv :
        (buffer : SharedMemoryRingBuffer) (bs : List ℕ)
        → response_codec.to_vec (id, task_response processing request) ≡ some bs
        → Holds buffer (all_bytes (replies i.answered) ++ (bs ∷ []))
        → Inv K request_codec response_codec (behind buffer s.lost)
    unfolding count
    answered-Inv buffer bs enc h =
        let p : Planned = record c.chosen { processing = processing; response_bytes = bs } in
        behind-Inv (i.answered ++ (p ∷ [])) buffer s.lost
          (subst (λ q. Holds buffer q) (sym (all_bytes-append i.answered (p ∷ []))) h)
          (Every-append _ i.answered (p ∷ []) i.all_answered (
            (
              ap₂ (λ j r. response_codec.to_vec (j, task_response processing r)) c.same_id
                    c.same_request
                  ∙ enc,
              (Every-right _ c.first (c.chosen ∷ c.others) all_parts).0,
            ),
            tt,
          ))
          (λ j. ground (arith, count_of-append j i.answered (p ∷ [])))

  module _ (notify : K → K) (s : System K) (i : Inv K request_codec response_codec s)
      (processing : ℕ) (id : String) (request : EchoRequest)
      (before others : List (String × EchoRequest))
      (e : s.tasks ≡ before ++ ((id, request) ∷ others)) where
    abbrev k' : K
    k' = (run_task notify response_codec processing (id, request) s.response_buffer s.kernel).1

    from : Chosen i.running before others id request
    from = choose i.running before others id request (sym e ∙ i.tasks)

    pub ran-Inv :
        (b : Bool)
        → Put response_codec (id, task_response processing request) s.response_buffer b
        → Inv K request_codec response_codec
            (ran K notify response_codec processing b id request (before ++ others) s)
    ran-Inv _ (put bs n enc w) =
        subst
          (λ r.
            Inv K request_codec response_codec
              (behind s i processing id request before others k' from r s.lost))
          (sym (run_task-ok notify processing id request s.response_buffer s.kernel bs n enc w))
          (answered-Inv s i processing id request before others k' from
            (write s.response_buffer bs).0 bs enc
            (write-added bs n i.responses
              (response_codec.slice (id, task_response processing request) bs enc) w))
    ran-Inv _ (not_put bs x enc w) =
        subst
          (λ r.
            Inv K request_codec response_codec
              (behind s i processing id request before others k' from r (id ∷ s.lost)))
          (sym (run_task-err notify processing id request s.response_buffer s.kernel bs x enc w))
          (dropped-Inv s i processing id request before others k' from
            (write s.response_buffer bs).0
            (write-kept bs x i.responses
              (response_codec.slice (id, task_response processing request) bs enc) w))
    ran-Inv _ (not_encoded enc) =
        subst
          (λ r.
            Inv K request_codec response_codec
              (behind s i processing id request before others k' from r (id ∷ s.lost)))
          (sym (run_task-unencoded notify processing id request s.response_buffer s.kernel enc))
          (dropped-Inv s i processing id request before others k' from s.response_buffer
            i.responses)
