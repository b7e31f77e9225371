-- ===== src/System/Settled.antt =====
-- A system in which every call is in its place: what its calls return.
use Prim.Native.String.{String}
use text.Mathlib.TextEquality.{eq_iff}
use mathlib.Core.List.{Memᴰ}
use gateway_g_rpc.Prelude.{
  ℕ, ◌<◌, ◌≡◌, refl, sym, ap, subst, ◌∙◌, Bool, true, false, Option, none, some, List, [], ◌∷◌,
  arith, if◌then◌else◌, ◌⊎◌, inl, inr, Bool-cases, dec_lt, ◌==◌, ==_iff,
}
use gateway_g_rpc.Proto.{EchoRequest, EchoResponse, Codec}
use gateway_g_rpc.Queue.{Queue}
use gateway_g_rpc.Ring.{SharedMemoryRingBuffer}
use gateway_g_rpc.Ring.Inv.{Holds}
use gateway_g_rpc.Ring.Refine.{used-eq-size}
use gateway_g_rpc.Transport.{done}
use gateway_g_rpc.Mux.Await.{find_sent, has_sender, await_call, received_or}
use gateway_g_rpc.Mux.Route.{all_bytes, sends}
use gateway_g_rpc.Server.{task_response}
use gateway_g_rpc.InFlight.{Planned, response_of, replies, request_queue, tasks_of}
use gateway_g_rpc.System.{System}
use gateway_g_rpc.System.Count.{
  Started, has_id, has_tx, count, count-member, member-of_count, unique, Every-member,
}
use gateway_g_rpc.System.Inv.{Inv, count_of, started, starts, is_id}

-- A ring buffer that holds nothing holds no message.
empty_queue : {b : SharedMemoryRingBuffer} (q : Queue) → Holds b [] → Holds b q → q ≡ []
empty_queue [] h h' = refl
empty_queue (m ∷ q) h h' =
    let nothing = used-eq-size h in let something = used-eq-size h' in absurd (omega arith)

-- What has been sent on a channel was sent for a call that has it.
sent_by :
    (tx : ℕ) (ps : List Planned) (response : EchoResponse)
    → find_sent tx (sends (replies ps)) ≡ some response
    → (p : Planned) × Memᴰ p ps × (p.tx ≡ tx) × (response_of p ≡ response)
unfolding find_sent
sent_by tx [] response e = cc
sent_by tx (p ∷ ps) response e = elim (Bool-cases (p.tx == tx)) [
  | inl same ↦
      let first : some (response_of p) ≡ some response = by_test true same in
      let own : response_of p ≡ response = cc in (p, Memᴰ.head refl, (==_iff p.tx tx).0 same, own)
  | inr other ↦
      let (q, m, t, r) = sent_by tx ps response (by_test false other) in (q, Memᴰ.tail m, t, r)
]
  where
    by_test :
        (b : Bool)
        → (p.tx == tx) ≡ b
        → (if b then some (response_of p) else find_sent tx (sends (replies ps))) ≡ some response
    by_test b h =
        subst
          (λ t.
            (if t then some (response_of p) else find_sent tx (sends (replies ps))) ≡ some response)
          h e

received_done :
    (o : Option EchoResponse) (alive : Bool) (response : EchoResponse)
    → received_or o alive ≡ done response
    → o ≡ some response
received_done (some r) alive response e = let same : r ≡ response = cc in ap some same
received_done none true response e = cc
received_done none false response e = cc

no_queued : (ps : List Planned) → request_queue ps ≡ [] → ps ≡ []
no_queued [] e = refl
no_queued (p ∷ ps) e = cc

no_running : (ps : List Planned) → tasks_of ps ≡ [] → ps ≡ []
no_running [] e = refl
no_running (p ∷ ps) e = cc

no_answered : (ps : List Planned) → all_bytes (replies ps) ≡ [] → ps ≡ []
no_answered [] e = refl
no_answered (p ∷ ps) e = cc

-- Something has been sent on the channel of a delivered call.
sent_something :
    (p : Planned) (ps : List Planned)
    → Memᴰ p ps
    → (response : EchoResponse) × (find_sent p.tx (sends (replies ps)) ≡ some response)
unfolding find_sent
sent_something p [] m = elim m [ ]
sent_something p (q ∷ ps) (Memᴰ.head e) =
    let same : (q.tx == p.tx) ≡ true = (==_iff q.tx p.tx).1 (ap (λ (x : Planned). x.tx) (sym e)) in
    (response_of q, rw same refl)
sent_something p (q ∷ ps) (Memᴰ.tail m) = elim (Bool-cases (q.tx == p.tx)) [
  | inl same ↦ (response_of q, rw same refl)
  | inr other ↦ let (response, h) = sent_something p ps m in (response, rw other h)
]

planned_of :
    (c : Started) (ps : List Planned)
    → Memᴰ c (starts ps)
    → (p : Planned) × Memᴰ p ps × (started p ≡ c)
planned_of c [] m = elim m [ ]
planned_of c (p ∷ ps) (Memᴰ.head e) = (p, Memᴰ.head refl, sym e)
planned_of c (p ∷ ps) (Memᴰ.tail m) = let (q, m', e) = planned_of c ps m in (q, Memᴰ.tail m', e)

-- A system in which no call has been made.
pub record IsNew (K : Type 0) (s : System K) : Type 0 where
  pub no_request : Holds s.gateway.request_buffer []
  pub no_response : Holds s.response_buffer []
  pub no_task : s.tasks ≡ []
  pub none_sent : s.gateway.calls.sent ≡ []
  pub no_history : s.history ≡ []
  pub none_lost : s.lost ≡ []
  pub no_error : s.errors ≡ []

module _ (K : Type 0) (request_codec : Codec (String × EchoRequest))
    (response_codec : Codec (String × EchoResponse)) where
  abbrev IsInv : System K → Type 0
  IsInv s = Inv K request_codec response_codec s

  pub new-Inv : (s : System K) → IsNew K s → IsInv s
  unfolding count
  new-Inv s n = record {
    queued = [];
    running = [];
    answered = [];
    delivered = [];
    requests = n.no_request;
    responses = n.no_response;
    tasks = n.no_task;
    sent = n.none_sent;
    all_queued = tt;
    all_running = tt;
    all_answered = tt;
    all_made = tt;
    conserved = λ j. rw (n.no_history, n.none_lost) refl;
    unique_ids = λ j. rw n.no_history (omega arith);
    unique_txs = λ t. rw n.no_history (omega arith);
  }

  pub woken-Inv : (s : System K) (k : K) → IsInv s → IsInv (record s { kernel = k })
  woken-Inv s k i = record {
    queued = i.queued;
    running = i.running;
    answered = i.answered;
    delivered = i.delivered;
    requests = i.requests;
    responses = i.responses;
    tasks = i.tasks;
    sent = i.sent;
    all_queued = i.all_queued;
    all_running = i.all_running;
    all_answered = i.all_answered;
    all_made = i.all_made;
    conserved = i.conserved;
    unique_ids = i.unique_ids;
    unique_txs = i.unique_txs;
  }

  module _ (s : System K) (here : IsInv s) where
    -- Two calls that have been made on one channel are one.
    same_call : (a b : Started) → Memᴰ a s.history → Memᴰ b s.history → a.tx ≡ b.tx → a ≡ b
    same_call a b ma mb e =
        unique (has_tx b.tx) a b s.history ma mb ((==_iff a.tx b.tx).1 e)
          ((==_iff b.tx b.tx).1 refl) (here.unique_txs b.tx)

    own_answer :
        (c : Started)
        → Memᴰ c s.history
        → (response : EchoResponse) → find_sent c.tx s.gateway.calls.sent ≡ some response
        → (processing : ℕ) × (response ≡ task_response processing c.request)
    own_answer c m response e =
        let (p, mp, tx, same) =
          sent_by c.tx here.delivered response (sym (ap (find_sent c.tx) here.sent) ∙ e) in
        let call_of =
          same_call (started p) c (Every-member _ p here.delivered mp here.all_made) m tx in
        (
          p.processing,
          sym same ∙ ap (λ (x : Started). task_response p.processing x.request) call_of,
        )

    -- A call that has returned a response has returned the one to its own request.
    pub own_lem :
        (c : Started) (response : EchoResponse)
        → Memᴰ c s.history
        → await_call c.tx s.gateway.calls ≡ done response
        → (processing : ℕ) × (response ≡ task_response processing c.request)
    unfolding await_call
    own_lem c response m e = own_answer c m response (
        received_done (find_sent c.tx s.gateway.calls.sent)
          (has_sender c.tx s.gateway.calls.pending_requests) response e)

    delivered-done :
        (c : Started)
        → Memᴰ c s.history
        → 0 < count_of c.id here.delivered
        → (processing : ℕ) × (await_call c.tx s.gateway.calls
            ≡ done (task_response processing c.request))
    unfolding await_call
    delivered-done c m some_one =
        let (c', mc, same) = member-of_count (has_id c.id) (starts here.delivered) some_one in
        let (p, mp, from) = planned_of c' here.delivered mc in
        let itself : started p ≡ c =
          unique (has_id c.id) (started p) c s.history
            (Every-member _ p here.delivered mp here.all_made) m (ap (has_id c.id) from ∙ same)
            ((eq_iff c.id c.id).1 refl) (here.unique_ids c.id) in
        let (response, sent) = sent_something p here.delivered mp in
        let found : find_sent c.tx s.gateway.calls.sent ≡ some response =
          ap (find_sent c.tx) here.sent
          ∙ ap (λ (x : Started). find_sent x.tx (sends (replies here.delivered))) (sym itself)
          ∙ sent in
        let (processing, own) = own_answer c m response found in
        (
          processing,
          ap (λ o. received_or o (has_sender c.tx s.gateway.calls.pending_requests)) found
              ∙ ap done own,
        )

    -- Once both ring buffers are empty and no task is left, every call has returned, or is lost.
    pub settled_lem :
        (c : Started)
        → Memᴰ c s.history
        → Holds s.gateway.request_buffer []
        → Holds s.response_buffer []
        → s.tasks ≡ []
        → Memᴰ c.id s.lost
          ⊎ ((processing : ℕ) × (await_call c.tx s.gateway.calls
                ≡ done (task_response processing c.request)))
    unfolding count
    settled_lem c m no_request no_response no_task =
        let q : here.queued ≡ [] =
          no_queued here.queued
            (empty_queue (request_queue here.queued) no_request here.requests) in
        let t : here.running ≡ [] = no_running here.running (sym here.tasks ∙ no_task) in
        let a : here.answered ≡ [] =
          no_answered here.answered
            (empty_queue (all_bytes (replies here.answered)) no_response here.responses) in
        let q' : count_of c.id here.queued ≡ 0 = ap (count_of c.id) q in
        let t' : count_of c.id here.running ≡ 0 = ap (count_of c.id) t in
        let a' : count_of c.id here.answered ≡ 0 = ap (count_of c.id) a in
        let all = here.conserved c.id in
        let some_call = count-member (has_id c.id) c s.history m ((eq_iff c.id c.id).1 refl) in
        elim (dec_lt 0 (count_of c.id here.delivered)) [
          | yes some_one ↦ inr (delivered-done c m some_one)
          | no none_there ↦
              let (id, ml, same) = member-of_count (is_id c.id) s.lost (omega arith) in
              inl (subst (λ j. Memᴰ j s.lost) ((eq_iff id c.id).0 same) ml)
        ]
