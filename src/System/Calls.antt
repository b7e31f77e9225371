-- ===== src/System/Calls.antt =====
-- The start of a call, and where every call is behind it.
use Prim.Native.String.{String}
use text.Mathlib.Text.{◌==◌ as str_eq}
use text.Mathlib.TextEquality.{eq_iff}
use mathlib.Core.List.{Memᴰ}
use gateway_g_rpc.Prelude.{
  ℕ, ◌+◌, ◌≤◌, ◌≡◌, refl, sym, ap, subst, ◌∙◌, Bool, true, false, none, some, List, [], ◌∷◌, ◌++◌,
  ◌==◌, arith, inl, inr, Bool-cases, ==_iff, if◌then◌else◌,
}
use gateway_g_rpc.Shm.{ShmError, ok, err}
use gateway_g_rpc.Proto.{EchoRequest, EchoResponse, Codec}
use gateway_g_rpc.Transport.{Call}
use gateway_g_rpc.Ring.{SharedMemoryRingBuffer, write}
use gateway_g_rpc.Ring.Inv.{Holds}
use gateway_g_rpc.Signals.Counted.{write-added, write-kept}
use gateway_g_rpc.Mux.{PendingRequests, Gateway, lookup, insert}
use gateway_g_rpc.Mux.Pending.{lookup-insert}
use gateway_g_rpc.InFlight.{Planned, request_queue}
use gateway_g_rpc.System.{System, Put, put, not_put, not_encoded, after_call, note_error}
use gateway_g_rpc.System.Count.{
  Started, has_id, has_tx, count, count-member, Every, Every-append, Every-map,
}
use gateway_g_rpc.System.Inv.{
  Inv, started, count_of, count_of-append, request_queue-append, Waits, IsQueued, is_id,
}

-- The entry of a call that has been made is not that of a new identifier.
lookup-fresh :
    (c : Started) (history : List Started) (m : PendingRequests) (p : Planned)
    → count (has_id c.id) history ≡ 0
    → Waits m history p
    → Waits (insert c.id c.tx m) (c ∷ history) p
lookup-fresh c history m p new (waits, made) = elim (Bool-cases (str_eq p.id c.id)) [
  | inl same ↦
      let some_one = count-member (has_id c.id) (started p) history made same in
      absurd (omega arith)
  | inr other ↦ (
    lookup-insert p.id c.id c.tx m
        ∙ ap (λ b. if b then some c.tx else lookup p.id m) (apart c.id p.id other)
        ∙ waits,
    Memᴰ.tail made,
  )
]
  where
    apart : (i j : String) → str_eq j i ≡ false → str_eq i j ≡ false
    apart i j h = ground (arith, eq_iff i j, eq_iff j i)

module _ (K : Type 0) (request_codec : Codec (String × EchoRequest))
    (response_codec : Codec (String × EchoResponse)) where
  -- The gateway behind the start of a call, with another request buffer.
  abbrev pub entered : Started → Gateway → SharedMemoryRingBuffer → Gateway
  entered c g buffer = record {
    request_buffer = buffer;
    calls = record g.calls { pending_requests = insert c.id c.tx g.calls.pending_requests };
  }

  module _ (s : System K) (i : Inv K request_codec response_codec s) (c : Started) (k : K)
      (result : Call (Unit {0})) (buffer : SharedMemoryRingBuffer)
      (new_id : count (has_id c.id) s.history ≡ 0)
      (new_tx : count (has_tx c.tx) s.history ≡ 0) where
    abbrev m : PendingRequests
    m = insert c.id c.tx s.gateway.calls.pending_requests

    abbrev after : List String → System K
    after lost = record s {
      gateway = entered c s.gateway buffer;
      kernel = k;
      history = c ∷ s.history;
      lost = lost;
      errors = note_error c.id result s.errors;
    }

    one_id : (j : String) → count (has_id j) (c ∷ s.history) ≤ 1
    unfolding count
    one_id j = elim (Bool-cases (str_eq c.id j)) [
      | inl same ↦
          let none_before : count (has_id j) s.history ≡ 0 =
            subst (λ j'. count (has_id j') s.history ≡ 0) ((eq_iff c.id j).0 same) new_id in
          rw (same, none_before) (omega arith)
      | inr other ↦ rw other (i.unique_ids j)
    ]

    one_tx : (t : ℕ) → count (has_tx t) (c ∷ s.history) ≤ 1
    unfolding count
    one_tx t = elim (Bool-cases (c.tx == t)) [
      | inl same ↦
          let none_before : count (has_tx t) s.history ≡ 0 =
            subst (λ t'. count (has_tx t') s.history ≡ 0) ((==_iff c.tx t).0 same) new_tx in
          rw (same, none_before) (omega arith)
      | inr other ↦ rw other (i.unique_txs t)
    ]

    -- The calls that are somewhere stay there.
    still :
        (p : Planned)
        → Waits s.gateway.calls.pending_requests s.history p
        → Waits m (c ∷ s.history) p
    still p w = lookup-fresh c s.history s.gateway.calls.pending_requests p new_id w

    -- With the calls `queued` in the request buffer, and as many lost as must be.
    after-Inv :
        (queued : List Planned) (lost : List String)
        → Holds buffer (request_queue queued)
        → Every (IsQueued K request_codec response_codec m (c ∷ s.history)) queued
        → ((j : String)
            → count_of j queued + count (is_id j) lost
              ≡ count_of j i.queued + count (is_id j) s.lost + count (has_id j) (c ∷ []))
        → Inv K request_codec response_codec (after lost)
    unfolding count
    after-Inv queued lost h all_queued more = record {
      queued = queued;
      running = i.running;
      answered = i.answered;
      delivered = i.delivered;
      requests = h;
      responses = i.responses;
      tasks = i.tasks;
      sent = i.sent;
      all_queued = all_queued;
      all_running = Every-map _ _ i.running (λ p _ x. still p x) i.all_running;
      all_answered = Every-map _ _ i.answered (λ p _ x. (x.0, still p x.1)) i.all_answered;
      all_made = Every-map _ _ i.delivered (λ p _ x. Memᴰ.tail x) i.all_made;
      conserved = λ j. (let one = more j in let all = i.conserved j in ground arith);
      unique_ids = one_id;
      unique_txs = one_tx;
    }

    still_queued : Every (IsQueued K request_codec response_codec m (c ∷ s.history)) i.queued
    still_queued = Every-map _ _ i.queued (λ p _ x. (x.0, still p x.1)) i.all_queued

    refused-Inv :
        Holds buffer (request_queue i.queued)
        → Inv K request_codec response_codec (after (c.id ∷ s.lost))
    unfolding count
    refused-Inv h = after-Inv i.queued (c.id ∷ s.lost) h still_queued (λ j. ground arith)

    sent-Inv :
        (bs : List ℕ)
        → request_codec.to_vec (c.id, c.request) ≡ some bs
        → Holds buffer (request_queue i.queued ++ (bs ∷ []))
        → Inv K request_codec response_codec (after s.lost)
    unfolding count
    sent-Inv bs enc h =
        let p : Planned = record {
          id = c.id;
          tx = c.tx;
          request = c.request;
          processing = 0;
          request_bytes = bs;
          response_bytes = [];
        } in
        after-Inv (i.queued ++ (p ∷ [])) s.lost
          (subst (λ q. Holds buffer q) (sym (request_queue-append i.queued (p ∷ []))) h)
          (Every-append _ i.queued (p ∷ []) still_queued (
            (
              enc,
              (
                lookup-insert c.id c.id c.tx s.gateway.calls.pending_requests
                    ∙ ap
                        (λ (b : Bool).
                          if b then some c.tx else lookup c.id s.gateway.calls.pending_requests)
                        ((eq_iff c.id c.id).1 refl),
                Memᴰ.head refl,
              ),
            ),
            tt,
          ))
          (λ j. ground (arith, count_of-append j i.queued (p ∷ [])))

  -- What the start of a call makes of a gateway: in every case the call is in the map, and the request
  -- buffer is as `write` leaves it.
  pub record IsStart (c : Started) (g left : Gateway) : Type 0 where
    pub when_ok :
        (bs : List ℕ) (n : ℕ)
        → request_codec.to_vec (c.id, c.request) ≡ some bs
        → (write g.request_buffer bs).1 ≡ ok n
        → left ≡ entered c g (write g.request_buffer bs).0
    pub when_err :
        (bs : List ℕ) (x : ShmError)
        → request_codec.to_vec (c.id, c.request) ≡ some bs
        → (write g.request_buffer bs).1 ≡ err x
        → left ≡ entered c g (write g.request_buffer bs).0
    pub when_unencoded :
        request_codec.to_vec (c.id, c.request) ≡ none → left ≡ entered c g g.request_buffer

  module _ (s : System K) (i : Inv K request_codec response_codec s) (c : Started)
      (new_id : count (has_id c.id) s.history ≡ 0) (new_tx : count (has_tx c.tx) s.history ≡ 0)
      (left : Gateway) (k : K) (result : Call (Unit {0})) (x : IsStart c s.gateway left) where
    pub called-Inv :
        (b : Bool)
        → Put request_codec (c.id, c.request) s.gateway.request_buffer b
        → Inv K request_codec response_codec (after_call K left k result b c s)
    called-Inv _ (put bs n enc w) =
        subst (λ g. Inv K request_codec response_codec (after_call K g k result true c s))
          (sym (x.when_ok bs n enc w))
          (sent-Inv s i c k result (write s.gateway.request_buffer bs).0 new_id new_tx bs enc
            (write-added bs n i.requests (request_codec.slice (c.id, c.request) bs enc) w))
    called-Inv _ (not_put bs e enc w) =
        subst (λ g. Inv K request_codec response_codec (after_call K g k result false c s))
          (sym (x.when_err bs e enc w))
          (refused-Inv s i c k result (write s.gateway.request_buffer bs).0 new_id new_tx
            (write-kept bs e i.requests (request_codec.slice (c.id, c.request) bs enc) w))
    called-Inv _ (not_encoded enc) =
        subst (λ g. Inv K request_codec response_codec (after_call K g k result false c s))
          (sym (x.when_unencoded enc))
          (refused-Inv s i c k result s.gateway.request_buffer new_id new_tx i.requests)
