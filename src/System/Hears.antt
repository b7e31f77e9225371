-- ===== src/System/Hears.antt =====
-- The reads of the listeners, and where every call is behind them.
use Prim.Native.String.{String}
use text.Mathlib.Text.{◌==◌ as str_eq}
use text.Mathlib.TextEquality.{eq_iff}
use mathlib.Core.List.{Memᴰ}
use gateway_g_rpc.Prelude.{
  ℕ, zero, suc, ◌<◌, ◌≡◌, refl, sym, ap, subst, ◌∙◌, Bool, true, false, none, some, Option, List,
  [], ◌∷◌, ◌++◌, arith, if◌then◌else◌, length, inl, inr, Bool-cases, dec_lt,
}
use gateway_g_rpc.Shm.{Outcome, ok}
use gateway_g_rpc.Proto.{EchoRequest, EchoResponse, Codec}
use gateway_g_rpc.Ring.Inv.{Holds}
use gateway_g_rpc.Mux.{Calls, Listener, lookup, listen, drain, accept, hand_out}
use gateway_g_rpc.Mux.Pending.{hand_out_lem}
use gateway_g_rpc.Mux.Listen.{
  listen-step, listen-zero, listeners-blocked, accept_lem, listen-empty, drain-zero, drain-step,
  drain-empty,
}
use gateway_g_rpc.Mux.Listen
use gateway_g_rpc.Mux.Route.{all_bytes}
use gateway_g_rpc.Ring.Several.{Holds-after}
use gateway_g_rpc.InFlight.{Planned, response_of, replies}
use gateway_g_rpc.System.{System, listener_of, heard}
use gateway_g_rpc.System.Count.{
  Started, has_id, count, count-member, Every, Every-append, Every-map, List-cases,
}
use gateway_g_rpc.System.Inv.{
  Inv, count_of, count_of-append, sends-append, Waits, IsAnswered, started, starts-member,
}

-- The other calls of a list wait as before.
hand_out-Waits :
    (p : Planned) (response : EchoResponse) (s : Calls) (history : List Started) (ps : List Planned)
    → lookup p.id s.pending_requests ≡ some p.tx
    → count_of p.id ps ≡ 0
    → (q : Planned) → Memᴰ q ps
    → Waits s.pending_requests history q
    → Waits (hand_out p.id response s).pending_requests history q
hand_out-Waits p response s history ps w gone q m (wait, made) =
    elim (Bool-cases (str_eq q.id p.id)) [
      | inl same ↦
          let some_one = count-member (has_id p.id) (started q) _ (starts-member q ps m) same in
          absurd (omega arith)
      | inr other ↦ (
        (hand_out_lem p.id q.id p.tx response response s w).1
            ∙ ap (λ (b : Bool). if b then none else lookup q.id s.pending_requests)
                (apart p.id q.id other)
            ∙ wait,
        made,
      )
    ]
  where
    apart : (i j : String) → str_eq j i ≡ false → str_eq i j ≡ false
    apart i j h = ground (arith, eq_iff i j, eq_iff j i)

ended : {a b : Outcome Listener} → ◌≡◌ {A = Option (Outcome Listener)} (some a) (some b) → a ≡ b
ended e = cc

module _ (K : Type 0) (request_codec : Codec (String × EchoRequest))
    (response_codec : Codec (String × EchoResponse)) where
  abbrev IsInv : System K → Type 0
  IsInv s = Inv K request_codec response_codec s

  module _ (s : System K) (i : IsInv s) (p : Planned) (ps : List Planned) where
    -- The first response is handed out.
    module _ (e : i.answered ≡ p ∷ ps)
        (h : Holds s.response_buffer (p.response_bytes ∷ all_bytes (replies ps))) where
      abbrev next : Listener
      next =
          Listen.next response_codec (listener_of K s) p.response_bytes (all_bytes (replies ps)) h

      abbrev calls : Calls
      calls = s.gateway.calls

      abbrev handed : Calls
      handed = hand_out p.id (response_of p) calls

      all_parts :
          Every
            (IsAnswered K request_codec response_codec calls.pending_requests s.history)
            (p ∷ ps)
      all_parts =
          subst
            (λ l.
              Every (IsAnswered K request_codec response_codec calls.pending_requests s.history) l)
            e i.all_answered

      accepted : accept response_codec p.response_bytes calls ≡ handed
      accepted =
          accept_lem response_codec p.response_bytes p.id (response_of p) calls
            (response_codec.round_trip (p.id, response_of p) p.response_bytes all_parts.0.0)

      -- No other call has this identifier.
      alone : (count_of p.id i.queued ≡ 0) × (count_of p.id i.running ≡ 0) × (count_of p.id ps ≡ 0)
      unfolding count
      alone =
          let all = i.conserved p.id in
          let most = i.unique_ids p.id in
          let here : str_eq p.id p.id ≡ true = (eq_iff p.id p.id).1 refl in
          let parts : count_of p.id i.answered ≡ suc (count_of p.id ps) =
            ap (count_of p.id) e ∙ rw here refl in
          (omega arith, omega arith, omega arith)

      handed-Inv : IsInv (record s {
        gateway = record s.gateway { calls = handed };
        response_buffer = next.response_buffer;
        response_buf = next.response_buf;
      })
      unfolding count
      handed-Inv =
          let (no_queued, no_running, no_other) = alone in
          let w = all_parts.0.1.0 in
          let on = λ (l : List Planned). hand_out-Waits p (response_of p) calls s.history l w in
          record {
            queued = i.queued;
            running = i.running;
            answered = ps;
            delivered = i.delivered ++ (p ∷ []);
            requests = i.requests;
            responses = Holds-after p.response_bytes (all_bytes (replies ps)) s.response_buf h;
            tasks = i.tasks;
            sent =
                (hand_out_lem p.id p.id p.tx (response_of p) (response_of p) calls w).0
                ∙ ap (λ l. l ++ ((p.tx, response_of p) ∷ [])) i.sent
                ∙ sym (sends-append i.delivered (p ∷ []));
            all_queued =
                Every-map _ _ i.queued (λ q m x. (x.0, on i.queued no_queued q m x.1)) i.all_queued;
            all_running =
                Every-map _ _ i.running (λ q m x. on i.running no_running q m x) i.all_running;
            all_answered = Every-map _ _ ps (λ q m x. (x.0, on ps no_other q m x.1)) all_parts.1;
            all_made = Every-append _ i.delivered (p ∷ []) i.all_made (all_parts.0.1.1, tt);
            conserved = λ j.
                (let all = i.conserved j in
                  let parts = ap (count_of j) e in
                  ground (arith, count_of-append j i.delivered (p ∷ [])));
            unique_ids = i.unique_ids;
            unique_txs = i.unique_txs;
          }

      next-Inv : IsInv (heard K next s)
      next-Inv =
          subst
            (λ c. IsInv (record s {
              gateway = record s.gateway { calls = c };
              response_buffer = next.response_buffer;
              response_buf = next.response_buf;
            }))
            (sym accepted) handed-Inv

  same_listener :
      (s : System K) (l : Listener) → IsInv s → ok (listener_of K s) ≡ ok l → IsInv (heard K l s)
  same_listener s l i e =
      let same : listener_of K s ≡ l = cc in subst (λ x. IsInv (heard K x s)) same i

  pub drained-Inv :
      (fuel : ℕ) (s : System K) (l : Listener)
      → IsInv s
      → drain response_codec fuel (listener_of K s) ≡ some (ok l)
      → IsInv (heard K l s)
  drained-Inv zero s l i e =
      let nothing = sym (drain-zero response_codec (listener_of K s)) ∙ e in cc
  drained-Inv (suc fuel) s l i e = elim (List-cases i.answered) [
    | inl empty ↦ same_listener s l i (
        ended (
          sym (
            drain-empty response_codec (listener_of K s) fuel
              (subst (λ q. Holds s.response_buffer (all_bytes (replies q))) empty i.responses))
          ∙ e))
    | inr (p, ps, some_call) ↦
        let h : Holds s.response_buffer (p.response_bytes ∷ all_bytes (replies ps)) =
          subst (λ q. Holds s.response_buffer (all_bytes (replies q))) some_call i.responses in
        elim (dec_lt (length s.response_buf) (length p.response_bytes)) [
          | yes long ↦ same_listener s l i (
              ended (
                sym
                  (listeners-blocked response_codec p.response_bytes (all_bytes (replies ps))
                    (listener_of K s) fuel h long).1
                ∙ e))
          | no fits ↦
              drained-Inv fuel (heard K (next s i p ps some_call h) s) l
                (next-Inv s i p ps some_call h)
                (sym (
                    drain-step response_codec (listener_of K s) p.response_bytes
                      (all_bytes (replies ps)) h fuel (omega arith))
                  ∙ e)
        ]
  ]

  module _
      (some_bytes : (call : String × EchoResponse) (bs : List ℕ)
        → response_codec.to_vec call ≡ some bs
        → 0 < length bs) where
    pub heard-Inv :
        (n : ℕ) (s : System K) (l : Listener)
        → IsInv s
        → listen response_codec n (listener_of K s) ≡ ok l
        → IsInv (heard K l s)
    heard-Inv zero s l i e =
        same_listener s l i (sym (listen-zero response_codec (listener_of K s)) ∙ e)
    heard-Inv (suc n) s l i e = elim (List-cases i.answered) [
      | inl empty ↦ same_listener s l i (
          sym (
            listen-empty response_codec (listener_of K s) n
              (subst (λ q. Holds s.response_buffer (all_bytes (replies q))) empty i.responses))
          ∙ e)
      | inr (p, ps, some_call) ↦
          let h : Holds s.response_buffer (p.response_bytes ∷ all_bytes (replies ps)) =
            subst (λ q. Holds s.response_buffer (all_bytes (replies q))) some_call i.responses in
          elim (dec_lt (length s.response_buf) (length p.response_bytes)) [
            | yes long ↦ same_listener s l i (
                sym
                  (listeners-blocked response_codec p.response_bytes (all_bytes (replies ps))
                    (listener_of K s) n h long).0
                ∙ e)
            | no fits ↦
                heard-Inv n (heard K (next s i p ps some_call h) s) l
                  (next-Inv s i p ps some_call h)
                  (sym (
                      listen-step response_codec (listener_of K s) p.response_bytes
                        (all_bytes (replies ps)) h n (omega arith)
                        (some_bytes (p.id, response_of p) p.response_bytes
                          (all_parts s i p ps some_call h).0.0))
                    ∙ e)
          ]
    ]
