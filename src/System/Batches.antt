-- ===== src/System/Batches.antt =====
-- The reads of the servers' request loops, and where every call is behind them.
use Prim.Native.String.{String}
use gateway_g_rpc.Prelude.{
  ℕ, zero, suc, ◌<◌, ◌≡◌, refl, sym, ap, subst, ◌∙◌, some, List, [], ◌∷◌, ◌++◌, arith, length, inl,
  inr, dec_lt,
}
use gateway_g_rpc.Shm.{ok}
use gateway_g_rpc.Proto.{EchoRequest, EchoResponse, Codec}
use gateway_g_rpc.Ring.Inv.{Holds}
use gateway_g_rpc.Server.{RequestLoop, serve_batch, serve_notified}
use gateway_g_rpc.Server.Batch
use gateway_g_rpc.Server.Batch.{
  batch-zero, batch-step, servers-blocked, batch-empty, serve_notified-empty, notified-step,
}
use gateway_g_rpc.Ring.Several.{Holds-after}
use gateway_g_rpc.InFlight.{Planned, request_queue}
use gateway_g_rpc.System.{System, loop_of, served}
use gateway_g_rpc.System.Count.{count, Every, Every-append, List-cases}
use gateway_g_rpc.System.Inv.{Inv, count_of, count_of-append, tasks_of-append, IsQueued}

module _ (K : Type 0) (request_codec : Codec (String × EchoRequest))
    (response_codec : Codec (String × EchoResponse)) where
  abbrev IsInv : System K → Type 0
  IsInv s = Inv K request_codec response_codec s

  module _ (s : System K) (i : IsInv s) (p : Planned) (ps : List Planned) where
    -- The first queued call becomes a task.
    module _ (e : i.queued ≡ p ∷ ps)
        (h : Holds s.gateway.request_buffer (p.request_bytes ∷ request_queue ps)) where
      abbrev taken : RequestLoop
      taken = Batch.next request_codec (loop_of K s) p.request_bytes (request_queue ps) h

      all_parts :
          Every
            (IsQueued K request_codec response_codec s.gateway.calls.pending_requests s.history)
            (p ∷ ps)
      all_parts =
          subst
            (λ l.
              Every
                (IsQueued K request_codec response_codec s.gateway.calls.pending_requests s.history)
                l)
            e i.all_queued

      taken-Inv : IsInv (served K taken s)
      unfolding count
      taken-Inv = record {
        queued = ps;
        running = i.running ++ (p ∷ []);
        answered = i.answered;
        delivered = i.delivered;
        requests = Holds-after p.request_bytes (request_queue ps) s.request_buf h;
        responses = i.responses;
        tasks =
            rw
              (
                request_codec.round_trip (p.id, p.request) p.request_bytes all_parts.0.0,
                i.tasks,
                tasks_of-append i.running (p ∷ []),
              )
              refl;
        sent = i.sent;
        all_queued = all_parts.1;
        all_running = Every-append _ i.running (p ∷ []) i.all_running (all_parts.0.1, tt);
        all_answered = i.all_answered;
        all_made = i.all_made;
        conserved = λ j.
            (let all = i.conserved j in
              let parts = ap (count_of j) e in
              ground (arith, count_of-append j i.running (p ∷ [])));
        unique_ids = i.unique_ids;
        unique_txs = i.unique_txs;
      }

  same_loop :
      (s : System K) (l : RequestLoop) → IsInv s → ok (loop_of K s) ≡ ok l → IsInv (served K l s)
  same_loop s l i e = let same : loop_of K s ≡ l = cc in subst (λ x. IsInv (served K x s)) same i

  -- A byte of notification.
  pub notified-Inv :
      (s : System K) (l : RequestLoop)
      → IsInv s
      → serve_notified request_codec (loop_of K s) ≡ ok l
      → IsInv (served K l s)
  notified-Inv s l i e = elim (List-cases i.queued) [
    | inl empty ↦ same_loop s l i (
        sym (
          serve_notified-empty request_codec (loop_of K s)
            (subst (λ q. Holds s.gateway.request_buffer (request_queue q)) empty i.requests))
        ∙ e)
    | inr (p, ps, some_call) ↦
        let h : Holds s.gateway.request_buffer (p.request_bytes ∷ request_queue ps) =
          subst (λ q. Holds s.gateway.request_buffer (request_queue q)) some_call i.requests in
        elim (dec_lt (length s.request_buf) (length p.request_bytes)) [
          | yes long ↦ same_loop s l i (
              sym
                (servers-blocked request_codec p.request_bytes (request_queue ps) (loop_of K s) 0 h
                  long).1
              ∙ e)
          | no fits ↦
              let step =
                sym (
                  notified-step request_codec (loop_of K s) p.request_bytes (request_queue ps) h
                    (omega arith))
                ∙ e in
              let same : taken s i p ps some_call h ≡ l = cc in
              subst (λ x. IsInv (served K x s)) same (taken-Inv s i p ps some_call h)
        ]
  ]

  module _
      (some_bytes : (call : String × EchoRequest) (bs : List ℕ)
        → request_codec.to_vec call ≡ some bs
        → 0 < length bs) where
    pub served-Inv :
        (n : ℕ) (s : System K) (l : RequestLoop)
        → IsInv s
        → serve_batch request_codec n (loop_of K s) ≡ ok l
        → IsInv (served K l s)
    served-Inv zero s l i e = same_loop s l i (sym (batch-zero request_codec (loop_of K s)) ∙ e)
    served-Inv (suc n) s l i e = elim (List-cases i.queued) [
      | inl empty ↦ served-Inv n s l i (
          sym (
            batch-empty request_codec (loop_of K s) n
              (subst (λ q. Holds s.gateway.request_buffer (request_queue q)) empty i.requests))
          ∙ e)
      | inr (p, ps, some_call) ↦
          let h : Holds s.gateway.request_buffer (p.request_bytes ∷ request_queue ps) =
            subst (λ q. Holds s.gateway.request_buffer (request_queue q)) some_call i.requests in
          elim (dec_lt (length s.request_buf) (length p.request_bytes)) [
            | yes long ↦ same_loop s l i (
                sym
                  (servers-blocked request_codec p.request_bytes (request_queue ps) (loop_of K s)
                    (suc n) h long).0
                ∙ e)
            | no fits ↦
                served-Inv n (served K (taken s i p ps some_call h) s) l
                  (taken-Inv s i p ps some_call h)
                  (sym (
                      batch-step request_codec (loop_of K s) p.request_bytes (request_queue ps) h n
                        (omega arith)
                        (some_bytes (p.id, p.request) p.request_bytes
                          (all_parts s i p ps some_call h).0.0))
                    ∙ e)
          ]
    ]
