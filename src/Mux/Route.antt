-- ===== src/Mux/Route.antt =====
-- A batch of responses, each to the call that it belongs to.
use Prim.Native.String.{String}
use text.Mathlib.Text.{◌==◌ as str_eq}
use text.Mathlib.TextEquality.{eq_iff}
use gateway_g_rpc.Prelude.{
  ℕ, ◌<◌, ◌≡◌, refl, sym, ap, ◌∙◌, Bool, false, none, some, List, [], ◌∷◌, ◌++◌, ◌||◌, arith,
  if◌then◌else◌, length, append_assoc, append-nil,
}
use gateway_g_rpc.Shm.{ok}
use gateway_g_rpc.Proto.{EchoResponse, Codec}
use gateway_g_rpc.Queue.{Queue, AllFit, NoneEmpty}
use gateway_g_rpc.Ring.Inv.{Holds}
use gateway_g_rpc.Mux.{Calls, Listener, lookup, hand_out, listen, drain}
use gateway_g_rpc.Mux.Pending.{hand_out_lem}
use gateway_g_rpc.Mux.Listen.{accept_lem, accept_all, listen-takes, drain-takes}

-- A response in the buffer, with the identifier and the channel of its call.
pub record Reply : Type 0 where
  pub id : String
  pub tx : ℕ
  pub response : EchoResponse
  pub bytes : List ℕ

abbrev pub all_bytes : List Reply → Queue
all_bytes [] = []
all_bytes (r ∷ rs) = r.bytes ∷ all_bytes rs

-- What is sent, on which channel.
abbrev pub sends : List Reply → List (ℕ × EchoResponse)
sends [] = []
sends (r ∷ rs) = (r.tx, r.response) ∷ sends rs

abbrev pub is_answered : String → List Reply → Bool
is_answered j [] = false
is_answered j (r ∷ rs) = str_eq r.id j || is_answered j rs

-- No two replies have the same identifier.
abbrev pub AllDistinct : List Reply → Type 0
AllDistinct [] = Unit
AllDistinct (r ∷ rs) = (is_answered r.id rs ≡ false) × AllDistinct rs

-- Every reply's call waits under its identifier.
abbrev pub AllWait : List Reply → Calls → Type 0
AllWait [] s = Unit
AllWait (r ∷ rs) s = (lookup r.id s.pending_requests ≡ some r.tx) × AllWait rs s

module _ (codec : Codec (String × EchoResponse)) where
  abbrev pub AllEncoded : List Reply → Type 0
  AllEncoded [] = Unit
  AllEncoded (r ∷ rs) = (codec.to_vec (r.id, r.response) ≡ some r.bytes) × AllEncoded rs

  still_waits :
      (r : Reply) (rs : List Reply) (s : Calls)
      → lookup r.id s.pending_requests ≡ some r.tx
      → AllWait rs s
      → is_answered r.id rs ≡ false
      → AllWait rs (hand_out r.id r.response s)
  still_waits r [] s h w d = tt
  still_waits r (x ∷ rs) s h (w, ws) d = (
    (hand_out_lem r.id x.id r.tx r.response r.response s h).1
        ∙ ground (arith, eq_iff r.id x.id, eq_iff x.id r.id),
    still_waits r rs s h ws (ground arith),
  )

  accept_all-routes :
      (rs : List Reply) (s : Calls) (j : String)
      → AllEncoded rs
      → AllWait rs s
      → AllDistinct rs
      → let s' = accept_all codec (all_bytes rs) s in
        (s'.sent ≡ s.sent ++ sends rs)
        × (lookup j s'.pending_requests
            ≡ (if is_answered j rs then none else lookup j s.pending_requests))
  accept_all-routes [] s j enc wait dis = (sym (append-nil s.sent), refl)
  accept_all-routes (r ∷ rs) s j (e, enc) (w, wait) (d, dis) =
      let s₁ : Calls = hand_out r.id r.response s in
      let (sent, left, again) = hand_out_lem r.id j r.tx r.response r.response s w in
      let (sent', left') = accept_all-routes rs s₁ j enc (still_waits r rs s w wait d) dis in
      let first : accept_all codec (all_bytes (r ∷ rs)) s ≡ accept_all codec (all_bytes rs) s₁ =
        ap (accept_all codec (all_bytes rs)) (
          accept_lem codec r.bytes r.id r.response s
            (codec.round_trip (r.id, r.response) r.bytes e)) in
      (
        ap Calls.sent first
            ∙ sent'
            ∙ ap (λ t. t ++ sends rs) sent
            ∙ append_assoc s.sent ((r.tx, r.response) ∷ []) (sends rs),
        ap (λ (t : Calls). lookup j t.pending_requests) first
            ∙ left'
            ∙ ap (λ t. if is_answered j rs then none else t) left
            ∙ ground arith,
      )

  -- The eventfd listener, woken with the count of the responses `rs`, sends each of them on the
  -- channel of its own call, in order, and nothing else; after that exactly these calls have left the
  -- map of the pending requests, and the messages `p` behind them are left. The responses have
  -- different identifiers, calls wait for them, and they are not empty and fit in the listener's
  -- buffer.
  pub listen-routes :
      (rs : List Reply) (p : Queue) (l : Listener) (j : String)
      → Holds l.response_buffer (all_bytes rs ++ p)
      → AllFit (length l.response_buf) (all_bytes rs)
      → NoneEmpty (all_bytes rs)
      → AllEncoded rs
      → AllWait rs l.calls
      → AllDistinct rs
      → (l' : Listener) × (listen codec (length (all_bytes rs)) l ≡ ok l')
        × Holds l'.response_buffer p
        × (l'.calls.sent ≡ l.calls.sent ++ sends rs)
        × (lookup j l'.calls.pending_requests
            ≡ (if is_answered j rs then none else lookup j l.calls.pending_requests))
  listen-routes rs p l j h fit ne enc wait dis =
      let (l', run, took) = listen-takes codec (all_bytes rs) p l h fit ne in
      let (sent, left) = accept_all-routes rs l.calls j enc wait dis in
      (
        l',
        run,
        took.left,
        ap Calls.sent took.handed ∙ sent,
        ap (λ (s : Calls). lookup j s.pending_requests) took.handed ∙ left,
      )

  -- The Unix-socket listener, after one byte of notification, sends all responses of the buffer on the
  -- channels of their own calls, in order, and nothing else, in at most one round more than there are
  -- responses; exactly these calls have left the map. The responses have different identifiers, calls
  -- wait for them, and they fit in the listener's buffer.
  pub drain-routes :
      (rs : List Reply) (l : Listener) (fuel : ℕ) (j : String)
      → Holds l.response_buffer (all_bytes rs)
      → AllFit (length l.response_buf) (all_bytes rs)
      → length (all_bytes rs) < fuel
      → AllEncoded rs
      → AllWait rs l.calls
      → AllDistinct rs
      → (l' : Listener) × (drain codec fuel l ≡ some (ok l'))
        × Holds l'.response_buffer []
        × (l'.calls.sent ≡ l.calls.sent ++ sends rs)
        × (lookup j l'.calls.pending_requests
            ≡ (if is_answered j rs then none else lookup j l.calls.pending_requests))
  drain-routes rs l fuel j h fit enough enc wait dis =
      let (l', run, took) = drain-takes codec (all_bytes rs) l fuel h fit enough in
      let (sent, left) = accept_all-routes rs l.calls j enc wait dis in
      (
        l',
        run,
        took.left,
        ap Calls.sent took.handed ∙ sent,
        ap (λ (s : Calls). lookup j s.pending_requests) took.handed ∙ left,
      )
