-- ===== src/System/Inv.antt =====
-- Where the calls of the system are: in the request buffer, in a task, in the response buffer, or
-- answered; each in one place.
use Prim.Native.String.{String}
use text.Mathlib.Text.{◌==◌ as str_eq}
use mathlib.Core.List.{Memᴰ}
use gateway_g_rpc.Prelude.{ℕ, ◌+◌, ◌≤◌, ◌≡◌, refl, ap, Bool, some, List, [], ◌∷◌, ◌++◌, arith}
use gateway_g_rpc.Proto.{EchoRequest, EchoResponse, Codec}
use gateway_g_rpc.Ring.Inv.{Holds}
use gateway_g_rpc.Mux.{PendingRequests, lookup}
use gateway_g_rpc.Mux.Route.{all_bytes, sends}
use gateway_g_rpc.InFlight.{Planned, response_of, replies, request_queue, tasks_of}
use gateway_g_rpc.System.{System}
use gateway_g_rpc.System.Count.{Started, has_id, has_tx, count, Every}

abbrev pub started : Planned → Started
started p = record { id = p.id; tx = p.tx; request = p.request }

abbrev pub starts : List Planned → List Started
starts [] = []
starts (p ∷ ps) = started p ∷ starts ps

abbrev pub is_id : String → String → Bool
is_id j id = str_eq id j

pub request_queue-append :
    (ps qs : List Planned) → request_queue (ps ++ qs) ≡ request_queue ps ++ request_queue qs
request_queue-append [] qs = refl
request_queue-append (p ∷ ps) qs = ap (λ q. p.request_bytes ∷ q) (request_queue-append ps qs)

pub all_bytes-append :
    (ps qs : List Planned)
    → all_bytes (replies (ps ++ qs)) ≡ all_bytes (replies ps) ++ all_bytes (replies qs)
all_bytes-append [] qs = refl
all_bytes-append (p ∷ ps) qs = ap (λ q. p.response_bytes ∷ q) (all_bytes-append ps qs)

pub sends-append :
    (ps qs : List Planned) → sends (replies (ps ++ qs)) ≡ sends (replies ps) ++ sends (replies qs)
sends-append [] qs = refl
sends-append (p ∷ ps) qs = ap (λ q. (p.tx, response_of p) ∷ q) (sends-append ps qs)

pub tasks_of-append : (ps qs : List Planned) → tasks_of (ps ++ qs) ≡ tasks_of ps ++ tasks_of qs
tasks_of-append [] qs = refl
tasks_of-append (p ∷ ps) qs = ap (λ q. (p.id, p.request) ∷ q) (tasks_of-append ps qs)

-- How many of the calls have the identifier `j`.
abbrev pub count_of : String → List Planned → ℕ
count_of j ps = count (has_id j) (starts ps)

pub count_of-append :
    (j : String) (ps qs : List Planned) → count_of j (ps ++ qs) ≡ count_of j ps + count_of j qs
unfolding count
count_of-append j [] qs = omega arith
count_of-append j (p ∷ ps) qs = ground (arith, count_of-append j ps qs)

pub starts-member : (p : Planned) (ps : List Planned) → Memᴰ p ps → Memᴰ (started p) (starts ps)
starts-member p [] m = elim m [ ]
starts-member p (q ∷ ps) (Memᴰ.head e) = Memᴰ.head (ap started e)
starts-member p (q ∷ ps) (Memᴰ.tail m) = Memᴰ.tail (starts-member p ps m)

-- A call waits under its identifier, and has been made.
abbrev pub Waits : PendingRequests → List Started → Planned → Type 0
Waits m history p = (lookup p.id m ≡ some p.tx) × Memᴰ (started p) history

module _ (K : Type 0) (request_codec : Codec (String × EchoRequest))
    (response_codec : Codec (String × EchoResponse)) where
  abbrev pub IsQueued : PendingRequests → List Started → Planned → Type 0
  IsQueued m history p =
      (request_codec.to_vec (p.id, p.request) ≡ some p.request_bytes) × Waits m history p

  abbrev pub IsAnswered : PendingRequests → List Started → Planned → Type 0
  IsAnswered m history p =
      (response_codec.to_vec (p.id, response_of p) ≡ some p.response_bytes) × Waits m history p

  abbrev pub IsMade : List Started → Planned → Type 0
  IsMade history p = Memᴰ (started p) history

  pub record Inv (s : System K) : Type 0 where
    pub queued : List Planned
    pub running : List Planned
    pub answered : List Planned
    pub delivered : List Planned
    pub requests : Holds s.gateway.request_buffer (request_queue queued)
    pub responses : Holds s.response_buffer (all_bytes (replies answered))
    pub tasks : s.tasks ≡ tasks_of running
    pub sent : s.gateway.calls.sent ≡ sends (replies delivered)
    pub all_queued : Every (IsQueued s.gateway.calls.pending_requests s.history) queued
    pub all_running : Every (Waits s.gateway.calls.pending_requests s.history) running
    pub all_answered : Every (IsAnswered s.gateway.calls.pending_requests s.history) answered
    pub all_made : Every (IsMade s.history) delivered
    pub conserved :
        (j : String)
        → count_of j queued
            + count_of j running
            + count_of j answered
            + count_of j delivered
            + count (is_id j) s.lost
          ≡ count (has_id j) s.history
    pub unique_ids : (j : String) → count (has_id j) s.history ≤ 1
    pub unique_txs : (t : ℕ) → count (has_tx t) s.history ≤ 1
