-- ===== src/InFlight/Starts.antt =====
-- What the starts of many calls leave: the requests in order, and every call waiting.
use Prim.Native.String.{String}
use text.Mathlib.TextEquality.{eq_iff}
use gateway_g_rpc.Prelude.{
  ℕ, ◌+◌, ◌≡◌, refl, sym, ap, ◌∙◌, Bool, false, some, List, [], ◌∷◌, ◌++◌, arith, ltb,
  if◌then◌else◌, append_assoc, append-nil,
}
use gateway_g_rpc.Proto.{EchoRequest, Codec}
use gateway_g_rpc.Queue.{Queue}
use gateway_g_rpc.Ring.Inv.{Holds}
use gateway_g_rpc.Ring.Write.{written}
use gateway_g_rpc.Ring.Refine.{Holds-written}
use gateway_g_rpc.Ring.Several.{written_all, AllRoom}
use gateway_g_rpc.EventFd.{EventKernel, EventFd, signal_eventfd, counter_max}
use gateway_g_rpc.EventFd.Laws.{signal_eventfd_lem}
use gateway_g_rpc.Transport.{Call, done}
use gateway_g_rpc.Mux.{Gateway, Calls, PendingRequests, lookup, insert}
use gateway_g_rpc.Mux.Pending.{lookup-insert}
use gateway_g_rpc.Mux.Route.{AllDistinct, AllWait, is_answered}
use gateway_g_rpc.Mux.Start.{start_call-sent}
use gateway_g_rpc.Server.{spawn}
use gateway_g_rpc.Server.Batch.{spawn_all}
use gateway_g_rpc.InFlight.{Planned, replies, request_queue, tasks_of, start_all}

abbrev pub entered_all : List Planned → PendingRequests → PendingRequests
entered_all [] m = m
entered_all (p ∷ ps) m = entered_all ps (insert p.id p.tx m)

-- Every start has succeeded.
abbrev pub AllDone : List (Call (Unit {0})) → Type 0
AllDone [] = Unit
AllDone (r ∷ rs) = (r ≡ done tt) × AllDone rs

-- The entries of other calls stay.
lookup-entered_all :
    (j : String) (ps : List Planned) (m : PendingRequests)
    → is_answered j (replies ps) ≡ false
    → lookup j (entered_all ps m) ≡ lookup j m
lookup-entered_all j [] m h = refl
lookup-entered_all j (p ∷ ps) m h =
    lookup-entered_all j ps (insert p.id p.tx m) (ground arith)
    ∙ lookup-insert j p.id p.tx m
    ∙ ground (arith, h)

-- Calls with different identifiers all wait.
pub entered_all-AllWait :
    (ps : List Planned) (m : PendingRequests) (s : Calls)
    → AllDistinct (replies ps)
    → s.pending_requests ≡ entered_all ps m
    → AllWait (replies ps) s
entered_all-AllWait [] m s d e = tt
entered_all-AllWait (p ∷ ps) m s (d, dis) e = (
  ap (lookup p.id) e
      ∙ lookup-entered_all p.id ps (insert p.id p.tx m) d
      ∙ lookup-insert p.id p.id p.tx m
      ∙ ap (λ (b : Bool). if b then some p.tx else lookup p.id m) ((eq_iff p.id p.id).1 refl),
  entered_all-AllWait ps (insert p.id p.tx m) s dis e,
)

module _ (codec : Codec (String × EchoRequest)) where
  abbrev pub AllRequests : List Planned → Type 0
  AllRequests [] = Unit
  AllRequests (p ∷ ps) = (codec.to_vec (p.id, p.request) ≡ some p.request_bytes) × AllRequests ps

  pub spawn_all-tasks :
      (ps : List Planned) (tasks : List (String × EchoRequest))
      → AllRequests ps
      → spawn_all codec (request_queue ps) tasks ≡ tasks ++ tasks_of ps
  spawn_all-tasks [] tasks enc = sym (append-nil tasks)
  spawn_all-tasks (p ∷ ps) tasks (e, enc) =
      ap (λ t. spawn_all codec (request_queue ps) (spawn codec t tasks))
        (codec.round_trip (p.id, p.request) p.request_bytes e)
      ∙ spawn_all-tasks ps (tasks ++ ((p.id, p.request) ∷ [])) enc
      ∙ append_assoc tasks ((p.id, p.request) ∷ []) (tasks_of ps)

  module _ (os : EventKernel) (e : EventFd) where
    open os use {Kernel, counter}

    -- What the starts leave.
    pub record Started (ps : List Planned) (g : Gateway)
        (r : Gateway × Kernel × List (Call (Unit {0}))) : Type 0 where
      pub buffer : r.0.request_buffer ≡ written_all g.request_buffer (request_queue ps)
      pub waiting_calls : r.0.calls.pending_requests ≡ entered_all ps g.calls.pending_requests
      pub unsent : r.0.calls.sent ≡ g.calls.sent
      pub all_done : AllDone r.2

    pub start_all-Started :
        (ps : List Planned) (g : Gateway) (q : Queue) (k : Kernel) (c : ℕ) (semaphore : Bool)
        → Holds g.request_buffer q
        → AllRoom g.request_buffer q (request_queue ps)
        → AllRequests ps
        → counter k e.fd ≡ some (semaphore, c)
        → Started ps g (start_all os codec e ps g k)
    unfolding start_all
    start_all-Started [] g q k c semaphore h room enc opened = record {
      buffer = refl;
      waiting_calls = refl;
      unsent = refl;
      all_done = tt;
    }
    start_all-Started (p ∷ ps) g q k c semaphore h (fits, prefix, room) (e', enc) opened =
        let signalled = signal_eventfd_lem os e k c semaphore opened in
        let g' : Gateway = record {
          request_buffer = written g.request_buffer p.request_bytes;
          calls = record g.calls { pending_requests = insert p.id p.tx g.calls.pending_requests };
        } in
        let rest : Started ps g' (start_all os codec e ps g' (signal_eventfd os e k).0) =
          start_all-Started ps g' (q ++ (p.request_bytes ∷ [])) (signal_eventfd os e k).0
            (if ltb c counter_max then c + 1 else c) semaphore
            (Holds-written p.request_bytes h fits prefix) room enc signalled.1 in
        rw
          (start_call-sent os codec e p.id p.tx p.request g p.request_bytes k e' h fits prefix
            signalled.0)
          (record {
            buffer = rest.buffer;
            waiting_calls = rest.waiting_calls;
            unsent = rest.unsent;
            all_done = (refl, rest.all_done);
          })
