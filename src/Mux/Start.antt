-- ===== src/Mux/Start.antt =====
-- What a call leaves behind when it starts to wait, and when it fails.
use Prim.Native.String.{String}
use text.Mathlib.TextEquality.{eq_iff}
use gateway_g_rpc.Prelude.{
  ℕ, ◌+◌, ◌≤◌, ◌<◌, ◌≡◌, refl, ap, sym, subst, ◌∙◌, Bool, true, false, some, List, [], ◌∷◌, ◌++◌,
  arith, length, if◌then◌else◌, lt→ltb,
}
use gateway_g_rpc.Shm.{ok, buffer_full}
use gateway_g_rpc.Proto.{EchoRequest, Codec}
use gateway_g_rpc.Queue.{Queue, size}
use gateway_g_rpc.Ring.{SharedMemoryRingBuffer}
use gateway_g_rpc.Ring.Inv.{Holds}
use gateway_g_rpc.Ring.Write.{written, write-full}
use gateway_g_rpc.Ring.Refine.{PrefixFits, write-ok, Holds-written, used-eq-size}
use gateway_g_rpc.EventFd.{EventKernel, EventFd, signal_eventfd, counter_max}
use gateway_g_rpc.EventFd.Laws.{signal_eventfd_lem}
use gateway_g_rpc.Transport.{Call, done, failed, write_failed, signal_failed}
use gateway_g_rpc.Mux.{lookup, insert, enter, Gateway, start_call, notify_byte, start_call_uds}
use gateway_g_rpc.Mux.Pending.{lookup-insert}

pub lookup-entered :
    (id : String) (tx : ℕ) (g : Gateway)
    → lookup id (insert id tx g.calls.pending_requests) ≡ some tx
lookup-entered id tx g =
    lookup-insert id id tx g.calls.pending_requests
    ∙ ap (λ (b : Bool). if b then some tx else lookup id g.calls.pending_requests)
        ((eq_iff id id).1 refl)

module _ (os : EventKernel) (codec : Codec (String × EchoRequest)) (e : EventFd) (id : String)
    (tx : ℕ) (request : EchoRequest) (g : Gateway) {q : Queue} (bs : List ℕ)
    (k : EventKernel.Kernel os) (encoded : codec.to_vec (id, request) ≡ some bs)
    (holds : Holds g.request_buffer q) where
  abbrev g' : Gateway
  g' = (start_call os codec e id tx request g k).0

  abbrev k' : EventKernel.Kernel os
  k' = (start_call os codec e id tx request g k).1

  -- The gateway with the call in its map, and another request buffer.
  abbrev pub entered : SharedMemoryRingBuffer → Gateway
  entered buffer = record (enter os codec id tx g) { request_buffer = buffer }

  pub start_call-sent :
      size q + (4 + length bs) < g.request_buffer.header.capacity
      → PrefixFits g.request_buffer
      → (signal_eventfd os e k).1 ≡ ok tt
      → start_call os codec e id tx request g k
        ≡ (entered (written g.request_buffer bs), (signal_eventfd os e k).0, done tt)
  unfolding start_call
  start_call-sent room fits signalled = ground (arith, encoded, write-ok bs holds room fits)

  start_call-full :
      g.request_buffer.header.capacity ≤ size q + (4 + length bs)
      → start_call os codec e id tx request g k
        ≡ (entered g.request_buffer, k, failed (write_failed buffer_full))
  unfolding start_call
  start_call-full full = ground (
    arith,
    encoded,
    write-full holds.valid bs (codec.slice (id, request) bs encoded)
        (omega (arith, used-eq-size holds)),
  )

  -- A call whose request fits in the buffer, with a length prefix that does not reach past its end,
  -- waits under its identifier; the request is the newest message of the buffer, and the backend's
  -- event counter, if it is open and not full, has gone up by one.
  pub start_call-waits :
      (c : ℕ) (semaphore : Bool)
      → size q + (4 + length bs) < g.request_buffer.header.capacity
      → PrefixFits g.request_buffer
      → os.counter k e.fd ≡ some (semaphore, c)
      → c < counter_max
      → ((start_call os codec e id tx request g k).2 ≡ done tt)
        × Holds g'.request_buffer (q ++ (bs ∷ []))
        × (os.counter k' e.fd ≡ some (semaphore, c + 1))
        × (lookup id g'.calls.pending_requests ≡ some tx)
  start_call-waits c semaphore room fits open_counter below =
      let (signalled, counted) = signal_eventfd_lem os e k c semaphore open_counter in
      subst
        (λ (r : Gateway × EventKernel.Kernel os × Call (Unit {0})).
          (r.2 ≡ done tt)
          × Holds r.0.request_buffer (q ++ (bs ∷ []))
          × (os.counter r.1 e.fd ≡ some (semaphore, c + 1))
          × (lookup id r.0.calls.pending_requests ≡ some tx))
        (sym (start_call-sent room fits signalled))
        (
          refl,
          Holds-written bs holds room fits,
          counted
              ∙ ap (λ (b : Bool). some (semaphore, if b then c + 1 else c))
                  (lt→ltb c counter_max below),
          lookup-entered id tx g,
        )

  -- A call that finds the request buffer full fails, but what it has put into the map of the pending
  -- requests stays there; the buffer and the event counter are as before.
  pub start_call-leaks :
      g.request_buffer.header.capacity ≤ size q + (4 + length bs)
      → ((start_call os codec e id tx request g k).2 ≡ failed (write_failed buffer_full))
        × Holds g'.request_buffer q
        × (k' ≡ k)
        × (lookup id g'.calls.pending_requests ≡ some tx)
  start_call-leaks full =
      subst
        (λ (r : Gateway × EventKernel.Kernel os × Call (Unit {0})).
          (r.2 ≡ failed (write_failed buffer_full))
          × Holds r.0.request_buffer q
          × (r.1 ≡ k)
          × (lookup id r.0.calls.pending_requests ≡ some tx))
        (sym (start_call-full full)) (refl, holds, refl, lookup-entered id tx g)

module _ {S : Type 0} (write_u8 : S → S × Bool) (codec : Codec (String × EchoRequest)) (id : String)
    (tx : ℕ) (request : EchoRequest) (g : Gateway) {q : Queue} (bs : List ℕ) (k : S)
    (encoded : codec.to_vec (id, request) ≡ some bs) (holds : Holds g.request_buffer q) where
  -- The gateway with the call in its map, and the request in its buffer.
  abbrev pub entered_uds : Gateway
  entered_uds = record {
    request_buffer = written g.request_buffer bs;
    calls = record g.calls { pending_requests = insert id tx g.calls.pending_requests };
  }

  pub start_call_uds-sent :
      size q + (4 + length bs) < g.request_buffer.header.capacity
      → PrefixFits g.request_buffer
      → start_call_uds write_u8 codec id tx request g k
        ≡ notify_byte write_u8 codec entered_uds (write_u8 k)
  unfolding start_call_uds
  start_call_uds-sent room fits = ground (arith, encoded, write-ok bs holds room fits)

  notified :
      (r : S × Bool)
      → Holds entered_uds.request_buffer (q ++ (bs ∷ []))
      → let n = notify_byte write_u8 codec entered_uds r in
        Holds n.0.request_buffer (q ++ (bs ∷ []))
        × (lookup id n.0.calls.pending_requests ≡ some tx)
        × (n.1 ≡ r.0)
        × (n.2 ≡ (if r.1 then done tt else failed signal_failed))
  notified (left, true) h = (h, lookup-entered id tx g, refl, refl)
  notified (left, false) h = (h, lookup-entered id tx g, refl, refl)

  -- A call of the Unix-socket transport whose request fits in the buffer, with a length prefix that
  -- does not reach past its end, leaves the request as the newest message and waits under its
  -- identifier. It writes one byte of notification: if that fails, so does the call, and yet the
  -- request stays in the buffer and the call in the map.
  pub start_call_uds-waits :
      size q + (4 + length bs) < g.request_buffer.header.capacity
      → PrefixFits g.request_buffer
      → let r = start_call_uds write_u8 codec id tx request g k in
        Holds r.0.request_buffer (q ++ (bs ∷ []))
        × (lookup id r.0.calls.pending_requests ≡ some tx)
        × (r.1 ≡ (write_u8 k).0)
        × (r.2 ≡ (if (write_u8 k).1 then done tt else failed signal_failed))
  start_call_uds-waits room fits =
      subst
        (λ (r : Gateway × S × Call (Unit {0})).
          Holds r.0.request_buffer (q ++ (bs ∷ []))
          × (lookup id r.0.calls.pending_requests ≡ some tx)
          × (r.1 ≡ (write_u8 k).0)
          × (r.2 ≡ (if (write_u8 k).1 then done tt else failed signal_failed)))
        (sym (start_call_uds-sent room fits))
        (notified (write_u8 k) (Holds-written bs holds room fits))
