-- ===== src/Mux.antt =====
-- gateway/src/shm_transport_eventfd.rs and gateway/src/shm_transport_uds.rs: calls that wait in a map
-- under their request identifiers, and the listeners that hand the responses out.
pub mod Pending
pub mod Listen
pub mod Route
pub mod Start
pub mod Await
mod Tests
use Prim.Native.String.{String}
use text.Mathlib.Text.{◌==◌ as str_eq}
use gateway_g_rpc.Prelude.{
  ℕ, zero, suc, Bool, true, false, Option, none, some, List, [], ◌∷◌, ◌++◌, ◌==◌, if◌then◌else◌,
  take,
}
use gateway_g_rpc.Shm.{Outcome, ok, err, fault}
use gateway_g_rpc.Proto.{EchoRequest, EchoResponse, Codec}
use gateway_g_rpc.Ring.{SharedMemoryRingBuffer, write, read}
use gateway_g_rpc.EventFd.{EventKernel, EventFd, signal_eventfd}
use gateway_g_rpc.Transport.{
  Call, done, failed, crashed, serialize_failed, write_failed, signal_failed,
}

-- The `HashMap` of the pending requests; a sender is the number of its channel.
abbrev pub PendingRequests : Type 0
PendingRequests = List (String × ℕ)

pub lookup : String → PendingRequests → Option ℕ
lookup id [] = none
lookup id ((j, tx) ∷ m) = if str_eq j id then some tx else lookup id m

pub remove : String → PendingRequests → PendingRequests
remove id [] = []
remove id ((j, tx) ∷ m) = if str_eq j id then remove id m else (j, tx) ∷ remove id m

pub insert : String → ℕ → PendingRequests → PendingRequests
unfolding remove
insert id tx m = (id, tx) ∷ remove id m

-- The pending requests, and what has been sent on the channels, in order.
pub record Calls : Type 0 where
  pub pending_requests : PendingRequests
  pub sent : List (ℕ × EchoResponse)

abbrev pub hand_to : Option ℕ → String → EchoResponse → Calls → Calls
hand_to none id response s = s
hand_to (some tx) id response s = record {
  pending_requests = remove id s.pending_requests;
  sent = s.sent ++ ((tx, response) ∷ []);
}

-- `pending.remove(&request_id)` and `tx.send(Ok(response))`; a response with no call is dropped.
pub hand_out : String → EchoResponse → Calls → Calls
unfolding lookup remove
hand_out id response s = hand_to (lookup id s.pending_requests) id response s

-- What a listener owns: the response buffer, and its own buffer of 65536 or 131072 bytes.
pub record Listener : Type 0 where
  pub response_buffer : SharedMemoryRingBuffer
  pub response_buf : List ℕ
  pub calls : Calls

module _ (codec : Codec (String × EchoResponse)) where
  -- A message that cannot be read back is dropped.
  abbrev pub hand_parsed : Option (String × EchoResponse) → Calls → Calls
  hand_parsed none s = s
  hand_parsed (some (id, response)) s = hand_out id response s

  pub accept : List ℕ → Calls → Calls
  unfolding hand_out
  accept bytes s = hand_parsed (codec.from_slice bytes) s

  -- The listener behind a read that has returned `n`.
  abbrev pub received : SharedMemoryRingBuffer → List ℕ → ℕ → Calls → Listener
  received buffer buf n calls = record {
    response_buffer = buffer;
    response_buf = buf;
    calls = accept (take n buf) calls;
  }

  -- `for _ in 0..count` of the eventfd listener: an error and an empty message end the round.
  pub listen : ℕ → Listener → Outcome Listener
  unfolding accept
  listen zero l = ok l
  listen (suc count) l =
      let (buffer, buf, result) = read l.response_buffer l.response_buf in
      elim result [
        | err _ ↦ ok (record l { response_buffer = buffer; response_buf = buf })
        | fault f ↦ fault f
        | ok n ↦
            if n == 0
            then ok (record l { response_buffer = buffer; response_buf = buf })
            else listen count (received buffer buf n l.calls)
      ]

  -- The inner loop of the Unix-socket listener: it reads until an error; `none` if the fuel runs out.
  pub drain : ℕ → Listener → Option (Outcome Listener)
  unfolding accept
  drain zero l = none
  drain (suc fuel) l =
      let (buffer, buf, result) = read l.response_buffer l.response_buf in
      elim result [
        | err _ ↦ some (ok (record l { response_buffer = buffer; response_buf = buf }))
        | fault f ↦ some (fault f)
        | ok n ↦ drain fuel (received buffer buf n l.calls)
      ]

-- What a call shares with the listener and the backend.
pub record Gateway : Type 0 where
  pub request_buffer : SharedMemoryRingBuffer
  pub calls : Calls

module _ (os : EventKernel) (codec : Codec (String × EchoRequest)) where
  open os use {Kernel}

  -- `pending.insert(request_id, tx)`
  abbrev pub enter : String → ℕ → Gateway → Gateway
  enter id tx g = record g {
    calls = record g.calls { pending_requests = insert id tx g.calls.pending_requests };
  }

  -- `Self::signal_eventfd(&self.request_event)?`
  abbrev pub notify : EventFd → Gateway → Kernel → Gateway × Kernel × Call (Unit {0})
  notify e g k = (
    g,
    (signal_eventfd os e k).0,
    elim (signal_eventfd os e k).1 [
      | ok _ ↦ done tt
      | err _ ↦ failed signal_failed
      | fault f ↦ crashed f
    ],
  )

  -- `call` of `ShmTransportEventfd` up to `rx.await`, with the identifier and the channel that it has
  -- made.
  unfoldable pub start_call :
      EventFd → String → ℕ → EchoRequest → Gateway → Kernel → Gateway × Kernel × Call (Unit {0})
  unfolding insert
  start_call e id tx request g k =
      let g' = enter id tx g in
      elim (codec.to_vec (id, request)) [
        | none ↦ (g', k, failed serialize_failed)
        | some payload ↦
            let (buffer, result) = write g'.request_buffer payload in
            elim result [
              | err x ↦ (record g' { request_buffer = buffer }, k, failed (write_failed x))
              | fault f ↦ (record g' { request_buffer = buffer }, k, crashed f)
              | ok _ ↦ notify e (record g' { request_buffer = buffer }) k
            ]
      ]

-- The same of `ShmTransportUds`, over a socket: `write_u8` is `notify.write_u8(1)` with `flush`, and
-- says whether they succeed.
module _ {S : Type 0} (write_u8 : S → S × Bool) (codec : Codec (String × EchoRequest)) where
  abbrev pub notify_byte : Gateway → S × Bool → Gateway × S × Call (Unit {0})
  notify_byte g (k, true) = (g, k, done tt)
  notify_byte g (k, false) = (g, k, failed signal_failed)

  unfoldable pub start_call_uds :
      String → ℕ → EchoRequest → Gateway → S → Gateway × S × Call (Unit {0})
  unfolding insert
  start_call_uds id tx request g k =
      let g' : Gateway = record g {
        calls = record g.calls { pending_requests = insert id tx g.calls.pending_requests };
      } in
      elim (codec.to_vec (id, request)) [
        | none ↦ (g', k, failed serialize_failed)
        | some payload ↦
            let (buffer, result) = write g'.request_buffer payload in
            elim result [
              | err x ↦ (record g' { request_buffer = buffer }, k, failed (write_failed x))
              | fault f ↦ (record g' { request_buffer = buffer }, k, crashed f)
              | ok _ ↦ notify_byte (record g' { request_buffer = buffer }) (write_u8 k)
            ]
      ]
