-- ===== src/System/Starts.antt =====
-- The starts of the calls of the two transports.
use Prim.Native.String.{String}
use gateway_g_rpc.Prelude.{ℕ, ◌≡◌, refl, Bool, true, false, arith, ◌⊎◌, inl, inr, Bool-cases, ◌==◌}
use gateway_g_rpc.Proto.{EchoRequest, EchoResponse, Codec}
use gateway_g_rpc.Ring.{write}
use gateway_g_rpc.EventFd.{EventKernel, EventFd, Sys, returned, errno, eagain, signal_eventfd}
use gateway_g_rpc.Transport.{write_failed, serialize_failed}
use gateway_g_rpc.Mux.{Gateway, notify, start_call, notify_byte, start_call_uds}
use gateway_g_rpc.System.Count.{Started}
use gateway_g_rpc.System.{Put, put, not_put, not_encoded}
use gateway_g_rpc.System.Errors.{Ends, sent, unsignalled, unsent}
use gateway_g_rpc.System.Calls.{entered, IsStart}

Sys-cases : {A : Type 0} (r : Sys A) → ((a : A) × (r ≡ returned a)) ⊎ ((n : ℕ) × (r ≡ errno n))
Sys-cases (returned a) = inl (a, refl)
Sys-cases (errno n) = inr (n, refl)

module _ (os : EventKernel) (request_codec : Codec (String × EchoRequest))
    (response_codec : Codec (String × EchoResponse)) (e : EventFd) (c : Started) (g : Gateway)
    (k : EventKernel.Kernel os) where
  open os use {write8}

  pub start_call-IsStart :
      IsStart
        (EventKernel.Kernel os)
        request_codec
        response_codec
        c
        g
        (start_call os request_codec e c.id c.tx c.request g k).0
  unfolding start_call
  start_call-IsStart = record {
    when_ok = λ bs n enc w. ground (arith, enc, w);
    when_err = λ bs x enc w. ground (arith, enc, w);
    when_unencoded = λ enc. ground (arith, enc);
  }

  notify-Ends : (h : Gateway) → Ends true (notify os request_codec e h k).2
  unfolding signal_eventfd
  notify-Ends h = elim (Sys-cases (write8 e.fd 1 k).1) [
    | inl (v, q) ↦ rw q sent
    | inr (n, q) ↦ elim (Bool-cases (n == eagain)) [
      | inl full ↦ rw (q, full) sent
      | inr other ↦ rw (q, other) unsignalled
    ]
  ]

  -- The start of a call has sent its request or has failed: it never crashes.
  pub start_call-Ends :
      (b : Bool)
      → Put request_codec (c.id, c.request) g.request_buffer b
      → Ends b (start_call os request_codec e c.id c.tx c.request g k).2
  unfolding start_call
  start_call-Ends _ (put bs n enc w) =
      rw (start_call, enc, w)
        (notify-Ends (
          entered (EventKernel.Kernel os) request_codec response_codec c g
            (write g.request_buffer bs).0))
  start_call-Ends _ (not_put bs x enc w) = rw (start_call, enc, w) (unsent (write_failed x))
  start_call-Ends _ (not_encoded enc) = rw (start_call, enc) (unsent serialize_failed)

module _ {S : Type 0} (write_u8 : S → S × Bool) (request_codec : Codec (String × EchoRequest))
    (response_codec : Codec (String × EchoResponse)) (c : Started) (g : Gateway) (k : S) where
  notify_byte-Ends :
      (h : Gateway) (r : S × Bool) → Ends true (notify_byte write_u8 request_codec h r).2
  notify_byte-Ends h (k', true) = sent
  notify_byte-Ends h (k', false) = unsignalled

  pub start_call_uds-Ends :
      (b : Bool)
      → Put request_codec (c.id, c.request) g.request_buffer b
      → Ends b (start_call_uds write_u8 request_codec c.id c.tx c.request g k).2
  unfolding start_call_uds
  start_call_uds-Ends _ (put bs n enc w) =
      rw (start_call_uds, enc, w)
        (notify_byte-Ends (entered S request_codec response_codec c g (write g.request_buffer bs).0)
          (write_u8 k))
  start_call_uds-Ends _ (not_put bs x enc w) = rw (start_call_uds, enc, w) (unsent (write_failed x))
  start_call_uds-Ends _ (not_encoded enc) = rw (start_call_uds, enc) (unsent serialize_failed)

  notify_byte-keeps : (h : Gateway) (r : S × Bool) → (notify_byte write_u8 request_codec h r).0 ≡ h
  notify_byte-keeps h (k', true) = refl
  notify_byte-keeps h (k', false) = refl

  pub start_call_uds-IsStart :
      IsStart S request_codec response_codec c g
        (start_call_uds write_u8 request_codec c.id c.tx c.request g k).0
  unfolding start_call_uds
  start_call_uds-IsStart = record {
    when_ok = λ bs n enc w. ground (
      arith,
      enc,
      w,
      notify_byte-keeps (entered S request_codec response_codec c g (write g.request_buffer bs).0)
          (write_u8 k),
    );
    when_err = λ bs x enc w. ground (arith, enc, w);
    when_unencoded = λ enc. ground (arith, enc);
  }
