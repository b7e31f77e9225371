-- ===== src/MuxTrip/Tests.antt =====
-- One call over two rings of 16 bytes, while another call waits.
use gateway_g_rpc.Prelude.{ℕ, ◌≡◌, refl, false, some, List, [], ◌∷◌, arith}
use gateway_g_rpc.EventFd.{EventFd}
use gateway_g_rpc.Mux.{Calls, Gateway, Listener, listen, start_call}
use gateway_g_rpc.Mux.Await.{find_sent, await_call}
use gateway_g_rpc.Transport.{waiting, done}
use gateway_g_rpc.Shm.{ok}
use gateway_g_rpc.Server.{task_response, run_task, signal_gateway}
use gateway_g_rpc.MuxTrip.{Delivered, event_call-Delivered, event_call-completes}
use gateway_g_rpc.Trip.{Exchange}
use gateway_g_rpc.Samples.{request_codec, response_codec_of, ring, Holds-ring, ping}
use gateway_g_rpc.Samples.Ids.{with_id}
use gateway_g_rpc.Samples.Kernel.{Table, put, table_kernel, table}

abbrev request_event : EventFd
request_event = record { fd = 3 }

abbrev response_event : EventFd
response_event = record { fd = 6 }

abbrev kernel : Table
kernel = put table 6 (some (false, 0))

abbrev buf : List ℕ
buf = 0 ∷ 0 ∷ 0 ∷ 0 ∷ []

abbrev exchange :
    Exchange (with_id request_codec) (with_id (response_codec_of 0)) "a" ping 0 ring ring buf buf
exchange = record {
  request_bytes = ping.payload;
  response_bytes = ping.payload;
  request_encoded = refl;
  response_encoded = refl;
  request_empty = Holds-ring;
  response_empty = Holds-ring;
  request_fits = omega arith;
  response_fits = omega arith;
  request_some = omega arith;
  response_some = omega arith;
  request_short = omega arith;
  response_short = omega arith;
  request_prefix = omega arith;
  response_prefix = omega arith;
}

abbrev calls : Calls
calls = record { pending_requests = ("b", 2) ∷ []; sent = [] }

abbrev gateway : Gateway
gateway = record { request_buffer = ring; calls = calls }

delivered :
    let started =
      start_call table_kernel (with_id request_codec) request_event "a" 7 ping gateway kernel in
    Delivered table_kernel
      (with_id request_codec)
      (with_id (response_codec_of 0))
      "a"
      7
      ping
      0
      gateway
      buf
      buf
      started
      (run_task
        (signal_gateway table_kernel response_event)
        (with_id (response_codec_of 0))
        0
        ("a", ping)
        ring
        started.1)
delivered =
    event_call-Delivered table_kernel (with_id request_codec) (with_id (response_codec_of 0)) "a" 7
      ping 0 exchange request_event response_event calls kernel 0 false refl

event_call-completes_run :
    let started =
      start_call table_kernel (with_id request_codec) request_event "a" 7 ping gateway kernel in
    let finished =
      run_task
        (signal_gateway table_kernel response_event)
        (with_id (response_codec_of 0))
        0
        ("a", ping)
        ring
        started.1 in
    (await_call 7 started.0.calls ≡ waiting)
    × (heard : Listener) × (listen
          (with_id (response_codec_of 0))
          1
          (record { response_buffer = finished.0; response_buf = buf; calls = started.0.calls })
        ≡ ok heard)
    × (await_call 7 heard.calls ≡ done (task_response 0 ping))
unfolding find_sent
event_call-completes_run =
    event_call-completes table_kernel (with_id request_codec) (with_id (response_codec_of 0)) "a" 7
      ping 0 exchange request_event response_event calls kernel 0 false refl refl
