-- ===== src/InFlight/Tests.antt =====
-- Two calls over two rings of 16 bytes; the task of the second call runs first.
use mathlib.Core.List.{Memᴰ}
use gateway_g_rpc.Prelude.{ℕ, refl, false, some, List, [], ◌∷◌, arith}
use gateway_g_rpc.Proto.{EchoRequest}
use gateway_g_rpc.EventFd.{EventFd}
use gateway_g_rpc.Mux.{Gateway}
use gateway_g_rpc.Mux.Await.{find_sent}
use gateway_g_rpc.Server.{signal_gateway}
use gateway_g_rpc.InFlight.{Planned, start_all, run_all}
use gateway_g_rpc.InFlight.Completes.{Flights, Landed, event_calls-Landed}
use gateway_g_rpc.Samples.{request_codec, response_codec_of, ring, Holds-ring}
use gateway_g_rpc.Samples.Ids.{with_ab}
use gateway_g_rpc.Samples.Kernel.{Table, put, table_kernel, table}

abbrev request_of : List ℕ → EchoRequest
request_of payload = record { message = ""; timestamp_ns = 0; payload = payload }

abbrev first : Planned
first = record {
  id = "a";
  tx = 0;
  request = request_of (7 ∷ 8 ∷ []);
  processing = 0;
  request_bytes = 1 ∷ 7 ∷ 8 ∷ [];
  response_bytes = 1 ∷ 7 ∷ 8 ∷ [];
}

abbrev second : Planned
second = record {
  id = "b";
  tx = 1;
  request = request_of (9 ∷ 10 ∷ []);
  processing = 0;
  request_bytes = 2 ∷ 9 ∷ 10 ∷ [];
  response_bytes = 2 ∷ 9 ∷ 10 ∷ [];
}

abbrev calls : List Planned
calls = first ∷ second ∷ []

abbrev finished : List Planned
finished = second ∷ first ∷ []

abbrev gateway : Gateway
gateway = record { request_buffer = ring; calls = record { pending_requests = []; sent = [] } }

abbrev buf : List ℕ
buf = 0 ∷ 0 ∷ 0 ∷ 0 ∷ []

abbrev request_event : EventFd
request_event = record { fd = 3 }

abbrev response_event : EventFd
response_event = record { fd = 6 }

abbrev kernel : Table
kernel = put table 6 (some (false, 0))

abbrev flights :
    Flights
      (with_ab request_codec)
      (with_ab (response_codec_of 0))
      calls
      finished
      gateway
      ring
      buf
      buf
unfolding find_sent
flights = record {
  requests_encoded = (refl, (refl, tt));
  responses_encoded = (refl, (refl, tt));
  request_empty = Holds-ring;
  response_empty = Holds-ring;
  request_room = (omega arith, omega arith, (omega arith, omega arith, tt));
  response_room = (omega arith, omega arith, (omega arith, omega arith, tt));
  requests_some = (omega arith, (omega arith, tt));
  responses_some = (omega arith, (omega arith, tt));
  requests_short = (omega arith, (omega arith, tt));
  responses_short = (omega arith, (omega arith, tt));
  distinct = (refl, (refl, tt));
  finished_distinct = (refl, (refl, tt));
  among = (Memᴰ.tail (Memᴰ.head refl), (Memᴰ.head refl, tt));
  fresh = (refl, (refl, tt));
}

event_calls-Landed_example :
    let started =
      start_all table_kernel (with_ab request_codec) request_event calls gateway kernel in
    Landed table_kernel
      (with_ab request_codec)
      (with_ab (response_codec_of 0))
      calls
      finished
      buf
      buf
      started
      (run_all
        (signal_gateway table_kernel response_event)
        (with_ab (response_codec_of 0))
        finished
        ring
        started.1)
event_calls-Landed_example =
    event_calls-Landed table_kernel (with_ab request_codec) (with_ab (response_codec_of 0))
      request_event response_event calls finished gateway ring buf buf kernel 0 false flights refl
