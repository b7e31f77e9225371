-- ===== src/Mux/Tests.antt =====
-- Two calls that wait, and the responses to them.
use gateway_g_rpc.Prelude.{ℕ, ◌+◌, ◌≡◌, refl, true, false, none, some, List, [], ◌∷◌, arith}
use gateway_g_rpc.Shm.{ok, buffer_full}
use gateway_g_rpc.Proto.{EchoResponse}
use gateway_g_rpc.Ring.{SharedMemoryRingBuffer}
use gateway_g_rpc.Ring.Inv.{Holds}
use gateway_g_rpc.Ring.Write.{written}
use gateway_g_rpc.Ring.Refine.{Holds-written}
use gateway_g_rpc.EventFd.{EventFd}
use gateway_g_rpc.Transport.{Call, done, failed, write_failed}
use gateway_g_rpc.Mux.{
  Calls, Listener, Gateway, lookup, hand_out, listen, drain, start_call, start_call_uds,
}
use gateway_g_rpc.Mux.Pending.{hand_out_lem}
use gateway_g_rpc.Mux.Listen.{Took, listen-takes, drain-takes, listeners-blocked}
use gateway_g_rpc.Mux.Route.{Reply, listen-routes, drain-routes}
use gateway_g_rpc.Mux.Start.{start_call-waits, start_call-leaks, start_call_uds-waits}
use gateway_g_rpc.Samples.{request_codec, response_codec, ring, Holds-ring, ping}
use gateway_g_rpc.Samples.Ids.{with_id}
use gateway_g_rpc.Samples.Kernel.{Table, table_kernel, table}

abbrev response : ℕ → EchoResponse
response n = record { message = ""; timestamp_ns = 0; processing_time_us = n; payload = [] }

abbrev two_calls : Calls
two_calls = record { pending_requests = ("a", 1) ∷ ("b", 2) ∷ []; sent = [] }

handed_out :
    let s' = hand_out "a" (response 5) two_calls in
    (s'.sent ≡ (1, response 5) ∷ [])
    × (lookup "b" s'.pending_requests ≡ some 2)
    × (hand_out "a" (response 6) s' ≡ s')
unfolding lookup
handed_out = hand_out_lem "a" "b" 1 (response 5) (response 6) two_calls refl

abbrev two : List ℕ
two = 1 ∷ 2 ∷ []

abbrev loaded : SharedMemoryRingBuffer
loaded = written ring two

Holds-loaded : Holds loaded (two ∷ [])
Holds-loaded = Holds-written two Holds-ring (omega arith) (omega arith)

abbrev listener : List ℕ → Listener
listener buf = record { response_buffer = loaded; response_buf = buf; calls = two_calls }

abbrev room : List ℕ
room = 0 ∷ 0 ∷ 0 ∷ []

listen_takes_one :
    (l' : Listener) × (listen (with_id response_codec) 1 (listener room) ≡ ok l')
    × Took (with_id response_codec) (listener room) (two ∷ []) [] l'
listen_takes_one =
    listen-takes (with_id response_codec) (two ∷ []) [] (listener room) Holds-loaded (omega arith)
      (omega arith)

drain_takes_one :
    (l' : Listener) × (drain (with_id response_codec) 2 (listener room) ≡ some (ok l'))
    × Took (with_id response_codec) (listener room) (two ∷ []) [] l'
drain_takes_one =
    drain-takes (with_id response_codec) (two ∷ []) (listener room) 2 Holds-loaded (omega arith)
      (omega arith)

-- The response to the call "a", while "b" waits.
abbrev to_a : Reply
to_a = record { id = "a"; tx = 1; response = record (response 1) { payload = two }; bytes = two }

listen-routes_run :
    (l' : Listener) × (listen (with_id response_codec) 1 (listener room) ≡ ok l')
    × Holds l'.response_buffer []
    × (l'.calls.sent ≡ (1, to_a.response) ∷ [])
    × (lookup "b" l'.calls.pending_requests ≡ some 2)
unfolding lookup
listen-routes_run =
    listen-routes (with_id response_codec) (to_a ∷ []) [] (listener room) "b" Holds-loaded
      (omega arith) (omega arith) (refl, tt) (refl, tt) (refl, tt)

drain-routes_example :
    (l' : Listener) × (drain (with_id response_codec) 2 (listener room) ≡ some (ok l'))
    × Holds l'.response_buffer []
    × (l'.calls.sent ≡ (1, to_a.response) ∷ [])
    × (lookup "a" l'.calls.pending_requests ≡ none)
unfolding lookup
drain-routes_example =
    drain-routes (with_id response_codec) (to_a ∷ []) (listener room) 2 "a" Holds-loaded
      (omega arith) (omega arith) (refl, tt) (refl, tt) (refl, tt)

listeners-blocked_run :
    (listen (with_id response_codec) 4 (listener []) ≡ ok (listener []))
    × (drain (with_id response_codec) 4 (listener []) ≡ some (ok (listener [])))
listeners-blocked_run =
    listeners-blocked (with_id response_codec) two [] (listener []) 3 Holds-loaded (omega arith)

abbrev gateway : SharedMemoryRingBuffer → Gateway
gateway buffer = record { request_buffer = buffer; calls = two_calls }

abbrev event : EventFd
event = record { fd = 3 }

abbrev started : Gateway × Table × Call (Unit {0})
started = start_call table_kernel (with_id request_codec) event "a" 7 ping (gateway ring) table

event_waits :
    (started.2 ≡ done tt)
    × Holds started.0.request_buffer (ping.payload ∷ [])
    × (started.1.counters 3 ≡ some (false, 1))
    × (lookup "a" started.0.calls.pending_requests ≡ some 7)
event_waits =
    start_call-waits table_kernel (with_id request_codec) event "a" 7 ping (gateway ring)
      ping.payload table refl Holds-ring 0 false (omega arith) (omega arith) refl (omega arith)

-- Nine bytes that the backend has not read leave no room.
abbrev nine : List ℕ
nine = 0 ∷ 0 ∷ 0 ∷ 0 ∷ 0 ∷ 0 ∷ 0 ∷ 0 ∷ 0 ∷ []

abbrev crowded : Gateway × Table × Call (Unit {0})
crowded =
    start_call table_kernel (with_id request_codec) event "a" 7 ping (gateway (written ring nine))
      table

start_call-leaks_example :
    (crowded.2 ≡ failed (write_failed buffer_full))
    × Holds crowded.0.request_buffer (nine ∷ [])
    × (crowded.1 ≡ table)
    × (lookup "a" crowded.0.calls.pending_requests ≡ some 7)
start_call-leaks_example =
    start_call-leaks table_kernel (with_id request_codec) event "a" 7 ping
      (gateway (written ring nine)) ping.payload table refl
      (Holds-written nine Holds-ring (omega arith) (omega arith)) (omega arith)

-- A socket that counts its bytes.
uds_waits :
    let r =
      start_call_uds
        (λ (n : ℕ). (n + 1, true))
        (with_id request_codec)
        "a"
        7
        ping
        (gateway ring)
        0 in
    Holds r.0.request_buffer (ping.payload ∷ [])
    × (lookup "a" r.0.calls.pending_requests ≡ some 7)
    × (r.1 ≡ 1)
    × (r.2 ≡ done tt)
uds_waits =
    start_call_uds-waits (λ (n : ℕ). (n + 1, true)) (with_id request_codec) "a" 7 ping
      (gateway ring) ping.payload 0 refl Holds-ring (omega arith) (omega arith)
