-- ===== src/Grpc/Counted.antt =====
-- What the gateway and the backend count of requests that go over gRPC.
use gateway_g_rpc.Prelude.{ℕ, ◌+◌, ◌≤◌, ◌≡◌, inl, inr, ap, sym, List, [], ◌∷◌, arith, Option-cases}
use gateway_g_rpc.Proto.{EchoRequest, EchoResponse}
use gateway_g_rpc.Backend.{Reading, BackendMetrics, echo_response}
use gateway_g_rpc.Backend
use gateway_g_rpc.Http.{Libraries, HttpRequest, Counters, answered, echo_request, handle_request}
use gateway_g_rpc.Http.Status.{Answer-cases}
use gateway_g_rpc.Grpc.{Tonic, handle_grpc, handle_all_grpc}

-- `echo` of the service by what the clock shows, and what it has counted when it is dropped at its
-- `sleep`.
abbrev pub echo_handler : Reading → BackendMetrics → EchoRequest → BackendMetrics × EchoResponse
echo_handler t metrics request = Backend.echo metrics t request

abbrev pub begin_echo : BackendMetrics → BackendMetrics
begin_echo metrics = record metrics { request_counter = metrics.request_counter + 1 }

module _ (tonic : Tonic BackendMetrics begin_echo echo_handler) where
  open tonic use {World, Channel, Status, echo, service, echo-answered, echo-refused, reading}

  -- What the gateway has counted since `(c, w)`, against what the backend has.
  abbrev pub Between : Counters × World → Counters × World → Type 0
  Between (c, w) (c', w') =
      (c'.grpc_request_durations + (service w).request_counter
        ≤ (service w').request_counter + c.grpc_request_durations)
      × ((service w').request_counter + c.grpc_requests_total
          ≤ c'.grpc_requests_total + (service w).request_counter)
      × ((service w').request_durations + (service w).request_counter
          ≤ (service w').request_counter + (service w).request_durations)

  module _ (lib : Libraries Status) (channel : Channel) where
    -- The counters after a call that is answered: the handler has run once, to its end.
    pub echo-counts :
        (r : EchoRequest) (w : World) (response : EchoResponse)
        → (echo channel r w).1 ≡ answered response
        → service (echo channel r w).0 ≡ record {
          request_counter = (service w).request_counter + 1;
          request_durations = (service w).request_durations + 1;
        }
    unfolding Backend.echo
    echo-counts r w response h =
        sym (ap (λ (q : BackendMetrics × EchoResponse). q.0) (echo-answered channel r w response h))

    -- One request: without a body nothing has happened; a call that is answered has run the handler,
    -- and one that fails has run none, a part, or all of it.
    handle_grpc-Between :
        (req : HttpRequest) (elapsed : ℕ) (c : Counters) (w : World)
        → Between (c, w) (handle_grpc tonic lib (echo channel) req elapsed (c, w)).0
    unfolding handle_request Backend.echo
    handle_grpc-Between req elapsed c w = elim (Option-cases req.body) [
      | inl gone ↦ rw gone (omega arith, omega arith, omega arith)
      | inr (bytes, here) ↦
          let r = echo_request lib req.path bytes elapsed in
          elim (Answer-cases lib (echo channel r w).1) [
            | inl (response, h) ↦
                rw (here, h, echo-counts r w response h) (omega arith, omega arith, omega arith)
            | inr (e, h) ↦ elim (echo-refused channel r w e h) [
              | inl kept ↦ rw (here, h, kept) (omega arith, omega arith, omega arith)
              | inr (inl begun) ↦ rw (here, h, begun) (omega arith, omega arith, omega arith)
              | inr (inr handled) ↦ rw (here, h, handled) (omega arith, omega arith, omega arith)
            ]
          ]
    ]

    -- Over any run of HTTP requests that go over a gRPC transport, the backend has counted at least
    -- the requests whose duration the gateway has recorded, and at most those that the gateway has
    -- counted as gRPC requests; and the backend has recorded the duration of no more requests than it
    -- has counted.
    pub handle_all_grpc-Between :
        (reqs : List (HttpRequest × ℕ)) (c : Counters) (w : World)
        → Between (c, w) (handle_all_grpc tonic lib (echo channel) reqs (c, w)).0
    unfolding handle_all_grpc
    handle_all_grpc-Between [] c w = (omega arith, omega arith, omega arith)
    handle_all_grpc-Between ((req, elapsed) ∷ reqs) c w =
        let (c', w') = (handle_grpc tonic lib (echo channel) req elapsed (c, w)).0 in
        let (a, b, d) = handle_grpc-Between req elapsed c w in
        let (a', b', d') = handle_all_grpc-Between reqs c' w' in
        (omega arith, omega arith, omega arith)
