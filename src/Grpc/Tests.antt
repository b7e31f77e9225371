-- ===== src/Grpc/Tests.antt =====
-- A client of tonic over a service that is up or dropped in the middle of a request.
use gateway_g_rpc.Prelude.{
  ℕ, ◌+◌, ◌≤◌, ◌≡◌, refl, subst, ◌⊎◌, inl, inr, Bool, true, false, Option, none, some, List, [],
  ◌∷◌, arith, min,
}
use gateway_g_rpc.Proto.{EchoRequest, EchoResponse}
use gateway_g_rpc.Backend.{Reading, BackendMetrics, echo_response}
use gateway_g_rpc.Backend
use gateway_g_rpc.Samples.Json.{json}
use gateway_g_rpc.Http.{Libraries, HttpRequest, Counters, Answer, answered, refused}
use gateway_g_rpc.Grpc.{Tonic, new_tcp, from_secs, handle_all_grpc}
use gateway_g_rpc.Grpc.Counted.{echo_handler, begin_echo, handle_all_grpc-Between, Between}
use gateway_g_rpc.Grpc.InTime.{new-Limits}
use gateway_g_rpc.Samples.{reading}

record Service : Type 0 where
  time : ℕ
  up : Bool
  metrics : BackendMetrics

record Limits : Type 0 where
  request : Option ℕ
  connecting : Option ℕ

-- What a step of 1000 ns takes under a limit.
abbrev within : Option ℕ → ℕ
within none = 1000
within (some n) = min 1000 n

abbrev echo_at : Bool → EchoRequest → Service → Service × Answer (Unit {0})
echo_at true r s = (
  record s { metrics = (Backend.echo s.metrics reading r).0 },
  answered (echo_response reading r),
)
echo_at false r s = (record s { metrics = begin_echo s.metrics }, refused tt)

abbrev spend : ℕ → Service → Service
spend n s = record s { time = s.time + n }

within_lem : (o : Option ℕ) (n : ℕ) → o ≡ some n → within o ≤ n
within_lem none n h = cc
within_lem (some k) n h = let q : k ≡ n = cc in subst (λ m. min 1000 k ≤ m) q (omega arith)

abbrev connect_at : Limits → Service → Service × Option (Option ℕ)
connect_at e w = (spend (within e.connecting) w, some e.request)

connect_at-channel :
    (e : Limits) (w w' : Service) (c : Option ℕ) → connect_at e w ≡ (w', some c) → c ≡ e.request
connect_at-channel e w w' c h = cc

connect_at-limit :
    (e : Limits) (w : Service) (n : ℕ)
    → e.connecting ≡ some n
    → (connect_at e w).0.time ≤ w.time + n
connect_at-limit e w n h = let soon = within_lem e.connecting n h in omega arith

abbrev call_at : Option ℕ → EchoRequest → Service → Service × Answer (Unit {0})
call_at c r w = echo_at w.up r (spend (within c) w)

echo_at-answered :
    (b : Bool) (r : EchoRequest) (s : Service) (response : EchoResponse)
    → (echo_at b r s).1 ≡ answered response
    → echo_handler reading s.metrics r ≡ ((echo_at b r s).0.metrics, response)
unfolding Backend.echo
echo_at-answered true r s response h = cc
echo_at-answered false r s response h = cc

echo_at-refused :
    (b : Bool) (r : EchoRequest) (s : Service) (status : Unit {0})
    → (echo_at b r s).1 ≡ refused status
    → ((echo_at b r s).0.metrics ≡ s.metrics)
      ⊎ ((echo_at b r s).0.metrics ≡ begin_echo s.metrics)
      ⊎ ((echo_at b r s).0.metrics ≡ (echo_handler reading s.metrics r).0)
echo_at-refused true r s status h = cc
echo_at-refused false r s status h = inr (inl refl)

abbrev tonic : Tonic BackendMetrics begin_echo echo_handler
tonic = record {
  World = Service;
  Endpoint = Limits;
  Channel = Option ℕ;
  Status = Unit {0};
  from_shared = λ _. some (record { request = none; connecting = none });
  timeout = λ n e. record e { request = some n };
  connect_timeout = λ n e. record e { connecting = some n };
  tcp_nodelay = λ _ e. e;
  connect = connect_at;
  connect_unix = λ e path w. connect_at e w;
  echo = call_at;
  now = λ w. w.time;
  reading = λ _. reading;
  service = λ w. w.metrics;
  request_limit = λ e. e.request;
  connect_limit = λ e. e.connecting;
  channel_limit = λ c. c;
  timeout-request = λ n e. refl;
  connect_timeout-request = λ n e. refl;
  connect_timeout-connect = λ n e. refl;
  nodelay-request = λ b e. refl;
  nodelay-connect = λ b e. refl;
  connect-channel = connect_at-channel;
  connect-limit = connect_at-limit;
  unix-channel = λ e path w w' c h. connect_at-channel e w w' c h;
  unix-limit = λ e path w n h. connect_at-limit e w n h;
  echo-answered = λ c r w. echo_at-answered w.up r (spend (within c) w);
  echo-refused = λ c r w. echo_at-refused w.up r (spend (within c) w);
}

abbrev lib : Libraries (Unit {0})
lib = json none

abbrev zeros : Counters
zeros = record {
  http_requests_total = 0;
  http_request_durations = 0;
  grpc_requests_total = 0;
  grpc_request_durations = 0;
}

abbrev service_at : Bool → ℕ → Service
service_at up time = record {
  time = time;
  up = up;
  metrics = record { request_counter = 0; request_durations = 0 };
}

abbrev reqs : List (HttpRequest × ℕ)
reqs =
    (record { path = "/"; body = some (1 ∷ []) }, 0) ∷ (record { path = "/"; body = none }, 0) ∷ []

handle_all_grpc-Between_example :
    Between tonic
      (zeros, service_at false 0)
      (handle_all_grpc tonic lib (tonic.echo (some 5)) reqs (zeros, service_at false 0)).0
handle_all_grpc-Between_example =
    handle_all_grpc-Between tonic lib (some 5) reqs zeros (service_at false 0)

new-Limits_run :
    (1000 ≤ from_secs 5) × (tonic.channel_limit (some (from_secs 30)) ≡ some (from_secs 30))
unfolding new_tcp
new-Limits_run =
    new-Limits tonic "127.0.0.1:50051" (service_at true 0) (service_at true 1000)
      (some (from_secs 30)) (inl refl)
