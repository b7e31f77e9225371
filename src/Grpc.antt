-- ===== src/Grpc.antt =====
-- gateway/src/transport.rs: the TCP and the Unix-socket gRPC transports over the client of tonic, with
-- the HTTP handler before them and the service of backend/src/main.rs behind them.
pub mod Counted
pub mod InTime
mod Tests
use Prim.Native.String.{String, ◌++◌ as ◌<>◌}
use gateway_g_rpc.Prelude.{
  ℕ, ◌+◌, ◌*◌, ◌≤◌, ◌≡◌, ◌⊎◌, Bool, true, Option, none, some, List, [], ◌∷◌,
}
use gateway_g_rpc.Proto.{EchoRequest, EchoResponse}
use gateway_g_rpc.Backend.{Reading}
use gateway_g_rpc.Http.{
  Libraries, HttpRequest, HttpResponse, Counters, Answer, answered, refused, echo_request,
  handle_request,
}

-- The client of tonic, with an `Endpoint`, a `Channel` and the unary call `echo` on it, over a service
-- whose states are `State`: `handler` handles a request, and `begin` is what it has done when it is
-- dropped where it waits. Times are in nanoseconds. The limits are those of `timeout` and
-- `connect_timeout`; an answer is the handler's, and of a call that fails the service has seen
-- nothing, a part, or all.
pub record Tonic (State : Type 0) (begin : State → State)
    (handler : Reading → State → EchoRequest → State × EchoResponse) : Type 1 where
  pub World : Type 0
  pub Endpoint : Type 0
  pub Channel : Type 0
  pub Status : Type 0
  pub from_shared : String → Option Endpoint
  pub timeout : ℕ → Endpoint → Endpoint
  pub connect_timeout : ℕ → Endpoint → Endpoint
  pub tcp_nodelay : Bool → Endpoint → Endpoint
  pub connect : Endpoint → World → World × Option Channel
  pub connect_unix : Endpoint → String → World → World × Option Channel
  pub echo : Channel → EchoRequest → World → World × Answer Status
  pub now : World → ℕ
  pub reading : World → Reading
  pub service : World → State
  pub request_limit : Endpoint → Option ℕ
  pub connect_limit : Endpoint → Option ℕ
  pub channel_limit : Channel → Option ℕ
  pub timeout-request : (n : ℕ) (e : Endpoint) → request_limit (timeout n e) ≡ some n
  pub connect_timeout-request :
      (n : ℕ) (e : Endpoint) → request_limit (connect_timeout n e) ≡ request_limit e
  pub connect_timeout-connect :
      (n : ℕ) (e : Endpoint) → connect_limit (connect_timeout n e) ≡ some n
  pub nodelay-request :
      (b : Bool) (e : Endpoint) → request_limit (tcp_nodelay b e) ≡ request_limit e
  pub nodelay-connect :
      (b : Bool) (e : Endpoint) → connect_limit (tcp_nodelay b e) ≡ connect_limit e
  pub connect-channel :
      (e : Endpoint) (w w' : World) (c : Channel)
      → connect e w ≡ (w', some c)
      → channel_limit c ≡ request_limit e
  pub connect-limit :
      (e : Endpoint) (w : World) (n : ℕ)
      → connect_limit e ≡ some n
      → now (connect e w).0 ≤ now w + n
  pub unix-channel :
      (e : Endpoint) (path : String) (w w' : World) (c : Channel)
      → connect_unix e path w ≡ (w', some c)
      → channel_limit c ≡ request_limit e
  pub unix-limit :
      (e : Endpoint) (path : String) (w : World) (n : ℕ)
      → connect_limit e ≡ some n
      → now (connect_unix e path w).0 ≤ now w + n
  pub echo-answered :
      (c : Channel) (r : EchoRequest) (w : World) (response : EchoResponse)
      → (echo c r w).1 ≡ answered response
      → (handler (reading w) (service w) r ≡ (service (echo c r w).0, response))
  pub echo-refused :
      (c : Channel) (r : EchoRequest) (w : World) (status : Status)
      → (echo c r w).1 ≡ refused status
      → (service (echo c r w).0 ≡ service w)
        ⊎ (service (echo c r w).0 ≡ begin (service w))
        ⊎ (service (echo c r w).0 ≡ (handler (reading w) (service w) r).0)

-- Why there is no transport.
pub data NewError : Type 0 where
  invalid_uri : NewError
  connect_failed : NewError

pub data NewResult (T : Type 0) : Type 0 where
  connected : T → NewResult T
  not_connected : NewError → NewResult T

-- `Duration::from_secs(n)`
abbrev pub from_secs : ℕ → ℕ
from_secs n = n * 1000000000

module _ {State : Type 0} {begin : State → State}
    {handler : Reading → State → EchoRequest → State × EchoResponse}
    (tonic : Tonic State begin handler) where
  open tonic use {
    World, Endpoint, Channel, Status, from_shared, timeout, connect_timeout, tcp_nodelay, connect,
    connect_unix, echo,
  }

  pub record TcpTransport : Type 0 where
    pub client : Channel

  pub record UdsTransport : Type 0 where
    pub client : Channel

  -- `connect().await?` and the client around the channel
  abbrev pub tcp_client : World × Option Channel → World × NewResult TcpTransport
  tcp_client (w, none) = (w, not_connected connect_failed)
  tcp_client (w, some channel) = (w, connected (record { client = channel }))

  abbrev pub uds_client : World × Option Channel → World × NewResult UdsTransport
  uds_client (w, none) = (w, not_connected connect_failed)
  uds_client (w, some channel) = (w, connected (record { client = channel }))

  abbrev pub tcp_endpoint : Endpoint → Endpoint
  tcp_endpoint e = tcp_nodelay true (connect_timeout (from_secs 5) (timeout (from_secs 30) e))

  abbrev pub uds_endpoint : Endpoint → Endpoint
  uds_endpoint e = connect_timeout (from_secs 5) (timeout (from_secs 30) e)

  abbrev pub tcp_from : Option Endpoint → World → World × NewResult TcpTransport
  tcp_from none w = (w, not_connected invalid_uri)
  tcp_from (some endpoint) w = tcp_client (connect (tcp_endpoint endpoint) w)

  -- `TcpTransport::new`
  unfoldable pub new_tcp : String → World → World × NewResult TcpTransport
  new_tcp addr w = tcp_from (from_shared ("http://" <> addr)) w

  abbrev pub uds_from : String → Option Endpoint → World → World × NewResult UdsTransport
  uds_from path none w = (w, not_connected invalid_uri)
  uds_from path (some endpoint) w = uds_client (connect_unix (uds_endpoint endpoint) path w)

  -- `UdsTransport::new`; the connector never looks at the URI, which must parse (`try_from`).
  unfoldable pub new_uds : String → World → World × NewResult UdsTransport
  new_uds path w = uds_from path (from_shared "http://[::]:50051") w

  -- `call` of the two transports
  abbrev pub call_tcp : TcpTransport → EchoRequest → World → World × Answer Status
  call_tcp t request w = echo t.client request w

  abbrev pub call_uds : UdsTransport → EchoRequest → World → World × Answer Status
  call_uds t request w = echo t.client request w

  module _ (lib : Libraries Status) (call : EchoRequest → World → World × Answer Status) where
    -- The world behind the handler, which calls the transport if it has a body.
    abbrev pub world_after : String → ℕ → World → Option (List ℕ) → World
    world_after path elapsed w none = w
    world_after path elapsed w (some bytes) = (call (echo_request lib path bytes elapsed) w).0

    -- `Gateway::handle_request` over a gRPC transport. The world is what the backend's service and its
    -- clock are at the calls: what passes while a body is collected is not in it.
    abbrev pub handle_grpc : HttpRequest → ℕ → Counters × World → (Counters × World) × HttpResponse
    handle_grpc req elapsed (c, w) =
        let (c', response) = handle_request lib (λ r. (call r w).1) req elapsed c in
        ((c', world_after req.path elapsed w req.body), response)

    -- Requests one after the other, each with what its clock shows.
    pub handle_all_grpc :
        List (HttpRequest × ℕ) → Counters × World → (Counters × World) × List HttpResponse
    handle_all_grpc [] s = (s, [])
    handle_all_grpc ((req, elapsed) ∷ reqs) s =
        let (s', response) = handle_grpc req elapsed s in
        let (s'', responses) = handle_all_grpc reqs s' in (s'', response ∷ responses)
