-- ===== src/Grpc/InTime.antt =====
-- The two timeouts of the gRPC transports (gateway/src/transport.rs, `new`).
use Prim.Native.String.{String, ◌++◌ as ◌<>◌}
use gateway_g_rpc.Prelude.{◌+◌, ◌≤◌, ◌≡◌, ◌⊎◌, inl, inr, subst, ◌∙◌, true, none, some, Option}
use gateway_g_rpc.Proto.{EchoRequest, EchoResponse}
use gateway_g_rpc.Backend.{Reading}
use gateway_g_rpc.Grpc.{
  Tonic, connected, from_secs, new_tcp, new_uds, tcp_endpoint, uds_endpoint, tcp_client, uds_client,
  tcp_from, uds_from, TcpTransport, UdsTransport,
}

module _ {State : Type 0} {begin : State → State}
    {handler : Reading → State → EchoRequest → State × EchoResponse}
    (tonic : Tonic State begin handler) where
  open tonic use {
    World, Endpoint, Channel, Status, from_shared, connect, connect_unix, timeout, connect_timeout,
    tcp_nodelay, echo, now, request_limit, connect_limit, channel_limit, timeout-request,
    connect_timeout-request, connect_timeout-connect, nodelay-request, nodelay-connect,
    connect-channel, connect-limit, unix-channel, unix-limit,
  }

  tcp_client-from :
      (p : World × Option Channel) (w' : World) (t : TcpTransport tonic)
      → tcp_client tonic p ≡ (w', connected t)
      → p ≡ (w', some t.client)
  tcp_client-from (w, none) w' t h = cc
  tcp_client-from (w, some channel) w' t h = cc

  uds_client-from :
      (p : World × Option Channel) (w' : World) (t : UdsTransport tonic)
      → uds_client tonic p ≡ (w', connected t)
      → p ≡ (w', some t.client)
  uds_client-from (w, none) w' t h = cc
  uds_client-from (w, some channel) w' t h = cc

  -- What comes of `new`: it has taken at most 5 seconds, and the calls of its channel are limited.
  abbrev Limits : World → World → Channel → Type 0
  Limits w w' channel =
      (now w' ≤ now w + from_secs 5) × (channel_limit channel ≡ some (from_secs 30))

  tcp-Limits :
      (o : Option Endpoint) (w w' : World) (t : TcpTransport tonic)
      → tcp_from tonic o w ≡ (w', connected t)
      → Limits w w' t.client
  tcp-Limits none w w' t h = cc
  tcp-Limits (some e) w w' t h =
      let from = tcp_client-from (connect (tcp_endpoint tonic e) w) w' t h in
      (
        subst (λ (q : World × Option Channel). now q.0 ≤ now w + from_secs 5) from
            (connect-limit (tcp_endpoint tonic e) w (from_secs 5)
              (nodelay-connect true _ ∙ connect_timeout-connect (from_secs 5) _)),
        connect-channel (tcp_endpoint tonic e) w w' t.client from
            ∙ nodelay-request true _
            ∙ connect_timeout-request (from_secs 5) _
            ∙ timeout-request (from_secs 30) e,
      )

  uds-Limits :
      (path : String) (o : Option Endpoint) (w w' : World) (t : UdsTransport tonic)
      → uds_from tonic path o w ≡ (w', connected t)
      → Limits w w' t.client
  uds-Limits path none w w' t h = cc
  uds-Limits path (some e) w w' t h =
      let from = uds_client-from (connect_unix (uds_endpoint tonic e) path w) w' t h in
      (
        subst (λ (q : World × Option Channel). now q.0 ≤ now w + from_secs 5) from
            (unix-limit (uds_endpoint tonic e) path w (from_secs 5)
              (connect_timeout-connect (from_secs 5) _)),
        unix-channel (uds_endpoint tonic e) path w w' t.client from
            ∙ connect_timeout-request (from_secs 5) _
            ∙ timeout-request (from_secs 30) e,
      )

  -- `new` of one of the two transports has ended in the world `w'` with a channel.
  abbrev pub HasNew : String → World → World → Channel → Type 0
  HasNew address w w' channel =
      (new_tcp tonic address w ≡ (w', connected (record { client = channel })))
      ⊎ (new_uds tonic address w ≡ (w', connected (record { client = channel })))

  -- A gRPC transport, over TCP or over a Unix socket, is connected within 5 seconds, if it is, and its
  -- channel limits a call to 30 seconds.
  pub new-Limits :
      (address : String) (w w' : World) (channel : Channel)
      → HasNew address w w' channel
      → Limits w w' channel
  unfolding new_tcp new_uds
  new-Limits address w w' channel (inl h) =
      tcp-Limits (from_shared ("http://" <> address)) w w' (record { client = channel }) h
  new-Limits address w w' channel (inr h) =
      uds-Limits address (from_shared "http://[::]:50051") w w' (record { client = channel }) h
