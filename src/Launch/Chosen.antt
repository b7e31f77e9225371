-- ===== src/Launch/Chosen.antt =====
-- The two processes under the same options.
use gateway_g_rpc.Prelude.{ℕ, ◌≡◌, ◌⊎◌, inl, inr, refl, sym, ap, subst, ◌∙◌, arith}
use gateway_g_rpc.Shm.{Outcome, ok, err, fault, default_config}
use gateway_g_rpc.Proto.{EchoRequest}
use gateway_g_rpc.EventFd.{EventKernel}
use gateway_g_rpc.Setup.{ShmOs}
use gateway_g_rpc.Startup.Sockets.{
  Sockets, Host, ShmServerEventfd, control_path, new_event_server, open_stream,
}
use gateway_g_rpc.Startup.Sockets.Meets.{InTime, Meets, open_stream-Meets}
use gateway_g_rpc.Startup.Strangers.{
  TransportType, tcp, uds, shm, shm_uds, shm_eventfd, GatewayArgs, BackendArgs,
}
use gateway_g_rpc.Dispatch.{TransportEnum, Calls, call}
use gateway_g_rpc.Launch.{
  News, wrap, transport_of, new_transport, Service, shm_eventfd_service, service, service_of,
  start_backend,
}

module _ {Error Tcp Uds Shm ShmUds ShmEventfd : Type 0}
    (news : News Error Tcp Uds Shm ShmUds ShmEventfd)
    (calls : Calls Tcp Uds Shm ShmUds ShmEventfd) where
  -- The constructor that the option asks for has succeeded on the option's own address, and calls go
  -- to what it has made.
  abbrev pub Chosen :
      TransportType
      → GatewayArgs
      → TransportEnum Tcp Uds Shm ShmUds ShmEventfd
      → EchoRequest
      → Type 0
  Chosen tcp args t r =
      (x : Tcp) × (news.new_tcp args.backend_addr ≡ inr x) × (call calls t r ≡ calls.call_tcp x r)
  Chosen uds args t r =
      (x : Uds) × (news.new_uds args.uds_path ≡ inr x) × (call calls t r ≡ calls.call_uds x r)
  Chosen shm args t r =
      (x : Shm) × (news.new_shm args.shm_name ≡ inr x) × (call calls t r ≡ calls.call_shm x r)
  Chosen shm_uds args t r =
      (x : ShmUds) × (news.new_shm_uds args.shm_name ≡ inr x)
      × (call calls t r ≡ calls.call_shm_uds x r)
  Chosen shm_eventfd args t r =
      (x : ShmEventfd) × (news.new_shm_eventfd args.shm_name ≡ inr x)
      × (call calls t r ≡ calls.call_shm_eventfd x r)

  wrap-inr :
      {A T : Type 0} (variant : A → T) (o : Error ⊎ A) (t : T)
      → wrap variant o ≡ inr t
      → (x : A) × (o ≡ inr x) × (t ≡ variant x)
  wrap-inr {T = T} variant (inl e) t p = absurd (differ p)
    where
      differ : ◌≡◌ {A = Error ⊎ T} (inl e) (inr t) → ⊥
      differ q = cc
  wrap-inr {T = T} variant (inr x) t p = (x, refl, sym (same p))
    where
      same : ◌≡◌ {A = Error ⊎ T} (inr (variant x)) (inr t) → variant x ≡ t
      same q = cc

  chosen_lem :
      (kind : TransportType) (args : GatewayArgs) (t : TransportEnum Tcp Uds Shm ShmUds ShmEventfd)
      (r : EchoRequest)
      → transport_of news kind args ≡ inr t
      → Chosen kind args t r
  unfolding call
  chosen_lem tcp args t r p =
      let (x, made, same) = wrap-inr TransportEnum.tcp (news.new_tcp args.backend_addr) t p in
      (x, made, ap (λ t'. call calls t' r) same)
  chosen_lem uds args t r p =
      let (x, made, same) = wrap-inr TransportEnum.uds (news.new_uds args.uds_path) t p in
      (x, made, ap (λ t'. call calls t' r) same)
  chosen_lem shm args t r p =
      let (x, made, same) = wrap-inr TransportEnum.shm (news.new_shm args.shm_name) t p in
      (x, made, ap (λ t'. call calls t' r) same)
  chosen_lem shm_uds args t r p =
      let (x, made, same) = wrap-inr TransportEnum.shm_uds (news.new_shm_uds args.shm_name) t p in
      (x, made, ap (λ t'. call calls t' r) same)
  chosen_lem shm_eventfd args t r p =
      let (x, made, same) =
        wrap-inr TransportEnum.shm_eventfd (news.new_shm_eventfd args.shm_name) t p in
      (x, made, ap (λ t'. call calls t' r) same)

  -- If the gateway gets a transport for its options, then the constructor of the transport that they
  -- ask for has made it of the address that belongs to it, and each call goes to this transport.
  pub new_transport-Chosen :
      (args : GatewayArgs) (t : TransportEnum Tcp Uds Shm ShmUds ShmEventfd) (r : EchoRequest)
      → new_transport news args ≡ inr t
      → Chosen args.transport args t r
  unfolding new_transport
  new_transport-Chosen args t r p = chosen_lem args.transport args t r p

module _ (sys : ShmOs) (os : EventKernel) (net : Sockets) where
  service-ok :
      (h' : Host sys os net) (r : Host sys os net × Outcome ShmServerEventfd) (v : Service)
      → service sys os net shm_eventfd_service r ≡ (h', ok v)
      → (srv : ShmServerEventfd) × (v ≡ shm_eventfd_service srv) × (r ≡ (h', ok srv))
  service-ok h' (h₁, ok srv) v p = (srv, sym (same p), ap (λ h. (h, ok srv)) (there p))
    where
      there :
          ◌≡◌ {A = Host sys os net × Outcome Service} (h₁, ok (shm_eventfd_service srv)) (h', ok v)
          → h₁ ≡ h'
      there q = cc

      same :
          ◌≡◌ {A = Host sys os net × Outcome Service} (h₁, ok (shm_eventfd_service srv)) (h', ok v)
          → shm_eventfd_service srv ≡ v
      same q = cc
  service-ok h' (h₁, err e) v p = absurd (differ p)
    where
      differ : ◌≡◌ {A = Host sys os net × Outcome Service} (h₁, err e) (h', ok v) → ⊥
      differ q = cc
  service-ok h' (h₁, fault f) v p = absurd (differ p)
    where
      differ : ◌≡◌ {A = Host sys os net × Outcome Service} (h₁, fault f) (h', ok v) → ⊥
      differ q = cc

  -- A backend that has started for the eventfd transport and a gateway with the same name for the
  -- shared memory, whose attempts come in time: the backend runs the eventfd server, and the gateway
  -- shares its two buffers and is connected to its listener, unless the system refuses the connection.
  pub start_backend-Meets :
      (b : BackendArgs) (g : GatewayArgs) (h h' : Host sys os net) (v : Service)
      (at then_at : ℕ → ShmOs.Os sys)
      → b.transport ≡ shm_eventfd
      → g.shm_name ≡ b.shm_name
      → start_backend sys os net b h ≡ (h', ok v)
      → InTime sys b.shm_name h'.shm at then_at
      → (srv : ShmServerEventfd) × (v ≡ shm_eventfd_service srv)
        × Meets sys os net b.shm_name default_config default_config srv.buffers srv.control_listener
            (open_stream sys os net
              (control_path g.shm_name)
              g.shm_name
              default_config
              at
              then_at
              h'.sockets)
  unfolding start_backend
  start_backend-Meets b g h h' v at then_at kind same p t =
      let (srv, is, started) =
        service-ok h' (new_event_server sys os net b.shm_name default_config h) v
          (ap (λ k. service_of sys os net k b h) (sym kind) ∙ p) in
      (
        srv,
        is,
        subst
            (λ name.
              Meets sys os net b.shm_name default_config default_config srv.buffers
                srv.control_listener
                (open_stream sys os net (control_path name) name default_config at then_at
                  h'.sockets))
            (sym same)
            (open_stream-Meets sys os net b.shm_name default_config default_config h h' srv at
              then_at (omega arith) (omega arith) started t),
      )
