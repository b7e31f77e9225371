-- ===== src/Launch.antt =====
-- `main` of gateway/src/main.rs and of backend/src/main.rs: what each starts for its options.
pub mod Chosen
mod Tests
use Prim.Native.String.{String}
use gateway_g_rpc.Prelude.{ℕ, ◌⊎◌, inl, inr}
use gateway_g_rpc.Shm.{Outcome, ok, err, fault, default_config}
use gateway_g_rpc.EventFd.{EventKernel}
use gateway_g_rpc.Setup.{ShmOs}
use gateway_g_rpc.Startup.{Buffers, create_buffers}
use gateway_g_rpc.Startup.Sockets.{
  Sockets, Host, made, ShmServerEventfd, ShmServerUds, new_event_server, new_uds_server,
}
use gateway_g_rpc.Startup.Strangers.{
  TransportType, tcp, uds, shm, shm_uds, shm_eventfd, GatewayArgs, BackendArgs,
}
use gateway_g_rpc.Dispatch.{TransportEnum}

-- `new` of the five transports.
pub record News (Error Tcp Uds Shm ShmUds ShmEventfd : Type 0) : Type 0 where
  pub new_tcp : String → Error ⊎ Tcp
  pub new_uds : String → Error ⊎ Uds
  pub new_shm : String → Error ⊎ Shm
  pub new_shm_uds : String → Error ⊎ ShmUds
  pub new_shm_eventfd : String → Error ⊎ ShmEventfd

-- `?` behind a constructor, and the variant around its result.
abbrev pub wrap : {E A T : Type 0} → (A → T) → E ⊎ A → E ⊎ T
wrap variant (inl e) = inl e
wrap variant (inr a) = inr (variant a)

module _ {Error Tcp Uds Shm ShmUds ShmEventfd : Type 0}
    (news : News Error Tcp Uds Shm ShmUds ShmEventfd) where
  -- The transport of the gateway.
  abbrev pub transport_of :
      TransportType → GatewayArgs → Error ⊎ TransportEnum Tcp Uds Shm ShmUds ShmEventfd
  transport_of tcp args = wrap TransportEnum.tcp (news.new_tcp args.backend_addr)
  transport_of uds args = wrap TransportEnum.uds (news.new_uds args.uds_path)
  transport_of shm args = wrap TransportEnum.shm (news.new_shm args.shm_name)
  transport_of shm_uds args = wrap TransportEnum.shm_uds (news.new_shm_uds args.shm_name)
  transport_of shm_eventfd args =
      wrap TransportEnum.shm_eventfd (news.new_shm_eventfd args.shm_name)

  pub new_transport : GatewayArgs → Error ⊎ TransportEnum Tcp Uds Shm ShmUds ShmEventfd
  new_transport args = transport_of args.transport args

-- What the backend runs. The first two are the servers of tonic at an address and at a path, whose
-- own start is not modelled.
pub data Service : Type 0 where
  tcp_service : String → Service
  uds_service : String → Service
  shm_service : Buffers → Service
  shm_uds_service : ShmServerUds → Service
  shm_eventfd_service : ShmServerEventfd → Service

module _ (sys : ShmOs) (os : EventKernel) (net : Sockets) where
  abbrev pub service :
      {A : Type 0} → (A → Service) → Host sys os net × Outcome A → Host sys os net × Outcome Service
  service variant (h, ok a) = (h, ok (variant a))
  service variant (h, err e) = (h, err e)
  service variant (h, fault f) = (h, fault f)

  abbrev pub service_of :
      TransportType → BackendArgs → Host sys os net → Host sys os net × Outcome Service
  service_of tcp args h = (h, ok (tcp_service args.addr))
  service_of uds args h = (h, ok (uds_service args.uds_path))
  service_of shm args h =
      service shm_service
        (made sys os net h (create_buffers sys args.shm_name default_config h.shm))
  service_of shm_uds args h =
      service shm_uds_service (new_uds_server sys os net args.shm_name default_config h)
  service_of shm_eventfd args h =
      service shm_eventfd_service (new_event_server sys os net args.shm_name default_config h)

  unfoldable pub start_backend : BackendArgs → Host sys os net → Host sys os net × Outcome Service
  start_backend args h = service_of args.transport args h
