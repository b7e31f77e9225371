-- ===== src/Startup/Sockets.antt =====
-- `new` of the multiplexed servers (backend/src/shm_server_eventfd.rs, backend/src/shm_server_uds.rs)
-- and the part of `new` of their transports up to the socket (gateway/src/shm_transport_eventfd.rs,
-- gateway/src/shm_transport_uds.rs).
pub mod Listens
pub mod Meets
use Prim.Native.String.{String, ◌++◌ as ◌<>◌}
use gateway_g_rpc.Prelude.{ℕ, ◌≡◌, Bool, false, Option, none, some}
use gateway_g_rpc.Shm.{nix, Outcome, ok, err, fault, ShmConfig, default_config}
use gateway_g_rpc.EventFd.{EventKernel, Sys, returned, errno}
use gateway_g_rpc.Setup.{ShmOs}
use gateway_g_rpc.Startup.{Buffers, create_buffers, connect}

-- Unix sockets (unix(7)). `listener n path` is the listening socket bound to a path, `peer n c` the
-- listening socket that a connection has reached. `remove_file` ignores its error, as its callers do.
pub record Sockets : Type 1 where
  pub Net : Type 0
  pub listener : Net → String → Option ℕ
  pub peer : Net → ℕ → Option ℕ
  pub remove_file : String → Net → Net
  pub bind : String → Net → Net × Sys ℕ
  pub connect_to : String → Net → Net × Sys ℕ
  pub bind-listens :
      (n n' : Net) (path : String) (l : ℕ)
      → bind path n ≡ (n', returned l)
      → listener n' path ≡ some l
  pub connect-reaches :
      (n n' : Net) (path : String) (l c : ℕ)
      → listener n path ≡ some l
      → connect_to path n ≡ (n', returned c)
      → peer n' c ≡ some l
  pub connect-missing :
      (n : Net) (path : String)
      → listener n path ≡ none
      → (e : ℕ) × (connect_to path n ≡ (n, errno e))

-- `format!("/tmp/{}_control.sock", name)` and `format!("/tmp/{}_notify.sock", name)`
abbrev pub control_path : String → String
control_path name = "/tmp/" <> name <> "_control.sock"

abbrev pub notify_path : String → String
notify_path name = "/tmp/" <> name <> "_notify.sock"

-- `ShmServerEventfd` and `ShmServerUds`, with descriptors as numbers.
pub record ShmServerEventfd : Type 0 where
  pub buffers : Buffers
  pub request_event : ℕ
  pub response_event : ℕ
  pub control_listener : ℕ

pub record ShmServerUds : Type 0 where
  pub buffers : Buffers
  pub notify_listener : ℕ

-- What has come of a transport's `new` up to its socket.
pub data Opening : Type 0 where
  opened : Buffers → ℕ → Opening
  shm_timeout : Opening
  connect_failed : ℕ → Opening

module _ (sys : ShmOs) (os : EventKernel) (net : Sockets) where
  open sys use {Os}
  open os use {Kernel, eventfd, close}
  open net use {Net, remove_file, bind, connect_to}

  -- The system as a process finds it.
  pub record Host : Type 0 where
    pub shm : Os
    pub kernel : Kernel
    pub sockets : Net

  abbrev pub made : Host → Os × Outcome Buffers → Host × Outcome Buffers
  made h (shm, r) = (record h { shm = shm }, r)

  -- An error drops the descriptors that are there, which closes them.
  abbrev pub bound_events : Buffers → ℕ → ℕ → Host → Net × Sys ℕ → Host × Outcome ShmServerEventfd
  bound_events b request_event response_event h (sockets, returned l) = (
    record h { sockets = sockets },
    ok (record {
      buffers = b;
      request_event = request_event;
      response_event = response_event;
      control_listener = l;
    }),
  )
  bound_events b request_event response_event h (sockets, errno e) = (
    record h { sockets = sockets; kernel = close request_event (close response_event h.kernel) },
    err (nix e),
  )

  abbrev pub bind_control :
      String → Buffers → ℕ → Host → Kernel × Sys ℕ → Host × Outcome ShmServerEventfd
  bind_control name b request_event h (kernel, returned response_event) =
      bound_events b request_event response_event (record h { kernel = kernel })
        (bind (control_path name) (remove_file (control_path name) h.sockets))
  bind_control name b request_event h (kernel, errno e) =
      (record h { kernel = close request_event kernel }, err (nix e))

  abbrev pub second_event :
      String → Buffers → Host → Kernel × Sys ℕ → Host × Outcome ShmServerEventfd
  second_event name b h (kernel, returned request_event) =
      bind_control name b request_event (record h { kernel = kernel }) (eventfd false kernel)
  second_event name b h (kernel, errno e) = (record h { kernel = kernel }, err (nix e))

  abbrev pub with_events : String → Host × Outcome Buffers → Host × Outcome ShmServerEventfd
  with_events name (h, ok b) = second_event name b h (eventfd false h.kernel)
  with_events name (h, err e) = (h, err e)
  with_events name (h, fault f) = (h, fault f)

  -- `ShmServerEventfd::new`
  unfoldable pub new_event_server : String → ShmConfig → Host → Host × Outcome ShmServerEventfd
  new_event_server name config h = with_events name (made h (create_buffers sys name config h.shm))

  abbrev pub bound_notify : Buffers → Host → Net × Sys ℕ → Host × Outcome ShmServerUds
  bound_notify b h (sockets, returned l) =
      (record h { sockets = sockets }, ok (record { buffers = b; notify_listener = l }))
  bound_notify b h (sockets, errno e) = (record h { sockets = sockets }, err (nix e))

  abbrev pub bind_notify : String → Host × Outcome Buffers → Host × Outcome ShmServerUds
  bind_notify name (h, ok b) =
      bound_notify b h (bind (notify_path name) (remove_file (notify_path name) h.sockets))
  bind_notify name (h, err e) = (h, err e)
  bind_notify name (h, fault f) = (h, fault f)

  -- `ShmServerUds::new`
  unfoldable pub new_uds_server : String → ShmConfig → Host → Host × Outcome ShmServerUds
  new_uds_server name config h = bind_notify name (made h (create_buffers sys name config h.shm))

  abbrev pub stream_of : Buffers → Net × Sys ℕ → Net × Option Opening
  stream_of b (sockets, returned c) = (sockets, some (opened b c))
  stream_of b (sockets, errno e) = (sockets, some (connect_failed e))

  abbrev pub then_connect : String → Net → Option (Option Buffers) → Net × Option Opening
  then_connect path sockets none = (sockets, none)
  then_connect path sockets (some none) = (sockets, some shm_timeout)
  then_connect path sockets (some (some b)) = stream_of b (connect_to path sockets)

  -- The transports wait for the two buffers and then connect to the socket at `path`, once.
  pub open_stream : String → String → ShmConfig → (ℕ → Os) → (ℕ → Os) → Net → Net × Option Opening
  open_stream path name config at then_at sockets =
      then_connect path sockets (connect sys name config at then_at)
