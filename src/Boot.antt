-- ===== src/Boot.antt =====
-- `new` of the multiplexed transports (gateway/src/shm_transport_eventfd.rs and
-- gateway/src/shm_transport_uds.rs): the buffers, the socket, the descriptors, and what the transport
-- starts with.
pub mod Joined
mod Tests
use Prim.Native.String.{String}
use gateway_g_rpc.Prelude.{ℕ, Option, none, some, [], replicate}
use gateway_g_rpc.Shm.{ShmError, Fault, Outcome, ok, err, fault, default_config}
use gateway_g_rpc.Ring.{SharedMemoryRingBuffer}
use gateway_g_rpc.EventFd.{EventKernel}
use gateway_g_rpc.Setup.{ShmOs}
use gateway_g_rpc.Startup.{Buffers}
use gateway_g_rpc.Startup.Sockets.{
  Sockets, Opening, opened, shm_timeout, connect_failed, control_path, notify_path, open_stream,
}
use gateway_g_rpc.Handshake.{FdSocket, Events, take_events}
use gateway_g_rpc.Mux.{PendingRequests, Listener}

-- `ShmTransportEventfd`, with descriptors as numbers.
pub record ShmTransportEventfd : Type 0 where
  pub name : String
  pub request_buffer : SharedMemoryRingBuffer
  pub response_buffer : SharedMemoryRingBuffer
  pub request_event : ℕ
  pub response_event : ℕ
  pub pending_requests : PendingRequests

-- `ShmTransportUds`, with its connection as a number.
pub record ShmTransportUds : Type 0 where
  pub name : String
  pub request_buffer : SharedMemoryRingBuffer
  pub response_buffer : SharedMemoryRingBuffer
  pub notify_stream : ℕ
  pub pending_requests : PendingRequests

-- What comes of `new`.
pub data New (T : Type 0) : Type 0 where
  ready : T → New T
  timed_out : New T
  refused : ℕ → New T
  no_event : ShmError → New T
  crashed : Fault → New T

abbrev pub eventfd_transport : String → Buffers → Events → ShmTransportEventfd
eventfd_transport name b e = record {
  name = name;
  request_buffer = b.requests;
  response_buffer = b.responses;
  request_event = e.request_event;
  response_event = e.response_event;
  pending_requests = [];
}

abbrev pub uds_transport : String → Buffers → ℕ → ShmTransportUds
uds_transport name b stream = record {
  name = name;
  request_buffer = b.requests;
  response_buffer = b.responses;
  notify_stream = stream;
  pending_requests = [];
}

-- What `start_response_listener` starts with.
abbrev pub start_response_listener : ShmTransportEventfd → Listener
start_response_listener t = record {
  response_buffer = t.response_buffer;
  response_buf = replicate 65536 0;
  calls = record { pending_requests = t.pending_requests; sent = [] };
}

module _ (sys : ShmOs) (os : EventKernel) (net : Sockets) (socket : FdSocket) where
  open sys use {Os}
  open net use {Net}
  open socket use {Kernel}

  -- Behind the second `recv_eventfd`.
  abbrev pub with_events :
      String → Buffers → Option (Outcome Events) → Option (New ShmTransportEventfd)
  with_events name b none = none
  with_events name b (some (ok e)) = some (ready (eventfd_transport name b e))
  with_events name b (some (err e)) = some (no_event e)
  with_events name b (some (fault f)) = some (crashed f)

  -- Behind `connect`, with the connection as the gateway finds it.
  abbrev pub behind_connect :
      ℕ → String → Kernel → Option Opening → Kernel × Option (New ShmTransportEventfd)
  behind_connect fuel name k none = (k, none)
  behind_connect fuel name k (some shm_timeout) = (k, some timed_out)
  behind_connect fuel name k (some (connect_failed e)) = (k, some (refused e))
  behind_connect fuel name k (some (opened b c)) =
      let (k', events) = take_events socket fuel k in (k', with_events name b events)

  -- `ShmTransportEventfd::new`
  pub new_eventfd :
      ℕ
      → String
      → (ℕ → Os)
      → (ℕ → Os)
      → Net
      → Kernel
      → Net × Kernel × Option (New ShmTransportEventfd)
  new_eventfd fuel name at then_at sockets k =
      let (sockets', o) =
        open_stream sys os net (control_path name) name default_config at then_at sockets in
      let (k', t) = behind_connect fuel name k o in (sockets', k', t)

  abbrev pub with_stream : String → Option Opening → Option (New ShmTransportUds)
  with_stream name none = none
  with_stream name (some shm_timeout) = some timed_out
  with_stream name (some (connect_failed e)) = some (refused e)
  with_stream name (some (opened b c)) = some (ready (uds_transport name b c))

  -- `ShmTransportUds::new`, with its listener still to run.
  pub new_uds : String → (ℕ → Os) → (ℕ → Os) → Net → Net × Option (New ShmTransportUds)
  new_uds name at then_at sockets =
      let (sockets', o) =
        open_stream sys os net (notify_path name) name default_config at then_at sockets in
      (sockets', with_stream name o)
