-- ===== src/Boot/Joined.antt =====
-- A server and a transport that have been made under one name.
use Prim.Native.String.{String}
use gateway_g_rpc.Prelude.{
  ℕ, suc, ◌^◌, ◌≤◌, ◌<◌, ◌≡◌, ◌⊎◌, inl, inr, refl, sym, subst, Option, some, [], replicate,
}
use gateway_g_rpc.Shm.{ShmError, nix, ok, ShmConfig, default_config}
use gateway_g_rpc.EventFd.{EventKernel}
use gateway_g_rpc.Setup.{ShmOs}
use gateway_g_rpc.Startup.Shared.{IsShared}
use gateway_g_rpc.Startup.Sockets.{
  Sockets, Opening, Host, ShmServerEventfd, ShmServerUds, new_event_server, new_uds_server,
  open_stream, control_path, notify_path,
}
use gateway_g_rpc.Startup.Sockets.Meets.{InTime, Meets, open_stream-Meets, open_stream-Meets_uds}
use gateway_g_rpc.Handshake.{FdSocket, Events, offer, take_events}
use gateway_g_rpc.Handshake.Wiring.{SystemError, Wired, take_events-Wired}
use gateway_g_rpc.System.{System}
use gateway_g_rpc.System.Settled.{IsNew}
use gateway_g_rpc.Boot.{
  ShmTransportEventfd, ShmTransportUds, New, ready, refused, no_event, new_eventfd, new_uds,
  behind_connect, with_stream, eventfd_transport, uds_transport, start_response_listener,
}

abbrev pub events_of : ShmServerEventfd → Events
events_of srv = record { request_event = srv.request_event; response_event = srv.response_event }

module _ (sys : ShmOs) (os : EventKernel) (net : Sockets) (socket : FdSocket) (name : String)
    (config : ShmConfig) where
  open net use {Net, peer}
  open socket use {Kernel, server_object, gateway_object, in_flight}

  -- The system has refused the connection or a descriptor with an error.
  abbrev pub IsRefused : {T : Type 0} → Option (New T) → Type 0
  IsRefused r = ((e : ℕ) × (r ≡ some (refused e))) ⊎ ((e : ShmError) × (r ≡ some (no_event e)))

  -- The transport shares the server's buffers, which are empty, is connected to its listener, has its
  -- two counters, each in its role, and no call that waits.
  pub record Joined (srv : ShmServerEventfd) (a b : ℕ)
      (r : Net × Kernel × Option (New ShmTransportEventfd)) : Type 0 where
    pub transport : ShmTransportEventfd
    pub stream : ℕ
    pub result : r.2 ≡ some (ready transport)
    pub requests :
        IsShared sys name config default_config transport.request_buffer srv.buffers.requests
    pub responses :
        IsShared sys name config default_config transport.response_buffer srv.buffers.responses
    pub reaches : peer r.0 stream ≡ some srv.control_listener
    pub requests_wired : gateway_object r.1 transport.request_event ≡ some a
    pub responses_wired : gateway_object r.1 transport.response_event ≡ some b
    pub none_pending : transport.pending_requests ≡ []

  behind_lem :
      (fuel : ℕ) (srv : ShmServerEventfd) (a b : ℕ) (k : Kernel) (n : Net) (o : Option Opening)
      → SystemError socket (take_events socket fuel k).1
        ⊎ Wired socket a b (take_events socket fuel k)
      → Meets sys os net name config default_config srv.buffers srv.control_listener (n, o)
      → let (k', t) = behind_connect sys os net socket fuel name k o in
        IsRefused t ⊎ Joined srv a b (n, k', t)
  behind_lem fuel srv a b k n o w (inl (e, p)) = inl (inl (e, rw p refl))
  behind_lem fuel srv a b k n o (inl (e, q)) (inr (g, c, p, x, y, z)) =
      inl (inr (nix e, rw (p, q) refl))
  behind_lem fuel srv a b k n o (inr w) (inr (g, c, p, x, y, z)) =
      subst
        (λ o'.
          let (k', t) = behind_connect sys os net socket fuel name k o' in
          IsRefused t ⊎ Joined srv a b (n, k', t))
        (sym p)
        (inr (record {
          transport = eventfd_transport name g w.events;
          stream = c;
          result = rw w.result refl;
          requests = x;
          responses = y;
          reaches = z;
          requests_wired = w.requests;
          responses_wired = w.responses;
          none_pending = refl;
        }))

  -- Once `new` of the eventfd server has succeeded under a name and the server has sent its two
  -- descriptors on the new connection, `new` of the eventfd transport of this name, whose attempts for
  -- the buffers come in time, makes a transport that shares the two empty buffers of the server, is
  -- connected to its listener, has a descriptor of each of its two counters in its role, and has no
  -- pending request; unless the system refuses the connection or a descriptor with an error. The size
  -- is positive and at most 2 ^ 32 bytes.
  pub new_eventfd-Joined :
      (h h' : Host sys os net) (srv : ShmServerEventfd) (at then_at : ℕ → ShmOs.Os sys)
      (k k' : Kernel) (a b fuel : ℕ)
      → 0 < config.buffer_size
      → config.buffer_size ≤ 2 ^ 32
      → new_event_server sys os net name config h ≡ (h', ok srv)
      → InTime sys name h'.shm at then_at
      → server_object k srv.request_event ≡ some a
      → server_object k srv.response_event ≡ some b
      → in_flight k ≡ []
      → offer socket (events_of srv) k ≡ (k', ok tt)
      → let r = new_eventfd sys os net socket (suc fuel) name at then_at h'.sockets k' in
        IsRefused r.2 ⊎ Joined srv a b r
  unfolding new_eventfd
  new_eventfd-Joined h h' srv at then_at k k' a b fuel pos small runs t req resp quiet sent =
      let (n, o) =
        open_stream sys os net (control_path name) name default_config at then_at h'.sockets in
      behind_lem (suc fuel) srv a b k' n o
        (take_events-Wired socket (events_of srv) k k' a b fuel req resp quiet sent)
        (open_stream-Meets sys os net name config default_config h h' srv at then_at pos small runs
          t)

  -- The system of a transport and its server: both use the transport's mappings.
  abbrev pub system_of :
      ShmTransportEventfd → EventKernel.Kernel os → System (EventKernel.Kernel os)
  system_of t kernel =
      let l = start_response_listener t in
      record {
        gateway = record { request_buffer = t.request_buffer; calls = l.calls };
        response_buffer = t.response_buffer;
        request_buf = replicate 65536 0;
        response_buf = l.response_buf;
        tasks = [];
        kernel = kernel;
        history = [];
        lost = [];
        errors = [];
      }

  pub system_of-IsNew :
      (srv : ShmServerEventfd) (a b : ℕ) (r : Net × Kernel × Option (New ShmTransportEventfd))
      (j : Joined srv a b r) (kernel : EventKernel.Kernel os)
      → IsNew (EventKernel.Kernel os) (system_of j.transport kernel)
  system_of-IsNew srv a b r j kernel = record {
    no_request = j.requests.1;
    no_response = j.responses.1;
    no_task = refl;
    none_sent = refl;
    no_history = refl;
    none_lost = refl;
    no_error = refl;
  }

  -- The same of the Unix-socket transport: its buffers, its connection, and no call that waits.
  pub record JoinedUds (srv : ShmServerUds) (r : Net × Option (New ShmTransportUds)) : Type 0 where
    pub transport : ShmTransportUds
    pub result : r.1 ≡ some (ready transport)
    pub requests :
        IsShared sys name config default_config transport.request_buffer srv.buffers.requests
    pub responses :
        IsShared sys name config default_config transport.response_buffer srv.buffers.responses
    pub reaches : peer r.0 transport.notify_stream ≡ some srv.notify_listener
    pub none_pending : transport.pending_requests ≡ []

  stream_lem :
      (srv : ShmServerUds) (n : Net) (o : Option Opening)
      → Meets sys os net name config default_config srv.buffers srv.notify_listener (n, o)
      → IsRefused (with_stream sys os net socket name o)
        ⊎ JoinedUds srv (n, with_stream sys os net socket name o)
  stream_lem srv n o (inl (e, p)) = inl (inl (e, rw p refl))
  stream_lem srv n o (inr (g, c, p, x, y, z)) =
      subst
        (λ o'.
          IsRefused (with_stream sys os net socket name o')
          ⊎ JoinedUds srv (n, with_stream sys os net socket name o'))
        (sym p)
        (inr (record {
          transport = uds_transport name g c;
          result = refl;
          requests = x;
          responses = y;
          reaches = z;
          none_pending = refl;
        }))

  pub new_uds-JoinedUds :
      (h h' : Host sys os net) (srv : ShmServerUds) (at then_at : ℕ → ShmOs.Os sys)
      → 0 < config.buffer_size
      → config.buffer_size ≤ 2 ^ 32
      → new_uds_server sys os net name config h ≡ (h', ok srv)
      → InTime sys name h'.shm at then_at
      → let r = new_uds sys os net socket name at then_at h'.sockets in
        IsRefused r.1 ⊎ JoinedUds srv r
  unfolding new_uds
  new_uds-JoinedUds h h' srv at then_at pos small runs t =
      let (n, o) =
        open_stream sys os net (notify_path name) name default_config at then_at h'.sockets in
      stream_lem srv n o (
        open_stream-Meets_uds sys os net name config default_config h h' srv at then_at pos small
          runs t)
