-- ===== src/Startup/Sockets/Meets.antt =====
-- The transport reaches the server of its own name, if it does not come too early.
use Prim.Native.String.{String}
use gateway_g_rpc.Prelude.{
  ℕ, ◌^◌, ◌≤◌, ◌<◌, ◌≡◌, ◌⊎◌, inl, inr, refl, sym, subst, Option, none, some,
}
use gateway_g_rpc.Shm.{ok, ShmConfig}
use gateway_g_rpc.EventFd.{EventKernel, Sys, returned, errno}
use gateway_g_rpc.Setup.{ShmOs}
use gateway_g_rpc.Setup.Objects.{Works}
use gateway_g_rpc.Startup.{Buffers, req_name, resp_name, create_buffers}
use gateway_g_rpc.Startup.Shared.{IsShared, connect-shares}
use gateway_g_rpc.Startup.Sockets.{
  Sockets, control_path, notify_path, ShmServerEventfd, ShmServerUds, Opening, opened,
  connect_failed, Host, new_event_server, new_uds_server, stream_of, then_connect, open_stream,
}
use gateway_g_rpc.Startup.Sockets.Listens.{
  Listens, new_event_server-Listens, new_uds_server-Listens,
}

-- The 51 attempts for each buffer come to the system `os'` of the backend in time: until then there is
-- no object of the name, then the system's calls succeed.
pub record InTime (sys : ShmOs) (name : String) (os' : ShmOs.Os sys) (at then_at : ℕ → ShmOs.Os sys)
    : Type 0 where
  pub j : ℕ
  pub k : ℕ
  pub opens_requests : Works sys os' (req_name name)
  pub opens_responses : Works sys os' (resp_name name)
  pub j_in_time : j ≤ 50
  pub k_in_time : k ≤ 50
  pub no_requests : (i : ℕ) → i < j → ShmOs.object sys (at i) (req_name name) ≡ none
  pub no_responses : (i : ℕ) → i < k → ShmOs.object sys (then_at i) (resp_name name) ≡ none
  pub at_j : at j ≡ os'
  pub at_k : then_at k ≡ os'

module _ (sys : ShmOs) (os : EventKernel) (net : Sockets) (name : String)
    (config config' : ShmConfig) where
  open net use {
    Net, listener, peer, bind, bind-listens, connect-reaches, connect-missing, connect_to,
    remove_file,
  }

  -- The gateway shares the buffers `b` and is connected to the listener `l`, or the system has
  -- refused the connection with an error.
  abbrev pub Meets : Buffers → ℕ → Net × Option Opening → Type 0
  Meets b l r =
      ((e : ℕ) × (r.1 ≡ some (connect_failed e)))
      ⊎ ((g : Buffers) × (c : ℕ) × (r.1 ≡ some (opened g c))
          × IsShared sys name config config' g.requests b.requests
          × IsShared sys name config config' g.responses b.responses
          × (peer r.0 c ≡ some l))

  stream_lem :
      (g b : Buffers) (n : Net) (path : String) (l : ℕ) (z : Net × Sys ℕ)
      → connect_to path n ≡ z
      → listener n path ≡ some l
      → IsShared sys name config config' g.requests b.requests
      → IsShared sys name config config' g.responses b.responses
      → Meets b l (stream_of sys os net g z)
  stream_lem g b n path l (n', returned c) e there x y =
      inr (g, c, refl, x, y, connect-reaches n n' path l c there e)
  stream_lem g b n path l (n', errno e') e there x y = inl (e', refl)

  Listens-Meets :
      (path : String) (h h' : Host sys os net) (b : Buffers) (l : ℕ) (at then_at : ℕ → ShmOs.Os sys)
      → 0 < config.buffer_size
      → config.buffer_size ≤ 2 ^ 32
      → Listens sys os net name config path h h' b l
      → InTime sys name h'.shm at then_at
      → Meets b l (open_stream sys os net path name config' at then_at h'.sockets)
  unfolding open_stream
  Listens-Meets path h h' b l at then_at pos small s t =
      let (g, found, x, y) =
        connect-shares sys name config config' h.shm h'.shm b at then_at t.j t.k pos small s.created
          t.opens_requests t.opens_responses t.j_in_time t.k_in_time t.no_requests t.no_responses
          t.at_j t.at_k in
      subst (λ o. Meets b l (then_connect sys os net path h'.sockets o)) (sym found)
        (stream_lem g b h'.sockets path l (connect_to path h'.sockets) refl s.listens x y)

  -- Once `new` of the eventfd server has succeeded under a name, the eventfd transport of the same
  -- name, whose attempts come in time, shares the two buffers of this server and is connected to its
  -- listener, unless the system refuses the connection; whatever was bound to the path before, and
  -- whatever configuration the transport has. The size is positive and at most 2 ^ 32 bytes.
  pub open_stream-Meets :
      (h h' : Host sys os net) (srv : ShmServerEventfd) (at then_at : ℕ → ShmOs.Os sys)
      → 0 < config.buffer_size
      → config.buffer_size ≤ 2 ^ 32
      → new_event_server sys os net name config h ≡ (h', ok srv)
      → InTime sys name h'.shm at then_at
      → Meets srv.buffers srv.control_listener
          (open_stream sys os net (control_path name) name config' at then_at h'.sockets)
  open_stream-Meets h h' srv at then_at pos small p t =
      Listens-Meets (control_path name) h h' srv.buffers srv.control_listener at then_at pos small
        (new_event_server-Listens sys os net name config h h' srv p) t

  -- The same of the Unix-socket server and its transport.
  pub open_stream-Meets_uds :
      (h h' : Host sys os net) (srv : ShmServerUds) (at then_at : ℕ → ShmOs.Os sys)
      → 0 < config.buffer_size
      → config.buffer_size ≤ 2 ^ 32
      → new_uds_server sys os net name config h ≡ (h', ok srv)
      → InTime sys name h'.shm at then_at
      → Meets srv.buffers srv.notify_listener
          (open_stream sys os net (notify_path name) name config' at then_at h'.sockets)
  open_stream-Meets_uds h h' srv at then_at pos small p t =
      Listens-Meets (notify_path name) h h' srv.buffers srv.notify_listener at then_at pos small
        (new_uds_server-Listens sys os net name config h h' srv p) t

  -- A transport that comes when the backend has created its buffers and not yet bound its socket
  -- fails at once: it waits for the buffers and not for the socket.
  pub open_stream-too_early :
      (path : String) (shm shm' : ShmOs.Os sys) (b : Buffers) (at then_at : ℕ → ShmOs.Os sys)
      (n : Net)
      → 0 < config.buffer_size
      → config.buffer_size ≤ 2 ^ 32
      → create_buffers sys name config shm ≡ (shm', ok b)
      → InTime sys name shm' at then_at
      → listener n path ≡ none
      → (e : ℕ) × (open_stream sys os net path name config' at then_at n
          ≡ (n, some (connect_failed e)))
  unfolding open_stream
  open_stream-too_early path shm shm' b at then_at n pos small c t gone =
      let (g, found, x, y) =
        connect-shares sys name config config' shm shm' b at then_at t.j t.k pos small c
          t.opens_requests t.opens_responses t.j_in_time t.k_in_time t.no_requests t.no_responses
          t.at_j t.at_k in
      let (e, refused) = connect-missing n path gone in (e, rw (found, refused))
