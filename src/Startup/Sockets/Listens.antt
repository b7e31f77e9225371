-- ===== src/Startup/Sockets/Listens.antt =====
-- What `new` of the multiplexed servers leaves: the two buffers, and a listener bound to the path.
use Prim.Native.String.{String}
use gateway_g_rpc.Prelude.{ℕ, ◌≡◌, refl, subst, false, some}
use gateway_g_rpc.Shm.{ShmError, Fault, Outcome, ok, err, fault, ShmConfig}
use gateway_g_rpc.EventFd.{EventKernel, Sys, returned, errno}
use gateway_g_rpc.Setup.{ShmOs}
use gateway_g_rpc.Startup.{Buffers, create_buffers}
use gateway_g_rpc.Startup.Sockets.{
  Sockets, control_path, notify_path, ShmServerEventfd, ShmServerUds, Host, made, bound_events,
  bind_control, second_event, with_events, new_event_server, bound_notify, bind_notify,
  new_uds_server,
}

-- A call that has failed has not succeeded.
ok-ne {ℓ κ} :
    {H : Type κ} {A : Type ℓ} {h h' : H} {e : ShmError} {a : A}
    → ◌≡◌ {A = H × Outcome A} (h, err e) (h', ok a)
    → ⊥
ok-ne p = cc

fault-ne {ℓ κ} :
    {H : Type κ} {A : Type ℓ} {h h' : H} {f : Fault} {a : A}
    → ◌≡◌ {A = H × Outcome A} (h, fault f) (h', ok a)
    → ⊥
fault-ne p = cc

unpair {ℓ κ} :
    {H : Type κ} {A : Type ℓ} {h h' : H} {a b : A}
    → ◌≡◌ {A = H × Outcome A} (h, ok a) (h', ok b)
    → ◌≡◌ {A = H × A} (h, a) (h', b)
unpair p = cc

module _ (sys : ShmOs) (os : EventKernel) (net : Sockets) (name : String) (config : ShmConfig) where
  open net use {
    Net, listener, peer, bind, bind-listens, connect-reaches, connect-missing, connect_to,
    remove_file,
  }

  -- What a server's `new` leaves: its buffers, and its listener bound to the path.
  pub record Listens (path : String) (h h' : Host sys os net) (b : Buffers) (l : ℕ) : Type 0 where
    pub created : create_buffers sys name config h.shm ≡ (h'.shm, ok b)
    pub listens : listener h'.sockets path ≡ some l

  bound_lem :
      (h h₁ h' : Host sys os net) (b : Buffers) (req resp : ℕ) (n : Net) (z : Net × Sys ℕ)
      (srv : ShmServerEventfd)
      → bind (control_path name) n ≡ z
      → create_buffers sys name config h.shm ≡ (h₁.shm, ok b)
      → bound_events sys os net b req resp h₁ z ≡ (h', ok srv)
      → Listens (control_path name) h h' srv.buffers srv.control_listener
  bound_lem h h₁ h' b req resp n (sockets, returned l) srv e c p =
      subst
        (λ (q : Host sys os net × ShmServerEventfd).
          Listens (control_path name) h q.0 q.1.buffers q.1.control_listener)
        (unpair p)
        (record { created = c; listens = bind-listens n sockets (control_path name) l e })
  bound_lem h h₁ h' b req resp n (sockets, errno e') srv e c p = absurd (ok-ne p)

  control_lem :
      (h h₁ h' : Host sys os net) (b : Buffers) (req : ℕ) (y : EventKernel.Kernel os × Sys ℕ)
      (srv : ShmServerEventfd)
      → create_buffers sys name config h.shm ≡ (h₁.shm, ok b)
      → bind_control sys os net name b req h₁ y ≡ (h', ok srv)
      → Listens (control_path name) h h' srv.buffers srv.control_listener
  control_lem h h₁ h' b req (kernel, returned resp) srv c p =
      bound_lem h (record h₁ { kernel = kernel }) h' b req resp
        (remove_file (control_path name) h₁.sockets)
        (bind (control_path name) (remove_file (control_path name) h₁.sockets)) srv refl c p
  control_lem h h₁ h' b req (kernel, errno e) srv c p = absurd (ok-ne p)

  event_lem :
      (h h₁ h' : Host sys os net) (b : Buffers) (y : EventKernel.Kernel os × Sys ℕ)
      (srv : ShmServerEventfd)
      → create_buffers sys name config h.shm ≡ (h₁.shm, ok b)
      → second_event sys os net name b h₁ y ≡ (h', ok srv)
      → Listens (control_path name) h h' srv.buffers srv.control_listener
  event_lem h h₁ h' b (kernel, returned req) srv c p =
      control_lem h (record h₁ { kernel = kernel }) h' b req (EventKernel.eventfd os false kernel)
        srv c p
  event_lem h h₁ h' b (kernel, errno e) srv c p = absurd (ok-ne p)

  made_lem :
      (h h' : Host sys os net) (r : ShmOs.Os sys × Outcome Buffers) (srv : ShmServerEventfd)
      → create_buffers sys name config h.shm ≡ r
      → with_events sys os net name (made sys os net h r) ≡ (h', ok srv)
      → Listens (control_path name) h h' srv.buffers srv.control_listener
  made_lem h h' (shm, ok b) srv c p =
      event_lem h (record h { shm = shm }) h' b (EventKernel.eventfd os false h.kernel) srv c p
  made_lem h h' (shm, err e) srv c p = absurd (ok-ne p)
  made_lem h h' (shm, fault f) srv c p = absurd (fault-ne p)

  pub new_event_server-Listens :
      (h h' : Host sys os net) (srv : ShmServerEventfd)
      → new_event_server sys os net name config h ≡ (h', ok srv)
      → Listens (control_path name) h h' srv.buffers srv.control_listener
  unfolding new_event_server
  new_event_server-Listens h h' srv p =
      made_lem h h' (create_buffers sys name config h.shm) srv refl p

  notify_lem :
      (h h₁ h' : Host sys os net) (b : Buffers) (n : Net) (z : Net × Sys ℕ) (srv : ShmServerUds)
      → bind (notify_path name) n ≡ z
      → create_buffers sys name config h.shm ≡ (h₁.shm, ok b)
      → bound_notify sys os net b h₁ z ≡ (h', ok srv)
      → Listens (notify_path name) h h' srv.buffers srv.notify_listener
  notify_lem h h₁ h' b n (sockets, returned l) srv e c p =
      subst
        (λ (q : Host sys os net × ShmServerUds).
          Listens (notify_path name) h q.0 q.1.buffers q.1.notify_listener)
        (unpair p) (record { created = c; listens = bind-listens n sockets (notify_path name) l e })
  notify_lem h h₁ h' b n (sockets, errno e') srv e c p = absurd (ok-ne p)

  made_uds_lem :
      (h h' : Host sys os net) (r : ShmOs.Os sys × Outcome Buffers) (srv : ShmServerUds)
      → create_buffers sys name config h.shm ≡ r
      → bind_notify sys os net name (made sys os net h r) ≡ (h', ok srv)
      → Listens (notify_path name) h h' srv.buffers srv.notify_listener
  made_uds_lem h h' (shm, ok b) srv c p =
      notify_lem h (record h { shm = shm }) h' b (remove_file (notify_path name) h.sockets)
        (bind (notify_path name) (remove_file (notify_path name) h.sockets)) srv refl c p
  made_uds_lem h h' (shm, err e) srv c p = absurd (ok-ne p)
  made_uds_lem h h' (shm, fault f) srv c p = absurd (fault-ne p)

  pub new_uds_server-Listens :
      (h h' : Host sys os net) (srv : ShmServerUds)
      → new_uds_server sys os net name config h ≡ (h', ok srv)
      → Listens (notify_path name) h h' srv.buffers srv.notify_listener
  unfolding new_uds_server
  new_uds_server-Listens h h' srv p =
      made_uds_lem h h' (create_buffers sys name config h.shm) srv refl p
