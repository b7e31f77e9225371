-- ===== src/Handshake.antt =====
-- How the eventfd server hands its two event counters to the gateway: `send_eventfd` and the start of
-- `run` in backend/src/shm_server_eventfd.rs, `recv_eventfd` and `new` in
-- gateway/src/shm_transport_eventfd.rs, over descriptors that are sent on a Unix socket.
pub mod Wiring
use gateway_g_rpc.Prelude.{
  ℕ, zero, suc, ◌≡◌, Option, none, some, List, [], ◌∷◌, ◌++◌, ◌==◌, if◌then◌else◌,
}
use gateway_g_rpc.Shm.{nix, invalid_state, Outcome, ok, err, fault, ◌>>=◌}
use gateway_g_rpc.EventFd.{Sys, returned, errno, eagain}

-- A Unix socket between the server and the gateway, whose messages carry descriptors (unix(7)).
-- A descriptor of either process refers to an object; `in_flight` are the objects of the messages
-- that are sent and not received, oldest first. `recvmsg` returns the descriptors of the first
-- `ScmRights`, and none if there is none.
pub record FdSocket : Type 1 where
  pub Kernel : Type 0
  pub server_object : Kernel → ℕ → Option ℕ
  pub gateway_object : Kernel → ℕ → Option ℕ
  pub in_flight : Kernel → List (List ℕ)
  pub sendmsg : ℕ → Kernel → Kernel × Sys (Unit {0})
  pub recvmsg : Kernel → Kernel × Sys (List ℕ)
  pub send-queues :
      (k k' : Kernel) (fd o : ℕ)
      → server_object k fd ≡ some o
      → sendmsg fd k ≡ (k', returned tt)
      → in_flight k' ≡ in_flight k ++ ((o ∷ []) ∷ [])
  pub send-keeps :
      (k k' : Kernel) (fd other : ℕ)
      → sendmsg fd k ≡ (k', returned tt)
      → server_object k' other ≡ server_object k other
  pub recv-ready :
      (k : Kernel) (m : List ℕ) (ms : List (List ℕ))
      → in_flight k ≡ m ∷ ms
      → (recvmsg k).1 ≡ errno eagain
      → ⊥
  pub recv-takes :
      (k k' : Kernel) (o : ℕ) (ms : List (List ℕ)) (fds : List ℕ)
      → in_flight k ≡ (o ∷ []) ∷ ms
      → recvmsg k ≡ (k', returned fds)
      → (fd : ℕ) × (fds ≡ fd ∷ []) × (gateway_object k' fd ≡ some o) × (in_flight k' ≡ ms)
  pub recv-keeps :
      (k k' : Kernel) (fds : List ℕ) (fd o : ℕ)
      → recvmsg k ≡ (k', returned fds)
      → gateway_object k fd ≡ some o
      → gateway_object k' fd ≡ some o

-- The two event counters of one side, by their descriptors.
pub record Events : Type 0 where
  pub request_event : ℕ
  pub response_event : ℕ

module _ (socket : FdSocket) where
  open socket use {Kernel, sendmsg, recvmsg}

  abbrev pub sent : Kernel × Sys (Unit {0}) → Kernel × Outcome (Unit {0})
  sent (k, returned _) = (k, ok tt)
  sent (k, errno e) = (k, err (nix e))

  unfoldable pub send_eventfd : ℕ → Kernel → Kernel × Outcome (Unit {0})
  send_eventfd fd k = sent (sendmsg fd k)

  abbrev pub send_second : ℕ → Kernel × Outcome (Unit {0}) → Kernel × Outcome (Unit {0})
  send_second fd (k, ok _) = send_eventfd fd k
  send_second fd (k, err e) = (k, err e)
  send_second fd (k, fault f) = (k, fault f)

  -- The server's part, behind `accept`.
  unfoldable pub offer : Events → Kernel → Kernel × Outcome (Unit {0})
  unfolding send_eventfd
  offer e k = send_second e.response_event (send_eventfd e.request_event k)

  -- One round of the loop of `recv_eventfd`, once the socket is readable: `none` goes round again. A
  -- message with no descriptor is the error `invalid_state` here.
  abbrev pub round : Kernel × Sys (List ℕ) → Kernel × Option (Outcome ℕ)
  round (k, returned []) = (k, some (err invalid_state))
  round (k, returned (fd ∷ fds)) = (k, some (ok fd))
  round (k, errno e) = (k, if e == eagain then none else some (err (nix e)))

  -- A round that has come to nothing is followed by the rest of the loop.
  abbrev pub retry :
      (Kernel → Kernel × Option (Outcome ℕ))
      → Kernel × Option (Outcome ℕ)
      → Kernel × Option (Outcome ℕ)
  retry rest (k, none) = rest k
  retry rest (k, some r) = (k, some r)

  -- `none` if the fuel runs out.
  pub recv_eventfd : ℕ → Kernel → Kernel × Option (Outcome ℕ)
  recv_eventfd zero k = (k, none)
  recv_eventfd (suc fuel) k = retry (λ k'. recv_eventfd fuel k') (round (recvmsg k))

  abbrev pub second_received : ℕ → Kernel × Option (Outcome ℕ) → Kernel × Option (Outcome Events)
  second_received request_event (k, none) = (k, none)
  second_received request_event (k, some (ok fd)) =
      (k, some (ok (record { request_event = request_event; response_event = fd })))
  second_received request_event (k, some (err e)) = (k, some (err e))
  second_received request_event (k, some (fault f)) = (k, some (fault f))

  abbrev pub first_received : ℕ → Kernel × Option (Outcome ℕ) → Kernel × Option (Outcome Events)
  first_received fuel (k, none) = (k, none)
  first_received fuel (k, some (ok fd)) = second_received fd (recv_eventfd fuel k)
  first_received fuel (k, some (err e)) = (k, some (err e))
  first_received fuel (k, some (fault f)) = (k, some (fault f))

  -- The gateway's part, behind `connect`.
  pub take_events : ℕ → Kernel → Kernel × Option (Outcome Events)
  unfolding recv_eventfd
  take_events fuel k = first_received fuel (recv_eventfd fuel k)
