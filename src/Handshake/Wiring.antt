-- ===== src/Handshake/Wiring.antt =====
-- The gateway's counters are the server's, each in its role.
use gateway_g_rpc.Prelude.{
  ℕ, suc, ◌≡◌, ◌≢◌, ◌⊎◌, inl, inr, refl, sym, ap, subst, ◌∙◌, false, Option, some, List, [], ◌∷◌,
  ◌++◌, arith, ◌==◌, ==_iff,
}
use gateway_g_rpc.Shm.{nix, Outcome, ok, err}
use gateway_g_rpc.EventFd.{Sys, returned, errno, eagain}
use gateway_g_rpc.Handshake.{
  FdSocket, Events, sent, send_eventfd, send_second, offer, round, retry, recv_eventfd,
  second_received, first_received, take_events,
}

module _ (socket : FdSocket) where
  open socket use {
    Kernel, server_object, gateway_object, in_flight, sendmsg, recvmsg, send-queues, send-keeps,
    recv-ready, recv-takes, recv-keeps,
  }

  sent-ok :
      (k k' : Kernel) (r : Kernel × Sys (Unit {0}))
      → sent socket r ≡ (k', ok tt)
      → r ≡ (k', returned tt)
  sent-ok k k' (k₁, returned _) h = ap (λ (q : Kernel × Outcome (Unit {0})). (q.0, returned tt)) h
  sent-ok k k' (k₁, errno e) h = absurd (failed (ap (λ (q : Kernel × Outcome (Unit {0})). q.1) h))
    where
      failed : ◌≡◌ {A = Outcome (Unit {0})} (err (nix e)) (ok tt) → ⊥
      failed q = cc

  second-ok :
      (e : Events) (k k' : Kernel) (a b : ℕ) (r : Kernel × Sys (Unit {0}))
      → sendmsg e.request_event k ≡ r
      → send_second socket e.response_event (sent socket r) ≡ (k', ok tt)
      → server_object k e.request_event ≡ some a
      → server_object k e.response_event ≡ some b
      → in_flight k ≡ []
      → in_flight k' ≡ (a ∷ []) ∷ (b ∷ []) ∷ []
  unfolding send_eventfd
  second-ok e k k' a b (k₁, errno n) p h req resp quiet =
      absurd (failed (ap (λ (q : Kernel × Outcome (Unit {0})). q.1) h))
    where
      failed : ◌≡◌ {A = Outcome (Unit {0})} (err (nix n)) (ok tt) → ⊥
      failed q = cc
  second-ok e k k' a b (k₁, returned _) p h req resp quiet =
      send-queues k₁ k' e.response_event b
        (send-keeps k k₁ e.request_event e.response_event p ∙ resp)
        (sent-ok k₁ k' (sendmsg e.response_event k₁) h)
      ∙ ap (λ ms. ms ++ ((b ∷ []) ∷ []))
          (send-queues k k₁ e.request_event a req p ∙ ap (λ ms. ms ++ ((a ∷ []) ∷ [])) quiet)

  offered :
      (e : Events) (k k' : Kernel) (a b : ℕ)
      → offer socket e k ≡ (k', ok tt)
      → server_object k e.request_event ≡ some a
      → server_object k e.response_event ≡ some b
      → in_flight k ≡ []
      → in_flight k' ≡ (a ∷ []) ∷ (b ∷ []) ∷ []
  unfolding offer send_eventfd
  offered e k k' a b h req resp quiet =
      second-ok e k k' a b (sendmsg e.request_event k) refl h req resp quiet

  -- The system failed, with an error that is not retried.
  abbrev pub SystemError {ℓ} : {A : Type ℓ} → Option (Outcome A) → Type ℓ
  SystemError r = (e : ℕ) × (r ≡ some (err (nix e)))

  -- What one receipt leaves: the oldest object under a descriptor of the gateway.
  pub record Received (k : Kernel) (o : ℕ) (ms : List (List ℕ)) (r : Kernel × Option (Outcome ℕ))
      : Type 0 where
    pub fd : ℕ
    pub result : r.1 ≡ some (ok fd)
    pub refers : gateway_object r.0 fd ≡ some o
    pub left : in_flight r.0 ≡ ms
    pub kept : (g p : ℕ) → gateway_object k g ≡ some p → gateway_object r.0 g ≡ some p

  round-Received :
      (k : Kernel) (o : ℕ) (ms : List (List ℕ)) (r : Kernel × Sys (List ℕ))
      → recvmsg k ≡ r
      → in_flight k ≡ (o ∷ []) ∷ ms
      → SystemError (round socket r).1 ⊎ Received k o ms (round socket r)
  round-Received k o ms (k₁, errno e) p queued = inl (e, rw (not_again e (λ q. again q)))
    where
      again : e ≡ eagain → ⊥
      again q =
          recv-ready k (o ∷ []) ms queued (ap (λ (s : Kernel × Sys (List ℕ)). s.1) p ∙ ap errno q)

      not_again : (n : ℕ) → n ≢ eagain → (n == eagain) ≡ false
      not_again n ne = ground (arith, ==_iff n eagain)
  round-Received k o ms (k₁, returned fds) p queued =
      taken fds (recv-takes k k₁ o ms fds queued p) (λ g n h. recv-keeps k k₁ fds g n p h)
    where
      taken :
          (fds : List ℕ)
          → ((fd : ℕ) × (fds ≡ fd ∷ []) × (gateway_object k₁ fd ≡ some o) × (in_flight k₁ ≡ ms))
          → ((g n : ℕ) → gateway_object k g ≡ some n → gateway_object k₁ g ≡ some n)
          → SystemError (round socket (k₁, returned fds)).1
            ⊎ Received k o ms (round socket (k₁, returned fds))
      taken [] (fd, e, refers, left) kept = absurd (empty e)
        where
          empty : [] ≡ fd ∷ [] → ⊥
          empty q = cc
      taken (x ∷ xs) (fd, e, refers, left) kept = inr (record {
        fd = x;
        result = refl;
        refers = ap (gateway_object k₁) (same e) ∙ refers;
        left = left;
        kept = kept;
      })
        where
          same : x ∷ xs ≡ fd ∷ [] → x ≡ fd
          same q = cc

  retry-Received :
      (rest : Kernel → Kernel × Option (Outcome ℕ)) (k : Kernel) (o : ℕ) (ms : List (List ℕ))
      (r : Kernel × Option (Outcome ℕ))
      → SystemError r.1 ⊎ Received k o ms r
      → SystemError (retry socket rest r).1 ⊎ Received k o ms (retry socket rest r)
  retry-Received rest k o ms (k₁, r) (inl (e, p)) = inl (e, rw p)
  retry-Received rest k o ms (k₁, r) (inr x) = inr (record {
    fd = x.fd;
    result = rw x.result;
    refers = rw x.result x.refers;
    left = rw x.result x.left;
    kept = rw x.result x.kept;
  })

  recv-Received :
      (fuel : ℕ) (k : Kernel) (o : ℕ) (ms : List (List ℕ))
      → in_flight k ≡ (o ∷ []) ∷ ms
      → SystemError (recv_eventfd socket (suc fuel) k).1
        ⊎ Received k o ms (recv_eventfd socket (suc fuel) k)
  unfolding recv_eventfd
  recv-Received fuel k o ms queued =
      retry-Received (λ k'. recv_eventfd socket fuel k') k o ms (round socket (recvmsg k))
        (round-Received k o ms (recvmsg k) refl queued)

  -- What the gateway has: a descriptor for each of the two objects, each in its role.
  pub record Wired (a b : ℕ) (r : Kernel × Option (Outcome Events)) : Type 0 where
    pub events : Events
    pub result : r.1 ≡ some (ok events)
    pub requests : gateway_object r.0 events.request_event ≡ some a
    pub responses : gateway_object r.0 events.response_event ≡ some b
    pub quiet : in_flight r.0 ≡ []

  second-Wired :
      (k : Kernel) (a b fd : ℕ) (r : Kernel × Option (Outcome ℕ))
      → gateway_object k fd ≡ some a
      → SystemError r.1 ⊎ Received k b [] r
      → SystemError (second_received socket fd r).1 ⊎ Wired a b (second_received socket fd r)
  second-Wired k a b fd (k₁, r) refers (inl (e, p)) = inl (e, rw p)
  second-Wired k a b fd (k₁, r) refers (inr x) = inr (record {
    events = record { request_event = fd; response_event = x.fd };
    result = rw x.result;
    requests = rw x.result (x.kept fd a refers);
    responses = rw x.result x.refers;
    quiet = rw x.result x.left;
  })

  first-Wired :
      (fuel : ℕ) (k : Kernel) (a b : ℕ) (r : Kernel × Option (Outcome ℕ))
      → SystemError r.1 ⊎ Received k a ((b ∷ []) ∷ []) r
      → SystemError (first_received socket (suc fuel) r).1
        ⊎ Wired a b (first_received socket (suc fuel) r)
  first-Wired fuel k a b (k₁, r) (inl (e, p)) = inl (e, rw p)
  first-Wired fuel k a b (k₁, r) (inr x) =
      subst
        (λ o.
          SystemError (first_received socket (suc fuel) (k₁, o)).1
          ⊎ Wired a b (first_received socket (suc fuel) (k₁, o)))
        (sym x.result)
        (second-Wired k₁ a b x.fd (recv_eventfd socket (suc fuel) k₁) x.refers
          (recv-Received fuel k₁ b [] x.left))

  -- Once the server has sent its two descriptors on a socket with nothing in flight, the gateway gets
  -- a descriptor for each, without waiting: its request event is the server's request event, its
  -- response event the server's response event, and nothing is left on the socket; unless the system
  -- fails with an error.
  pub take_events-Wired :
      (e : Events) (k k' : Kernel) (a b fuel : ℕ)
      → server_object k e.request_event ≡ some a
      → server_object k e.response_event ≡ some b
      → in_flight k ≡ []
      → offer socket e k ≡ (k', ok tt)
      → SystemError (take_events socket (suc fuel) k').1
        ⊎ Wired a b (take_events socket (suc fuel) k')
  unfolding take_events
  take_events-Wired e k k' a b fuel req resp quiet h =
      first-Wired fuel k' a b (recv_eventfd socket (suc fuel) k')
        (recv-Received fuel k' a ((b ∷ []) ∷ []) (offered e k k' a b h req resp quiet))
