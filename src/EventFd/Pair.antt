-- ===== src/EventFd/Pair.antt =====
-- shared-memory/src/eventfd.rs: `EventFdPair` and its two ends.
use gateway_g_rpc.Prelude.{ℕ, ◌≡◌, refl, ap, ◌∙◌, inl, Option}
use gateway_g_rpc.Shm.{nix, Outcome, ok, err, fault}
use gateway_g_rpc.EventFd.{EventKernel, EventFd, ebadf, new, signal, wait, try_wait, drop_fd}
use gateway_g_rpc.EventFd.Laws.{new-closed, new-gone}

ok-injective : {A : Type 0} {a b : A} → ok a ≡ ok b → a ≡ b
ok-injective q = cc

pub record EventFdPair : Type 0 where
  pub tx : EventFd
  pub rx : EventFd

pub record EventFdSender : Type 0 where
  pub notify : EventFd

pub record EventFdReceiver : Type 0 where
  pub wait : EventFd

abbrev pub split : EventFdPair → EventFdSender × EventFdReceiver
split self = (record { notify = self.tx }, record { wait = self.rx })

module _ (os : EventKernel) where
  open os use {Kernel, counter, read-closed}

  -- An error of the second `EventFd::new` drops the first counter.
  abbrev pub second_new : EventFd → Kernel × Outcome EventFd → Kernel × Outcome EventFdPair
  second_new tx (k, ok rx) = (k, ok (record { tx = tx; rx = rx }))
  second_new tx (k, err e) = (drop_fd os tx k, err e)
  second_new tx (k, fault f) = (drop_fd os tx k, fault f)

  abbrev pub first_new : Kernel × Outcome EventFd → Kernel × Outcome EventFdPair
  first_new (k, ok tx) = second_new tx (new os k)
  first_new (k, err e) = (k, err e)
  first_new (k, fault f) = (k, fault f)

  -- `EventFdPair::new`
  unfoldable pub new_pair : Kernel → Kernel × Outcome EventFdPair
  new_pair k = first_new (new os k)

  -- `EventFdSender::notify`
  abbrev pub notify : EventFdSender → Kernel → Kernel × Outcome (Unit {0})
  notify self k = signal os self.notify k

  -- `EventFdReceiver::wait` and `try_wait`
  abbrev pub wait_receiver : EventFdReceiver → Kernel → Kernel × Outcome ℕ
  wait_receiver self k = wait os self.wait k

  abbrev pub try_wait_receiver : EventFdReceiver → Kernel → Kernel × Outcome (Option ℕ)
  try_wait_receiver self k = try_wait os self.wait k

  second-new :
      (tx : EventFd) (r : Kernel × Outcome EventFd) (k k' : Kernel) (pair : EventFdPair)
      → new os k ≡ r
      → second_new tx r ≡ (k', ok pair)
      → new os k ≡ (k', ok pair.rx)
  second-new tx (k₁, ok rx) k k' pair p h =
      let same : ok (record { tx = tx; rx = rx }) ≡ ok pair =
        ap (λ (q : Kernel × Outcome EventFdPair). q.1) h in
      let at : k₁ ≡ k' = ap (λ (q : Kernel × Outcome EventFdPair). q.0) h in
      p ∙ rw at (ap (λ (e : EventFdPair). (k', ok e.rx)) (ok-injective same))
  second-new tx (k₁, err e) k k' pair p h =
      absurd (not_ok (ap (λ (q : Kernel × Outcome EventFdPair). q.1) h))
    where
      not_ok : err e ≡ ok pair → ⊥
      not_ok q = cc
  second-new tx (k₁, fault f) k k' pair p h =
      absurd (not_ok (ap (λ (q : Kernel × Outcome EventFdPair). q.1) h))
    where
      not_ok : fault f ≡ ok pair → ⊥
      not_ok q = cc

  first-new :
      (r : Kernel × Outcome EventFd) (k' : Kernel) (pair : EventFdPair)
      → first_new r ≡ (k', ok pair)
      → (k : Kernel) × (new os k ≡ (k', ok pair.rx))
  first-new (k, ok tx) k' pair h = (k, second-new tx (new os k) k k' pair refl h)
  first-new (k, err e) k' pair h =
      absurd (not_ok (ap (λ (q : Kernel × Outcome EventFdPair). q.1) h))
    where
      not_ok : err e ≡ ok pair → ⊥
      not_ok q = cc
  first-new (k, fault f) k' pair h =
      absurd (not_ok (ap (λ (q : Kernel × Outcome EventFdPair). q.1) h))
    where
      not_ok : fault f ≡ ok pair → ⊥
      not_ok q = cc

  -- The receiver of every pair that `new` returns is closed: its `wait` and its `try_wait` fail with
  -- `EBADF`.
  pub new_pair-closed :
      (k k' : Kernel) (pair : EventFdPair)
      → new_pair k ≡ (k', ok pair)
      → let receiver = (split pair).1 in
        (wait_receiver receiver k' ≡ (k', err (nix ebadf)))
        × (try_wait_receiver receiver k' ≡ (k', err (nix ebadf)))
  unfolding new_pair try_wait
  new_pair-closed k k' pair h =
      let (k₁, made) = first-new (new os k) k' pair h in
      (
        (new-closed os pair.rx k₁ k' (inl made)).1,
        rw (read-closed k' pair.rx.fd (new-gone os pair.rx k₁ k' (inl made))) refl,
      )
