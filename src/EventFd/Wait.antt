-- ===== src/EventFd/Wait.antt =====
-- The loops that wait for a signal, over the rounds that find none.
use gateway_g_rpc.Prelude.{ℕ, suc, ◌≡◌, inl, inr, ◌∙◌, false, some, List, [], ◌∷◌, ◌++◌, arith}
use gateway_g_rpc.Shm.{ok}
use gateway_g_rpc.EventFd.{EventKernel, EventFd, wait_round, wait_eventfd}
use gateway_g_rpc.EventFd.Laws.{wait_round_lem}

module _ (os : EventKernel) (e : EventFd) where
  open os use {Kernel, counter}

  -- No signal in any of the kernels.
  abbrev pub AllSilent : List Kernel → Type 0
  AllSilent [] = Unit
  AllSilent (k ∷ ks) = (counter k e.fd ≡ some (false, 0)) × AllSilent ks

  silent-step :
      (k : Kernel) (ks : List Kernel)
      → counter k e.fd ≡ some (false, 0)
      → wait_eventfd os e (k ∷ ks) ≡ wait_eventfd os e ks
  unfolding wait_eventfd
  silent-step k ks h = elim (wait_round_lem os e k 0 h) [
    | inl (z, r) ↦ ground (arith, r)
    | inr (p, r, c) ↦ absurd (omega arith)
  ]

  found-step :
      (k : Kernel) (ks : List Kernel) (c : ℕ)
      → (wait_round os e k).1 ≡ some (ok c)
      → wait_eventfd os e (k ∷ ks) ≡ some ((wait_round os e k).0, ok c)
  unfolding wait_eventfd
  found-step k ks c h = ground (arith, h)

  -- After any number of rounds that find the counter empty, the first round that finds signals ends
  -- the loop: it returns their number, and leaves the counter empty.
  pub wait_eventfd_lem :
      (before after : List Kernel) (k : Kernel) (c : ℕ)
      → AllSilent before
      → counter k e.fd ≡ some (false, suc c)
      → (k' : Kernel) × (wait_eventfd os e (before ++ (k ∷ after)) ≡ some (k', ok (suc c)))
        × (counter k' e.fd ≡ some (false, 0))
  wait_eventfd_lem [] after k c silent h = elim (wait_round_lem os e k (suc c) h) [
    | inl (z, r) ↦ absurd (omega arith)
    | inr (p, r, left) ↦ ((wait_round os e k).0, found-step k after (suc c) r, left)
  ]
  wait_eventfd_lem (b ∷ before) after k c (quiet, silent) h =
      let (k', run, left) = wait_eventfd_lem before after k c silent h in
      (k', silent-step b (before ++ (k ∷ after)) quiet ∙ run, left)
