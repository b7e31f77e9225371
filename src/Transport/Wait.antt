-- ===== src/Transport/Wait.antt =====
-- How often `wait_for_shm` tries, and what it returns.
use gateway_g_rpc.Prelude.{
  ℕ, zero, suc, ◌+◌, ◌≤◌, ◌<◌, ◌≡◌, ◌≢◌, Option, none, some, refl, ap, arith, dec_lt,
}
use gateway_g_rpc.Transport.{wait_loop, wait_for_shm}

module _ {ℓ} {B : Type ℓ} (opens : ℕ → Option B) where
  found_lem :
      (fuel a k : ℕ) (b : B)
      → fuel + a ≡ 51
      → a ≤ k
      → k ≤ 50
      → ((j : ℕ) → j < k → opens j ≡ none)
      → opens k ≡ some b
      → wait_loop opens fuel a ≡ some (some b)
  unfolding wait_loop
  found_lem zero a k b e ha hk before here = absurd (omega arith)
  found_lem (suc fuel) a k b e ha hk before here = elim (dec_lt a k) [
    | yes lt ↦ ground (arith, before a lt, found_lem fuel (a + 1) k b)
    | no ge ↦ let e' : a ≡ k = omega arith in ground (arith, here, ap opens e')
  ]

  timeout_lem :
      (fuel a : ℕ)
      → fuel + a ≡ 51
      → a ≤ 50
      → ((j : ℕ) → j ≤ 50 → opens j ≡ none)
      → wait_loop opens fuel a ≡ some none
  unfolding wait_loop
  timeout_lem zero a e ha never = absurd (omega arith)
  timeout_lem (suc fuel) a e ha never = elim (dec_lt a 50) [
    | yes lt ↦
        ground (arith, never a ha, timeout_lem fuel (a + 1) (omega arith) (omega arith) never)
    | no ge ↦ ground (arith, never a ha)
  ]

  -- `wait_for_shm` returns the buffer of the first attempt that succeeds, if that is one of the
  -- first 51.
  pub wait_for_shm-found :
      (k : ℕ) (b : B)
      → k ≤ 50
      → ((j : ℕ) → j < k → opens j ≡ none)
      → opens k ≡ some b
      → wait_for_shm opens ≡ some (some b)
  unfolding wait_for_shm
  wait_for_shm-found k b h before here = found_lem 51 0 k b refl (omega arith) h before here

  -- If the first 51 attempts fail, `wait_for_shm` stops with the timeout, whatever later attempts
  -- would find.
  pub wait_for_shm-timeout : ((j : ℕ) → j ≤ 50 → opens j ≡ none) → wait_for_shm opens ≡ some none
  unfolding wait_for_shm
  wait_for_shm-timeout never = timeout_lem 51 0 refl (omega arith) never

  total_lem : (fuel a : ℕ) → fuel + a ≡ 51 → a ≤ 50 → wait_loop opens fuel a ≢ none
  unfolding wait_loop
  total_lem zero a e ha = absurd (omega arith)
  total_lem (suc fuel) a e ha = elim (dec_lt a 50) [
    | yes lt ↦ ground (arith, total_lem fuel (a + 1) (omega arith) (omega arith))
    | no ge ↦ ground arith
  ]

  -- The loop of `wait_for_shm` ends within 51 rounds, whatever the attempts find.
  pub wait_for_shm-total : wait_for_shm opens ≢ none
  unfolding wait_for_shm
  wait_for_shm-total = total_lem 51 0 refl (omega arith)
