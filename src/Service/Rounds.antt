-- ===== src/Service/Rounds.antt =====
-- How many rounds `compute` runs, and what they compute.
use gateway_g_rpc.Prelude.{ℕ, zero, suc, ◌+◌, ◌^◌, ◌≤◌, ◌<◌, ◌≡◌, ◌⊎◌, refl, List, [], ◌∷◌, arith}
use gateway_g_rpc.Backend.{BackendMetrics}
use gateway_g_rpc.Service.{
  Trigonometry, ComputeRequest, ComputeReading, clamp, round, compute_loop, compute,
}

-- The indices `i, …, i + n - 1`.
abbrev pub indices : ℕ → ℕ → List ℕ
indices zero i = []
indices (suc n) i = i ∷ indices n (i + 1)

abbrev pub fold {ℓ} : {A : Type ℓ} → (A → ℕ → A) → A → List ℕ → A
fold f a [] = a
fold f a (i ∷ is) = fold f (f a i) is

-- The number of rounds is the request's, taken as a signed number, brought between 1 and 10000.
pub record Clamped (n k : ℕ) : Type 0 where
  pub lower : 1 ≤ k
  pub upper : k ≤ 10000
  pub exact :
      ((1 ≤ n) × (n ≤ 10000) × (k ≡ n))
      ⊎ (((n ≡ 0) ⊎ (2 ^ 31 ≤ n)) × (k ≡ 1) ⊎ (10000 < n) × (n < 2 ^ 31) × (k ≡ 10000))

clamp-Clamped : (n : ℕ) → Clamped n (clamp n)
unfolding clamp
clamp-Clamped n = record { lower = ground arith; upper = ground arith; exact = ground arith }

module _ (floats : Trigonometry) where
  open floats use {F}

  loop_lem : (n i : ℕ) (a : F) → compute_loop floats n i a ≡ fold (round floats) a (indices n i)
  unfolding compute_loop
  loop_lem zero i a = refl
  loop_lem (suc n) i a = loop_lem n (i + 1) (round floats a i)

  -- `compute` ends after a number of rounds that is the request's number of iterations, as a signed
  -- number, brought between 1 and 10000. Its result is the fold of the rounds at the indices from 0
  -- on, and the request is counted and its duration recorded once.
  pub compute_lem :
      (metrics : BackendMetrics) (t : ComputeReading) (req : ComputeRequest F)
      → let (metrics', response) = compute floats metrics t req in
        (k : ℕ) × Clamped req.iterations k
        × (response.result ≡ fold (round floats) req.input_value (indices k 0))
        × (metrics'.request_counter ≡ metrics.request_counter + 1)
        × (metrics'.request_durations ≡ metrics.request_durations + 1)
  unfolding compute
  compute_lem metrics t req = (
    clamp req.iterations,
    clamp-Clamped req.iterations,
    loop_lem (clamp req.iterations) 0 req.input_value,
    refl,
    refl,
  )
