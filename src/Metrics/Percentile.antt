-- ===== src/Metrics/Percentile.antt =====
-- Which bound `percentile` returns.
use gateway_g_rpc.Prelude.{
  ℕ, zero, suc, ◌+◌, ◌≤◌, ◌<◌, ◌≡◌, ◌⊎◌, inl, inr, refl, ap, sym, subst, ◌∙◌, some, List, [], ◌∷◌,
  arith, length, get_elem?, take, u64_mod, dec_lt,
}
use gateway_g_rpc.Shm.{Outcome, ok}
use gateway_g_rpc.Ring.Inv.{add_usize_lem}
use gateway_g_rpc.Metrics.{Floats, LatencyHistogram, percentile_from, percentile, target_of}
use gateway_g_rpc.Metrics.Observe.{IsValid, sum_of}

get_elem?-some :
    {A : Type 0} (xs : List A) (i : ℕ) → i < length xs → (x : A) × (get_elem? xs i ≡ some x)
get_elem?-some [] i h = absurd (omega arith)
get_elem?-some (x ∷ xs) zero h = (x, refl)
get_elem?-some (x ∷ xs) (suc i) h = get_elem?-some xs i (omega arith)

module _ (floats : Floats) where
  open floats use {F, f_0}

  -- The result is the bound of the first of the buckets `cs`, which start at index `i` with
  -- `cumulative` counted before them, at which the count reaches the target.
  abbrev pub FirstReached : LatencyHistogram F → ℕ → List ℕ → ℕ → ℕ → Outcome F → Type 0
  FirstReached h target cs i cumulative result =
      (k : ℕ) × (x : F) × (get_elem? h.bucket_bounds (i + k) ≡ some x)
      × (result ≡ ok x)
      × (target ≤ cumulative + sum_of (take (suc k) cs))
      × ((k ≡ 0) ⊎ (cumulative + sum_of (take k cs) < target))

  percentile_from-now :
      (h : LatencyHistogram F) (target c : ℕ) (cs : List ℕ) (i cumulative : ℕ) (x : F)
      → cumulative + c < u64_mod
      → target ≤ cumulative + c
      → get_elem? h.bucket_bounds i ≡ some x
      → percentile_from floats h target (c ∷ cs) i cumulative ≡ ok x
  unfolding percentile_from
  percentile_from-now h target c cs i cumulative x room now here =
      rw (add_usize_lem cumulative c room) (ground (arith, here))

  percentile_from-later :
      (h : LatencyHistogram F) (target c : ℕ) (cs : List ℕ) (i cumulative : ℕ)
      → cumulative + c < u64_mod
      → cumulative + c < target
      → percentile_from floats h target (c ∷ cs) i cumulative
        ≡ percentile_from floats h target cs (suc i) (cumulative + c)
  unfolding percentile_from
  percentile_from-later h target c cs i cumulative room below =
      rw (add_usize_lem cumulative c room) (ground arith)

  -- The first bucket is the one.
  reached_now :
      (h : LatencyHistogram F) (target c : ℕ) (cs : List ℕ) (i cumulative : ℕ)
      → i < length h.bucket_bounds
      → cumulative + c < u64_mod
      → target ≤ cumulative + c
      → FirstReached h target
          (c ∷ cs)
          i
          cumulative
          (percentile_from floats h target (c ∷ cs) i cumulative)
  reached_now h target c cs i cumulative hl room now =
      let (x, here) = get_elem?-some h.bucket_bounds i hl in
      (
        0,
        x,
        ap (get_elem? h.bucket_bounds) (add_zero_lem i) ∙ here,
        percentile_from-now h target c cs i cumulative x room now here,
        omega arith,
        inl refl,
      )
    where
      add_zero_lem : (i : ℕ) → i + 0 ≡ i
      add_zero_lem i = omega arith

  percentile_from-reached :
      (h : LatencyHistogram F) (target c : ℕ) (cs : List ℕ) (i cumulative : ℕ)
      → i + length (c ∷ cs) ≤ length h.bucket_bounds
      → cumulative + sum_of (c ∷ cs) < u64_mod
      → target ≤ cumulative + sum_of (c ∷ cs)
      → FirstReached h target
          (c ∷ cs)
          i
          cumulative
          (percentile_from floats h target (c ∷ cs) i cumulative)
  percentile_from-reached h target c [] i cumulative hl room reach =
      reached_now h target c [] i cumulative (omega arith) (omega arith) (omega arith)
  percentile_from-reached h target c (d ∷ ds) i cumulative hl room reach =
      elim (dec_lt (cumulative + c) target) [
        | yes below ↦
            let (k, x, here, result, enough, first) =
              percentile_from-reached h target d ds (suc i) (cumulative + c) (omega arith)
                (omega arith) (omega arith) in
            (
              suc k,
              x,
              ap (get_elem? h.bucket_bounds) (shift i k) ∙ here,
              percentile_from-later h target c (d ∷ ds) i cumulative (omega arith) below ∙ result,
              omega arith,
              inr (before k first below),
            )
        | no now ↦
            reached_now h target c (d ∷ ds) i cumulative (omega arith) (omega arith) (omega arith)
      ]
    where
      shift : (i k : ℕ) → i + suc k ≡ suc i + k
      shift i k = omega arith

      before :
          (k : ℕ)
          → (k ≡ 0) ⊎ (cumulative + c + sum_of (take k (d ∷ ds)) < target)
          → cumulative + c < target
          → cumulative + sum_of (take (suc k) (c ∷ d ∷ ds)) < target
      before zero first below = omega arith
      before (suc k) (inl e) below = absurd (omega arith)
      before (suc k) (inr lt) below = omega arith

  percentile-pos :
      (h : LatencyHistogram F) (p : F)
      → 0 < h.total
      → percentile floats h p ≡ percentile_from floats h (target_of floats h p) h.buckets 0 0
  unfolding percentile
  percentile-pos h p pos = ground arith

  -- If something has been observed and the buckets hold at least as many observations as the
  -- percentile asks for, `percentile` returns the bound of the first bucket at which the count of
  -- observations, from the smallest bucket on, reaches the target.
  pub percentile_lem :
      (h : LatencyHistogram F) (p : F)
      → IsValid h
      → 0 < length h.buckets
      → 0 < h.total
      → target_of floats h p ≤ sum_of h.buckets
      → FirstReached h (target_of floats h p) h.buckets 0 0 (percentile floats h p)
  percentile_lem h p v ne pos reach =
      subst (λ r. FirstReached h (target_of floats h p) h.buckets 0 0 r)
        (sym (percentile-pos h p pos))
        (from_buckets h.buckets ne (omega (arith, v.lengths)) (omega (arith, v.counted, v.total_in))
          reach)
    where
      from_buckets :
          (cs : List ℕ)
          → 0 < length cs
          → length cs ≤ length h.bucket_bounds
          → sum_of cs < u64_mod
          → target_of floats h p ≤ sum_of cs
          → FirstReached h
              (target_of floats h p)
              cs
              0
              0
              (percentile_from floats h (target_of floats h p) cs 0 0)
      from_buckets [] pos hl room reach = absurd (omega arith)
      from_buckets (c ∷ cs) pos hl room reach =
          percentile_from-reached h (target_of floats h p) c cs 0 0 (omega arith) (omega arith)
            (omega arith)

  -- A target that is rounded down to zero, as that of the median of one observation, is reached by the
  -- first bucket, even if that is empty: `percentile` returns the smallest bound, whatever has been
  -- observed.
  pub percentile-zero_target :
      (h : LatencyHistogram F) (p b : F) (bs : List F)
      → IsValid h
      → h.bucket_bounds ≡ b ∷ bs
      → 0 < h.total
      → target_of floats h p ≡ 0
      → percentile floats h p ≡ ok b
  percentile-zero_target h p b bs v e pos zero_target =
      percentile-pos h p pos
      ∙ from_buckets h.buckets (omega (arith, ap length e, v.lengths))
          (omega (arith, v.counted, v.total_in))
    where
      from_buckets :
          (cs : List ℕ)
          → 0 < length cs
          → sum_of cs < u64_mod
          → percentile_from floats h (target_of floats h p) cs 0 0 ≡ ok b
      from_buckets [] pos room = absurd (omega arith)
      from_buckets (c ∷ cs) pos room =
          percentile_from-now h (target_of floats h p) c cs 0 0 b (omega arith) (omega arith)
            (ap (λ l. get_elem? l 0) e)
