-- ===== src/Metrics/Observe.antt =====
-- The buckets of the histogram, and what an observation adds to them.
use gateway_g_rpc.Prelude.{
  ℕ, zero, suc, ◌+◌, ◌≤◌, ◌<◌, ◌≡◌, refl, ap, ◌∙◌, Bool, false, inl, inr, Bool-cases, some, List,
  [], ◌∷◌, map, arith, if◌then◌else◌, length, get_or, add_usize, u64_mod, length-set, ◌||◌,
}
use gateway_g_rpc.Metrics.{
  Floats, LatencyHistogram, bounds_from, with_bounds, new_histogram, increment, bump_from, observe,
}

abbrev pub sum_of : List ℕ → ℕ
sum_of [] = 0
sum_of (c ∷ cs) = c + sum_of cs

-- A bucket for each bound, and no more counted than observed.
pub record IsValid {F : Type 0} (h : LatencyHistogram F) : Type 0 where
  pub lengths : length h.buckets ≡ length h.bucket_bounds
  pub counted : sum_of h.buckets ≤ h.total
  pub total_in : h.total < u64_mod

sum_of-increment :
    (cs : List ℕ) (i : ℕ)
    → i < length cs
    → sum_of cs + 1 < u64_mod
    → sum_of (increment cs i) ≡ sum_of cs + 1
sum_of-increment [] i h room = absurd (omega arith)
sum_of-increment (c ∷ cs) zero h room = omega arith
sum_of-increment (c ∷ cs) (suc i) h room = omega (arith, sum_of-increment cs i)

sum_of-zeros : {A : Type 0} (xs : List A) → sum_of (map (λ _. 0) xs) ≡ 0
sum_of-zeros [] = refl
sum_of-zeros (x ∷ xs) = omega (arith, sum_of-zeros xs)

length-zeros : {A : Type 0} (xs : List A) → length (map {B = ℕ} (λ _. 0) xs) ≡ length xs
length-zeros [] = refl
length-zeros (x ∷ xs) = ap suc (length-zeros xs)

module _ (floats : Floats) where
  open floats use {F, le, lt, mul, f_2, f_10, f_1e-6}

  -- Some bound is at least the latency.
  abbrev pub reaches : F → List F → Bool
  reaches x [] = false
  reaches x (b ∷ bs) = le x b || reaches x bs

  length-bump_from :
      (x : F) (bs : List F) (i : ℕ) (cs : List ℕ) → length (bump_from floats x bs i cs) ≡ length cs
  unfolding bump_from
  length-bump_from x [] i cs = refl
  length-bump_from x (b ∷ bs) i cs =
      ground
        (arith, length-set cs i (add_usize (get_or cs i 0) 1), length-bump_from x bs (suc i) cs)

  sum_of-bump_from :
      (x : F) (bs : List F) (i : ℕ) (cs : List ℕ)
      → i + length bs ≡ length cs
      → sum_of cs + 1 < u64_mod
      → sum_of (bump_from floats x bs i cs) ≡ (if reaches x bs then sum_of cs + 1 else sum_of cs)
  unfolding bump_from
  sum_of-bump_from x [] i cs h room = refl
  sum_of-bump_from x (b ∷ bs) i cs h room = elim (Bool-cases (le x b)) [
    | inl small ↦ rw small (sum_of-increment cs i (omega arith) room)
    | inr big ↦ rw big (sum_of-bump_from x bs (suc i) cs (omega arith) room)
  ]

  -- The buckets with one more in the first whose bound is at least the latency.
  abbrev pub bumped : F → List F → List ℕ → List ℕ
  bumped x [] cs = cs
  bumped x (b ∷ bs) [] = []
  bumped x (b ∷ bs) (c ∷ cs) = if le x b then (c + 1) ∷ cs else c ∷ bumped x bs cs

  -- The loop leaves the buckets before its index alone.
  bump_from-suc :
      (x : F) (bs : List F) (i c : ℕ) (cs : List ℕ)
      → bump_from floats x bs (suc i) (c ∷ cs) ≡ c ∷ bump_from floats x bs i cs
  unfolding bump_from
  bump_from-suc x [] i c cs = refl
  bump_from-suc x (b ∷ bs) i c cs = elim (Bool-cases (le x b)) [
    | inl small ↦ rw small refl
    | inr big ↦ rw big (bump_from-suc x bs (suc i) c cs)
  ]

  bump_from-bumped :
      (x : F) (bs : List F) (cs : List ℕ)
      → length bs ≡ length cs
      → sum_of cs + 1 < u64_mod
      → bump_from floats x bs 0 cs ≡ bumped x bs cs
  unfolding bump_from
  bump_from-bumped x [] cs h room = refl
  bump_from-bumped x (b ∷ bs) [] h room = absurd (omega arith)
  bump_from-bumped x (b ∷ bs) (c ∷ cs) h room = elim (Bool-cases (le x b)) [
    | inl small ↦ rw small (ap (λ n. n ∷ cs) (omega arith))
    | inr big ↦ rw big (
        bump_from-suc x bs 0 c cs
        ∙ ap (λ r. c ∷ r) (bump_from-bumped x bs cs (omega arith) (omega arith)))
  ]

  -- An observation keeps the histogram valid, counts itself once in the total, and adds one to the
  -- first bucket whose bound is at least the latency and leaves every other as it is; if no bound is,
  -- it leaves all as they are, and otherwise the sum of the buckets is one more. The total does not
  -- wrap.
  pub observe-IsValid :
      (h : LatencyHistogram F) (x : F)
      → IsValid h
      → h.total + 1 < u64_mod
      → IsValid (observe floats h x)
        × ((observe floats h x).total ≡ h.total + 1)
        × ((observe floats h x).buckets ≡ bumped x h.bucket_bounds h.buckets)
        × (sum_of (observe floats h x).buckets
            ≡ (if reaches x h.bucket_bounds then sum_of h.buckets + 1 else sum_of h.buckets))
  unfolding observe
  observe-IsValid h x v room = (
    record {
      lengths = length-bump_from x h.bucket_bounds 0 h.buckets ∙ v.lengths;
      counted = ground (arith, summed, v.counted);
      total_in = omega arith;
    },
    omega arith,
    bump_from-bumped x h.bucket_bounds h.buckets (omega (arith, v.lengths))
        (omega (arith, v.counted)),
    summed,
  )
    where
      summed :
          sum_of (bump_from floats x h.bucket_bounds 0 h.buckets)
          ≡ (if reaches x h.bucket_bounds then sum_of h.buckets + 1 else sum_of h.buckets)
      summed =
          sum_of-bump_from x h.bucket_bounds 0 h.buckets (omega (arith, v.lengths))
            (omega (arith, v.counted))

  -- `n` doublings of a bound.
  unfoldable pub doubled : ℕ → F → F
  doubled zero x = x
  doubled (suc n) x = doubled n (mul x f_2)

  bounds_from-total :
      (n : ℕ) (x : F)
      → lt (doubled n x) f_10 ≡ false
      → (bs : List F) × (bounds_from floats (suc n) x ≡ some bs)
        × (length bs ≤ suc n)
        × (0 < length bs)
  unfolding bounds_from doubled
  bounds_from-total zero x h = (x ∷ [], ground arith, omega arith, omega arith)
  bounds_from-total (suc n) x h = elim (Bool-cases (lt x f_10)) [
    | inl below ↦
        let (bs, found, short, some_) = bounds_from-total n (mul x f_2) h in
        (x ∷ bs, ground (arith, found), omega arith, omega arith)
    | inr done ↦ (x ∷ [], ground arith, omega arith, omega arith)
  ]

  -- `new` ends, with a valid histogram of at least one and at most 25 buckets, all empty, if 24
  -- doublings take the first bound to ten or more.
  pub new_histogram-IsValid :
      lt (doubled 24 f_1e-6) f_10 ≡ false
      → (h : LatencyHistogram F) × (new_histogram floats 25 ≡ some h)
        × IsValid h
        × (0 < length h.buckets)
        × (length h.buckets ≤ 25)
        × (h.total ≡ 0)
  unfolding new_histogram
  new_histogram-IsValid e =
      let (bs, found, short, nonempty) = bounds_from-total 24 f_1e-6 e in
      (
        with_bounds floats bs,
        ground (arith, found),
        record {
          lengths = length-zeros bs;
          counted = omega (arith, sum_of-zeros bs);
          total_in = omega arith;
        },
        omega (arith, length-zeros bs),
        omega (arith, length-zeros bs),
        refl,
      )
