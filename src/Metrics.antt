-- ===== src/Metrics.antt =====
-- gateway/src/metrics.rs: the latency histogram, its percentiles, and the metrics of connections.
pub mod Observe
pub mod Percentile
pub mod Registry
pub mod Export
mod Tests
use Prim.Native.String.{String}
use text.Mathlib.Text.{◌==◌ as str_eq}
use gateway_g_rpc.Prelude.{
  ℕ, zero, suc, ◌+◌, Bool, Option, none, some, List, [], ◌∷◌, map, leb, ◌==◌, if◌then◌else◌,
  get_elem?, get_or, set, length, add_usize,
}
use gateway_g_rpc.Shm.{Outcome, ok, ◌>>=◌}
use gateway_g_rpc.Pool.{index}

-- `f64`: the tests, the operations and the literals that the histogram uses. `to_u64` is `as u64`.
pub record Floats : Type 1 where
  pub F : Type 0
  pub le : F → F → Bool
  pub lt : F → F → Bool
  pub mul : F → F → F
  pub div : F → F → F
  pub of_u64 : ℕ → F
  pub to_u64 : F → ℕ
  pub f_0 : F
  pub f_2 : F
  pub f_10 : F
  pub f_50 : F
  pub f_90 : F
  pub f_95 : F
  pub f_99 : F
  pub f_99_9 : F
  pub f_100 : F
  pub f_1000 : F
  pub f_1e-6 : F
  pub f_1e9 : F

pub record LatencyHistogram (F : Type 0) : Type 0 where
  pub buckets : List ℕ
  pub bucket_bounds : List F
  pub total : ℕ
  pub sum : ℕ

-- `buckets[i].fetch_add(1)`; `i` is an index of a bound, and there are as many buckets.
abbrev pub increment : List ℕ → ℕ → List ℕ
increment buckets i = set buckets i (add_usize (get_or buckets i 0) 1)

module _ (floats : Floats) where
  open floats use {
    F, le, lt, mul, div, of_u64, to_u64, f_0, f_2, f_10, f_50, f_90, f_95, f_99, f_99_9, f_100,
    f_1000, f_1e-6, f_1e9,
  }

  abbrev pub cons? : F → Option (List F) → Option (List F)
  cons? x none = none
  cons? x (some xs) = some (x ∷ xs)

  -- `successors(Some(x), …)` collected; `none` if the fuel runs out.
  pub bounds_from : ℕ → F → Option (List F)
  bounds_from zero x = none
  bounds_from (suc fuel) x =
      let rest = bounds_from fuel (mul x f_2) in if lt x f_10 then cons? x rest else some (x ∷ [])

  abbrev pub with_bounds : List F → LatencyHistogram F
  with_bounds bounds = record {
    buckets = map (λ _. 0) bounds;
    bucket_bounds = bounds;
    total = 0;
    sum = 0;
  }

  -- `LatencyHistogram::new`
  pub new_histogram : ℕ → Option (LatencyHistogram F)
  unfolding bounds_from
  new_histogram fuel = elim (bounds_from fuel f_1e-6) [
    | none ↦ none
    | some bounds ↦ some (with_bounds bounds)
  ]

  -- The loop of `observe` over the bounds from index `i` on.
  pub bump_from : F → List F → ℕ → List ℕ → List ℕ
  bump_from latency [] i buckets = buckets
  bump_from latency (bound ∷ bounds) i buckets =
      let rest = bump_from latency bounds (suc i) buckets in
      if le latency bound then increment buckets i else rest

  pub observe : LatencyHistogram F → F → LatencyHistogram F
  unfolding bump_from
  observe self latency = record self {
    total = add_usize self.total 1;
    sum = add_usize self.sum (to_u64 (mul latency f_1e9));
    buckets = bump_from latency self.bucket_bounds 0 self.buckets;
  }

  abbrev pub last_or : F → List F → F
  last_or d [] = d
  last_or d (x ∷ xs) = last_or x xs

  -- The loop of `percentile` over the buckets from index `i` on.
  pub percentile_from : LatencyHistogram F → ℕ → List ℕ → ℕ → ℕ → Outcome F
  percentile_from self target [] i cumulative = ok (last_or f_0 self.bucket_bounds)
  percentile_from self target (count ∷ buckets) i cumulative =
      let cumulative' = add_usize cumulative count in
      let rest = percentile_from self target buckets (suc i) cumulative' in
      if leb target cumulative' then index (get_elem? self.bucket_bounds i) else rest

  abbrev pub target_of : LatencyHistogram F → F → ℕ
  target_of self p = to_u64 (div (mul (of_u64 self.total) p) f_100)

  pub percentile : LatencyHistogram F → F → Outcome F
  unfolding percentile_from
  percentile self p =
      if self.total == 0 then ok f_0 else percentile_from self (target_of self p) self.buckets 0 0

  abbrev pub p50 : LatencyHistogram F → Outcome F
  p50 self = percentile self f_50

  abbrev pub p90 : LatencyHistogram F → Outcome F
  p90 self = percentile self f_90

  abbrev pub p95 : LatencyHistogram F → Outcome F
  p95 self = percentile self f_95

  abbrev pub p99 : LatencyHistogram F → Outcome F
  p99 self = percentile self f_99

  abbrev pub p999 : LatencyHistogram F → Outcome F
  p999 self = percentile self f_99_9

  unfoldable pub mean : LatencyHistogram F → F
  mean self = if self.total == 0 then f_0 else div (div (of_u64 self.sum) (of_u64 self.total)) f_1e9

-- The map of the connections' metrics, each a shared object that is named by a number.
pub record Connections : Type 0 where
  pub connections : List (String × ℕ)
  pub allocated : ℕ

pub find_connection : String → List (String × ℕ) → Option ℕ
find_connection id [] = none
find_connection id ((j, arc) ∷ m) = if str_eq j id then some arc else find_connection id m

-- `entry(id).or_insert_with(…).clone()`
abbrev pub or_insert : String → Connections → Option ℕ → Connections × ℕ
or_insert id m (some arc) = (m, arc)
or_insert id m none = (
  record { connections = (id, m.allocated) ∷ m.connections; allocated = m.allocated + 1 },
  m.allocated,
)

pub get_or_create_connection : Connections → String → Connections × ℕ
unfolding find_connection
get_or_create_connection m id = or_insert id m (find_connection id m.connections)

-- `Metrics`, with `start_time` left to the caller.
pub record Metrics (F : Type 0) : Type 0 where
  pub connections : Connections
  pub global_latency : LatencyHistogram F

-- Percentiles and mean are in milliseconds.
pub record MetricsReport (F : Type 0) : Type 0 where
  pub uptime_secs : ℕ
  pub total_connections : ℕ
  pub global_p50 : F
  pub global_p90 : F
  pub global_p95 : F
  pub global_p99 : F
  pub global_p999 : F
  pub global_mean : F

module _ (floats : Floats) where
  open floats use {F, mul, f_1000}

  unfoldable pub record_request : Metrics F → F → Metrics F
  record_request self latency = record self {
    global_latency = observe floats self.global_latency latency;
  }

  -- `Metrics::report`, of an uptime in seconds.
  unfoldable pub report : Metrics F → ℕ → Outcome (MetricsReport F)
  unfolding mean
  report self uptime = do
    global_p50 ← p50 floats self.global_latency
    global_p90 ← p90 floats self.global_latency
    global_p95 ← p95 floats self.global_latency
    global_p99 ← p99 floats self.global_latency
    global_p999 ← p999 floats self.global_latency
    ok (record {
      uptime_secs = uptime;
      total_connections = length self.connections.connections;
      global_p50 = mul global_p50 f_1000;
      global_p90 = mul global_p90 f_1000;
      global_p95 = mul global_p95 f_1000;
      global_p99 = mul global_p99 f_1000;
      global_p999 = mul global_p999 f_1000;
      global_mean = mul (mean floats self.global_latency) f_1000;
    })
