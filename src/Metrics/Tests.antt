-- ===== src/Metrics/Tests.antt =====
-- The histogram over whole numbers of microseconds in place of floats.
use gateway_g_rpc.Prelude.{
  List, ℕ, ◌*◌, ◌/◌, ◌<◌, ◌≤◌, ◌≡◌, ◌⊎◌, refl, ltb, leb, none, some, [], ◌∷◌, arith, length,
}
use gateway_g_rpc.Shm.{Outcome, ok}
use gateway_g_rpc.Metrics.{
  Metrics, MetricsReport, mean, report, Floats, LatencyHistogram, Connections, new_histogram,
  observe, percentile, get_or_create_connection, find_connection,
}
use gateway_g_rpc.Metrics.Observe.{IsValid, observe-IsValid, sum_of, new_histogram-IsValid, doubled}
use gateway_g_rpc.Metrics.Percentile.{FirstReached, percentile_lem, percentile-zero_target}
use gateway_g_rpc.Metrics.Export.{Display, export, exposition, new_metrics, report-new_metrics}
use gateway_g_rpc.Metrics.Registry.{AllBelow, get_or_create_connection_lem}

-- Times in microseconds; a percentage in tenths.
abbrev micros : Floats
micros = record {
  F = ℕ;
  le = leb;
  lt = ltb;
  mul = ◌*◌;
  div = ◌/◌;
  of_u64 = λ n. n;
  to_u64 = λ n. n;
  f_0 = 0;
  f_2 = 2;
  f_10 = 10_000_000;
  f_50 = 500;
  f_90 = 900;
  f_95 = 950;
  f_99 = 990;
  f_99_9 = 999;
  f_100 = 1000;
  f_1000 = 1000;
  f_1e-6 = 1;
  f_1e9 = 1000;
}

-- One observation, of 3 microseconds.
abbrev one : LatencyHistogram ℕ
one = record { buckets = 0 ∷ 0 ∷ 1 ∷ []; bucket_bounds = 1 ∷ 2 ∷ 4 ∷ []; total = 1; sum = 3000 }

abbrev five : LatencyHistogram ℕ
five = record { buckets = 1 ∷ 1 ∷ 3 ∷ []; bucket_bounds = 1 ∷ 2 ∷ 4 ∷ []; total = 5; sum = 12000 }

one-IsValid : IsValid one
one-IsValid = record { lengths = refl; counted = omega arith; total_in = omega arith }

five-IsValid : IsValid five
five-IsValid = record { lengths = refl; counted = omega arith; total_in = omega arith }

observe_runs : (observe micros one 2).buckets ≡ 0 ∷ 1 ∷ 1 ∷ []
unfolding observe
observe_runs = refl

percentile_runs : percentile micros five 990 ≡ ok 4
unfolding percentile
percentile_runs = refl

new_histogram-IsValid_example :
    (h : LatencyHistogram ℕ) × (new_histogram micros 25 ≡ some h)
    × IsValid h
    × (0 < length h.buckets)
    × (length h.buckets ≤ 25)
    × (h.total ≡ 0)
unfolding doubled
new_histogram-IsValid_example = new_histogram-IsValid micros refl

observe-IsValid_example :
    IsValid (observe micros one 2)
    × ((observe micros one 2).total ≡ 2)
    × ((observe micros one 2).buckets ≡ 0 ∷ 1 ∷ 1 ∷ [])
    × (sum_of (observe micros one 2).buckets ≡ 2)
observe-IsValid_example = observe-IsValid micros one 2 one-IsValid (omega arith)

percentile_lem_example : FirstReached micros five 2 five.buckets 0 0 (percentile micros five 500)
percentile_lem_example =
    percentile_lem micros five 500 five-IsValid (omega arith) (omega arith) (omega arith)

-- The median of one observation of 3 microseconds is reported as 1.
percentile-zero_target_run : percentile micros one 500 ≡ ok 1
percentile-zero_target_run =
    percentile-zero_target micros one 500 1 (2 ∷ 4 ∷ []) one-IsValid refl (omega arith) refl

abbrev known : Connections
known = record { connections = ("a", 0) ∷ []; allocated = 1 }

one_object :
    let (m', arc) = get_or_create_connection known "b" in
    (get_or_create_connection m' "b" ≡ (m', arc))
    × (find_connection "a" m'.connections ≡ find_connection "a" known.connections)
    × AllBelow m'.allocated m'.connections
    × ((find_connection "b" known.connections ≡ some arc) × (m' ≡ known)
        ⊎ (find_connection "b" known.connections ≡ none) × (arc ≡ 1) × (length m'.connections ≡ 2))
one_object = get_or_create_connection_lem known "b" "a" (omega arith, tt)

abbrev shown : Outcome (MetricsReport ℕ) → List ℕ
shown (ok r) = r.total_connections ∷ r.global_p90 ∷ r.global_p999 ∷ r.global_mean ∷ []
shown _ = []

abbrev metrics : Metrics ℕ
metrics = record { connections = known; global_latency = five }

-- One connection; the percentiles are bounds, times a thousand, and so is the mean.
report_runs : shown (report micros metrics 60) ≡ 1 ∷ 4000 ∷ 4000 ∷ 2000 ∷ []
unfolding report mean percentile
report_runs = refl

-- Every number is printed as "n", and a count as "c".
abbrev printer : Display ℕ
printer = record { display = λ _. "n"; display_usize = λ _. "c" }

abbrev reported : MetricsReport ℕ
reported = record {
  uptime_secs = 60;
  total_connections = 1;
  global_p50 = 2000;
  global_p90 = 4000;
  global_p95 = 4000;
  global_p99 = 4000;
  global_p999 = 4000;
  global_mean = 2000;
}

report_is : report micros metrics 60 ≡ ok reported
unfolding report mean percentile
report_is = refl

export_run : export micros printer metrics ≡ ok (exposition micros printer 2000 4000 1)
unfolding export percentile
export_run = refl

fresh_report :
    (m : Metrics ℕ)
    → new_metrics micros 25 ≡ some m
    → report micros m 9
      ≡ ok (record {
        uptime_secs = 9;
        total_connections = 0;
        global_p50 = 0;
        global_p90 = 0;
        global_p95 = 0;
        global_p99 = 0;
        global_p999 = 0;
        global_mean = 0;
      })
fresh_report m h = report-new_metrics micros 25 9 m h
