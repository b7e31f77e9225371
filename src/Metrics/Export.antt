-- ===== src/Metrics/Export.antt =====
-- gateway/src/metrics.rs: fresh metrics, and the text of `PrometheusExporter::export`.
use Prim.Native.String.{String, ◌++◌ as ◌<>◌}
use gateway_g_rpc.Prelude.{
  ℕ, ◌≡◌, refl, sym, ◌∙◌, Option, none, some, Option-cases, inl, inr, List, [], length,
}
use gateway_g_rpc.Shm.{Outcome, ok, ◌>>=◌}
use gateway_g_rpc.Metrics.{
  Floats, LatencyHistogram, new_histogram, with_bounds, bounds_from, percentile, p50, p99, mean,
  Metrics, report,
}

pub record ConnectionMetrics (F : Type 0) : Type 0 where
  pub requests_total : ℕ
  pub requests_active : ℕ
  pub latency : LatencyHistogram F
  pub errors_total : ℕ
  pub bytes_sent : ℕ
  pub bytes_received : ℕ

-- Numbers as `format!` prints them with `{}`.
pub record Display (F : Type 0) : Type 0 where
  pub display : F → String
  pub display_usize : ℕ → String

some-injective {ℓ} : {A : Type ℓ} {a b : A} → some a ≡ some b → a ≡ b
some-injective p = cc

module _ (floats : Floats) where
  open floats use {F, f_0, mul, f_1000, f_1e-6}

  abbrev pub connection_of : LatencyHistogram F → ConnectionMetrics F
  connection_of latency = record {
    requests_total = 0;
    requests_active = 0;
    latency = latency;
    errors_total = 0;
    bytes_sent = 0;
    bytes_received = 0;
  }

  -- `ConnectionMetrics::new`
  pub new_connection : ℕ → Option (ConnectionMetrics F)
  new_connection fuel = elim (new_histogram floats fuel) [
    | none ↦ none
    | some latency ↦ some (connection_of latency)
  ]

  abbrev pub metrics_of : LatencyHistogram F → Metrics F
  metrics_of latency = record {
    connections = record { connections = []; allocated = 0 };
    global_latency = latency;
  }

  -- `Metrics::new`
  pub new_metrics : ℕ → Option (Metrics F)
  new_metrics fuel = elim (new_histogram floats fuel) [
    | none ↦ none
    | some latency ↦ some (metrics_of latency)
  ]

  fresh :
      (fuel : ℕ) (metrics : Metrics F)
      → new_metrics fuel ≡ some metrics
      → (bounds : List F) × (metrics ≡ metrics_of (with_bounds floats bounds))
  unfolding new_metrics new_histogram
  fresh fuel metrics h = elim (Option-cases (bounds_from floats fuel f_1e-6)) [
    | inl gone ↦ absurd (none-ne (sym (rw (new_metrics, new_histogram, gone)) ∙ h))
    | inr (bounds, here) ↦
        (bounds, sym (some-injective (sym (rw (new_metrics, new_histogram, here)) ∙ h)))
  ]
    where
      none-ne : none ≡ some metrics → ⊥
      none-ne q = cc

  -- The metrics that `new` makes have no connection, and every report of them, whatever the time
  -- that has gone by, shows zero milliseconds for each percentile and the mean.
  pub report-new_metrics :
      (fuel uptime : ℕ) (metrics : Metrics F)
      → new_metrics fuel ≡ some metrics
      → report floats metrics uptime
        ≡ ok (record {
          uptime_secs = uptime;
          total_connections = 0;
          global_p50 = mul f_0 f_1000;
          global_p90 = mul f_0 f_1000;
          global_p95 = mul f_0 f_1000;
          global_p99 = mul f_0 f_1000;
          global_p999 = mul f_0 f_1000;
          global_mean = mul f_0 f_1000;
        })
  unfolding report percentile mean
  report-new_metrics fuel uptime metrics h = let (bounds, e) = fresh fuel metrics h in rw e refl

  module _ (d : Display F) where
    open d use {display, display_usize}

    -- The text of `output`, of the two percentiles in milliseconds and the number of connections.
    abbrev pub exposition : F → F → ℕ → String
    exposition p50_ms p99_ms connections =
        "# HELP gateway_latency_p50_ms P50 latency in milliseconds\n"
        <> "# TYPE gateway_latency_p50_ms gauge\n"
        <> ("gateway_latency_p50_ms " <> display p50_ms <> "\n")
        <> "# HELP gateway_latency_p99_ms P99 latency in milliseconds\n"
        <> "# TYPE gateway_latency_p99_ms gauge\n"
        <> ("gateway_latency_p99_ms " <> display p99_ms <> "\n")
        <> "# HELP gateway_connections_total Total number of connections\n"
        <> "# TYPE gateway_connections_total gauge\n"
        <> ("gateway_connections_total " <> display_usize connections <> "\n")

    -- `PrometheusExporter::export`
    unfoldable pub export : Metrics F → Outcome String
    export metrics = do
      p50_s ← p50 floats metrics.global_latency
      p99_s ← p99 floats metrics.global_latency
      ok (exposition (mul p50_s f_1000) (mul p99_s f_1000) (length metrics.connections.connections))
