-- ===== src/Service/Tests.antt =====
-- The loop over numbers, with a sine that adds one.
use gateway_g_rpc.Prelude.{ℕ, ◌+◌, ◌*◌, ◌^◌, ◌-◌, ◌≡◌, refl}
use gateway_g_rpc.Backend.{BackendMetrics}
use gateway_g_rpc.Service.{Trigonometry, ComputeRequest, ComputeReading, round, clamp, compute}
use gateway_g_rpc.Service.Rounds.{indices, fold, Clamped, compute_lem}

abbrev numbers : Trigonometry
numbers = record {
  F = ℕ;
  sin = λ x. x + 1;
  cos = λ x. 2;
  sqrt = λ x. x;
  mul = ◌*◌;
  add = ◌+◌;
  of_i32 = λ i. i;
}

abbrev none_yet : BackendMetrics
none_yet = record { request_counter = 0; request_durations = 0 }

abbrev now : ComputeReading
now = record { processing = 2000; responding = 3000 }

-- Three iterations from 5: 12, 27, 58.
abbrev three : ComputeRequest ℕ
three = record { iterations = 3; input_value = 5; timestamp_ns = 0 }

compute_runs : (compute numbers none_yet now three).1.result ≡ 58
unfolding compute
compute_runs = refl

-- -1 runs one round.
minus_one : clamp (2 ^ 32 - 1) ≡ 1
unfolding clamp
minus_one = refl

compute_lem_example :
    let (metrics', response) = compute numbers none_yet now three in
    (k : ℕ) × Clamped 3 k
    × (response.result ≡ fold (round numbers) 5 (indices k 0))
    × (metrics'.request_counter ≡ 1)
    × (metrics'.request_durations ≡ 1)
compute_lem_example = compute_lem numbers none_yet now three
