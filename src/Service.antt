-- ===== src/Service.antt =====
-- backend/src/main.rs: `compute` of the echo service, a loop of floating-point steps whose length the
-- request asks for.
pub mod Rounds
mod Tests
use gateway_g_rpc.Prelude.{ℕ, zero, suc, ◌+◌, ◌/◌, ◌^◌, Bool, ltb, leb, ◌==◌, ◌||◌, if◌then◌else◌}
use gateway_g_rpc.Proto.{as_i64}
use gateway_g_rpc.Backend.{BackendMetrics}

-- `f64` as the loop uses it. `of_i32` is `as f64` of an index that is not negative.
pub record Trigonometry : Type 1 where
  pub F : Type 0
  pub sin : F → F
  pub cos : F → F
  pub sqrt : F → F
  pub mul : F → F → F
  pub add : F → F → F
  pub of_i32 : ℕ → F

-- An `int32` is its bit pattern.
pub record ComputeRequest (F : Type 0) : Type 0 where
  pub iterations : ℕ
  pub input_value : F
  pub timestamp_ns : ℕ

pub record ComputeResponse (F : Type 0) : Type 0 where
  pub result : F
  pub timestamp_ns : ℕ
  pub processing_time_us : ℕ

-- `start.elapsed()` behind the loop, and in the response, in nanoseconds.
pub record ComputeReading : Type 0 where
  pub processing : ℕ
  pub responding : ℕ

-- A negative `i32` has its highest bit set.
abbrev pub is_negative : ℕ → Bool
is_negative n = leb (2 ^ 31) n

-- `iterations.max(1).min(10000)`
pub clamp : ℕ → ℕ
clamp n =
    let at_least = if is_negative n || n == 0 then 1 else n in
    if ltb 10000 at_least then 10000 else at_least

module _ (floats : Trigonometry) where
  open floats use {F, sin, cos, sqrt, mul, add, of_i32}

  -- The body of the loop at the index `i`.
  abbrev pub round : F → ℕ → F
  round result i = add (mul (sin result) (cos result)) (sqrt (of_i32 i))

  -- `for i in i..i + left`
  pub compute_loop : ℕ → ℕ → F → F
  compute_loop zero i result = result
  compute_loop (suc left) i result = compute_loop left (i + 1) (round result i)

  pub compute :
      BackendMetrics → ComputeReading → ComputeRequest F → BackendMetrics × ComputeResponse F
  unfolding clamp compute_loop
  compute metrics t req = (
    record {
      request_counter = metrics.request_counter + 1;
      request_durations = metrics.request_durations + 1;
    },
    record {
      result = compute_loop (clamp req.iterations) 0 req.input_value;
      timestamp_ns = as_i64 t.responding;
      processing_time_us = as_i64 (t.processing / 1000);
    },
  )
