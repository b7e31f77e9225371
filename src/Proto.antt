-- ===== src/Proto.antt =====
-- proto/src/echo.proto: the messages, and the serialisers that the program takes from its libraries.
use Prim.Native.String.{String}
use gateway_g_rpc.Prelude.{ℕ, ◌%◌, ◌≡◌, List, Option, some, u64_mod}
use gateway_g_rpc.Ring.Inv.{IsSlice}

-- An `int64` is its bit pattern.
pub record EchoRequest : Type 0 where
  pub message : String
  pub timestamp_ns : ℕ
  pub payload : List ℕ

pub record EchoResponse : Type 0 where
  pub message : String
  pub timestamp_ns : ℕ
  pub processing_time_us : ℕ
  pub payload : List ℕ

-- `n as i64` of a number of nanoseconds or microseconds
abbrev pub as_i64 : ℕ → ℕ
as_i64 n = n % u64_mod

-- A serialiser and its deserialiser: `serde_json::to_vec` and `from_slice`, or `bincode::serialize`
-- and `deserialize`. `none` is their error. What is written is read back, and a `Vec<u8>` is a slice.
pub record Codec (A : Type 0) : Type 0 where
  pub to_vec : A → Option (List ℕ)
  pub from_slice : List ℕ → Option A
  pub round_trip : (a : A) (bs : List ℕ) → to_vec a ≡ some bs → from_slice bs ≡ some a
  pub slice : (a : A) (bs : List ℕ) → to_vec a ≡ some bs → IsSlice bs
