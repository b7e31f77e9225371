-- ===== src/Shm.antt =====
-- shared-memory/src/lib.rs: the errors and the configuration of the shared-memory crate, and the
-- outcome of a call that may also leave the mapping or panic.
use gateway_g_rpc.Prelude.{ℕ, ◌*◌}

-- `ShmError`. The payloads of the wrapped errors are the numbers of the operating system or of the
-- library that raised them.
pub data ShmError : Type 0 where
  io : ℕ → ShmError
  nix : ℕ → ShmError
  serialization : ℕ → ShmError
  buffer_full buffer_empty invalid_state timeout : ShmError

-- What safe Rust rules out, and raw pointers and `%` do not.
pub data Fault : Type 0 where
  out_of_bounds : Fault  -- an access outside the mapping
  panic : Fault  -- a remainder by zero, an index out of range

-- `Result<T>` of the crate, with the faults.
pub data Outcome {ℓ} (A : Type ℓ) : Type ℓ where
  ok : A → Outcome A
  err : ShmError → Outcome A
  fault : Fault → Outcome A

infixl 5 ◌>>=◌
abbrev pub ◌>>=◌ {ℓ κ} : {A : Type ℓ} {B : Type κ} → Outcome A → (A → Outcome B) → Outcome B
ok a >>= f = f a
err e >>= f = err e
fault e >>= f = fault e

pub record ShmConfig : Type 0 where
  pub buffer_size : ℕ
  pub max_message_size : ℕ
  pub timeout_ms : ℕ

abbrev pub default_config : ShmConfig
default_config = record {
  buffer_size = 64 * 1024 * 1024;
  max_message_size = 64 * 1024;
  timeout_ms = 5000;
}
