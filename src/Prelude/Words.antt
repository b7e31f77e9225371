-- ===== src/Prelude/Words.antt =====
-- u64 and usize arithmetic of a release build: it wraps.
use Prim.Native.Nat.{ℕ, ◌+◌, ◌-◌, ◌%◌, ◌^◌}

abbrev pub u64_mod : ℕ
u64_mod = 2 ^ 64

abbrev pub u32_mod : ℕ
u32_mod = 2 ^ 32

-- `-` on ℕ stops at 0, so the modulus is added first.
abbrev pub sub_usize : ℕ → ℕ → ℕ
sub_usize a b = (a + u64_mod - b) % u64_mod

abbrev pub add_usize : ℕ → ℕ → ℕ
add_usize a b = (a + b) % u64_mod
