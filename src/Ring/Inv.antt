-- ===== src/Ring/Inv.antt =====
-- The representation invariant of the ring buffer, and the bytes that it holds from the read
-- position on.
use gateway_g_rpc.Prelude.{
  ℕ, ◌+◌, ◌-◌, ◌%◌, ◌^◌, ◌≤◌, ◌<◌, ◌≡◌, List, [], ◌∷◌, ◌++◌, ltb, leb, if◌then◌else◌, length,
  tabulate, arith, add_usize, sub_usize, u64_mod, dec_lt, length-tabulate,
}
use native.Mathlib.Nat.{mod-eq_of_lt, mod-eq-sub-mod}
use gateway_g_rpc.Ring.{RingBufferHeader, SharedMemoryRingBuffer, available, to_le_bytes, rem}
use gateway_g_rpc.Shm.{ok}

-- The positions are offsets into the `capacity` bytes behind the header, and the mapping holds
-- exactly the header and these.
pub record IsValid (s : SharedMemoryRingBuffer) : Type 0 where
  pub nonempty : 0 < s.header.capacity
  pub small : s.header.capacity ≤ 2 ^ 32
  pub write_in : s.header.write_pos < s.header.capacity
  pub read_in : s.header.read_pos < s.header.capacity
  pub mapped : s.data_offset + s.header.capacity ≡ s.len

-- What Rust guarantees of every slice: at most `isize::MAX` bytes.
abbrev pub IsSlice : List ℕ → Type 0
IsSlice bytes = length bytes < 2 ^ 63

-- An offset of less than twice the capacity, taken round the end.
abbrev pub wrap : ℕ → ℕ → ℕ
wrap cap a = if ltb a cap then a else a - cap

-- How many bytes are written and not yet read.
abbrev pub used : RingBufferHeader → ℕ
used h =
    if leb h.read_pos h.write_pos
    then h.write_pos - h.read_pos
    else h.write_pos + h.capacity - h.read_pos

-- The `n` bytes from offset `p` on, going round at `cap`.
abbrev pub window : (ℕ → ℕ) → ℕ → ℕ → ℕ → List ℕ
window cells cap p n = tabulate n (λ k. cells (wrap cap (p + k)))

abbrev pub contents : SharedMemoryRingBuffer → List ℕ
contents s = window s.cells s.header.capacity s.header.read_pos (used s.header)

-- A message behind its length, and a queue of messages, oldest first.
abbrev pub frame : List ℕ → List ℕ
frame bytes = to_le_bytes (length bytes) ++ bytes

abbrev pub encode : List (List ℕ) → List ℕ
encode [] = []
encode (m ∷ ms) = frame m ++ encode ms

-- The ring holds the queue `q`.
pub record Holds (s : SharedMemoryRingBuffer) (q : List (List ℕ)) : Type 0 where
  pub valid : IsValid s
  pub bytes : contents s ≡ encode q

pub mod-wrap : (a cap : ℕ) → a < cap + cap → a % cap ≡ wrap cap a
mod-wrap a cap h = elim (dec_lt a cap) [
  | yes p ↦ ground (arith, mod-eq_of_lt p)
  | no p ↦ ground (
    arith,
    mod-eq-sub-mod {n = a} {m = cap} (omega arith),
    mod-eq_of_lt {n = a - cap} {m = cap} (omega arith),
  )
]

pub rem_lem : (a cap : ℕ) → 0 < cap → a < cap + cap → rem a cap ≡ ok (wrap cap a)
unfolding rem
rem_lem a cap h p = ground (arith, mod-wrap a cap p)

pub add_usize_lem : (a b : ℕ) → a + b < u64_mod → add_usize a b ≡ a + b
add_usize_lem a b h = omega arith

pub sub_usize_lem : (a b : ℕ) → b ≤ a → a < u64_mod → sub_usize a b ≡ a - b
sub_usize_lem a b h p = omega arith

module _ {s : SharedMemoryRingBuffer} (v : IsValid s) where
  pub used-lt : used s.header < s.header.capacity
  used-lt = ground arith

  -- The space that `write` computes is one byte less than what is free: no subtraction wraps.
  pub available_lem : available s.header + used s.header + 1 ≡ s.header.capacity
  available_lem = ground arith

pub length-contents : (s : SharedMemoryRingBuffer) → length (contents s) ≡ used s.header
length-contents s = length-tabulate (used s.header) _
