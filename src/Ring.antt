-- ===== src/Ring.antt =====
-- shared-memory/src/shm.rs: the ring buffer of length-prefixed messages, its `write` and its `read`.
-- Each side holds its lock for the whole call, so a call is one step of its side.
pub mod Inv
pub mod Write
pub mod Read
pub mod Refine
pub mod Several
pub mod InOut
pub mod Fault
mod Tests
use gateway_g_rpc.Prelude.{
  ℕ, ◌+◌, ◌-◌, ◌*◌, ◌/◌, ◌%◌, Bool, ◌&&◌, List, [], ◌∷◌, ◌++◌, ltb, leb, ◌==◌, if◌then◌else◌,
  length, get_or, take, drop, tabulate, add_usize, sub_usize, u32_mod,
}
use gateway_g_rpc.Shm.{
  buffer_full, buffer_empty, invalid_state, out_of_bounds, panic, Outcome, ok, err, fault, ◌>>=◌,
}

-- `RingBufferHeader`, four `u64` at the start of the mapping.
pub record RingBufferHeader : Type 0 where
  pub write_pos : ℕ
  pub read_pos : ℕ
  pub capacity : ℕ
  pub magic : ℕ

abbrev pub header_magic : ℕ
header_magic = 0x53484D52_42554621

-- `size_of::<RingBufferHeader>()`
abbrev pub header_size : ℕ
header_size = 32

unfoldable pub new_header : ℕ → RingBufferHeader
new_header cap = record { write_pos = 0; read_pos = 0; capacity = cap; magic = header_magic }

unfoldable pub is_valid : RingBufferHeader → Bool
is_valid h = h.magic == header_magic

-- The mapped object: the header that overlays its first bytes, the bytes behind the header by their
-- offset from it, and the length of the mapping, header included.
pub record Mapping : Type 0 where
  pub header : RingBufferHeader
  pub cells : ℕ → ℕ
  pub len : ℕ

-- `SharedMemoryRingBuffer`. Its `header` is the start of `mmap`; its two locks order the calls.
pub record SharedMemoryRingBuffer : Type 0 where
  pub mmap : Mapping
  pub open mmap use {header, cells, len}
  pub data_offset : ℕ
  pub data_size : ℕ

-- `u32::to_le_bytes` and `u32::from_le_bytes`
abbrev pub to_le_bytes : ℕ → List ℕ
to_le_bytes n = n % 256 ∷ n / 256 % 256 ∷ n / 65536 % 256 ∷ n / 16777216 % 256 ∷ []

abbrev pub from_le_bytes : ℕ → ℕ → ℕ → ℕ → ℕ
from_le_bytes b₀ b₁ b₂ b₃ = b₀ + 256 * b₁ + 65536 * b₂ + 16777216 * b₃

-- The bytes `bs` at offset `p`, over `c`.
abbrev pub overwrite : (ℕ → ℕ) → ℕ → List ℕ → ℕ → ℕ
overwrite c p bs a = if leb p a && ltb a (p + length bs) then get_or bs (a - p) 0 else c a

-- `ptr::copy_nonoverlapping(bs, data_ptr.add(p), bs.len())`
pub copy_to : SharedMemoryRingBuffer → ℕ → List ℕ → Outcome SharedMemoryRingBuffer
copy_to s p bs =
    if leb (s.data_offset + p + length bs) s.len
    then ok (record s { mmap = record s.mmap { cells = overwrite s.cells p bs } })
    else fault out_of_bounds

-- `ptr::copy_nonoverlapping(data_ptr.add(p), buf, n)`: the bytes that are copied out
pub copy_from : SharedMemoryRingBuffer → ℕ → ℕ → Outcome (List ℕ)
copy_from s p n =
    if leb (s.data_offset + p + n) s.len
    then ok (tabulate n (λ k. s.cells (p + k)))
    else fault out_of_bounds

-- `*data_ptr.add(p)`
pub load_byte : SharedMemoryRingBuffer → ℕ → Outcome ℕ
load_byte s p = if ltb (s.data_offset + p) s.len then ok (s.cells p) else fault out_of_bounds

-- `a % b`
pub rem : ℕ → ℕ → Outcome ℕ
rem a b = if b == 0 then fault panic else ok (a % b)

-- `bs` into `buf` at offset `p`; the callers have checked the length of `buf`.
abbrev pub splice : List ℕ → ℕ → List ℕ → List ℕ
splice buf p bs = take p buf ++ (bs ++ drop (p + length bs) buf)

abbrev pub available : RingBufferHeader → ℕ
available h =
    if leb h.read_pos h.write_pos
    then sub_usize (sub_usize h.capacity (sub_usize h.write_pos h.read_pos)) 1
    else sub_usize (sub_usize h.read_pos h.write_pos) 1

abbrev pub store_write_pos : SharedMemoryRingBuffer → ℕ → SharedMemoryRingBuffer
store_write_pos s p = record s {
  mmap = record s.mmap { header = record s.mmap.header { write_pos = p } };
}

abbrev pub store_read_pos : SharedMemoryRingBuffer → ℕ → SharedMemoryRingBuffer
store_read_pos s p = record s {
  mmap = record s.mmap { header = record s.mmap.header { read_pos = p } };
}

-- The payload at `start`, in one part or in two.
pub write_payload : SharedMemoryRingBuffer → ℕ → ℕ → List ℕ → Outcome SharedMemoryRingBuffer
unfolding copy_to
write_payload s capacity start bytes =
    if leb (add_usize start (length bytes)) capacity then copy_to s start bytes else (do
      let first_part = sub_usize capacity start
      s₁ ← copy_to s start (take first_part bytes)
      copy_to s₁ 0 (drop first_part bytes))

-- `write` behind the check of the space.
pub write_frame : SharedMemoryRingBuffer → List ℕ → Outcome SharedMemoryRingBuffer
unfolding copy_to rem write_payload
write_frame s bytes = do
  let capacity = s.header.capacity
  let write_pos = s.header.write_pos
  s₁ ← copy_to s write_pos (to_le_bytes (length bytes % u32_mod))
  data_start ← rem (add_usize write_pos 4) capacity
  s₂ ← write_payload s₁ capacity data_start bytes
  new_write_pos ← rem (add_usize write_pos (add_usize 4 (length bytes))) capacity
  ok (store_write_pos s₂ new_write_pos)

-- A call returns the buffer that it leaves and its result.
abbrev pub settle_write :
    SharedMemoryRingBuffer → ℕ → Outcome SharedMemoryRingBuffer → SharedMemoryRingBuffer × Outcome ℕ
settle_write s n (ok s') = (s', ok n)
settle_write s n (err e) = (s, err e)
settle_write s n (fault e) = (s, fault e)

pub write : SharedMemoryRingBuffer → List ℕ → SharedMemoryRingBuffer × Outcome ℕ
unfolding write_frame
write s bytes =
    if ltb (available s.header) (add_usize 4 (length bytes))
    then (s, err buffer_full)
    else settle_write s (length bytes) (write_frame s bytes)

-- The length prefix, byte by byte round the end.
pub read_prefix : SharedMemoryRingBuffer → Outcome ℕ
unfolding load_byte rem
read_prefix s = do
  let capacity = s.header.capacity
  let read_pos = s.header.read_pos
  b₀ ← load_byte s read_pos
  i₁ ← rem (add_usize read_pos 1) capacity
  b₁ ← load_byte s i₁
  i₂ ← rem (add_usize read_pos 2) capacity
  b₂ ← load_byte s i₂
  i₃ ← rem (add_usize read_pos 3) capacity
  b₃ ← load_byte s i₃
  ok (from_le_bytes b₀ b₁ b₂ b₃)

-- The payload at `start`, in one part or in two, into the caller's buffer.
pub read_payload : SharedMemoryRingBuffer → ℕ → ℕ → ℕ → List ℕ → Outcome (List ℕ)
unfolding copy_from
read_payload s capacity start n buf =
    if leb (add_usize start n) capacity
    then (do bytes ← copy_from s start n; ok (splice buf 0 bytes))
    else (do
      let first_part = sub_usize capacity start
      let second_part = sub_usize n first_part
      front ← copy_from s start first_part
      back ← copy_from s 0 second_part
      ok (splice (splice buf 0 front) first_part back))

-- `read` behind the check of emptiness: the buffer that it leaves, the caller's buffer and the
-- length of the message.
pub read_frame : SharedMemoryRingBuffer → List ℕ → Outcome (SharedMemoryRingBuffer × List ℕ × ℕ)
unfolding rem read_prefix read_payload
read_frame s buf = do
  let capacity = s.header.capacity
  let read_pos = s.header.read_pos
  data_len ← read_prefix s
  if ltb (length buf) data_len then err invalid_state else (do
    data_start ← rem (add_usize read_pos 4) capacity
    buf' ← read_payload s capacity data_start data_len buf
    new_read_pos ← rem (add_usize (add_usize read_pos 4) data_len) capacity
    ok (store_read_pos s new_read_pos, buf', data_len))

abbrev pub settle_read :
    SharedMemoryRingBuffer
    → List ℕ
    → Outcome (SharedMemoryRingBuffer × List ℕ × ℕ)
    → SharedMemoryRingBuffer × List ℕ × Outcome ℕ
settle_read s buf (ok (s', buf', n)) = (s', buf', ok n)
settle_read s buf (err e) = (s, buf, err e)
settle_read s buf (fault e) = (s, buf, fault e)

pub read : SharedMemoryRingBuffer → List ℕ → SharedMemoryRingBuffer × List ℕ × Outcome ℕ
unfolding read_frame
read s buf =
    if s.header.write_pos == s.header.read_pos
    then (s, buf, err buffer_empty)
    else settle_read s buf (read_frame s buf)
