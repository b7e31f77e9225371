-- ===== src/Ring/Tests.antt =====
-- The ring buffer at concrete inputs: a ring of 16 bytes whose positions stand close to its end.
use gateway_g_rpc.Prelude.{ℕ, ◌+◌, ◌<◌, ◌≡◌, ◌↔◌, refl, List, [], ◌∷◌, arith}
use gateway_g_rpc.Shm.{ok, err, fault, buffer_full, buffer_empty, out_of_bounds}
use gateway_g_rpc.Queue
use gateway_g_rpc.Queue.{send, receive, Op}
use gateway_g_rpc.Ring.{SharedMemoryRingBuffer, header_magic, write, read, from_le_bytes}
use gateway_g_rpc.Ring.Inv.{Holds}
use gateway_g_rpc.Ring.Write.{written, payload_at}
use gateway_g_rpc.Ring.Read.{from_le_bytes-to_le_bytes}
use gateway_g_rpc.Ring.Refine.{write_refines, read_refines, run, run_refines}
use gateway_g_rpc.Ring.InOut.{write_all, read_all, read_all-write_all}
use gateway_g_rpc.Ring.Fault.{write-out_of_bounds_iff, blocked_for_ever, AllRefused}

-- An empty ring with both positions at `p`.
abbrev empty_at : ℕ → SharedMemoryRingBuffer
empty_at p = record {
  mmap = record {
    header = record { write_pos = p; read_pos = p; capacity = 16; magic = header_magic };
    cells = λ _. 0;
    len = 48;
  };
  data_offset = 32;
  data_size = 16;
}

abbrev message : List ℕ
message = 7 ∷ 8 ∷ 9 ∷ 10 ∷ []

-- One message, whose payload wraps round to offset 0.
abbrev loaded : SharedMemoryRingBuffer
loaded = written (empty_at 12) message

abbrev room : List ℕ
room = 0 ∷ 0 ∷ 0 ∷ 0 ∷ 0 ∷ []

abbrev small : List ℕ
small = 0 ∷ 0 ∷ []

Holds-empty_12 : Holds (empty_at 12) []
Holds-empty_12 = record { valid = omega arith; bytes = refl }

Holds-empty_14 : Holds (empty_at 14) []
Holds-empty_14 = record { valid = omega arith; bytes = refl }

Holds-loaded : Holds loaded (message ∷ [])
unfolding payload_at
Holds-loaded = record { valid = omega arith; bytes = refl }

write_then_read : (read (write (empty_at 12) message).0 room).1 ≡ 7 ∷ 8 ∷ 9 ∷ 10 ∷ 0 ∷ []
unfolding read write
write_then_read = refl

write_too_large :
    (write (empty_at 12) (0 ∷ 0 ∷ 0 ∷ 0 ∷ 0 ∷ 0 ∷ 0 ∷ 0 ∷ 0 ∷ 0 ∷ 0 ∷ 0 ∷ [])).1 ≡ err buffer_full
unfolding write
write_too_large = refl

read_nothing : (read (empty_at 3) room).2 ≡ err buffer_empty
unfolding read
read_nothing = refl

from_le_bytes-to_le_bytes_example : from_le_bytes 1 2 0 0 ≡ 513
from_le_bytes-to_le_bytes_example = from_le_bytes-to_le_bytes 513 (omega arith)

write_refines_run :
    ((write (empty_at 12) message).1 ≡ (Queue.push 16 [] message).1)
    × Holds (write (empty_at 12) message).0 (Queue.push 16 [] message).0
write_refines_run = write_refines message Holds-empty_12 (omega arith) (omega arith)

read_refines_run :
    ((read loaded room).1 ≡ (Queue.pop (message ∷ []) room).1)
    × ((read loaded room).2 ≡ (Queue.pop (message ∷ []) room).2)
    × Holds (read loaded room).0 (Queue.pop (message ∷ []) room).0
read_refines_run = read_refines (message ∷ []) room Holds-loaded

abbrev script : List Op
script = send message ∷ send message ∷ receive small ∷ receive room ∷ receive room ∷ []

run_refines_example : run (empty_at 12) script ≡ Queue.run 16 [] script
run_refines_example = run_refines script Holds-empty_12 (refl, refl) (omega arith)

-- At offset 14 two bytes are left for the four of the prefix.
write-out_of_bounds_iff_example :
    ((write (empty_at 14) message).1 ≡ fault out_of_bounds) ↔ ((0 + (4 + 4) < 16) × (16 < 14 + 4))
write-out_of_bounds_iff_example = write-out_of_bounds_iff message Holds-empty_14 (omega arith)

abbrev blocked_script : List Op
blocked_script = receive small ∷ send [] ∷ receive small ∷ []

blocked_for_ever_example : AllRefused blocked_script (run loaded blocked_script)
blocked_for_ever_example =
    blocked_for_ever blocked_script message Holds-loaded (refl, refl) (omega arith) (omega arith)

-- Three bytes and none, over an end of the ring in the middle of the first message.
abbrev two_messages : List (List ℕ)
two_messages = (7 ∷ 8 ∷ 9 ∷ []) ∷ [] ∷ []

read_all-write_all_example :
    (s' s'' : SharedMemoryRingBuffer) × (write_all two_messages (empty_at 10) ≡ ok s')
    × (read_all 2 room s' ≡ ok (s'', two_messages))
    × Holds s'' []
read_all-write_all_example =
    read_all-write_all two_messages (empty_at 10) room
      (record { valid = omega arith; bytes = refl })
      (omega arith, omega arith, (omega arith, omega arith, tt)) (omega arith, (omega arith, tt))
