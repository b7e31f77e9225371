-- ===== src/Bytes.antt =====
-- The bytes that a caller's buffer holds behind a read.
use gateway_g_rpc.Prelude.{ℕ, ◌+◌, ◌≤◌, ◌≡◌, List, refl, arith, length, take, drop, length-append}
use gateway_g_rpc.Ring.{splice}
use gateway_g_rpc.Ring.Write.{length-drop}
use gateway_g_rpc.Ring.Read.{take-append_length}

pub take-splice : (buf m : List ℕ) → take (length m) (splice buf 0 m) ≡ m
take-splice buf m = take-append_length m _ (length m) refl

pub length-splice : (buf m : List ℕ) → length m ≤ length buf → length (splice buf 0 m) ≡ length buf
length-splice buf m h =
    omega (arith, length-append m (drop (0 + length m) buf), length-drop (0 + length m) buf)
