-- ===== src/Stream/Ends.antt =====
-- The task of `stream_echo` and the receiver never wait for each other for ever.
use gateway_g_rpc.Prelude.{ℕ, ◌+◌, ◌*◌, if◌then◌else◌, length}
use gateway_g_rpc.Stream.{Exchange}

-- What the steps use up.
abbrev pub measure : Exchange → ℕ
measure s =
    2 * length s.input
    + length s.queue
    + (if s.is_running then 1 else 0)
    + (if s.is_open then 1 else 0)
