-- ===== src/Transport/Tests.antt =====
-- The loops of the transport at concrete inputs.
use gateway_g_rpc.Prelude.{
  ℕ, ◌≡◌, ◌≢◌, refl, Option, some, none, List, [], ◌∷◌, inl, inr, arith, ltb, if◌then◌else◌, lt→ltb,
}
use gateway_g_rpc.Ring.{SharedMemoryRingBuffer}
use gateway_g_rpc.Ring.Inv.{Holds}
use gateway_g_rpc.Ring.Write.{written}
use gateway_g_rpc.Ring.Read.{after}
use gateway_g_rpc.Ring.Refine.{Holds-written}
use gateway_g_rpc.Transport.{wait_for_shm, Tick, poll, done, failed, waiting, request_timeout}
use gateway_g_rpc.Transport.Wait.{wait_for_shm-found, wait_for_shm-timeout, wait_for_shm-total}
use gateway_g_rpc.Transport.Poll.{poll-ends, poll-first, poll-oversized}
use gateway_g_rpc.Samples.{response_codec, ring, Holds-ring}

-- The shared memory is there from the fourth attempt on.
abbrev late : ℕ → Option ℕ
late k = if ltb k 3 then none else some 7

late_is_found : wait_for_shm late ≡ some (some 7)
late_is_found = wait_for_shm-found late 3 7 (omega arith) (λ j h. rw (lt→ltb j 3 h)) refl

-- It comes with the attempt after the last.
abbrev too_late : ℕ → Option ℕ
too_late k = if ltb k 51 then none else some 7

wait_gives_up : wait_for_shm too_late ≡ some none
wait_gives_up = wait_for_shm-timeout too_late (λ j h. rw (lt→ltb j 51 (omega arith)))

wait_ends : wait_for_shm too_late ≢ none
wait_ends = wait_for_shm-total too_late

abbrev three : List ℕ
three = 1 ∷ 2 ∷ 3 ∷ []

abbrev loaded : SharedMemoryRingBuffer
loaded = written ring three

Holds-loaded : Holds loaded (three ∷ [])
Holds-loaded = Holds-written three Holds-ring (omega arith) (omega arith)

abbrev idle : Tick
idle = record { elapsed = 5; found = ring }

abbrev answered : Tick
answered = record { elapsed = 6; found = loaded }

abbrev expired : Tick
expired = record { elapsed = 30_000_000_001; found = loaded }

abbrev room : List ℕ
room = 0 ∷ 0 ∷ 0 ∷ 0 ∷ []

timed_out : (poll response_codec room (idle ∷ expired ∷ [])).1 ≢ waiting
timed_out = poll-ends response_codec room (idle ∷ expired ∷ []) (inr (inl (omega arith)))

first_found : poll response_codec room (idle ∷ answered ∷ []) ≡ (
  some (after Holds-loaded.valid three [] room Holds-loaded.bytes),
  done (record { message = ""; timestamp_ns = 0; processing_time_us = 1; payload = three }),
)
first_found =
    poll-first response_codec room (idle ∷ []) [] answered three [] (omega arith, Holds-ring, tt)
      (omega arith) Holds-loaded (omega arith)

too_long :
    poll response_codec (0 ∷ 0 ∷ []) (answered ∷ expired ∷ []) ≡ (none, failed request_timeout)
too_long =
    poll-oversized response_codec (0 ∷ 0 ∷ []) (answered ∷ expired ∷ [])
      ((three, [], Holds-loaded, omega arith), ((three, [], Holds-loaded, omega arith), tt))
      (inr (inl (omega arith)))
