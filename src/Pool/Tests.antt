-- ===== src/Pool/Tests.antt =====
-- Round robin over three backends.
use Prim.Native.String.{String}
use gateway_g_rpc.Prelude.{ℕ, ◌≡◌, ◌^◌, ◌-◌, refl, List, [], ◌∷◌, arith, map}
use gateway_g_rpc.Shm.{ok, fault, panic}
use gateway_g_rpc.Pool.{
  LoadBalancer, get, gets, new_pool, new_balancer, next_backend, next_backends,
}
use gateway_g_rpc.Pool.Rotation.{gets_rotation, next_backends_rotation}

abbrev three : List ℕ
three = 10 ∷ 20 ∷ 30 ∷ []

abbrev addresses : List String
addresses = "a" ∷ "b" ∷ "c" ∷ []

abbrev at_seven : LoadBalancer
at_seven = record { backends = addresses; current = 7 }

gets_rotation_example : gets 3 (new_pool three) ≡ map ok three
gets_rotation_example = gets_rotation (new_pool three) (λ e. cc) (omega arith)

backends_in_order : next_backends 3 at_seven ≡ ok "b" ∷ ok "c" ∷ ok "a" ∷ []
backends_in_order = next_backends_rotation at_seven (λ e. cc) (omega arith)

-- No backend: the remainder by zero panics.
no_backend : (next_backend (new_balancer [])).1 ≡ fault panic
unfolding next_backend
no_backend = refl

-- Where the counter wraps, the same connection is taken twice in a row.
wraps_unevenly : gets 2 (record { connections = three; current = 2 ^ 64 - 1 }) ≡ ok 10 ∷ ok 10 ∷ []
unfolding gets get
wraps_unevenly = refl
