-- ===== src/Mux/Pending.antt =====
-- The map of pending requests, and the channel that a response goes to.
use Prim.Native.String.{String}
use text.Mathlib.Text.{◌==◌ as str_eq}
use text.Mathlib.TextEquality.{eq_iff}
use gateway_g_rpc.Prelude.{ℕ, ◌≡◌, refl, none, some, [], ◌∷◌, ◌++◌, arith, if◌then◌else◌}
use gateway_g_rpc.Proto.{EchoResponse}
use gateway_g_rpc.Mux.{PendingRequests, lookup, remove, insert, Calls, hand_out}

pub lookup-remove :
    (j id : String) (m : PendingRequests)
    → lookup j (remove id m) ≡ (if str_eq id j then none else lookup j m)
unfolding lookup remove
lookup-remove j id [] = ground arith
lookup-remove j id ((i, tx) ∷ m) =
    ground (arith, eq_iff i id, eq_iff i j, eq_iff id j, lookup-remove j id m)

pub lookup-insert :
    (j id : String) (tx : ℕ) (m : PendingRequests)
    → lookup j (insert id tx m) ≡ (if str_eq id j then some tx else lookup j m)
unfolding lookup insert
lookup-insert j id tx m = ground (arith, eq_iff id j, lookup-remove j id m)

-- A response goes to the channel of the call that waits under its identifier, and to no other; after
-- that nothing waits under this identifier, every other call waits as before, and a second response
-- with this identifier is dropped.
pub hand_out_lem :
    (id j : String) (tx : ℕ) (first second : EchoResponse) (s : Calls)
    → lookup id s.pending_requests ≡ some tx
    → let s' = hand_out id first s in
      (s'.sent ≡ s.sent ++ ((tx, first) ∷ []))
      × (lookup j s'.pending_requests ≡ (if str_eq id j then none else lookup j s.pending_requests))
      × (hand_out id second s' ≡ s')
unfolding hand_out
hand_out_lem id j tx first second s h = (
  rw h,
  rw h (lookup-remove j id s.pending_requests),
  rw (h, lookup-remove id id s.pending_requests, (eq_iff id id).1 refl),
)
