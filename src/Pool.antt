-- ===== src/Pool.antt =====
-- gateway/src/transport.rs: `ConnectionPool` and `LoadBalancer`, round robin by a shared counter.
pub mod Rotation
mod Tests
use Prim.Native.String.{String}
use gateway_g_rpc.Prelude.{
  ℕ, zero, suc, ◌%◌, List, [], ◌∷◌, Option, none, some, ◌==◌, if◌then◌else◌, length, get_elem?,
  add_usize,
}
use gateway_g_rpc.Shm.{Outcome, ok, fault, panic}

-- `&xs[i]`
abbrev pub index {ℓ} : {A : Type ℓ} → Option A → Outcome A
index none = fault panic
index (some a) = ok a

-- `xs[i % xs.len()]`: the remainder by zero panics.
abbrev pub index_round {ℓ} : {A : Type ℓ} → List A → ℕ → Outcome A
index_round xs i = if length xs == 0 then fault panic else index (get_elem? xs (i % length xs))

pub record ConnectionPool {ℓ} (T : Type ℓ) : Type ℓ where
  pub connections : List T
  pub current : ℕ

module _ {ℓ} {T : Type ℓ} where
  abbrev pub new_pool : List T → ConnectionPool T
  new_pool connections = record { connections = connections; current = 0 }

  -- The counter goes up, wrapping, before the index is taken.
  pub get : ConnectionPool T → ConnectionPool T × Outcome T
  get self = (
    record self { current = add_usize self.current 1 },
    index_round self.connections self.current,
  )

  -- The results of `n` calls in a row.
  pub gets : ℕ → ConnectionPool T → List (Outcome T)
  gets zero self = []
  gets (suc n) self = (get self).1 ∷ gets n (get self).0

pub record LoadBalancer : Type 0 where
  pub backends : List String
  pub current : ℕ

abbrev pub new_balancer : List String → LoadBalancer
new_balancer backends = record { backends = backends; current = 0 }

pub next_backend : LoadBalancer → LoadBalancer × Outcome String
next_backend self =
    (record self { current = add_usize self.current 1 }, index_round self.backends self.current)

pub next_backends : ℕ → LoadBalancer → List (Outcome String)
next_backends zero self = []
next_backends (suc n) self = (next_backend self).1 ∷ next_backends n (next_backend self).0
