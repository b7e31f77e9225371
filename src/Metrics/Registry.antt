-- ===== src/Metrics/Registry.antt =====
-- The metrics object of a connection is made once, and shared from then on.
use Prim.Native.String.{String}
use text.Mathlib.Text.{◌==◌ as str_eq}
use text.Mathlib.TextEquality.{eq_iff}
use gateway_g_rpc.Prelude.{
  ℕ, suc, ◌+◌, ◌<◌, ◌≡◌, ◌⊎◌, inl, inr, refl, none, some, Option-cases, List, [], ◌∷◌, arith,
  length, if◌then◌else◌,
}
use gateway_g_rpc.Metrics.{Connections, find_connection, get_or_create_connection}

-- All objects in the map have been allocated.
abbrev pub AllBelow : ℕ → List (String × ℕ) → Type 0
AllBelow n [] = Unit
AllBelow n ((j, arc) ∷ m) = (arc < n) × AllBelow n m

AllBelow-suc : (n : ℕ) (m : List (String × ℕ)) → AllBelow n m → AllBelow (n + 1) m
AllBelow-suc n [] h = tt
AllBelow-suc n ((j, arc) ∷ m) (lt, h) = (omega arith, AllBelow-suc n m h)

-- `get_or_create_connection` returns the object that the map then holds for the identifier, so a
-- second call returns the same object and changes nothing; other identifiers keep theirs; and it
-- allocates exactly if there was none, a fresh one.
pub get_or_create_connection_lem :
    (m : Connections) (id j : String)
    → AllBelow m.allocated m.connections
    → let (m', arc) = get_or_create_connection m id in
      (get_or_create_connection m' id ≡ (m', arc))
      × (find_connection j m'.connections
          ≡ (if str_eq id j then some arc else find_connection j m.connections))
      × AllBelow m'.allocated m'.connections
      × ((find_connection id m.connections ≡ some arc) × (m' ≡ m)
          ⊎ (find_connection id m.connections ≡ none)
            × (arc ≡ m.allocated)
            × (length m'.connections ≡ suc (length m.connections)))
unfolding get_or_create_connection
get_or_create_connection_lem m id j h = elim (Option-cases (find_connection id m.connections)) [
  | inr (arc, here) ↦ rw (here, here) (refl, ground (arith, here, eq_iff id j), h, inl (refl, refl))
  | inl gone ↦ rw gone (
    ground (arith, eq_iff id id),
    refl,
    (omega arith, AllBelow-suc m.allocated m.connections h),
    inr (refl, refl, refl),
  )
]
