-- ===== src/Pool/Rotation.antt =====
-- A round of calls visits every connection once, in order.
use Prim.Native.String.{String}
use native.Mathlib.Nat.{mod-lt, mod-add-mod}
use gateway_g_rpc.Prelude.{
  ℕ, zero, suc, ◌+◌, ◌-◌, ◌%◌, ◌≤◌, ◌<◌, ◌≡◌, ◌≢◌, refl, sym, ap, ap₂, ◌∙◌, List, [], ◌∷◌, ◌++◌,
  map, arith, length, get_elem?, tabulate, tabulate_congr, tabulate-add, take, drop, u64_mod,
}
use gateway_g_rpc.Ring.Inv.{mod-wrap, wrap}
use gateway_g_rpc.Shm.{Outcome, ok}
use gateway_g_rpc.Pool.{
  index, index_round, ConnectionPool, get, gets, LoadBalancer, next_backend, next_backends,
}

module _ {ℓ} {T : Type ℓ} where
  drop_lem :
      (i : ℕ) (xs : List T)
      → i ≤ length xs
      → tabulate (length xs - i) (λ k. index (get_elem? xs (i + k))) ≡ map ok (drop i xs)
  drop_lem zero [] h = refl
  drop_lem zero (x ∷ xs) h =
      ap (λ n. tabulate n (λ k. index (get_elem? (x ∷ xs) (0 + k)))) (shift (length xs))
      ∙ ap (λ (r : List (Outcome T)). ok x ∷ r)
          (tabulate_congr (length xs) _ _ (λ k p. ap (λ j. index (get_elem? (x ∷ xs) j)) (place k))
            ∙ ap (λ n. tabulate n (λ k. index (get_elem? xs (0 + k)))) (back (length xs))
            ∙ drop_lem zero xs (omega arith))
    where
      shift : (n : ℕ) → suc n - 0 ≡ suc n
      shift n = omega arith

      back : (n : ℕ) → n ≡ n - 0
      back n = omega arith

      place : (k : ℕ) → 0 + suc k ≡ suc (0 + k)
      place k = omega arith
  drop_lem (suc i) [] h = absurd (omega arith)
  drop_lem (suc i) (x ∷ xs) h =
      ap (λ n. tabulate n (λ k. index (get_elem? (x ∷ xs) (suc i + k)))) (shift (length xs) i)
      ∙ tabulate_congr (length xs - i) _ _
          (λ k p. ap (λ j. index (get_elem? (x ∷ xs) j)) (place i k))
      ∙ drop_lem i xs (omega arith)
    where
      shift : (n i : ℕ) → suc n - suc i ≡ n - i
      shift n i = omega arith

      place : (i k : ℕ) → suc i + k ≡ suc (i + k)
      place i k = omega arith

  take_lem :
      (i : ℕ) (xs : List T)
      → i ≤ length xs
      → tabulate i (λ k. index (get_elem? xs k)) ≡ map ok (take i xs)
  take_lem zero xs h = refl
  take_lem (suc i) [] h = absurd (omega arith)
  take_lem (suc i) (x ∷ xs) h =
      ap (λ (r : List (Outcome T)). ok x ∷ r) (take_lem i xs (omega arith))

  map_append : (f : T → Outcome T) (xs ys : List T) → map f (xs ++ ys) ≡ map f xs ++ map f ys
  map_append f [] ys = refl
  map_append f (x ∷ xs) ys = ap (λ r. f x ∷ r) (map_append f xs ys)

  nonempty_pos : (xs : List T) → xs ≢ [] → 0 < length xs
  nonempty_pos [] h = absurd (h refl)
  nonempty_pos (x ∷ xs) h = omega arith

  -- The `k`-th of `n` calls takes the connection `k` places on, as long as the counter does not wrap.
  gets_lem :
      (n : ℕ) (p : ConnectionPool T)
      → p.current + n ≤ u64_mod
      → gets n p ≡ tabulate n (λ k. index_round p.connections (p.current + k))
  unfolding gets get
  gets_lem zero p h = refl
  gets_lem (suc n) p h = ap₂ ◌∷◌ (ap (index_round p.connections) (omega arith)) (
      gets_lem n (get p).0 (omega arith)
      ∙ tabulate_congr n _ _ (λ k q. ap (index_round p.connections) (place k q)))
    where
      place : (k : ℕ) → k < n → (get p).0.current + k ≡ p.current + suc k
      place k q = omega arith

  -- `length` calls in a row return every connection exactly once, in order, starting where the
  -- counter stands, as long as the counter does not wrap.
  pub gets_rotation :
      (p : ConnectionPool T)
      → p.connections ≢ []
      → p.current + length p.connections ≤ u64_mod
      → let i = p.current % length p.connections in
        gets (length p.connections) p ≡ map ok (drop i p.connections ++ take i p.connections)
  gets_rotation p ne h =
      gets_lem len p h
      ∙ tabulate_congr len _ _ (λ k q. turn k ∙ ap (λ j. index (get_elem? xs j)) (place k q))
      ∙ ap (λ c. tabulate c f) count
      ∙ tabulate-add (len - i) i f
      ∙ ap₂ ◌++◌
          (tabulate_congr (len - i) _ _
              (λ k q. ap (λ j. index (get_elem? xs j)) (ground (arith, small)))
            ∙ drop_lem i xs (omega (arith, small)))
          (tabulate_congr i _ _ (λ k q. ap (λ j. index (get_elem? xs j)) (ground (arith, small)))
            ∙ take_lem i xs (omega (arith, small)))
      ∙ sym (map_append ok (drop i xs) (take i xs))
    where
      xs : List T
      xs = p.connections

      len : ℕ
      len = length xs

      i : ℕ
      i = p.current % len

      f : ℕ → Outcome T
      f k = index (get_elem? xs (wrap len (i + k)))

      pos : 0 < len
      pos = nonempty_pos xs ne

      small : i < len
      small = mod-lt p.current pos

      turn : (k : ℕ) → index_round xs (p.current + k) ≡ index (get_elem? xs ((p.current + k) % len))
      turn k = ground (arith, pos)

      place : (k : ℕ) → k < len → (p.current + k) % len ≡ wrap len (i + k)
      place k q = sym (mod-add-mod p.current len k) ∙ mod-wrap (i + k) len (omega (arith, small))

      count : len ≡ len - i + i
      count = omega (arith, small)

abbrev as_pool : LoadBalancer → ConnectionPool String
as_pool b = record { connections = b.backends; current = b.current }

next_backends-eq-gets : (n : ℕ) (b : LoadBalancer) → next_backends n b ≡ gets n (as_pool b)
unfolding next_backends next_backend gets get
next_backends-eq-gets zero b = refl
next_backends-eq-gets (suc n) b =
    ap (λ (r : List (Outcome String)). index_round b.backends b.current ∷ r)
      (next_backends-eq-gets n (next_backend b).0)

-- As many calls of `next_backend` in a row as there are backends return every backend exactly once,
-- in order, starting where the counter stands, if there is a backend and the counter does not wrap.
pub next_backends_rotation :
    (b : LoadBalancer)
    → b.backends ≢ []
    → b.current + length b.backends ≤ u64_mod
    → let i = b.current % length b.backends in
      next_backends (length b.backends) b ≡ map ok (drop i b.backends ++ take i b.backends)
next_backends_rotation b ne h =
    next_backends-eq-gets (length b.backends) b ∙ gets_rotation (as_pool b) ne h
