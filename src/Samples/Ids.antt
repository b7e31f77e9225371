-- ===== src/Samples/Ids.antt =====
-- Test data: serialisers of messages with a request identifier.
use Prim.Native.String.{String}
use text.Mathlib.Text.{◌==◌ as str_eq}
use text.Mathlib.TextEquality.{eq_iff}
use gateway_g_rpc.Prelude.{
  ℕ, ◌≡◌, refl, sym, ap, ◌∙◌, Bool-cases, Option, none, some, inl, inr, List, [], ◌∷◌, arith, ltb,
  ◌==◌, if◌then◌else◌, length,
}
use gateway_g_rpc.Proto.{Codec}
use gateway_g_rpc.Ring.Inv.{IsSlice}

-- Serialisers for the one identifier "a".
abbrev pub to_vec_a {ℓ} : {A : Type ℓ} → (A → Option (List ℕ)) → String × A → Option (List ℕ)
to_vec_a f (id, x) = if str_eq id "a" then f x else none

abbrev pub pair_with_a {ℓ} : {A : Type ℓ} → Option A → Option (String × A)
pair_with_a none = none
pair_with_a (some x) = some ("a", x)

pub pair_back :
    {A : Type 0} (c : Codec A) (a : String × A) (bs : List ℕ)
    → to_vec_a c.to_vec a ≡ some bs
    → pair_with_a (c.from_slice bs) ≡ some a
pair_back c (id, x) bs h = ground (arith, eq_iff id "a", c.round_trip x bs)

pub pair-IsSlice :
    {A : Type 0} (c : Codec A) (a : String × A) (bs : List ℕ)
    → to_vec_a c.to_vec a ≡ some bs
    → IsSlice bs
pair-IsSlice c (id, x) bs h = ground (arith, eq_iff id "a", c.slice x bs)

abbrev pub with_id : {A : Type 0} → Codec A → Codec (String × A)
with_id c = record {
  to_vec = to_vec_a c.to_vec;
  from_slice = λ bs. pair_with_a (c.from_slice bs);
  round_trip = pair_back c;
  slice = pair-IsSlice c;
}

-- Serialisers for the two identifiers "a" and "b", in the first byte.
abbrev pub tagged : ℕ → Option (List ℕ) → Option (List ℕ)
tagged t none = none
tagged t (some bs) = if ltb (length bs) 1000 then some (t ∷ bs) else none

abbrev pub to_vec_ab {ℓ} : {A : Type ℓ} → (A → Option (List ℕ)) → String × A → Option (List ℕ)
to_vec_ab f (id, x) =
    if str_eq id "a" then tagged 1 (f x) else if str_eq id "b" then tagged 2 (f x) else none

abbrev pub paired {ℓ} : {A : Type ℓ} → String → Option A → Option (String × A)
paired id none = none
paired id (some x) = some (id, x)

abbrev pub from_slice_ab {ℓ} : {A : Type ℓ} → (List ℕ → Option A) → List ℕ → Option (String × A)
from_slice_ab f [] = none
from_slice_ab f (t ∷ bs) =
    if t == 1 then paired "a" (f bs) else if t == 2 then paired "b" (f bs) else none

tagged-cons :
    (t : ℕ) (o : Option (List ℕ)) (bs : List ℕ)
    → tagged t o ≡ some bs
    → (rest : List ℕ) × (o ≡ some rest) × (bs ≡ t ∷ rest)
tagged-cons t none bs h = absurd (none-ne h)
  where
    none-ne : none ≡ some bs → ⊥
    none-ne q = cc
tagged-cons t (some rest) bs h = (rest, refl, ground arith)

pub tagged-IsSlice : (t : ℕ) (o : Option (List ℕ)) (bs : List ℕ) → tagged t o ≡ some bs → IsSlice bs
tagged-IsSlice t o bs h = ground arith

pub back_ab :
    {A : Type 0} (c : Codec A) (a : String × A) (bs : List ℕ)
    → to_vec_ab c.to_vec a ≡ some bs
    → from_slice_ab c.from_slice bs ≡ some a
back_ab c (id, x) bs h = elim (Bool-cases (str_eq id "a")) [
  | inl is_a ↦
      let (rest, e, b) = tagged-cons 1 (c.to_vec x) bs (sym (rw is_a) ∙ h) in
      rw (b, c.round_trip x rest e) (ap (λ i. some (i, x)) (sym ((eq_iff id "a").0 is_a)))
  | inr not_a ↦ elim (Bool-cases (str_eq id "b")) [
    | inl is_b ↦
        let (rest, e, b) = tagged-cons 2 (c.to_vec x) bs (sym (rw (not_a, is_b)) ∙ h) in
        rw (b, c.round_trip x rest e) (ap (λ i. some (i, x)) (sym ((eq_iff id "b").0 is_b)))
    | inr not_b ↦ absurd (none-ne (sym (rw (not_a, not_b)) ∙ h))
  ]
]
  where
    none-ne : none ≡ some bs → ⊥
    none-ne q = cc

pub ab-IsSlice :
    {A : Type 0} (c : Codec A) (a : String × A) (bs : List ℕ)
    → to_vec_ab c.to_vec a ≡ some bs
    → IsSlice bs
ab-IsSlice c (id, x) bs h =
    ground (arith, tagged-IsSlice 1 (c.to_vec x) bs, tagged-IsSlice 2 (c.to_vec x) bs)

abbrev pub with_ab : {A : Type 0} → Codec A → Codec (String × A)
with_ab c = record {
  to_vec = to_vec_ab c.to_vec;
  from_slice = from_slice_ab c.from_slice;
  round_trip = back_ab c;
  slice = ab-IsSlice c;
}
