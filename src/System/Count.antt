-- ===== src/System/Count.antt =====
-- Calls in lists: how often a test holds, what all satisfy, and which call a channel belongs to.
use Prim.Native.String.{String}
use text.Mathlib.Text.{◌==◌ as str_eq}
use mathlib.Core.List.{Memᴰ}
use gateway_g_rpc.Prelude.{
  ℕ, suc, ◌+◌, ◌≤◌, ◌<◌, ◌≡◌, refl, sym, ap, ◌∙◌, Bool, true, List, [], ◌∷◌, ◌++◌, ◌==◌, arith,
  if◌then◌else◌, ◌⊎◌, inl, inr, subst, Bool-cases,
}
use gateway_g_rpc.Proto.{EchoRequest}

-- A call, by its identifier, the number of its channel, and its request.
pub record Started : Type 0 where
  pub id : String
  pub tx : ℕ
  pub request : EchoRequest

abbrev pub has_id : String → Started → Bool
has_id j c = str_eq c.id j

abbrev pub has_tx : ℕ → Started → Bool
has_tx t c = c.tx == t

module _ {A : Type 0} where
  -- How many of a list pass a test.
  unfoldable pub count : (A → Bool) → List A → ℕ
  count f [] = 0
  count f (c ∷ cs) = if f c then suc (count f cs) else count f cs

  pub count-append : (f : A → Bool) (xs ys : List A) → count f (xs ++ ys) ≡ count f xs + count f ys
  unfolding count
  count-append f [] ys = omega arith
  count-append f (x ∷ xs) ys = ground (arith, count-append f xs ys)

  pub count-member : (f : A → Bool) (c : A) (cs : List A) → Memᴰ c cs → f c ≡ true → 0 < count f cs
  unfolding count
  count-member f c [] m h = elim m [ ]
  count-member f c (x ∷ cs) (Memᴰ.head e) h =
      let fx : f x ≡ true = sym (ap f e) ∙ h in rw fx (omega arith)
  count-member f c (x ∷ cs) (Memᴰ.tail m) h = let more = count-member f c cs m h in ground arith

  pub member-of_count :
      (f : A → Bool) (cs : List A) → 0 < count f cs → (c : A) × Memᴰ c cs × (f c ≡ true)
  unfolding count
  member-of_count f [] h = absurd (omega arith)
  member-of_count f (x ∷ cs) h = elim (Bool-cases (f x)) [
    | inl e ↦ (x, Memᴰ.head refl, e)
    | inr e ↦
        let (c, m, fc) =
          member-of_count f cs
            (subst (λ b. 0 < (if b then suc (count f cs) else count f cs)) e h) in
        (c, Memᴰ.tail m, fc)
  ]

  twice :
      (f : A → Bool) (x c : A) (cs : List A)
      → Memᴰ c cs
      → f x ≡ true
      → f c ≡ true
      → count f (x ∷ cs) ≤ 1
      → ⊥
  unfolding count
  twice f x c cs m hx hc h =
      let more = count-member f c cs m hc in
      let least = subst (λ b. (if b then suc (count f cs) else count f cs) ≤ 1) hx h in omega arith

  -- Two of a list that pass a test which at most one passes are one.
  pub unique :
      (f : A → Bool) (a b : A) (cs : List A)
      → Memᴰ a cs
      → Memᴰ b cs
      → f a ≡ true
      → f b ≡ true
      → count f cs ≤ 1
      → a ≡ b
  unfolding count
  unique f a b [] m m' ha hb h = elim m [ ]
  unique f a b (x ∷ cs) (Memᴰ.head e) (Memᴰ.head e') ha hb h = e ∙ sym e'
  unique f a b (x ∷ cs) (Memᴰ.head e) (Memᴰ.tail m) ha hb h =
      absurd (twice f x b cs m (sym (ap f e) ∙ ha) hb h)
  unique f a b (x ∷ cs) (Memᴰ.tail m) (Memᴰ.head e) ha hb h =
      absurd (twice f x a cs m (sym (ap f e) ∙ hb) ha h)
  unique f a b (x ∷ cs) (Memᴰ.tail m) (Memᴰ.tail m') ha hb h =
      unique f a b cs m m' ha hb (ground arith)

  -- What all of a list satisfy.
  abbrev pub Every : (A → Type 0) → List A → Type 0
  Every P [] = Unit
  Every P (x ∷ xs) = P x × Every P xs

  pub Every-append :
      (P : A → Type 0) (xs ys : List A) → Every P xs → Every P ys → Every P (xs ++ ys)
  Every-append P [] ys hx hy = hy
  Every-append P (x ∷ xs) ys (h, hx) hy = (h, Every-append P xs ys hx hy)

  pub Every-left : (P : A → Type 0) (xs ys : List A) → Every P (xs ++ ys) → Every P xs
  Every-left P [] ys h = tt
  Every-left P (x ∷ xs) ys (h, hs) = (h, Every-left P xs ys hs)

  pub Every-right : (P : A → Type 0) (xs ys : List A) → Every P (xs ++ ys) → Every P ys
  Every-right P [] ys h = h
  Every-right P (x ∷ xs) ys (h, hs) = Every-right P xs ys hs

  pub Every-map :
      (P Q : A → Type 0) (xs : List A) → ((x : A) → Memᴰ x xs → P x → Q x) → Every P xs → Every Q xs
  Every-map P Q [] f h = tt
  Every-map P Q (x ∷ xs) f (h, hs) =
      (f x (Memᴰ.head refl) h, Every-map P Q xs (λ y m. f y (Memᴰ.tail m)) hs)

  pub Every-member : (P : A → Type 0) (x : A) (xs : List A) → Memᴰ x xs → Every P xs → P x
  Every-member P x [] m h = elim m [ ]
  Every-member P x (y ∷ xs) (Memᴰ.head e) (h, hs) = subst P (sym e) h
  Every-member P x (y ∷ xs) (Memᴰ.tail m) (h, hs) = Every-member P x xs m hs

  pub List-cases : (xs : List A) → (xs ≡ []) ⊎ ((x : A) × (ys : List A) × (xs ≡ x ∷ ys))
  List-cases [] = inl refl
  List-cases (x ∷ xs) = inr (x, xs, refl)
