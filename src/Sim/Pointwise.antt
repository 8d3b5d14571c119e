-- ===== src/Sim/Pointwise.antt =====
-- Lists of nodes, compared element by element, and changes of one element.
use treenity.Prelude.{ℕ, zero, suc, ◌≡◌, refl, ap, subst, List, [], ◌∷◌, some, length, arith}
use treenity.Sim.State.{at, update}

-- Two lists of the same length, related element by element.
abbrev pub Pointwise {ℓ m} : {A : Type ℓ} → (A → A → Type m) → List A → List A → Type m
Pointwise R [] [] = Unit
Pointwise R (x ∷ xs) (y ∷ ys) = R x y × Pointwise R xs ys
Pointwise R _ _ = Unit {m} × ⊥

module _ {ℓ m} {A : Type ℓ} (R : A → A → Type m) where
  pub Pointwise-refl : ((x : A) → R x x) → (xs : List A) → Pointwise R xs xs
  Pointwise-refl h [] = tt
  Pointwise-refl h (x ∷ xs) = (h x, Pointwise-refl h xs)

  pub Pointwise-trans :
      ((x y z : A) → R x y → R y z → R x z)
      → (xs ys zs : List A) → Pointwise R xs ys
      → Pointwise R ys zs
      → Pointwise R xs zs
  Pointwise-trans h [] [] [] p q = tt
  Pointwise-trans h (x ∷ xs) (y ∷ ys) (z ∷ zs) p q =
      (h x y z p.0 q.0, Pointwise-trans h xs ys zs p.1 q.1)
  Pointwise-trans h [] [] (z ∷ zs) p q = absurd q.1
  Pointwise-trans h [] (y ∷ ys) zs p q = absurd p.1
  Pointwise-trans h (x ∷ xs) [] zs p q = absurd p.1
  Pointwise-trans h (x ∷ xs) (y ∷ ys) [] p q = absurd q.1

  -- A change of the element at an index.
  pub Pointwise-update :
      ((x : A) → R x x)
      → (f : A → A) (xs : List A) (i : ℕ) → ((x : A) → at xs i ≡ some x → R x (f x))
      → Pointwise R xs (update i f xs)
  Pointwise-update r f [] i h = tt
  Pointwise-update r f (x ∷ xs) zero h = (h x refl, Pointwise-refl r xs)
  Pointwise-update r f (x ∷ xs) (suc i) h = (r x, Pointwise-update r f xs i h)

  pub Pointwise-length : (xs ys : List A) → Pointwise R xs ys → length ys ≡ length xs
  Pointwise-length [] [] p = refl
  Pointwise-length (x ∷ xs) (y ∷ ys) p = ap suc (Pointwise-length xs ys p.1)
  Pointwise-length [] (y ∷ ys) p = absurd p.1
  Pointwise-length (x ∷ xs) [] p = absurd p.1

  -- The element at an index has gone over to one that it is related to.
  pub Pointwise-at :
      (xs ys : List A) (i : ℕ) (x : A)
      → Pointwise R xs ys
      → at xs i ≡ some x
      → (y : A) × (at ys i ≡ some y) × R x y
  Pointwise-at [] ys i x p e = absurd (ground (arith, e))
  Pointwise-at (x' ∷ xs) [] i x p e = absurd p.1
  Pointwise-at (x' ∷ xs) (y ∷ ys) zero x p e =
      let same : x' ≡ x = cc in (y, refl, subst (λ z. R z y) same p.0)
  Pointwise-at (x' ∷ xs) (y ∷ ys) (suc i) x p e = Pointwise-at xs ys i x p.1 e

pub Pointwise-map {ℓ m n} :
    {A : Type ℓ} (R : A → A → Type m) (S : A → A → Type n)
    → ((x y : A) → R x y → S x y)
    → (xs ys : List A) → Pointwise R xs ys
    → Pointwise S xs ys
Pointwise-map R S h [] [] p = tt
Pointwise-map R S h (x ∷ xs) (y ∷ ys) p = (h x y p.0, Pointwise-map R S h xs ys p.1)
Pointwise-map R S h [] (y ∷ ys) p = absurd p.1
Pointwise-map R S h (x ∷ xs) [] p = absurd p.1

pub update-update {ℓ} :
    {A : Type ℓ} (f g : A → A) (i : ℕ) (xs : List A)
    → update i f (update i g xs) ≡ update i (λ x. f (g x)) xs
update-update f g i [] = refl
update-update f g zero (x ∷ xs) = refl
update-update f g (suc i) (x ∷ xs) = ap (◌∷◌ x) (update-update f g i xs)

pub update_id {ℓ} : {A : Type ℓ} (i : ℕ) (xs : List A) → update i (λ x. x) xs ≡ xs
update_id i [] = refl
update_id zero (x ∷ xs) = refl
update_id (suc i) (x ∷ xs) = ap (◌∷◌ x) (update_id i xs)
