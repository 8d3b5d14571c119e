-- ===== src/Prelude/Find.antt =====
-- The first element of a list that passes a test, and how many do.
use Prim.Native.Nat.{ℕ, zero, suc, ◌+◌, ◌<◌, ◌≤◌}
use mathlib.Core.Path.{◌≡◌, refl}
use mathlib.Core.Bool.{Bool, true, false}
use mathlib.Core.Option.{none, some}
use mathlib.Core.Logic.{◌⊎◌, inl, inr}
use mathlib.Core.List.{List, [], ◌∷◌}
use native.Mathlib.Omega.{arith}
use treenity.Prelude.Tests.{if◌then◌else◌, Option-cases}
use treenity.Prelude.Lists.{length, get_or, set, find_index, count_if}

module _ {ℓ} {A : Type ℓ} (p : A → Bool) where
  pub find_index-lt : (xs : List A) (i : ℕ) → find_index p xs ≡ some i → i < length xs
  find_index-lt [] i e = ground (arith, e)
  find_index-lt (x ∷ xs) i e = elim (Option-cases (find_index p xs)) [
    | inl h ↦ ground (arith, e, h)
    | inr (j, h) ↦ ground (arith, e, h, find_index-lt xs j h)
  ]

  pub find_index-passes :
      (xs : List A) (i : ℕ) (d : A) → find_index p xs ≡ some i → p (get_or xs i d) ≡ true
  find_index-passes [] i d e = ground (arith, e)
  find_index-passes (x ∷ xs) zero d e = elim (Option-cases (find_index p xs)) [
    | inl h ↦ ground (arith, e, h)
    | inr (j, h) ↦ ground (arith, e, h)
  ]
  find_index-passes (x ∷ xs) (suc i) d e = elim (Option-cases (find_index p xs)) [
    | inl h ↦ ground (arith, e, h)
    | inr (j, h) ↦ find_index-passes xs i d (ground (arith, e, h))
  ]

  pub find_index-none :
      (xs : List A) (i : ℕ) (d : A)
      → find_index p xs ≡ none
      → i < length xs
      → p (get_or xs i d) ≡ false
  find_index-none [] i d e lt = ground (arith, lt)
  find_index-none (x ∷ xs) zero d e lt = ground (arith, e)
  find_index-none (x ∷ xs) (suc i) d e lt = elim (Option-cases (find_index p xs)) [
    | inl h ↦ find_index-none xs i d h (omega (arith, lt))
    | inr (j, h) ↦ ground (arith, e, h)
  ]

  -- An element that passes, put where the first one stood or where none did, is the first one.
  pub find_index-set :
      (xs : List A) (i : ℕ) (v : A)
      → (find_index p xs ≡ none) ⊎ (find_index p xs ≡ some i)
      → i < length xs
      → p v ≡ true
      → find_index p (set xs i v) ≡ some i
  find_index-set [] i v e lt pv = ground (arith, lt)
  find_index-set (x ∷ xs) zero v e lt pv = ground (arith, pv)
  find_index-set (x ∷ xs) (suc i) v (inl e) lt pv = elim (Option-cases (find_index p xs)) [
    | inl h ↦ ground (arith, e, h, find_index-set xs i v (inl h) (omega (arith, lt)) pv)
    | inr (j, h) ↦ ground (arith, e, h)
  ]
  find_index-set (x ∷ xs) (suc i) v (inr e) lt pv = elim (Option-cases (find_index p xs)) [
    | inl h ↦ ground (arith, e, h)
    | inr (j, h) ↦
        ground
          (arith, e, h, find_index-set xs i v (inr (ground (arith, e, h))) (omega (arith, lt)) pv)
  ]

  pub count_if-set :
      (xs : List A) (i : ℕ) (v d : A)
      → i < length xs
      → count_if p (set xs i v) + (if p (get_or xs i d) then 1 else 0)
        ≡ count_if p xs + (if p v then 1 else 0)
  count_if-set [] i v d lt = ground (arith, lt)
  count_if-set (x ∷ xs) zero v d lt = ground arith
  count_if-set (x ∷ xs) (suc i) v d lt = ground (arith, count_if-set xs i v d (omega (arith, lt)))

  pub count_if-le : (xs : List A) → count_if p xs ≤ length xs
  count_if-le [] = omega arith
  count_if-le (x ∷ xs) = ground (arith, count_if-le xs)

  -- Where an element passes, there is a first one.
  pub count_if-none : (xs : List A) → find_index p xs ≡ none → count_if p xs ≡ 0
  count_if-none [] e = refl
  count_if-none (x ∷ xs) e = elim (Option-cases (find_index p xs)) [
    | inl h ↦ ground (arith, e, h, count_if-none xs h)
    | inr (j, h) ↦ ground (arith, e, h)
  ]
