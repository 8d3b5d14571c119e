-- ===== src/Node/Buffer.antt =====
-- Reads of a buffer into which memcpy has written, as the reassembly in src/api/treenet.c does.
use treenity.Prelude.{
  ℕ, zero, suc, ◌+◌, ◌≤◌, ◌<◌, ◌≡◌, refl, ap₂, List, [], ◌∷◌, arith, length, get_or, take, blit,
}

pub get_or-blit_in :
    (xs : List ℕ) (off : ℕ) (ys : List ℕ) (k j : ℕ)
    → k ≡ off + j
    → j < length ys
    → k < length xs
    → get_or (blit xs off ys) k 0 ≡ get_or ys j 0
get_or-blit_in [] off ys k j e h lt = absurd (omega (arith, lt))
get_or-blit_in (x ∷ xs) zero [] k j e h lt = absurd (omega (arith, h))
get_or-blit_in (x ∷ xs) zero (y ∷ ys) zero zero e h lt = refl
get_or-blit_in (x ∷ xs) zero (y ∷ ys) zero (suc j) e h lt = absurd (omega (arith, e))
get_or-blit_in (x ∷ xs) zero (y ∷ ys) (suc k) zero e h lt = absurd (omega (arith, e))
get_or-blit_in (x ∷ xs) zero (y ∷ ys) (suc k) (suc j) e h lt =
    get_or-blit_in xs zero ys k j (omega (arith, e)) (omega (arith, h)) (omega (arith, lt))
get_or-blit_in (x ∷ xs) (suc off) ys zero j e h lt = absurd (omega (arith, e))
get_or-blit_in (x ∷ xs) (suc off) ys (suc k) j e h lt =
    get_or-blit_in xs off ys k j (omega (arith, e)) h (omega (arith, lt))

pub get_or-blit_before :
    (xs : List ℕ) (off : ℕ) (ys : List ℕ) (k : ℕ)
    → k < off
    → get_or (blit xs off ys) k 0 ≡ get_or xs k 0
get_or-blit_before [] off ys k h = refl
get_or-blit_before (x ∷ xs) zero ys k h = absurd (omega (arith, h))
get_or-blit_before (x ∷ xs) (suc off) ys zero h = refl
get_or-blit_before (x ∷ xs) (suc off) ys (suc k) h =
    get_or-blit_before xs off ys k (omega (arith, h))

pub get_or-blit_after :
    (xs : List ℕ) (off : ℕ) (ys : List ℕ) (k : ℕ)
    → off + length ys ≤ k
    → get_or (blit xs off ys) k 0 ≡ get_or xs k 0
get_or-blit_after [] off ys k h = refl
get_or-blit_after (x ∷ xs) zero [] k h = refl
get_or-blit_after (x ∷ xs) zero (y ∷ ys) zero h = absurd (omega (arith, h))
get_or-blit_after (x ∷ xs) zero (y ∷ ys) (suc k) h =
    get_or-blit_after xs zero ys k (omega (arith, h))
get_or-blit_after (x ∷ xs) (suc off) ys zero h = absurd (omega (arith, h))
get_or-blit_after (x ∷ xs) (suc off) ys (suc k) h = get_or-blit_after xs off ys k (omega (arith, h))

pub take-same :
    (xs ys : List ℕ)
    → length ys ≤ length xs
    → ((k : ℕ) → k < length ys → get_or xs k 0 ≡ get_or ys k 0)
    → take (length ys) xs ≡ ys
take-same xs [] h same = refl
take-same [] (y ∷ ys) h same = absurd (omega (arith, h))
take-same (x ∷ xs) (y ∷ ys) h same =
    ap₂ ◌∷◌ (same 0 (omega arith))
      (take-same xs ys (omega (arith, h)) (λ k lt. same (suc k) (omega (arith, lt))))
