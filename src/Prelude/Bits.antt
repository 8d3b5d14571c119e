-- ===== src/Prelude/Bits.antt =====
-- Laws of `&` and `^` at variables, from the recursion on binary digits that they stand for.
use Prim.Native.Nat.{ℕ, zero, suc, ◌+◌, ◌*◌, ◌/◌, ◌%◌, ◌^◌, ◌≤◌, ◌<◌, min, bit_and, bit_xor}
use Prim.Native.Nat.{digits, differ, bit_and-bitwise, bit_xor-bitwise}
use mathlib.Core.Path.{◌≡◌, refl, sym, ap, ◌∙◌}
use native.Mathlib.Omega.{arith}
use native.Mathlib.Nat.{pow-suc}

-- More fuel than the first number makes no difference.
digits_fuel :
    (z : ℕ → ℕ) (f : ℕ → ℕ → ℕ) (n m a b : ℕ) → a ≤ n → a ≤ m → digits z f n a b ≡ digits z f m a b
digits_fuel z f zero zero a b p q = refl
digits_fuel z f zero (suc m) zero b p q = refl
digits_fuel z f zero (suc m) (suc a) b p q = absurd (omega arith)
digits_fuel z f (suc n) zero zero b p q = refl
digits_fuel z f (suc n) zero (suc a) b p q = absurd (omega arith)
digits_fuel z f (suc n) (suc m) zero b p q = refl
digits_fuel z f (suc n) (suc m) (suc a) b p q =
    omega (arith, digits_fuel z f n m (suc a / 2) (b / 2) (omega arith) (omega arith))

differ_self : (b : ℕ) → differ b b ≡ 0
differ_self zero = refl
differ_self (suc b) = differ_self b

differ-zero : (b : ℕ) → differ b 0 ≡ b
differ-zero zero = refl
differ-zero (suc b) = refl

-- On one binary digit `differ` is the sum modulo 2.
differ_digit : (a b : ℕ) → a < 2 → b < 2 → differ a b ≡ (a + b) % 2
differ_digit zero b p q = omega arith
differ_digit (suc zero) zero p q = refl
differ_digit (suc zero) (suc zero) p q = refl
differ_digit (suc zero) (suc (suc b)) p q = absurd (omega arith)
differ_digit (suc (suc a)) b p q = absurd (omega arith)

-- The lowest bit apart from the others.
pub bit_and_step : (a b : ℕ) → bit_and a b ≡ min (a % 2) (b % 2) + bit_and (a / 2) (b / 2) * 2
bit_and_step zero b = omega (arith, bit_and-bitwise 0 b, bit_and-bitwise 0 (b / 2))
bit_and_step (suc a) b = omega (
  arith,
  bit_and-bitwise (suc a) b,
  bit_and-bitwise (suc a / 2) (b / 2),
  digits_fuel (λ y. 0) min a (suc a / 2) (suc a / 2) (b / 2) (omega arith) (omega arith),
)

pub bit_xor_step : (a b : ℕ) → bit_xor a b ≡ bit_xor (a / 2) (b / 2) * 2 + (a % 2 + b % 2) % 2
bit_xor_step zero b = omega (arith, bit_xor-bitwise 0 b, bit_xor-bitwise 0 (b / 2))
bit_xor_step (suc a) b = omega (
  arith,
  bit_xor-bitwise (suc a) b,
  bit_xor-bitwise (suc a / 2) (b / 2),
  differ_digit (suc a % 2) (b % 2) (omega arith) (omega arith),
  digits_fuel (λ y. y) differ a (suc a / 2) (suc a / 2) (b / 2) (omega arith) (omega arith),
)

bit_and-zero : (n a : ℕ) → a ≤ n → bit_and a 0 ≡ 0
bit_and-zero n zero h = refl
bit_and-zero zero (suc a) h = absurd (omega arith)
bit_and-zero (suc n) (suc a) h =
    omega (arith, bit_and_step (suc a) 0, bit_and-zero n (suc a / 2) (omega arith))

-- `a & (2 ^ k - 1)` is `a % 2 ^ k`, one mask at a time.
bit_and_mask_double :
    (m : ℕ)
    → ((a : ℕ) → bit_and a m ≡ a % (m + 1))
    → (a : ℕ) → bit_and a (m * 2 + 1) ≡ a / 2 % (m + 1) * 2 + a % 2
bit_and_mask_double m h a =
    omega (arith, bit_and_step a (m * 2 + 1), ap (bit_and (a / 2)) (half m), h (a / 2))
  where
    half : (m : ℕ) → (m * 2 + 1) / 2 ≡ m
    half m = omega arith

pub bit_and_one : (a : ℕ) → bit_and a 1 ≡ a % 2
bit_and_one a = omega (arith, bit_and_step a 1, bit_and-zero (a / 2) (a / 2) (omega arith))

pub bit_and_15 : (a : ℕ) → bit_and a 15 ≡ a % 16
bit_and_15 a = omega (arith, bit_and_mask_double 7 m7 a)
  where
    m3 : (a : ℕ) → bit_and a 3 ≡ a % 4
    m3 a = omega (arith, bit_and_mask_double 1 bit_and_one a)

    m7 : (a : ℕ) → bit_and a 7 ≡ a % 8
    m7 a = omega (arith, bit_and_mask_double 3 m3 a)

bit_and_31 : (a : ℕ) → bit_and a 31 ≡ a % 32
bit_and_31 a = omega (arith, bit_and_mask_double 15 bit_and_15 a)

pub bit_and_1023 : (a : ℕ) → bit_and a 1023 ≡ a % 1024
bit_and_1023 a = omega (arith, bit_and_mask_double 511 m511 a)
  where
    m63 : (a : ℕ) → bit_and a 63 ≡ a % 64
    m63 a = omega (arith, bit_and_mask_double 31 bit_and_31 a)

    m127 : (a : ℕ) → bit_and a 127 ≡ a % 128
    m127 a = omega (arith, bit_and_mask_double 63 m63 a)

    m255 : (a : ℕ) → bit_and a 255 ≡ a % 256
    m255 a = omega (arith, bit_and_mask_double 127 m127 a)

    m511 : (a : ℕ) → bit_and a 511 ≡ a % 512
    m511 a = omega (arith, bit_and_mask_double 255 m255 a)

bit_xor-half : (a b : ℕ) → bit_xor a b / 2 ≡ bit_xor (a / 2) (b / 2)
bit_xor-half a b = omega (arith, bit_xor_step a b)

-- `^` of the same number twice cancels.
bit_xor_cancel_fuel : (n a b : ℕ) → a ≤ n → b ≤ n → bit_xor (bit_xor a b) b ≡ a
bit_xor_cancel_fuel zero zero zero p q = refl
bit_xor_cancel_fuel zero (suc a) b p q = absurd (omega arith)
bit_xor_cancel_fuel zero zero (suc b) p q = absurd (omega arith)
bit_xor_cancel_fuel (suc n) a b p q = omega (
  arith,
  bit_xor_step (bit_xor a b) b,
  bit_xor_step a b,
  ap (λ (t : ℕ). bit_xor t (b / 2)) (bit_xor-half a b),
  bit_xor_cancel_fuel n (a / 2) (b / 2) (omega arith) (omega arith),
)

pub bit_xor_cancel : (a b : ℕ) → bit_xor (bit_xor a b) b ≡ a
bit_xor_cancel a b = bit_xor_cancel_fuel (a + b) a b (omega arith) (omega arith)

bit_xor-zero_zero : bit_xor 0 0 ≡ 0
bit_xor-zero_zero = refl

pub bit_xor-lt : (k a b : ℕ) → a < 2 ^ k → b < 2 ^ k → bit_xor a b < 2 ^ k
bit_xor-lt zero zero zero p q = omega (arith, bit_xor-zero_zero)
bit_xor-lt zero (suc a) b p q = absurd (omega arith)
bit_xor-lt zero zero (suc b) p q = absurd (omega arith)
bit_xor-lt (suc k) a b p q =
    let e : 2 ^ suc k ≡ 2 ^ k * 2 = pow-suc 2 k in
    omega (
      arith,
      e,
      bit_xor_step a b,
      bit_xor-lt k (a / 2) (b / 2) (omega (arith, e)) (omega (arith, e)),
    )

-- A number without low bits: they come from the other one.
bit_xor_double : (x t : ℕ) → bit_xor (x * 2) t ≡ bit_xor x (t / 2) * 2 + t % 2
bit_xor_double x t =
    let e : x * 2 / 2 ≡ x = omega arith in
    omega (arith, bit_xor_step (x * 2) t, ap (λ (y : ℕ). bit_xor y (t / 2)) e)

pub bit_xor_shift4 : (x t : ℕ) → bit_xor (x * 16) t ≡ bit_xor x (t / 16) * 16 + t % 16
bit_xor_shift4 x t =
    let e1 : x * 16 ≡ x * 2 * 2 * 2 * 2 = omega arith in
    let e2 : t / 16 ≡ t / 2 / 2 / 2 / 2 = omega arith in
    rw (e1, e2)
      (omega (
        arith,
        bit_xor_double (x * 2 * 2 * 2) t,
        bit_xor_double (x * 2 * 2) (t / 2),
        bit_xor_double (x * 2) (t / 2 / 2),
        bit_xor_double x (t / 2 / 2 / 2),
      ))

bit_xor-zero_fuel : (n a : ℕ) → a ≤ n → bit_xor a 0 ≡ a
bit_xor-zero_fuel n zero h = refl
bit_xor-zero_fuel zero (suc a) h = absurd (omega arith)
bit_xor-zero_fuel (suc n) (suc a) h =
    omega (arith, bit_xor_step (suc a) 0, bit_xor-zero_fuel n (suc a / 2) (omega arith))

bit_xor_comm_fuel : (n a b : ℕ) → a ≤ n → b ≤ n → bit_xor a b ≡ bit_xor b a
bit_xor_comm_fuel zero zero zero p q = refl
bit_xor_comm_fuel zero (suc a) b p q = absurd (omega arith)
bit_xor_comm_fuel zero zero (suc b) p q = absurd (omega arith)
bit_xor_comm_fuel (suc n) a b p q = omega (
  arith,
  bit_xor_step a b,
  bit_xor_step b a,
  bit_xor_comm_fuel n (a / 2) (b / 2) (omega arith) (omega arith),
)

pub bit_xor_comm : (a b : ℕ) → bit_xor a b ≡ bit_xor b a
bit_xor_comm a b = bit_xor_comm_fuel (a + b) a b (omega arith) (omega arith)

-- Bits above the second number stay as they are.
pub bit_xor_fields :
    (k q r s : ℕ) → r < 2 ^ k → s < 2 ^ k → bit_xor (q * 2 ^ k + r) s ≡ q * 2 ^ k + bit_xor r s
bit_xor_fields zero q zero zero p h =
    omega (arith, bit_xor-zero_fuel (q * 1 + 0) (q * 1 + 0) (omega arith), bit_xor-zero_zero)
bit_xor_fields zero q (suc r) s p h = absurd (omega arith)
bit_xor_fields zero q zero (suc s) p h = absurd (omega arith)
bit_xor_fields (suc k) q r s p h =
    let e : q * 2 ^ suc k ≡ q * 2 ^ k * 2 = omega (arith, ap (λ (t : ℕ). q * t) (pow-suc 2 k)) in
    let d : 2 ^ suc k ≡ 2 ^ k * 2 = pow-suc 2 k in
    let half : (q * 2 ^ suc k + r) / 2 ≡ q * 2 ^ k + r / 2 = omega (arith, e) in
    omega (
      arith,
      e,
      bit_xor_step (q * 2 ^ suc k + r) s,
      bit_xor_step r s,
      ap (λ (t : ℕ). bit_xor t (s / 2)) half,
      bit_xor_fields k q (r / 2) (s / 2) (omega (arith, d)) (omega (arith, d)),
    )

-- Only equal numbers differ in no bit.
pub bit_xor_eq : (a b : ℕ) → bit_xor a b ≡ 0 → a ≡ b
bit_xor_eq a b e =
    sym (bit_xor_cancel a b)
    ∙ ap (λ c. bit_xor c b) e
    ∙ bit_xor_comm 0 b
    ∙ bit_xor-zero_fuel b b (omega arith)
