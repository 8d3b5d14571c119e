-- ===== src/Sim/Seed.antt =====
-- The generator of src/sim/sim.c never reaches its fallback: a state that is not 0 leads to one that
-- is not 0.
use treenity.Prelude.{ℕ, zero, suc, ◌*◌, ◌/◌, ◌%◌, ◌^◌, ◌<◌, ◌≡◌, refl, arith, bit_xor, dec_lt}
use treenity.Prelude.Word.{u32, u32_mod}
use treenity.Prelude.Bits.{bit_xor_eq, bit_xor-lt}
use treenity.Sim.Prng.{shift_left_13, shift_right_17, shift_left_5, rnd_raw, rnd_after}

-- A 32-bit state other than 0.
abbrev pub IsSeed : ℕ → Type 0
IsSeed x = (0 < x) × (x < u32_mod)

two_32 : 2 ^ 32 ≡ u32_mod
two_32 = refl

bit_xor-u32 : (a b : ℕ) → a < u32_mod → b < u32_mod → bit_xor a b < u32_mod
bit_xor-u32 a b h k =
    omega (arith, two_32, bit_xor-lt 32 a b (omega (arith, two_32, h)) (omega (arith, two_32, k)))

-- `x ^ y` is not 0 where `y` differs from `x`.
bit_xor-IsSeed : (x y : ℕ) → x < u32_mod → y < u32_mod → ¬ (x ≡ y) → IsSeed (bit_xor x y)
bit_xor-IsSeed x y h k ne = (
  elim (dec_lt 0 (bit_xor x y)) [
    | yes more ↦ more
    | no none ↦ absurd (ne (bit_xor_eq x y (omega (arith, none))))
  ],
  bit_xor-u32 x y h k,
)

shift_left_13-IsSeed : (x : ℕ) → IsSeed x → IsSeed (shift_left_13 x)
unfolding shift_left_13
shift_left_13-IsSeed x (more, small) = bit_xor-IsSeed x (u32 (x * 8192)) small (omega arith) (λ e.
    let low : x ≡ 8192 * (x % 524288) = omega (arith, e) in
    let lower : x % 524288 ≡ 8192 * (x % 64) = omega (arith, low) in
    omega (arith, low, lower, more))

shift_right_17-IsSeed : (x : ℕ) → IsSeed x → IsSeed (shift_right_17 x)
unfolding shift_right_17
shift_right_17-IsSeed x (more, small) =
    bit_xor-IsSeed x (x / 131072) small (omega (arith, small)) (λ e. omega (arith, e, more))

shift_left_5-IsSeed : (x : ℕ) → IsSeed x → IsSeed (shift_left_5 x)
unfolding shift_left_5
shift_left_5-IsSeed x (more, small) =
    bit_xor-IsSeed x (u32 (x * 32)) small (omega arith) (λ e. omega (arith, e, more, small))

-- From a 32-bit state other than 0 the result is the three shifts alone, and again such a state.
pub rnd_raw-IsSeed :
    (x : ℕ)
    → IsSeed x
    → (rnd_raw x ≡ shift_left_5 (shift_right_17 (shift_left_13 x))) × IsSeed (rnd_raw x)
unfolding rnd_raw
rnd_raw-IsSeed x h =
    ground (arith, shift_left_5-IsSeed _ (shift_right_17-IsSeed _ (shift_left_13-IsSeed x h)))

pub rnd_after-IsSeed : (x n : ℕ) → IsSeed x → IsSeed (rnd_after x n)
rnd_after-IsSeed x zero h = h
rnd_after-IsSeed x (suc n) h = (rnd_raw-IsSeed (rnd_after x n) (rnd_after-IsSeed x n h)).1
