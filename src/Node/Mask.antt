-- ===== src/Node/Mask.antt =====
-- The bit mask of the fragments that have arrived, in src/api/treenet.c.
use treenity.Prelude.{
  ℕ, zero, suc, ◌+◌, ◌*◌, ◌/◌, ◌%◌, ◌^◌, ◌≤◌, ◌<◌, ◌≡◌, refl, sym, ap, ◌∙◌, Bool, true, false, not,
  ◌&&◌, ◌||◌, arith, bit_or, ltb, ◌==◌, passes_below, passes_below_lem, ℕ_discrete, ltb→lt,
}
use treenity.Node.Reasm.{has_fragment, received_count}

abbrev same_bool : Bool → Bool → Bool
same_bool true b = b
same_bool false b = not b

-- Setting a bit, for every mask of 6 bits.
abbrev bit_test : ℕ → ℕ → ℕ → Bool
bit_test mask i j =
    let after = bit_or mask (2 ^ i) in
    ltb after 64 && same_bool (has_fragment after j) (has_fragment mask j || i == j)

abbrev bit_test_at : ℕ → Bool
bit_test_at n = bit_test (n / 36) (n / 6 % 6) (n % 6)

all_bits : passes_below bit_test_at 2304 ≡ true
unfolding passes_below
all_bits = refl

same_bool_eq : (a b : Bool) → same_bool a b ≡ true → a ≡ b
same_bool_eq true b h = sym h
same_bool_eq false true h = absurd (ground (arith, h))
same_bool_eq false false h = refl

both : (a b : Bool) → (a && b) ≡ true → (a ≡ true) × (b ≡ true)
both true b h = (refl, h)
both false b h = absurd (ground (arith, h))

pub set_bit :
    (mask i j : ℕ)
    → mask < 64
    → i < 6
    → j < 6
    → (bit_or mask (2 ^ i) < 64)
      × (has_fragment (bit_or mask (2 ^ i)) j ≡ (has_fragment mask j || i == j))
set_bit mask i j h k l =
    let n = mask * 36 + i * 6 + j in
    let e1 : n / 36 ≡ mask = omega (arith, k, l) in
    let e2 : n / 6 % 6 ≡ i = omega (arith, k, l) in
    let e3 : n % 6 ≡ j = omega (arith, l) in
    let test : bit_test mask i j ≡ true =
      sym (
        ap (λ x. bit_test x (n / 6 % 6) (n % 6)) e1
        ∙ ap (λ x. bit_test mask x (n % 6)) e2
        ∙ ap (bit_test mask i) e3)
      ∙ passes_below_lem bit_test_at 2304 n (omega (arith, h, k, l)) all_bits in
    let (small, same) =
      both (ltb (bit_or mask (2 ^ i)) 64)
        (same_bool (has_fragment (bit_or mask (2 ^ i)) j) (has_fragment mask j || i == j)) test in
    (ltb→lt _ _ small, same_bool_eq _ _ same)

received_count-le : (mask n : ℕ) → received_count mask n ≤ n
unfolding received_count
received_count-le mask zero = omega arith
received_count-le mask (suc n) = ground (arith, received_count-le mask n)

-- A count that is full counts every fragment.
pub received_count-full :
    (mask n : ℕ) → ((i : ℕ) → i < n → has_fragment mask i ≡ true) → received_count mask n ≡ n
unfolding received_count
received_count-full mask zero h = refl
received_count-full mask (suc n) h =
    ground (arith, received_count-full mask n (λ i lt. h i (omega (arith, lt))), h n (omega arith))

pub received_count-missing :
    (mask n i : ℕ) → i < n → has_fragment mask i ≡ false → received_count mask n < n
unfolding received_count
received_count-missing mask zero i lt no_bit = absurd (omega (arith, lt))
received_count-missing mask (suc n) i lt no_bit = elim (ℕ_discrete i n) [
  | yes last ↦
      let here : has_fragment mask n ≡ false = ap (has_fragment mask) (sym last) ∙ no_bit in
      ground (arith, here, received_count-le mask n)
  | no other ↦ ground (arith, received_count-missing mask n i (omega (arith, lt, other)) no_bit)
]
