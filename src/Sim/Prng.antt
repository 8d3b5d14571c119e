-- ===== src/Sim/Prng.antt =====
-- The generator of src/sim/sim.c, on its 32-bit state.
use treenity.Prelude.{ℕ, zero, suc, ◌*◌, ◌/◌, ◌==◌, if◌then◌else◌, bit_xor}
use treenity.Prelude.Word.{u32}
use treenity.Sim.Double.{Double}
use treenity.Sim.State.{Sim}

-- `x ^= x << 13`, `x ^= x >> 17`, `x ^= x << 5`
unfoldable pub shift_left_13 : ℕ → ℕ
shift_left_13 x = bit_xor x (u32 (x * 8192))

unfoldable pub shift_right_17 : ℕ → ℕ
shift_right_17 x = bit_xor x (x / 131072)

unfoldable pub shift_left_5 : ℕ → ℕ
shift_left_5 x = bit_xor x (u32 (x * 32))

-- The state after sim_rnd_raw, which is its result.
unfoldable pub rnd_raw : ℕ → ℕ
unfolding shift_left_13 shift_right_17 shift_left_5
rnd_raw rnd =
    let x = shift_left_5 (shift_right_17 (shift_left_13 rnd)) in if x == 0 then 0x12345678 else x

-- The state after `n` calls.
abbrev pub rnd_after : ℕ → ℕ → ℕ
rnd_after rnd zero = rnd
rnd_after rnd (suc n) = rnd_raw (rnd_after rnd n)

module _ {ℓ} {W : Type ℓ} ⦃d : Double W⦄ where
  unfoldable pub sim_rnd_unit : Sim W → Sim W × W
  sim_rnd_unit s =
      let rnd' = rnd_raw s.rnd in
      (record s { rnd = rnd' }, d.div (d.of_nat (rnd' / 256)) (d.of_nat 16777216))
