-- ===== src/Sim/Double.antt =====
-- What src/sim/sim.c does with a `double`: C's arithmetic and comparison, three functions of the C
-- library, and casts. They are parameters of the simulator.
use treenity.Prelude.{ℕ, Bool}
use treenity.Prelude.Int.{ℤ}

pub record Double {ℓ} (W : Type ℓ) : Type ℓ where
  -- The constant n / 10 ^ k, as in `literal (pos 27) 1` for 2.7.
  pub literal : (n : ℤ) → (k : ℕ) → W
  pub of_nat : ℕ → W
  pub add : W → W → W
  pub sub : W → W → W
  pub mul : W → W → W
  pub div : W → W → W
  pub sqrt : W → W
  pub log10 : W → W
  pub pow : W → W → W
  -- `a < b`
  pub lt : W → W → Bool
  pub to_int16 : W → ℤ
  pub to_int8 : W → ℤ
