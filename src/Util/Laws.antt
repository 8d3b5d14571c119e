-- ===== src/Util/Laws.antt =====
-- What the helpers of src/core/util.h promise.
use treenity.Prelude.{ℕ, ◌≤◌, ◌<◌, ◌≡◌, false, ltb, arith}
use treenity.Prelude.Word.{add32, u32_mod}
use treenity.Prelude.Int.{ℤ, ◌≤ℤ◌}
use treenity.Util.{time_after, elapsed, snr_score_q8, rand_below}

-- For two instants `d` apart, less than 2 ^ 31 ms, `time_after` says whether `d` is positive, and
-- it never holds both ways, whatever the clock reads and also across its wrap.
pub time_after_lem :
    (now d : ℕ)
    → now < u32_mod
    → d < 0x8000_0000
    → (time_after (add32 now d) now ≡ ltb 0 d) × (time_after now (add32 now d) ≡ false)
unfolding time_after
time_after_lem now d h k = ground arith

-- `elapsed` gives back the time that has passed, across the wrap.
pub elapsed-add32 : (now d : ℕ) → now < u32_mod → d < u32_mod → elapsed now (add32 now d) ≡ d
unfolding elapsed
elapsed-add32 now d h k = omega arith

pub elapsed-lt : (a b : ℕ) → elapsed a b < u32_mod
unfolding elapsed
elapsed-lt a b = omega arith

pub rand_below-lt : (r bound : ℕ) → 0 < bound → rand_below r bound < bound
unfolding rand_below
rand_below-lt r bound h = grind arith

-- A worse SNR never gets a better score, and the score stays within 0..1024.
pub snr_score_q8_mono :
    (a b : ℤ) → a ≤ℤ b → (snr_score_q8 b ≤ snr_score_q8 a) × (snr_score_q8 a ≤ 1024)
unfolding snr_score_q8
snr_score_q8_mono a b h = ground arith
