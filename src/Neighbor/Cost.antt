-- ===== src/Neighbor/Cost.antt =====
-- The range of the link cost.
use treenity.Prelude.{
  ℕ, ◌/◌, ◌≤◌, ◌≡◌, refl, arith, passes_below, passes_below_lem, ltb, leb, ◌||◌, ◌&&◌, true,
}
use treenity.Prelude.Int.{ℤ, to_signed, to_unsigned}
use treenity.Util.{snr_score_q8}
use treenity.Util.Laws.{snr_score_q8_mono}
use treenity.Ewma
use treenity.Neighbor.Defs.{Neighbor, clamped_pdr, update_cost}

clamped_pdr_bounds : (n : Neighbor) → (16 ≤ clamped_pdr n) × (clamped_pdr n ≤ 256)
unfolding clamped_pdr
clamped_pdr_bounds n = ground arith

snr_score-le : (s : ℤ) → snr_score_q8 s ≤ 1024
snr_score-le s = (snr_score_q8_mono s s (omega arith)).1

etx_bounds : (p : ℕ) → 16 ≤ p → p ≤ 256 → (256 ≤ 65536 / p) × (65536 / p ≤ 4096)
etx_bounds p lo hi = ground (
  arith,
  passes_below_lem (λ q. ltb q 16 || leb 256 (65536 / q) && leb (65536 / q) 4096) 257 p
      (omega (arith, hi)) table,
)
  where
    table : passes_below (λ q. ltb q 16 || leb 256 (65536 / q) && leb (65536 / q) 4096) 257 ≡ true
    table = unfold passes_below in refl

-- Whatever has been measured, ETX lies between 1.0 and 16.0 in Q8, and the composite cost is at
-- most 768, so that its clamp at 1024 never acts.
pub update_cost_bounds :
    (n : Neighbor)
    → (256 ≤ (update_cost n).etx_q8)
      × ((update_cost n).etx_q8 ≤ 4096)
      × ((update_cost n).link_cost ≤ 768)
unfolding update_cost
update_cost_bounds n =
    let (lo, hi) = etx_bounds (clamped_pdr n) (clamped_pdr_bounds n).0 (clamped_pdr_bounds n).1 in
    let s = snr_score-le (to_signed 256 (to_unsigned 256 (Ewma.get n.snr))) in
    (omega arith, omega arith, omega arith)
