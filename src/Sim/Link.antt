-- ===== src/Sim/Link.antt =====
-- sim_link of src/sim/sim.c: whether a node hears another, and how well.
use treenity.Prelude.{Option, none, some, ◌||◌, if◌then◌else◌}
use treenity.Prelude.Int.{ℤ, pos, negsuc}
use treenity.Sim.Double.{Double}
use treenity.Sim.State.{Sim, SimNode}
use treenity.Sim.Prng.{sim_rnd_unit}

module _ {ℓ} {W : Type ℓ} ⦃d : Double W⦄ where
  -- In metres, and at least 1.
  unfoldable pub distance : SimNode W → SimNode W → W
  distance a b =
      let dx = d.sub a.x b.x in
      let dy = d.sub a.y b.y in
      let r = d.sqrt (d.add (d.mul dx dx) (d.mul dy dy)) in
      if d.lt r (d.literal (pos 1) 0) then d.literal (pos 1) 0 else r

  -- The received power at a distance.
  unfoldable pub rssi_at : Sim W → W → W
  rssi_at s r =
      d.sub s.tx_power_dbm
        (d.add s.ref_loss_db (d.mul (d.mul (d.literal (pos 10) 0) s.path_loss_exp) (d.log10 r)))

  -- `none` is the result false; the numbers are `*out_rssi` and `*out_snr`.
  unfoldable pub sim_link : Sim W → SimNode W → SimNode W → Sim W × Option (ℤ × ℤ)
  unfolding distance rssi_at
  sim_link s a b =
      let r = distance a b in
      let rssi = rssi_at s r in
      let snr = d.sub rssi s.noise_floor_dbm in
      let margin = d.sub rssi s.sensitivity_dbm in
      let p_loss = d.pow (d.literal (pos 5) 1) (d.div margin (d.literal (pos 3) 0)) in
      let (s1, u) = sim_rnd_unit s in
      if d.lt s.range_m r || d.lt rssi s.sensitivity_dbm || d.lt snr (d.literal (negsuc 19) 0)
      then (s, none)
      else if d.lt u p_loss
      then (s1, none)
      else (s1, some (d.to_int16 rssi, d.to_int8 snr))
