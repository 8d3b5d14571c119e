-- ===== src/Sim/Room.antt =====
-- The port of a poll in src/sim/sim.c answers as sim_tx does: the number of frames sent so far tells
-- whether the channel has room for the next.
use treenity.Prelude.{
  ℕ, zero, suc, ◌+◌, ◌≤◌, ◌≡◌, ap, ◌∙◌, List, [], ◌∷◌, some, arith, length, length-append, ltb, min,
  if◌then◌else◌, dec_lt,
}
use treenity.Config.{mtu}
use treenity.Node.State.{Effect, transmit, recv, event, arm}
use treenity.Sim.State.{Sim, SimNode, channel_capacity, at, update}
use treenity.Sim.Callbacks.{
  sim_tx, sim_on_recv, sim_on_event, sim_timer_arm_cb, callback, callbacks, poll_port,
}
use treenity.Sim.Evolve.{callbacks-OnNode}
use treenity.Sim.Channel.{sim_tx-full, sim_tx-taken}

-- How many frames have been sent.
abbrev pub sends : List Effect → ℕ
sends [] = 0
sends (transmit bytes ∷ es) = suc (sends es)
sends (_ ∷ es) = sends es

-- Every frame fits a buffer.
abbrev pub AllFit : List Effect → Type 0
AllFit [] = Unit
AllFit (transmit bytes ∷ es) = (length bytes ≤ mtu) × AllFit es
AllFit (_ ∷ es) = AllFit es

at-update {ℓ} :
    {A : Type ℓ} (i : ℕ) (f : A → A) (xs : List A) (x : A)
    → at xs i ≡ some x
    → at (update i f xs) i ≡ some (f x)
at-update i f [] x e = absurd (ground (arith, e))
at-update zero f (y ∷ ys) x e = let same : y ≡ x = cc in ap (λ z. some (f z)) same
at-update (suc i) f (y ∷ ys) x e = at-update i f ys x e

module _ {ℓ} {W : Type ℓ} where
  sim_tx-length :
      (i : ℕ) (bytes : List ℕ) (s : Sim W) (n : SimNode W)
      → at s.nodes i ≡ some n
      → length bytes ≤ mtu
      → length (sim_tx i bytes s).channel ≡ (
          if ltb (length s.channel) channel_capacity
          then suc (length s.channel)
          else length s.channel)
  sim_tx-length i bytes s n there fit = elim (dec_lt (length s.channel) channel_capacity) [
    | yes room ↦
        ap length (sim_tx-taken i bytes s n there (ground (arith, room)) (ground (arith, fit)))
        ∙ ground
            (arith, room, length-append s.channel (record { sender = n.addr; buf = bytes } ∷ []))
    | no full ↦
        ap (λ u. length u.channel) (sim_tx-full i bytes s n there (ground (arith, full)))
        ∙ ground (arith, full)
  ]

  callbacks-length :
      (i : ℕ) (es : List Effect) (s : Sim W) (n : SimNode W)
      → at s.nodes i ≡ some n
      → AllFit es
      → length s.channel ≤ channel_capacity
      → length (callbacks i es s).channel ≡ min channel_capacity (length s.channel + sends es)
  unfolding callbacks callback sim_on_recv sim_on_event sim_timer_arm_cb
  callbacks-length i [] s n there fit small = omega (arith, small)
  callbacks-length i (transmit bytes ∷ es) s n there fit small =
      let made = callbacks-OnNode i es s in
      let still = ap (λ xs. at xs i) made.nodes ∙ at-update i made.change s.nodes n there in
      ground (
        arith,
        callbacks-length i es s n there fit.1 small,
        sim_tx-length i bytes (callbacks i es s) (made.change n) still fit.0,
        small,
      )
  callbacks-length i (recv src bytes rssi snr hops ∷ es) s n there fit small =
      callbacks-length i es s n there fit small
  callbacks-length i (event ev arg ∷ es) s n there fit small =
      callbacks-length i es s n there fit small
  callbacks-length i (arm delay_ms ∷ es) s n there fit small =
      callbacks-length i es s n there fit small

  -- After any calls of a poll whose frames all fit, the port's answer for the next frame, which depends
  -- only on how many have been sent, is whether the channel has room for it by then.
  pub poll_port-room :
      (i : ℕ) (es : List Effect) (s : Sim W) (n : SimNode W)
      → at s.nodes i ≡ some n
      → AllFit es
      → length s.channel ≤ channel_capacity
      → (poll_port s).tx_ok (sends es) ≡ ltb (length (callbacks i es s).channel) channel_capacity
  unfolding poll_port
  poll_port-room i es s n there fit small =
      ground (arith, callbacks-length i es s n there fit small, small)
