-- ===== src/Sim/Clock.antt =====
-- The virtual time of src/sim/sim.c.
use treenity.Prelude.{
  ℕ, zero, suc, ◌+◌, ◌*◌, ◌≤◌, ◌<◌, ◌≡◌, refl, ap, ◌∙◌, arith, length, map, ◌⊎◌, inl, inr, dec_le,
}
use treenity.Prelude.Word.{u32, u32_mod, add32}
use treenity.Sim.Double.{Double}
use treenity.Sim.State.{Sim, step_ms}
use treenity.Sim.Callbacks.{poll_node}
use treenity.Sim.Deliver.{no_pending, hear_all, sim_deliver}
use treenity.Sim.Run.{poll_nodes, sim_step, step_loop, steps, sim_run}
use treenity.Sim.Evolve.{poll_node-draws}
use treenity.Sim.Draws.{hear_all-Draws, receive_all-Draws}

module _ {ℓ} {W : Type ℓ} where
  poll_nodes-now : (left i : ℕ) (s : Sim W) → (poll_nodes left i s).now_ms ≡ s.now_ms
  unfolding poll_nodes
  poll_nodes-now zero i s = refl
  poll_nodes-now (suc left) i s =
      poll_nodes-now left (i + 1) (poll_node s i) ∙ (poll_node-draws s i).2

module _ {ℓ} {W : Type ℓ} ⦃d : Double W⦄ where
  sim_deliver-now : (s : Sim W) → (sim_deliver s).now_ms ≡ s.now_ms
  unfolding sim_deliver
  sim_deliver-now s =
      let heard = hear_all 0 s.channel (map (λ n. no_pending) s.nodes) s in
      ap (λ z. z.now_ms) (receive_all-Draws s.channel heard.1 s.nodes heard.0).same
      ∙ ap (λ z. z.now_ms) (hear_all-Draws 0 s.channel (map (λ n. no_pending) s.nodes) s).same

  sim_step-now : (s : Sim W) → (sim_step s).now_ms ≡ add32 s.now_ms step_ms
  unfolding sim_step
  sim_step-now s =
      ap (λ n. add32 n step_ms)
        (sim_deliver-now (poll_nodes (length s.nodes) 0 s) ∙ poll_nodes-now (length s.nodes) 0 s)

  step_loop-now :
      (left : ℕ) (s : Sim W)
      → s.now_ms < u32_mod
      → (step_loop left s).now_ms ≡ u32 (s.now_ms + left * step_ms)
  unfolding step_loop
  step_loop-now zero s h = omega (arith, h)
  step_loop-now (suc left) s h =
      omega (arith, step_loop-now left (sim_step s) (omega (arith, sim_step-now s)), sim_step-now s)

-- How many steps a run has: the fewest that cover the time asked for, or none where the sum wraps.
steps-covers :
    (ms : ℕ)
    → ms < u32_mod
    → ((ms + 10 ≤ u32_mod) × (ms ≤ steps ms * step_ms) × (steps ms * step_ms < ms + step_ms))
      ⊎ ((u32_mod < ms + 10) × (steps ms ≡ 0))
unfolding steps
steps-covers ms h = elim (dec_le (ms + 10) u32_mod) [
  | yes near ↦ inl (near, omega (arith, h, near), omega (arith, h, near))
  | no far ↦ inr (omega (arith, far), omega (arith, h, far))
]

module _ {ℓ} {W : Type ℓ} ⦃d : Double W⦄ where
  -- A run of `ms` milliseconds advances the clock, modulo its range, by the fewest whole steps that
  -- cover them; a run that comes within 9 ms of the range leaves the clock as it is.
  pub sim_run-now :
      (s : Sim W) (ms : ℕ)
      → s.now_ms < u32_mod
      → ms < u32_mod
      → ((ms + 10 ≤ u32_mod)
          × (ms ≤ steps ms * step_ms)
          × (steps ms * step_ms < ms + step_ms)
          × ((sim_run s ms).now_ms ≡ u32 (s.now_ms + steps ms * step_ms)))
        ⊎ ((u32_mod < ms + 10) × ((sim_run s ms).now_ms ≡ s.now_ms))
  unfolding sim_run
  sim_run-now s ms now h =
      let clock = step_loop-now (steps ms) s now in
      elim (steps-covers ms h) [
        | inl (near, enough, fewest) ↦ inl (near, enough, fewest, clock)
        | inr (far, zero_steps) ↦ inr (far, omega (arith, clock, zero_steps, now))
      ]
