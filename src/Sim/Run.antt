-- ===== src/Sim/Run.antt =====
-- sim_run of src/sim/sim.c: the steps of virtual time.
use treenity.Prelude.{ℕ, zero, suc, ◌+◌, ◌-◌, ◌/◌, length}
use treenity.Prelude.Word.{u32, add32}
use treenity.Sim.Double.{Double}
use treenity.Sim.State.{Sim, step_ms}
use treenity.Sim.Callbacks.{poll_node}
use treenity.Sim.Deliver.{sim_deliver}

module _ {ℓ} {W : Type ℓ} where
  -- The nodes from index `i` on.
  unfoldable pub poll_nodes : (left i : ℕ) → Sim W → Sim W
  poll_nodes zero i s = s
  poll_nodes (suc left) i s = poll_nodes left (i + 1) (poll_node s i)

-- `(ms + SIM_STEP_MS - 1u) / SIM_STEP_MS`
unfoldable pub steps : ℕ → ℕ
steps ms = u32 (ms + step_ms - 1) / step_ms

module _ {ℓ} {W : Type ℓ} ⦃d : Double W⦄ where
  unfoldable pub sim_step : Sim W → Sim W
  unfolding poll_nodes
  sim_step s =
      let s1 = sim_deliver (poll_nodes (length s.nodes) 0 s) in
      record s1 { now_ms = add32 s1.now_ms step_ms }

  unfoldable pub step_loop : ℕ → Sim W → Sim W
  step_loop zero s = s
  step_loop (suc left) s = step_loop left (sim_step s)

  unfoldable pub sim_run : Sim W → ℕ → Sim W
  unfolding step_loop steps
  sim_run s ms = step_loop (steps ms) s
