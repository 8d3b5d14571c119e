-- ===== src/Sim/Course.antt =====
-- What sim_run of src/sim/sim.c keeps of the nodes, and of the generator.
use treenity.Prelude.{
  ℕ, zero, suc, ◌+◌, ◌≡◌, refl, sym, ap, subst, true, false, List, [], arith, length, map,
}
use treenity.Node.Invariant.{treenet_rx-is_consistent}
use treenity.Sim.Double.{Double}
use treenity.Sim.State.{Sim, SimNode, TxRec}
use treenity.Sim.Callbacks.{poll_node}
use treenity.Sim.Deliver.{no_pending, hear_all, sim_deliver}
use treenity.Sim.Run.{poll_nodes, sim_step, step_loop, steps, sim_run}
use treenity.Sim.Pointwise.{Pointwise, Pointwise-refl, Pointwise-trans, Pointwise-map}
use treenity.Sim.Evolve.{Evolves, Evolves-refl, Evolves-trans, poll_nodes-Evolves, poll_node-draws}
use treenity.Sim.Draws.{hear_all-Draws, receive_all-Draws}
use treenity.Sim.Heard.{Delivered, nothing, one, sim_deliver-Delivered}
use treenity.Sim.Seed.{IsSeed, rnd_after-IsSeed}

module _ {ℓ} {W : Type ℓ} where
  clash : (n : SimNode W) → n.active ≡ true → ¬ (n.active ≡ false)
  clash n on off = ground (arith, on, off)

  Delivered-Evolves :
      (nodes : List (SimNode W)) (channel : List TxRec) (n n' : SimNode W)
      → Delivered nodes channel n n'
      → Evolves n n'
  Delivered-Evolves nodes channel n n' (nothing e) = subst (Evolves n) (sym e) (Evolves-refl n)
  Delivered-Evolves nodes channel n n' (one r rec bytes rssi snr at' can len e) =
      subst (Evolves n) (sym e) (record {
        addr = refl;
        active = refl;
        x = refl;
        y = refl;
        still = λ off. absurd (clash n can.on off);
        consistent = treenet_rx-is_consistent n.net bytes rssi snr;
      })

module _ {ℓ} {W : Type ℓ} ⦃d : Double W⦄ where
  sim_step-Evolves : (s : Sim W) → Pointwise Evolves s.nodes (sim_step s).nodes
  unfolding sim_step
  sim_step-Evolves s =
      let s1 = poll_nodes (length s.nodes) 0 s in
      Pointwise-trans Evolves Evolves-trans s.nodes s1.nodes (sim_deliver s1).nodes
        (poll_nodes-Evolves (length s.nodes) 0 s)
        (Pointwise-map (Delivered s1.nodes s1.channel) Evolves
          (Delivered-Evolves s1.nodes s1.channel) s1.nodes (sim_deliver s1).nodes
          (sim_deliver-Delivered s1))

  step_loop-Evolves : (left : ℕ) (s : Sim W) → Pointwise Evolves s.nodes (step_loop left s).nodes
  unfolding step_loop
  step_loop-Evolves zero s = Pointwise-refl Evolves Evolves-refl s.nodes
  step_loop-Evolves (suc left) s =
      Pointwise-trans Evolves Evolves-trans s.nodes (sim_step s).nodes _ (sim_step-Evolves s)
        (step_loop-Evolves left (sim_step s))

  -- However long a simulation runs, every node keeps its address, place and radio state; a node whose
  -- radio is off is exactly as before; and a consistent instance stays consistent.
  pub sim_run-Evolves : (s : Sim W) (ms : ℕ) → Pointwise Evolves s.nodes (sim_run s ms).nodes
  unfolding sim_run
  sim_run-Evolves s ms = step_loop-Evolves (steps ms) s

  poll_nodes-IsSeed : (left i : ℕ) (s : Sim W) → IsSeed s.rnd → IsSeed (poll_nodes left i s).rnd
  unfolding poll_nodes
  poll_nodes-IsSeed zero i s h = h
  poll_nodes-IsSeed (suc left) i s h =
      let (n, e, now) = poll_node-draws s i in
      poll_nodes-IsSeed left (i + 1) (poll_node s i)
        (subst IsSeed (sym e) (rnd_after-IsSeed s.rnd n h))

  sim_deliver-IsSeed : (s : Sim W) → IsSeed s.rnd → IsSeed (sim_deliver s).rnd
  unfolding sim_deliver
  sim_deliver-IsSeed s h =
      let heard = hear_all 0 s.channel (map (λ n. no_pending) s.nodes) s in
      let first = hear_all-Draws 0 s.channel (map (λ n. no_pending) s.nodes) s in
      let last = receive_all-Draws s.channel heard.1 s.nodes heard.0 in
      subst IsSeed (sym (ap (λ z. z.rnd) last.same)) (
        rnd_after-IsSeed heard.0.rnd last.count
          (subst IsSeed (sym (ap (λ z. z.rnd) first.same)) (rnd_after-IsSeed s.rnd first.count h)))

  emptied : (s : Sim W) → (sim_deliver s).channel ≡ []
  unfolding sim_deliver
  emptied s = refl

  step_loop-quiet :
      (left : ℕ) (s : Sim W)
      → IsSeed s.rnd
      → s.channel ≡ []
      → IsSeed (step_loop left s).rnd × ((step_loop left s).channel ≡ [])
  unfolding step_loop sim_step
  step_loop-quiet zero s h e = (h, e)
  step_loop-quiet (suc left) s h e =
      step_loop-quiet left (sim_step s)
        (sim_deliver-IsSeed (poll_nodes (length s.nodes) 0 s)
          (poll_nodes-IsSeed (length s.nodes) 0 s h))
        (emptied (poll_nodes (length s.nodes) 0 s))

  -- Between runs the channel is empty, and the generator's state is not 0.
  pub sim_run-quiet :
      (s : Sim W) (ms : ℕ)
      → IsSeed s.rnd
      → s.channel ≡ []
      → IsSeed (sim_run s ms).rnd × ((sim_run s ms).channel ≡ [])
  unfolding sim_run
  sim_run-quiet s ms = step_loop-quiet (steps ms) s
