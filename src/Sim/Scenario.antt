-- ===== src/Sim/Scenario.antt =====
-- Every simulation that calls of the functions of src/sim/sim.c, and of treenet_send and
-- treenet_broadcast with the instances of its nodes, can lead to.
use treenity.Prelude.{ℕ, ◌<◌, refl, Bool, List, arith}
use treenity.Prelude.Word.{u32_mod}
use treenity.Node.State.{Role}
use treenity.Sim.Double.{Double}
use treenity.Sim.State.{Sim}
use treenity.Sim.Api.{
  sim_create, sim_add_node, sim_move_node, sim_set_active, sim_set_path_loss, sim_set_range,
  sim_set_bit_error_rate, sim_set_radio, sim_set_net_id, sim_set_callbacks,
}
use treenity.Sim.Talk.{node_send, node_broadcast}
use treenity.Node.Send.{treenet_send, treenet_broadcast}
use treenity.Node.Life.{is_consistent-same, core-treenet_send, core-treenet_broadcast}
use treenity.Sim.Run.{sim_run}
use treenity.Sim.Pointwise.{Pointwise-length}
use treenity.Sim.Evolve.{Evolves}
use treenity.Sim.Course.{sim_run-Evolves, sim_run-quiet}
use treenity.Sim.Sound.{
  IsSound, on_instance-IsSound, AreNodes-Evolves, change_node-IsSound, sim_add_node-IsSound,
  settings-IsSound,
}

module _ {ℓ} {W : Type ℓ} ⦃d : Double W⦄ where
  pub data Scenario : Sim W → Type ℓ where
    created :
        (seed : ℕ) (tx_power_dbm sensitivity_dbm noise_floor_dbm : W)
        → seed < u32_mod
        → Scenario (sim_create seed tx_power_dbm sensitivity_dbm noise_floor_dbm)
    added :
        (s : Sim W) (addr : ℕ) (role : Role) (x y : W) (reliable : Bool)
        → Scenario s
        → Scenario (sim_add_node s addr role x y reliable).0
    moved : (s : Sim W) (addr : ℕ) (x y : W) → Scenario s → Scenario (sim_move_node s addr x y)
    switched : (s : Sim W) (addr : ℕ) (on : Bool) → Scenario s → Scenario (sim_set_active s addr on)
    fading :
        (s : Sim W) (loss exponent : W) → Scenario s → Scenario (sim_set_path_loss s loss exponent)
    ranged : (s : Sim W) (range_m : W) → Scenario s → Scenario (sim_set_range s range_m)
    noisy : (s : Sim W) (ber : W) → Scenario s → Scenario (sim_set_bit_error_rate s ber)
    tuned : (s : Sim W) (sf bw_hz : ℕ) → Scenario s → Scenario (sim_set_radio s sf bw_hz)
    joined : (s : Sim W) (net_id : ℕ) → Scenario s → Scenario (sim_set_net_id s net_id)
    watched :
        (s : Sim W) (recv event : Bool) → Scenario s → Scenario (sim_set_callbacks s recv event)
    sent :
        (s : Sim W) (addr dst : ℕ) (bytes : List ℕ)
        → Scenario s
        → Scenario (node_send s addr dst bytes)
    broadcast :
        (s : Sim W) (addr : ℕ) (bytes : List ℕ)
        → Scenario s
        → Scenario (node_broadcast s addr bytes)
    run : (s : Sim W) (ms : ℕ) → Scenario s → Scenario (sim_run s ms)

  sim_create-IsSound : (seed : ℕ) (p q r : W) → seed < u32_mod → IsSound (sim_create seed p q r)
  unfolding sim_create
  sim_create-IsSound seed p q r h = record {
    nodes = tt;
    few = omega arith;
    channel = refl;
    seed = ground (arith, h);
  }

  sim_run-IsSound : (s : Sim W) (ms : ℕ) → IsSound s → IsSound (sim_run s ms)
  sim_run-IsSound s ms h =
      let grown = sim_run-Evolves s ms in
      let (seed, channel) = sim_run-quiet s ms h.seed h.channel in
      record {
        nodes = AreNodes-Evolves s.nodes (sim_run s ms).nodes grown h.nodes;
        few = omega (arith, Pointwise-length Evolves s.nodes (sim_run s ms).nodes grown, h.few);
        channel = channel;
        seed = seed;
      }

  -- However the functions of the simulator are called, and treenet_send and treenet_broadcast with the
  -- instances of its nodes, there are at most 32 nodes; no node has the address 0 or the broadcast
  -- address, and each has a consistent instance; no frame is left in the channel; and the generator's
  -- state is not 0. Two nodes can have one address.
  pub Scenario-IsSound : (s : Sim W) → Scenario s → IsSound s
  unfolding sim_move_node sim_set_active sim_set_path_loss sim_set_range sim_set_bit_error_rate
      sim_set_radio sim_set_net_id sim_set_callbacks node_send node_broadcast
  Scenario-IsSound _ (created seed p q r h) = sim_create-IsSound seed p q r h
  Scenario-IsSound _ (added s addr role x y reliable c) =
      sim_add_node-IsSound s addr role x y reliable (Scenario-IsSound s c)
  Scenario-IsSound _ (moved s addr x y c) =
      change_node-IsSound s addr _
        (λ n h. record { valid = h.valid; single = h.single; consistent = h.consistent })
        (Scenario-IsSound s c)
  Scenario-IsSound _ (switched s addr on c) =
      change_node-IsSound s addr _
        (λ n h. record { valid = h.valid; single = h.single; consistent = h.consistent })
        (Scenario-IsSound s c)
  Scenario-IsSound _ (fading s loss exponent c) =
      settings-IsSound s _ refl refl refl (Scenario-IsSound s c)
  Scenario-IsSound _ (ranged s range_m c) =
      settings-IsSound s _ refl refl refl (Scenario-IsSound s c)
  Scenario-IsSound _ (noisy s ber c) = settings-IsSound s _ refl refl refl (Scenario-IsSound s c)
  Scenario-IsSound _ (tuned s sf bw_hz c) =
      settings-IsSound s _ refl refl refl (Scenario-IsSound s c)
  Scenario-IsSound _ (joined s net_id c) =
      settings-IsSound s _ refl refl refl (Scenario-IsSound s c)
  Scenario-IsSound _ (watched s recv event c) =
      settings-IsSound s _ refl refl refl (Scenario-IsSound s c)
  Scenario-IsSound _ (sent s addr dst bytes c) =
      on_instance-IsSound s addr _
        (λ t h. is_consistent-same t (treenet_send t dst bytes).0 (core-treenet_send t dst bytes) h)
        (Scenario-IsSound s c)
  Scenario-IsSound _ (broadcast s addr bytes c) =
      on_instance-IsSound s addr _
        (λ t h.
          is_consistent-same t (treenet_broadcast t bytes).0 (core-treenet_broadcast t bytes) h)
        (Scenario-IsSound s c)
  Scenario-IsSound _ (run s ms c) = sim_run-IsSound s ms (Scenario-IsSound s c)
