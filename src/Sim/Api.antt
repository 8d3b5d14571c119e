-- ===== src/Sim/Api.antt =====
-- The functions of src/sim/sim.c that set up and change a scenario. `g_sim` is the simulator at hand,
-- memory never runs out, and pointers to nodes are indices.
use treenity.Prelude.{
  ℕ, Bool, true, false, ◌||◌, [], ◌∷◌, ◌++◌, Option, none, some, leb, ◌==◌, if◌then◌else◌, length,
  find_index,
}
use treenity.Prelude.Int.{pos}
use treenity.Config.{addr_invalid, addr_broadcast}
use treenity.Node.State.{Node, Role, Config, Port}
use treenity.Node.Lifecycle.{treenet_init}
use treenity.Sim.Double.{Double}
use treenity.Sim.State.{Sim, SimNode, max_nodes, at, update}
use treenity.Sim.Prng.{rnd_after}
use treenity.Sim.Callbacks.{poll_port}

module _ {ℓ} {W : Type ℓ} where
  -- The configuration that sim_add_node writes.
  abbrev pub node_config : Sim W → (addr : ℕ) → Role → (reliable : Bool) → Config
  node_config s addr role reliable = record {
    addr = addr;
    role = role;
    net_id = s.net_id;
    has_on_recv = true;
    has_on_event = true;
    reliable = reliable;
    radio = record { spreading_factor = s.radio_sf; bandwidth_hz = s.radio_bw_hz; coding_rate = 1 };
  }

  -- The port outside a poll: `g_current` is -1, so sim_tx refuses.
  abbrev pub idle_port : Sim W → Port
  idle_port s = record (poll_port s) { tx_ok = λ n. false }

  abbrev pub new_node : (addr : ℕ) → Role → (x y : W) → Node → SimNode W
  new_node addr role x y net = record {
    addr = addr;
    role = role;
    x = x;
    y = y;
    active = true;
    net = net;
    datagrams_rx = 0;
    events = 0;
    last_src = 0;
    last_len = 0;
    last_rssi = pos 0;
    last_snr = pos 0;
    last_timer_arm = 0;
    max_timer_arm = 0;
    timer_arm_count = 0;
  }

  -- With the new node's index; `none` is NULL.
  unfoldable pub sim_add_node :
      Sim W → (addr : ℕ) → Role → (x y : W) → (reliable : Bool) → Sim W × Option ℕ
  sim_add_node s addr role x y reliable =
      if leb max_nodes (length s.nodes)
      then (s, none)
      else if addr == addr_invalid || addr == addr_broadcast
      then (s, none)
      else elim (treenet_init (node_config s addr role reliable) (idle_port s)) [
        | none ↦ (s, none)
        | some net ↦ (
          record s {
            rnd = rnd_after s.rnd net.world.rnd_calls;
            nodes = s.nodes ++ (new_node addr role x y net ∷ []);
          },
          some (length s.nodes),
        )
      ]

  unfoldable pub sim_find : Sim W → ℕ → Option ℕ
  sim_find s addr = find_index (λ n. n.addr == addr) s.nodes

  -- `sim_find`, and a change of the node that it finds.
  abbrev pub change_node : Sim W → ℕ → (SimNode W → SimNode W) → Sim W
  change_node s addr f = elim (sim_find s addr) [
    | none ↦ s
    | some i ↦ record s { nodes = update i f s.nodes }
  ]

  unfoldable pub sim_move_node : Sim W → (addr : ℕ) → (x y : W) → Sim W
  unfolding sim_find
  sim_move_node s addr x y = change_node s addr (λ n. record n { x = x; y = y })

  unfoldable pub sim_set_active : Sim W → (addr : ℕ) → Bool → Sim W
  unfolding sim_find
  sim_set_active s addr active = change_node s addr (λ n. record n { active = active })

  unfoldable pub sim_node_count : Sim W → ℕ
  sim_node_count s = length s.nodes

  unfoldable pub sim_node_at : Sim W → ℕ → Option (SimNode W)
  sim_node_at s i = at s.nodes i

  unfoldable pub sim_now : Sim W → ℕ
  sim_now s = s.now_ms

  unfoldable pub sim_set_path_loss : Sim W → (ref_loss_db exponent : W) → Sim W
  sim_set_path_loss s ref_loss_db exponent = record s {
    ref_loss_db = ref_loss_db;
    path_loss_exp = exponent;
  }

  unfoldable pub sim_set_radio : Sim W → (sf bw_hz : ℕ) → Sim W
  sim_set_radio s sf bw_hz = record s {
    radio_sf = if sf == 0 then 9 else sf;
    radio_bw_hz = if bw_hz == 0 then 125000 else bw_hz;
  }

  unfoldable pub sim_set_net_id : Sim W → ℕ → Sim W
  sim_set_net_id s net_id = record s { net_id = net_id }

  -- Of the two hooks only whether they are set.
  unfoldable pub sim_set_callbacks : Sim W → (recv event : Bool) → Sim W
  sim_set_callbacks s recv event = record s { has_user_recv = recv; has_user_event = event }

module _ {ℓ} {W : Type ℓ} ⦃d : Double W⦄ where
  unfoldable pub sim_create :
      (seed : ℕ) → (tx_power_dbm sensitivity_dbm noise_floor_dbm : W) → Sim W
  sim_create seed tx_power_dbm sensitivity_dbm noise_floor_dbm = record {
    now_ms = 0;
    rnd = if seed == 0 then 1 else seed;
    tx_power_dbm = tx_power_dbm;
    sensitivity_dbm = sensitivity_dbm;
    noise_floor_dbm = noise_floor_dbm;
    ref_loss_db = d.literal (pos 40) 0;
    path_loss_exp = d.literal (pos 27) 1;
    range_m = d.literal (pos 1000000000) 0;
    bit_error_rate = d.literal (pos 0) 0;
    radio_sf = 9;
    radio_bw_hz = 125000;
    net_id = 1;
    nodes = [];
    channel = [];
    has_user_recv = false;
    has_user_event = false;
    hook_calls = [];
  }

  unfoldable pub sim_set_range : Sim W → W → Sim W
  sim_set_range s range_m = record s {
    range_m = if d.lt (d.literal (pos 0) 0) range_m then range_m else d.literal (pos 1000000000) 0;
  }

  unfoldable pub sim_set_bit_error_rate : Sim W → W → Sim W
  sim_set_bit_error_rate s ber = record s {
    bit_error_rate = if d.lt (d.literal (pos 0) 0) ber then ber else d.literal (pos 0) 0;
  }
