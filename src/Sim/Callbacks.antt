-- ===== src/Sim/Callbacks.antt =====
-- The port and the callbacks that src/sim/sim.c gives to every instance. A poll of node `i` runs with
-- `g_current` at `i`; what it asks of the port does not depend on what it does to the simulator but
-- for the frames it has sent and the numbers it has drawn.
use treenity.Prelude.{
  ℕ, suc, ◌+◌, true, not, ◌&&◌, List, [], ◌∷◌, ◌++◌, none, some, ltb, leb, ◌==◌, if◌then◌else◌,
  length,
}
use treenity.Prelude.Word.{u32, u32_max}
use treenity.Prelude.Int.{ℤ}
use treenity.Config.{mtu}
use treenity.Node.State.{Node, Port, Event, Effect, transmit, recv, event, arm, incr}
use treenity.Node.Lifecycle.{zero_world}
use treenity.Node.Poll.{treenet_poll}
use treenity.Sim.State.{Sim, user_recv, user_event, channel_capacity, at, update}
use treenity.Sim.Prng.{rnd_after}

module _ {ℓ} {W : Type ℓ} where
  -- The simulator after sim_tx of node `i`; a refused frame changes nothing.
  unfoldable pub sim_tx : ℕ → List ℕ → Sim W → Sim W
  sim_tx i bytes s = elim (at s.nodes i) [
    | none ↦ s
    | some n ↦
        if leb channel_capacity (length s.channel)
        then s
        else if ltb mtu (length bytes)
        then s
        else record s { channel = s.channel ++ (record { sender = n.addr; buf = bytes } ∷ []) }
  ]

  unfoldable pub sim_timer_arm_cb : ℕ → ℕ → Sim W → Sim W
  sim_timer_arm_cb i delay_ms s = record s {
    nodes =
        update i
          (λ n. record n {
            last_timer_arm = delay_ms;
            max_timer_arm =
                if not (delay_ms == u32_max) && ltb n.max_timer_arm delay_ms
                then delay_ms
                else n.max_timer_arm;
            timer_arm_count = incr n.timer_arm_count;
          })
          s.nodes;
  }

  -- The instance of node `i` calls.
  unfoldable pub sim_on_recv : ℕ → (src : ℕ) → List ℕ → (rssi snr : ℤ) → (hops : ℕ) → Sim W → Sim W
  sim_on_recv i src bytes rssi snr hops s = record s {
    nodes =
        update i
          (λ n. record n {
            datagrams_rx = incr n.datagrams_rx;
            last_src = src;
            last_len = u32 (length bytes);
            last_rssi = rssi;
            last_snr = snr;
          })
          s.nodes;
    hook_calls =
        if s.has_user_recv
        then user_recv i src bytes rssi snr hops ∷ s.hook_calls
        else s.hook_calls;
  }

  unfoldable pub sim_on_event : ℕ → Event → Sim W → Sim W
  sim_on_event i ev s = record s {
    nodes = update i (λ n. record n { events = incr n.events }) s.nodes;
    hook_calls = if s.has_user_event then user_event i ev ∷ s.hook_calls else s.hook_calls;
  }

  unfoldable pub callback : ℕ → Effect → Sim W → Sim W
  unfolding sim_tx sim_timer_arm_cb sim_on_recv sim_on_event
  callback i (transmit bytes) s = sim_tx i bytes s
  callback i (recv src bytes rssi snr hops) s = sim_on_recv i src bytes rssi snr hops s
  callback i (event ev arg) s = sim_on_event i ev s
  callback i (arm delay_ms) s = sim_timer_arm_cb i delay_ms s

  -- All calls of one poll; the list has the newest first.
  unfoldable pub callbacks : ℕ → List Effect → Sim W → Sim W
  callbacks i [] s = s
  callbacks i (e ∷ es) s = callback i e (callbacks i es s)

  -- The port during a poll: sim_tx succeeds while the channel has room (no queued frame is longer
  -- than the MTU), sim_rnd_cb draws the next number, sim_now_cb reads the virtual time.
  unfoldable pub poll_port : Sim W → Port
  poll_port s = record {
    tx_ok = λ n. ltb (length s.channel + n) channel_capacity;
    now_ms = λ n. s.now_ms;
    rnd = λ n. rnd_after s.rnd (suc n);
    channel_free = some (λ n. true);
    has_timer_arm = true;
  }

  -- The instance as a poll finds it, with nothing recorded yet.
  abbrev pub attached : Sim W → Node → Node
  attached s t = record t { port = poll_port s; world = zero_world }

  -- `g_current = i; treenet_poll(s->nodes[i].net)` for an active node.
  unfoldable pub poll_node : Sim W → ℕ → Sim W
  unfolding poll_port callbacks
  poll_node s i = elim (at s.nodes i) [
    | none ↦ s
    | some n ↦
        if not n.active
        then s
        else let t = treenet_poll (attached s n.net) in
          callbacks i t.world.effects (record s {
            rnd = rnd_after s.rnd t.world.rnd_calls;
            nodes = update i (λ m. record m { net = t }) s.nodes;
          })
  ]
