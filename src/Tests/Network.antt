-- ===== src/Tests/Network.antt =====
-- A simulation and an event queue at concrete inputs.
use treenity.Prelude.{
  ℕ, ◌+◌, ◌-◌, ◌*◌, ◌/◌, ◌≡◌, ◌⊎◌, ◌≤◌, ◌<◌, refl, true, take, map, length, min, count_if, [], ◌∷◌,
  ◌++◌, arith, ltb, if◌then◌else◌,
}
use treenity.Prelude.Word.{u32, u32_mod}
use treenity.Prelude.Int.{pos, pos_part}
use treenity.Node.State.{Node, node, master, joined, tx_failed, event, transmit, null, to_parent}
use treenity.Node.Lifecycle.{blank}
use treenity.Node.Event.{empty_queue, events_flush}
use treenity.Node.EventList.{IsQueue, contents}
use treenity.Node.Announce.{newest, calls, emit_all, events_flush-emit_all}
use treenity.Node.Inspect.{info_of, treenet_neighbors}
use treenity.Node.Listing.{in_use, treenet_neighbors-take}
use treenity.Node.Send.{treenet_send}
use treenity.Node.Refuse.{Atomic, treenet_send-Atomic}
use treenity.Sim.Double.{Double}
use treenity.Sim.State.{Sim, step_ms, channel_capacity}
use treenity.Sim.Prng.{shift_left_13, shift_right_17, shift_left_5, rnd_raw}
use treenity.Sim.Deliver.{sim_deliver}
use treenity.Sim.Api.{node_config, idle_port, new_node, sim_create, sim_add_node}
use treenity.Sim.Run.{poll_nodes, steps, sim_run}
use treenity.Sim.Pointwise.{Pointwise}
use treenity.Sim.Evolve.{Evolves}
use treenity.Sim.Heard.{Delivered, sim_deliver-Delivered}
use treenity.Sim.Seed.{rnd_raw-IsSeed, IsSeed}
use treenity.Sim.Course.{sim_run-Evolves}
use treenity.Sim.Channel.{IsChannel, poll_nodes-IsChannel}
use treenity.Sim.Callbacks.{poll_port, callbacks}
use treenity.Sim.Room.{sends, poll_port-room}
use treenity.Sim.Clock.{sim_run-now}
use treenity.Sim.Sound.{IsSound}
use treenity.Sim.Talk.{node_send, node_broadcast}
use treenity.Sim.Scenario.{created, added, run, sent, broadcast, Scenario-IsSound}

-- Whole numbers in place of `double`, with a logarithm that is 0 everywhere.
instance abbrev whole_double : Double ℕ
whole_double = record {
  literal = λ n k. pos_part n;
  of_nat = λ n. n;
  add = λ a b. a + b;
  sub = λ a b. a - b;
  mul = λ a b. a * b;
  div = λ a b. a / b;
  sqrt = λ a. a;
  log10 = λ a. 0;
  pow = λ a b. 0;
  lt = ltb;
  to_int16 = pos;
  to_int8 = pos;
}

abbrev fresh : Sim ℕ
fresh = sim_create 42 100 10 1

-- Two nodes, and a frame of the second one in the air.
abbrev pair_on_air : Sim ℕ
pair_on_air = record fresh {
  nodes =
      new_node 5 node 0 0 (blank (node_config fresh 5 node true) (idle_port fresh))
      ∷ new_node 9 master 3 4 (blank (node_config fresh 9 master true) (idle_port fresh))
      ∷ [];
  channel = record { sender = 9; buf = 1 ∷ 2 ∷ 3 ∷ [] } ∷ [];
}

sim_deliver-Delivered_example :
    Pointwise
      (Delivered pair_on_air.nodes pair_on_air.channel)
      pair_on_air.nodes
      (sim_deliver pair_on_air).nodes
sim_deliver-Delivered_example = sim_deliver-Delivered pair_on_air

sim_run-Evolves_example : Pointwise Evolves pair_on_air.nodes (sim_run pair_on_air 25).nodes
sim_run-Evolves_example = sim_run-Evolves pair_on_air 25

poll_nodes-IsChannel_example : IsChannel (poll_nodes 2 0 pair_on_air).channel
poll_nodes-IsChannel_example = poll_nodes-IsChannel 2 0 pair_on_air (omega arith, (omega arith, tt))

-- The first node has sent a frame and reported an event.
poll_port-room_example :
    (poll_port pair_on_air).tx_ok (sends (event joined null ∷ transmit (1 ∷ 2 ∷ []) ∷ []))
    ≡ ltb
        (length (callbacks 0 (event joined null ∷ transmit (1 ∷ 2 ∷ []) ∷ []) pair_on_air).channel)
        channel_capacity
poll_port-room_example =
    poll_port-room 0 (event joined null ∷ transmit (1 ∷ 2 ∷ []) ∷ []) pair_on_air
      (new_node 5 node 0 0 (blank (node_config fresh 5 node true) (idle_port fresh))) refl
      (omega arith, tt) (omega arith)

pair_now : pair_on_air.now_ms < u32_mod
unfolding sim_create
pair_now = omega arith

sim_run-now_example :
    ((25 + 10 ≤ u32_mod)
      × (25 ≤ steps 25 * step_ms)
      × (steps 25 * step_ms < 25 + step_ms)
      × ((sim_run pair_on_air 25).now_ms ≡ u32 (pair_on_air.now_ms + steps 25 * step_ms)))
    ⊎ ((u32_mod < 25 + 10) × ((sim_run pair_on_air 25).now_ms ≡ pair_on_air.now_ms))
sim_run-now_example = sim_run-now pair_on_air 25 pair_now (omega arith)

rnd_raw-IsSeed_example :
    (rnd_raw 42 ≡ shift_left_5 (shift_right_17 (shift_left_13 42))) × IsSeed (rnd_raw 42)
rnd_raw-IsSeed_example = rnd_raw-IsSeed 42 (omega arith, omega arith)

abbrev one_node : Sim ℕ
one_node = (sim_add_node fresh 5 node 0 0 true).0

Scenario-IsSound_example :
    IsSound (node_broadcast (sim_run (node_send one_node 5 9 (1 ∷ [])) 1000) 5 (2 ∷ []))
Scenario-IsSound_example =
    Scenario-IsSound (node_broadcast (sim_run (node_send one_node 5 9 (1 ∷ [])) 1000) 5 (2 ∷ [])) (
      broadcast (sim_run (node_send one_node 5 9 (1 ∷ [])) 1000) 5 (2 ∷ []) (
        run (node_send one_node 5 9 (1 ∷ [])) 1000 (
          sent one_node 5 9 (1 ∷ [])
            (added fresh 5 node 0 0 true (created 42 100 10 1 (omega arith))))))

-- A new instance, before anything has happened.
abbrev instance_5 : Node
instance_5 = blank (node_config fresh 5 node true) (idle_port fresh)

no_events : IsQueue instance_5.events
unfolding blank empty_queue
no_events = record { ev = refl; arg = refl; head = omega arith; count = omega arith; tail = refl }

events_flush-emit_all_example :
    ((events_flush
        (emit_all ((joined, to_parent) ∷ (tx_failed, null) ∷ []) instance_5)).world.effects
      ≡ (if instance_5.cfg.has_on_event
          then calls
              (newest
                (contents instance_5.events ++ ((joined, to_parent) ∷ (tx_failed, null) ∷ [])))
              instance_5.world.effects
          else instance_5.world.effects))
    × (contents
          (events_flush (emit_all ((joined, to_parent) ∷ (tx_failed, null) ∷ []) instance_5)).events
        ≡ [])
events_flush-emit_all_example =
    events_flush-emit_all ((joined, to_parent) ∷ (tx_failed, null) ∷ []) instance_5 no_events

-- There is no way to node 77 yet.
treenet_send-Atomic_example : Atomic instance_5 (treenet_send instance_5 77 (1 ∷ 2 ∷ []))
treenet_send-Atomic_example = treenet_send-Atomic instance_5 77 (1 ∷ 2 ∷ [])

treenet_neighbors-take_example :
    (treenet_neighbors instance_5 4
      ≡ take 4 (map (info_of instance_5) (in_use instance_5.neighbors.entries)))
    × (length (treenet_neighbors instance_5 4)
        ≡ min 4 (count_if (λ nb. nb.valid) instance_5.neighbors.entries))
treenet_neighbors-take_example = treenet_neighbors-take instance_5 4
