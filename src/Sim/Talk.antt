-- ===== src/Sim/Talk.antt =====
-- What an application does with the nodes of a simulation between its runs, as
-- examples/desktop_mesh/main.c does: `treenet_send(sim_find(s, addr)->net, ...)`.
use treenity.Prelude.{ℕ, List, none, some}
use treenity.Node.State.{Node}
use treenity.Node.Send.{treenet_send, treenet_broadcast}
use treenity.Sim.State.{Sim, at, update}
use treenity.Sim.Prng.{rnd_after}
use treenity.Sim.Callbacks.{attached}
use treenity.Sim.Api.{sim_find}

module _ {ℓ} {W : Type ℓ} where
  -- A call of the library with the instance of the node. Sending only queues, so it draws numbers from
  -- the port and calls nothing else. No node of that address: nothing.
  abbrev pub on_instance : Sim W → (addr : ℕ) → (Node → Node) → Sim W
  on_instance s addr call = elim (sim_find s addr) [
    | none ↦ s
    | some i ↦ elim (at s.nodes i) [
      | none ↦ s
      | some n ↦
          let t = call (attached s n.net) in
          record s {
            rnd = rnd_after s.rnd t.world.rnd_calls;
            nodes = update i (λ m. record m { net = t }) s.nodes;
          }
    ]
  ]

  unfoldable pub node_send : Sim W → (addr dst : ℕ) → List ℕ → Sim W
  node_send s addr dst bytes = on_instance s addr (λ t. (treenet_send t dst bytes).0)

  unfoldable pub node_broadcast : Sim W → (addr : ℕ) → List ℕ → Sim W
  node_broadcast s addr bytes = on_instance s addr (λ t. (treenet_broadcast t bytes).0)
