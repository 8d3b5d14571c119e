-- ===== src/Sim/Sound.antt =====
-- When a simulation of src/sim/sim.c is sound, and the changes of a scenario that keep it so.
use treenity.Prelude.{
  ℕ, zero, suc, ◌≡◌, ◌≢◌, ◌≤◌, ◌<◌, refl, sym, ap, subst, ◌∙◌, Bool, true, List, [], ◌∷◌, ◌⊎◌, ◌++◌,
  none, some, arith, length, length-append, leb, ◌==◌, ◌||◌, inl, inr, Bool-cases, Option-cases,
}
use treenity.Config.{addr_invalid, addr_broadcast}
use treenity.Node.State.{Node, Role}
use treenity.Node.Lifecycle.{treenet_init, zero_world}
use treenity.Node.Invariant.{is_consistent, treenet_init-is_consistent, attached-is_consistent}
use treenity.Sim.State.{Sim, SimNode, max_nodes, at, update}
use treenity.Sim.Prng.{rnd_after}
use treenity.Sim.Api.{node_config, idle_port, new_node, change_node, sim_add_node, sim_find}
use treenity.Sim.Callbacks.{poll_port, attached}
use treenity.Sim.Talk.{on_instance}
use treenity.Sim.Pointwise.{Pointwise}
use treenity.Sim.Evolve.{Evolves}
use treenity.Sim.Seed.{IsSeed, rnd_after-IsSeed}

-- A node whose address is neither 0 nor the broadcast address, with a consistent instance.
pub record IsNode {ℓ} {W : Type ℓ} (n : SimNode W) : Type 0 where
  pub valid : n.addr ≢ addr_invalid
  pub single : n.addr ≢ addr_broadcast
  pub consistent : is_consistent n.net ≡ true

module _ {ℓ} {W : Type ℓ} where
  abbrev pub AreNodes : List (SimNode W) → Type 0
  AreNodes [] = Unit
  AreNodes (n ∷ ns) = IsNode n × AreNodes ns

  AreNodes-append : (ns ms : List (SimNode W)) → AreNodes ns → AreNodes ms → AreNodes (ns ++ ms)
  AreNodes-append [] ms h k = k
  AreNodes-append (n ∷ ns) ms h k = (h.0, AreNodes-append ns ms h.1 k)

  AreNodes-update :
      (i : ℕ) (f : SimNode W → SimNode W) (ns : List (SimNode W))
      → ((n : SimNode W) → IsNode n → IsNode (f n))
      → AreNodes ns
      → AreNodes (update i f ns)
  AreNodes-update i f [] k h = h
  AreNodes-update zero f (n ∷ ns) k h = (k n h.0, h.1)
  AreNodes-update (suc i) f (n ∷ ns) k h = (h.0, AreNodes-update i f ns k h.1)

  AreNodes-at :
      (ns : List (SimNode W)) (i : ℕ) (n : SimNode W) → AreNodes ns → at ns i ≡ some n → IsNode n
  AreNodes-at [] i n h e = absurd (ground (arith, e))
  AreNodes-at (m ∷ ms) zero n h e = ground (arith, h, e)
  AreNodes-at (m ∷ ms) (suc i) n h e = AreNodes-at ms i n h.1 e

  length-update :
      (i : ℕ) (f : SimNode W → SimNode W) (ns : List (SimNode W))
      → length (update i f ns) ≡ length ns
  length-update i f [] = refl
  length-update zero f (n ∷ ns) = refl
  length-update (suc i) f (n ∷ ns) = ap suc (length-update i f ns)

  pub AreNodes-Evolves :
      (ns ms : List (SimNode W)) → Pointwise Evolves ns ms → AreNodes ns → AreNodes ms
  AreNodes-Evolves [] [] p h = tt
  AreNodes-Evolves (n ∷ ns) (m ∷ ms) p h = (
    record {
      valid = λ e. h.0.valid (sym p.0.addr ∙ e);
      single = λ e. h.0.single (sym p.0.addr ∙ e);
      consistent = p.0.consistent h.0.consistent;
    },
    AreNodes-Evolves ns ms p.1 h.1,
  )
  AreNodes-Evolves [] (m ∷ ms) p h = absurd p.1
  AreNodes-Evolves (n ∷ ns) [] p h = absurd p.1

  pub record IsSound (s : Sim W) : Type ℓ where
    pub nodes : AreNodes s.nodes
    pub few : length s.nodes ≤ max_nodes
    pub channel : s.channel ≡ []
    pub seed : IsSeed s.rnd

  change_node-none :
      (s : Sim W) (addr : ℕ) (f : SimNode W → SimNode W)
      → sim_find s addr ≡ none
      → change_node s addr f ≡ s
  change_node-none s addr f e = ground (arith, e)

  change_node-some :
      (s : Sim W) (addr : ℕ) (f : SimNode W → SimNode W) (i : ℕ)
      → sim_find s addr ≡ some i
      → change_node s addr f ≡ record s { nodes = update i f s.nodes }
  change_node-some s addr f i e = ground (arith, e)

  pub change_node-IsSound :
      (s : Sim W) (addr : ℕ) (f : SimNode W → SimNode W)
      → ((n : SimNode W) → IsNode n → IsNode (f n))
      → IsSound s
      → IsSound (change_node s addr f)
  change_node-IsSound s addr f k h = elim (Option-cases (sim_find s addr)) [
    | inl gone ↦ subst IsSound (sym (change_node-none s addr f gone)) h
    | inr (i, found) ↦ subst IsSound (sym (change_node-some s addr f i found)) (record {
      nodes = AreNodes-update i f s.nodes k h.nodes;
      few = omega (arith, length-update i f s.nodes, h.few);
      channel = h.channel;
      seed = h.seed;
    })
  ]

  -- A node keeps its address with another instance.
  with_net :
      (s : Sim W) (i : ℕ) (rnd : ℕ) (net : Node)
      → IsSeed rnd
      → is_consistent net ≡ true
      → IsSound s
      → IsSound (record s { rnd = rnd; nodes = update i (λ m. record m { net = net }) s.nodes })
  with_net s i rnd net seed ok h = record {
    nodes =
        AreNodes-update i (λ m. record m { net = net }) s.nodes
          (λ m k. record { valid = k.valid; single = k.single; consistent = ok }) h.nodes;
    few = omega (arith, length-update i (λ m. record m { net = net }) s.nodes, h.few);
    channel = h.channel;
    seed = seed;
  }

  pub on_instance-IsSound :
      (s : Sim W) (addr : ℕ) (call : Node → Node)
      → ((t : Node) → is_consistent t ≡ true → is_consistent (call t) ≡ true)
      → IsSound s
      → IsSound (on_instance s addr call)
  on_instance-IsSound s addr call k h = elim (Option-cases (sim_find s addr)) [
    | inl gone ↦ rw (gone, on_instance) h
    | inr (i, found) ↦ elim (Option-cases (at s.nodes i)) [
      | inl out ↦ rw (found, out, on_instance) h
      | inr (n, in_use) ↦
          let before = attached s n.net in
          let ok = k before (
            attached-is_consistent n.net (poll_port s) zero_world
              (AreNodes-at s.nodes i n h.nodes in_use).consistent) in
          rw (found, in_use, on_instance)
            (with_net s i (rnd_after s.rnd (call before).world.rnd_calls) (call before)
              (rnd_after-IsSeed s.rnd (call before).world.rnd_calls h.seed) ok h)
    ]
  ]

  -- What sim_add_node does: nothing, or one more node.
  sim_add_node-cases :
      (s : Sim W) (addr : ℕ) (role : Role) (x y : W) (reliable : Bool)
      → ((sim_add_node s addr role x y reliable).0 ≡ s)
        ⊎ ((net : Node) × (treenet_init (node_config s addr role reliable) (idle_port s) ≡ some net)
            × (length s.nodes < max_nodes)
            × (addr ≢ addr_invalid)
            × (addr ≢ addr_broadcast)
            × ((sim_add_node s addr role x y reliable).0 ≡ record s {
              rnd = rnd_after s.rnd net.world.rnd_calls;
              nodes = s.nodes ++ (new_node addr role x y net ∷ []);
            }))
  unfolding sim_add_node
  sim_add_node-cases s addr role x y reliable = elim (Bool-cases (leb max_nodes (length s.nodes))) [
    | inl full ↦ inl (ground (arith, full))
    | inr room ↦ elim (Bool-cases (addr == addr_invalid || addr == addr_broadcast)) [
      | inl bad ↦ inl (ground (arith, room, bad))
      | inr good ↦
          elim (Option-cases (treenet_init (node_config s addr role reliable) (idle_port s))) [
            | inl unknown ↦ inl (ground (arith, room, good, unknown))
            | inr (net, e) ↦ inr (
              net,
              e,
              ground (arith, room),
              λ z. ground (arith, good, z),
              λ z. ground (arith, good, z),
              ground (arith, room, good, e),
            )
          ]
    ]
  ]

  pub sim_add_node-IsSound :
      (s : Sim W) (addr : ℕ) (role : Role) (x y : W) (reliable : Bool)
      → IsSound s
      → IsSound (sim_add_node s addr role x y reliable).0
  sim_add_node-IsSound s addr role x y reliable h =
      elim (sim_add_node-cases s addr role x y reliable) [
        | inl same ↦ subst IsSound (sym same) h
        | inr (net, init, room, valid, single, e) ↦ subst IsSound (sym e) (record {
          nodes = AreNodes-append s.nodes (new_node addr role x y net ∷ []) h.nodes (
            record {
              valid = valid;
              single = single;
              consistent =
                  treenet_init-is_consistent (node_config s addr role reliable) (idle_port s) net
                    init;
            },
            tt,
          );
          few = omega (arith, room, length-append s.nodes (new_node addr role x y net ∷ []));
          channel = h.channel;
          seed = rnd_after-IsSeed s.rnd net.world.rnd_calls h.seed;
        })
      ]

  -- What frequency, hooks and the like do not touch.
  pub settings-IsSound :
      (s s' : Sim W)
      → s'.nodes ≡ s.nodes
      → s'.channel ≡ s.channel
      → s'.rnd ≡ s.rnd
      → IsSound s
      → IsSound s'
  settings-IsSound s s' n c r h = record {
    nodes = subst AreNodes (sym n) h.nodes;
    few = omega (arith, ap length n, h.few);
    channel = c ∙ h.channel;
    seed = subst IsSeed (sym r) h.seed;
  }
