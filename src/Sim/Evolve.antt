-- ===== src/Sim/Evolve.antt =====
-- What a run of src/sim/sim.c can do to the nodes: polls and their callbacks.
use treenity.Prelude.{
  ℕ, zero, suc, ◌+◌, ◌≡◌, refl, sym, ap, ◌∙◌, true, false, List, [], ◌∷◌, none, some, arith,
  Bool-cases, Option-cases, inl, inr,
}
use treenity.Node.State.{Node, Effect, transmit, recv, event, arm}
use treenity.Node.Invariant.{is_consistent, treenet_poll-is_consistent, attached-is_consistent}
use treenity.Node.Lifecycle.{zero_world}
use treenity.Node.Poll.{treenet_poll}
use treenity.Sim.Pointwise.{
  Pointwise, Pointwise-refl, Pointwise-trans, Pointwise-update, update-update, update_id,
}
use treenity.Sim.State.{Sim, SimNode, at, update}
use treenity.Sim.Prng.{rnd_after}
use treenity.Sim.Callbacks.{
  sim_tx, sim_timer_arm_cb, sim_on_recv, sim_on_event, callback, callbacks, poll_port, attached,
  poll_node,
}
use treenity.Sim.Run.{poll_nodes}

-- A node keeps its place, role and address; if it is inactive, nothing of it changes; and its
-- instance stays consistent.
pub record Evolves {ℓ} {W : Type ℓ} (n n' : SimNode W) : Type ℓ where
  pub addr : n'.addr ≡ n.addr
  pub active : n'.active ≡ n.active
  pub x : n'.x ≡ n.x
  pub y : n'.y ≡ n.y
  pub still : n.active ≡ false → n' ≡ n
  pub consistent : is_consistent n.net ≡ true → is_consistent n'.net ≡ true

module _ {ℓ} {W : Type ℓ} where
  pub Evolves-refl : (n : SimNode W) → Evolves n n
  Evolves-refl n = record {
    addr = refl;
    active = refl;
    x = refl;
    y = refl;
    still = λ h. refl;
    consistent = λ h. h;
  }

  pub Evolves-trans : (a b c : SimNode W) → Evolves a b → Evolves b c → Evolves a c
  Evolves-trans a b c f g = record {
    addr = g.addr ∙ f.addr;
    active = g.active ∙ f.active;
    x = g.x ∙ f.x;
    y = g.y ∙ f.y;
    still = λ h. g.still (f.active ∙ h) ∙ f.still h;
    consistent = λ h. g.consistent (f.consistent h);
  }

clash : ¬ (true ≡ false)
clash e = ground (arith, e)

module _ {ℓ} {W : Type ℓ} where
  -- The same node, up to the counters that callbacks fill in.
  pub record Counted (n n' : SimNode W) : Type ℓ where
    pub addr : n'.addr ≡ n.addr
    pub active : n'.active ≡ n.active
    pub x : n'.x ≡ n.x
    pub y : n'.y ≡ n.y
    pub net : n'.net ≡ n.net

  -- What a callback does to its node, and that it draws no number.
  pub record OnNode (i : ℕ) (s s' : Sim W) : Type ℓ where
    pub change : SimNode W → SimNode W
    pub counted : (n : SimNode W) → Counted n (change n)
    pub nodes : s'.nodes ≡ update i change s.nodes
    pub rnd : s'.rnd ≡ s.rnd
    pub now : s'.now_ms ≡ s.now_ms

  Counted-refl : (n : SimNode W) → Counted n n
  Counted-refl n = record { addr = refl; active = refl; x = refl; y = refl; net = refl }

  sim_tx-keeps :
      (i : ℕ) (bytes : List ℕ) (s : Sim W)
      → ((sim_tx i bytes s).nodes ≡ s.nodes)
        × ((sim_tx i bytes s).rnd ≡ s.rnd)
        × ((sim_tx i bytes s).now_ms ≡ s.now_ms)
  unfolding sim_tx
  sim_tx-keeps i bytes s = elim (Option-cases (at s.nodes i)) [
    | inl h ↦ ground (arith, h)
    | inr (n, h) ↦ ground (arith, h)
  ]

  callback-OnNode : (i : ℕ) (e : Effect) (s : Sim W) → OnNode i s (callback i e s)
  unfolding callback sim_tx sim_timer_arm_cb sim_on_recv sim_on_event
  callback-OnNode i (transmit bytes) s =
      let (nodes, rnd, now) = sim_tx-keeps i bytes s in
      record {
        change = λ n. n;
        counted = Counted-refl;
        nodes = nodes ∙ sym (update_id i s.nodes);
        rnd = rnd;
        now = now;
      }
  callback-OnNode i (recv src bytes rssi snr hops) s = record {
    change = _;
    counted = λ n. record { addr = refl; active = refl; x = refl; y = refl; net = refl };
    nodes = refl;
    rnd = refl;
    now = refl;
  }
  callback-OnNode i (event ev arg) s = record {
    change = _;
    counted = λ n. record { addr = refl; active = refl; x = refl; y = refl; net = refl };
    nodes = refl;
    rnd = refl;
    now = refl;
  }
  callback-OnNode i (arm delay_ms) s = record {
    change = _;
    counted = λ n. record { addr = refl; active = refl; x = refl; y = refl; net = refl };
    nodes = refl;
    rnd = refl;
    now = refl;
  }

  pub callbacks-OnNode : (i : ℕ) (es : List Effect) (s : Sim W) → OnNode i s (callbacks i es s)
  unfolding callbacks
  callbacks-OnNode i [] s = record {
    change = λ n. n;
    counted = Counted-refl;
    nodes = sym (update_id i s.nodes);
    rnd = refl;
    now = refl;
  }
  callbacks-OnNode i (e ∷ es) s =
      let first = callbacks-OnNode i es s in
      let last = callback-OnNode i e (callbacks i es s) in
      record {
        change = λ n. last.change (first.change n);
        counted = λ n.
            let a = first.counted n in
            let b = last.counted (first.change n) in
            record {
              addr = b.addr ∙ a.addr;
              active = b.active ∙ a.active;
              x = b.x ∙ a.x;
              y = b.y ∙ a.y;
              net = b.net ∙ a.net;
            };
        nodes =
            last.nodes
            ∙ ap (update i last.change) first.nodes
            ∙ update-update last.change first.change i s.nodes;
        rnd = last.rnd ∙ first.rnd;
        now = last.now ∙ first.now;
      }

  -- The simulator before the callbacks of a poll that has left the instance `t`.
  abbrev pub polled : Sim W → ℕ → Node → Sim W
  polled s i t = record s {
    rnd = rnd_after s.rnd t.world.rnd_calls;
    nodes = update i (λ m. record m { net = t }) s.nodes;
  }

  pub poll_node-idle :
      (s : Sim W) (i : ℕ) (n : SimNode W)
      → at s.nodes i ≡ some n
      → n.active ≡ false
      → poll_node s i ≡ s
  unfolding poll_node
  poll_node-idle s i n h idle = ground (arith, h, idle)

  pub poll_node-runs :
      (s : Sim W) (i : ℕ) (n : SimNode W)
      → at s.nodes i ≡ some n
      → n.active ≡ true
      → poll_node s i
        ≡ (let t = treenet_poll (attached s n.net) in callbacks i t.world.effects (polled s i t))
  unfolding poll_node
  poll_node-runs s i n h runs = ground (arith, h, runs)

  pub poll_node-beyond : (s : Sim W) (i : ℕ) → at s.nodes i ≡ none → poll_node s i ≡ s
  unfolding poll_node
  poll_node-beyond s i h = ground (arith, h)

  -- What polls and callbacks make of the node that is polled.
  poll-Evolves :
      (s : Sim W) (i : ℕ) (n : SimNode W) (t : Node) (change : SimNode W → SimNode W)
      → ((m : SimNode W) → Counted m (change m))
      → at s.nodes i ≡ some n
      → n.active ≡ true
      → t ≡ treenet_poll (attached s n.net)
      → (x : SimNode W) → at s.nodes i ≡ some x
      → Evolves x (change (record x { net = t }))
  poll-Evolves s i n t change counted h runs e x hx =
      let same : n ≡ x = cc in
      let c = counted (record x { net = t }) in
      record {
        addr = c.addr;
        active = c.active;
        x = c.x;
        y = c.y;
        still = λ idle. absurd (clash (sym runs ∙ ap (λ m. m.active) same ∙ idle));
        consistent = λ ok.
            ap is_consistent (c.net ∙ e)
            ∙ treenet_poll-is_consistent (attached s n.net) (
                attached-is_consistent n.net (poll_port s) zero_world
                  (ap (λ m. is_consistent m.net) same ∙ ok));
      }

  pub poll_node-Evolves : (s : Sim W) (i : ℕ) → Pointwise Evolves s.nodes (poll_node s i).nodes
  poll_node-Evolves s i = elim (Option-cases (at s.nodes i)) [
    | inl h ↦ rw (poll_node-beyond s i h) (Pointwise-refl Evolves Evolves-refl s.nodes)
    | inr (n, h) ↦ elim (Bool-cases n.active) [
      | inr idle ↦ rw (poll_node-idle s i n h idle) (Pointwise-refl Evolves Evolves-refl s.nodes)
      | inl runs ↦
          let t = treenet_poll (attached s n.net) in
          let made = callbacks-OnNode i t.world.effects (polled s i t) in
          rw
            (
              poll_node-runs s i n h runs,
              made.nodes,
              update-update made.change (λ m. record m { net = t }) i s.nodes,
            )
            (Pointwise-update Evolves Evolves-refl _ s.nodes i
              (poll-Evolves s i n t made.change made.counted h runs refl))
    ]
  ]

  pub poll_nodes-Evolves :
      (left i : ℕ) (s : Sim W) → Pointwise Evolves s.nodes (poll_nodes left i s).nodes
  unfolding poll_nodes
  poll_nodes-Evolves zero i s = Pointwise-refl Evolves Evolves-refl s.nodes
  poll_nodes-Evolves (suc left) i s =
      Pointwise-trans Evolves Evolves-trans s.nodes (poll_node s i).nodes _ (poll_node-Evolves s i)
        (poll_nodes-Evolves left (i + 1) (poll_node s i))

  -- A poll of one node draws some numbers, and takes no virtual time.
  pub poll_node-draws :
      (s : Sim W) (i : ℕ)
      → (n : ℕ) × ((poll_node s i).rnd ≡ rnd_after s.rnd n) × ((poll_node s i).now_ms ≡ s.now_ms)
  poll_node-draws s i = elim (Option-cases (at s.nodes i)) [
    | inl h ↦ same (poll_node-beyond s i h)
    | inr (n, h) ↦ elim (Bool-cases n.active) [
      | inr idle ↦ same (poll_node-idle s i n h idle)
      | inl runs ↦
          let t = treenet_poll (attached s n.net) in
          let made = callbacks-OnNode i t.world.effects (polled s i t) in
          let e = poll_node-runs s i n h runs in
          (t.world.rnd_calls, ap (λ z. z.rnd) e ∙ made.rnd, ap (λ z. z.now_ms) e ∙ made.now)
    ]
  ]
    where
      same :
          poll_node s i ≡ s
          → (n : ℕ) × ((poll_node s i).rnd ≡ rnd_after s.rnd n)
            × ((poll_node s i).now_ms ≡ s.now_ms)
      same e = (0, ap (λ z. z.rnd) e, ap (λ z. z.now_ms) e)
