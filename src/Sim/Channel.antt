-- ===== src/Sim/Channel.antt =====
-- The buffers of the radio channel in src/sim/sim.c.
use treenity.Prelude.{
  ℕ, zero, suc, ◌+◌, ◌≤◌, ◌≡◌, sym, subst, true, false, List, [], ◌∷◌, ◌++◌, none, some, arith,
  length, length-append, leb, ltb, inl, inr, Bool-cases, Option-cases,
}
use treenity.Config.{mtu}
use treenity.Node.State.{Effect, transmit, recv, event, arm}
use treenity.Node.Poll.{treenet_poll}
use treenity.Sim.State.{Sim, SimNode, TxRec, channel_capacity, at}
use treenity.Sim.Callbacks.{
  sim_tx, sim_on_recv, sim_on_event, sim_timer_arm_cb, callback, callbacks, attached, poll_node,
}
use treenity.Sim.Run.{poll_nodes}
use treenity.Sim.Evolve.{polled, poll_node-idle, poll_node-runs, poll_node-beyond}

abbrev pub AreShort : List TxRec → Type 0
AreShort [] = Unit
AreShort (r ∷ rs) = (length r.buf ≤ mtu) × AreShort rs

-- No more records than the channel has room for, and none longer than its buffer.
abbrev pub IsChannel : List TxRec → Type 0
IsChannel rs = (length rs ≤ channel_capacity) × AreShort rs

AreShort-append :
    (rs : List TxRec) (r : TxRec) → AreShort rs → length r.buf ≤ mtu → AreShort (rs ++ (r ∷ []))
AreShort-append [] r h k = (k, tt)
AreShort-append (q ∷ rs) r h k = (h.0, AreShort-append rs r h.1 k)

module _ {ℓ} {W : Type ℓ} where
  sim_tx-beyond : (i : ℕ) (bytes : List ℕ) (s : Sim W) → at s.nodes i ≡ none → sim_tx i bytes s ≡ s
  unfolding sim_tx
  sim_tx-beyond i bytes s gone = ground (arith, gone)

  pub sim_tx-full :
      (i : ℕ) (bytes : List ℕ) (s : Sim W) (n : SimNode W)
      → at s.nodes i ≡ some n
      → leb channel_capacity (length s.channel) ≡ true
      → sim_tx i bytes s ≡ s
  unfolding sim_tx
  sim_tx-full i bytes s n there full = ground (arith, there, full)

  sim_tx-long :
      (i : ℕ) (bytes : List ℕ) (s : Sim W) (n : SimNode W)
      → at s.nodes i ≡ some n
      → ltb mtu (length bytes) ≡ true
      → sim_tx i bytes s ≡ s
  unfolding sim_tx
  sim_tx-long i bytes s n there long = ground (arith, there, long)

  pub sim_tx-taken :
      (i : ℕ) (bytes : List ℕ) (s : Sim W) (n : SimNode W)
      → at s.nodes i ≡ some n
      → leb channel_capacity (length s.channel) ≡ false
      → ltb mtu (length bytes) ≡ false
      → (sim_tx i bytes s).channel ≡ s.channel ++ (record { sender = n.addr; buf = bytes } ∷ [])
  unfolding sim_tx
  sim_tx-taken i bytes s n there room short = ground (arith, there, room, short)

  -- What sim_tx does: nothing, or one more record that fits.
  sim_tx-IsChannel :
      (i : ℕ) (bytes : List ℕ) (s : Sim W)
      → IsChannel s.channel
      → IsChannel (sim_tx i bytes s).channel
  sim_tx-IsChannel i bytes s h = elim (Option-cases (at s.nodes i)) [
    | inl gone ↦ keep (sim_tx-beyond i bytes s gone)
    | inr (n, there) ↦ elim (Bool-cases (leb channel_capacity (length s.channel))) [
      | inl full ↦ keep (sim_tx-full i bytes s n there full)
      | inr room ↦ elim (Bool-cases (ltb mtu (length bytes))) [
        | inl long ↦ keep (sim_tx-long i bytes s n there long)
        | inr short ↦
            let rec : TxRec = record { sender = n.addr; buf = bytes } in
            subst IsChannel (sym (sim_tx-taken i bytes s n there room short)) (
              ground (arith, room, length-append s.channel (rec ∷ [])),
              AreShort-append s.channel rec h.1 (ground (arith, short)),
            )
      ]
    ]
  ]
    where
      keep : sim_tx i bytes s ≡ s → IsChannel (sim_tx i bytes s).channel
      keep e = subst (λ u. IsChannel u.channel) (sym e) h

  callback-IsChannel :
      (i : ℕ) (e : Effect) (s : Sim W) → IsChannel s.channel → IsChannel (callback i e s).channel
  unfolding callback sim_on_recv sim_on_event sim_timer_arm_cb
  callback-IsChannel i (transmit bytes) s h = sim_tx-IsChannel i bytes s h
  callback-IsChannel i (recv src bytes rssi snr hops) s h = h
  callback-IsChannel i (event ev arg) s h = h
  callback-IsChannel i (arm delay_ms) s h = h

  callbacks-IsChannel :
      (i : ℕ) (es : List Effect) (s : Sim W)
      → IsChannel s.channel
      → IsChannel (callbacks i es s).channel
  unfolding callbacks
  callbacks-IsChannel i [] s h = h
  callbacks-IsChannel i (e ∷ es) s h =
      callback-IsChannel i e (callbacks i es s) (callbacks-IsChannel i es s h)

  poll_node-IsChannel :
      (s : Sim W) (i : ℕ) → IsChannel s.channel → IsChannel (poll_node s i).channel
  poll_node-IsChannel s i h = elim (Option-cases (at s.nodes i)) [
    | inl gone ↦ subst (λ u. IsChannel u.channel) (sym (poll_node-beyond s i gone)) h
    | inr (n, there) ↦ elim (Bool-cases n.active) [
      | inr idle ↦ subst (λ u. IsChannel u.channel) (sym (poll_node-idle s i n there idle)) h
      | inl runs ↦
          let t = treenet_poll (attached s n.net) in
          subst (λ u. IsChannel u.channel) (sym (poll_node-runs s i n there runs))
            (callbacks-IsChannel i t.world.effects (polled s i t) h)
    ]
  ]

  -- However much the nodes send in a step, the channel never takes more frames than it has buffers
  -- for, nor one that is longer than a buffer.
  pub poll_nodes-IsChannel :
      (left i : ℕ) (s : Sim W) → IsChannel s.channel → IsChannel (poll_nodes left i s).channel
  unfolding poll_nodes
  poll_nodes-IsChannel zero i s h = h
  poll_nodes-IsChannel (suc left) i s h =
      poll_nodes-IsChannel left (i + 1) (poll_node s i) (poll_node-IsChannel s i h)
