-- ===== src/Sim/Deliver.antt =====
-- sim_deliver of src/sim/sim.c: who hears which frame of the step, and what reaches the nodes.
use treenity.Prelude.{
  ℕ, zero, suc, ◌+◌, ◌*◌, not, ◌||◌, List, [], ◌∷◌, Option, none, some, ◌==◌, if◌then◌else◌,
  bit_xor, map,
}
use treenity.Prelude.Word.{u8}
use treenity.Prelude.Int.{ℤ, pos}
use treenity.Node.Poll.{treenet_rx}
use treenity.Sim.Double.{Double}
use treenity.Sim.State.{Sim, SimNode, TxRec, at}
use treenity.Sim.Prng.{sim_rnd_unit}
use treenity.Sim.Link.{sim_link}

-- The reception scratch of one node; a `first_rec` of -1 is `none`.
pub record Pending : Type 0 where
  pub pending_rx : ℕ
  pub first_rec : Option ℕ
  pub first_rssi : ℤ
  pub first_snr : ℤ

abbrev pub no_pending : Pending
no_pending = record { pending_rx = 0; first_rec = none; first_rssi = pos 0; first_snr = pos 0 }

-- Record `r` has been heard, if there is a link.
abbrev pub note_heard : ℕ → Option (ℤ × ℤ) → Pending → Pending
note_heard r none p = p
note_heard r (some link) p =
    let q =
      if p.pending_rx == 0
      then record p { first_rec = some r; first_rssi = link.0; first_snr = link.1 }
      else p in
    record q { pending_rx = p.pending_rx + 1 }

module _ {ℓ} {W : Type ℓ} where
  -- The first node with an address.
  abbrev pub find_node : List (SimNode W) → ℕ → Option (SimNode W)
  find_node [] addr = none
  find_node (n ∷ ns) addr = if n.addr == addr then some n else find_node ns addr

module _ {ℓ} {W : Type ℓ} ⦃d : Double W⦄ where
  -- Whether node `n` hears a record.
  unfoldable pub hears : Sim W → TxRec → SimNode W → Sim W × Option (ℤ × ℤ)
  hears s rec n =
      if not n.active || n.addr == rec.sender
      then (s, none)
      else elim (find_node s.nodes rec.sender) [
        | none ↦ (s, none)
        | some txn ↦ if not txn.active then (s, none) else sim_link s txn n
      ]

  -- The inner loop of the first pass, for record number `r`.
  unfoldable pub hear_nodes :
      ℕ → TxRec → List (SimNode W) → List Pending → Sim W → Sim W × List Pending
  hear_nodes r rec (n ∷ ns) (p ∷ ps) s =
      let (s1, link) = hears s rec n in
      let (s2, ps') = hear_nodes r rec ns ps s1 in (s2, note_heard r link p ∷ ps')
  hear_nodes r rec _ _ s = (s, [])

  -- The outer loop, over the records from number `r` on.
  unfoldable pub hear_all : ℕ → List TxRec → List Pending → Sim W → Sim W × List Pending
  hear_all r [] ps s = (s, ps)
  hear_all r (rec ∷ recs) ps s =
      let (s1, ps') = hear_nodes r rec s.nodes ps s in hear_all (r + 1) recs ps' s1

  -- The bits from the one of value `mask` on, `left` of them.
  unfoldable pub flip_bits : (left mask : ℕ) → Sim W → ℕ → Sim W × ℕ
  flip_bits zero mask s b = (s, b)
  flip_bits (suc left) mask s b =
      let (s1, u) = sim_rnd_unit s in
      flip_bits left (mask * 2) s1 (if d.lt u s.bit_error_rate then bit_xor b (u8 mask) else b)

  unfoldable pub corrupt : List ℕ → Sim W → Sim W × List ℕ
  unfolding flip_bits
  corrupt [] s = (s, [])
  corrupt (b ∷ bs) s =
      let (s1, b') = flip_bits 8 1 s b in let (s2, bs') = corrupt bs s1 in (s2, b' ∷ bs')

  -- What is left of a frame on its way.
  unfoldable pub on_air : List ℕ → Sim W → Sim W × List ℕ
  unfolding corrupt
  on_air bytes s =
      if d.lt (d.literal (pos 0) 0) s.bit_error_rate then corrupt bytes s else (s, bytes)

  -- The second pass for one node.
  unfoldable pub receive : List TxRec → Pending → SimNode W → Sim W → Sim W × SimNode W
  unfolding on_air
  receive channel p n s = if not (p.pending_rx == 1) then (s, n) else elim p.first_rec [
    | none ↦ (s, n)
    | some r ↦ elim (at channel r) [
      | none ↦ (s, n)
      | some rec ↦
          let (s1, bytes) = on_air rec.buf s in
          (s1, record n { net = (treenet_rx n.net bytes p.first_rssi p.first_snr).0 })
    ]
  ]

  unfoldable pub receive_all :
      List TxRec → List Pending → List (SimNode W) → Sim W → Sim W × List (SimNode W)
  receive_all channel (p ∷ ps) (n ∷ ns) s =
      let (s1, n') = receive channel p n s in
      let (s2, ns') = receive_all channel ps ns s1 in (s2, n' ∷ ns')
  receive_all channel _ ns s = (s, ns)

  unfoldable pub sim_deliver : Sim W → Sim W
  unfolding hear_all receive_all
  sim_deliver s =
      let (s1, ps) = hear_all 0 s.channel (map (λ n. no_pending) s.nodes) s in
      let (s2, ns) = receive_all s.channel ps s.nodes s1 in record s2 { nodes = ns; channel = [] }
