-- ===== src/Sim/Heard.antt =====
-- What a step of src/sim/sim.c delivers: at most one frame to a node, from another node's radio.
use treenity.Prelude.{
  ℕ, suc, ◌+◌, ◌≡◌, ◌≢◌, ◌⊎◌, refl, sym, ap, subst, ◌∙◌, true, false, List, [], ◌∷◌, Option, none,
  some, arith, Bool-cases, Option-cases, inl, inr, length, map, ◌==◌,
}
use treenity.Prelude.Int.{ℤ, pos}
use treenity.Node.Poll.{treenet_rx}
use treenity.Sim.Double.{Double}
use treenity.Sim.State.{Sim, SimNode, TxRec, at}
use treenity.Sim.Deliver.{
  Pending, no_pending, note_heard, find_node, hears, hear_nodes, hear_all, flip_bits, corrupt,
  on_air, receive, receive_all, sim_deliver,
}
use treenity.Sim.Draws.{hears-Draws, hear_nodes-Draws}
use treenity.Sim.Pointwise.{Pointwise}

module _ {ℓ} {W : Type ℓ} where
  -- A node whose radio is on can hear record `rec` of another node whose radio is on.
  pub record CanHear (nodes : List (SimNode W)) (rec : TxRec) (n : SimNode W) : Type ℓ where
    pub on : n.active ≡ true
    pub other : n.addr ≢ rec.sender
    pub sender : (txn : SimNode W) × (find_node nodes rec.sender ≡ some txn) × (txn.active ≡ true)

  -- Nothing has happened to a node, or it has been given one frame of the channel's, at its length.
  pub data Delivered (nodes : List (SimNode W)) (channel : List TxRec) (n n' : SimNode W)
      : Type ℓ where
    nothing : n' ≡ n → Delivered nodes channel n n'
    one :
        (r : ℕ) (rec : TxRec) (bytes : List ℕ) (rssi snr : ℤ)
        → at channel r ≡ some rec
        → CanHear nodes rec n
        → length bytes ≡ length rec.buf
        → n' ≡ record n { net = (treenet_rx n.net bytes rssi snr).0 }
        → Delivered nodes channel n n'

  -- The scratch of a node: nothing heard yet, or the first record heard is one it can hear.
  abbrev Heard : List (SimNode W) → List TxRec → SimNode W → Pending → Type ℓ
  Heard nodes channel n p =
      (p.pending_rx ≡ 0)
      ⊎ ((r : ℕ) × (rec : TxRec) × (p.first_rec ≡ some r)
          × (at channel r ≡ some rec)
          × CanHear nodes rec n)

  -- The same for all nodes.
  abbrev AllHeard : List (SimNode W) → List TxRec → List (SimNode W) → List Pending → Type ℓ
  AllHeard nodes channel [] [] = Unit
  AllHeard nodes channel (n ∷ ns) (p ∷ ps) = Heard nodes channel n p × AllHeard nodes channel ns ps
  AllHeard nodes channel _ _ = Unit {ℓ} × ⊥

  AllHeard-start :
      (nodes : List (SimNode W)) (channel : List TxRec) (ns : List (SimNode W))
      → AllHeard nodes channel ns (map (λ n. no_pending) ns)
  AllHeard-start nodes channel [] = tt
  AllHeard-start nodes channel (n ∷ ns) = (inl refl, AllHeard-start nodes channel ns)

  note_heard-Heard :
      (nodes : List (SimNode W)) (channel : List TxRec) (n : SimNode W) (p : Pending) (r : ℕ)
      (rec : TxRec) (link : Option (ℤ × ℤ))
      → at channel r ≡ some rec
      → ((link ≡ none) ⊎ CanHear nodes rec n)
      → Heard nodes channel n p
      → Heard nodes channel n (note_heard r link p)
  note_heard-Heard nodes channel n p r rec none e can h = h
  note_heard-Heard nodes channel n p r rec (some link) e (inl off) h = absurd (ground (arith, off))
  note_heard-Heard nodes channel n p r rec (some link) e (inr can) (inl fresh) =
      inr (r, rec, ground (arith, fresh), e, can)
  note_heard-Heard nodes channel n p r rec (some link) e (inr can) (inr (q, rec', f, at', can')) =
      elim (Bool-cases (p.pending_rx == 0)) [
        | inl first ↦ inr (r, rec, ground (arith, first), e, can)
        | inr later ↦ inr (q, rec', ground (arith, later, f), at', can')
      ]

module _ {ℓ} {W : Type ℓ} ⦃d : Double W⦄ where
  hears-CanHear :
      (s : Sim W) (rec : TxRec) (n : SimNode W) → ((hears s rec n).1 ≡ none) ⊎ CanHear s.nodes rec n
  unfolding hears
  hears-CanHear s rec n = elim (Bool-cases n.active) [
    | inr off ↦ inl (ground (arith, off))
    | inl on ↦ elim (Bool-cases (n.addr == rec.sender)) [
      | inl own ↦ inl (ground (arith, on, own))
      | inr other ↦ elim (Option-cases (find_node s.nodes rec.sender)) [
        | inl gone ↦ inl (ground (arith, on, other, gone))
        | inr (txn, found) ↦ elim (Bool-cases txn.active) [
          | inr silent ↦ inl (ground (arith, on, other, found, silent))
          | inl sends ↦ inr (record {
            on = on;
            other = λ e. ground (arith, other, e);
            sender = (txn, found, sends);
          })
        ]
      ]
    ]
  ]

  hears-nodes : (s : Sim W) (rec : TxRec) (n : SimNode W) → (hears s rec n).0.nodes ≡ s.nodes
  hears-nodes s rec n = ap (λ z. z.nodes) (hears-Draws s rec n).same

  hear_nodes-AllHeard :
      (nodes : List (SimNode W)) (channel : List TxRec) (r : ℕ) (rec : TxRec)
      (ns : List (SimNode W)) (ps : List Pending) (s : Sim W)
      → s.nodes ≡ nodes
      → at channel r ≡ some rec
      → AllHeard nodes channel ns ps
      → AllHeard nodes channel ns (hear_nodes r rec ns ps s).1
  unfolding hear_nodes
  hear_nodes-AllHeard nodes channel r rec [] [] s same e h = tt
  hear_nodes-AllHeard nodes channel r rec [] (p ∷ ps) s same e h = absurd h.1
  hear_nodes-AllHeard nodes channel r rec (n ∷ ns) [] s same e h = absurd h.1
  hear_nodes-AllHeard nodes channel r rec (n ∷ ns) (p ∷ ps) s same e h = (
    note_heard-Heard nodes channel n p r rec (hears s rec n).1 e
        (subst (λ xs. ((hears s rec n).1 ≡ none) ⊎ CanHear xs rec n) same (hears-CanHear s rec n))
        h.0,
    hear_nodes-AllHeard nodes channel r rec ns ps (hears s rec n).0 (hears-nodes s rec n ∙ same) e
        h.1,
  )

  hear_all-AllHeard :
      (nodes : List (SimNode W)) (channel : List TxRec) (r : ℕ) (recs : List TxRec)
      (ps : List Pending) (s : Sim W)
      → s.nodes ≡ nodes
      → ((i : ℕ) → at channel (i + r) ≡ at recs i)
      → AllHeard nodes channel nodes ps
      → AllHeard nodes channel nodes (hear_all r recs ps s).1
  unfolding hear_all
  hear_all-AllHeard nodes channel r [] ps s same e h = h
  hear_all-AllHeard nodes channel r (rec ∷ recs) ps s same e h =
      let heard = hear_nodes r rec s.nodes ps s in
      hear_all-AllHeard nodes channel (r + 1) recs heard.1 heard.0
        (ap (λ z. z.nodes) (hear_nodes-Draws r rec s.nodes ps s).same ∙ same)
        (λ i. ap (at channel) {y = suc i + r} (omega arith) ∙ e (suc i))
        (subst (λ ns. AllHeard nodes channel nodes (hear_nodes r rec ns ps s).1) (sym same)
          (hear_nodes-AllHeard nodes channel r rec nodes ps s same
            (ap (at channel) {x = r} {y = 0 + r} (omega arith) ∙ e 0) h))

  corrupt-length : (bs : List ℕ) (s : Sim W) → length (corrupt bs s).1 ≡ length bs
  unfolding corrupt
  corrupt-length [] s = refl
  corrupt-length (b ∷ bs) s = ap suc (corrupt-length bs (flip_bits 8 1 s b).0)

  on_air-length : (bs : List ℕ) (s : Sim W) → length (on_air bs s).1 ≡ length bs
  unfolding on_air
  on_air-length bs s = elim (Bool-cases (d.lt (d.literal (pos 0) 0) s.bit_error_rate)) [
    | inl noisy ↦ ground (arith, noisy, corrupt-length bs s)
    | inr clean ↦ ground (arith, clean)
  ]

  receive_none :
      (channel : List TxRec) (p : Pending) (n : SimNode W) (s : Sim W)
      → (p.pending_rx == 1) ≡ false
      → (receive channel p n s).1 ≡ n
  unfolding receive
  receive_none channel p n s h = ground (arith, h)

  receive_one :
      (channel : List TxRec) (p : Pending) (n : SimNode W) (s : Sim W) (r : ℕ) (rec : TxRec)
      → (p.pending_rx == 1) ≡ true
      → p.first_rec ≡ some r
      → at channel r ≡ some rec
      → (receive channel p n s).1
        ≡ record n { net = (treenet_rx n.net (on_air rec.buf s).1 p.first_rssi p.first_snr).0 }
  unfolding receive
  receive_one channel p n s r rec h f e = ground (arith, h, f, e)

  receive-Delivered :
      (nodes : List (SimNode W)) (channel : List TxRec) (p : Pending) (n : SimNode W) (s : Sim W)
      → Heard nodes channel n p
      → Delivered nodes channel n (receive channel p n s).1
  receive-Delivered nodes channel p n s h = elim (Bool-cases (p.pending_rx == 1)) [
    | inr other ↦ nothing (receive_none channel p n s other)
    | inl once ↦ elim h [
      | inl none_heard ↦ absurd (ground (arith, once, none_heard))
      | inr (r, rec, first, e, can) ↦
          one r rec (on_air rec.buf s).1 p.first_rssi p.first_snr e can (on_air-length rec.buf s)
            (receive_one channel p n s r rec once first e)
    ]
  ]

  receive_all-Delivered :
      (nodes : List (SimNode W)) (channel : List TxRec) (ps : List Pending) (ns : List (SimNode W))
      (s : Sim W)
      → AllHeard nodes channel ns ps
      → Pointwise (Delivered nodes channel) ns (receive_all channel ps ns s).1
  unfolding receive_all
  receive_all-Delivered nodes channel [] [] s h = tt
  receive_all-Delivered nodes channel (p ∷ ps) [] s h = absurd h.1
  receive_all-Delivered nodes channel [] (n ∷ ns) s h = absurd h.1
  receive_all-Delivered nodes channel (p ∷ ps) (n ∷ ns) s h = (
    receive-Delivered nodes channel p n s h.0,
    receive_all-Delivered nodes channel ps ns (receive channel p n s).0 h.1,
  )

  -- A step gives every node at most one frame: one that is on the channel, at its length, from another
  -- node, and only while the radios of both are on. Everything else of the nodes stays as it was.
  pub sim_deliver-Delivered :
      (s : Sim W) → Pointwise (Delivered s.nodes s.channel) s.nodes (sim_deliver s).nodes
  unfolding sim_deliver
  sim_deliver-Delivered s =
      receive_all-Delivered s.nodes s.channel
        (hear_all 0 s.channel (map (λ n. no_pending) s.nodes) s).1 s.nodes _
        (hear_all-AllHeard s.nodes s.channel 0 s.channel (map (λ n. no_pending) s.nodes) s refl
          (λ i. ap (at s.channel) (omega arith)) (AllHeard-start s.nodes s.channel s.nodes))
