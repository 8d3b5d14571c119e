-- ===== src/Node/Order.antt =====
-- Fragments in any order at tn_reasm_input of src/api/treenet.c give back the datagram that
-- tn_send_datagram cut them from.
use treenity.Prelude.{
  ℕ, ◌≤◌, ◌<◌, ◌≡◌, refl, sym, ap, ap₂, ◌∙◌, subst, Bool, true, false, ◌||◌, List, [], ◌∷◌, none,
  some, if◌then◌else◌, arith, length, ◌==◌, find_index,
}
use treenity.Prelude.Int.{ℤ}
use treenity.Config.{max_datagram}
use treenity.Frame.{Frame}
use treenity.Frame.Bytes.{Word}
use treenity.Node.State.{Node, recv}
use treenity.Node.Reasm.{hops_of, belongs, free_reasm, reasm_accept, reasm_input}
use treenity.Node.Capacity.{frag_count}
use treenity.Node.Datagram.{chunk, with_index}
use treenity.Node.Gather.{hdr, Partial, unseen-Partial}
use treenity.Node.Assemble.{seen, accept-Partial, accept-whole}
use treenity.Node.Whole.{IsFragment, reasm_input-accepts}

-- Fragment number `index` arrives in a frame, with the measures and the time of its reception.
pub record Arrival : Type 0 where
  pub index : ℕ
  pub frame : Frame
  pub rssi : ℤ
  pub snr : ℤ
  pub now : ℕ

abbrev pub AreFragments : List ℕ → (src id : ℕ) → List Arrival → Type 0
AreFragments bytes src id [] = Unit
AreFragments bytes src id (a ∷ rest) =
    IsFragment bytes src id a.frame a.index × AreFragments bytes src id rest

abbrev pub feed : List Arrival → Node → Node
feed [] t = t
feed (a ∷ rest) t = feed rest (reasm_input t a.frame a.rssi a.snr a.now)

-- Whether fragment `j` is among the arrivals.
abbrev pub covers : List Arrival → ℕ → Bool
covers [] j = false
covers (a ∷ rest) j = a.index == j || covers rest j

-- The marks after some arrivals.
abbrev marked : List Arrival → (ℕ → Bool) → ℕ → Bool
marked [] got = got
marked (a ∷ rest) got = marked rest (with_index got a.index)

or_assoc : (a b c : Bool) → ((a || b) || c) ≡ (a || (b || c))
or_assoc true b c = refl
or_assoc false b c = refl

or_none : (a b : Bool) → (a || b) ≡ false → (a ≡ false) × (b ≡ false)
or_none true b h = absurd (ground (arith, h))
or_none false b h = (refl, h)

or_true : (a b : Bool) → (a || b) ≡ (b || a)
or_true true true = refl
or_true true false = refl
or_true false true = refl
or_true false false = refl

marked-covers :
    (rest : List Arrival) (got : ℕ → Bool) (j : ℕ) → marked rest got j ≡ (got j || covers rest j)
marked-covers [] got j = or_true false (got j)
marked-covers (a ∷ rest) got j =
    marked-covers rest (with_index got a.index) j ∙ or_assoc (got j) (a.index == j) (covers rest j)

module _ (bytes : List ℕ) (src id : ℕ) (fits : length bytes ≤ max_datagram) (word : Word id) where
  abbrev next : Node → Arrival → Node
  next t a = reasm_input t a.frame a.rssi a.snr a.now

  -- One arrival is one accepted fragment.
  accepted :
      (t : Node) (a : Arrival) (got : ℕ → Bool)
      → IsFragment bytes src id a.frame a.index
      → Partial bytes src id got t
      → Partial bytes a.frame.src id got t
        × (next t a
            ≡ reasm_accept t a.frame
                (hdr bytes id a.index)
                (chunk bytes a.index)
                a.rssi
                a.snr
                a.now)
  accepted t a got v p =
      let p' = subst (λ z. Partial bytes z id got t) (sym v.source) p in
      (
        p',
        reasm_input-accepts bytes src id fits word a.frame a.index v t a.rssi a.snr a.now p'.agree,
      )

  one-Partial :
      (t : Node) (a : Arrival) (got : ℕ → Bool) (j : ℕ)
      → IsFragment bytes src id a.frame a.index
      → j < frag_count bytes
      → with_index got a.index j ≡ false
      → Partial bytes src id got t
      → Partial bytes src id (with_index got a.index) (next t a)
        × ((next t a).world ≡ t.world)
        × ((next t a).cfg ≡ t.cfg)
  one-Partial t a got j v lt missing p =
      let (p', e) = accepted t a got v p in
      let (q, world, cfg) =
        accept-Partial t a.frame bytes id a.index a.rssi a.snr a.now got fits v.index p' j lt
          missing in
      (
        subst (λ z. Partial bytes z id (with_index got a.index) (next t a)) v.source
            (subst (Partial bytes a.frame.src id (with_index got a.index)) (sym e) q),
        ap (λ u. u.world) e ∙ world,
        ap (λ u. u.cfg) e ∙ cfg,
      )

  feed-Partial :
      (rest : List Arrival) (t : Node) (got : ℕ → Bool) (j : ℕ)
      → AreFragments bytes src id rest
      → j < frag_count bytes
      → marked rest got j ≡ false
      → Partial bytes src id got t
      → Partial bytes src id (marked rest got) (feed rest t)
        × ((feed rest t).world ≡ t.world)
        × ((feed rest t).cfg ≡ t.cfg)
  feed-Partial [] t got j v lt missing p = (p, refl, refl)
  feed-Partial (a ∷ rest) t got j v lt missing p =
      let before =
        (or_none (with_index got a.index j) (covers rest j)
          (sym (marked-covers rest (with_index got a.index) j) ∙ missing)).0 in
      let (q, world, cfg) = one-Partial t a got j v.0 lt before p in
      let (r, worlds, cfgs) =
        feed-Partial rest (next t a) (with_index got a.index) j v.1 lt missing q in
      (r, worlds ∙ world, cfgs ∙ cfg)

-- An instance with a free slot that has nothing of a datagram is given its fragments in any order,
-- some of them perhaps several times. Until the last missing one nothing is handed up; with it, the
-- application is given exactly the datagram that was sent.
pub reasm_input-reassembles :
    (bytes : List ℕ) (src id s : ℕ) (t : Node) (rest : List Arrival) (last : Arrival)
    → length bytes ≤ max_datagram
    → Word id
    → find_index (belongs src id) t.reasm ≡ none
    → find_index free_reasm t.reasm ≡ some s
    → AreFragments bytes src id rest
    → IsFragment bytes src id last.frame last.index
    → covers rest last.index ≡ false
    → ((j : ℕ) → j < frag_count bytes → covers (last ∷ rest) j ≡ true)
    → ((feed rest t).world ≡ t.world)
      × ((reasm_input (feed rest t) last.frame last.rssi last.snr last.now).world.effects
          ≡ seen t last.frame bytes last.rssi last.snr)
reasm_input-reassembles bytes src id s t rest last fits word unseen free v w missing all =
    let marks = marked rest (λ j. false) in
    let start = unseen-Partial bytes src id s t unseen free in
    let gap = marked-covers rest (λ j. false) last.index ∙ missing in
    let (p, world, cfg) =
      feed-Partial bytes src id fits word rest t (λ j. false) last.index v w.index gap start in
    let (p', e) = accepted bytes src id fits word (feed rest t) last marks w p in
    (
      world,
      ap (λ u. u.world.effects) e
          ∙ accept-whole (feed rest t) last.frame bytes id last.index last.rssi last.snr last.now
              marks fits w.index p' gap
              (λ j lt.
                ap (λ b. b || last.index == j) (marked-covers rest (λ j. false) j)
                ∙ or_true (covers rest j) (last.index == j)
                ∙ all j lt)
          ∙ ap₂
              (λ c u.
                if c.has_on_recv
                then recv last.frame.src bytes last.rssi last.snr (hops_of last.frame) ∷ u.effects
                else u.effects)
              cfg world,
    )
