-- ===== src/Node/Assemble.antt =====
-- What one more fragment does at tn_reasm_input of src/api/treenet.c.
use treenity.Prelude.{
  ℕ, ◌≤◌, ◌<◌, ◌≡◌, refl, sym, ap, ◌∙◌, subst, Bool, true, false, List, ◌∷◌, arith, length, get_or,
  set, take, ◌==◌, if◌then◌else◌, inl, inr, Bool-cases,
}
use treenity.Prelude.Int.{ℤ}
use treenity.Config.{max_datagram}
use treenity.Frame.{Frame}
use treenity.Node.State.{Node, Reasm, Effect, zero_reasm, recv}
use treenity.Node.Reasm.{
  belongs, reasm_slot, has_fragment, received_count, total_len, hops_of, hand_up, store_fragment,
  reasm_accept,
}
use treenity.Node.Capacity.{frag_count}
use treenity.Node.Mask.{received_count-full, received_count-missing}
use treenity.Node.Datagram.{Holds, chunk, with_index, store_fragment-Holds, Holds-whole}
use treenity.Node.Gather.{hdr, Partial, kept-Partial, Holds-same}

-- What the application sees of a datagram that is handed up.
abbrev pub seen : Node → Frame → List ℕ → ℤ → ℤ → List Effect
seen t f bytes rssi snr =
    if t.cfg.has_on_recv
    then recv f.src bytes rssi snr (hops_of f) ∷ t.world.effects
    else t.world.effects

hand_up-seen :
    (t : Node) (f : Frame) (bytes : List ℕ) (rssi snr : ℤ)
    → (hand_up t f bytes rssi snr).world.effects ≡ seen t f bytes rssi snr
unfolding hand_up
hand_up-seen t f bytes rssi snr = elim (Bool-cases t.cfg.has_on_recv) [
  | inl has ↦ ground (arith, has)
  | inr none_set ↦ ground (arith, none_set)
]

module _ (t : Node) (f : Frame) (bytes : List ℕ) (id i : ℕ) (rssi snr : ℤ) (now : ℕ)
    (got : ℕ → Bool) (fits : length bytes ≤ max_datagram) (lt : i < frag_count bytes)
    (p : Partial bytes f.src id got t) where
  abbrev table : List Reasm
  table = (reasm_slot t.reasm f.src id (frag_count bytes) now).0

  abbrev at : ℕ
  at = (reasm_slot t.reasm f.src id (frag_count bytes) now).1

  -- The slot before and after the fragment is stored.
  abbrev before : Reasm
  before = record (get_or table at zero_reasm) { last_ms = now }

  abbrev after : Reasm
  after = store_fragment before (hdr bytes id i) (chunk bytes i)

  abbrev accepted : Node
  accepted = reasm_accept t f (hdr bytes id i) (chunk bytes i) rssi snr now

  before-Holds : Holds bytes got before
  before-Holds =
      Holds-same bytes got got (get_or table at zero_reasm) now (λ j. refl) (p.slot now).holds

  after-Holds : Holds bytes (with_index got i) after
  after-Holds =
      store_fragment-Holds bytes got before (hdr bytes id i) i fits (omega (arith, lt, fits))
        (omega (arith, lt)) refl before-Holds

  accept-again :
      has_fragment before.got_mask i ≡ true → accepted ≡ record t { reasm = set table at before }
  unfolding reasm_accept
  accept-again e = ground (arith, e)

  accept-stored :
      has_fragment before.got_mask i ≡ false
      → (received_count after.got_mask (frag_count bytes) == frag_count bytes) ≡ false
      → accepted ≡ record t { reasm = set table at after }
  unfolding reasm_accept
  accept-stored e c = ground (arith, e, c)

  accept-done :
      has_fragment before.got_mask i ≡ false
      → (received_count after.got_mask (frag_count bytes) == frag_count bytes) ≡ true
      → accepted
        ≡ hand_up
            (record t { reasm = set table at (record after { valid = false }) })
            f
            (take (total_len after.frag_len (frag_count bytes)) after.buf)
            rssi
            snr
  unfolding reasm_accept
  accept-done e c = ground (arith, e, c)

  unchanged : got i ≡ true → (j : ℕ) → with_index got i j ≡ got j
  unchanged e j = elim (Bool-cases (i == j)) [
    | inl same ↦
        let here : got j ≡ true = ap got {y = i} (ground (arith, same)) ∙ e in ground (arith, here)
    | inr other ↦ elim (Bool-cases (got j)) [
      | inl yes' ↦ ground (arith, yes')
      | inr no' ↦ ground (arith, no', other)
    ]
  ]

  few :
      received_count after.got_mask (frag_count bytes) < frag_count bytes
      → (received_count after.got_mask (frag_count bytes) == frag_count bytes) ≡ false
  few h = ground (arith, h)

  -- The table with one of the datagram's entries written back.
  kept :
      (v : Reasm)
      → Holds bytes (with_index got i) v
      → belongs f.src id v ≡ true
      → v.count ≡ frag_count bytes
      → accepted ≡ record t { reasm = set table at v }
      → Partial bytes f.src id (with_index got i) accepted
        × (accepted.world ≡ t.world)
        × (accepted.cfg ≡ t.cfg)
  kept v holds own count e =
      subst
        (λ u. Partial bytes f.src id (with_index got i) u × (u.world ≡ t.world) × (u.cfg ≡ t.cfg))
        (sym e)
        (
          kept-Partial bytes f.src id got (with_index got i) table at v
              (record t { reasm = set table at v }) (p.slot now) own count holds refl,
          refl,
          refl,
        )

  -- While some fragment is missing, a fragment only adds to the slot.
  pub accept-Partial :
      (j : ℕ)
      → j < frag_count bytes
      → with_index got i j ≡ false
      → Partial bytes f.src id (with_index got i) accepted
        × (accepted.world ≡ t.world)
        × (accepted.cfg ≡ t.cfg)
  accept-Partial j small missing = elim (Bool-cases (has_fragment before.got_mask i)) [
    | inl again ↦
        kept before
          (Holds-same bytes got (with_index got i) (get_or table at zero_reasm) now
            (unchanged ((sym (before-Holds.bits i (omega (arith, lt, fits)))) ∙ again))
            (p.slot now).holds)
          (p.slot now).own (p.slot now).count (accept-again again)
    | inr first ↦ kept after after-Holds (p.slot now).own (p.slot now).count (
        accept-stored first (
          few (
            received_count-missing after.got_mask (frag_count bytes) j small
              (after-Holds.bits j (omega (arith, small, fits)) ∙ missing))))
  ]

  -- The last fragment hands the datagram up.
  pub accept-whole :
      got i ≡ false
      → ((j : ℕ) → j < frag_count bytes → with_index got i j ≡ true)
      → accepted.world.effects ≡ seen t f bytes rssi snr
  accept-whole missing all =
      let first : has_fragment before.got_mask i ≡ false =
        before-Holds.bits i (omega (arith, lt, fits)) ∙ missing in
      let full =
        received_count-full after.got_mask (frag_count bytes)
          (λ j small. after-Holds.bits j (omega (arith, small, fits)) ∙ all j small) in
      let emptied = record t { reasm = set table at (record after { valid = false }) } in
      ap (λ u. u.world.effects) (accept-done first (ground (arith, full)))
      ∙ hand_up-seen emptied f (take (total_len after.frag_len (frag_count bytes)) after.buf) rssi
          snr
      ∙ ap (λ bs. seen t f bs rssi snr)
          (Holds-whole bytes (with_index got i) after fits after-Holds (frag_count bytes)
            (omega (arith, fits)) (omega arith) all)
