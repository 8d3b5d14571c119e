-- ===== src/Frame/CrcInj.antt =====
-- tn_frame_crc of src/mac/frame.c loses no information about a byte: its steps are injective.
use treenity.Prelude.{
  ℕ, ◌+◌, ◌*◌, ◌/◌, ◌%◌, ◌^◌, ◌<◌, ◌≡◌, refl, sym, ap, ◌∙◌, arith, true, bit_xor, bit_and, ltb,
  ◌==◌, ◌&&◌, passes_below, passes_below_lem,
}
use treenity.Prelude.Bits.{
  bit_and_15, bit_xor_cancel, bit_xor_comm, bit_xor_fields, bit_xor-lt, bit_xor_shift4,
}
use treenity.Frame.Crc.{crc_entry, crc_nibble, crc_byte}

-- The table's entry number `i` ends in the nibble `i`, and has 16 bits.
crc_entry_lem : (i : ℕ) → i < 16 → (crc_entry i % 16 ≡ i) × (crc_entry i / 16 < 4096)
crc_entry_lem i h = ground (
  arith,
  passes_below_lem (λ j. (crc_entry j % 16 == j) && ltb (crc_entry j / 16) 4096) 16 i h table,
)
  where
    table : passes_below (λ j. (crc_entry j % 16 == j) && ltb (crc_entry j / 16) 4096) 16 ≡ true
    table = unfold passes_below crc_entry in refl

module _ (crc nibble : ℕ) (h : crc < 65536) (k : nibble < 16) where
  abbrev index : ℕ
  index = bit_xor (crc / 4096) nibble

  abbrev low : ℕ
  low = bit_xor (crc % 4096) (crc_entry index / 16)

  index-lt : index < 16
  index-lt = bit_xor-lt 4 (crc / 4096) nibble (omega arith) k

  -- The top nibble is shifted out, and the table puts the index below the rest.
  crc_nibble_form : (crc_nibble crc nibble ≡ low * 16 + index) × (low < 4096)
  unfolding crc_nibble
  crc_nibble_form =
      let lt = index-lt in
      let e = crc_entry_lem index lt in
      let split : crc / 4096 * 2 ^ 12 + crc % 4096 ≡ crc = omega arith in
      let small = bit_xor-lt 12 (crc % 4096) (crc_entry index / 16) (omega arith) e.1 in
      let mask : bit_and index 15 ≡ index = omega (arith, bit_and_15 index) in
      (
        rw mask (
            omega (
              arith,
              bit_xor_shift4 crc (crc_entry index),
              ap (λ (c : ℕ). bit_xor c (crc_entry index / 16)) split,
              bit_xor_fields 12 (crc / 4096) (crc % 4096) (crc_entry index / 16) (omega arith) e.1,
            )),
        small,
      )

  -- From the next state and the top of the old one the rest of the old one can be computed.
  crc_nibble_back :
      (crc_nibble crc nibble % 16 ≡ index)
      × (crc % 4096
          ≡ bit_xor (crc_nibble crc nibble / 16) (crc_entry (crc_nibble crc nibble % 16) / 16))
  crc_nibble_back =
      let (e, lt) = crc_nibble_form in
      let i = index-lt in
      let m : crc_nibble crc nibble % 16 ≡ index = omega (arith, e) in
      let d : crc_nibble crc nibble / 16 ≡ low = omega (arith, e) in
      (m, rw (m, d) (sym (bit_xor_cancel (crc % 4096) (crc_entry index / 16))))

bit_xor_inj_left : (a b c : ℕ) → bit_xor a b ≡ bit_xor a c → b ≡ c
bit_xor_inj_left a b c e =
    sym (bit_xor_cancel b a)
    ∙ ap (λ x. bit_xor x a) (bit_xor_comm b a ∙ e ∙ bit_xor_comm a c)
    ∙ bit_xor_cancel c a

bit_xor_inj_right : (a b c : ℕ) → bit_xor a c ≡ bit_xor b c → a ≡ b
bit_xor_inj_right a b c e = sym (bit_xor_cancel a c) ∙ ap (λ x. bit_xor x c) e ∙ bit_xor_cancel b c

-- Equal results come from states with equal low bits, and equal table indices.
crc_nibble_inv :
    (c d m n : ℕ)
    → c < 65536
    → d < 65536
    → m < 16
    → n < 16
    → crc_nibble c m ≡ crc_nibble d n
    → (c % 4096 ≡ d % 4096) × (bit_xor (c / 4096) m ≡ bit_xor (d / 4096) n)
crc_nibble_inv c d m n hc hd hm hn e =
    let p = crc_nibble_back c m hc hm in
    let q = crc_nibble_back d n hd hn in
    (
      p.1 ∙ ap (λ o. bit_xor (o / 16) (crc_entry (o % 16) / 16)) e ∙ sym q.1,
      sym p.0 ∙ ap (λ o. o % 16) e ∙ q.0,
    )

pub crc_nibble-lt : (c n : ℕ) → crc_nibble c n < 65536
unfolding crc_nibble
crc_nibble-lt c n = omega arith

crc_nibble_inj_state :
    (c d n : ℕ) → c < 65536 → d < 65536 → n < 16 → crc_nibble c n ≡ crc_nibble d n → c ≡ d
crc_nibble_inj_state c d n hc hd hn e =
    let (p, q) = crc_nibble_inv c d n n hc hd hn hn e in
    let top : c / 4096 ≡ d / 4096 = bit_xor_inj_right (c / 4096) (d / 4096) n q in
    omega (arith, p, top)

-- Two bytes fed to the same state give different states.
pub crc_byte_inj : (c a b : ℕ) → c < 65536 → a < 256 → b < 256 → crc_byte c a ≡ crc_byte c b → a ≡ b
unfolding crc_byte
crc_byte_inj c a b hc ha hb e =
    let ma = crc_nibble c (a / 16) in
    let mb = crc_nibble c (b / 16) in
    let la : bit_and a 15 < 16 = omega (arith, bit_and_15 a) in
    let lb : bit_and b 15 < 16 = omega (arith, bit_and_15 b) in
    let (p, q) =
      crc_nibble_inv ma mb (bit_and a 15) (bit_and b 15) (crc_nibble-lt _ _) (crc_nibble-lt _ _) la
        lb e in
    let ia = crc_nibble_back c (a / 16) hc (omega arith) in
    let ib = crc_nibble_back c (b / 16) hc (omega arith) in
    let low : ma % 16 ≡ mb % 16 = omega (arith, p) in
    let high : a / 16 ≡ b / 16 =
      bit_xor_inj_left (c / 4096) (a / 16) (b / 16) (sym ia.0 ∙ low ∙ ib.0) in
    let same : bit_and a 15 ≡ bit_and b 15 =
      bit_xor_inj_left (ma / 4096) (bit_and a 15) (bit_and b 15)
        (q ∙ ap (λ n. bit_xor (crc_nibble c n / 4096) (bit_and b 15)) (sym high)) in
    omega (arith, high, same, bit_and_15 a, bit_and_15 b)

pub crc_byte_inj_state :
    (c d b : ℕ) → c < 65536 → d < 65536 → b < 256 → crc_byte c b ≡ crc_byte d b → c ≡ d
unfolding crc_byte
crc_byte_inj_state c d b hc hd hb e =
    let lb : bit_and b 15 < 16 = omega (arith, bit_and_15 b) in
    crc_nibble_inj_state c d (b / 16) hc hd (omega arith)
      (crc_nibble_inj_state _ _ (bit_and b 15) (crc_nibble-lt _ _) (crc_nibble-lt _ _) lb e)
