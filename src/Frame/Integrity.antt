-- ===== src/Frame/Integrity.antt =====
-- What the CRC check of tn_frame_decode in src/mac/frame.c detects.
use treenity.Prelude.{
  drop, ℕ, zero, suc, ◌+◌, ◌-◌, ◌≤◌, ◌<◌, ◌≡◌, refl, sym, ap, ◌∙◌, ◌≢◌, List, [], ◌∷◌, some, none,
  length, arith, get_or, set, take, get_or-take, length-take_le, ltb, ◌==◌, length-set,
  get_or-set_ne, get_or-set_self, inl, inr, Bool-cases, dec_lt, ==_iff, ℕ_discrete,
}
use treenity.Util.{get_u16}
use treenity.Frame.{Frame, frame_decode, frame_overhead, frame_trailer}
use treenity.Frame.Crc.{crc_byte, crc_loop, frame_crc}
use treenity.Frame.CrcInj.{crc_byte_inj, crc_byte_inj_state, crc_nibble-lt}

-- Every element is a byte.
abbrev pub AreBytes : List ℕ → Type 0
AreBytes [] = Unit {0}
AreBytes (b ∷ bs) = (b < 256) × AreBytes bs

pub AreBytes-take : (n : ℕ) (bs : List ℕ) → AreBytes bs → AreBytes (take n bs)
AreBytes-take zero bs h = tt
AreBytes-take (suc n) [] h = tt
AreBytes-take (suc n) (b ∷ bs) h = (h.0, AreBytes-take n bs h.1)

pub AreBytes-drop : (n : ℕ) (bs : List ℕ) → AreBytes bs → AreBytes (drop n bs)
AreBytes-drop zero bs h = h
AreBytes-drop (suc n) [] h = tt
AreBytes-drop (suc n) (b ∷ bs) h = AreBytes-drop n bs h.1

pub AreBytes-get_or : (bs : List ℕ) (i : ℕ) → AreBytes bs → get_or bs i 0 < 256
AreBytes-get_or [] i h = omega arith
AreBytes-get_or (b ∷ bs) zero h = h.0
AreBytes-get_or (b ∷ bs) (suc i) h = AreBytes-get_or bs i h.1

crc_byte-lt : (c b : ℕ) → crc_byte c b < 65536
unfolding crc_byte
crc_byte-lt c b = crc_nibble-lt _ _

crc_loop_inj :
    (c d : ℕ) (bs : List ℕ)
    → c < 65536
    → d < 65536
    → AreBytes bs
    → crc_loop c bs ≡ crc_loop d bs
    → c ≡ d
unfolding crc_loop
crc_loop_inj c d [] hc hd h e = e
crc_loop_inj c d (b ∷ bs) hc hd h e =
    crc_byte_inj_state c d b hc hd h.0
      (crc_loop_inj (crc_byte c b) (crc_byte d b) bs (crc_byte-lt c b) (crc_byte-lt d b) h.1 e)

-- Changing one byte of the covered bytes changes the CRC.
crc_loop-set :
    (c : ℕ) (bs : List ℕ) (i b : ℕ)
    → c < 65536
    → AreBytes bs
    → i < length bs
    → b < 256
    → crc_loop c (set bs i b) ≡ crc_loop c bs
    → b ≡ get_or bs i 0
unfolding crc_loop
crc_loop-set c [] i b hc h lt hb e = absurd (omega arith)
crc_loop-set c (x ∷ xs) zero b hc h lt hb e =
    crc_byte_inj c b x hc hb h.0
      (crc_loop_inj (crc_byte c b) (crc_byte c x) xs (crc_byte-lt c b) (crc_byte-lt c x) h.1 e)
crc_loop-set c (x ∷ xs) (suc i) b hc h lt hb e =
    crc_loop-set (crc_byte c x) xs i b (crc_byte-lt c x) h.1 (omega arith) hb e

frame_crc-set :
    (bs : List ℕ) (i b : ℕ)
    → AreBytes bs
    → i < length bs
    → b < 256
    → frame_crc (set bs i b) ≡ frame_crc bs
    → b ≡ get_or bs i 0
unfolding frame_crc
frame_crc-set bs i b h lt hb e = crc_loop-set 0xFFFF bs i b (omega arith) h lt hb e

take-set : (n : ℕ) (bs : List ℕ) (i b : ℕ) → i < n → take n (set bs i b) ≡ set (take n bs) i b
take-set zero bs i b h = absurd (omega arith)
take-set (suc n) [] i b h = refl
take-set (suc n) (x ∷ xs) zero b h = refl
take-set (suc n) (x ∷ xs) (suc i) b h = ap (◌∷◌ x) (take-set n xs i b (omega arith))

take-set_ge : (n : ℕ) (bs : List ℕ) (i b : ℕ) → n ≤ i → take n (set bs i b) ≡ take n bs
take-set_ge zero bs i b h = refl
take-set_ge (suc n) [] i b h = refl
take-set_ge (suc n) (x ∷ xs) zero b h = absurd (omega arith)
take-set_ge (suc n) (x ∷ xs) (suc i) b h = ap (◌∷◌ x) (take-set_ge n xs i b (omega arith))

-- The check that tn_frame_decode makes before anything else.
abbrev CrcOk : List ℕ → Type 0
CrcOk buf =
    frame_crc (take (length buf - frame_trailer) buf) ≡ get_u16 buf (length buf - frame_trailer)

decode-CrcOk :
    (buf : List ℕ) (g : Frame)
    → frame_decode buf ≡ some g
    → CrcOk buf × (frame_overhead ≤ length buf)
unfolding frame_decode
decode-CrcOk buf g e = ground arith

decode_crc_bad : (buf : List ℕ) → ¬ CrcOk buf → frame_decode buf ≡ none
unfolding frame_decode
decode_crc_bad buf h = elim (Bool-cases (ltb (length buf) frame_overhead)) [
  | inl short ↦ rw short
  | inr long ↦
      elim (Bool-cases (
        frame_crc (take (length buf - frame_trailer) buf)
        == get_u16 buf (length buf - frame_trailer))) [
          | inl same ↦ absurd (h ((==_iff _ _).0 same))
          | inr differ ↦ rw (long, differ)
        ]
]

-- A byte of the trailer is part of the CRC that is read from it.
get_u16-set :
    (bs : List ℕ) (n i b : ℕ)
    → AreBytes bs
    → length bs ≡ n + 2
    → n ≤ i
    → i < length bs
    → b < 256
    → get_u16 (set bs i b) n ≡ get_u16 bs n
    → b ≡ get_or bs i 0
unfolding get_u16
get_u16-set bs n i b h len le lt hb e = elim (ℕ_discrete i n) [
  | yes first ↦ rw first (
      ground (
        arith,
        AreBytes-get_or bs (n + 1) h,
        get_or-set_self bs i b 0,
        get_or-set_ne bs i (n + 1) b 0,
      ))
  | no other ↦
      let second : i ≡ n + 1 = omega arith in
      rw second (ground (arith, get_or-set_self bs i b 0, get_or-set_ne bs i n b 0))
]

get_u16-set_lt : (bs : List ℕ) (n i b : ℕ) → i < n → get_u16 (set bs i b) n ≡ get_u16 bs n
unfolding get_u16
get_u16-set_lt bs n i b h = ground (arith, get_or-set_ne bs i n b 0, get_or-set_ne bs i (n + 1) b 0)

-- A frame that a receiver would accept is rejected once any one byte of it has changed.
pub decode-corrupted :
    (buf : List ℕ) (g : Frame) (i b : ℕ)
    → AreBytes buf
    → frame_decode buf ≡ some g
    → i < length buf
    → b < 256
    → b ≢ get_or buf i 0
    → frame_decode (set buf i b) ≡ none
decode-corrupted buf g i b h dec lt hb ne = decode_crc_bad (set buf i b) bad
  where
    n : ℕ
    n = length buf - frame_trailer

    bad : ¬ CrcOk (set buf i b)
    bad ok =
        let (good, long) = decode-CrcOk buf g dec in
        let ok' : frame_crc (take n (set buf i b)) ≡ get_u16 (set buf i b) n =
          rw length-set at ok in
        elim (dec_lt i n) [
          | yes below ↦ ne (
              frame_crc-set (take n buf) i b (AreBytes-take n buf h)
                (rw (length-take_le n buf (omega arith)) below) hb
                (ap frame_crc (sym (take-set n buf i b below))
                  ∙ ok'
                  ∙ get_u16-set_lt buf n i b below
                  ∙ sym good)
              ∙ get_or-take n buf i 0 below)
          | no above ↦ ne (
              get_u16-set buf n i b h (omega arith) (omega arith) lt hb
                (sym ok' ∙ ap frame_crc (take-set_ge n buf i b (omega arith)) ∙ good))
        ]
