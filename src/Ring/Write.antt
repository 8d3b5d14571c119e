-- ===== src/Ring/Write.antt =====
-- Writing across the end of the storage: which byte goes where, and what stays.
use treenity.Prelude.{
  ℕ, zero, suc, ◌+◌, ◌-◌, ◌%◌, ◌≤◌, ◌<◌, ◌≡◌, refl, ap₂, subst, List, [], ◌∷◌, length, arith,
  get_or, take, drop, blit, min, ltb, leb, if◌then◌else◌, ◌&&◌, length-blit, bit_and, length-drop,
  dec_lt, dec_le, lt→ltb, take-length, get_or-take, get_or-drop, length-take_le,
}
use treenity.Prelude.Bits.{bit_and_1023}
use treenity.Config.{rx_ring_bytes}
use treenity.Ring.Defs.{write_at}
use treenity.Ring.Window.{window, not-ltb}

-- memcpy, byte by byte.
pub get_or-blit :
    (xs ys : List ℕ) (off i : ℕ)
    → off + length ys ≤ length xs
    → get_or (blit xs off ys) i 0
      ≡ (if leb off i && ltb i (off + length ys) then get_or ys (i - off) 0 else get_or xs i 0)
get_or-blit [] [] off i h = ground arith
get_or-blit [] (y ∷ ys) off i h = absurd (omega arith)
get_or-blit (x ∷ xs) [] zero i h = ground arith
get_or-blit (x ∷ xs) (y ∷ ys) zero zero h = ground arith
get_or-blit (x ∷ xs) (y ∷ ys) zero (suc i) h = ground (arith, get_or-blit xs ys zero i)
get_or-blit (x ∷ xs) ys (suc off) zero h = ground arith
get_or-blit (x ∷ xs) ys (suc off) (suc i) h = ground (arith, get_or-blit xs ys off i)

pub length-write_at :
    (buf : List ℕ) (cap pos : ℕ) (src : List ℕ) (n : ℕ)
    → length (write_at buf cap pos src n) ≡ length buf
unfolding write_at
length-write_at buf cap pos src n =
    let idx = bit_and pos (cap - 1) in
    let first = min (cap - idx) n in
    let low = blit buf idx (take first src) in
    ground (
      arith,
      length-blit buf idx (take first src),
      length-blit low 0 (take (n - first) (drop first src)),
    )

-- Where byte `j` of the storage stands in a stretch that starts at index `i`.
abbrev offset : ℕ → ℕ → ℕ
offset i j = (j + (rx_ring_bytes - i)) % rx_ring_bytes

-- A write that does not reach the end of the storage, and one that goes on at its start.
get_or-write_inside :
    (buf src : List ℕ) (i j : ℕ)
    → length buf ≡ rx_ring_bytes
    → i + length src ≤ rx_ring_bytes
    → i < rx_ring_bytes
    → j < rx_ring_bytes
    → get_or (blit buf i src) j 0
      ≡ (if ltb (offset i j) (length src) then get_or src (offset i j) 0 else get_or buf j 0)
get_or-write_inside buf src i j len h hi hj =
    rw (get_or-blit buf src i j (omega arith)) (elim (dec_lt j i) [
      | yes before ↦ ground arith
      | no behind ↦ let e : offset i j ≡ j - i = omega arith in rw e (ground arith)
    ])

get_or-write_over :
    (buf src : List ℕ) (i j : ℕ)
    → length buf ≡ rx_ring_bytes
    → length src ≤ rx_ring_bytes
    → rx_ring_bytes < i + length src
    → i < rx_ring_bytes
    → j < rx_ring_bytes
    → let f = rx_ring_bytes - i in
      get_or (blit (blit buf i (take f src)) 0 (take (length src - f) (drop f src))) j 0
      ≡ (if ltb (offset i j) (length src) then get_or src (offset i j) 0 else get_or buf j 0)
get_or-write_over buf src i j len h over hi hj =
    let f : ℕ = rx_ring_bytes - i in
    let tail = take (length src - f) (drop f src) in
    let low = blit buf i (take f src) in
    let lf : length (take f src) ≡ f = length-take_le f src (omega arith) in
    let lt : length tail ≡ length src - f =
      length-take_le (length src - f) (drop f src) (omega (arith, length-drop f src)) in
    let outer = get_or-blit low tail 0 j (omega (arith, length-blit buf i (take f src))) in
    elim (dec_lt j (length src - f)) [
      | yes wrapped ↦
          let o : offset i j ≡ f + j = omega arith in
          let a = get_or-take (length src - f) (drop f src) j 0 wrapped in
          let b = get_or-drop f src j (f + j) 0 refl in rw o (ground (arith, outer, a, b))
      | no not_wrapped ↦
          let inner = get_or-blit buf (take f src) i j (omega arith) in
          elim (dec_lt j i) [
            | yes between ↦ ground (arith, outer, inner)
            | no last ↦
                let o : offset i j ≡ j - i = omega arith in
                let c = get_or-take f src (j - i) 0 (omega arith) in
                rw o (ground (arith, outer, inner, c))
          ]
    ]

-- `ring_write_at` stores byte `d` of the source at position `pos + d`, and nothing else.
pub get_or-write_at :
    (buf src : List ℕ) (pos j : ℕ)
    → length buf ≡ rx_ring_bytes
    → length src ≤ rx_ring_bytes
    → j < rx_ring_bytes
    → let d = offset (pos % rx_ring_bytes) j in
      get_or (write_at buf rx_ring_bytes pos src (length src)) j 0
      ≡ (if ltb d (length src) then get_or src d 0 else get_or buf j 0)
unfolding write_at
get_or-write_at buf src pos j len h hj =
    rw (bit_and_1023 pos) (elim (dec_le (length src) (rx_ring_bytes - pos % 1024)) [
      | yes inside ↦
          let m : min (rx_ring_bytes - pos % 1024) (length src) ≡ length src = omega arith in
          rw (m, not-ltb (length src) (length src) (omega arith), take-length src)
            (get_or-write_inside buf src (pos % 1024) j len (omega arith) (omega arith) hj)
      | no over ↦
          let f : ℕ = rx_ring_bytes - pos % 1024 in
          let m : min (rx_ring_bytes - pos % 1024) (length src) ≡ f = omega arith in
          rw (m, lt→ltb f (length src) (omega arith))
            (get_or-write_over buf src (pos % 1024) j len h (omega arith) (omega arith) hj)
    ])

window_ext :
    (buf : List ℕ) (p : ℕ) (xs : List ℕ)
    → ((d : ℕ) → d < length xs → get_or buf ((p + d) % rx_ring_bytes) 0 ≡ get_or xs d 0)
    → window buf p (length xs) ≡ xs
window_ext buf p [] h = refl
window_ext buf p (x ∷ xs) h =
    ap₂ ◌∷◌ (subst (λ k. get_or buf (k % rx_ring_bytes) 0 ≡ x) (omega arith) (h 0 (omega arith))) (
      window_ext buf (p + 1) xs λ d lt.
        subst (λ k. get_or buf (k % rx_ring_bytes) 0 ≡ get_or xs d 0) (shift d)
          (h (suc d) (omega arith)))
  where
    shift : (d : ℕ) → p + suc d ≡ p + 1 + d
    shift d = omega arith

window_same :
    (buf buf' : List ℕ) (p n : ℕ)
    → ((d : ℕ)
        → d < n
        → get_or buf ((p + d) % rx_ring_bytes) 0 ≡ get_or buf' ((p + d) % rx_ring_bytes) 0)
    → window buf p n ≡ window buf' p n
window_same buf buf' p zero h = refl
window_same buf buf' p (suc n) h =
    ap₂ ◌∷◌
      (subst (λ k. get_or buf (k % rx_ring_bytes) 0 ≡ get_or buf' (k % rx_ring_bytes) 0) start
        (h 0 (omega arith)))
      (window_same buf buf' (p + 1) n λ d lt.
        subst (λ k. get_or buf (k % rx_ring_bytes) 0 ≡ get_or buf' (k % rx_ring_bytes) 0) (shift d)
          (h (suc d) (omega arith)))
  where
    start : p + 0 ≡ p
    start = omega arith

    shift : (d : ℕ) → p + suc d ≡ p + 1 + d
    shift d = omega arith

-- `q` stands for the position written, up to the wrap of the 32-bit counters.
module _ (buf src : List ℕ) (pos q n : ℕ) (same : q % rx_ring_bytes ≡ pos % rx_ring_bytes)
    (len : length buf ≡ rx_ring_bytes) (fits : length src ≤ rx_ring_bytes)
    (all : n ≡ length src) where
  abbrev written : List ℕ
  written = write_at buf rx_ring_bytes pos src n

  written_at :
      (j : ℕ)
      → j < rx_ring_bytes
      → get_or written j 0 ≡ (
          if ltb (offset (pos % rx_ring_bytes) j) (length src)
          then get_or src (offset (pos % rx_ring_bytes) j) 0
          else get_or buf j 0)
  written_at j h = rw all (get_or-write_at buf src pos j len fits h)

  pub window-write_self : window written q (length src) ≡ src
  window-write_self = window_ext written q src λ d lt.
      let o : offset (pos % rx_ring_bytes) ((q + d) % rx_ring_bytes) ≡ d = omega arith in
      rw (written_at ((q + d) % rx_ring_bytes) (omega arith), o, lt→ltb d (length src) lt)

  pub window-write_other :
      (p m : ℕ)
      → p + m ≤ q
      → q + length src ≤ p + rx_ring_bytes
      → window written p m ≡ window buf p m
  window-write_other p m before behind = window_same written buf p m λ d lt.
      let o : length src ≤ offset (pos % rx_ring_bytes) ((p + d) % rx_ring_bytes) = omega arith in
      rw (written_at ((p + d) % rx_ring_bytes) (omega arith), not-ltb _ _ o)
