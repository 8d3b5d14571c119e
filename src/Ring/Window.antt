-- ===== src/Ring/Window.antt =====
-- Reading and writing across the end of the storage: bytes by their position modulo the capacity.
use treenity.Prelude.{
  ℕ, zero, suc, ◌+◌, ◌-◌, ◌%◌, ◌≤◌, ◌<◌, ◌≡◌, refl, sym, ap, ap₂, ◌∙◌, List, [], ◌∷◌, ◌++◌, length,
  arith, get_or, take, drop, min, ltb, dec_le, false, lt→ltb,
}
use treenity.Prelude.Bits.{bit_and_1023}
use treenity.Config.{rx_ring_bytes}
use treenity.Ring.Defs.{read_at}

-- The `n` bytes from position `p` on.
abbrev pub window : List ℕ → ℕ → ℕ → List ℕ
window buf p zero = []
window buf p (suc n) = get_or buf (p % rx_ring_bytes) 0 ∷ window buf (p + 1) n

pub length-window : (buf : List ℕ) (p n : ℕ) → length (window buf p n) ≡ n
length-window buf p zero = refl
length-window buf p (suc n) = ap suc (length-window buf (p + 1) n)

-- Positions count modulo the capacity.
pub window_congr :
    (buf : List ℕ) (p q n : ℕ)
    → p % rx_ring_bytes ≡ q % rx_ring_bytes
    → window buf p n ≡ window buf q n
window_congr buf p q zero e = refl
window_congr buf p q (suc n) e =
    ap₂ ◌∷◌ (ap (λ i. get_or buf i 0) e) (window_congr buf (p + 1) (q + 1) n (omega arith))

pub window-add :
    (buf : List ℕ) (p a b c : ℕ)
    → c ≡ a + b
    → window buf p c ≡ window buf p a ++ window buf (p + a) b
window-add buf p zero b c e =
    let e' : c ≡ b = omega arith in rw e' (window_congr buf p (p + 0) b (omega arith))
window-add buf p (suc a) b zero e = absurd (omega arith)
window-add buf p (suc a) b (suc c) e = ap (◌∷◌ (get_or buf (p % rx_ring_bytes) 0)) (
    window-add buf (p + 1) a b c (omega arith)
    ∙ ap (λ q. window buf (p + 1) a ++ window buf q b) (omega arith))

drop-cons : (buf : List ℕ) (i : ℕ) → i < length buf → drop i buf ≡ get_or buf i 0 ∷ drop (suc i) buf
drop-cons [] i h = absurd (omega arith)
drop-cons (x ∷ xs) zero h = refl
drop-cons (x ∷ xs) (suc i) h = drop-cons xs i (omega arith)

-- A stretch that does not reach the end of the storage.
slice-window :
    (buf : List ℕ) (i n : ℕ)
    → length buf ≡ rx_ring_bytes
    → i + n ≤ rx_ring_bytes
    → take n (drop i buf) ≡ window buf i n
slice-window buf i zero len h = refl
slice-window buf i (suc n) len h = rw (drop-cons buf i (omega arith)) (
    ap₂ ◌∷◌ (ap (λ j. get_or buf j 0) (omega arith))
      (slice-window buf (suc i) n len (omega arith) ∙ ap (λ j. window buf j n) (omega arith)))

pub not-ltb : (a b : ℕ) → b ≤ a → ltb a b ≡ false
not-ltb a b h = ground arith

-- `ring_read_at` copies out the bytes at the positions from `pos` on.
pub read_at_lem :
    (buf : List ℕ) (pos n : ℕ)
    → length buf ≡ rx_ring_bytes
    → n ≤ rx_ring_bytes
    → read_at buf rx_ring_bytes pos n ≡ window buf pos n
unfolding read_at
read_at_lem buf pos n len h = rw (bit_and_1023 pos) (elim (dec_le n (rx_ring_bytes - pos % 1024)) [
  | yes inside ↦
      let m : min (rx_ring_bytes - pos % 1024) n ≡ n = omega arith in
      rw (m, not-ltb n n (omega arith))
        (slice-window buf (pos % 1024) n len (omega arith)
          ∙ window_congr buf (pos % 1024) pos n (omega arith))
  | no over ↦
      let f : ℕ = rx_ring_bytes - pos % 1024 in
      let m : min (rx_ring_bytes - pos % 1024) n ≡ f = omega arith in
      rw (m, lt→ltb f n (omega arith))
        (ap₂ ◌++◌
            (slice-window buf (pos % 1024) f len (omega arith)
              ∙ window_congr buf (pos % 1024) pos f (omega arith))
            (slice-window buf 0 (n - f) len (omega arith)
              ∙ window_congr buf 0 (pos + f) (n - f) (omega arith))
          ∙ sym (window-add buf pos f (n - f) n (omega arith)))
])
