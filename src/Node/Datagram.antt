-- ===== src/Node/Datagram.antt =====
-- What a partial datagram in src/api/treenet.c has of the datagram that was sent.
use treenity.Prelude.{
  ℕ, zero, suc, ◌+◌, ◌-◌, ◌*◌, ◌/◌, ◌^◌, ◌≤◌, ◌<◌, ◌≡◌, sym, ap, ◌∙◌, Bool, true, ◌||◌, List, arith,
  min, length, get_or, set, take, drop, blit, bit_or, ◌==◌, length-take, length-drop, length-set,
  length-blit, get_or-take, get_or-drop, get_or-set_self, get_or-set_ne, dec_lt, ℕ_discrete,
}
use treenity.Prelude.Word.{u16}
use treenity.Config.{max_datagram, max_fragments}
use treenity.Frame.{FragHdr}
use treenity.Node.State.{Reasm}
use treenity.Node.Reasm.{frag_chunk, has_fragment, total_len, store_fragment}
use treenity.Node.Buffer.{get_or-blit_in, get_or-blit_before, get_or-blit_after, take-same}
use treenity.Node.Mask.{set_bit}

-- The bytes of fragment `i`, as tn_send_datagram cuts them.
abbrev pub chunk : List ℕ → ℕ → List ℕ
chunk bytes i = take frag_chunk (drop (i * frag_chunk) bytes)

-- The slot has the fragments that `got` marks, and their bytes where they belong.
pub record Holds (bytes : List ℕ) (got : ℕ → Bool) (r : Reasm) : Type 0 where
  pub size : length r.buf ≡ max_datagram
  pub lens : length r.frag_len ≡ max_fragments
  pub mask : r.got_mask < 64
  pub bits : (i : ℕ) → i < 6 → has_fragment r.got_mask i ≡ got i
  pub lengths : (i : ℕ) → i < 6 → got i ≡ true → get_or r.frag_len i 0 ≡ length (chunk bytes i)
  pub content :
      (k : ℕ) → k < length bytes → got (k / frag_chunk) ≡ true → get_or r.buf k 0 ≡ get_or bytes k 0

-- The fragments of a datagram that fits have indices below 6.
abbrev pub with_index : (ℕ → Bool) → ℕ → ℕ → Bool
with_index got i j = got j || i == j

pub chunk-length :
    (bytes : List ℕ) (i : ℕ)
    → length (chunk bytes i) ≡ min frag_chunk (length bytes - i * frag_chunk)
chunk-length bytes i =
    length-take frag_chunk (drop (i * frag_chunk) bytes)
    ∙ ap (min frag_chunk) (length-drop (i * frag_chunk) bytes)

chunk-byte :
    (bytes : List ℕ) (i j k : ℕ)
    → j < frag_chunk
    → k ≡ i * frag_chunk + j
    → get_or (chunk bytes i) j 0 ≡ get_or bytes k 0
chunk-byte bytes i j k h e =
    get_or-take frag_chunk (drop (i * frag_chunk) bytes) j 0 h
    ∙ get_or-drop (i * frag_chunk) bytes j k 0 e

module _ (bytes : List ℕ) (got : ℕ → Bool) (r : Reasm) (fh : FragHdr) (i : ℕ)
    (fits : length bytes ≤ max_datagram) (small : i < 6) (inside : i * frag_chunk < length bytes)
    (index : fh.index ≡ i) (h : Holds bytes got r) where
  off_index : fh.index * frag_chunk ≡ i * frag_chunk
  off_index = omega (arith, index)

  stored-content :
      (k : ℕ)
      → k < length bytes
      → with_index got i (k / frag_chunk) ≡ true
      → get_or (blit r.buf (fh.index * frag_chunk) (chunk bytes i)) k 0 ≡ get_or bytes k 0
  stored-content k lt g = elim (ℕ_discrete (k / frag_chunk) i) [
    | yes here ↦
        let len = chunk-length bytes i in
        get_or-blit_in r.buf (fh.index * frag_chunk) (chunk bytes i) k (k - i * frag_chunk)
          (omega (arith, here, index)) (omega (arith, len, here, lt))
          (omega (arith, h.size, fits, lt))
        ∙ chunk-byte bytes i (k - i * frag_chunk) k (omega (arith, here)) (omega (arith, here))
    | no other ↦
        let kept = h.content k lt (ground (arith, g, other)) in
        elim (dec_lt k (i * frag_chunk)) [
          | yes before ↦
              get_or-blit_before r.buf (fh.index * frag_chunk) (chunk bytes i) k
                (omega (arith, before, index))
              ∙ kept
          | no after ↦
              get_or-blit_after r.buf (fh.index * frag_chunk) (chunk bytes i) k
                (omega (arith, other, after, index, chunk-length bytes i))
              ∙ kept
        ]
  ]

  word : u16 (length (chunk bytes i)) ≡ length (chunk bytes i)
  word = omega (arith, chunk-length bytes i)

  stored-lengths :
      (j : ℕ)
      → j < 6
      → with_index got i j ≡ true
      → get_or (set r.frag_len fh.index (u16 (length (chunk bytes i)))) j 0 ≡ length (chunk bytes j)
  stored-lengths j lt g = elim (ℕ_discrete j i) [
    | yes here ↦
        ap (λ m. get_or (set r.frag_len fh.index (u16 (length (chunk bytes i)))) m 0)
          (here ∙ sym index)
        ∙ get_or-set_self r.frag_len fh.index _ 0 (omega (arith, h.lens, index, small))
        ∙ word
        ∙ ap (λ m. length (chunk bytes m)) (sym here)
    | no other ↦
        get_or-set_ne r.frag_len fh.index j _ 0 (omega (arith, other, index))
        ∙ h.lengths j lt (ground (arith, g, other))
  ]

  pub store_fragment-Holds : Holds bytes (with_index got i) (store_fragment r fh (chunk bytes i))
  store_fragment-Holds = record {
    size = length-blit r.buf (fh.index * frag_chunk) (chunk bytes i) ∙ h.size;
    lens = length-set r.frag_len fh.index _ ∙ h.lens;
    mask = omega (
      arith,
      ap (λ m. bit_or r.got_mask (2 ^ m)) index,
      (set_bit r.got_mask i i h.mask small small).0,
    );
    bits = λ j lt.
        ap (λ m. has_fragment (bit_or r.got_mask (2 ^ m)) j) index
        ∙ (set_bit r.got_mask i j h.mask small lt).1
        ∙ ap (λ b. b || i == j) (h.bits j lt);
    lengths = stored-lengths;
    content = stored-content;
  }

module _ (bytes : List ℕ) (got : ℕ → Bool) (r : Reasm) (fits : length bytes ≤ max_datagram)
    (h : Holds bytes got r) where
  total_len-chunks :
      (n : ℕ)
      → n ≤ 6
      → ((i : ℕ) → i < n → got i ≡ true)
      → total_len r.frag_len n ≡ min (n * frag_chunk) (length bytes)
  unfolding total_len
  total_len-chunks zero le all = omega arith
  total_len-chunks (suc n) le all = omega (
    arith,
    total_len-chunks n (omega (arith, le)) (λ i lt. all i (omega (arith, lt))),
    h.lengths n (omega (arith, le)) (all n (omega arith)),
    chunk-length bytes n,
    fits,
  )

  -- With every fragment in, the slot has the datagram.
  pub Holds-whole :
      (count : ℕ)
      → count ≤ 6
      → length bytes ≤ count * frag_chunk
      → ((i : ℕ) → i < count → got i ≡ true)
      → take (total_len r.frag_len count) r.buf ≡ bytes
  Holds-whole count le covers all =
      let len : total_len r.frag_len count ≡ length bytes =
        omega (arith, total_len-chunks count le all, covers) in
      ap (λ n. take n r.buf) len
      ∙ take-same r.buf bytes (omega (arith, h.size, fits))
          (λ k lt. h.content k lt (all (k / frag_chunk) (omega (arith, lt, covers))))
