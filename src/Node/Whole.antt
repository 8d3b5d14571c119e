-- ===== src/Node/Whole.antt =====
-- The frames that tn_send_datagram of src/api/treenet.c cuts a datagram into pass the checks of
-- tn_reasm_input.
use treenity.Prelude.{
  ℕ, ◌+◌, ◌-◌, ◌*◌, ◌≤◌, ◌<◌, ◌≡◌, refl, sym, ap, ◌∙◌, Bool, true, false, not, ◌&&◌, ◌||◌, List,
  none, some, arith, length, get_or, take, drop, ltb, leb, ◌==◌, if◌then◌else◌, find_index, is_some,
  get_or-take, take-length, dec_lt,
}
use treenity.Prelude.Int.{ℤ}
use treenity.Config.{max_datagram, max_fragments}
use treenity.Util.{get_u16, put_u16}
use treenity.Frame.{Frame, FragHdr, frag_encode, frag_decode, frag_hdr_len, payload_bytes}
use treenity.Frame.Bytes.{Word, u16_bytes}
use treenity.Node.State.{Node}
use treenity.Node.Reasm.{frag_chunk, disagrees, bad_fragment, reasm_accept, reasm_input}
use treenity.Node.Send.{frag_bytes, frag_frame}
use treenity.Node.Capacity.{frag_count}
use treenity.Node.Datagram.{chunk, chunk-length}
use treenity.Node.Gather.{hdr}

-- A frame from `src` that carries fragment `i` of datagram `id`, wherever its payload is stored.
pub record IsFragment (bytes : List ℕ) (src id : ℕ) (f : Frame) (i : ℕ) : Type 0 where
  pub index : i < frag_count bytes
  pub source : f.src ≡ src
  pub bytes_at : List ℕ
  pub payload : f.payload ≡ some bytes_at
  pub len : f.payload_len ≡ length (frag_bytes bytes id (frag_count bytes) i)
  pub content : take f.payload_len bytes_at ≡ frag_bytes bytes id (frag_count bytes) i

-- The frames that tn_send_datagram makes.
pub frag_frame-IsFragment :
    (t : Node) (flood reliable : Bool) (dst seq : ℕ) (bytes : List ℕ) (id i : ℕ)
    → i < frag_count bytes
    → IsFragment bytes t.addr id
        (frag_frame t flood reliable dst seq bytes id (frag_count bytes) i)
        i
frag_frame-IsFragment t flood reliable dst seq bytes id i lt = record {
  index = lt;
  source = refl;
  bytes_at = frag_bytes bytes id (frag_count bytes) i;
  payload = refl;
  len = refl;
  content = take-length (frag_bytes bytes id (frag_count bytes) i);
}

and_false : (b : Bool) → (b && false) ≡ false
and_false true = refl
and_false false = refl

not_below : (a b : ℕ) → ¬ (a < b) → ltb a b ≡ false
not_below a b h = ground (arith, h)

-- A fragment that passes every check.
bad_fragment-none :
    (id i count size : ℕ)
    → i < count
    → count ≤ max_fragments
    → (ltb (i + 1) count && not (size == frag_chunk)) ≡ false
    → i * frag_chunk + size ≤ max_datagram
    → bad_fragment (record { dgram_id = id; index = i; count = count }) size ≡ false
bad_fragment-none id i count size lt few whole inside =
    let e1 : (count == 0) ≡ false = ground (arith, lt) in
    let e2 : ltb max_fragments count ≡ false = ground (arith, few) in
    let e3 : leb count i ≡ false = ground (arith, lt) in
    let e5 : ltb max_datagram (i * frag_chunk + size) ≡ false = ground (arith, inside) in
    ap
      (λ b.
        b
        || ltb max_fragments count
        || leb count i
        || (ltb (i + 1) count && not (size == frag_chunk))
        || ltb max_datagram (i * frag_chunk + size))
      e1
    ∙ ap
        (λ b.
          b
          || leb count i
          || (ltb (i + 1) count && not (size == frag_chunk))
          || ltb max_datagram (i * frag_chunk + size))
        e2
    ∙ ap
        (λ b.
          b
          || (ltb (i + 1) count && not (size == frag_chunk))
          || ltb max_datagram (i * frag_chunk + size))
        e3
    ∙ ap (λ b. b || ltb max_datagram (i * frag_chunk + size)) whole
    ∙ e5

input_steps :
    (t : Node) (f : Frame) (rssi snr : ℤ) (now : ℕ) (fh : FragHdr) (bytes : List ℕ)
    → frag_decode f.payload f.payload_len ≡ some fh
    → bad_fragment fh (f.payload_len - frag_hdr_len) ≡ false
    → find_index (disagrees f.src fh) t.reasm ≡ none
    → drop frag_hdr_len (payload_bytes f.payload f.payload_len) ≡ bytes
    → reasm_input t f rssi snr now ≡ reasm_accept t f fh bytes rssi snr now
unfolding reasm_input
input_steps t f rssi snr now fh bytes dec good agree cut =
    let rest = drop frag_hdr_len (payload_bytes f.payload f.payload_len) in
    ap
      (λ o. elim o as (λ _. Node) [
        | none ↦ t
        | some h ↦
            if bad_fragment h (f.payload_len - frag_hdr_len)
              || is_some (find_index (disagrees f.src h) t.reasm)
            then t
            else reasm_accept t f h rest rssi snr now
      ])
      dec
    ∙ ap
        (λ b.
          if b || is_some (find_index (disagrees f.src fh) t.reasm)
          then t
          else reasm_accept t f fh rest rssi snr now)
        good
    ∙ ap (λ o. if is_some o then t else reasm_accept t f fh rest rssi snr now) agree
    ∙ ap (λ xs. reasm_accept t f fh xs rssi snr now) cut

module _ (bytes : List ℕ) (src id : ℕ) (fits : length bytes ≤ max_datagram) (word : Word id)
    (f : Frame) (i : ℕ) (v : IsFragment bytes src id f i) where
  abbrev carried : List ℕ
  carried = frag_bytes bytes id (frag_count bytes) i

  length-carried : length carried ≡ length (chunk bytes i) + 4
  unfolding frag_encode put_u16
  length-carried = omega arith

  carried_byte : (j : ℕ) → j < 4 → get_or v.bytes_at j 0 ≡ get_or carried j 0
  carried_byte j lt =
      sym (get_or-take f.payload_len v.bytes_at j 0 (omega (arith, lt, v.len, length-carried)))
      ∙ ap (λ xs. get_or xs j 0) v.content

  decoded : frag_decode f.payload f.payload_len ≡ some (hdr bytes id i)
  unfolding frag_decode get_u16 frag_encode put_u16
  decoded = ground (
    arith,
    v.payload,
    v.len,
    length-carried,
    carried_byte 0 (omega arith),
    carried_byte 1 (omega arith),
    carried_byte 2 (omega arith),
    carried_byte 3 (omega arith),
    u16_bytes id word,
  )

  cut : drop frag_hdr_len (payload_bytes f.payload f.payload_len) ≡ chunk bytes i
  unfolding frag_encode put_u16
  cut =
      ap (λ o. drop frag_hdr_len (payload_bytes o f.payload_len)) v.payload
      ∙ ap (drop frag_hdr_len) v.content

  abbrev chunk_size : ℕ
  chunk_size = f.payload_len - frag_hdr_len

  size_is : chunk_size ≡ length (chunk bytes i)
  size_is = omega (arith, v.len, length-carried)

  whole_chunk : (ltb (i + 1) (frag_count bytes) && not (chunk_size == frag_chunk)) ≡ false
  whole_chunk = elim (dec_lt (i + 1) (frag_count bytes)) [
    | yes more ↦
        let full : chunk_size ≡ frag_chunk = omega (arith, size_is, chunk-length bytes i, more) in
        rw full (and_false (ltb (i + 1) (frag_count bytes)))
    | no last ↦ rw (not_below _ _ last) refl
  ]

  good : bad_fragment (hdr bytes id i) chunk_size ≡ false
  good =
      bad_fragment-none id i (frag_count bytes) chunk_size v.index (omega (arith, fits)) whole_chunk
        (omega (arith, size_is, chunk-length bytes i, v.index, fits))

  pub reasm_input-accepts :
      (t : Node) (rssi snr : ℤ) (now : ℕ)
      → find_index (disagrees f.src (hdr bytes id 0)) t.reasm ≡ none
      → reasm_input t f rssi snr now
        ≡ reasm_accept t f (hdr bytes id i) (chunk bytes i) rssi snr now
  reasm_input-accepts t rssi snr now agree =
      input_steps t f rssi snr now (hdr bytes id i) (chunk bytes i) decoded good agree cut
