-- ===== src/Node/Capacity.antt =====
-- Sending a fragmented datagram is all or nothing: tn_send_datagram of src/api/treenet.c.
use treenity.Prelude.{
  ℕ, zero, suc, ◌+◌, ◌-◌, ◌*◌, ◌/◌, ◌<◌, ◌≤◌, ◌≡◌, ◌⊎◌, ◌≢◌, inl, inr, refl, Bool, true, List, some,
  arith, ltb, if◌then◌else◌, set, drop, length, find_index, Option-cases, Bool-cases, length-take,
  find_index-lt, find_index-passes, count_if-set, count_if-none, blit,
}
use treenity.Config.{mtu, max_fragments, cw_max, slot_ms, addr_invalid}
use treenity.Util.{put_u16}
use treenity.Frame.{Frame, frame_encode, frame_overhead, frag_encode}
use treenity.Node.State.{Node, TxSlot, zero_slot, call_rnd, next_seq}
use treenity.Node.Tx.{queued, tx_submit, tx_free_slots, is_free, slot, stamped}
use treenity.Prelude.Word.{u16, u32, add32}
use treenity.Util.{rand_below}
use treenity.Node.Reasm.{frag_chunk}
use treenity.Node.Send.{sent, send_frags, send_fragmented, frag_bytes, frag_frame}

-- What a submission writes into its slot.
abbrev pub new_slot : Node → Frame → (reliable : Bool) → (next_hop delay_ms i : ℕ) → List ℕ → TxSlot
new_slot t f reliable next_hop delay_ms i bytes = record {
  valid = true;
  len = u16 (length bytes);
  reliable = reliable;
  attempts = 0;
  next_tx_ms =
      add32 (add32 t.now_ms delay_ms)
        (rand_below (u32 (t.port.rnd t.world.rnd_calls)) cw_max * slot_ms);
  ack_dst = if reliable then next_hop else addr_invalid;
  ack_seq = f.seq;
  buf = blit (slot t i).buf 0 bytes;
}

module _ (t : Node) (f : Frame) (reliable : Bool) (next_hop delay_ms : ℕ) where
  pub tx_submit-writes :
      (i : ℕ) (bytes : List ℕ)
      → find_index is_free t.tx ≡ some i
      → frame_encode mtu (stamped t f) ≡ some bytes
      → ((tx_submit t f reliable next_hop delay_ms).1 ≡ queued)
        × ((tx_submit t f reliable next_hop delay_ms).0.tx
            ≡ set t.tx i (new_slot t f reliable next_hop delay_ms i bytes))
  unfolding tx_submit call_rnd
  tx_submit-writes i bytes e enc = ground (arith, e, enc)

  -- With a free slot and a frame that fits, a submission is queued and takes exactly one slot.
  pub tx_submit-takes_one :
      (p : List ℕ)
      → 0 < tx_free_slots t
      → f.payload ≡ some p
      → frame_overhead + f.payload_len ≤ mtu
      → ((tx_submit t f reliable next_hop delay_ms).1 ≡ queued)
        × (tx_free_slots (tx_submit t f reliable next_hop delay_ms).0 + 1 ≡ tx_free_slots t)
  unfolding tx_free_slots frame_encode
  tx_submit-takes_one p free has fits = elim (Option-cases (find_index is_free t.tx)) [
    | inl e ↦ absurd (omega (arith, free, count_if-none is_free t.tx e))
    | inr (i, e) ↦ elim (Option-cases (frame_encode mtu (stamped t f))) [
      | inl enc ↦ ground (arith, has, fits, enc)
      | inr (bytes, enc) ↦ ground (
        arith,
        tx_submit-writes i bytes e enc,
        find_index-passes is_free t.tx i zero_slot e,
        count_if-set is_free t.tx i (new_slot t f reliable next_hop delay_ms i bytes) zero_slot
            (find_index-lt is_free t.tx i e),
      )
    ]
  ]

pub frag_bytes-fit :
    (bytes : List ℕ) (dgram_id count i : ℕ)
    → frame_overhead + length (frag_bytes bytes dgram_id count i) ≤ mtu
unfolding frag_encode put_u16
frag_bytes-fit bytes dgram_id count i =
    omega (arith, length-take frag_chunk (drop (i * frag_chunk) bytes))

pub free_seq : (t : Node) → tx_free_slots (record t { seq = u16 (t.seq + 1) }) ≡ tx_free_slots t
unfolding tx_free_slots
free_seq t = refl

-- As many free slots as fragments are left are enough.
send_frags-sent :
    (left : ℕ) (t : Node) (flood reliable : Bool) (dst nh : ℕ) (bytes : List ℕ)
    (dgram_id count i : ℕ)
    → left ≤ tx_free_slots t
    → (send_frags left t flood reliable dst nh bytes dgram_id count i).1 ≡ sent
unfolding send_frags next_seq
send_frags-sent zero t flood reliable dst nh bytes dgram_id count i h = refl
send_frags-sent (suc left) t flood reliable dst nh bytes dgram_id count i h =
    let t1 = record t { seq = u16 (t.seq + 1) } in
    let frame = frag_frame t flood reliable dst t.seq bytes dgram_id count i in
    let (ok, one) =
      tx_submit-takes_one t1 frame reliable nh 0 (frag_bytes bytes dgram_id count i)
        (omega (arith, h, free_seq t)) refl (frag_bytes-fit bytes dgram_id count i) in
    rw ok (
      send_frags-sent left (tx_submit t1 frame reliable nh 0).0 flood reliable dst nh bytes dgram_id
        count (i + 1) (omega (arith, h, one, free_seq t)))

abbrev pub frag_count : List ℕ → ℕ
frag_count bytes = (length bytes + frag_chunk - 1) / frag_chunk

-- A fragmented datagram is reported as sent if it has at most 8 fragments and the queue has a free slot
-- for each; in every other case it is refused and the instance is as it was.
pub send_fragmented-cases :
    (t : Node) (flood reliable : Bool) (dst nh : ℕ) (bytes : List ℕ)
    → ((frag_count bytes ≤ max_fragments)
        × (frag_count bytes ≤ tx_free_slots t)
        × ((send_fragmented t flood reliable dst nh bytes).1 ≡ sent))
      ⊎ (((max_fragments < frag_count bytes) ⊎ (tx_free_slots t < frag_count bytes))
          × ((send_fragmented t flood reliable dst nh bytes).1 ≢ sent)
          × ((send_fragmented t flood reliable dst nh bytes).0 ≡ t))
unfolding send_fragmented next_seq
send_fragmented-cases t flood reliable dst nh bytes =
    elim (Bool-cases (ltb max_fragments (frag_count bytes))) [
      | inl big ↦ inr (inl (ground arith), λ eq. ground (arith, eq), ground arith)
      | inr few ↦ elim (Bool-cases (ltb (tx_free_slots t) (frag_count bytes))) [
        | inl many ↦ inr (inr (ground arith), λ eq. ground (arith, eq), ground arith)
        | inr fits ↦ inl (
          ground arith,
          ground arith,
          ground (
            arith,
            send_frags-sent (frag_count bytes) (record t { seq = u16 (t.seq + 1) }) flood reliable
                dst nh bytes t.seq (frag_count bytes) 0 (ground (arith, free_seq t)),
          ),
        )
      ]
    ]
