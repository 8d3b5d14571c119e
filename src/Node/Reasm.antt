-- ===== src/Node/Reasm.antt =====
-- Reassembly of fragmented datagrams and delivery, in src/api/treenet.c.
use treenity.Prelude.{
  ℕ, zero, suc, ◌+◌, ◌-◌, ◌*◌, ◌^◌, Bool, true, false, not, ◌&&◌, ◌||◌, List, [], ◌∷◌, none, some,
  ltb, leb, ◌==◌, if◌then◌else◌, get_or, set, take, drop, blit, bit_and, bit_or, find_index,
  is_some, length, map,
}
use treenity.Prelude.Word.{u8, u16}
use treenity.Prelude.Int.{ℤ}
use treenity.Config.{mtu, max_hops, max_fragments, max_datagram, reasm_timeout_ms}
use treenity.Util.{elapsed}
use treenity.Frame.{
  Frame, FragHdr, frag_decode, frag_hdr_len, frame_overhead, payload_bytes, flag_frag,
}
use treenity.Node.State.{Node, Reasm, zero_reasm, recv, incr, note}

-- TN_FRAG_CHUNK
abbrev pub frag_chunk : ℕ
frag_chunk = mtu - frame_overhead - frag_hdr_len

abbrev pub belongs : ℕ → ℕ → Reasm → Bool
belongs src dgram_id r = r.valid && r.src == src && r.dgram_id == dgram_id

abbrev pub free_reasm : Reasm → Bool
free_reasm r = not r.valid

-- The slot idle for longest.
unfoldable pub oldest_reasm : ℕ → List Reasm → ℕ → ℕ → ℕ → ℕ
oldest_reasm now [] i oldest max_age = oldest
oldest_reasm now (r ∷ rs) i oldest max_age =
    let age = elapsed r.last_ms now in
    let older = leb max_age age in
    oldest_reasm now rs (i + 1) (if older then i else oldest) (if older then age else max_age)

abbrev pub fresh_reasm : ℕ → ℕ → ℕ → ℕ → Reasm
fresh_reasm src dgram_id count now = record zero_reasm {
  valid = true;
  src = src;
  dgram_id = dgram_id;
  count = count;
  last_ms = now;
}

-- The table with the datagram's slot in it, and the slot's index.
unfoldable pub reasm_slot : List Reasm → ℕ → ℕ → ℕ → ℕ → List Reasm × ℕ
unfolding oldest_reasm
reasm_slot rs src dgram_id count now = elim (find_index (belongs src dgram_id) rs) [
  | some i ↦ (rs, i)
  | none ↦ elim (find_index free_reasm rs) [
    | some i ↦ (set rs i (fresh_reasm src dgram_id count now), i)
    | none ↦ let i = oldest_reasm now rs 0 0 0 in (set rs i (fresh_reasm src dgram_id count now), i)
  ]
]

-- A slot of the same datagram with another number of fragments.
abbrev pub disagrees : ℕ → FragHdr → Reasm → Bool
disagrees src fh r = belongs src fh.dgram_id r && not (r.count == fh.count)

-- The checks on a fragment before a slot is touched.
abbrev pub bad_fragment : FragHdr → ℕ → Bool
bad_fragment fh chunk_len =
    fh.count == 0
    || ltb max_fragments fh.count
    || leb fh.count fh.index
    || ltb (fh.index + 1) fh.count && not (chunk_len == frag_chunk)
    || ltb max_datagram (fh.index * frag_chunk + chunk_len)

abbrev pub has_fragment : ℕ → ℕ → Bool
has_fragment mask i = not (bit_and mask (2 ^ i) == 0)

-- How many of the first `n` fragments have arrived, and how long they are together.
unfoldable pub received_count : ℕ → ℕ → ℕ
received_count mask zero = 0
received_count mask (suc n) = received_count mask n + (if has_fragment mask n then 1 else 0)

unfoldable pub total_len : List ℕ → ℕ → ℕ
total_len lens zero = 0
total_len lens (suc n) = u16 (total_len lens n + get_or lens n 0)

-- The hops that a frame has travelled; the field cannot exceed a byte.
abbrev pub hops_of : Frame → ℕ
hops_of f = u8 (max_hops + 256 - f.hop_limit)

unfoldable pub hand_up : Node → Frame → List ℕ → ℤ → ℤ → Node
hand_up t f bytes rssi snr =
    let t1 = record t { stats = record t.stats { datagrams_rx = incr t.stats.datagrams_rx } } in
    if t.cfg.has_on_recv then note (recv f.src bytes rssi snr (hops_of f)) t1 else t1

-- A fragment that is new to its slot is stored.
abbrev pub store_fragment : Reasm → FragHdr → List ℕ → Reasm
store_fragment r fh chunk = record r {
  buf = blit r.buf (fh.index * frag_chunk) chunk;
  frag_len = set r.frag_len fh.index (u16 (length chunk));
  got_mask = bit_or r.got_mask (2 ^ fh.index);
}

unfoldable pub reasm_accept : Node → Frame → FragHdr → List ℕ → ℤ → ℤ → ℕ → Node
unfolding reasm_slot received_count total_len hand_up
reasm_accept t f fh chunk rssi snr now =
    let (rs, i) = reasm_slot t.reasm f.src fh.dgram_id fh.count now in
    let r = record (get_or rs i zero_reasm) { last_ms = now } in
    if has_fragment r.got_mask fh.index
    then record t { reasm = set rs i r }
    else let r' = store_fragment r fh chunk in
      if received_count r'.got_mask fh.count == fh.count
      then hand_up (record t { reasm = set rs i (record r' { valid = false }) }) f
          (take (total_len r'.frag_len fh.count) r'.buf) rssi snr
      else record t { reasm = set rs i r' }

unfoldable pub reasm_input : Node → Frame → ℤ → ℤ → ℕ → Node
unfolding reasm_accept
reasm_input t f rssi snr now = elim (frag_decode f.payload f.payload_len) [
  | none ↦ t
  | some fh ↦
      let chunk = drop frag_hdr_len (payload_bytes f.payload f.payload_len) in
      if bad_fragment fh (f.payload_len - frag_hdr_len)
        || is_some (find_index (disagrees f.src fh) t.reasm)
      then t
      else reasm_accept t f fh chunk rssi snr now
]

unfoldable pub deliver : Node → Frame → ℤ → ℤ → Node
unfolding reasm_input hand_up
deliver t f rssi snr =
    if not (bit_and f.flags flag_frag == 0)
    then reasm_input t f rssi snr t.now_ms
    else hand_up t f (payload_bytes f.payload f.payload_len) rssi snr

unfoldable pub expire_reasm : Node → Node
expire_reasm t = record t {
  reasm =
      map
        (λ r.
          if r.valid && ltb reasm_timeout_ms (elapsed r.last_ms t.now_ms)
          then record r { valid = false }
          else r)
        t.reasm;
}
