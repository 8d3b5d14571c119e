-- ===== src/Node/Send.antt =====
-- The data plane of src/api/treenet.c: treenet_send, treenet_broadcast and tn_send_datagram.
use treenity.Prelude.{
  ℕ, zero, suc, ◌+◌, ◌-◌, ◌*◌, ◌/◌, Bool, true, false, not, ◌&&◌, ◌||◌, List, ◌++◌, some, ltb, leb,
  ◌==◌, if◌then◌else◌, length, take, drop,
}
use treenity.Config.{
  protocol_version, mtu, max_hops, max_fragments, max_datagram, addr_invalid, addr_broadcast,
}
use treenity.Frame.{Frame, zero_frame, frame_overhead, flag_want_ack, flag_frag, frag_encode}
use treenity.Node.State.{Node, incr, next_seq}
use treenity.Node.Tx.{TxResult, queued, full, unencodable, tx_submit, tx_free_slots}
use treenity.Node.Control.{is_queued, frame_data, frame_flood}
use treenity.Node.Reasm.{frag_chunk}
use treenity.Node.Receive.{route_next_hop}

-- The results 0, -1, -2 and -3.
pub data SendResult : Type 0 where
  sent refused too_large no_path : SendResult

abbrev pub max_payload : ℕ
max_payload = mtu - frame_overhead

abbrev pub submit_result : TxResult → SendResult
submit_result queued = sent
submit_result full = refused
submit_result unencodable = too_large

abbrev pub count_datagram : Node → Node
count_datagram t = record t { stats = record t.stats { datagrams_tx = incr t.stats.datagrams_tx } }

-- The header fields that both forms of a datagram share.
abbrev pub data_frame : Node → (flood : Bool) → (dst seq : ℕ) → Frame
data_frame t flood dst seq = record zero_frame {
  version = protocol_version;
  type = if flood then frame_flood else frame_data;
  src = t.addr;
  dst = if flood then addr_broadcast else dst;
  seq = seq;
  net_id = t.net_id;
  hop_limit = max_hops;
}

abbrev pub ack_flag : Bool → ℕ
ack_flag reliable = if reliable then flag_want_ack else 0

unfoldable pub send_single :
    Node → (flood reliable : Bool) → (dst nh : ℕ) → List ℕ → Node × SendResult
unfolding next_seq
send_single t flood reliable dst nh bytes =
    let (t1, seq) = next_seq t in
    let (t2, rc) =
      tx_submit t1
        (record (data_frame t flood dst seq) {
          flags = ack_flag reliable;
          payload = some bytes;
          payload_len = length bytes;
        })
        reliable nh 0 in
    (if is_queued rc then count_datagram t2 else t2, submit_result rc)

-- The bytes of fragment `i`: its header and its chunk.
abbrev pub frag_bytes : List ℕ → (dgram_id count i : ℕ) → List ℕ
frag_bytes bytes dgram_id count i =
    frag_encode (record { dgram_id = dgram_id; index = i; count = count })
    ++ take frag_chunk (drop (i * frag_chunk) bytes)

-- Fragment `i` as a frame.
abbrev pub frag_frame :
    Node → (flood reliable : Bool) → (dst seq : ℕ) → List ℕ → (dgram_id count i : ℕ) → Frame
frag_frame t flood reliable dst seq bytes dgram_id count i = record (data_frame t flood dst seq) {
  flags = flag_frag + ack_flag reliable;
  payload = some (frag_bytes bytes dgram_id count i);
  payload_len = length (frag_bytes bytes dgram_id count i);
}

-- The loop over the fragments from `i` on.
unfoldable pub send_frags :
    (left : ℕ)
    → Node
    → (flood reliable : Bool) → (dst nh : ℕ) → List ℕ
    → (dgram_id count i : ℕ) → Node × SendResult
unfolding next_seq
send_frags zero t flood reliable dst nh bytes dgram_id count i = (count_datagram t, sent)
send_frags (suc left) t flood reliable dst nh bytes dgram_id count i =
    let (t1, seq) = next_seq t in
    let (t2, rc) =
      tx_submit t1 (frag_frame t flood reliable dst seq bytes dgram_id count i) reliable nh 0 in
    let rest = send_frags left t2 flood reliable dst nh bytes dgram_id count (i + 1) in
    if is_queued rc then rest else (t2, refused)

unfoldable pub send_fragmented :
    Node → (flood reliable : Bool) → (dst nh : ℕ) → List ℕ → Node × SendResult
unfolding send_frags next_seq
send_fragmented t flood reliable dst nh bytes =
    let count = (length bytes + frag_chunk - 1) / frag_chunk in
    if ltb max_fragments count
    then (t, too_large)
    else if ltb (tx_free_slots t) count
    then (t, refused)
    else let (t1, dgram_id) = next_seq t in
      send_frags count t1 flood reliable dst nh bytes dgram_id count 0

unfoldable pub send_via : Node → (flood : Bool) → (dst nh : ℕ) → List ℕ → Node × SendResult
unfolding send_single send_fragmented
send_via t flood dst nh bytes =
    let reliable = not flood && t.cfg.reliable in
    if leb (length bytes) max_payload
    then send_single t flood reliable dst nh bytes
    else send_fragmented t flood reliable dst nh bytes

unfoldable pub send_datagram : Node → ℕ → List ℕ → Bool → Node × SendResult
unfolding send_via
send_datagram t dst bytes flood =
    if length bytes == 0 || ltb max_datagram (length bytes)
    then (t, refused)
    else if flood
    then send_via t true dst addr_broadcast bytes
    else let (t1, nh) = route_next_hop t dst in
      if nh == addr_invalid then (t1, no_path) else send_via t1 false dst nh bytes

unfoldable pub treenet_broadcast : Node → List ℕ → Node × SendResult
unfolding send_datagram
treenet_broadcast t bytes =
    if not t.initialized then (t, refused) else send_datagram t addr_broadcast bytes true

unfoldable pub treenet_send : Node → ℕ → List ℕ → Node × SendResult
unfolding treenet_broadcast send_datagram
treenet_send t dst bytes =
    if not t.initialized
    then (t, refused)
    else if dst == addr_broadcast
    then treenet_broadcast t bytes
    else if dst == t.addr || dst == addr_invalid
    then (t, refused)
    else send_datagram t dst bytes false
