-- ===== src/Node/Tx.antt =====
-- tn_tx_submit and tn_tx_free_slots of src/api/treenet.c: queueing a frame for transmission.
use treenity.Prelude.{
  ℕ, ◌*◌, Bool, true, not, none, some, if◌then◌else◌, get_or, set, length, blit, find_index,
  count_if,
}
use treenity.Prelude.Word.{add32, u16}
use treenity.Config.{mtu, addr_invalid, cw_max, slot_ms}
use treenity.Util.{rand_below}
use treenity.Frame.{Frame, frame_encode}
use treenity.Node.State.{TxSlot, zero_slot, Node, incr, call_rnd}

-- 0, and the two failures -1 (no free slot) and -2 (the frame cannot be encoded).
pub data TxResult : Type 0 where
  queued full unencodable : TxResult

abbrev pub slot : Node → ℕ → TxSlot
slot t i = get_or t.tx i zero_slot

abbrev pub set_slot : Node → ℕ → TxSlot → Node
set_slot t i s = record t { tx = set t.tx i s }

abbrev pub is_free : TxSlot → Bool
is_free s = not s.valid

abbrev pub stamped : Node → Frame → Frame
stamped t frame = record frame { prev = t.addr }

abbrev pub drop_frame : Node → Node
drop_frame t = record t { stats = record t.stats { frames_dropped = incr t.stats.frames_dropped } }

unfoldable pub tx_submit : Node → Frame → Bool → ℕ → ℕ → Node × TxResult
unfolding call_rnd rand_below
tx_submit t frame reliable next_hop delay_ms = elim (find_index is_free t.tx) [
  | none ↦ (drop_frame t, full)
  | some i ↦ elim (frame_encode mtu (stamped t frame)) [
    | none ↦ (t, unencodable)
    | some bytes ↦
        let (t', r) = call_rnd t in
        let backoff = rand_below r cw_max * slot_ms in
        (
          set_slot t' i (record {
            valid = true;
            len = u16 (length bytes);
            reliable = reliable;
            attempts = 0;
            next_tx_ms = add32 (add32 t.now_ms delay_ms) backoff;
            ack_dst = if reliable then next_hop else addr_invalid;
            ack_seq = frame.seq;
            buf = blit (slot t i).buf 0 bytes;
          }),
          queued,
        )
  ]
]

unfoldable pub tx_free_slots : Node → ℕ
tx_free_slots t = count_if is_free t.tx
