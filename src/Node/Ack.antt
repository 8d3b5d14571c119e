-- ===== src/Node/Ack.antt =====
-- Acknowledgements in src/api/treenet.c: tn_link_ack_result and tn_handle_ack.
use treenity.Prelude.{
  ℕ, ◌+◌, Bool, false, ◌&&◌, none, some, ltb, leb, ◌==◌, if◌then◌else◌, find_index,
}
use treenity.Prelude.Word.{add32}
use treenity.Config.{ack_fail_threshold, link_suspect_ms}
use treenity.Frame.{Frame}
use treenity.Neighbor
use treenity.Neighbor.{Neighbor}
use treenity.Node.State.{Node, TxSlot, tx_done, null}
use treenity.Node.Event.{emit_event}
use treenity.Node.Tx.{slot, set_slot}
use treenity.Node.Parent.{select_parent}

abbrev pub set_neighbor : Node → ℕ → Neighbor → Node
set_neighbor t i n = record t { neighbors = Neighbor.set_entry t.neighbors i n }

-- The counter of a frame that the next hop has not acknowledged.
abbrev pub one_more_failure : ℕ → ℕ
one_more_failure fails = if ltb fails 0xFF then fails + 1 else fails

-- A link that has failed often enough becomes suspect; if it leads to the parent, a new one is
-- selected.
unfoldable pub link_failed : Node → ℕ → Neighbor → Node
link_failed t i n =
    let fails = one_more_failure n.ack_fail in
    if leb ack_fail_threshold fails
    then (let t1 =
          set_neighbor t i
            (record n { ack_fail = 0; suspect_until_ms = add32 t.now_ms link_suspect_ms }) in
        if n.addr == t.parent then (select_parent t1 t.now_ms).0 else t1)
    else set_neighbor t i (record n { ack_fail = fails })

unfoldable pub link_ack_result : Node → ℕ → Bool → Node
unfolding link_failed
link_ack_result t dst acked_by_dst = elim (Neighbor.find t.neighbors dst) [
  | none ↦ t
  | some i ↦
      let n = Neighbor.entry t.neighbors i in
      if acked_by_dst
      then set_neighbor t i (record n { ack_fail = 0; suspect_until_ms = 0 })
      else link_failed t i n
]

abbrev pub awaits_ack : ℕ → TxSlot → Bool
awaits_ack seq s = s.valid && s.reliable && s.ack_seq == seq

unfoldable pub handle_ack : Node → Frame → Node
unfolding link_ack_result
handle_ack t f = elim (Neighbor.find t.neighbors f.src) [
  | none ↦ t
  | some _ ↦ elim (find_index (awaits_ack f.seq) t.tx) [
    | none ↦ t
    | some i ↦
        let dst = (slot t i).ack_dst in
        let t1 = set_slot t i (record (slot t i) { valid = false }) in
        emit_event (link_ack_result t1 dst (f.src == dst)) tx_done null
  ]
]
