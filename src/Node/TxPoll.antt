-- ===== src/Node/TxPoll.antt =====
-- tn_tx_poll of src/api/treenet.c: channel access, transmission, retransmission, giving up.
use treenity.Prelude.{
  ℕ, zero, suc, ◌+◌, ◌/◌, Bool, false, not, ◌&&◌, List, none, some, ltb, leb, if◌then◌else◌, take,
}
use treenity.Prelude.Word.{add32, u8, u32}
use treenity.Config.{max_retries, slot_ms, ack_timeout_ms, tx_queue_size}
use treenity.Util.{time_after}
use treenity.Airtime.{airtime_estimate_us}
use treenity.Node.State.{Node, TxSlot, transmit, tx_failed, null, incr, note}
use treenity.Node.Event.{emit_event}
use treenity.Node.Tx.{slot, set_slot}
use treenity.Node.Ack.{link_ack_result}

-- `t->port.channel_free != NULL && !t->port.channel_free()`
unfoldable pub channel_busy : Node → Node × Bool
channel_busy t = elim t.port.channel_free [
  | none ↦ (t, false)
  | some cad ↦ (
    record t { world = record t.world { cad_calls = t.world.cad_calls + 1 } },
    not (cad t.world.cad_calls),
  )
]

-- `t->port.tx(s->buf, s->len)`, with true for the result 0.
unfoldable pub port_tx : Node → List ℕ → Node × Bool
port_tx t bytes = (
  note (transmit bytes) (record t { world = record t.world { tx_calls = t.world.tx_calls + 1 } }),
  t.port.tx_ok t.world.tx_calls,
)

abbrev pub count_sent : Node → TxSlot → Node
count_sent t s = record t {
  stats = record t.stats {
    frames_tx = incr t.stats.frames_tx;
    airtime_ms = u32 (t.stats.airtime_ms + u32 (airtime_estimate_us t.lora s.len + 999) / 1000);
    retransmissions =
        if ltb 0 s.attempts then incr t.stats.retransmissions else t.stats.retransmissions;
  };
}

-- The slot after an attempt: one more try is due, or it is free.
abbrev pub after_attempt : Node → TxSlot → TxSlot
after_attempt t s =
    if s.reliable
    then record s { attempts = u8 (s.attempts + 1); next_tx_ms = add32 t.now_ms ack_timeout_ms }
    else record s { valid = false }

-- The last part of the loop's body: carrier sense and transmission.
unfoldable pub attempt : Node → ℕ → TxSlot → Node
unfolding channel_busy port_tx
attempt t i s =
    let (t1, busy) = channel_busy t in
    if busy
    then set_slot t1 i (record s { next_tx_ms = add32 t.now_ms slot_ms })
    else let (t2, ok) = port_tx t1 (take s.len s.buf) in
      set_slot (if ok then count_sent t2 s else t2) i (after_attempt t s)

abbrev pub give_up : Node → ℕ → TxSlot → Node
give_up t i s =
    emit_event (link_ack_result (set_slot t i (record s { valid = false })) s.ack_dst false)
      tx_failed null

-- The loop's body for slot `i`.
unfoldable pub tx_step : Node → ℕ → Node
unfolding attempt
tx_step t i =
    let s = slot t i in
    if not s.valid
    then t
    else if time_after s.next_tx_ms t.now_ms
    then t
    else if s.reliable && leb max_retries s.attempts
    then give_up t i s
    else attempt t i s

unfoldable pub tx_loop : ℕ → ℕ → Node → Node
tx_loop zero i t = t
tx_loop (suc left) i t = tx_loop left (i + 1) (tx_step t i)

unfoldable pub tx_poll : Node → Node
unfolding tx_loop tx_step
tx_poll t = tx_loop tx_queue_size 0 t
