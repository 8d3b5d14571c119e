-- ===== src/Node/Control.antt =====
-- The control frames without a state machine of their own: tn_dao_send of src/routing/routing.c,
-- tn_probe_send and tn_send_ack of src/api/treenet.c.
use treenity.Prelude.{ℕ, Bool, true, false, ◌||◌, some, ◌==◌, if◌then◌else◌}
use treenity.Config.{protocol_version, max_hops, addr_broadcast, addr_invalid}
use treenity.Frame.{Frame, zero_frame, dao_encode, dao_payload_len, flag_want_ack}
use treenity.Node.State.{Node, Role, master, next_seq}
use treenity.Node.Tx.{TxResult, queued, tx_submit}

-- `TREENET_FRAME_DATA` and so on.
abbrev pub frame_beacon : ℕ
frame_beacon = 0

abbrev pub frame_data : ℕ
frame_data = 1

abbrev pub frame_ack : ℕ
frame_ack = 2

abbrev pub frame_flood : ℕ
frame_flood = 3

abbrev pub frame_probe : ℕ
frame_probe = 4

abbrev pub frame_dao : ℕ
frame_dao = 5

abbrev pub is_master : Role → Bool
is_master master = true
is_master _ = false

abbrev pub is_queued : TxResult → Bool
is_queued queued = true
is_queued _ = false

abbrev pub dao_frame : Node → (src origin hops seq : ℕ) → Frame
dao_frame t src origin hops seq = record zero_frame {
  version = protocol_version;
  type = frame_dao;
  flags = flag_want_ack;
  src = src;
  dst = t.parent;
  seq = seq;
  net_id = t.net_id;
  hop_limit = max_hops;
  payload = some (dao_encode (record { origin = origin; hops = hops }));
  payload_len = dao_payload_len;
}

unfoldable pub dao_send : Node → ℕ → Node
unfolding next_seq
dao_send t now =
    if is_master t.role || t.parent == addr_invalid
    then t
    else let (t1, seq) = next_seq t in
      let (t2, result) = tx_submit t1 (dao_frame t t.addr t.addr 0 seq) true t.parent 0 in
      if is_queued result then record t2 { dao_last_ms = now } else t2

unfoldable pub probe_send : Node → Node
unfolding next_seq
probe_send t =
    let (t1, seq) = next_seq t in
    let (t2, _) =
      tx_submit t1
        (record zero_frame {
          version = protocol_version;
          type = frame_probe;
          src = t.addr;
          dst = addr_broadcast;
          seq = seq;
          net_id = t.net_id;
          hop_limit = 1;
        })
        false addr_broadcast 0 in
    record t2 { probe_last_ms = t.now_ms }

unfoldable pub send_ack : Node → ℕ → ℕ → Node
send_ack t to seq =
    if to == addr_invalid || to == addr_broadcast
    then t
    else (tx_submit t
        (record zero_frame {
          version = protocol_version;
          type = frame_ack;
          src = t.addr;
          dst = to;
          seq = seq;
          net_id = t.net_id;
          hop_limit = 1;
        })
        false to 0).0
