-- ===== src/Node/Beacon.antt =====
-- src/link/beacon.c: the Trickle-driven beacons.
use treenity.Prelude.{ℕ, ◌*◌, ◌/◌, Bool, true, false, some, ◌==◌, if◌then◌else◌, bit_or, min}
use treenity.Prelude.Word.{add32, u16, u32}
use treenity.Config.{protocol_version, addr_broadcast, beacon_min_ms, beacon_max_ms}
use treenity.Util.{rand_below}
use treenity.Timer
use treenity.Frame.{Frame, zero_frame, beacon_encode, beacon_payload_len}
use treenity.Node.State.{Node, Role, leaf, incr, call_rnd, next_seq}
use treenity.Node.Tx.{tx_submit}
use treenity.Node.Control.{is_queued, frame_beacon}

abbrev pub beacon_has_parent : ℕ
beacon_has_parent = 1

abbrev pub beacon_router : ℕ
beacon_router = 2

abbrev pub is_leaf : Role → Bool
is_leaf leaf = true
is_leaf _ = false

unfoldable pub beacon_schedule : Node → ℕ → Node
unfolding call_rnd rand_below Timer.start
beacon_schedule t now =
    let half : ℕ = if t.trickle_I / 2 == 0 then 1 else t.trickle_I / 2 in
    let (t', r) = call_rnd t in
    record t' { beacon_timer = Timer.start t.beacon_timer now (add32 half (rand_below r half)) }

unfoldable pub beacon_reset : Node → ℕ → Node
unfolding beacon_schedule
beacon_reset t now = beacon_schedule (record t { trickle_I = beacon_min_ms }) now

abbrev pub beacon_flags : Node → ℕ
beacon_flags t =
    bit_or (if t.connected then beacon_has_parent else 0)
      (if is_leaf t.role then 0 else beacon_router)

abbrev pub beacon_frame : Node → ℕ → Frame
beacon_frame t seq = record zero_frame {
  version = protocol_version;
  type = frame_beacon;
  src = t.addr;
  dst = addr_broadcast;
  seq = seq;
  net_id = t.net_id;
  hop_limit = 1;
  payload = some (
      beacon_encode (record {
        rank = t.rank;
        parent = t.parent;
        flags = beacon_flags t;
        interval_100ms = u16 (min (t.trickle_I / 100) 0xFFFF);
      }));
  payload_len = beacon_payload_len;
}

unfoldable pub beacon_send : Node → ℕ → Node
unfolding next_seq beacon_schedule
beacon_send t now =
    let (t1, seq) = next_seq t in
    let (t2, result) = tx_submit t1 (beacon_frame t seq) false addr_broadcast 0 in
    let t3 =
      if is_queued result
      then record t2 { stats = record t2.stats { beacons_tx = incr t2.stats.beacons_tx } }
      else t2 in
    beacon_schedule (record t3 { trickle_I = min (u32 (t3.trickle_I * 2)) beacon_max_ms }) now

unfoldable pub beacon_tick : Node → ℕ → Node
unfolding beacon_send Timer.fire
beacon_tick t now =
    let (tm, fired) = Timer.fire t.beacon_timer now in
    let t' = record t { beacon_timer = tm } in if fired then beacon_send t' now else t'
