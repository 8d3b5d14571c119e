-- ===== src/Node/Receive.antt =====
-- Frame processing in src/api/treenet.c, and tn_route_next_hop of src/routing/routing.c.
use treenity.Prelude.{
  ℕ, zero, suc, ◌+◌, ◌-◌, ◌*◌, ◌/◌, Bool, true, false, not, ◌&&◌, ◌||◌, List, none, some, ltb, leb,
  ◌==◌, if◌then◌else◌, bit_and, is_some,
}
use treenity.Prelude.Word.{u32}
use treenity.Prelude.Int.{ℤ, pos, negsuc, ◌-ℤ◌, pos_part}
use treenity.Config.{
  mtu, slot_ms, flood_cw_ms, addr_invalid, addr_broadcast, beacon_min_ms, beacon_max_ms,
  rank_infinite, route_timeout_ms,
}
use treenity.Util.{rand_below, clamp_i32}
use treenity.Frame.{Frame, Beacon, beacon_decode, frame_decode, flag_want_ack}
use treenity.Ring
use treenity.Ring.{Ringbuf, RxMeta}
use treenity.Dupcache
use treenity.Neighbor
use treenity.Routes
use treenity.Node.State.{Node, Role, repeater, neighbor_added, null, incr, call_rnd}
use treenity.Node.Event.{emit_event}
use treenity.Node.Tx.{tx_submit, drop_frame}
use treenity.Node.Control.{
  is_queued, send_ack, frame_beacon, frame_dao, frame_ack, frame_probe, frame_data, frame_flood,
}
use treenity.Node.Beacon.{beacon_send, beacon_has_parent, is_leaf}
use treenity.Node.Parent.{on_beacon}
use treenity.Node.Ack.{handle_ack}
use treenity.Node.Dao.{dao_handle}
use treenity.Node.Reasm.{deliver}

-- The next hop towards `dst`, or TREENET_ADDR_INVALID. The lookup drops a stale route.
unfoldable pub route_next_hop : Node → ℕ → Node × ℕ
route_next_hop t dst =
    if dst == t.addr
    then (t, t.addr)
    else if is_some (Neighbor.find t.neighbors dst)
    then (t, dst)
    else let (routes', found) = Routes.lookup t.routes dst t.now_ms route_timeout_ms in
      let t' = record t { routes = routes' } in
      elim found [
        | some r ↦ (t', r.next_hop)
        | none ↦ (t', if not (t.parent == addr_invalid) then t.parent else addr_invalid)
      ]

abbrev pub wants_ack : Frame → Bool
wants_ack f = not (bit_and f.flags flag_want_ack == 0)

-- `if (want_ack) tn_send_ack(t, f->prev, f->seq)`
abbrev pub ack_if_wanted : Node → Frame → Node
ack_if_wanted t f = if wants_ack f then send_ack t f.prev f.seq else t

-- The frame as it is passed on; a hop limit above 0 is lowered by one.
abbrev pub one_hop_less : Frame → Frame
one_hop_less f = record f { hop_limit = f.hop_limit - 1 }

-- A frame for this node.
unfoldable pub accept_data : Node → Frame → ℤ → ℤ → ℕ → Node
accept_data t f rssi snr now =
    let (dup', was_seen) = Dupcache.seen t.dup f.src f.seq now in
    let t1 = ack_if_wanted (record t { dup = dup' }) f in
    if not was_seen then deliver t1 f rssi snr else t1

-- A frame to pass on that has not been seen and has hops left.
unfoldable pub forward_data : Node → Frame → ℕ → Node
unfolding route_next_hop
forward_data t f now =
    let (t1, next_hop) = route_next_hop t f.dst in
    if next_hop == addr_invalid
    then drop_frame t1
    else let (t2, result) = tx_submit t1 (one_hop_less f) (wants_ack f) next_hop 0 in
      if not (is_queued result)
      then drop_frame t2
      else ack_if_wanted (record t2 { dup = Dupcache.mark t2.dup f.src f.seq now }) f

unfoldable pub handle_data : Node → Frame → ℤ → ℤ → ℕ → Node
unfolding accept_data forward_data
handle_data t f rssi snr now =
    if f.dst == t.addr
    then accept_data t f rssi snr now
    else if is_leaf t.role
    then t
    else if Dupcache.check t.dup f.src f.seq now
    then ack_if_wanted t f
    else if leb f.hop_limit 1
    then drop_frame t
    else forward_data t f now

abbrev pub is_repeater : Role → Bool
is_repeater repeater = true
is_repeater _ = false

-- The contention window of a frame heard with the given SNR; the clamp keeps it from 0 to 500 ms.
unfoldable pub flood_window : ℤ → ℕ
unfolding clamp_i32
flood_window snr = pos_part (pos 10 -ℤ clamp_i32 snr (negsuc 19) (pos 10)) * flood_cw_ms / 30

unfoldable pub flood_delay : Node → ℤ → Node × ℕ
unfolding call_rnd rand_below flood_window
flood_delay t snr =
    if is_repeater t.role
    then (t, 0)
    else let (t', r) = call_rnd t in (t', u32 (rand_below r slot_ms + flood_window snr))

unfoldable pub handle_flood : Node → Frame → ℤ → ℤ → ℕ → Node
unfolding flood_delay
handle_flood t f rssi snr now =
    let (dup', was_seen) = Dupcache.seen t.dup f.src f.seq now in
    let t0 = record t { dup = dup' } in
    if was_seen
    then t0
    else let t1 = deliver t0 f rssi snr in
      if is_leaf t1.role || leb f.hop_limit 1
      then t1
      else let (t2, delay) = flood_delay t1 snr in
        (tx_submit t2 (one_hop_less f) false addr_broadcast delay).0

-- The checks on the content of a beacon.
unfoldable pub bad_beacon : Frame → Beacon → Bool
bad_beacon f b =
    let interval_ms = u32 (b.interval_100ms * 100) in
    ltb interval_ms (beacon_min_ms / 2)
    || ltb beacon_max_ms interval_ms
    || b.parent == f.src
    || not (bit_and b.flags beacon_has_parent == 0) && leb rank_infinite b.rank

unfoldable pub process_beacon : Node → Frame → ℤ → ℤ → ℕ → Node
unfolding bad_beacon
process_beacon t f rssi snr now = elim (beacon_decode f.payload f.payload_len) [
  | none ↦ drop_frame t
  | some b ↦
      if bad_beacon f b
      then drop_frame t
      else on_beacon (record t { stats = record t.stats { beacons_rx = incr t.stats.beacons_rx } })
          f.src b.rank b.parent b.flags b.interval_100ms rssi snr now
]

unfoldable pub process_dao : Node → Frame → ℕ → Node
process_dao t f now =
    if f.dst == t.addr || f.dst == addr_broadcast
    then (let (t', consumed) = dao_handle t f now in
        if consumed && wants_ack f then send_ack t' f.prev f.seq else t')
    else t

unfoldable pub process_frame : Node → Frame → ℤ → ℤ → ℕ → Node
unfolding process_beacon process_dao handle_data handle_flood
process_frame t f rssi snr now =
    if f.type == frame_beacon
    then process_beacon t f rssi snr now
    else if f.type == frame_dao
    then process_dao t f now
    else if f.type == frame_ack
    then if f.dst == t.addr then handle_ack t f else t
    else if f.type == frame_probe
    then beacon_send t now
    else if f.type == frame_data
    then handle_data t f rssi snr now
    else if f.type == frame_flood
    then handle_flood t f rssi snr now
    else drop_frame t

-- The link to the frame's transmitter is measured.
unfoldable pub note_hop : Node → Frame → RxMeta → Node
note_hop t f meta =
    let hop = f.prev in
    if hop == t.addr || hop == addr_invalid
    then t
    else let known = is_some (Neighbor.find t.neighbors hop) in
      let t1 = record t {
        neighbors = Neighbor.note_frame t.neighbors hop meta.rssi_dbm meta.snr_db t.now_ms;
      } in
      if not known then emit_event t1 neighbor_added null else t1

-- The loop's body for a record of the ring.
unfoldable pub rx_step : Node → RxMeta → List ℕ → Node
unfolding note_hop process_frame
rx_step t meta bytes =
    let t1 = record t { stats = record t.stats { frames_rx = incr t.stats.frames_rx } } in
    elim (frame_decode bytes) [
      | none ↦ drop_frame t1
      | some f ↦
          if not (f.net_id == t1.net_id) || f.src == t1.addr
          then t1
          else process_frame (note_hop t1 f meta) f meta.rssi_dbm meta.snr_db t1.now_ms
    ]

-- The loop stops when the pop does; each pop takes at least one byte.
unfoldable pub rx_loop : ℕ → Node → Node
rx_loop zero t = t
rx_loop (suc fuel) t =
    let (rx', popped) = Ring.pop t.rx mtu in
    elim popped [
      | none ↦ record t { rx = rx' }
      | some (meta, bytes) ↦ rx_loop fuel (rx_step (record t { rx = rx' }) meta bytes)
    ]

unfoldable pub rx_drain : Node → Node
unfolding rx_loop rx_step Ring.used
rx_drain t = rx_loop (Ring.used t.rx + 1) t
