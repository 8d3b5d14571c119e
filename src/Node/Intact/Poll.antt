-- ===== src/Node/Intact/Poll.antt =====
-- treenet_poll of src/api/treenet.c keeps the tables intact.
use treenity.Prelude.{
  ℕ, zero, suc, ◌+◌, refl, not, ◌&&◌, ◌||◌, List, none, some, ◌==◌, Option, is_some, [], Bool, true,
  false, if◌then◌else◌, ◌≡◌, ◌∙◌, sym, ap, subst, arith,
}
use treenity.Prelude.Int.{ℤ}
use treenity.Config.{mtu, addr_invalid, addr_broadcast, route_timeout_ms}
use treenity.Frame.{Frame, frame_decode, beacon_decode, frame_hdr}
use treenity.Neighbor
use treenity.Neighbor.Table.{note_frame-IsTable}
use treenity.Ring
use treenity.Ring.{Ringbuf, RxMeta}
use treenity.Routes.Lookup.{remove_via-expire-IsValid}
use treenity.Node.State.{Node, neighbor_added, null, incr, arm, note}
use treenity.Node.Event.{events_flush, emit_event}
use treenity.Node.TxPoll.{tx_poll}
use treenity.Node.Tx.{drop_frame}
use treenity.Node.Beacon.{beacon_tick}
use treenity.Node.Parent.{routing_tick}
use treenity.Node.Control.{
  is_master, frame_beacon, frame_dao, frame_ack, frame_probe, frame_data, frame_flood,
}
use treenity.Node.Dao.{dao_handle}
use treenity.Node.Receive.{
  process_beacon, bad_beacon, process_dao, wants_ack, process_frame, note_hop, rx_step, rx_loop,
  rx_drain,
}
use treenity.Node.Drain.{rx_round, rx-rx_step}
use treenity.Node.Lifecycle.{read_clock}
use treenity.Node.Poll.{
  deadline_in, upkeep_due, upkeep, maintain, maintain_if_due, next_maint_deadline, next_deadline_ms,
  after_drain, poll_steps, treenet_poll,
}
use treenity.Node.Intact.{
  IsIntact, tables, IsIntact-same, IsTable-neighbors, IsValid-routes, All-IsNamed, label,
}
use treenity.Node.Intact.Change.{
  IsIntact-if, IsIntact-option, IsIntact-emit_event, IsIntact-neighbors, IsIntact-routes,
  IsIntact-test, IsIntact-note,
}
use treenity.Frame.Accept.{decode-IsFrame, decode-payload}
use treenity.Frame.Integrity.{AreBytes, AreBytes-drop}
use treenity.Node.Quiet.{core}
use treenity.Node.Invariant.{IsSteady-after_drain}
use treenity.Node.Intact.Named.{AreNamed-note_frame}
use treenity.Node.Intact.Pending.{IsQueued, IsQueued-same, IsPopped, IsPopped-pop}
use treenity.Node.Intact.Control.{
  IsIntact-drop_frame, IsIntact-send_ack, IsIntact-dao_send, IsIntact-probe_send,
  IsIntact-beacon_send, IsIntact-beacon_tick,
}
use treenity.Node.Intact.Routing.{IsIntact-routing_tick, IsIntact-on_beacon}
use treenity.Node.Intact.Link.{IsIntact-handle_ack, IsIntact-tx_poll, IsIntact-age_neighbors}
use treenity.Node.Intact.Data.{
  IsIntact-dao_handle, IsIntact-expire_reasm, IsIntact-events_flush, Heard,
}
use treenity.Node.Intact.Forward.{IsIntact-handle_data, IsIntact-handle_flood}

IsIntact-process_beacon :
    (t : Node) (f : Frame) (rssi snr : ℤ) (now : ℕ)
    → IsIntact t
    → Heard t f
    → IsIntact (process_beacon t f rssi snr now)
unfolding process_beacon tables
IsIntact-process_beacon t f rssi snr now v h =
    IsIntact-option (beacon_decode f.payload f.payload_len) (drop_frame t) _
      (IsIntact-drop_frame t v)
      (λ b _. IsIntact-if (bad_beacon f b) _ _ (IsIntact-drop_frame t v) (
        IsIntact-on_beacon _ f.src b.rank b.parent b.flags b.interval_100ms rssi snr now
          (IsIntact-same t _ refl v) h.frame.src))

IsIntact-process_dao :
    (t : Node) (f : Frame) (now : ℕ) → IsIntact t → Heard t f → IsIntact (process_dao t f now)
unfolding process_dao
IsIntact-process_dao t f now v h =
    let w = IsIntact-dao_handle t f now v h in
    IsIntact-if (f.dst == t.addr || f.dst == addr_broadcast) _ _
      (IsIntact-if ((dao_handle t f now).1 && wants_ack f) _ _
        (IsIntact-send_ack _ f.prev f.seq w h.frame.prev h.frame.seq) w)
      v

IsIntact-process_frame :
    (t : Node) (f : Frame) (rssi snr : ℤ) (now : ℕ)
    → IsIntact t
    → Heard t f
    → IsIntact (process_frame t f rssi snr now)
unfolding process_frame
IsIntact-process_frame t f rssi snr now v h =
    IsIntact-if (f.type == frame_beacon) _ _ (IsIntact-process_beacon t f rssi snr now v h) (
      IsIntact-if (f.type == frame_dao) _ _ (IsIntact-process_dao t f now v h) (
        IsIntact-if (f.type == frame_ack) _ _
          (IsIntact-if (f.dst == t.addr) _ _ (IsIntact-handle_ack t f v) v)
          (IsIntact-if (f.type == frame_probe) _ _ (IsIntact-beacon_send t now v) (
            IsIntact-if (f.type == frame_data) _ _ (IsIntact-handle_data t f rssi snr now v h) (
              IsIntact-if (f.type == frame_flood) _ _ (IsIntact-handle_flood t f rssi snr now v h)
                (IsIntact-drop_frame t v))))))

IsIntact-note_hop :
    (t : Node) (f : Frame) (meta : RxMeta) → IsIntact t → Heard t f → IsIntact (note_hop t f meta)
unfolding note_hop
IsIntact-note_hop t f meta v h =
    let w =
      IsIntact-neighbors t _ v
        (note_frame-IsTable t.neighbors f.prev meta.rssi_dbm meta.snr_db t.now_ms
          (IsTable-neighbors t v)).0
        (AreNamed-note_frame t.neighbors f.prev meta.rssi_dbm meta.snr_db t.now_ms h.frame.prev
          (All-IsNamed t v)) in
    IsIntact-if (f.prev == t.addr || f.prev == addr_invalid) _ _ v (
      IsIntact-if (not (is_some (Neighbor.find t.neighbors f.prev))) _ _
        (IsIntact-emit_event _ neighbor_added null w) w)

label-note_hop : (t : Node) (f : Frame) (meta : RxMeta) → label (note_hop t f meta) ≡ label t
unfolding note_hop emit_event
label-note_hop t f meta = ground arith

abbrev payload_of : Option (List ℕ) → List ℕ
payload_of none = []
payload_of (some p) = p

-- What the receiver has decoded, if it is of its network.
Heard-decode :
    (t : Node) (f : Frame) (bytes : List ℕ)
    → AreBytes bytes
    → frame_decode bytes ≡ some f
    → f.net_id ≡ t.net_id
    → Heard t f
Heard-decode t f bytes h e network = record {
  frame = (decode-IsFrame bytes f h e).0;
  network = network;
  content = λ p same.
      subst AreBytes (ap payload_of (sym (decode-payload bytes f e) ∙ same))
        (AreBytes-drop frame_hdr bytes h);
}

IsIntact-rx_step :
    (t : Node) (meta : RxMeta) (bytes : List ℕ)
    → IsIntact t
    → AreBytes bytes
    → IsIntact (rx_step t meta bytes)
unfolding rx_step tables
IsIntact-rx_step t meta bytes v h =
    let t1 = record t { stats = record t.stats { frames_rx = incr t.stats.frames_rx } } in
    let v1 = IsIntact-same t t1 refl v in
    IsIntact-option (frame_decode bytes) (drop_frame t1) _ (IsIntact-drop_frame t1 v1) (λ f e.
      IsIntact-test (not (f.net_id == t1.net_id) || f.src == t1.addr) _ _ (λ _. v1)
        (λ ours.
          let heard = Heard-decode t1 f bytes h e (ground (arith, ours)) in
          IsIntact-process_frame (note_hop t1 f meta) f meta.rssi_dbm meta.snr_db t1.now_ms
            (IsIntact-note_hop t1 f meta v1 heard)
            (record {
              frame = heard.frame;
              network = heard.network ∙ sym (ap (λ l. l.1) (label-note_hop t1 f meta));
              content = heard.content;
            })))

-- What the drain of the ring keeps.
abbrev IsFed : Node → Type 0
IsFed t = IsIntact t × IsQueued t

-- One round of the loop, with what the pop gave; `next` is the loop on less fuel.
IsFed-rx_round :
    (fuel : ℕ) (t : Node)
    → IsIntact t
    → ((t' : Node) → IsFed t' → IsFed (rx_loop fuel t'))
    → (popped : Ringbuf × Option (RxMeta × List ℕ)) → IsPopped popped
    → IsFed (rx_round fuel t popped)
unfolding rx_round tables
IsFed-rx_round fuel t v next (rx', none) p = (IsIntact-same t _ refl v, p.left)
IsFed-rx_round fuel t v next (rx', some (meta, bytes)) p =
    let t1 = record t { rx = rx' } in
    next (rx_step t1 meta bytes) (
      IsIntact-rx_step t1 meta bytes (IsIntact-same t t1 refl v) (p.taken (meta, bytes) refl),
      IsQueued-same t1 (rx_step t1 meta bytes) (rx-rx_step t1 meta bytes) p.left,
    )

IsFed-rx_loop : (fuel : ℕ) (t : Node) → IsFed t → IsFed (rx_loop fuel t)
unfolding rx_loop rx_round
IsFed-rx_loop zero t v = v
IsFed-rx_loop (suc fuel) t v =
    IsFed-rx_round fuel t v.0 (IsFed-rx_loop fuel) (Ring.pop t.rx mtu) (IsPopped-pop t.rx mtu v.1)

pub IsFed-rx_drain : (t : Node) → IsFed t → IsFed (rx_drain t)
unfolding rx_drain
IsFed-rx_drain t v = IsFed-rx_loop (Ring.used t.rx + 1) t v

IsIntact-upkeep : (t : Node) → IsIntact t → IsIntact (upkeep t)
unfolding upkeep
IsIntact-upkeep t v = IsIntact-if (is_master t.role) _ _ v (
    IsIntact-if (not (deadline_in (upkeep_due t) t.now_ms == 0)) _ _ v (
      IsIntact-if (not t.connected) _ _ (IsIntact-probe_send t v) (IsIntact-dao_send t t.now_ms v)))

IsIntact-maintain : (t : Node) → IsIntact t → IsIntact (maintain t)
unfolding maintain
IsIntact-maintain t v =
    let expired =
      remove_via-expire-IsValid t.routes 0 t.now_ms route_timeout_ms (IsValid-routes t v) in
    IsIntact-upkeep _
      (IsIntact-expire_reasm _ (IsIntact-age_neighbors _ (IsIntact-routes t _ v expired.2)))

IsIntact-after_drain : (t : Node) → IsIntact t → IsIntact (after_drain t)
unfolding after_drain maintain_if_due tables
IsIntact-after_drain t v =
    let t3 = routing_tick (beacon_tick t t.now_ms) (beacon_tick t t.now_ms).now_ms in
    let v3 = IsIntact-routing_tick _ _ (IsIntact-beacon_tick t t.now_ms v) in
    let v6 = IsIntact-events_flush _ (
      IsIntact-tx_poll _
        (IsIntact-if (next_maint_deadline t3 t3.now_ms == 0) _ _ (IsIntact-maintain t3 v3) v3)) in
    let t6 = events_flush (tx_poll (maintain_if_due t3)) in
    IsIntact-if t6.port.has_timer_arm (note (arm (next_deadline_ms t6 t6.now_ms)) t6) t6
      (IsIntact-note t6 (arm (next_deadline_ms t6 t6.now_ms)) v6 tt) v6

rx-after_drain : (t : Node) → (after_drain t).rx ≡ t.rx
unfolding core
rx-after_drain t = (IsSteady-after_drain t).rx_eq

IsFed-poll_steps : (t : Node) → IsFed t → IsFed (poll_steps t)
unfolding poll_steps read_clock tables
IsFed-poll_steps t v =
    let t1 = rx_drain (read_clock t) in
    let drained = IsFed-rx_drain (read_clock t) (IsIntact-same t (read_clock t) refl v.0, v.1) in
    (
      IsIntact-after_drain t1 drained.0,
      IsQueued-same t1 (after_drain t1) (rx-after_drain t1) drained.1,
    )

IsFed-if : (b : Bool) (x y : Node) → IsFed x → IsFed y → IsFed (if b then x else y)
IsFed-if true x y hx hy = hx
IsFed-if false x y hx hy = hy

-- A poll keeps the instance intact and its ring one of whole records, whatever has come in and whatever
-- the port answers.
pub treenet_poll-IsFed : (t : Node) → IsFed t → IsFed (treenet_poll t)
unfolding treenet_poll
treenet_poll-IsFed t v = IsFed-if (not t.initialized) _ _ v (IsFed-poll_steps t v)
