-- ===== src/Node/Drain.antt =====
-- The receive path of src/api/treenet.c: tn_rx_drain empties the ring, and keeps the node's place
-- consistent.
use treenity.Prelude.{
  ℕ, zero, suc, ◌+◌, ◌<◌, ◌≡◌, refl, not, ◌&&◌, ◌||◌, List, Option, none, some, arith, ◌==◌,
  is_some,
}
use treenity.Prelude.Int.{ℤ}
use treenity.Config.{mtu, addr_broadcast, addr_invalid}
use treenity.Neighbor
use treenity.Neighbor.{NeighborTable}
use treenity.Ring
use treenity.Ring.{Ringbuf, RxMeta}
use treenity.Frame.{Frame, beacon_decode, frame_decode}
use treenity.Node.State.{Node, Stats, neighbor_added, null}
use treenity.Node.Tx.{drop_frame}
use treenity.Node.Control.{frame_beacon, frame_dao, frame_ack, frame_probe, frame_data, frame_flood}
use treenity.Node.Dao.{dao_handle}
use treenity.Node.Receive.{
  process_beacon, process_dao, process_frame, note_hop, rx_step, rx_loop, rx_drain, bad_beacon,
  wants_ack,
}
use treenity.Node.Quiet.{
  core, core-emit_event, core-send_ack, core-beacon_send, core-drop_frame, core-dao_handle,
  core-handle_data, core-handle_flood,
}
use treenity.Node.Place.{IsSteady, IsSteady-eq, IsSteady-trans, IsSteady-if}
use treenity.Node.Steady.{IsSteady-option, IsSteady-on_beacon, IsSteady-handle_ack}

core-stats : (t : Node) (s : Stats) → core (record t { stats = s }) ≡ core t
unfolding core
core-stats t s = refl

core-neighbors : (t : Node) (n : NeighborTable) → core (record t { neighbors = n }) ≡ core t
unfolding core
core-neighbors t n = refl

IsSteady-process_beacon :
    (t : Node) (f : Frame) (rssi snr : ℤ) (now : ℕ)
    → IsSteady (core t) (core (process_beacon t f rssi snr now))
unfolding process_beacon
IsSteady-process_beacon t f rssi snr now =
    IsSteady-option (beacon_decode f.payload f.payload_len) t (drop_frame t) _
      (IsSteady-eq _ _ (core-drop_frame t))
      (λ b. IsSteady-if (bad_beacon f b) t _ _ (IsSteady-eq _ _ (core-drop_frame t)) (
        IsSteady-trans _ _ _ (IsSteady-eq _ _ (core-stats t _))
          (IsSteady-on_beacon _ f.src b.rank b.parent b.flags b.interval_100ms rssi snr now)))

IsSteady-process_dao :
    (t : Node) (f : Frame) (now : ℕ) → IsSteady (core t) (core (process_dao t f now))
unfolding process_dao
IsSteady-process_dao t f now =
    IsSteady-if (f.dst == t.addr || f.dst == addr_broadcast) t _ _
      (IsSteady-trans _ _ _ (IsSteady-eq _ _ (core-dao_handle t f now)) (
        IsSteady-if ((dao_handle t f now).1 && wants_ack f) _ _ _
          (IsSteady-eq _ _ (core-send_ack _ f.prev f.seq)) (IsSteady-eq _ _ refl)))
      (IsSteady-eq _ _ refl)

pub IsSteady-process_frame :
    (t : Node) (f : Frame) (rssi snr : ℤ) (now : ℕ)
    → IsSteady (core t) (core (process_frame t f rssi snr now))
unfolding process_frame
IsSteady-process_frame t f rssi snr now =
    IsSteady-if (f.type == frame_beacon) t _ _ (IsSteady-process_beacon t f rssi snr now) (
      IsSteady-if (f.type == frame_dao) t _ _ (IsSteady-process_dao t f now) (
        IsSteady-if (f.type == frame_ack) t _ _
          (IsSteady-if (f.dst == t.addr) t _ _ (IsSteady-handle_ack t f) (IsSteady-eq _ _ refl))
          (IsSteady-if (f.type == frame_probe) t _ _ (IsSteady-eq _ _ (core-beacon_send t now)) (
            IsSteady-if (f.type == frame_data) t _ _
              (IsSteady-eq _ _ (core-handle_data t f rssi snr now))
              (IsSteady-if (f.type == frame_flood) t _ _
                (IsSteady-eq _ _ (core-handle_flood t f rssi snr now))
                (IsSteady-eq _ _ (core-drop_frame t)))))))

IsSteady-note_hop :
    (t : Node) (f : Frame) (meta : RxMeta) → IsSteady (core t) (core (note_hop t f meta))
unfolding note_hop
IsSteady-note_hop t f meta =
    IsSteady-if (f.prev == t.addr || f.prev == addr_invalid) t _ _ (IsSteady-eq _ _ refl) (
      IsSteady-trans _ _ _ (IsSteady-eq _ _ (core-neighbors t _)) (
        IsSteady-if (not (is_some (Neighbor.find t.neighbors f.prev))) _ _ _
          (IsSteady-eq _ _ (core-emit_event _ neighbor_added null)) (IsSteady-eq _ _ refl)))

pub IsSteady-rx_step :
    (t : Node) (meta : RxMeta) (bytes : List ℕ) → IsSteady (core t) (core (rx_step t meta bytes))
unfolding rx_step
IsSteady-rx_step t meta bytes = IsSteady-trans _ _ _ (IsSteady-eq _ _ (core-stats t _)) (
    IsSteady-option (frame_decode bytes) _ _ _ (IsSteady-eq _ _ (core-drop_frame _)) (λ f.
      IsSteady-if (not (f.net_id == t.net_id) || f.src == t.addr) _ _ _ (IsSteady-eq _ _ refl) (
        IsSteady-trans _ _ _ (IsSteady-note_hop _ f meta)
          (IsSteady-process_frame _ f meta.rssi_dbm meta.snr_db t.now_ms))))

-- A record taken leaves fewer bytes in the ring.
used-pop :
    (rb rb' : Ringbuf) (max : ℕ) (m : RxMeta) (bytes : List ℕ)
    → Ring.pop rb max ≡ (rb', some (m, bytes))
    → Ring.used rb' < Ring.used rb
unfolding Ring.pop Ring.used
used-pop rb rb' max m bytes e = ground arith

-- A ring with nothing to take has nothing to take afterwards.
pop_idle :
    (rb rb' : Ringbuf) (max : ℕ) → Ring.pop rb max ≡ (rb', none) → (Ring.pop rb' max).1 ≡ none
unfolding Ring.pop
pop_idle rb rb' max e = ground arith

pub rx-rx_step : (t : Node) (meta : RxMeta) (bytes : List ℕ) → (rx_step t meta bytes).rx ≡ t.rx
unfolding core
rx-rx_step t meta bytes = (IsSteady-rx_step t meta bytes).rx_eq

-- The loop's body, with what the pop gave.
unfoldable pub rx_round : ℕ → Node → Ringbuf × Option (RxMeta × List ℕ) → Node
rx_round fuel t (rx', none) = record t { rx = rx' }
rx_round fuel t (rx', some (meta, bytes)) =
    rx_loop fuel (rx_step (record t { rx = rx' }) meta bytes)

-- One round of the loop, with what the pop gave; `next` is the loop on less fuel.
drained_step :
    (fuel : ℕ) (t : Node)
    → Ring.used t.rx < suc fuel
    → ((t' : Node) → Ring.used t'.rx < fuel → (Ring.pop (rx_loop fuel t').rx mtu).1 ≡ none)
    → (popped : Ringbuf × Option (RxMeta × List ℕ)) → Ring.pop t.rx mtu ≡ popped
    → (Ring.pop (rx_round fuel t popped).rx mtu).1 ≡ none
unfolding rx_round
drained_step fuel t h next (rx', none) e = pop_idle t.rx rx' mtu e
drained_step fuel t h next (rx', some (meta, bytes)) e =
    next (rx_step (record t { rx = rx' }) meta bytes) (
      ground (
        arith,
        h,
        used-pop t.rx rx' mtu meta bytes e,
        rx-rx_step (record t { rx = rx' }) meta bytes,
      ))

rx_loop-drained :
    (fuel : ℕ) (t : Node) → Ring.used t.rx < fuel → (Ring.pop (rx_loop fuel t).rx mtu).1 ≡ none
unfolding rx_loop rx_round
rx_loop-drained zero t h = absurd (omega (arith, h))
rx_loop-drained (suc fuel) t h =
    drained_step fuel t h (rx_loop-drained fuel) (Ring.pop t.rx mtu) refl

-- At the end of tn_rx_drain the ring has no record that could be taken: the loop ends because the
-- ring is drained.
pub rx_drain-drained : (t : Node) → (Ring.pop (rx_drain t).rx mtu).1 ≡ none
unfolding rx_drain
rx_drain-drained t = rx_loop-drained (Ring.used t.rx + 1) t (omega arith)
