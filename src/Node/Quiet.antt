-- ===== src/Node/Quiet.antt =====
-- What the operations of src/api/treenet.c and src/link/beacon.c leave alone: the place in the tree
-- and the receive ring.
use treenity.Prelude.{ℕ, zero, suc, ◌≡◌, refl, Bool, true, false, if◌then◌else◌, arith}
use treenity.Timer.{fire}
use treenity.Ring.{Ringbuf}
use treenity.Prelude.Int.{ℤ}
use treenity.Frame.{Frame}
use treenity.Node.State.{Node, Role, Event, EventArg, next_seq, call_rnd}
use treenity.Node.Event.{emit_event, flush_loop, events_flush}
use treenity.Node.Tx.{tx_submit, drop_frame}
use treenity.Node.Control.{send_ack, dao_send, probe_send}
use treenity.Node.Beacon.{beacon_schedule, beacon_reset, beacon_send, beacon_tick}
use treenity.Node.Dao.{dao_install, dao_handle}
use treenity.Node.Reasm.{deliver, reasm_input, reasm_accept, hand_up}
use treenity.Node.Receive.{
  route_next_hop, ack_if_wanted, wants_ack, accept_data, forward_data, handle_data, handle_flood,
  flood_delay,
}

-- The part of an instance that says where it is in the tree, with its receive ring.
pub record Core : Type 0 where
  pub role : Role
  pub parent : ℕ
  pub rank : ℕ
  pub connected : Bool
  pub rx : Ringbuf

unfoldable pub core : Node → Core
core t = record {
  role = t.role;
  parent = t.parent;
  rank = t.rank;
  connected = t.connected;
  rx = t.rx;
}

-- Both branches of a test keep the core.
pub core-if :
    {c : Core} (b : Bool) (x y : Node) → core x ≡ c → core y ≡ c → core (if b then x else y) ≡ c
core-if true x y hx hy = hx
core-if false x y hx hy = hy

pub core-tx_submit :
    (t : Node) (f : Frame) (reliable : Bool) (next_hop delay_ms : ℕ)
    → core (tx_submit t f reliable next_hop delay_ms).0 ≡ core t
unfolding core tx_submit call_rnd
core-tx_submit t f reliable next_hop delay_ms = ground arith

pub core-emit_event : (t : Node) (ev : Event) (arg : EventArg) → core (emit_event t ev arg) ≡ core t
unfolding core emit_event
core-emit_event t ev arg = refl

pub core-send_ack : (t : Node) (to seq : ℕ) → core (send_ack t to seq) ≡ core t
unfolding send_ack core
core-send_ack t to seq = grind (arith, core-tx_submit)

pub core-dao_send : (t : Node) (now : ℕ) → core (dao_send t now) ≡ core t
unfolding dao_send core
core-dao_send t now = grind (arith, core-tx_submit)

pub core-probe_send : (t : Node) → core (probe_send t) ≡ core t
unfolding probe_send core next_seq
core-probe_send t = grind (arith, core-tx_submit)

pub core-beacon_schedule : (t : Node) (now : ℕ) → core (beacon_schedule t now) ≡ core t
unfolding beacon_schedule core call_rnd
core-beacon_schedule t now = ground arith

pub core-beacon_reset : (t : Node) (now : ℕ) → core (beacon_reset t now) ≡ core t
unfolding beacon_reset core
core-beacon_reset t now = grind (arith, core-beacon_schedule)

pub core-beacon_send : (t : Node) (now : ℕ) → core (beacon_send t now) ≡ core t
unfolding beacon_send core next_seq
core-beacon_send t now = grind (arith, core-tx_submit, core-beacon_schedule)

pub core-beacon_tick : (t : Node) (now : ℕ) → core (beacon_tick t now) ≡ core t
unfolding core beacon_tick
core-beacon_tick t now =
    core-if (fire t.beacon_timer now).1 _ _
      (core-beacon_send (record t { beacon_timer = (fire t.beacon_timer now).0 }) now) refl

pub core-deliver : (t : Node) (f : Frame) (rssi snr : ℤ) → core (deliver t f rssi snr) ≡ core t
unfolding deliver reasm_input reasm_accept hand_up core
core-deliver t f rssi snr = grind arith

core-flush_loop : (fuel : ℕ) (t : Node) → core (flush_loop fuel t) ≡ core t
unfolding flush_loop core
core-flush_loop zero t = refl
core-flush_loop (suc fuel) t = grind (arith, core-flush_loop fuel)

pub core-events_flush : (t : Node) → core (events_flush t) ≡ core t
unfolding events_flush core
core-events_flush t = grind (arith, core-flush_loop)

pub core-drop_frame : (t : Node) → core (drop_frame t) ≡ core t
unfolding core
core-drop_frame t = refl

pub core-ack_if_wanted : (t : Node) (f : Frame) → core (ack_if_wanted t f) ≡ core t
core-ack_if_wanted t f = core-if (wants_ack f) _ _ (core-send_ack t f.prev f.seq) refl

pub core-dao_handle : (t : Node) (f : Frame) (now : ℕ) → core (dao_handle t f now).0 ≡ core t
unfolding dao_handle dao_install core next_seq
core-dao_handle t f now = grind (arith, core-tx_submit)

pub core-route_next_hop : (t : Node) (dst : ℕ) → core (route_next_hop t dst).0 ≡ core t
unfolding route_next_hop core
core-route_next_hop t dst = grind arith

pub core-accept_data :
    (t : Node) (f : Frame) (rssi snr : ℤ) (now : ℕ) → core (accept_data t f rssi snr now) ≡ core t
unfolding accept_data core
core-accept_data t f rssi snr now = grind (arith, core-send_ack, core-deliver)

pub core-forward_data : (t : Node) (f : Frame) (now : ℕ) → core (forward_data t f now) ≡ core t
unfolding forward_data core
core-forward_data t f now = grind (arith, core-tx_submit, core-route_next_hop, core-send_ack)

pub core-handle_data :
    (t : Node) (f : Frame) (rssi snr : ℤ) (now : ℕ) → core (handle_data t f rssi snr now) ≡ core t
unfolding handle_data core
core-handle_data t f rssi snr now =
    grind (arith, core-accept_data, core-forward_data, core-send_ack)

pub core-handle_flood :
    (t : Node) (f : Frame) (rssi snr : ℤ) (now : ℕ) → core (handle_flood t f rssi snr now) ≡ core t
unfolding handle_flood flood_delay call_rnd core
core-handle_flood t f rssi snr now = grind (arith, core-deliver, core-tx_submit)
