-- ===== src/Node/Intact/Forward.antt =====
-- The data plane of src/api/treenet.c keeps an instance intact: accepting, forwarding and flooding.
use treenity.Prelude.{ℕ, ◌≡◌, ap, ◌∙◌, false, not, ◌||◌, ◌==◌, leb, arith, length-set, is_some, sym}
use treenity.Prelude.Int.{ℤ}
use treenity.Config.{addr_invalid, addr_broadcast, route_timeout_ms}
use treenity.Frame.{Frame}
use treenity.Dupcache
use treenity.Dupcache.{Dupcache, check}
use treenity.Neighbor
use treenity.Routes
use treenity.Routes.Stale.{lookup-IsValid}
use treenity.Node.State.{Node, call_rnd}
use treenity.Node.Tx.{tx_submit}
use treenity.Node.Control.{is_queued}
use treenity.Node.Beacon.{is_leaf}
use treenity.Node.Reasm.{hand_up, reasm_accept, reasm_input, deliver}
use treenity.Node.Receive.{
  route_next_hop, wants_ack, ack_if_wanted, one_hop_less, accept_data, forward_data, handle_data,
  flood_delay, handle_flood, is_repeater,
}
use treenity.Node.Intact.{IsIntact, IsValid-routes, length-dup, HasNames, names, label}
use treenity.Node.Intact.Change.{
  IsIntact-if, IsIntact-pair, IsIntact-option_pair, IsIntact-dup, IsIntact-routes,
}
use treenity.Frame.RoundTrip.{IsFrame}
use treenity.Node.Intact.Control.{
  IsIntact-tx_submit, IsIntact-drop_frame, IsIntact-call_rnd, IsIntact-send_ack, IsMine,
}
use treenity.Node.Intact.Data.{Heard, IsIntact-deliver}

-- It may be passed on.
pub IsMine-one_hop_less :
    (t t' : Node) (f : Frame)
    → Heard t f
    → HasNames t'
    → label t' ≡ label t
    → IsMine t' (one_hop_less f)
IsMine-one_hop_less t t' f h n e = record {
  frame = record {
    version = h.frame.version;
    type = h.frame.type;
    flags = h.frame.flags;
    src = h.frame.src;
    dst = h.frame.dst;
    seq = h.frame.seq;
    net_id = h.frame.net_id;
    hop_limit = omega (arith, h.frame.hop_limit);
    sec = h.frame.sec;
    prev = n.own.0;
    from_node = h.frame.from_node;
    bytes = h.frame.bytes;
  };
  network = h.network ∙ sym (ap (λ l. l.1) e);
}

pub label-route_next_hop : (t : Node) (dst : ℕ) → label (route_next_hop t dst).0 ≡ label t
unfolding route_next_hop
label-route_next_hop t dst = ground arith

pub label-deliver : (t : Node) (f : Frame) (rssi snr : ℤ) → label (deliver t f rssi snr) ≡ label t
unfolding deliver reasm_input reasm_accept hand_up
label-deliver t f rssi snr = grind arith

pub label-flood_delay : (t : Node) (snr : ℤ) → label (flood_delay t snr).0 ≡ label t
unfolding flood_delay call_rnd
label-flood_delay t snr = ground arith

pub IsIntact-route_next_hop : (t : Node) (dst : ℕ) → IsIntact t → IsIntact (route_next_hop t dst).0
unfolding route_next_hop
IsIntact-route_next_hop t dst v =
    let found = Routes.lookup t.routes dst t.now_ms route_timeout_ms in
    let w =
      IsIntact-routes t found.0 v
        (lookup-IsValid t.routes dst t.now_ms route_timeout_ms (IsValid-routes t v)) in
    IsIntact-pair (dst == t.addr) _ _ v (
      IsIntact-pair (is_some (Neighbor.find t.neighbors dst)) _ _ v
        (IsIntact-option_pair found.1 _ _ w (λ _ _. w)))

IsIntact-ack_if_wanted :
    (t : Node) (f : Frame) → IsIntact t → IsFrame f → IsIntact (ack_if_wanted t f)
IsIntact-ack_if_wanted t f v h =
    IsIntact-if (wants_ack f) _ _ (IsIntact-send_ack t f.prev f.seq v h.prev h.seq) v

-- A frame that is remembered.
pub IsIntact-mark :
    (t : Node) (src seq now : ℕ)
    → IsIntact t
    → IsIntact (record t { dup = Dupcache.mark t.dup src seq now })
unfolding Dupcache.mark
IsIntact-mark t src seq now v = IsIntact-dup t _ v (length-set t.dup.entries _ _ ∙ length-dup t v)

IsIntact-accept_data :
    (t : Node) (f : Frame) (rssi snr : ℤ) (now : ℕ)
    → IsIntact t
    → Heard t f
    → IsIntact (accept_data t f rssi snr now)
unfolding accept_data Dupcache.seen
IsIntact-accept_data t f rssi snr now v h =
    let v1 = IsIntact-ack_if_wanted _ f (IsIntact-mark t f.src f.seq now v) h.frame in
    IsIntact-if (not (Dupcache.check t.dup f.src f.seq now)) _ _ (IsIntact-deliver _ f rssi snr v1)
      v1

IsIntact-forward_data :
    (t : Node) (f : Frame) (now : ℕ) → IsIntact t → Heard t f → IsIntact (forward_data t f now)
unfolding forward_data
IsIntact-forward_data t f now v h =
    let hop = route_next_hop t f.dst in
    let v1 = IsIntact-route_next_hop t f.dst v in
    let sent = tx_submit hop.0 (one_hop_less f) (wants_ack f) hop.1 0 in
    let v2 =
      IsIntact-tx_submit hop.0 (one_hop_less f) (wants_ack f) hop.1 0 v1
        (IsMine-one_hop_less t hop.0 f h (names hop.0 v1) (label-route_next_hop t f.dst)) in
    IsIntact-if (hop.1 == addr_invalid) _ _ (IsIntact-drop_frame hop.0 v1) (
      IsIntact-if (not (is_queued sent.1)) _ _ (IsIntact-drop_frame sent.0 v2)
        (IsIntact-ack_if_wanted _ f (IsIntact-mark sent.0 f.src f.seq now v2) h.frame))

pub IsIntact-handle_data :
    (t : Node) (f : Frame) (rssi snr : ℤ) (now : ℕ)
    → IsIntact t
    → Heard t f
    → IsIntact (handle_data t f rssi snr now)
unfolding handle_data
IsIntact-handle_data t f rssi snr now v h =
    IsIntact-if (f.dst == t.addr) _ _ (IsIntact-accept_data t f rssi snr now v h) (
      IsIntact-if (is_leaf t.role) _ _ v (
        IsIntact-if (Dupcache.check t.dup f.src f.seq now) _ _
          (IsIntact-ack_if_wanted t f v h.frame)
          (IsIntact-if (leb f.hop_limit 1) _ _ (IsIntact-drop_frame t v)
            (IsIntact-forward_data t f now v h))))

pub IsIntact-flood_delay : (t : Node) (snr : ℤ) → IsIntact t → IsIntact (flood_delay t snr).0
unfolding flood_delay
IsIntact-flood_delay t snr v = IsIntact-pair (is_repeater t.role) _ _ v (IsIntact-call_rnd t v)

pub IsIntact-handle_flood :
    (t : Node) (f : Frame) (rssi snr : ℤ) (now : ℕ)
    → IsIntact t
    → Heard t f
    → IsIntact (handle_flood t f rssi snr now)
unfolding handle_flood Dupcache.seen
IsIntact-handle_flood t f rssi snr now v h =
    let v0 = IsIntact-mark t f.src f.seq now v in
    let t1 = deliver (record t { dup = Dupcache.mark t.dup f.src f.seq now }) f rssi snr in
    let v1 = IsIntact-deliver _ f rssi snr v0 in
    let v2 = IsIntact-flood_delay t1 snr v1 in
    IsIntact-if (Dupcache.check t.dup f.src f.seq now) _ _ v0 (
      IsIntact-if (is_leaf t1.role || leb f.hop_limit 1) _ _ v1 (
        IsIntact-tx_submit (flood_delay t1 snr).0 (one_hop_less f) false addr_broadcast _ v2 (
          IsMine-one_hop_less t (flood_delay t1 snr).0 f h (names _ v2)
            (label-flood_delay t1 snr ∙ label-deliver _ f rssi snr))))
