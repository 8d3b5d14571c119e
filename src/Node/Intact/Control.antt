-- ===== src/Node/Intact/Control.antt =====
-- Queueing frames and sending control frames keep the tables intact: src/api/treenet.c,
-- src/link/beacon.c and tn_dao_send of src/routing/routing.c.
use treenity.Prelude.{
  ℕ, ◌*◌, ◌≤◌, ◌≡◌, refl, ◌∙◌, Bool, true, false, List, some, arith, length, length-blit, min,
  find_index, Option-cases, inl, inr, ◌+◌, ◌<◌, ◌≢◌, ◌==◌, ◌||◌, ap, sym,
}
use treenity.Prelude.Word.{u32, u16}
use treenity.Config.{
  mtu, addr_broadcast, beacon_min_ms, beacon_max_ms, addr_invalid, protocol_version,
}
use treenity.Timer.{fire}
use treenity.Util.{put_u16, put_u32}
use treenity.Frame.{
  Frame, frame_encode, payload_bytes, frame_decode, frame_overhead, beacon_encode, dao_encode,
}
use treenity.Frame.RoundTrip.{IsFrame, decode-encode}
use treenity.Node.State.{Node, call_rnd, next_seq}
use treenity.Node.Tx.{tx_submit, is_free, stamped, slot, drop_frame}
use treenity.Node.Control.{is_queued, dao_frame, send_ack, dao_send, probe_send, is_master}
use treenity.Node.Beacon.{beacon_frame, beacon_schedule, beacon_reset, beacon_send, beacon_tick}
use treenity.Frame.Bytes.{Byte, Word, Long}
use treenity.Node.Queued.{stored}
use treenity.Node.Intact.{IsAir, IsIntact, HasNames, names, tables, IsIntact-same, IsSlot-get_or}
use treenity.Node.Intact.Change.{
  IsIntact-if, IsIntact-test, IsIntact-set_slot, IsIntact-seq, IsIntact-trickle,
}

pub frame_encode-fits :
    (f : Frame) (bytes : List ℕ)
    → frame_encode mtu f ≡ some bytes
    → frame_overhead + f.payload_len ≤ mtu
unfolding frame_encode
frame_encode-fits f bytes e = ground arith

-- A frame that is encoded fits the MTU, and its bytes decode to it.
frame_encode-IsAir :
    (f : Frame) (bytes : List ℕ)
    → IsFrame f
    → frame_encode mtu f ≡ some bytes
    → (length bytes ≤ mtu) × IsAir f.prev f.net_id bytes
frame_encode-IsAir f bytes v e =
    let small = frame_encode-fits f bytes e in
    let (bs, g, enc, len, dec, same) = decode-encode mtu f v small small in
    let eq : bytes ≡ bs = ground (arith, e, enc) in
    (
      omega (arith, ap length eq, len, small),
      record {
        frame = g;
        decodes = ap frame_decode eq ∙ dec;
        hop = ap (λ h. h.prev) same.header;
        network = ap (λ h. h.net_id) same.header;
      },
    )

-- A frame that the node may submit: well formed once it is stamped, and of the node's network.
pub record IsMine (t : Node) (f : Frame) : Type 0 where
  pub frame : IsFrame (stamped t f)
  pub network : f.net_id ≡ t.net_id

pub IsIntact-drop_frame : (t : Node) → IsIntact t → IsIntact (drop_frame t)
unfolding tables
IsIntact-drop_frame t = IsIntact-same t _ refl

pub IsIntact-call_rnd : (t : Node) → IsIntact t → IsIntact (call_rnd t).0
unfolding call_rnd tables
IsIntact-call_rnd t = IsIntact-same t _ refl

pub IsIntact-next_seq : (t : Node) → IsIntact t → IsIntact (next_seq t).0
unfolding next_seq
IsIntact-next_seq t v = IsIntact-seq t (u16 (t.seq + 1)) v (omega arith)

pub IsIntact-tx_submit :
    (t : Node) (f : Frame) (reliable : Bool) (next_hop delay_ms : ℕ)
    → IsIntact t
    → IsMine t f
    → IsIntact (tx_submit t f reliable next_hop delay_ms).0
unfolding tx_submit call_rnd
IsIntact-tx_submit t f reliable next_hop delay_ms v mine =
    elim (Option-cases (find_index is_free t.tx)) [
      | inl e ↦ rw (e, tx_submit) (IsIntact-drop_frame t v)
      | inr (i, e) ↦ elim (Option-cases (frame_encode mtu (stamped t f))) [
        | inl enc ↦ rw (e, enc, tx_submit) v
        | inr (bytes, enc) ↦
            let (small, air) = frame_encode-IsAir (stamped t f) bytes mine.frame enc in
            let size = (IsSlot-get_or t i v).size in
            rw (e, enc, tx_submit)
              (IsIntact-set_slot (call_rnd t).0 i _ (IsIntact-call_rnd t v) (record {
                size = length-blit (slot t i).buf 0 bytes ∙ size;
                len = omega (arith, small);
                attempts = omega arith;
                holds = λ _.
                    let same =
                      stored (slot t i).buf bytes (omega (arith, small, size))
                        (omega (arith, small)) in
                    rw (same, sym mine.network) air;
              }))
      ]
    ]

-- A frame that the node makes itself.
pub made :
    (t : Node) (f : Frame)
    → HasNames t
    → f.version ≡ protocol_version
    → (f.type < 16) × Byte f.flags × Byte f.hop_limit × Byte f.sec
    → Long f.src × (f.src ≢ addr_invalid) × (f.src ≢ addr_broadcast)
    → Long f.dst × (f.dst ≢ addr_invalid)
    → Word f.seq
    → f.net_id ≡ t.net_id
    → length (payload_bytes f.payload f.payload_len) ≡ f.payload_len
    → IsMine t f
made t f n version (type, flags, hop_limit, sec) src dst seq net bytes = record {
  frame = record {
    version = version;
    type = type;
    flags = flags;
    src = src.0;
    dst = dst.0;
    seq = seq;
    net_id = omega (arith, net, n.net);
    hop_limit = hop_limit;
    sec = sec;
    prev = n.own.0;
    from_node = (src.1, src.2, dst.1);
    bytes = bytes;
  };
  network = net;
}

-- The same after the sequence number has been drawn.
pub numbered :
    (t : Node) (f : Frame) (reliable : Bool) (next_hop : ℕ)
    → IsIntact t
    → IsMine t f
    → IsIntact (tx_submit (next_seq t).0 f reliable next_hop 0).0
unfolding next_seq
numbered t f reliable next_hop v mine =
    IsIntact-tx_submit (next_seq t).0 f reliable next_hop 0 (IsIntact-next_seq t v)
      (record { frame = mine.frame; network = mine.network })

pub IsIntact-send_ack :
    (t : Node) (to seq : ℕ) → IsIntact t → Long to → Word seq → IsIntact (send_ack t to seq)
unfolding send_ack
IsIntact-send_ack t to seq v long word =
    IsIntact-test (to == addr_invalid || to == addr_broadcast) _ _ (λ _. v)
      (λ given. IsIntact-tx_submit t _ false to 0 v (
        made t _ (names t v) refl (omega arith, omega arith, omega arith, omega arith)
          (names t v).own (long, ground (arith, given)) word refl refl))

pub IsIntact-dao_send : (t : Node) (now : ℕ) → IsIntact t → IsIntact (dao_send t now)
unfolding dao_send next_seq tables dao_encode put_u32
IsIntact-dao_send t now v =
    let n = names t v in
    let f = dao_frame t t.addr t.addr 0 t.seq in
    let sent = tx_submit (next_seq t).0 f true t.parent 0 in
    IsIntact-test (is_master t.role || t.parent == addr_invalid) _ _ (λ _. v)
      (λ given.
        let w = numbered t f true t.parent v (
          made t f n refl (omega arith, omega arith, omega arith, omega arith) n.own
            (n.parent, ground (arith, given)) n.seq refl refl) in
        IsIntact-if (is_queued sent.1) _ _
          (IsIntact-same sent.0 (record sent.0 { dao_last_ms = now }) refl w) w)

pub IsIntact-probe_send : (t : Node) → IsIntact t → IsIntact (probe_send t)
unfolding probe_send next_seq tables
IsIntact-probe_send t v =
    let n = names t v in
    IsIntact-same _ _ refl (
      numbered t _ false addr_broadcast v (
        made t _ n refl (omega arith, omega arith, omega arith, omega arith) n.own
          (omega arith, omega arith) n.seq refl refl))

pub IsIntact-beacon_schedule : (t : Node) (now : ℕ) → IsIntact t → IsIntact (beacon_schedule t now)
unfolding beacon_schedule tables
IsIntact-beacon_schedule t now v = IsIntact-same _ _ refl (IsIntact-call_rnd t v)

pub IsIntact-beacon_reset : (t : Node) (now : ℕ) → IsIntact t → IsIntact (beacon_reset t now)
unfolding beacon_reset
IsIntact-beacon_reset t now v =
    IsIntact-beacon_schedule (record t { trickle_I = beacon_min_ms }) now
      (IsIntact-trickle t beacon_min_ms v (omega arith) (omega arith))

doubled :
    (t : Node)
    → IsIntact t
    → IsIntact (record t { trickle_I = min (u32 (t.trickle_I * 2)) beacon_max_ms })
unfolding IsIntact
doubled t v = IsIntact-trickle t _ v (omega (arith, v.trickle)) (omega arith)

pub IsIntact-beacon_send : (t : Node) (now : ℕ) → IsIntact t → IsIntact (beacon_send t now)
unfolding beacon_send next_seq tables beacon_encode put_u16 put_u32
IsIntact-beacon_send t now v =
    let n = names t v in
    let f = beacon_frame t t.seq in
    let w = numbered t f false addr_broadcast v (
      made t f n refl (omega arith, omega arith, omega arith, omega arith) n.own
        (omega arith, omega arith) n.seq refl refl) in
    IsIntact-beacon_schedule _ now (
      doubled _ (
        IsIntact-if (is_queued (tx_submit (next_seq t).0 f false addr_broadcast 0).1) _ _
          (IsIntact-same _ _ refl w) w))

pub IsIntact-beacon_tick : (t : Node) (now : ℕ) → IsIntact t → IsIntact (beacon_tick t now)
unfolding beacon_tick tables
IsIntact-beacon_tick t now v =
    let w = IsIntact-same t (record t { beacon_timer = (fire t.beacon_timer now).0 }) refl v in
    IsIntact-if (fire t.beacon_timer now).1 _ _ (IsIntact-beacon_send _ now w) w
