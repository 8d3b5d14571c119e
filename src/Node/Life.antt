-- ===== src/Node/Life.antt =====
-- Every instance that the calls of src/api/treenet.c can lead to.
use treenity.Prelude.{
  ℕ, zero, suc, ◌+◌, ◌≡◌, ◌≤◌, refl, ap, Bool, true, false, not, ◌||◌, List, [], some, ◌==◌, arith,
  length, ltb, if◌then◌else◌, Bool-cases, inl, inr, replicate, length-replicate,
}
use treenity.Prelude.Int.{ℤ, pos, negsuc, ◌≤ℤ◌}
use treenity.Config.{mtu, rx_ring_bytes, addr_broadcast}
use treenity.Ring
use treenity.Ring.{Ringbuf, RxMeta}
use treenity.Ring.Queue.{IsRecord}
use treenity.Ring.Refine.{init-Holds}
use treenity.Node.State.{Node, Config, Port, World, next_seq, call_rnd}
use treenity.Node.Tx.{tx_submit}
use treenity.Node.Receive.{route_next_hop}
use treenity.Node.Lifecycle.{read_clock, blank, start_up, treenet_init}
use treenity.Node.Poll.{treenet_poll, treenet_rx}
use treenity.Node.Send.{
  frag_frame, send_single, send_frags, send_fragmented, send_via, send_datagram, treenet_send,
  treenet_broadcast,
}
use treenity.Node.Place.{IsSteady-select_parent}
use treenity.Node.Quiet.{core, core-probe_send, core-tx_submit, core-route_next_hop}
use treenity.Node.Invariant.{
  is_consistent, treenet_init-is_consistent, treenet_poll-is_consistent, treenet_rx-is_consistent,
  attached-is_consistent,
}
use treenity.Node.Intact.{IsIntact}
use treenity.Node.Intact.Poll.{treenet_poll-IsFed}
use treenity.Node.Intact.Pending.{IsQueued, IsQueued-same, HoldsBytes-push}
use treenity.Frame.Bytes.{Word, Long}
use treenity.Frame.Integrity.{AreBytes}
use treenity.Node.Intact.Calls.{
  treenet_init-IsIntact, treenet_rx-IsIntact, treenet_send-IsIntact, treenet_broadcast-IsIntact,
  IsIntact-attached,
}

-- What an instance can have become: it starts, the interrupt hands it frames, the application sends and
-- polls, in any order, and the world around it changes.
pub data Life (cfg : Config) : Node → Type 0 where
  start : (port : Port) (t : Node) → treenet_init cfg port ≡ some t → Life cfg t
  receive :
      {t : Node}
      → Life cfg t
      → (bytes : List ℕ) (rssi snr : ℤ) → (negsuc 32767 ≤ℤ rssi) × (rssi ≤ℤ pos 32767)
      → (negsuc 127 ≤ℤ snr) × (snr ≤ℤ pos 127)
      → AreBytes bytes
      → Life cfg (treenet_rx t bytes rssi snr).0
  poll : {t : Node} → Life cfg t → Life cfg (treenet_poll t)
  send :
      {t : Node}
      → Life cfg t
      → (dst : ℕ) (bytes : List ℕ) → Long dst
      → Life cfg (treenet_send t dst bytes).0
  broadcast : {t : Node} → Life cfg t → (bytes : List ℕ) → Life cfg (treenet_broadcast t bytes).0
  attach :
      {t : Node}
      → Life cfg t
      → (port : Port) (world : World) → world.effects ≡ []
      → Life cfg (record t { port = port; world = world })

core-send_single :
    (t : Node) (flood reliable : Bool) (dst nh : ℕ) (bytes : List ℕ)
    → core (send_single t flood reliable dst nh bytes).0 ≡ core t
unfolding send_single next_seq core
core-send_single t flood reliable dst nh bytes = grind (arith, core-tx_submit)

core-send_frags :
    (left : ℕ) (t : Node) (flood reliable : Bool) (dst nh : ℕ) (bytes : List ℕ)
    (dgram_id count i : ℕ)
    → core (send_frags left t flood reliable dst nh bytes dgram_id count i).0 ≡ core t
unfolding send_frags next_seq core
core-send_frags zero t flood reliable dst nh bytes dgram_id count i = refl
core-send_frags (suc left) t flood reliable dst nh bytes dgram_id count i =
    let f = frag_frame t flood reliable dst (next_seq t).1 bytes dgram_id count i in
    let sent = tx_submit (next_seq t).0 f reliable nh 0 in
    ground (
      arith,
      core-tx_submit (next_seq t).0 f reliable nh 0,
      core-send_frags left sent.0 flood reliable dst nh bytes dgram_id count (i + 1),
    )

core-send_via :
    (t : Node) (flood : Bool) (dst nh : ℕ) (bytes : List ℕ)
    → core (send_via t flood dst nh bytes).0 ≡ core t
unfolding send_via send_fragmented next_seq core
core-send_via t flood dst nh bytes = grind (arith, core-send_single, core-send_frags)

core-send_datagram :
    (t : Node) (dst : ℕ) (bytes : List ℕ) (flood : Bool)
    → core (send_datagram t dst bytes flood).0 ≡ core t
unfolding send_datagram
core-send_datagram t dst bytes flood =
    let hop = route_next_hop t dst in
    ground (
      arith,
      core-send_via t true dst addr_broadcast bytes,
      core-send_via hop.0 false dst hop.1 bytes,
      core-route_next_hop t dst,
    )

pub core-treenet_broadcast :
    (t : Node) (bytes : List ℕ) → core (treenet_broadcast t bytes).0 ≡ core t
unfolding treenet_broadcast
core-treenet_broadcast t bytes = ground (arith, core-send_datagram t addr_broadcast bytes true)

pub core-treenet_send :
    (t : Node) (dst : ℕ) (bytes : List ℕ) → core (treenet_send t dst bytes).0 ≡ core t
unfolding treenet_send
core-treenet_send t dst bytes =
    ground (arith, core-send_datagram t dst bytes false, core-treenet_broadcast t bytes)

rx-core : (t t' : Node) → core t' ≡ core t → t'.rx ≡ t.rx
unfolding core
rx-core t t' e = ap (λ c. c.rx) e

IsQueued-treenet_rx :
    (t : Node) (bytes : List ℕ) (rssi snr : ℤ)
    → (negsuc 32767 ≤ℤ rssi) × (rssi ≤ℤ pos 32767)
    → (negsuc 127 ≤ℤ snr) × (snr ≤ℤ pos 127)
    → AreBytes bytes
    → IsQueued t
    → IsQueued (treenet_rx t bytes rssi snr).0
unfolding treenet_rx
IsQueued-treenet_rx t bytes rssi snr hr hs octets v =
    let m : RxMeta = record { len = length bytes; rssi_dbm = rssi; snr_db = snr } in
    elim (Bool-cases (not t.initialized || length bytes == 0 || ltb mtu (length bytes))) [
      | inl bad ↦ rw (bad, treenet_rx) v
      | inr good ↦
          let small : length bytes ≤ mtu = ground (arith, good) in
          let ok : IsRecord (m, bytes) = record {
            len = omega (arith, small);
            bytes = refl;
            rssi = hr;
            snr = hs;
          } in
          rw (good, treenet_rx) (HoldsBytes-push t.rx m bytes v ok octets)
    ]

rx-if : (r : Ringbuf) (b : Bool) (x y : Node) → x.rx ≡ r → y.rx ≡ r → (if b then x else y).rx ≡ r
rx-if r true x y hx hy = hx
rx-if r false x y hx hy = hy

rx-start_up :
    (cfg : Config) (port : Port)
    → (start_up cfg port).rx ≡ Ring.init (replicate rx_ring_bytes 0) rx_ring_bytes
unfolding start_up core read_clock call_rnd blank
rx-start_up cfg port =
    rx-if _ _ _ _ (IsSteady-select_parent _ _).rx_eq (ap (λ c. c.rx) (core-probe_send _))

IsQueued-treenet_init :
    (cfg : Config) (port : Port) (t : Node) → treenet_init cfg port ≡ some t → IsQueued t
unfolding treenet_init
IsQueued-treenet_init cfg port t e =
    let same : t ≡ start_up cfg port = ground (arith, e) in
    let empty = init-Holds (replicate rx_ring_bytes 0) (length-replicate {A = ℕ} rx_ring_bytes 0) in
    ([], rw (same, rx-start_up cfg port) empty, tt)

-- What is true of an instance between any two calls.
pub record IsSound (t : Node) : Type 0 where
  pub tables : IsIntact t
  pub place : is_consistent t ≡ true
  pub ring : IsQueued t

pub is_consistent-same :
    (t t' : Node) → core t' ≡ core t → is_consistent t ≡ true → is_consistent t' ≡ true
unfolding is_consistent
is_consistent-same t t' e v = rw e v

-- Between any two calls, in whatever order they come and whatever the port answers, an instance is
-- sound, if the address and the network of its configuration fit their C types. Its tables are intact:
-- their sizes and counters are right, no neighbour is listed twice, every slot of the transmission queue
-- holds at most the MTU and has been tried at most three times, the event queue is one of at most 16
-- events, and the beacon interval is within its bounds. Every frame that it has queued or handed to the
-- modem decodes, to a frame of its network and from its address as the hop. It is connected with a
-- finite rank, or detached without a parent and with an infinite rank. Its receive ring holds whole
-- records and nothing else. What comes in consists of bytes, with a signal in the range of its C type.
pub Life-IsSound :
    (cfg : Config) → Long cfg.addr → Word cfg.net_id → {t : Node} → Life cfg t → IsSound t
Life-IsSound cfg long word (start port t e) = record {
  tables = treenet_init-IsIntact cfg port t long word e;
  place = treenet_init-is_consistent cfg port t e;
  ring = IsQueued-treenet_init cfg port t e;
}
Life-IsSound cfg long word (receive {t} life bytes rssi snr hr hs octets) =
    let v = Life-IsSound cfg long word life in
    record {
      tables = treenet_rx-IsIntact t bytes rssi snr v.tables;
      place = treenet_rx-is_consistent t bytes rssi snr v.place;
      ring = IsQueued-treenet_rx t bytes rssi snr hr hs octets v.ring;
    }
Life-IsSound cfg long word (poll {t} life) =
    let v = Life-IsSound cfg long word life in
    let (tables, ring) = treenet_poll-IsFed t (v.tables, v.ring) in
    record { tables = tables; place = treenet_poll-is_consistent t v.place; ring = ring }
Life-IsSound cfg long word (send {t} life dst bytes real) =
    let v = Life-IsSound cfg long word life in
    let same = core-treenet_send t dst bytes in
    record {
      tables = treenet_send-IsIntact t dst bytes v.tables real;
      place = is_consistent-same t (treenet_send t dst bytes).0 same v.place;
      ring =
          IsQueued-same t (treenet_send t dst bytes).0 (rx-core t (treenet_send t dst bytes).0 same)
            v.ring;
    }
Life-IsSound cfg long word (broadcast {t} life bytes) =
    let v = Life-IsSound cfg long word life in
    let same = core-treenet_broadcast t bytes in
    record {
      tables = treenet_broadcast-IsIntact t bytes v.tables;
      place = is_consistent-same t (treenet_broadcast t bytes).0 same v.place;
      ring =
          IsQueued-same t (treenet_broadcast t bytes).0
            (rx-core t (treenet_broadcast t bytes).0 same) v.ring;
    }
Life-IsSound cfg long word (attach {t} life port world fresh) =
    let v = Life-IsSound cfg long word life in
    record {
      tables = IsIntact-attached t port world v.tables fresh;
      place = attached-is_consistent t port world v.place;
      ring = v.ring;
    }
