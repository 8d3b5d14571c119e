-- ===== src/Node/Intact/Calls.antt =====
-- treenet_init of src/api/treenet.c makes an instance with intact tables; treenet_rx, treenet_send and
-- treenet_broadcast keep them so.
use treenity.Prelude.{
  ℕ, zero, suc, ◌+◌, ◌-◌, ◌/◌, ◌≡◌, refl, Bool, true, false, not, ◌&&◌, List, some, leb, arith,
  length, length-replicate, ◌≢◌, ◌==◌, ◌||◌, [], sym, ap, subst, take-length,
}
use treenity.Prelude.Int.{ℤ}
use treenity.Config.{
  addr_broadcast, tx_queue_size, max_routes, reassembly_slots, addr_invalid, max_neighbors,
}
use treenity.Dupcache
use treenity.Neighbor.Table.{table_init-IsTable}
use treenity.Routes
use treenity.Routes.{zero_route}
use treenity.Routes.Lookup.{IsValid}
use treenity.Node.State.{Node, Config, Port, World, zero_slot, zero_reasm, next_seq, call_rnd}
use treenity.Node.Event.{empty_queue}
use treenity.Node.EventList.{IsQueue}
use treenity.Node.Tx.{tx_submit}
use treenity.Node.Control.{is_queued}
use treenity.Node.Lifecycle.{read_clock, blank, start_up, treenet_init}
use treenity.Node.Receive.{route_next_hop}
use treenity.Node.Poll.{treenet_rx}
use treenity.Node.Reasm.{frag_chunk}
use treenity.Node.Send.{
  frag_frame, send_single, send_frags, send_fragmented, send_via, send_datagram, max_payload,
  treenet_send, treenet_broadcast, count_datagram, data_frame, ack_flag, frag_bytes,
}
use treenity.Node.Intact.{
  All-replicate, IsNamed, IsSlot, IsSlot-zero_slot, IsIntact, tables, IsIntact-same, names,
}
use treenity.Node.Intact.Change.{IsIntact-if, IsIntact-pair, IsIntact-pair_test, IsIntact-seq}
use treenity.Prelude.Word.{u16}
use treenity.Frame.Bytes.{Word, Long}
use treenity.Neighbor.{table_init, zero_neighbor}
use treenity.Node.Intact.Control.{IsIntact-probe_send, IsIntact-next_seq, made, numbered, IsMine}
use treenity.Node.Intact.Routing.{IsIntact-select_parent}
use treenity.Node.Intact.Forward.{IsIntact-route_next_hop}

empty_queue-IsQueue : IsQueue empty_queue
unfolding empty_queue
empty_queue-IsQueue = record {
  ev = refl;
  arg = refl;
  head = omega arith;
  count = omega arith;
  tail = refl;
}

init-IsValid : IsValid Routes.init
unfolding Routes.init
init-IsValid = record { size = length-replicate max_routes zero_route; counted = refl }

module _ (cfg : Config) (port : Port) (long : Long cfg.addr) (word : Word cfg.net_id)
    (given : (cfg.addr ≢ addr_invalid) × (cfg.addr ≢ addr_broadcast)) where
  IsIntact-blank : IsIntact (blank cfg port)
  unfolding blank IsIntact Dupcache.init table_init
  IsIntact-blank = record {
    neighbors = table_init-IsTable;
    named = All-replicate IsNamed max_neighbors zero_neighbor (omega arith);
    routes = init-IsValid;
    slots = length-replicate tx_queue_size zero_slot;
    tx =
        All-replicate (IsSlot cfg.addr cfg.net_id) tx_queue_size zero_slot
          (IsSlot-zero_slot cfg.addr cfg.net_id);
    events = empty_queue-IsQueue;
    reasm = length-replicate reassembly_slots zero_reasm;
    dup = refl;
    trickle = omega arith;
    own = (long, given.0, given.1);
    net = word;
    seq = omega arith;
    parent = omega arith;
    sent = tt;
  }

  IsIntact-start_up : IsIntact (start_up cfg port)
  unfolding start_up read_clock call_rnd tables
  IsIntact-start_up =
      let first = u16 (call_rnd (blank cfg port)).1 in
      let v = IsIntact-seq (blank cfg port) first IsIntact-blank (omega arith) in
      let t1 = record (blank cfg port) { seq = first } in
      IsIntact-if _ _ _ (IsIntact-select_parent _ _ (IsIntact-same t1 _ refl v))
        (IsIntact-probe_send _ (IsIntact-same t1 _ refl v))

-- A new instance has intact tables.
pub treenet_init-IsIntact :
    (cfg : Config) (port : Port) (t : Node)
    → Long cfg.addr
    → Word cfg.net_id
    → treenet_init cfg port ≡ some t
    → IsIntact t
unfolding treenet_init
treenet_init-IsIntact cfg port t long word e =
    subst IsIntact (sym (ground (arith, e)))
      (IsIntact-start_up cfg port long word (ground (arith, e), ground (arith, e)))

-- With another port, and a world that has not recorded anything yet.
pub IsIntact-attached :
    (t : Node) (port : Port) (world : World)
    → IsIntact t
    → world.effects ≡ []
    → IsIntact (record t { port = port; world = world })
unfolding IsIntact
IsIntact-attached t port world v e = ground (arith, v, e)

-- Nothing but the receive ring changes in the interrupt.
pub treenet_rx-IsIntact :
    (t : Node) (bytes : List ℕ) (rssi snr : ℤ)
    → IsIntact t
    → IsIntact (treenet_rx t bytes rssi snr).0
unfolding treenet_rx tables
treenet_rx-IsIntact t bytes rssi snr v = IsIntact-same t _ (ground arith) v

IsIntact-count_datagram : (t : Node) → IsIntact t → IsIntact (count_datagram t)
unfolding tables
IsIntact-count_datagram t v = IsIntact-same t _ refl v

-- An address that a datagram can have as its destination.
abbrev pub IsReal : ℕ → Type 0
IsReal dst = Long dst × (dst ≢ addr_invalid)

IsIntact-send_single :
    (t : Node) (flood reliable : Bool) (dst nh : ℕ) (bytes : List ℕ)
    → IsIntact t
    → IsReal dst
    → IsIntact (send_single t flood reliable dst nh bytes).0
unfolding send_single
IsIntact-send_single t flood reliable dst nh bytes v real =
    let w =
      numbered t
        (record (data_frame t flood dst t.seq) {
          flags = ack_flag reliable;
          payload = some bytes;
          payload_len = length bytes;
        })
        reliable nh v
        (made t _ (names t v) refl (ground arith, ground arith, omega arith, omega arith)
          (names t v).own (ground (arith, real)) (names t v).seq refl
          (ap length (take-length bytes))) in
    IsIntact-if _ _ _ (IsIntact-count_datagram _ w) w

-- A fragment that the node makes is one that it may submit.
pub IsMine-frag_frame :
    (t : Node) (flood reliable : Bool) (dst : ℕ) (bytes : List ℕ) (dgram_id count i : ℕ)
    → IsIntact t
    → IsReal dst
    → IsMine t (frag_frame t flood reliable dst t.seq bytes dgram_id count i)
IsMine-frag_frame t flood reliable dst bytes dgram_id count i v real =
    made t _ (names t v) refl (ground arith, ground arith, omega arith, omega arith) (names t v).own
      (ground (arith, real)) (names t v).seq refl
      (ap length (take-length (frag_bytes bytes dgram_id count i)))

IsIntact-send_frags :
    (left : ℕ) (t : Node) (flood reliable : Bool) (dst nh : ℕ) (bytes : List ℕ)
    (dgram_id count i : ℕ)
    → IsIntact t
    → IsReal dst
    → IsIntact (send_frags left t flood reliable dst nh bytes dgram_id count i).0
unfolding send_frags
IsIntact-send_frags zero t flood reliable dst nh bytes dgram_id count i v real =
    IsIntact-count_datagram t v
IsIntact-send_frags (suc left) t flood reliable dst nh bytes dgram_id count i v real =
    let f = frag_frame t flood reliable dst (next_seq t).1 bytes dgram_id count i in
    let sent = tx_submit (next_seq t).0 f reliable nh 0 in
    let w =
      numbered t f reliable nh v
        (IsMine-frag_frame t flood reliable dst bytes dgram_id count i v real) in
    IsIntact-pair (is_queued sent.1) _ _
      (IsIntact-send_frags left sent.0 flood reliable dst nh bytes dgram_id count (i + 1) w real) w

IsIntact-send_fragmented :
    (t : Node) (flood reliable : Bool) (dst nh : ℕ) (bytes : List ℕ)
    → IsIntact t
    → IsReal dst
    → IsIntact (send_fragmented t flood reliable dst nh bytes).0
unfolding send_fragmented
IsIntact-send_fragmented t flood reliable dst nh bytes v real =
    let count = (length bytes + frag_chunk - 1) / frag_chunk in
    ground (
      arith,
      v,
      IsIntact-send_frags count (next_seq t).0 flood reliable dst nh bytes (next_seq t).1 count 0
          (IsIntact-next_seq t v) real,
    )

IsIntact-send_via :
    (t : Node) (flood : Bool) (dst nh : ℕ) (bytes : List ℕ)
    → IsIntact t
    → IsReal dst
    → IsIntact (send_via t flood dst nh bytes).0
unfolding send_via
IsIntact-send_via t flood dst nh bytes v real =
    let reliable = not flood && t.cfg.reliable in
    IsIntact-pair (leb (length bytes) max_payload) (send_single t flood reliable dst nh bytes)
      (send_fragmented t flood reliable dst nh bytes)
      (IsIntact-send_single t flood reliable dst nh bytes v real)
      (IsIntact-send_fragmented t flood reliable dst nh bytes v real)

IsIntact-send_datagram :
    (t : Node) (dst : ℕ) (bytes : List ℕ) (flood : Bool)
    → IsIntact t
    → IsReal dst
    → IsIntact (send_datagram t dst bytes flood).0
unfolding send_datagram
IsIntact-send_datagram t dst bytes flood v real =
    let w = IsIntact-route_next_hop t dst v in
    let hop = route_next_hop t dst in
    ground (
      arith,
      v,
      w,
      IsIntact-send_via t true dst addr_broadcast bytes v real,
      IsIntact-send_via hop.0 false dst hop.1 bytes w real,
    )

pub treenet_broadcast-IsIntact :
    (t : Node) (bytes : List ℕ) → IsIntact t → IsIntact (treenet_broadcast t bytes).0
unfolding treenet_broadcast
treenet_broadcast-IsIntact t bytes v =
    ground
      (arith, v, IsIntact-send_datagram t addr_broadcast bytes true v (omega arith, omega arith))

-- Sending keeps the tables intact, whether it succeeds or not.
pub treenet_send-IsIntact :
    (t : Node) (dst : ℕ) (bytes : List ℕ)
    → IsIntact t
    → Long dst
    → IsIntact (treenet_send t dst bytes).0
unfolding treenet_send
treenet_send-IsIntact t dst bytes v long = IsIntact-pair (not t.initialized) _ _ v (
    IsIntact-pair (dst == addr_broadcast) _ _ (treenet_broadcast-IsIntact t bytes v) (
      IsIntact-pair_test (dst == t.addr || dst == addr_invalid) _ _ (λ _. v)
        (λ other. IsIntact-send_datagram t dst bytes false v (long, ground (arith, other)))))
