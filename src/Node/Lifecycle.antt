-- ===== src/Node/Lifecycle.antt =====
-- treenet_init and tn_age_neighbors of src/api/treenet.c.
use treenity.Prelude.{
  ℕ, zero, suc, ◌+◌, ◌-◌, Bool, true, false, not, ◌||◌, List, Option, none, some, leb, ◌==◌,
  if◌then◌else◌, replicate,
}
use treenity.Prelude.Word.{u16, u32}
use treenity.Config.{
  max_neighbors, neighbor_timeout_ms, rx_ring_bytes, tx_queue_size, reassembly_slots, dup_ttl_ms,
  beacon_min_ms, rank_infinite, addr_invalid, addr_broadcast,
}
use treenity.Util.{elapsed, rand_below}
use treenity.Timer
use treenity.Ring
use treenity.Airtime.{LoraParams}
use treenity.Dupcache
use treenity.Neighbor
use treenity.Neighbor.{zero_neighbor}
use treenity.Routes
use treenity.Node.State.{
  Node, Role, other, neighbor_removed, null, Config, RadioCfg, Port, World, Stats, zero_slot,
  zero_reasm, call_rnd,
}
use treenity.Node.Event.{emit_event, empty_queue}
use treenity.Node.Control.{is_master, probe_send}
use treenity.Node.Parent.{select_parent, on_parent_lost}

-- The neighbour that is gone, with its index.
unfoldable pub drop_neighbor : Node → ℕ → ℕ → Node
drop_neighbor t i gone =
    let t1 = record t {
      routes = (Routes.remove_via t.routes gone).0;
      neighbors = record {
        entries = (Neighbor.set_entry t.neighbors i zero_neighbor).entries;
        count = t.neighbors.count - 1;
      };
    } in
    let t2 = emit_event t1 neighbor_removed null in
    if gone == t2.parent then on_parent_lost t2 t2.now_ms else t2

unfoldable pub age_step : Node → ℕ → Node
unfolding drop_neighbor
age_step t i =
    let n = Neighbor.entry t.neighbors i in
    if not n.valid
    then t
    else if leb (elapsed n.last_seen_ms t.now_ms) neighbor_timeout_ms
    then t
    else drop_neighbor t i n.addr

unfoldable pub age_loop : ℕ → ℕ → Node → Node
age_loop zero i t = t
age_loop (suc left) i t = age_loop left (i + 1) (age_step t i)

unfoldable pub age_neighbors : Node → Node
unfolding age_loop age_step
age_neighbors t = age_loop max_neighbors 0 t

abbrev pub zero_stats : Stats
zero_stats = record {
  frames_tx = 0;
  frames_rx = 0;
  frames_dropped = 0;
  retransmissions = 0;
  beacons_tx = 0;
  beacons_rx = 0;
  parent_changes = 0;
  datagrams_tx = 0;
  datagrams_rx = 0;
  airtime_ms = 0;
}

abbrev pub zero_world : World
zero_world = record { tx_calls = 0; now_calls = 0; rnd_calls = 0; cad_calls = 0; effects = List.[] }

abbrev pub lora_of : RadioCfg → Option LoraParams
lora_of r =
    if r.spreading_factor == 0
    then none
    else some (record {
      sf = r.spreading_factor;
      bw_hz = if r.bandwidth_hz == 0 then 125000 else r.bandwidth_hz;
      cr = if r.coding_rate == 0 then 1 else r.coding_rate;
      preamble = 16;
      explicit_hdr = 1;
      crc = 1;
    })

-- `t->now_ms = t->port.now_ms()`
unfoldable pub read_clock : Node → Node
read_clock t = record t {
  now_ms = u32 (t.port.now_ms t.world.now_calls);
  world = record t.world { now_calls = t.world.now_calls + 1 };
}

-- The instance as `memset` and the assignments up to the first call of the port leave it. The
-- receive ring's storage is part of the instance, so it is zero.
unfoldable pub blank : Config → Port → Node
blank cfg port = record {
  cfg = cfg;
  port = port;
  addr = cfg.addr;
  role = cfg.role;
  net_id = cfg.net_id;
  initialized = false;
  now_ms = 0;
  seq = 0;
  rank = if is_master cfg.role then 0 else rank_infinite;
  parent = addr_invalid;
  parent_rank = 0;
  parent_since = 0;
  parent_beacon_ms = 0;
  connected = is_master cfg.role;
  joined = is_master cfg.role;
  dao_last_ms = 0;
  probe_last_ms = 0;
  neighbors = Neighbor.table_init;
  routes = Routes.init;
  dup = Dupcache.init dup_ttl_ms;
  rx = Ring.init (replicate rx_ring_bytes 0) rx_ring_bytes;
  tx = replicate tx_queue_size zero_slot;
  reasm = replicate reassembly_slots zero_reasm;
  events = empty_queue;
  beacon_timer = record { next_ms = 0; interval = 0; active = false };
  trickle_I = beacon_min_ms;
  lora = lora_of cfg.radio;
  stats = zero_stats;
  world = zero_world;
}

abbrev pub is_known : Role → Bool
is_known other = false
is_known _ = true

unfoldable pub start_up : Config → Port → Node
unfolding blank read_clock call_rnd rand_below Timer.start
start_up cfg port =
    let (t1, r1) = call_rnd (blank cfg port) in
    let t2 = read_clock (record t1 { seq = u16 r1 }) in
    let (t3, r2) = call_rnd t2 in
    let t4 = record t3 {
      beacon_timer = Timer.start t3.beacon_timer t3.now_ms (rand_below r2 beacon_min_ms);
      initialized = true;
    } in
    if is_master t4.role then (select_parent t4 t4.now_ms).0 else probe_send t4

-- `none` is NULL. The checks on the storage and for null pointers are not modelled.
unfoldable pub treenet_init : Config → Port → Option Node
unfolding start_up
treenet_init cfg port =
    if cfg.addr == addr_invalid || cfg.addr == addr_broadcast || not (is_known cfg.role)
    then none
    else some (start_up cfg port)
