-- ===== src/Node/State.antt =====
-- `struct treenet` of src/core/internal.h, the configuration of include/treenet/treenet.h, and the
-- port of include/treenet/port.h.
use treenity.Prelude.{ℕ, ◌+◌, Bool, List, ◌∷◌, Option, replicate}
use treenity.Prelude.Word.{u16, u32}
use treenity.Prelude.Int.{ℤ}
use treenity.Config.{max_fragments, max_datagram, mtu}
use treenity.Timer.{Timer}
use treenity.Ring.{Ringbuf}
use treenity.Airtime.{LoraParams}
use treenity.Dupcache.{Dupcache}
use treenity.Neighbor.{NeighborTable}
use treenity.Routes.{RouteTable}

-- `treenet_role_t`; any other number is `other`.
pub data Role : Type 0 where
  node master repeater leaf other : Role

-- `treenet_event_t`
pub data Event : Type 0 where
  network_ready joined parent_changed neighbor_added neighbor_removed route_lost tx_done : Event
  tx_failed disconnected : Event

-- The argument of an event: NULL, or the address of the instance's field `parent`.
pub data EventArg : Type 0 where
  null to_parent : EventArg

-- `treenet_radio_cfg_t`, as far as the library reads it.
pub record RadioCfg : Type 0 where
  pub spreading_factor : ℕ
  pub bandwidth_hz : ℕ
  pub coding_rate : ℕ

-- `treenet_config_t`; of the two callbacks only whether they are set.
pub record Config : Type 0 where
  pub addr : ℕ
  pub role : Role
  pub net_id : ℕ
  pub has_on_recv : Bool
  pub has_on_event : Bool
  pub reliable : Bool
  pub radio : RadioCfg

-- `treenet_port_t`: what the n-th call of each function returns. `tx_ok` is `tx(…) == 0`.
pub record Port : Type 0 where
  pub tx_ok : ℕ → Bool
  pub now_ms : ℕ → ℕ
  pub rnd : ℕ → ℕ
  pub channel_free : Option (ℕ → Bool)
  pub has_timer_arm : Bool

-- What the instance does to the world: frames handed to the modem, calls of the application's
-- callbacks, and the wake timer.
pub data Effect : Type 0 where
  transmit : List ℕ → Effect
  recv : (src : ℕ) → List ℕ → (rssi snr : ℤ) → (hops : ℕ) → Effect
  event : Event → EventArg → Effect
  arm : ℕ → Effect

-- How often each function of the port has been called, and the effects, newest first.
pub record World : Type 0 where
  pub tx_calls : ℕ
  pub now_calls : ℕ
  pub rnd_calls : ℕ
  pub cad_calls : ℕ
  pub effects : List Effect

-- `treenet_stats_t`
pub record Stats : Type 0 where
  pub frames_tx : ℕ
  pub frames_rx : ℕ
  pub frames_dropped : ℕ
  pub retransmissions : ℕ
  pub beacons_tx : ℕ
  pub beacons_rx : ℕ
  pub parent_changes : ℕ
  pub datagrams_tx : ℕ
  pub datagrams_rx : ℕ
  pub airtime_ms : ℕ

-- `tn_tx_slot_t`
pub record TxSlot : Type 0 where
  pub valid : Bool
  pub len : ℕ
  pub reliable : Bool
  pub attempts : ℕ
  pub next_tx_ms : ℕ
  pub ack_dst : ℕ
  pub ack_seq : ℕ
  pub buf : List ℕ

-- `tn_eventq_t`
pub record EventQueue : Type 0 where
  pub ev : List Event
  pub arg : List EventArg
  pub head : ℕ
  pub tail : ℕ
  pub count : ℕ

-- `tn_reasm_t`; its field `received` is never written or read.
pub record Reasm : Type 0 where
  pub valid : Bool
  pub src : ℕ
  pub dgram_id : ℕ
  pub count : ℕ
  pub last_ms : ℕ
  pub got_mask : ℕ
  pub buf : List ℕ
  pub frag_len : List ℕ

-- `struct treenet`. `rx_storage` is the storage of `rx`; `work` is never used; `world` stands for
-- what is outside.
pub record Node : Type 0 where
  pub cfg : Config
  pub port : Port
  pub addr : ℕ
  pub role : Role
  pub net_id : ℕ
  pub initialized : Bool
  pub now_ms : ℕ
  pub seq : ℕ
  pub rank : ℕ
  pub parent : ℕ
  pub parent_rank : ℕ
  pub parent_since : ℕ
  pub parent_beacon_ms : ℕ
  pub connected : Bool
  pub joined : Bool
  pub dao_last_ms : ℕ
  pub probe_last_ms : ℕ
  pub neighbors : NeighborTable
  pub routes : RouteTable
  pub dup : Dupcache
  pub rx : Ringbuf
  pub tx : List TxSlot
  pub reasm : List Reasm
  pub events : EventQueue
  pub beacon_timer : Timer
  pub trickle_I : ℕ
  pub lora : Option LoraParams
  pub stats : Stats
  pub world : World

abbrev pub zero_slot : TxSlot
zero_slot = record {
  valid = Bool.false;
  len = 0;
  reliable = Bool.false;
  attempts = 0;
  next_tx_ms = 0;
  ack_dst = 0;
  ack_seq = 0;
  buf = replicate mtu 0;
}

abbrev pub zero_reasm : Reasm
zero_reasm = record {
  valid = Bool.false;
  src = 0;
  dgram_id = 0;
  count = 0;
  last_ms = 0;
  got_mask = 0;
  buf = replicate max_datagram 0;
  frag_len = replicate max_fragments 0;
}

-- `TN_STAT_INC`
abbrev pub incr : ℕ → ℕ
incr n = u32 (n + 1)

abbrev pub note : Effect → Node → Node
note e t = record t { world = record t.world { effects = e ∷ t.world.effects } }

-- `t->port.rnd()`
unfoldable pub call_rnd : Node → Node × ℕ
call_rnd t = (
  record t { world = record t.world { rnd_calls = t.world.rnd_calls + 1 } },
  u32 (t.port.rnd t.world.rnd_calls),
)

-- `t->seq++`
unfoldable pub next_seq : Node → Node × ℕ
next_seq t = (record t { seq = u16 (t.seq + 1) }, t.seq)
