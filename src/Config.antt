-- ===== src/Config.antt =====
-- include/treenet/config.h (the default configuration) and the sentinels of include/treenet/types.h.
use treenity.Prelude.{ℕ}

abbrev pub protocol_version : ℕ
protocol_version = 1

abbrev pub mtu : ℕ
mtu = 200

abbrev pub max_hops : ℕ
max_hops = 8

abbrev pub max_fragments : ℕ
max_fragments = 8

abbrev pub max_datagram : ℕ
max_datagram = 1024

abbrev pub max_neighbors : ℕ
max_neighbors = 32

abbrev pub dup_cache_size : ℕ
dup_cache_size = 64

abbrev pub max_routes : ℕ
max_routes = 128

abbrev pub rx_ring_bytes : ℕ
rx_ring_bytes = 1024

abbrev pub tx_queue_size : ℕ
tx_queue_size = 8

abbrev pub event_queue_size : ℕ
event_queue_size = 16

abbrev pub reassembly_slots : ℕ
reassembly_slots = 2

abbrev pub beacon_min_ms : ℕ
beacon_min_ms = 3000

abbrev pub beacon_max_ms : ℕ
beacon_max_ms = 12000

abbrev pub neighbor_timeout_ms : ℕ
neighbor_timeout_ms = 54000

abbrev pub parent_timeout_ms : ℕ
parent_timeout_ms = 36000

abbrev pub parent_dwell_ms : ℕ
parent_dwell_ms = 10000

abbrev pub slot_ms : ℕ
slot_ms = 10

abbrev pub cw_max : ℕ
cw_max = 32

abbrev pub ack_timeout_ms : ℕ
ack_timeout_ms = 2000

abbrev pub max_retries : ℕ
max_retries = 3

abbrev pub ack_fail_threshold : ℕ
ack_fail_threshold = 2

abbrev pub link_suspect_ms : ℕ
link_suspect_ms = 30000

abbrev pub route_refresh_ms : ℕ
route_refresh_ms = 45000

abbrev pub route_timeout_ms : ℕ
route_timeout_ms = 135000

abbrev pub dup_ttl_ms : ℕ
dup_ttl_ms = 60000

abbrev pub probe_interval_ms : ℕ
probe_interval_ms = 3000

abbrev pub reasm_timeout_ms : ℕ
reasm_timeout_ms = 8000

abbrev pub flood_cw_ms : ℕ
flood_cw_ms = 500

abbrev pub of_w_snr : ℕ
of_w_snr = 120

abbrev pub of_w_etx : ℕ
of_w_etx = 96

abbrev pub parent_hysteresis_pct : ℕ
parent_hysteresis_pct = 25

-- TREENET_EWMA_SHIFT is 3, and this is 2 ^ 3.
abbrev pub ewma_div : ℕ
ewma_div = 8

abbrev pub addr_broadcast : ℕ
addr_broadcast = 0xffff_ffff

abbrev pub addr_invalid : ℕ
addr_invalid = 0

abbrev pub rank_step : ℕ
rank_step = 8

abbrev pub rank_infinite : ℕ
rank_infinite = 0xffff
