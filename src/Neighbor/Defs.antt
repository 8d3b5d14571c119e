-- ===== src/Neighbor/Defs.antt =====
-- The functions of src/link/neighbor.c. A pointer into the table is an index.
use treenity.Prelude.{
  ℕ, zero, suc, ◌+◌, ◌-◌, ◌*◌, ◌/◌, Bool, true, false, not, ◌&&◌, List, Option, none, some, ◌==◌,
  if◌then◌else◌, get_or, set, replicate, find_index, min,
}
use treenity.Prelude.Word.{u16, u32}
use treenity.Prelude.Int.{ℤ, pos, ltb_ℤ, pos_part, to_signed, to_unsigned}
use treenity.Config.{max_neighbors, of_w_snr, of_w_etx}
use treenity.Util.{elapsed, snr_score_q8}
use treenity.Ewma
use treenity.Ewma.{Ewma}
use treenity.Scan.{scan}

-- `tn_neighbor_t`
pub record Neighbor : Type 0 where
  pub valid : Bool
  pub addr : ℕ
  pub rank : ℕ
  pub parent : ℕ
  pub flags : ℕ
  pub rssi : Ewma
  pub snr : Ewma
  pub pdr : Ewma
  pub etx_q8 : ℕ
  pub link_cost : ℕ
  pub last_seen_ms : ℕ
  pub last_beacon_ms : ℕ
  pub est_interval_ms : ℕ
  pub have_interval : Bool
  pub ack_fail : ℕ
  pub suspect_until_ms : ℕ

-- `memset(n, 0, sizeof(*n))`
abbrev pub zero_neighbor : Neighbor
zero_neighbor = record {
  valid = false;
  addr = 0;
  rank = 0;
  parent = 0;
  flags = 0;
  rssi = record { value = pos 0; init = false };
  snr = record { value = pos 0; init = false };
  pdr = record { value = pos 0; init = false };
  etx_q8 = 0;
  link_cost = 0;
  last_seen_ms = 0;
  last_beacon_ms = 0;
  est_interval_ms = 0;
  have_interval = false;
  ack_fail = 0;
  suspect_until_ms = 0;
}

-- `tn_neighbor_table_t`
pub record NeighborTable : Type 0 where
  pub entries : List Neighbor
  pub count : ℕ

abbrev pub entry : NeighborTable → ℕ → Neighbor
entry tbl i = get_or tbl.entries i zero_neighbor

abbrev pub set_entry : NeighborTable → ℕ → Neighbor → NeighborTable
set_entry tbl i n = record tbl { entries = set tbl.entries i n }

unfoldable pub table_init : NeighborTable
table_init = record { entries = replicate max_neighbors zero_neighbor; count = 0 }

abbrev pub has_addr : ℕ → Neighbor → Bool
has_addr addr n = n.valid && n.addr == addr

-- NULL is `none`.
unfoldable pub find : NeighborTable → ℕ → Option ℕ
find tbl addr = find_index (has_addr addr) tbl.entries

unfoldable pub neighbor_oldest : NeighborTable → ℕ → ℕ
unfolding scan
neighbor_oldest tbl now = scan (λ n. n.valid) (λ n. n.last_seen_ms) now tbl.entries 0 0 0

abbrev pub fresh_neighbor : ℕ → ℕ → Neighbor
fresh_neighbor addr now = record zero_neighbor { valid = true; addr = addr; last_seen_ms = now }

unfoldable pub get_or_create : NeighborTable → ℕ → ℕ → NeighborTable × ℕ
unfolding find neighbor_oldest
get_or_create tbl addr now = elim (find tbl addr) [
  | some i ↦ (tbl, i)
  | none ↦
      let i = neighbor_oldest tbl now in
      (
        record {
          entries = set tbl.entries i (fresh_neighbor addr now);
          count = if (entry tbl i).valid then tbl.count else u32 (tbl.count + 1);
        },
        i,
      )
]

-- The delivery ratio within 16..256; a perfect link until there are samples.
unfoldable pub clamped_pdr : Neighbor → ℕ
clamped_pdr n =
    let pdr = if n.pdr.init then Ewma.get n.pdr else pos 256 in
    let low = if ltb_ℤ pdr (pos 16) then pos 16 else pdr in
    pos_part (if ltb_ℤ (pos 256) low then pos 256 else low)

unfoldable pub update_cost : Neighbor → Neighbor
unfolding clamped_pdr
update_cost n =
    let etx = min (65536 / clamped_pdr n) 0xFFFF in
    let snr_score = snr_score_q8 (to_signed 256 (to_unsigned 256 (Ewma.get n.snr))) in
    let etx_pen = min (u16 etx - 256) 768 in
    let cost = min (u32 (of_w_snr * snr_score + of_w_etx * etx_pen) / 256) 1024 in
    record n { etx_q8 = u16 etx; link_cost = u16 cost }

unfoldable pub note_frame : NeighborTable → ℕ → ℤ → ℤ → ℕ → NeighborTable
unfolding get_or_create update_cost Ewma.push
note_frame tbl addr rssi_dbm snr_db now =
    let (tbl', i) = get_or_create tbl addr now in
    let n = entry tbl' i in
    set_entry tbl' i (
      update_cost (record n {
        rssi = Ewma.push n.rssi rssi_dbm;
        snr = Ewma.push n.snr snr_db;
        last_seen_ms = now;
      }))

-- `for (i = 0; i < missed; i++) tn_ewma16_push(&n->pdr, 0)`
unfoldable pub push_missed : ℕ → Ewma → Ewma
unfolding Ewma.push
push_missed zero e = e
push_missed (suc n) e = push_missed n (Ewma.push e (pos 0))

-- How many beacons were lost since the last one, at most 8.
unfoldable pub missed_beacons : Neighbor → ℕ → ℕ
missed_beacons n now =
    if not (n.last_beacon_ms == 0) && not (n.est_interval_ms == 0)
    then min (elapsed n.last_beacon_ms now / n.est_interval_ms - 1) 8
    else 0

-- What a beacon says, with the signal it came in with.
unfoldable pub note_beacon : NeighborTable → ℕ → ℕ → ℕ → ℕ → ℕ → ℤ → ℤ → ℕ → NeighborTable
unfolding get_or_create update_cost push_missed missed_beacons
note_beacon tbl addr rank parent flags interval_100ms rssi_dbm snr_db now =
    let (tbl', i) = get_or_create tbl addr now in
    let n = entry tbl' i in
    let interval = u32 (interval_100ms * 100) in
    set_entry tbl' i (
      update_cost (record n {
        pdr = Ewma.push (push_missed (missed_beacons n now) n.pdr) (pos 256);
        est_interval_ms = if interval == 0 then 1 else interval;
        have_interval = true;
        rank = rank;
        parent = parent;
        flags = flags;
        last_beacon_ms = now;
        last_seen_ms = now;
        rssi = Ewma.push n.rssi rssi_dbm;
        snr = Ewma.push n.snr snr_db;
      }))
