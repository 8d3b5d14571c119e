-- ===== src/Node/Parent.antt =====
-- The parent selection of src/routing/routing.c.
use treenity.Prelude.{
  ℕ, ◌+◌, ◌-◌, ◌*◌, ◌/◌, Bool, true, false, not, ◌&&◌, ◌||◌, List, [], ◌∷◌, Option, none, some, ltb,
  leb, ◌==◌, if◌then◌else◌, bit_and, is_some,
}
use treenity.Prelude.Word.{u16, u32}
use treenity.Prelude.Int.{ℤ}
use treenity.Config.{
  rank_step, rank_infinite, addr_invalid, parent_timeout_ms, parent_dwell_ms, parent_hysteresis_pct,
}
use treenity.Util.{elapsed, time_after}
use treenity.Neighbor
use treenity.Neighbor.{Neighbor, zero_neighbor, note_beacon}
use treenity.Routes.{remove_via}
use treenity.Node.State.{
  Node, joined, network_ready, parent_changed, route_lost, disconnected, null, to_parent, incr,
}
use treenity.Node.Event.{emit_event}
use treenity.Node.Control.{is_master, dao_send}
use treenity.Node.Beacon.{beacon_router, beacon_reset}

unfoldable pub candidate_rank : Option Neighbor → ℕ
candidate_rank none = rank_infinite
candidate_rank (some n) =
    if bit_and n.flags beacon_router == 0 || leb rank_infinite n.rank
    then rank_infinite
    else let r = u32 (n.rank + u32 (rank_step + n.link_cost)) in
      if leb rank_infinite r then rank_infinite else u16 r

unfoldable pub neighbor_fresh : Neighbor → ℕ → Bool
neighbor_fresh n now = n.valid && leb (elapsed n.last_seen_ms now) parent_timeout_ms

unfoldable pub neighbor_usable : Neighbor → ℕ → Bool
unfolding neighbor_fresh
neighbor_usable n now = neighbor_fresh n now && not (time_after n.suspect_until_ms now)

-- The loop of best_candidate: the best neighbour so far with its rank.
unfoldable pub best_loop : ℕ → ℕ → List Neighbor → Option Neighbor → ℕ → Option Neighbor × ℕ
best_loop own now [] best best_rank = (best, best_rank)
best_loop own now (n ∷ ns) best best_rank =
    let better =
      neighbor_usable n now && not (n.addr == own) && ltb (candidate_rank (some n)) best_rank in
    best_loop own now ns (if better then some n else best)
      (if better then candidate_rank (some n) else best_rank)

unfoldable pub best_candidate : Node → Option Neighbor × ℕ
unfolding best_loop
best_candidate t = best_loop t.addr t.now_ms t.neighbors.entries none rank_infinite

-- The fields that routing_set_parent writes before it tells anybody.
abbrev pub adopt : Node → ℕ → ℕ → ℕ → Node
adopt t new_parent new_rank now = record t {
  parent = new_parent;
  rank = new_rank;
  parent_since = now;
  parent_beacon_ms = now;
  connected = true;
}

abbrev pub announce_join : Node → Node
announce_join t =
    emit_event (emit_event (record t { joined = true }) joined null) network_ready null

abbrev pub announce_change : Node → Node
announce_change t =
    emit_event
      (record t { stats = record t.stats { parent_changes = incr t.stats.parent_changes } })
      parent_changed to_parent

unfoldable pub set_parent : Node → ℕ → ℕ → ℕ → Node
set_parent t new_parent new_rank now =
    let changed = not (new_parent == t.parent) in
    let t1 = adopt t new_parent new_rank now in
    let t2 =
      if not t.joined then announce_join t1 else if changed then announce_change t1 else t1 in
    if changed || not t.joined then dao_send (beacon_reset t2 now) now else t2

-- The parent's entry in the neighbour table.
abbrev pub current : Node → Option Neighbor
current t = if t.parent == addr_invalid then none else elim (Neighbor.find t.neighbors t.parent) [
  | none ↦ none
  | some i ↦ some (Neighbor.entry t.neighbors i)
]

abbrev pub is_alive : Option Neighbor → ℕ → Bool
is_alive none now = false
is_alive (some n) now = neighbor_usable n now && not (candidate_rank (some n) == rank_infinite)

-- The branch for a parent that is alive: stay, or switch to a clearly better one.
unfoldable pub keep_or_switch : Node → ℕ → ℕ → Option Neighbor → ℕ → Node × Bool
keep_or_switch t now cur_rank none best_rank = (record t { rank = cur_rank }, false)
keep_or_switch t now cur_rank (some best) best_rank =
    let t1 = record t { rank = cur_rank } in
    let dwell_ok = leb parent_dwell_ms (elapsed t.parent_since now) in
    let threshold = u32 (cur_rank * (100 - parent_hysteresis_pct)) / 100 in
    if not (best.addr == t.parent) && dwell_ok && ltb best_rank threshold
    then (set_parent t1 best.addr best_rank now, true)
    else (t1, false)

-- The branch for a parent that is gone or unusable.
unfoldable pub replace_parent : Node → ℕ → Option Neighbor → ℕ → Node × Bool
replace_parent t now (some best) best_rank = (set_parent t best.addr best_rank now, true)
replace_parent t now none best_rank =
    if t.connected || not (t.parent == addr_invalid)
    then (
      emit_event (record t { parent = addr_invalid; rank = rank_infinite; connected = false })
          route_lost null,
      false,
    )
    else (t, false)

abbrev pub select_master : Node → Node
select_master t =
    let t1 = record t { rank = 0; parent = addr_invalid; connected = true } in
    if not t.joined then announce_join t1 else t1

unfoldable pub select_parent : Node → ℕ → Node × Bool
unfolding keep_or_switch replace_parent
select_parent t now =
    if is_master t.role
    then (select_master t, false)
    else let (best, best_rank) = best_candidate t in
      let cur = current t in
      if is_alive cur now
      then keep_or_switch t now (candidate_rank cur) best best_rank
      else replace_parent t now best best_rank

abbrev pub forget_parent : Node → Node
forget_parent t =
    let t1 =
      if t.parent == addr_invalid
      then t
      else record t { routes = (remove_via t.routes t.parent).0 } in
    emit_event (record t1 { parent = addr_invalid; rank = rank_infinite; connected = false })
      disconnected null

unfoldable pub on_parent_lost : Node → ℕ → Node
on_parent_lost t now = (select_parent (forget_parent t) now).0

unfoldable pub routing_tick : Node → ℕ → Node
unfolding on_parent_lost
routing_tick t now =
    if is_master t.role || t.parent == addr_invalid
    then t
    else if not (is_some (Neighbor.find t.neighbors t.parent))
    then on_parent_lost t now
    else if ltb parent_timeout_ms (elapsed t.parent_beacon_ms now)
    then on_parent_lost t now
    else t

unfoldable pub on_beacon : Node → ℕ → ℕ → ℕ → ℕ → ℕ → ℤ → ℤ → ℕ → Node
on_beacon t from rank parent flags interval_100ms rssi snr now =
    let t1 = record t {
      neighbors = note_beacon t.neighbors from rank parent flags interval_100ms rssi snr now;
    } in
    let t2 =
      if from == t.parent then record t1 { parent_beacon_ms = now; parent_rank = rank } else t1 in
    (select_parent t2 now).0
