-- ===== src/Node/Poll.antt =====
-- treenet_poll, treenet_rx and the tickless deadlines of src/api/treenet.c.
use treenity.Prelude.{
  ℕ, Bool, false, not, ◌&&◌, ◌||◌, List, [], ◌∷◌, ltb, ◌==◌, if◌then◌else◌, length,
}
use treenity.Prelude.Word.{add32, sub32, u32_max}
use treenity.Prelude.Int.{ℤ}
use treenity.Config.{
  mtu, route_timeout_ms, neighbor_timeout_ms, reasm_timeout_ms, probe_interval_ms, route_refresh_ms,
  parent_timeout_ms, addr_invalid,
}
use treenity.Util.{time_after}
use treenity.Timer
use treenity.Ring
use treenity.Neighbor.{Neighbor}
use treenity.Routes
use treenity.Routes.{Route}
use treenity.Node.State.{Node, Reasm, arm, note}
use treenity.Node.Event.{events_flush}
use treenity.Node.Control.{is_master, dao_send, probe_send}
use treenity.Node.Beacon.{beacon_tick}
use treenity.Node.Parent.{routing_tick}
use treenity.Node.TxPoll.{tx_poll}
use treenity.Node.Reasm.{expire_reasm}
use treenity.Node.Receive.{rx_drain}
use treenity.Node.Lifecycle.{age_neighbors, read_clock}

unfoldable pub deadline_in : ℕ → ℕ → ℕ
deadline_in due now = if time_after now due then 0 else sub32 due now

-- `if (d < best) best = d`
abbrev pub sooner : ℕ → ℕ → ℕ
sooner d best = if ltb d best then d else best

-- The loops over a table: the entries that `valid` marks, each due at the time `due`.
unfoldable pub soonest {ℓ} : {A : Type ℓ} → (A → Bool) → (A → ℕ) → ℕ → List A → ℕ → ℕ
unfolding deadline_in
soonest valid due now [] best = best
soonest valid due now (x ∷ xs) best =
    soonest valid due now xs (if valid x then sooner (deadline_in (due x) now) best else best)

abbrev pub route_due : Route → ℕ
route_due r = add32 r.updated_ms route_timeout_ms

abbrev pub neighbor_due : Neighbor → ℕ
neighbor_due n = add32 n.last_seen_ms neighbor_timeout_ms

abbrev pub reasm_due : Reasm → ℕ
reasm_due r = add32 r.last_ms reasm_timeout_ms

-- When the next probe, or the next route advertisement, is due.
abbrev pub upkeep_due : Node → ℕ
upkeep_due t =
    if not t.connected
    then add32 t.probe_last_ms probe_interval_ms
    else add32 t.dao_last_ms route_refresh_ms

unfoldable pub next_maint_deadline : Node → ℕ → ℕ
unfolding soonest
next_maint_deadline t now =
    let best1 = soonest (λ r. r.valid) route_due now t.routes.entries u32_max in
    let best2 = soonest (λ n. n.valid) neighbor_due now t.neighbors.entries best1 in
    let best3 = soonest (λ r. r.valid) reasm_due now t.reasm best2 in
    if not (is_master t.role) then sooner (deadline_in (upkeep_due t) now) best3 else best3

unfoldable pub next_deadline_ms : Node → ℕ → ℕ
unfolding next_maint_deadline Timer.remaining
next_deadline_ms t now =
    let best1 = sooner (next_maint_deadline t now) (Timer.remaining t.beacon_timer now) in
    let best2 = soonest (λ s. s.valid) (λ s. s.next_tx_ms) now t.tx best1 in
    if not (is_master t.role) && not (t.parent == addr_invalid)
    then sooner (deadline_in (add32 t.parent_beacon_ms parent_timeout_ms) now) best2
    else best2

-- The probe or the route advertisement at the end of the maintenance.
unfoldable pub upkeep : Node → Node
upkeep t =
    if is_master t.role
    then t
    else if not (deadline_in (upkeep_due t) t.now_ms == 0)
    then t
    else if not t.connected
    then probe_send t
    else dao_send t t.now_ms

unfoldable pub maintain : Node → Node
unfolding upkeep
maintain t = upkeep (
    expire_reasm
      (age_neighbors (record t { routes = (Routes.expire t.routes t.now_ms route_timeout_ms).0 })))

unfoldable pub maintain_if_due : Node → Node
unfolding maintain next_maint_deadline
maintain_if_due t = if next_maint_deadline t t.now_ms == 0 then maintain t else t

-- The steps of treenet_poll after the first.
unfoldable pub after_drain : Node → Node
unfolding maintain_if_due
after_drain t =
    let t2 = beacon_tick t t.now_ms in
    let t3 = routing_tick t2 t2.now_ms in
    let t6 = events_flush (tx_poll (maintain_if_due t3)) in
    if t6.port.has_timer_arm then note (arm (next_deadline_ms t6 t6.now_ms)) t6 else t6

unfoldable pub poll_steps : Node → Node
unfolding after_drain
poll_steps t = after_drain (rx_drain (read_clock t))

unfoldable pub treenet_poll : Node → Node
unfolding poll_steps
treenet_poll t = if not t.initialized then t else poll_steps t

-- `bytes` is the buffer with its `len`; true is the result 0.
unfoldable pub treenet_rx : Node → List ℕ → ℤ → ℤ → Node × Bool
treenet_rx t bytes rssi snr =
    if not t.initialized || length bytes == 0 || ltb mtu (length bytes)
    then (t, false)
    else let (rx', ok) =
        Ring.push t.rx (record { len = length bytes; rssi_dbm = rssi; snr_db = snr }) bytes in
      (record t { rx = rx' }, ok)
