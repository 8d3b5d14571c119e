-- ===== src/Node/Deadline.antt =====
-- The wake-up time of src/api/treenet.c: the timer that treenet_poll arms is never late.
use treenity.Prelude.{
  ℕ, zero, suc, ◌<◌, ◌≤◌, ◌≡◌, Bool, true, false, List, [], ◌∷◌, arith, ◌==◌, if◌then◌else◌, get_or,
  length,
}
use treenity.Prelude.Word.{add32, u32_max}
use treenity.Config.{addr_invalid, parent_timeout_ms}
use treenity.Timer
use treenity.Neighbor
use treenity.Neighbor.{Neighbor, zero_neighbor}
use treenity.Routes
use treenity.Routes.{Route, zero_route}
use treenity.Node.State.{Node, zero_reasm, zero_slot}
use treenity.Node.Tx.{slot}
use treenity.Node.Control.{is_master}
use treenity.Node.Poll.{
  deadline_in, sooner, soonest, route_due, neighbor_due, reasm_due, upkeep_due, next_maint_deadline,
  next_deadline_ms,
}

module _ {ℓ} {A : Type ℓ} (valid : A → Bool) (due : A → ℕ) (now : ℕ) where
  pub soonest-le_best : (xs : List A) (best : ℕ) → soonest valid due now xs best ≤ best
  unfolding soonest
  soonest-le_best [] best = omega arith
  soonest-le_best (x ∷ xs) best =
      ground (
        arith,
        soonest-le_best xs (if valid x then sooner (deadline_in (due x) now) best else best),
      )

  -- No marked entry is due before the result.
  pub soonest-le :
      (xs : List A) (best : ℕ) (d : A) (i : ℕ)
      → i < length xs
      → valid (get_or xs i d) ≡ true
      → soonest valid due now xs best ≤ deadline_in (due (get_or xs i d)) now
  unfolding soonest
  soonest-le [] best d i lt v = absurd (omega (arith, lt))
  soonest-le (x ∷ xs) best d zero lt v = ground (
    arith,
    v,
    soonest-le_best xs (if valid x then sooner (deadline_in (due x) now) best else best),
  )
  soonest-le (x ∷ xs) best d (suc i) lt v =
      soonest-le xs (if valid x then sooner (deadline_in (due x) now) best else best) d i
        (omega (arith, lt)) v

-- `wake` ms from `now` is not after anything that the instance has scheduled.
pub record IsNotLate (t : Node) (now wake : ℕ) : Type 0 where
  pub beacon : wake ≤ Timer.remaining t.beacon_timer now
  pub frames :
      (i : ℕ)
      → i < length t.tx
      → (slot t i).valid ≡ true
      → wake ≤ deadline_in (slot t i).next_tx_ms now
  pub routes :
      (i : ℕ)
      → i < length t.routes.entries
      → (Routes.entry t.routes i).valid ≡ true
      → wake ≤ deadline_in (route_due (Routes.entry t.routes i)) now
  pub neighbors :
      (i : ℕ)
      → i < length t.neighbors.entries
      → (Neighbor.entry t.neighbors i).valid ≡ true
      → wake ≤ deadline_in (neighbor_due (Neighbor.entry t.neighbors i)) now
  pub datagrams :
      (i : ℕ)
      → i < length t.reasm
      → (get_or t.reasm i zero_reasm).valid ≡ true
      → wake ≤ deadline_in (reasm_due (get_or t.reasm i zero_reasm)) now
  pub upkeep : is_master t.role ≡ false → wake ≤ deadline_in (upkeep_due t) now
  pub liveness :
      is_master t.role ≡ false
      → (t.parent == addr_invalid) ≡ false
      → wake ≤ deadline_in (add32 t.parent_beacon_ms parent_timeout_ms) now

module _ (t : Node) (now : ℕ) where
  by_routes : ℕ
  by_routes = soonest (λ r. r.valid) route_due now t.routes.entries u32_max

  by_neighbors : ℕ
  by_neighbors = soonest (λ n. n.valid) neighbor_due now t.neighbors.entries by_routes

  by_reasm : ℕ
  by_reasm = soonest (λ r. r.valid) reasm_due now t.reasm by_neighbors

  maint-le : next_maint_deadline t now ≤ by_reasm
  unfolding next_maint_deadline by_routes by_neighbors by_reasm
  maint-le = ground arith

  upkeep-le : is_master t.role ≡ false → next_maint_deadline t now ≤ deadline_in (upkeep_due t) now
  unfolding next_maint_deadline
  upkeep-le h = ground (arith, h)

  next-le_maint : next_deadline_ms t now ≤ next_maint_deadline t now
  unfolding next_deadline_ms
  next-le_maint = ground (
    arith,
    soonest-le_best (λ s. s.valid) (λ s. s.next_tx_ms) now t.tx
        (sooner (next_maint_deadline t now) (Timer.remaining t.beacon_timer now)),
  )

  -- The table with the transmissions, after beacons and maintenance.
  by_frames : ℕ
  by_frames =
      soonest (λ s. s.valid) (λ s. s.next_tx_ms) now t.tx
        (sooner (next_maint_deadline t now) (Timer.remaining t.beacon_timer now))

  next-le : next_deadline_ms t now ≤ by_frames
  unfolding next_deadline_ms by_frames
  next-le = ground arith

  frames-le_beacon : by_frames ≤ Timer.remaining t.beacon_timer now
  unfolding by_frames
  frames-le_beacon = ground (
    arith,
    soonest-le_best (λ s. s.valid) (λ s. s.next_tx_ms) now t.tx
        (sooner (next_maint_deadline t now) (Timer.remaining t.beacon_timer now)),
  )

  liveness-le :
      is_master t.role ≡ false
      → (t.parent == addr_invalid) ≡ false
      → next_deadline_ms t now ≤ deadline_in (add32 t.parent_beacon_ms parent_timeout_ms) now
  unfolding next_deadline_ms
  liveness-le h p = ground (arith, h, p)

-- The time that treenet_poll arms the wake timer with is at most the time to the next beacon, to
-- each queued transmission, to the timeout of each route, neighbour and partial datagram, to the
-- next probe or route advertisement, and to the parent's timeout.
pub next_deadline_ms-IsNotLate : (t : Node) (now : ℕ) → IsNotLate t now (next_deadline_ms t now)
unfolding by_routes by_neighbors by_reasm by_frames
next_deadline_ms-IsNotLate t now = record {
  beacon = omega (arith, next-le t now, frames-le_beacon t now);
  frames = λ i lt v. omega (
    arith,
    next-le t now,
    soonest-le (λ s. s.valid) (λ s. s.next_tx_ms) now t.tx _ zero_slot i lt v,
  );
  routes = λ i lt v. omega (
    arith,
    next-le_maint t now,
    maint-le t now,
    soonest-le_best (λ r. r.valid) reasm_due now t.reasm (by_neighbors t now),
    soonest-le_best (λ n. n.valid) neighbor_due now t.neighbors.entries (by_routes t now),
    soonest-le (λ r. r.valid) route_due now t.routes.entries _ zero_route i lt v,
  );
  neighbors = λ i lt v. omega (
    arith,
    next-le_maint t now,
    maint-le t now,
    soonest-le_best (λ r. r.valid) reasm_due now t.reasm (by_neighbors t now),
    soonest-le (λ n. n.valid) neighbor_due now t.neighbors.entries (by_routes t now) zero_neighbor i
        lt v,
  );
  datagrams = λ i lt v. omega (
    arith,
    next-le_maint t now,
    maint-le t now,
    soonest-le (λ r. r.valid) reasm_due now t.reasm (by_neighbors t now) zero_reasm i lt v,
  );
  upkeep = λ h. omega (arith, next-le_maint t now, upkeep-le t now h);
  liveness = liveness-le t now;
}
