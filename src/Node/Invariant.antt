-- ===== src/Node/Invariant.antt =====
-- treenet_init establishes, and treenet_poll of src/api/treenet.c keeps, the consistency of parent,
-- rank and connection.
use treenity.Prelude.{
  ℕ, zero, suc, ◌+◌, ◌≡◌, refl, Bool, true, false, not, Option, none, some, arith, ◌==◌,
  if◌then◌else◌, List,
}
use treenity.Config.{mtu, max_neighbors, tx_queue_size}
use treenity.Prelude.Int.{ℤ}
use treenity.Ring
use treenity.Ring.{Ringbuf, RxMeta}
use treenity.Routes.{RouteTable}
use treenity.Node.State.{Node, Config, Port, World, arm, note}
use treenity.Node.Control.{is_master}
use treenity.Node.TxPoll.{tx_poll}
use treenity.Node.Reasm.{expire_reasm}
use treenity.Node.Receive.{rx_loop, rx_drain}
use treenity.Node.Lifecycle.{age_neighbors, read_clock, blank, start_up, treenet_init}
use treenity.Node.Poll.{
  deadline_in, upkeep_due, upkeep, maintain, maintain_if_due, next_maint_deadline, after_drain,
  poll_steps, treenet_poll, treenet_rx,
}
use treenity.Node.Quiet.{core, core-dao_send, core-probe_send, core-beacon_tick, core-events_flush}
use treenity.Node.Place.{
  is_placed, IsSteady, IsSteady-eq, IsSteady-trans, IsSteady-if, IsSteady-select_parent,
}
use treenity.Node.Steady.{IsSteady-routing_tick, IsSteady-tx_loop, IsSteady-age_loop}
use treenity.Node.Drain.{IsSteady-rx_step, rx_round}

-- A connected node has a finite rank; one that is not connected has no parent and an infinite rank.
unfoldable pub is_consistent : Node → Bool
is_consistent t = is_placed (core t)

consistent-rx :
    (t : Node) (rx' : Ringbuf)
    → is_consistent t ≡ true
    → is_consistent (record t { rx = rx' }) ≡ true
unfolding core is_placed is_consistent
consistent-rx t rx' h = h

consistent_round :
    (fuel : ℕ) (t : Node)
    → is_consistent t ≡ true
    → ((t' : Node) → is_consistent t' ≡ true → is_consistent (rx_loop fuel t') ≡ true)
    → (popped : Ringbuf × Option (RxMeta × List ℕ)) → is_consistent (rx_round fuel t popped) ≡ true
unfolding rx_round is_consistent
consistent_round fuel t h next (rx', none) = consistent-rx t rx' h
consistent_round fuel t h next (rx', some (meta, bytes)) =
    next _ ((IsSteady-rx_step (record t { rx = rx' }) meta bytes).place (consistent-rx t rx' h))

rx_loop-is_consistent :
    (fuel : ℕ) (t : Node) → is_consistent t ≡ true → is_consistent (rx_loop fuel t) ≡ true
unfolding rx_loop rx_round
rx_loop-is_consistent zero t h = h
rx_loop-is_consistent (suc fuel) t h =
    consistent_round fuel t h (rx_loop-is_consistent fuel) (Ring.pop t.rx mtu)

core-read_clock : (t : Node) → core (read_clock t) ≡ core t
unfolding core read_clock
core-read_clock t = refl

core-expire_reasm : (t : Node) → core (expire_reasm t) ≡ core t
unfolding core expire_reasm
core-expire_reasm t = refl

core-routes : (t : Node) (r : RouteTable) → core (record t { routes = r }) ≡ core t
unfolding core
core-routes t r = refl

core-arm : (t : Node) (ms : ℕ) → core (note (arm ms) t) ≡ core t
unfolding core
core-arm t ms = refl

IsSteady-upkeep : (t : Node) → IsSteady (core t) (core (upkeep t))
unfolding upkeep
IsSteady-upkeep t = IsSteady-if (is_master t.role) t _ _ (IsSteady-eq _ _ refl) (
    IsSteady-if (not (deadline_in (upkeep_due t) t.now_ms == 0)) t _ _ (IsSteady-eq _ _ refl) (
      IsSteady-if (not t.connected) t _ _ (IsSteady-eq _ _ (core-probe_send t))
        (IsSteady-eq _ _ (core-dao_send t t.now_ms))))

IsSteady-age_neighbors : (t : Node) → IsSteady (core t) (core (age_neighbors t))
unfolding age_neighbors
IsSteady-age_neighbors t = IsSteady-age_loop max_neighbors 0 t

IsSteady-maintain : (t : Node) → IsSteady (core t) (core (maintain t))
unfolding maintain
IsSteady-maintain t = IsSteady-trans _ _ _ (IsSteady-eq _ _ (core-routes t _)) (
    IsSteady-trans _ _ _ (IsSteady-age_neighbors _)
      (IsSteady-trans _ _ _ (IsSteady-eq _ _ (core-expire_reasm _)) (IsSteady-upkeep _)))

IsSteady-maintain_if_due : (t : Node) → IsSteady (core t) (core (maintain_if_due t))
unfolding maintain_if_due
IsSteady-maintain_if_due t =
    IsSteady-if (next_maint_deadline t t.now_ms == 0) t _ _ (IsSteady-maintain t)
      (IsSteady-eq _ _ refl)

IsSteady-tx_poll : (t : Node) → IsSteady (core t) (core (tx_poll t))
unfolding tx_poll
IsSteady-tx_poll t = IsSteady-tx_loop tx_queue_size 0 t

-- What treenet_poll does after the ring is drained.
pub IsSteady-after_drain : (t : Node) → IsSteady (core t) (core (after_drain t))
unfolding after_drain
IsSteady-after_drain t = IsSteady-trans _ _ _ (IsSteady-eq _ _ (core-beacon_tick t t.now_ms)) (
    IsSteady-trans _ _ _ (IsSteady-routing_tick _ _) (
      IsSteady-trans _ _ _ (IsSteady-maintain_if_due _) (
        IsSteady-trans _ _ _ (IsSteady-tx_poll _) (
          IsSteady-trans _ _ _ (IsSteady-eq _ _ (core-events_flush _))
            (IsSteady-if _ _ _ _ (IsSteady-eq _ _ (core-arm _ _)) (IsSteady-eq _ _ refl))))))

rx_drain-is_consistent : (t : Node) → is_consistent t ≡ true → is_consistent (rx_drain t) ≡ true
unfolding rx_drain
rx_drain-is_consistent t h = rx_loop-is_consistent (Ring.used t.rx + 1) t h

poll_steps-is_consistent : (t : Node) → is_consistent t ≡ true → is_consistent (poll_steps t) ≡ true
unfolding poll_steps is_consistent
poll_steps-is_consistent t h =
    (IsSteady-after_drain (rx_drain (read_clock t))).place
      (rx_drain-is_consistent (read_clock t) ((IsSteady-eq _ _ (core-read_clock t)).place h))

consistent_if :
    (b : Bool) (x y : Node)
    → is_consistent x ≡ true
    → is_consistent y ≡ true
    → is_consistent (if b then x else y) ≡ true
consistent_if true x y hx hy = hx
consistent_if false x y hx hy = hy

-- A poll keeps the node consistent: connected with a finite rank, or detached without a parent and
-- with an infinite rank.
pub treenet_poll-is_consistent :
    (t : Node) → is_consistent t ≡ true → is_consistent (treenet_poll t) ≡ true
unfolding treenet_poll
treenet_poll-is_consistent t h =
    consistent_if (not t.initialized) t (poll_steps t) h (poll_steps-is_consistent t h)

blank-is_consistent : (cfg : Config) (port : Port) → is_consistent (blank cfg port) ≡ true
unfolding is_consistent is_placed core blank
blank-is_consistent cfg port = ground arith

-- The core is that of the blank instance until a parent is selected.
start_up-is_consistent : (cfg : Config) (port : Port) → is_consistent (start_up cfg port) ≡ true
unfolding start_up is_consistent core
start_up-is_consistent cfg port =
    consistent_if _ _ _ ((IsSteady-select_parent _ _).place (blank-is_consistent cfg port))
      ((IsSteady-eq _ _ (core-probe_send _)).place (blank-is_consistent cfg port))

-- An instance starts consistent.
pub treenet_init-is_consistent :
    (cfg : Config) (port : Port) (t : Node)
    → treenet_init cfg port ≡ some t
    → is_consistent t ≡ true
unfolding treenet_init
treenet_init-is_consistent cfg port t e = ground (arith, start_up-is_consistent cfg port, e)

-- What a call does outside the core.
pub treenet_rx-is_consistent :
    (t : Node) (bytes : List ℕ) (rssi snr : ℤ)
    → is_consistent t ≡ true
    → is_consistent (treenet_rx t bytes rssi snr).0 ≡ true
unfolding treenet_rx is_consistent is_placed core
treenet_rx-is_consistent t bytes rssi snr h = ground (arith, h)

pub attached-is_consistent :
    (t : Node) (port : Port) (world : World)
    → is_consistent t ≡ true
    → is_consistent (record t { port = port; world = world }) ≡ true
unfolding is_consistent is_placed core
attached-is_consistent t port world h = h
