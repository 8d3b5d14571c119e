-- ===== src/Node/Steady.antt =====
-- Every step of treenet_poll in src/api/treenet.c keeps the node's place consistent.
use treenity.Prelude.{
  ℕ, zero, suc, ◌+◌, ◌≡◌, refl, Bool, false, not, ◌&&◌, Option, none, some, arith, ◌==◌, find_index,
  leb,
}
use treenity.Prelude.Int.{ℤ}
use treenity.Config.{max_retries, neighbor_timeout_ms}
use treenity.Util.{time_after, elapsed}
use treenity.Neighbor
use treenity.Neighbor.{Neighbor, NeighborTable}
use treenity.Routes.{RouteTable}
use treenity.Frame.{Frame}
use treenity.Node.State.{Node, TxSlot, tx_done, tx_failed, neighbor_removed, null}
use treenity.Node.Event.{emit_event}
use treenity.Node.Tx.{slot, set_slot}
use treenity.Node.Parent.{select_parent, on_parent_lost, forget_parent, routing_tick, on_beacon}
use treenity.Node.Ack.{set_neighbor, link_failed, link_ack_result, handle_ack, awaits_ack}
use treenity.Node.TxPoll.{attempt, channel_busy, port_tx, give_up, tx_step, tx_loop}
use treenity.Node.Lifecycle.{drop_neighbor, age_step, age_loop}
use treenity.Node.Quiet.{core, core-if, core-emit_event}
use treenity.Node.Place.{
  is_placed, IsSteady, IsSteady-eq, IsSteady-trans, IsSteady-if, IsSteady-select_parent,
}

-- Both cases of an option.
pub IsSteady-option {ℓ} :
    {A : Type ℓ} (o : Option A) (t x : Node) (g : A → Node)
    → IsSteady (core t) (core x)
    → ((a : A) → IsSteady (core t) (core (g a)))
    → IsSteady (core t) (core (elim o [ none ↦ x | some a ↦ g a ]))
IsSteady-option none t x g hx hg = hx
IsSteady-option (some a) t x g hx hg = hg a

-- The core is all that matters.
IsSteady-from :
    (t t' : Node) (now : ℕ) → core t' ≡ core t → IsSteady (core t) (core (select_parent t' now).0)
IsSteady-from t t' now e = IsSteady-trans _ _ _ (IsSteady-eq _ _ e) (IsSteady-select_parent t' now)

pub IsSteady-on_beacon :
    (t : Node) (from rank parent flags interval_100ms : ℕ) (rssi snr : ℤ) (now : ℕ)
    → IsSteady (core t) (core (on_beacon t from rank parent flags interval_100ms rssi snr now))
unfolding on_beacon core
IsSteady-on_beacon t from rank parent flags interval_100ms rssi snr now =
    IsSteady-from t _ now (core-if (from == t.parent) _ _ refl refl)

IsSteady-forget_parent : (t : Node) → IsSteady (core t) (core (forget_parent t))
unfolding core is_placed emit_event
IsSteady-forget_parent t = record {
  role_eq = ground arith;
  rx_eq = ground arith;
  place = λ _. ground arith;
}

pub IsSteady-on_parent_lost : (t : Node) (now : ℕ) → IsSteady (core t) (core (on_parent_lost t now))
unfolding on_parent_lost
IsSteady-on_parent_lost t now =
    IsSteady-trans _ _ _ (IsSteady-forget_parent t) (IsSteady-select_parent (forget_parent t) now)

pub IsSteady-routing_tick : (t : Node) (now : ℕ) → IsSteady (core t) (core (routing_tick t now))
unfolding routing_tick
IsSteady-routing_tick t now = IsSteady-if _ t _ _ (IsSteady-eq _ _ refl) (
    IsSteady-if _ t _ _ (IsSteady-on_parent_lost t now)
      (IsSteady-if _ t _ _ (IsSteady-on_parent_lost t now) (IsSteady-eq _ _ refl)))

core-set_neighbor : (t : Node) (i : ℕ) (n : Neighbor) → core (set_neighbor t i n) ≡ core t
unfolding core
core-set_neighbor t i n = refl

core-set_slot : (t : Node) (i : ℕ) (s : TxSlot) → core (set_slot t i s) ≡ core t
unfolding core
core-set_slot t i s = refl

IsSteady-set_neighbor :
    (t : Node) (i : ℕ) (n : Neighbor) → IsSteady (core t) (core (set_neighbor t i n))
IsSteady-set_neighbor t i n = IsSteady-eq _ _ (core-set_neighbor t i n)

IsSteady-link_failed :
    (t : Node) (i : ℕ) (n : Neighbor) → IsSteady (core t) (core (link_failed t i n))
unfolding link_failed
IsSteady-link_failed t i n =
    IsSteady-if _ t _ _
      (IsSteady-if _ t _ _ (IsSteady-from t _ t.now_ms (core-set_neighbor t i _))
        (IsSteady-set_neighbor t i _))
      (IsSteady-set_neighbor t i _)

IsSteady-link_ack_result :
    (t : Node) (dst : ℕ) (acked : Bool) → IsSteady (core t) (core (link_ack_result t dst acked))
unfolding link_ack_result
IsSteady-link_ack_result t dst acked =
    IsSteady-option (Neighbor.find t.neighbors dst) t t _ (IsSteady-eq _ _ refl) (λ i.
      IsSteady-if acked t _ _ (IsSteady-set_neighbor t i _)
        (IsSteady-link_failed t i (Neighbor.entry t.neighbors i)))

-- A slot whose frame is acknowledged.
IsSteady-acked :
    (t : Node) (i from : ℕ)
    → IsSteady (core t) (
        core (
          emit_event
            (link_ack_result
              (set_slot t i (record (slot t i) { valid = false }))
              (slot t i).ack_dst
              (from == (slot t i).ack_dst))
            tx_done
            null))
IsSteady-acked t i from = IsSteady-trans _ _ _ (IsSteady-eq _ _ (core-set_slot t i _)) (
    IsSteady-trans _ _ _
      (IsSteady-link_ack_result _ (slot t i).ack_dst (from == (slot t i).ack_dst))
      (IsSteady-eq _ _ (core-emit_event _ tx_done null)))

pub IsSteady-handle_ack : (t : Node) (f : Frame) → IsSteady (core t) (core (handle_ack t f))
unfolding handle_ack
IsSteady-handle_ack t f =
    IsSteady-option (Neighbor.find t.neighbors f.src) t t _ (IsSteady-eq _ _ refl) (λ _.
      IsSteady-option (find_index (awaits_ack f.seq) t.tx) t t _ (IsSteady-eq _ _ refl)
        (λ i. IsSteady-acked t i f.src))

IsSteady-attempt : (t : Node) (i : ℕ) → IsSteady (core t) (core (attempt t i (slot t i)))
unfolding attempt channel_busy port_tx core
IsSteady-attempt t i = IsSteady-eq _ _ (grind arith)

IsSteady-give_up : (t : Node) (i : ℕ) → IsSteady (core t) (core (give_up t i (slot t i)))
IsSteady-give_up t i = IsSteady-trans _ _ _ (IsSteady-eq _ _ (core-set_slot t i _)) (
    IsSteady-trans _ _ _
      (IsSteady-link_ack_result (set_slot t i (record (slot t i) { valid = false }))
        (slot t i).ack_dst false)
      (IsSteady-eq _ _ (core-emit_event _ tx_failed null)))

IsSteady-tx_step : (t : Node) (i : ℕ) → IsSteady (core t) (core (tx_step t i))
unfolding tx_step
IsSteady-tx_step t i = IsSteady-if (not (slot t i).valid) t _ _ (IsSteady-eq _ _ refl) (
    IsSteady-if (time_after (slot t i).next_tx_ms t.now_ms) t _ _ (IsSteady-eq _ _ refl) (
      IsSteady-if ((slot t i).reliable && leb max_retries (slot t i).attempts) t _ _
        (IsSteady-give_up t i) (IsSteady-attempt t i)))

pub IsSteady-tx_loop : (left i : ℕ) (t : Node) → IsSteady (core t) (core (tx_loop left i t))
unfolding tx_loop
IsSteady-tx_loop zero i t = IsSteady-eq _ _ refl
IsSteady-tx_loop (suc left) i t =
    IsSteady-trans _ _ _ (IsSteady-tx_step t i) (IsSteady-tx_loop left (i + 1) (tx_step t i))

core-forget_neighbor :
    (t : Node) (r : RouteTable) (n : NeighborTable)
    → core (record t { routes = r; neighbors = n }) ≡ core t
unfolding core
core-forget_neighbor t r n = refl

IsSteady-drop_neighbor : (t : Node) (i gone : ℕ) → IsSteady (core t) (core (drop_neighbor t i gone))
unfolding drop_neighbor
IsSteady-drop_neighbor t i gone =
    IsSteady-trans _ _ _ (IsSteady-eq _ _ (core-forget_neighbor t _ _)) (
      IsSteady-trans _ _ _ (IsSteady-eq _ _ (core-emit_event _ neighbor_removed null))
        (IsSteady-if _ _ _ _ (IsSteady-on_parent_lost _ _) (IsSteady-eq _ _ refl)))

IsSteady-age_step : (t : Node) (i : ℕ) → IsSteady (core t) (core (age_step t i))
unfolding age_step
IsSteady-age_step t i =
    IsSteady-if (not (Neighbor.entry t.neighbors i).valid) t _ _ (IsSteady-eq _ _ refl) (
      IsSteady-if
        (leb (elapsed (Neighbor.entry t.neighbors i).last_seen_ms t.now_ms) neighbor_timeout_ms) t _
        _ (IsSteady-eq _ _ refl) (IsSteady-drop_neighbor t i (Neighbor.entry t.neighbors i).addr))

pub IsSteady-age_loop : (left i : ℕ) (t : Node) → IsSteady (core t) (core (age_loop left i t))
unfolding age_loop
IsSteady-age_loop zero i t = IsSteady-eq _ _ refl
IsSteady-age_loop (suc left) i t =
    IsSteady-trans _ _ _ (IsSteady-age_step t i) (IsSteady-age_loop left (i + 1) (age_step t i))
