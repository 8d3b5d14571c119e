-- ===== src/Node/Place.antt =====
-- The place of a node in the tree: parent, rank and connection are consistent after every operation
-- of src/routing/routing.c and src/api/treenet.c.
use treenity.Prelude.{
  ℕ, ◌<◌, ◌≡◌, refl, ap, Bool, true, false, not, ◌&&◌, Option, none, some, ltb, arith, ◌==◌,
  if◌then◌else◌,
}
use treenity.Config.{rank_infinite, addr_invalid}
use treenity.Neighbor.{Neighbor}
use treenity.Node.State.{Node, route_lost, null}
use treenity.Node.Event.{emit_event}
use treenity.Node.Control.{is_master}
use treenity.Node.Parent.{
  best_candidate, select_parent, replace_parent, is_alive, current, keep_or_switch, set_parent,
  candidate_rank, announce_join, select_master,
}
use treenity.Node.Candidate.{nobody, somebody, best_candidate_lem}
use treenity.Node.Rank.{candidate_rank-le}
use treenity.Node.Quiet.{Core, core, core-emit_event, core-dao_send, core-beacon_reset}

-- A connected node has a finite rank; one that is not has no parent and no rank.
unfoldable pub is_placed : Core → Bool
is_placed c =
    if c.connected
    then ltb c.rank rank_infinite
    else c.parent == addr_invalid && c.rank == rank_infinite

core-set_parent :
    (t : Node) (p r now : ℕ)
    → core (set_parent t p r now) ≡ record (core t) { parent = p; rank = r; connected = true }
unfolding set_parent core
core-set_parent t p r now = grind (arith, core-emit_event, core-dao_send, core-beacon_reset)

-- What selecting a parent, and everything that rests on it, does to the core.
pub record IsSteady (c c' : Core) : Type 0 where
  pub role_eq : c'.role ≡ c.role
  pub rx_eq : c'.rx ≡ c.rx
  pub place : is_placed c ≡ true → is_placed c' ≡ true

pub IsSteady-eq : (c c' : Core) → c' ≡ c → IsSteady c c'
unfolding is_placed
IsSteady-eq c c' e = record { role_eq = cc e; rx_eq = cc e; place = λ h. ground (arith, e, h) }

pub IsSteady-trans : (c c' c'' : Core) → IsSteady c c' → IsSteady c' c'' → IsSteady c c''
IsSteady-trans c c' c'' s s' = record {
  role_eq = ground (arith, s.role_eq, s'.role_eq);
  rx_eq = ground (arith, s.rx_eq, s'.rx_eq);
  place = λ h. s'.place (s.place h);
}

-- A candidate has a finite rank.
best-finite :
    (t : Node) (best : Neighbor) (r : ℕ) → best_candidate t ≡ (some best, r) → r < rank_infinite
best-finite t best r e = elim (best_candidate_lem t) [
  | nobody _ eq ↦ ground (arith, e, eq)
  | somebody i _ _ below _ _ eq ↦ ground (arith, e, eq, below)
]

IsSteady-set_parent :
    (t : Node) (p r now : ℕ) → r < rank_infinite → IsSteady (core t) (core (set_parent t p r now))
unfolding core is_placed
IsSteady-set_parent t p r now h = record {
  role_eq = ap (λ c. c.role) (core-set_parent t p r now);
  rx_eq = ap (λ c. c.rx) (core-set_parent t p r now);
  place = λ _. grind (arith, core-set_parent t p r now, h);
}

abbrev detached : Node → Node
detached t = record t { parent = addr_invalid; rank = rank_infinite; connected = false }

IsSteady-detached : (t : Node) → IsSteady (core t) (core (detached t))
unfolding core is_placed
IsSteady-detached t = record { role_eq = refl; rx_eq = refl; place = λ _. refl }

pub IsSteady-if :
    (b : Bool) (t : Node) (x y : Node)
    → IsSteady (core t) (core x)
    → IsSteady (core t) (core y)
    → IsSteady (core t) (core (if b then x else y))
IsSteady-if true t x y hx hy = hx
IsSteady-if false t x y hx hy = hy

-- Of the two results of a test.
IsSteady-pair :
    (b : Bool) (t : Node) (x y : Node × Bool)
    → IsSteady (core t) (core x.0)
    → IsSteady (core t) (core y.0)
    → IsSteady (core t) (core (if b then x else y).0)
IsSteady-pair true t x y hx hy = hx
IsSteady-pair false t x y hx hy = hy

IsSteady-keep :
    (t : Node) (now : ℕ)
    → is_alive (current t) now ≡ true
    → IsSteady (core t) (core (record t { rank = candidate_rank (current t) }))
unfolding core is_placed
IsSteady-keep t now alive = record {
  role_eq = refl;
  rx_eq = refl;
  place = λ h. ground (arith, h, alive, candidate_rank-le (current t));
}

IsSteady-keep_or_switch :
    (t : Node) (now : ℕ) (best : Option Neighbor × ℕ)
    → best_candidate t ≡ best
    → is_alive (current t) now ≡ true
    → IsSteady (core t) (core (keep_or_switch t now (candidate_rank (current t)) best.0 best.1).0)
unfolding keep_or_switch core is_placed
IsSteady-keep_or_switch t now (none, r) e alive = IsSteady-keep t now alive
IsSteady-keep_or_switch t now (some b, r) e alive =
    IsSteady-pair _ t _ _
      (IsSteady-trans _ _ _ (IsSteady-keep t now alive) (
        IsSteady-set_parent (record t { rank = candidate_rank (current t) }) b.addr r now
          (best-finite t b r e)))
      (IsSteady-keep t now alive)

IsSteady-replace_parent :
    (t : Node) (now : ℕ) (best : Option Neighbor × ℕ)
    → best_candidate t ≡ best
    → IsSteady (core t) (core (replace_parent t now best.0 best.1).0)
unfolding replace_parent core is_placed
IsSteady-replace_parent t now (none, r) e =
    IsSteady-pair _ t (emit_event (detached t) route_lost null, false) (t, false)
      (IsSteady-trans _ _ _ (IsSteady-detached t)
        (IsSteady-eq _ _ (core-emit_event (detached t) route_lost null)))
      (IsSteady-eq _ _ refl)
IsSteady-replace_parent t now (some b, r) e =
    IsSteady-set_parent t b.addr r now (best-finite t b r e)

IsSteady-announce_join : (t : Node) → IsSteady (core t) (core (announce_join t))
unfolding core is_placed
IsSteady-announce_join t = IsSteady-eq _ _ (grind (arith, core-emit_event))

abbrev crowned : Node → Node
crowned t = record t { rank = 0; parent = addr_invalid; connected = true }

IsSteady-crowned : (t : Node) → IsSteady (core t) (core (crowned t))
unfolding core is_placed
IsSteady-crowned t = record { role_eq = refl; rx_eq = refl; place = λ _. refl }

IsSteady-select_master : (t : Node) → IsSteady (core t) (core (select_master t))
IsSteady-select_master t = IsSteady-trans _ _ _ (IsSteady-crowned t) (
    IsSteady-if (not t.joined) (crowned t) (announce_join (crowned t)) (crowned t)
      (IsSteady-announce_join (crowned t)) (IsSteady-eq _ _ refl))

-- The branch on whether the parent is alive.
IsSteady-alive :
    (t : Node) (now : ℕ) (alive : Bool)
    → is_alive (current t) now ≡ alive
    → IsSteady (core t) (
        core
          (if alive
            then keep_or_switch t now
                (candidate_rank (current t))
                (best_candidate t).0
                (best_candidate t).1
            else replace_parent t now (best_candidate t).0 (best_candidate t).1).0)
IsSteady-alive t now true e = IsSteady-keep_or_switch t now (best_candidate t) refl e
IsSteady-alive t now false e = IsSteady-replace_parent t now (best_candidate t) refl

pub IsSteady-select_parent : (t : Node) (now : ℕ) → IsSteady (core t) (core (select_parent t now).0)
unfolding select_parent
IsSteady-select_parent t now =
    IsSteady-pair (is_master t.role) t _ _ (IsSteady-select_master t) (IsSteady-alive t now _ refl)
