-- ===== src/Node/Intact/Routing.antt =====
-- Parent selection in src/routing/routing.c keeps the tables intact.
use treenity.Prelude.{ℕ, arith, refl, true, not, ◌||◌, Option, none, some, ◌==◌, if◌then◌else◌}
use treenity.Prelude.Int.{ℤ}
use treenity.Config.{addr_invalid}
use treenity.Neighbor.{Neighbor, note_beacon}
use treenity.Neighbor.Table.{note_beacon-Lists}
use treenity.Routes.{remove_via}
use treenity.Routes.Lookup.{remove_via-expire-IsValid}
use treenity.Node.State.{
  Node, joined, network_ready, route_lost, disconnected, parent_changed, to_parent, null,
}
use treenity.Node.Control.{is_master}
use treenity.Node.Parent.{
  adopt, announce_join, announce_change, set_parent, keep_or_switch, replace_parent, select_master,
  select_parent, forget_parent, on_parent_lost, routing_tick, on_beacon, best_candidate, current,
  is_alive, candidate_rank,
}
use treenity.Node.Intact.{
  IsIntact, tables, IsIntact-same, IsTable-neighbors, IsValid-routes, All-IsNamed,
}
use treenity.Node.Intact.Change.{
  IsIntact-if, IsIntact-pair, IsIntact-emit_event, IsIntact-neighbors, IsIntact-routes,
  IsIntact-parent,
}
use treenity.Node.Intact.Named.{IsNamedIfAny, IsNamedIfAny-best_candidate, AreNamed-note_beacon}
use treenity.Frame.Bytes.{Long}
use treenity.Node.Intact.Control.{IsIntact-dao_send, IsIntact-beacon_reset}

-- Without a parent.
orphan : (t : Node) → IsIntact t → IsIntact (record t { parent = addr_invalid })
orphan t v = IsIntact-parent t addr_invalid v (omega arith)

IsIntact-announce_join : (t : Node) → IsIntact t → IsIntact (announce_join t)
unfolding tables
IsIntact-announce_join t v =
    IsIntact-emit_event _ network_ready null
      (IsIntact-emit_event _ joined null (IsIntact-same t _ refl v))

IsIntact-announce_change : (t : Node) → IsIntact t → IsIntact (announce_change t)
unfolding tables
IsIntact-announce_change t v =
    IsIntact-emit_event _ parent_changed to_parent (IsIntact-same t _ refl v)

IsIntact-set_parent :
    (t : Node) (p r now : ℕ) → IsIntact t → Long p → IsIntact (set_parent t p r now)
unfolding set_parent tables
IsIntact-set_parent t p r now v long =
    let changed = not (p == t.parent) in
    let t1 = adopt t p r now in
    let v1 = IsIntact-same (record t { parent = p }) t1 refl (IsIntact-parent t p v long) in
    let v2 =
      IsIntact-if (not t.joined) (announce_join t1) _ (IsIntact-announce_join t1 v1)
        (IsIntact-if changed (announce_change t1) t1 (IsIntact-announce_change t1 v1) v1) in
    IsIntact-if (changed || not t.joined) _ _
      (IsIntact-dao_send _ now (IsIntact-beacon_reset _ now v2)) v2

IsIntact-keep_or_switch :
    (t : Node) (now r : ℕ) (best : Option Neighbor) (best_rank : ℕ)
    → IsIntact t
    → IsNamedIfAny best
    → IsIntact (keep_or_switch t now r best best_rank).0
unfolding keep_or_switch tables
IsIntact-keep_or_switch t now r none best_rank v h = IsIntact-same t _ refl v
IsIntact-keep_or_switch t now r (some best) best_rank v h =
    let w = IsIntact-same t (record t { rank = r }) refl v in
    IsIntact-pair _ _ _ (IsIntact-set_parent (record t { rank = r }) best.addr best_rank now w h) w

IsIntact-replace_parent :
    (t : Node) (now : ℕ) (best : Option Neighbor) (best_rank : ℕ)
    → IsIntact t
    → IsNamedIfAny best
    → IsIntact (replace_parent t now best best_rank).0
unfolding replace_parent tables
IsIntact-replace_parent t now (some best) best_rank v h =
    IsIntact-set_parent t best.addr best_rank now v h
IsIntact-replace_parent t now none best_rank v h =
    IsIntact-pair _ _ _
      (IsIntact-emit_event _ route_lost null (IsIntact-same _ _ refl (orphan t v))) v

IsIntact-select_master : (t : Node) → IsIntact t → IsIntact (select_master t)
unfolding tables
IsIntact-select_master t v =
    let t1 = record t { rank = 0; parent = addr_invalid; connected = true } in
    let w = IsIntact-same _ t1 refl (orphan t v) in
    IsIntact-if (not t.joined) (announce_join t1) t1 (IsIntact-announce_join t1 w) w

pub IsIntact-select_parent : (t : Node) (now : ℕ) → IsIntact t → IsIntact (select_parent t now).0
unfolding select_parent
IsIntact-select_parent t now v =
    let named = IsNamedIfAny-best_candidate t v in
    IsIntact-pair (is_master t.role) _ _ (IsIntact-select_master t v) (
      IsIntact-pair (is_alive (current t) now) _ _
        (IsIntact-keep_or_switch t now (candidate_rank (current t)) (best_candidate t).0
          (best_candidate t).1 v named)
        (IsIntact-replace_parent t now (best_candidate t).0 (best_candidate t).1 v named))

IsIntact-forget_parent : (t : Node) → IsIntact t → IsIntact (forget_parent t)
unfolding tables
IsIntact-forget_parent t v =
    let removed =
      IsIntact-routes t (remove_via t.routes t.parent).0 v
        (remove_via-expire-IsValid t.routes t.parent 0 0 (IsValid-routes t v)).0 in
    let t1 =
      if t.parent == addr_invalid
      then t
      else record t { routes = (remove_via t.routes t.parent).0 } in
    IsIntact-emit_event _ disconnected null
      (IsIntact-same _ _ refl (orphan t1 (IsIntact-if (t.parent == addr_invalid) _ _ v removed)))

pub IsIntact-on_parent_lost : (t : Node) (now : ℕ) → IsIntact t → IsIntact (on_parent_lost t now)
unfolding on_parent_lost
IsIntact-on_parent_lost t now v =
    IsIntact-select_parent (forget_parent t) now (IsIntact-forget_parent t v)

pub IsIntact-routing_tick : (t : Node) (now : ℕ) → IsIntact t → IsIntact (routing_tick t now)
unfolding routing_tick
IsIntact-routing_tick t now v =
    let lost = IsIntact-on_parent_lost t now v in
    IsIntact-if _ _ _ v (IsIntact-if _ _ _ lost (IsIntact-if _ _ _ lost v))

pub IsIntact-on_beacon :
    (t : Node) (from rank parent flags interval_100ms : ℕ) (rssi snr : ℤ) (now : ℕ)
    → IsIntact t
    → Long from
    → IsIntact (on_beacon t from rank parent flags interval_100ms rssi snr now)
unfolding on_beacon tables
IsIntact-on_beacon t from rank parent flags interval_100ms rssi snr now v long =
    let heard = note_beacon t.neighbors from rank parent flags interval_100ms rssi snr now in
    let t1 = record t { neighbors = heard } in
    let w =
      IsIntact-neighbors t heard v
        (note_beacon-Lists t.neighbors from rank parent flags interval_100ms rssi snr now
          (IsTable-neighbors t v)).table
        (AreNamed-note_beacon t.neighbors from rank parent flags interval_100ms rssi snr now long
          (All-IsNamed t v)) in
    IsIntact-select_parent _ now (
      IsIntact-if (from == t.parent) (record t1 { parent_beacon_ms = now; parent_rank = rank }) t1
        (IsIntact-same t1 _ refl w) w)
