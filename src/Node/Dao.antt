-- ===== src/Node/Dao.antt =====
-- tn_dao_handle of src/routing/routing.c.
use treenity.Prelude.{ℕ, ◌+◌, Bool, true, false, ◌||◌, none, some, ltb, ◌==◌, if◌then◌else◌}
use treenity.Prelude.Word.{u8}
use treenity.Config.{max_hops, addr_broadcast, addr_invalid}
use treenity.Frame.{Frame, Dao, dao_decode}
use treenity.Neighbor
use treenity.Routes
use treenity.Node.State.{Node, next_seq}
use treenity.Node.Tx.{tx_submit}
use treenity.Node.Control.{is_master, is_queued, dao_frame}
use treenity.Node.Beacon.{is_leaf}

abbrev pub bad_dao : Dao → Frame → Bool
bad_dao d f =
    d.origin == addr_invalid
    || d.origin == addr_broadcast
    || ltb max_hops d.hops
    || f.prev == addr_invalid
    || f.prev == addr_broadcast

-- `via ? via->link_cost : 0`
abbrev pub link_cost_to : Node → ℕ → ℕ
link_cost_to t addr = elim (Neighbor.find t.neighbors addr) [
  | none ↦ 0
  | some i ↦ (Neighbor.entry t.neighbors i).link_cost
]

abbrev pub install_route : Node → Dao → Frame → ℕ → Node
install_route t d f now = record t {
  routes = Routes.add t.routes d.origin f.prev (link_cost_to t f.prev) (u8 (d.hops + 1)) now;
}

-- The part of tn_dao_handle behind the checks. The result 0 is true.
unfoldable pub dao_install : Node → Dao → Frame → ℕ → Node × Bool
unfolding next_seq
dao_install t d f now =
    let t1 = install_route t d f now in
    if is_master t1.role
    then (t1, true)
    else if t1.parent == addr_invalid
    then (t1, false)
    else if f.prev == t1.parent
    then (t1, true)
    else let (t2, seq) = next_seq t1 in
      let (t3, result) =
        tx_submit t2 (dao_frame t2 d.origin d.origin (u8 (d.hops + 1)) seq) true t2.parent 0 in
      (t3, is_queued result)

unfoldable pub dao_handle : Node → Frame → ℕ → Node × Bool
unfolding dao_install
dao_handle t f now =
    if is_leaf t.role then (t, true) else elim (dao_decode f.payload f.payload_len) [
      | none ↦ (t, false)
      | some d ↦
          if bad_dao d f
          then (t, false)
          else if d.origin == t.addr
          then (t, true)
          else dao_install t d f now
    ]
