-- ===== src/Node/Late.antt =====
-- Parent selection in src/routing/routing.c when the clock is in its upper half.
use treenity.Prelude.{ℕ, ◌<◌, ◌≡◌, true, false, Option, none, arith, Option-cases, inl, inr}
use treenity.Config.{rank_infinite, addr_invalid}
use treenity.Neighbor
use treenity.Neighbor.{Neighbor, NeighborTable}
use treenity.Node.State.{Node}
use treenity.Node.Event.{emit_event}
use treenity.Node.Control.{is_master}
use treenity.Node.Parent.{select_parent, replace_parent, is_alive, current}
use treenity.Node.Candidate.{IsBest, nobody, somebody, best_candidate_lem}
use treenity.Node.Rank.{neighbor_usable-late}

-- No neighbour of the table has ever been suspect.
abbrev pub NeverSuspect : NeighborTable → Type 0
NeverSuspect tbl = (i : ℕ) → (Neighbor.entry tbl i).suspect_until_ms ≡ 0

module _ (t : Node) (clean : NeverSuspect t.neighbors) (lo : 2147483648 < t.now_ms)
    (hi : t.now_ms < 4294967296) where
  none_best :
      (res : Option Neighbor × ℕ)
      → IsBest t.addr t.now_ms rank_infinite none t.neighbors.entries res
      → res ≡ (none, rank_infinite)
  none_best res (nobody _ eq) = eq
  none_best res (somebody i lt el _ _ _ _) =
      ground
        (arith, el, neighbor_usable-late (Neighbor.entry t.neighbors i) t.now_ms (clean i) lo hi)

  dead : is_alive (current t) t.now_ms ≡ false
  dead = elim (Option-cases (Neighbor.find t.neighbors t.parent)) [
    | inl none_e ↦ ground (arith, none_e)
    | inr (i, some_e) ↦ ground (
      arith,
      some_e,
      neighbor_usable-late (Neighbor.entry t.neighbors i) t.now_ms (clean i) lo hi,
    )
  ]

-- In the upper half of the clock's range a node that is connected loses its parent at the next
-- selection, though the parent may just have been heard, if none of its neighbours has ever been
-- suspect.
pub select_parent-late :
    (t : Node)
    → NeverSuspect t.neighbors
    → 2147483648 < t.now_ms
    → t.now_ms < 4294967296
    → is_master t.role ≡ false
    → t.connected ≡ true
    → ((select_parent t t.now_ms).0.parent ≡ addr_invalid)
      × ((select_parent t t.now_ms).0.connected ≡ false)
unfolding select_parent replace_parent emit_event
select_parent-late t clean lo hi hm hc =
    ground (arith, hm, hc, none_best t clean lo hi _ (best_candidate_lem t), dead t clean lo hi)
