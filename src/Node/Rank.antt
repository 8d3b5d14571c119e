-- ===== src/Node/Rank.antt =====
-- The rank that a neighbour offers, and when it may be chosen: candidate_rank and neighbor_usable of
-- src/routing/routing.c.
use treenity.Prelude.{ℕ, ◌+◌, ◌<◌, ◌≤◌, ◌≡◌, false, Option, none, some, arith, bit_and, ◌==◌}
use treenity.Config.{rank_step, rank_infinite}
use treenity.Util.{time_after}
use treenity.Neighbor.{Neighbor}
use treenity.Node.Beacon.{beacon_router}
use treenity.Node.Parent.{candidate_rank, neighbor_usable, neighbor_fresh}

-- A neighbour whose rank and link cost are 16-bit numbers offers a finite rank only if it is a
-- router, and then its own rank plus the step of 8 plus the cost of the link.
pub candidate_rank-finite :
    (n : Neighbor)
    → n.rank < 65536
    → n.link_cost < 65536
    → candidate_rank (some n) < rank_infinite
    → (bit_and n.flags beacon_router == 0 ≡ false)
      × (candidate_rank (some n) ≡ n.rank + (rank_step + n.link_cost))
unfolding candidate_rank
candidate_rank-finite n hr hc h = ground arith

pub candidate_rank-le : (n : Option Neighbor) → candidate_rank n ≤ rank_infinite
unfolding candidate_rank
candidate_rank-le none = omega arith
candidate_rank-le (some n) = ground arith

-- Half the range of the clock after the start, no neighbour that has never been suspect is usable,
-- however recently it was heard.
pub neighbor_usable-late :
    (n : Neighbor) (now : ℕ)
    → n.suspect_until_ms ≡ 0
    → 2147483648 < now
    → now < 4294967296
    → neighbor_usable n now ≡ false
unfolding neighbor_usable neighbor_fresh time_after
neighbor_usable-late n now hs lo hi = ground arith
