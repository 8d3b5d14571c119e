-- ===== src/Node/Intact/Named.antt =====
-- The neighbours that src/link/neighbor.c lists have addresses of the width on the wire, and so has the
-- parent that src/routing/routing.c selects among them.
use treenity.Prelude.{
  ℕ, ◌≡◌, refl, Bool, true, false, List, [], ◌∷◌, Option, none, some, arith, if◌then◌else◌,
  Option-cases, inl, inr,
}
use treenity.Prelude.Int.{ℤ}
use treenity.Config.{rank_infinite}
use treenity.Frame.Bytes.{Long}
use treenity.Neighbor.{
  Neighbor, NeighborTable, zero_neighbor, entry, set_entry, find, get_or_create, fresh_neighbor,
  neighbor_oldest, note_frame, note_beacon, update_cost,
}
use treenity.Node.State.{Node}
use treenity.Node.Parent.{best_loop, best_candidate}
use treenity.Node.Intact.{All, All-set, All-get_or, IsNamed, IsIntact, All-IsNamed}

-- Of every entry of a table.
abbrev pub AreNamed : NeighborTable → Type 0
AreNamed tbl = All IsNamed tbl.entries

pub IsNamed-entry : (tbl : NeighborTable) (i : ℕ) → AreNamed tbl → IsNamed (entry tbl i)
IsNamed-entry tbl i h = All-get_or IsNamed tbl.entries i zero_neighbor h (omega arith)

AreNamed-get_or_create :
    (tbl : NeighborTable) (addr now : ℕ)
    → Long addr
    → AreNamed tbl
    → AreNamed (get_or_create tbl addr now).0
unfolding get_or_create
AreNamed-get_or_create tbl addr now long h = elim (Option-cases (find tbl addr)) [
  | inl e ↦
      rw (e, get_or_create)
        (All-set IsNamed tbl.entries (neighbor_oldest tbl now) (fresh_neighbor addr now) h long)
  | inr (i, e) ↦ rw (e, get_or_create) h
]

-- The entry of a neighbour that is heard keeps its address.
pub AreNamed-set_entry :
    (tbl : NeighborTable) (i : ℕ) (n : Neighbor)
    → AreNamed tbl
    → n.addr ≡ (entry tbl i).addr
    → AreNamed (set_entry tbl i n)
AreNamed-set_entry tbl i n h e =
    All-set IsNamed tbl.entries i n h (omega (arith, e, IsNamed-entry tbl i h))

pub AreNamed-note_frame :
    (tbl : NeighborTable) (addr : ℕ) (rssi snr : ℤ) (now : ℕ)
    → Long addr
    → AreNamed tbl
    → AreNamed (note_frame tbl addr rssi snr now)
unfolding note_frame update_cost
AreNamed-note_frame tbl addr rssi snr now long h =
    AreNamed-set_entry (get_or_create tbl addr now).0 (get_or_create tbl addr now).1 _
      (AreNamed-get_or_create tbl addr now long h) refl

pub AreNamed-note_beacon :
    (tbl : NeighborTable) (addr rank parent flags interval_100ms : ℕ) (rssi snr : ℤ) (now : ℕ)
    → Long addr
    → AreNamed tbl
    → AreNamed (note_beacon tbl addr rank parent flags interval_100ms rssi snr now)
unfolding note_beacon update_cost
AreNamed-note_beacon tbl addr rank parent flags interval_100ms rssi snr now long h =
    AreNamed-set_entry (get_or_create tbl addr now).0 (get_or_create tbl addr now).1 _
      (AreNamed-get_or_create tbl addr now long h) refl

-- Of a candidate, if there is one.
abbrev pub IsNamedIfAny : Option Neighbor → Type 0
IsNamedIfAny none = Unit {0}
IsNamedIfAny (some n) = IsNamed n

IsNamedIfAny-if :
    (b : Bool) (n : Neighbor) (best : Option Neighbor)
    → IsNamed n
    → IsNamedIfAny best
    → IsNamedIfAny (if b then some n else best)
IsNamedIfAny-if true n best h k = h
IsNamedIfAny-if false n best h k = k

IsNamedIfAny-best_loop :
    (own now : ℕ) (ns : List Neighbor) (best : Option Neighbor) (best_rank : ℕ)
    → All IsNamed ns
    → IsNamedIfAny best
    → IsNamedIfAny (best_loop own now ns best best_rank).0
unfolding best_loop
IsNamedIfAny-best_loop own now [] best best_rank h k = k
IsNamedIfAny-best_loop own now (n ∷ ns) best best_rank h k =
    IsNamedIfAny-best_loop own now ns _ _ h.1 (IsNamedIfAny-if _ n best h.0 k)

pub IsNamedIfAny-best_candidate : (t : Node) → IsIntact t → IsNamedIfAny (best_candidate t).0
unfolding best_candidate
IsNamedIfAny-best_candidate t v =
    IsNamedIfAny-best_loop t.addr t.now_ms t.neighbors.entries none rank_infinite (All-IsNamed t v)
      tt
