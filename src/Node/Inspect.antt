-- ===== src/Node/Inspect.antt =====
-- What an application can ask of an instance: the last section of src/api/treenet.c.
use treenity.Prelude.{ℕ, zero, suc, Bool, not, List, [], ◌∷◌, ◌==◌, if◌then◌else◌}
use treenity.Prelude.Int.{ℤ, to_signed, to_unsigned}
use treenity.Util.{elapsed}
use treenity.Ewma
use treenity.Neighbor.{Neighbor}
use treenity.Node.State.{Node, Role, Stats}

-- `treenet_link_quality_t`
pub record LinkQuality : Type 0 where
  pub rssi_dbm : ℤ
  pub snr_db : ℤ
  pub pdr_q8 : ℕ
  pub etx_q8 : ℕ
  pub link_cost : ℕ

-- `treenet_neighbor_info_t`
pub record NeighborInfo : Type 0 where
  pub addr : ℕ
  pub lq : LinkQuality
  pub rank : ℕ
  pub age_ms : ℕ
  pub is_parent : Bool

unfoldable pub treenet_addr : Node → ℕ
treenet_addr t = t.addr

unfoldable pub treenet_role : Node → Role
treenet_role t = t.role

unfoldable pub treenet_parent : Node → ℕ
treenet_parent t = t.parent

unfoldable pub treenet_rank : Node → ℕ
treenet_rank t = t.rank

unfoldable pub treenet_is_connected : Node → Bool
treenet_is_connected t = t.connected

unfoldable pub treenet_stats : Node → Stats
treenet_stats t = t.stats

-- The casts `(int16_t)` and `(int8_t)` of an average.
abbrev pub int_cast : ℕ → ℤ → ℤ
int_cast modulus v = to_signed modulus (to_unsigned modulus v)

-- What one entry of the table is reported as.
unfoldable pub info_of : Node → Neighbor → NeighborInfo
info_of t nb = record {
  addr = nb.addr;
  lq = record {
    rssi_dbm = int_cast 65536 (Ewma.get nb.rssi);
    snr_db = int_cast 256 (Ewma.get nb.snr);
    pdr_q8 = if nb.pdr.init then to_unsigned 65536 (Ewma.get nb.pdr) else 256;
    etx_q8 = nb.etx_q8;
    link_cost = nb.link_cost;
  };
  rank = nb.rank;
  age_ms = elapsed nb.last_seen_ms t.now_ms;
  is_parent = nb.addr == t.parent;
}

-- The loop, with the room that is left in `out`.
unfoldable pub list_loop : Node → ℕ → List Neighbor → List NeighborInfo
list_loop t room [] = []
list_loop t zero (nb ∷ nbs) = []
list_loop t (suc room) (nb ∷ nbs) =
    let skipped = list_loop t (suc room) nbs in
    let rest = list_loop t room nbs in if not nb.valid then skipped else info_of t nb ∷ rest

-- What `out` holds; the result is its length.
unfoldable pub treenet_neighbors : Node → ℕ → List NeighborInfo
unfolding list_loop
treenet_neighbors t max = list_loop t max t.neighbors.entries
