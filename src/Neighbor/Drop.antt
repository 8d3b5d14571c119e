-- ===== src/Neighbor/Drop.antt =====
-- Clearing the entry of a neighbour that has gone silent: tn_age_neighbors of src/api/treenet.c.
use treenity.Prelude.{
  ℕ, ◌-◌, ◌≡◌, sym, ap, ◌∙◌, true, arith, length-set, get_or-set_self, get_or-set_ne, count_if-set,
  ℕ_discrete,
}
use treenity.Neighbor.Defs.{NeighborTable, zero_neighbor, entry, set_entry}
use treenity.Neighbor.Unique.{IsTable, outside}

module _ (t : NeighborTable) (i : ℕ) (v : IsTable t) (used : (entry t i).valid ≡ true) where
  abbrev pub cleared : NeighborTable
  cleared = record { entries = (set_entry t i zero_neighbor).entries; count = t.count - 1 }

  -- An entry in use is not the cleared one, so it is as it was.
  kept : (j : ℕ) → (entry cleared j).valid ≡ true → entry cleared j ≡ entry t j
  kept j in_use = elim (ℕ_discrete i j) [
    | yes e ↦ absurd (
        ground (
          arith,
          in_use,
          e,
          ap (λ m. m.valid)
              (get_or-set_self t.entries i zero_neighbor zero_neighbor (outside t i used)),
        ))
    | no ne ↦ get_or-set_ne t.entries i j zero_neighbor zero_neighbor ne
  ]

  pub cleared-IsTable : IsTable cleared
  cleared-IsTable = record {
    size = length-set t.entries i zero_neighbor ∙ v.size;
    counted = ground (
      arith,
      used,
      v.counted,
      count_if-set (λ m. m.valid) t.entries i zero_neighbor zero_neighbor (outside t i used),
    );
    distinct = λ j k in_j in_k same.
        v.distinct j k (sym (ap (λ m. m.valid) (kept j in_j)) ∙ in_j)
          (sym (ap (λ m. m.valid) (kept k in_k)) ∙ in_k)
          (sym (ap (λ m. m.addr) (kept j in_j)) ∙ same ∙ ap (λ m. m.addr) (kept k in_k));
  }
