-- ===== src/Neighbor/Unique.antt =====
-- Writing one entry of the table of src/link/neighbor.c: when every address stays listed at most once.
use treenity.Prelude.{
  ℕ, zero, suc, ◌+◌, ◌<◌, ◌≡◌, ◌≢◌, ◌⊎◌, sym, ap, ◌∙◌, true, List, [], ◌∷◌, none, some, arith,
  length, length-set, get_or, set, get_or-set_self, get_or-set_ne, find_index-set, find_index,
  count_if, count_if-set, count_if-le, if◌then◌else◌, ℕ_discrete,
}
use treenity.Prelude.Word.{u32}
use treenity.Config.{max_neighbors}
use treenity.Scan.{scan-lt}
use treenity.Neighbor.Defs.{
  Neighbor, NeighborTable, zero_neighbor, entry, has_addr, find, neighbor_oldest,
}

-- The table has its fixed size, its counter is the number of entries in use, and no address is in use
-- twice.
pub record IsTable (t : NeighborTable) : Type 0 where
  pub size : length t.entries ≡ max_neighbors
  pub counted : t.count ≡ count_if (λ n. n.valid) t.entries
  pub distinct :
      (i j : ℕ)
      → (entry t i).valid ≡ true
      → (entry t j).valid ≡ true
      → (entry t i).addr ≡ (entry t j).addr
      → i ≡ j

-- The table with slot `i` in use for an address that no other slot has.
abbrev pub put : NeighborTable → ℕ → Neighbor → NeighborTable
put t i n = record {
  entries = set t.entries i n;
  count = if (entry t i).valid then t.count else u32 (t.count + 1);
}

pub oldest-lt : (t : NeighborTable) (now : ℕ) → IsTable t → neighbor_oldest t now < max_neighbors
unfolding neighbor_oldest
oldest-lt t now v = omega (
  arith,
  v.size,
  scan-lt (λ n. n.valid) (λ n. n.last_seen_ms) now t.entries (omega (arith, v.size)),
)

-- Slot `i` is the only one for `addr`, or there is none.
pub record Alone (t : NeighborTable) (i addr : ℕ) : Type 0 where
  pub inside : i < max_neighbors
  pub first :
      (find_index (has_addr addr) t.entries ≡ none)
      ⊎ (find_index (has_addr addr) t.entries ≡ some i)
  pub others : (j : ℕ) → (entry t j).valid ≡ true → (entry t j).addr ≡ addr → i ≢ j → ⊥

pub put-IsTable :
    (t : NeighborTable) (i : ℕ) (n : Neighbor)
    → IsTable t
    → n.valid ≡ true
    → Alone t i n.addr
    → IsTable (put t i n) × (find (put t i n) n.addr ≡ some i)
unfolding find
put-IsTable t i n v valid alone = (
  record {
    size = length-set t.entries i n ∙ v.size;
    counted = ground (
      arith,
      valid,
      v.counted,
      v.size,
      alone.inside,
      count_if-set (λ m. m.valid) t.entries i n zero_neighbor (omega (arith, alone.inside, v.size)),
      count_if-le (λ m. m.valid) (set t.entries i n),
      length-set t.entries i n,
    );
    distinct = distinct_after;
  },
  find_index-set (has_addr n.addr) t.entries i n alone.first (omega (arith, alone.inside, v.size))
      (ground (arith, valid)),
)
  where
    len : i < length t.entries
    len = omega (arith, alone.inside, v.size)

    here : entry (put t i n) i ≡ n
    here = get_or-set_self t.entries i n zero_neighbor len

    there : (j : ℕ) → i ≢ j → entry (put t i n) j ≡ entry t j
    there j ne = get_or-set_ne t.entries i j n zero_neighbor ne

    -- Another slot in use does not have the address.
    apart :
        (j : ℕ)
        → i ≢ j
        → (entry (put t i n) j).valid ≡ true
        → (entry (put t i n) j).addr ≡ n.addr
        → ⊥
    apart j ne used same =
        alone.others j (sym (ap (λ m. m.valid) (there j ne)) ∙ used)
          (sym (ap (λ m. m.addr) (there j ne)) ∙ same) ne

    distinct_after :
        (j k : ℕ)
        → (entry (put t i n) j).valid ≡ true
        → (entry (put t i n) k).valid ≡ true
        → (entry (put t i n) j).addr ≡ (entry (put t i n) k).addr
        → j ≡ k
    distinct_after j k used_j used_k same = elim (ℕ_discrete i j) [
      | yes at_j ↦ elim (ℕ_discrete i k) [
        | yes at_k ↦ sym at_j ∙ at_k
        | no not_k ↦ absurd (
            apart k not_k used_k
              (sym same ∙ ap (λ m. (entry (put t i n) m).addr) (sym at_j) ∙ ap (λ m. m.addr) here))
      ]
      | no not_j ↦ elim (ℕ_discrete i k) [
        | yes at_k ↦ absurd (
            apart j not_j used_j
              (same ∙ ap (λ m. (entry (put t i n) m).addr) (sym at_k) ∙ ap (λ m. m.addr) here))
        | no not_k ↦
            v.distinct j k (sym (ap (λ m. m.valid) (there j not_j)) ∙ used_j)
              (sym (ap (λ m. m.valid) (there k not_k)) ∙ used_k)
              (sym (ap (λ m. m.addr) (there j not_j)) ∙ same ∙ ap (λ m. m.addr) (there k not_k))
      ]
    ]

pub has_addr-parts :
    (addr : ℕ) (n : Neighbor) → has_addr addr n ≡ true → (n.valid ≡ true) × (n.addr ≡ addr)
has_addr-parts addr n e = ground (arith, e)

-- Behind the end nothing is in use.
pub outside : (t : NeighborTable) (j : ℕ) → (entry t j).valid ≡ true → j < length t.entries
outside t j used = in_use-lt t.entries j used
  where
    in_use-lt :
        (xs : List Neighbor) (j : ℕ) → (get_or xs j zero_neighbor).valid ≡ true → j < length xs
    in_use-lt [] j used = absurd (ground (arith, used))
    in_use-lt (x ∷ xs) zero used = omega arith
    in_use-lt (x ∷ xs) (suc j) used = omega (arith, in_use-lt xs j used)
