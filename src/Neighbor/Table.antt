-- ===== src/Neighbor/Table.antt =====
-- The neighbour table of src/link/neighbor.c as a set of addresses: each at most once, with a counter
-- that is their number.
use treenity.Prelude.{
  ℕ, zero, suc, ◌<◌, ◌≡◌, refl, sym, ap, ◌∙◌, subst, true, none, some, arith, length, get_or,
  get_or-set_self, find_index-lt, find_index-none, find_index-passes, find_index, Option-cases, inl,
  inr, replicate, length-replicate,
}
use treenity.Prelude.Int.{ℤ}
use treenity.Config.{max_neighbors}
use treenity.Neighbor.Defs.{
  Neighbor, NeighborTable, zero_neighbor, entry, set_entry, has_addr, find, neighbor_oldest,
  fresh_neighbor, get_or_create, update_cost, note_frame, note_beacon, table_init,
}
use treenity.Neighbor.Unique.{IsTable, put, oldest-lt, Alone, put-IsTable, has_addr-parts, outside}

taken-find :
    (t : NeighborTable) (j addr : ℕ)
    → (entry t j).valid ≡ true
    → (entry t j).addr ≡ addr
    → j < length t.entries
    → find_index (has_addr addr) t.entries ≡ none
    → ⊥
taken-find t j addr used same lt e =
    let none_there = find_index-none (has_addr addr) t.entries j zero_neighbor e lt in
    ground (arith, none_there, used, same)

find-Alone : (t : NeighborTable) (i addr : ℕ) → IsTable t → find t addr ≡ some i → Alone t i addr
unfolding find
find-Alone t i addr v e = record {
  inside = omega (arith, find_index-lt (has_addr addr) t.entries i e, v.size);
  first = inr e;
  others = λ j used same ne.
      let own = find_index-passes (has_addr addr) t.entries i zero_neighbor e in
      let (used_i, addr_i) = has_addr-parts addr (entry t i) own in
      ne (v.distinct i j used_i used (addr_i ∙ sym same));
}

free-Alone :
    (t : NeighborTable) (now addr : ℕ)
    → IsTable t
    → find t addr ≡ none
    → Alone t (neighbor_oldest t now) addr
unfolding find
free-Alone t now addr v e = record {
  inside = oldest-lt t now v;
  first = inl e;
  others = λ j used same ne. absurd (taken-find t j addr used same (outside t j used) e);
}

-- The slot that get_or_create chooses, and the table it leaves.
get_or_create-cases :
    (t : NeighborTable) (addr now : ℕ)
    → IsTable t
    → IsTable (get_or_create t addr now).0
      × (find (get_or_create t addr now).0 addr ≡ some (get_or_create t addr now).1)
unfolding get_or_create
get_or_create-cases t addr now v = elim (Option-cases (find t addr)) [
  | inl e ↦
      rw (e, get_or_create)
        (put-IsTable t (neighbor_oldest t now) (fresh_neighbor addr now) v refl
          (free-Alone t now addr v e))
  | inr (i, e) ↦ rw (e, get_or_create) (v, e)
]

-- The entry of a neighbour, written back with its address.
pub rewritten :
    (t : NeighborTable) (addr i : ℕ) (n : Neighbor)
    → IsTable t
    → find t addr ≡ some i
    → n.valid ≡ (entry t i).valid
    → n.addr ≡ (entry t i).addr
    → IsTable (set_entry t i n)
      × (find (set_entry t i n) addr ≡ some i)
      × (entry (set_entry t i n) i ≡ n)
unfolding find
rewritten t addr i n v e valid same =
    let own = find_index-passes (has_addr addr) t.entries i zero_neighbor e in
    let (used_i, addr_i) = has_addr-parts addr (entry t i) own in
    let there : n.addr ≡ addr = same ∙ addr_i in
    let (w, found) =
      put-IsTable t i n v (valid ∙ used_i)
        (subst (Alone t i) (sym there) (find-Alone t i addr v e)) in
    let count : put t i n ≡ set_entry t i n = ground (arith, used_i) in
    (
      subst IsTable count w,
      subst (λ u. find_index (has_addr addr) u.entries ≡ some i) count
          (subst (λ z. find_index (has_addr z) (put t i n).entries ≡ some i) there found),
      get_or-set_self t.entries i n zero_neighbor (find_index-lt (has_addr addr) t.entries i e),
    )

-- A table that is well formed, in which `addr` is found, with this entry.
pub record Lists (t : NeighborTable) (addr rank parent flags now : ℕ) : Type 0 where
  pub table : IsTable t
  pub at : ℕ
  pub found : find t addr ≡ some at
  pub rank_is : (entry t at).rank ≡ rank
  pub parent_is : (entry t at).parent ≡ parent
  pub flags_are : (entry t at).flags ≡ flags
  pub seen : (entry t at).last_seen_ms ≡ now

-- A beacon leaves the table well formed, with its sender in it under its address, its rank, parent and
-- flags as the beacon says, seen at its reception.
pub note_beacon-Lists :
    (t : NeighborTable) (addr rank parent flags interval_100ms : ℕ) (rssi snr : ℤ) (now : ℕ)
    → IsTable t
    → Lists
        (note_beacon t addr rank parent flags interval_100ms rssi snr now)
        addr
        rank
        parent
        flags
        now
unfolding note_beacon update_cost
note_beacon-Lists t addr rank parent flags interval_100ms rssi snr now v =
    let (v', e) = get_or_create-cases t addr now v in
    let (t', i) = get_or_create t addr now in
    let (w, found, is) = rewritten t' addr i _ v' e refl refl in
    record {
      table = w;
      at = i;
      found = found;
      rank_is = ap (λ m. m.rank) is;
      parent_is = ap (λ m. m.parent) is;
      flags_are = ap (λ m. m.flags) is;
      seen = ap (λ m. m.last_seen_ms) is;
    }

-- Any other frame leaves the table well formed too, with its sender in it.
pub note_frame-IsTable :
    (t : NeighborTable) (addr : ℕ) (rssi snr : ℤ) (now : ℕ)
    → IsTable t
    → IsTable (note_frame t addr rssi snr now)
      × (find (note_frame t addr rssi snr now) addr ≡ some (get_or_create t addr now).1)
unfolding note_frame update_cost
note_frame-IsTable t addr rssi snr now v =
    let (v', e) = get_or_create-cases t addr now v in
    let (t', i) = get_or_create t addr now in
    let (w, found, is) = rewritten t' addr i _ v' e refl refl in (w, found)

-- The table of a new instance.
pub table_init-IsTable : IsTable table_init
unfolding table_init
table_init-IsTable = record {
  size = length-replicate max_neighbors zero_neighbor;
  counted = refl;
  distinct = λ i j used_i used_j e. absurd (nothing i used_i);
}
  where
    blank_entry : (k i : ℕ) → get_or (replicate k zero_neighbor) i zero_neighbor ≡ zero_neighbor
    blank_entry zero i = refl
    blank_entry (suc k) zero = refl
    blank_entry (suc k) (suc i) = blank_entry k i

    nothing :
        (i : ℕ) → (get_or (replicate max_neighbors zero_neighbor) i zero_neighbor).valid ≡ true → ⊥
    nothing i used = ground (arith, ap (λ m. m.valid) (blank_entry max_neighbors i), used)
