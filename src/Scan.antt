-- ===== src/Scan.antt =====
-- The scan for a table slot that src/link/neighbor.c (neighbor_oldest) and
-- src/routing/routing.c (route_slot) both make: a free slot at once, or the one idle for longest.
use treenity.Prelude.{ℕ, ◌+◌, ◌<◌, Bool, not, List, [], ◌∷◌, leb, if◌then◌else◌, arith, length}
use treenity.Util.{elapsed}

module _ {ℓ} {A : Type ℓ} (valid : A → Bool) (stamp : A → ℕ) (now : ℕ) where
  -- `i` is the index of the list's head in the table.
  unfoldable pub scan : List A → ℕ → ℕ → ℕ → ℕ
  scan [] i oldest max_age = oldest
  scan (x ∷ xs) i oldest max_age =
      let age = elapsed (stamp x) now in
      let older = leb max_age age in
      let rest = scan xs (i + 1) (if older then i else oldest) (if older then age else max_age) in
      if not (valid x) then i else rest

  scan_bound :
      (xs : List A) (i oldest max_age : ℕ)
      → oldest < i + length xs
      → scan xs i oldest max_age < i + length xs
  unfolding scan
  scan_bound [] i oldest max_age h = h
  scan_bound (x ∷ xs) i oldest max_age h = ground (
    arith,
    scan_bound xs (i + 1) (if leb max_age (elapsed (stamp x) now) then i else oldest)
        (if leb max_age (elapsed (stamp x) now) then elapsed (stamp x) now else max_age),
  )

  -- The chosen slot is one of the table.
  pub scan-lt : (xs : List A) → 0 < length xs → scan xs 0 0 0 < length xs
  scan-lt xs h = omega (arith, scan_bound xs 0 0 0 (omega arith))
