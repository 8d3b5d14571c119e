-- ===== src/Node/Candidate.antt =====
-- What best_candidate of src/routing/routing.c selects.
use treenity.Prelude.{
  ℕ, zero, suc, ◌<◌, ◌≤◌, ◌≡◌, refl, Bool, true, false, not, ◌&&◌, List, [], ◌∷◌, Option, none,
  some, ltb, ◌==◌, arith, if◌then◌else◌, get_or, length,
}
use treenity.Config.{rank_infinite}
use treenity.Neighbor.{Neighbor, zero_neighbor}
use treenity.Node.State.{Node}
use treenity.Node.Parent.{candidate_rank, neighbor_usable, best_loop, best_candidate}

-- A neighbour other than the node itself that may be its parent.
abbrev pub is_eligible : ℕ → ℕ → Neighbor → Bool
is_eligible own now n = neighbor_usable n now && not (n.addr == own)

abbrev pub rank_via : Neighbor → ℕ
rank_via n = candidate_rank (some n)

-- No eligible neighbour of `ns` offers a rank below `limit`.
abbrev pub NoneBelow : (own now limit : ℕ) → List Neighbor → Type 0
NoneBelow own now limit ns =
    (j : ℕ)
    → j < length ns
    → is_eligible own now (get_or ns j zero_neighbor) ≡ true
    → limit ≤ rank_via (get_or ns j zero_neighbor)

-- Every eligible neighbour of `ns` before position `i` offers a rank above `rank`.
abbrev pub AllAbove : (own now rank i : ℕ) → List Neighbor → Type 0
AllAbove own now rank i ns =
    (j : ℕ)
    → j < i
    → is_eligible own now (get_or ns j zero_neighbor) ≡ true
    → rank < rank_via (get_or ns j zero_neighbor)

-- `res` is the first eligible neighbour of `ns` that offers the lowest rank, with that rank, if it
-- is below `limit`; else it is `start`.
pub data IsBest (own now limit : ℕ) (start : Option Neighbor) (ns : List Neighbor)
    (res : Option Neighbor × ℕ) : Type 0 where
  nobody : NoneBelow own now limit ns → res ≡ (start, limit) → IsBest own now limit start ns res
  somebody :
      (i : ℕ)
      → i < length ns
      → is_eligible own now (get_or ns i zero_neighbor) ≡ true
      → rank_via (get_or ns i zero_neighbor) < limit
      → NoneBelow own now (rank_via (get_or ns i zero_neighbor)) ns
      → AllAbove own now (rank_via (get_or ns i zero_neighbor)) i ns
      → res ≡ (some (get_or ns i zero_neighbor), rank_via (get_or ns i zero_neighbor))
      → IsBest own now limit start ns res

module _ (own now limit : ℕ) (start : Option Neighbor) (n : Neighbor) (ns : List Neighbor)
    (res : Option Neighbor × ℕ) where
  -- The head is not better than what is known.
  skip :
      (is_eligible own now n ≡ true → limit ≤ rank_via n)
      → IsBest own now limit start ns res
      → IsBest own now limit start (n ∷ ns) res
  skip h (nobody hs eq) =
      nobody (elim [ zero ↦ λ _ el. h el | suc j ↦ λ lt el. hs j (omega (arith, lt)) el ]) eq
  skip h (somebody i lt el below hs ahead eq) =
      somebody (suc i) (omega (arith, lt)) el below
        (elim [
          | zero ↦ λ _ el'. omega (arith, h el', below)
          | suc j ↦ λ lt' el'. hs j (omega (arith, lt')) el'
        ])
        (elim [
          | zero ↦ λ _ el'. omega (arith, h el', below)
          | suc j ↦ λ lt' el'. ahead j (omega (arith, lt')) el'
        ])
        eq

  -- The head is better.
  take_head :
      is_eligible own now n ≡ true
      → rank_via n < limit
      → IsBest own now (rank_via n) (some n) ns res
      → IsBest own now limit start (n ∷ ns) res
  take_head el below (nobody hs eq) =
      somebody 0 (omega arith) el below
        (elim [ zero ↦ λ _ _. omega arith | suc j ↦ λ lt el'. hs j (omega (arith, lt)) el' ])
        (λ j none_before _. absurd (omega (arith, none_before))) eq
  take_head el below (somebody i lt el' below' hs ahead eq) =
      somebody (suc i) (omega (arith, lt)) el' (omega (arith, below, below'))
        (elim [
          | zero ↦ λ _ _. omega (arith, below')
          | suc j ↦ λ lt' el''. hs j (omega (arith, lt')) el''
        ])
        (elim [
          | zero ↦ λ _ _. omega (arith, below')
          | suc j ↦ λ lt' el''. ahead j (omega (arith, lt')) el''
        ])
        eq

  -- One round of the loop.
  step :
      (b : Bool)
      → b ≡ (neighbor_usable n now && not (n.addr == own) && ltb (rank_via n) limit)
      → IsBest own now (if b then rank_via n else limit) (if b then some n else start) ns res
      → IsBest own now limit start (n ∷ ns) res
  step true e h = take_head (ground arith) (ground arith) h
  step false e h = skip (λ el. ground arith) h

best_loop_lem :
    (own now : ℕ) (ns : List Neighbor) (start : Option Neighbor) (limit : ℕ)
    → IsBest own now limit start ns (best_loop own now ns start limit)
unfolding best_loop
best_loop_lem own now [] start limit = nobody (λ j lt _. omega (arith, lt)) refl
best_loop_lem own now (n ∷ ns) start limit =
    step own now limit start n ns _ _ refl (best_loop_lem own now ns _ _)

-- The candidate is the neighbour with the lowest rank among those that are usable and not the node
-- itself, and each of these before it in the table offers a higher rank; there is none only if none of
-- them offers a finite rank. Usable means, as in the code, that some frame came from it within the
-- parent timeout, whatever its kind, and that its link is not suspect.
pub best_candidate_lem :
    (t : Node) → IsBest t.addr t.now_ms rank_infinite none t.neighbors.entries (best_candidate t)
unfolding best_candidate
best_candidate_lem t = best_loop_lem t.addr t.now_ms t.neighbors.entries none rank_infinite
