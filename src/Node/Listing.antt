-- ===== src/Node/Listing.antt =====
-- treenet_neighbors of src/api/treenet.c against the list of the entries in use.
use treenity.Prelude.{
  ℕ, zero, suc, ◌≡◌, refl, ap, ◌∙◌, List, [], ◌∷◌, length, take, map, arith, Bool-cases, inl, inr,
  count_if, min, if◌then◌else◌, length-take,
}
use treenity.Neighbor.{Neighbor}
use treenity.Node.State.{Node}
use treenity.Node.Inspect.{info_of, list_loop, treenet_neighbors}

-- The entries in use, in table order.
abbrev pub in_use : List Neighbor → List Neighbor
in_use [] = []
in_use (nb ∷ nbs) = if nb.valid then nb ∷ in_use nbs else in_use nbs

list_loop-take :
    (t : Node) (room : ℕ) (nbs : List Neighbor)
    → list_loop t room nbs ≡ take room (map (info_of t) (in_use nbs))
unfolding list_loop
list_loop-take t zero [] = refl
list_loop-take t (suc room) [] = refl
list_loop-take t zero (nb ∷ nbs) = refl
list_loop-take t (suc room) (nb ∷ nbs) = elim (Bool-cases nb.valid) [
  | inl used ↦ simp used (ap (◌∷◌ (info_of t nb)) (list_loop-take t room nbs))
  | inr free ↦ simp free (list_loop-take t (suc room) nbs)
]

length-map-in_use :
    (t : Node) (nbs : List Neighbor)
    → length (map (info_of t) (in_use nbs)) ≡ count_if (λ nb. nb.valid) nbs
length-map-in_use t [] = refl
length-map-in_use t (nb ∷ nbs) = ground (arith, length-map-in_use t nbs)

-- The application is given the first `max` of the entries in use, in table order; the result is their
-- number, the smaller of `max` and the number of entries in use.
pub treenet_neighbors-take :
    (t : Node) (max : ℕ)
    → (treenet_neighbors t max ≡ take max (map (info_of t) (in_use t.neighbors.entries)))
      × (length (treenet_neighbors t max) ≡ min max (count_if (λ nb. nb.valid) t.neighbors.entries))
unfolding treenet_neighbors
treenet_neighbors-take t max =
    let same = list_loop-take t max t.neighbors.entries in
    (
      same,
      ap length same
          ∙ length-take max (map (info_of t) (in_use t.neighbors.entries))
          ∙ ap (min max) (length-map-in_use t t.neighbors.entries),
    )
