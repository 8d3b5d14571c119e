-- ===== src/Routes/Lookup.antt =====
-- Installed, removed and expired routes: src/routing/routing.c.
use treenity.Prelude.{
  ℕ, zero, suc, ◌+◌, ◌-◌, ◌<◌, ◌≤◌, ◌≡◌, ◌≢◌, ◌⊎◌, ◌∙◌, refl, Bool, true, false, ◌&&◌, List, [],
  ◌∷◌, none, some, arith, leb, ◌==◌, if◌then◌else◌, get_or, set, length, find_index, Option-cases,
  inl, inr, get_or-set_self, length-set, count_if, count_if-set, count_if-le, find_index-lt,
  find_index-passes, find_index-set, length-set,
}
use treenity.Prelude.Word.{add32, u32, u32_mod}
use treenity.Config.{max_routes}
use treenity.Util.{elapsed}
use treenity.Scan.{scan-lt}
use treenity.Routes.Defs.{
  Route, RouteTable, entry, zero_route, leads_to, is_stale, lookup, route_slot, add, invalidate,
  remove_via, expire,
}

-- The table has its fixed size, and its counter is the number of valid routes.
pub record IsValid (t : RouteTable) : Type 0 where
  pub size : length t.entries ≡ max_routes
  pub counted : t.count ≡ count_if (λ r. r.valid) t.entries

abbrev pub new_route : ℕ → ℕ → ℕ → ℕ → ℕ → Route
new_route dst next_hop cost hops now = record {
  valid = true;
  dst = dst;
  next_hop = next_hop;
  cost = cost;
  hops = hops;
  updated_ms = now;
}

route_slot-lt : (t : RouteTable) (now : ℕ) → IsValid t → route_slot t now < max_routes
unfolding route_slot
route_slot-lt t now v = omega (
  arith,
  v.size,
  scan-lt (λ r. r.valid) (λ r. r.updated_ms) now t.entries (omega (arith, v.size)),
)

-- The table and its counter after slot `i` is written.
written :
    (t : RouteTable) (i : ℕ) (r : Route)
    → IsValid t
    → i < max_routes
    → r.valid ≡ true
    → IsValid (record {
      entries = set t.entries i r;
      count = if (entry t i).valid then t.count else u32 (t.count + 1);
    })
written t i r v lt valid = record {
  size = omega (arith, length-set t.entries i r, v.size);
  counted = ground (
    arith,
    valid,
    v.counted,
    v.size,
    lt,
    count_if-set (λ x. x.valid) t.entries i r zero_route (omega (arith, lt, v.size)),
    count_if-le (λ x. x.valid) t.entries,
  );
}

-- The slot a route is installed in: that of the route to the same destination, or one of the scan.
add-written :
    (t : RouteTable) (dst next_hop cost hops now : ℕ)
    → IsValid t
    → (i : ℕ) × (i < max_routes)
      × ((find_index (leads_to dst) t.entries ≡ none)
          ⊎ (find_index (leads_to dst) t.entries ≡ some i))
      × (add t dst next_hop cost hops now ≡ record {
        entries = set t.entries i (new_route dst next_hop cost hops now);
        count = if (entry t i).valid then t.count else u32 (t.count + 1);
      })
unfolding add
add-written t dst next_hop cost hops now v =
    elim (Option-cases (find_index (leads_to dst) t.entries)) [
      | inl e ↦ (route_slot t now, route_slot-lt t now v, inl e, rw (e, add) refl)
      | inr (i, e) ↦ (
        i,
        omega (arith, find_index-lt (leads_to dst) t.entries i e, v.size),
        inr e,
        ground (arith, e, find_index-passes (leads_to dst) t.entries i zero_route e),
      )
    ]

-- Installing a route keeps the table and its counter in step.
pub add-IsValid :
    (t : RouteTable) (dst next_hop cost hops now : ℕ)
    → IsValid t
    → IsValid (add t dst next_hop cost hops now)
add-IsValid t dst next_hop cost hops now v =
    let (i, lt, _, e) = add-written t dst next_hop cost hops now v in
    rw e (written t i (new_route dst next_hop cost hops now) v lt refl)

-- A route that was installed at `now` is found until its lifetime is over, and not afterwards.
pub lookup-add :
    (t : RouteTable) (dst next_hop cost hops now k timeout_ms : ℕ)
    → IsValid t
    → now < u32_mod
    → k < u32_mod
    → (lookup (add t dst next_hop cost hops now) dst (add32 now k) timeout_ms).1
      ≡ (if leb k timeout_ms then some (new_route dst next_hop cost hops now) else none)
unfolding lookup elapsed
lookup-add t dst next_hop cost hops now k timeout_ms v hn hk =
    let (i, lt, first, e) = add-written t dst next_hop cost hops now v in
    let r = new_route dst next_hop cost hops now in
    ground (
      arith,
      e,
      find_index-set (leads_to dst) t.entries i r first (omega (arith, lt, v.size)) (ground arith),
      get_or-set_self t.entries i r zero_route (omega (arith, lt, v.size)),
    )

-- The loop that invalidates routes.
invalidate-clean :
    (p : Route → Bool) (rs : List Route) (count removed i : ℕ)
    → (get_or (invalidate p rs count removed).0 i zero_route).valid ≡ true
    → p (get_or (invalidate p rs count removed).0 i zero_route) ≡ false
unfolding invalidate
invalidate-clean p [] count removed i h = ground (arith, h)
invalidate-clean p (r ∷ rs) count removed zero h = ground (arith, h)
invalidate-clean p (r ∷ rs) count removed (suc i) h =
    invalidate-clean p rs (if r.valid && p r then count - 1 else count)
      (if r.valid && p r then removed + 1 else removed) i h

-- After the routes via a neighbour are removed, a lookup never gives that neighbour.
pub lookup-remove_via :
    (t : RouteTable) (gone dst now timeout_ms : ℕ) (r : Route)
    → (lookup (remove_via t gone).0 dst now timeout_ms).1 ≡ some r
    → r.next_hop ≢ gone
unfolding lookup remove_via
lookup-remove_via t gone dst now timeout_ms r h =
    let es = (invalidate (λ r. r.next_hop == gone) t.entries t.count 0).0 in
    elim (Option-cases (find_index (leads_to dst) es)) [
      | inl e ↦ ground (arith, h, e)
      | inr (i, e) ↦ λ eq. ground (
        arith,
        h,
        e,
        eq,
        find_index-passes (leads_to dst) es i zero_route e,
        invalidate-clean (λ r. r.next_hop == gone) t.entries t.count 0 i,
      )
    ]

invalidate-counted :
    (p : Route → Bool) (rs : List Route) (count removed : ℕ)
    → count_if (λ r. r.valid) rs ≤ count
    → (length (invalidate p rs count removed).0 ≡ length rs)
      × ((invalidate p rs count removed).1 + count_if (λ r. r.valid) rs
          ≡ count + count_if (λ r. r.valid) (invalidate p rs count removed).0)
      × ((invalidate p rs count removed).2 + (invalidate p rs count removed).1 ≡ removed + count)
unfolding invalidate
invalidate-counted p [] count removed h = (refl, refl, refl)
invalidate-counted p (r ∷ rs) count removed h = ground (
  arith,
  h,
  invalidate-counted p rs (if r.valid && p r then count - 1 else count)
      (if r.valid && p r then removed + 1 else removed) (ground (arith, h)),
)

-- Removing the routes via a neighbour and expiring the stale ones keep the table and its counter in
-- step, and return the number of routes removed.
pub remove_via-expire-IsValid :
    (t : RouteTable) (gone now timeout_ms : ℕ)
    → IsValid t
    → IsValid (remove_via t gone).0
      × ((remove_via t gone).1 + (remove_via t gone).0.count ≡ t.count)
      × IsValid (expire t now timeout_ms).0
      × ((expire t now timeout_ms).1 + (expire t now timeout_ms).0.count ≡ t.count)
unfolding remove_via expire
remove_via-expire-IsValid t gone now timeout_ms v =
    let a =
      invalidate-counted (λ r. r.next_hop == gone) t.entries t.count 0 (omega (arith, v.counted)) in
    let b =
      invalidate-counted (is_stale now timeout_ms) t.entries t.count 0 (omega (arith, v.counted)) in
    (
      record { size = a.0 ∙ v.size; counted = omega (arith, a, v.counted) },
      omega (arith, a),
      record { size = b.0 ∙ v.size; counted = omega (arith, b, v.counted) },
      omega (arith, b),
    )
