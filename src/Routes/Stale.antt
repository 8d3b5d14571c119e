-- ===== src/Routes/Stale.antt =====
-- A lookup in src/routing/routing.c drops the route that it finds stale.
use treenity.Prelude.{
  ℕ, ◌-◌, ◌≡◌, ◌∙◌, false, some, arith, length-set, set, find_index, find_index-lt,
  find_index-passes, count_if-set, Option-cases, Bool-cases, inl, inr,
}
use treenity.Routes.Defs.{RouteTable, entry, zero_route, leads_to, is_stale, lookup}
use treenity.Routes.Lookup.{IsValid}

-- An entry in use that is given up.
dropped-IsValid :
    (t : RouteTable) (dst i : ℕ)
    → IsValid t
    → find_index (leads_to dst) t.entries ≡ some i
    → IsValid (record {
      entries = set t.entries i (record (entry t i) { valid = false });
      count = t.count - 1;
    })
dropped-IsValid t dst i v e =
    let r = record (entry t i) { valid = false } in
    record {
      size = length-set t.entries i r ∙ v.size;
      counted = ground (
        arith,
        v.counted,
        find_index-passes (leads_to dst) t.entries i zero_route e,
        count_if-set (λ x. x.valid) t.entries i r zero_route
            (find_index-lt (leads_to dst) t.entries i e),
      );
    }

pub lookup-IsValid :
    (t : RouteTable) (dst now timeout_ms : ℕ) → IsValid t → IsValid (lookup t dst now timeout_ms).0
unfolding lookup
lookup-IsValid t dst now timeout_ms v = elim (Option-cases (find_index (leads_to dst) t.entries)) [
  | inl e ↦ rw (e, lookup) v
  | inr (i, e) ↦ elim (Bool-cases (is_stale now timeout_ms (entry t i))) [
    | inl stale ↦ rw (e, stale, lookup) (dropped-IsValid t dst i v e)
    | inr fresh ↦ rw (e, fresh, lookup) v
  ]
]
