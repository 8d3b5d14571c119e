-- ===== src/Routes/Defs.antt =====
-- The route table operations of src/routing/routing.c. A pointer into the table is an index.
use treenity.Prelude.{
  ℕ, ◌+◌, ◌-◌, Bool, true, false, ◌&&◌, List, [], ◌∷◌, Option, none, some, ltb, ◌==◌, if◌then◌else◌,
  get_or, set, replicate, find_index,
}
use treenity.Prelude.Word.{u32}
use treenity.Config.{max_routes}
use treenity.Util.{elapsed}
use treenity.Scan.{scan}

-- `tn_route_t`
pub record Route : Type 0 where
  pub valid : Bool
  pub dst : ℕ
  pub next_hop : ℕ
  pub cost : ℕ
  pub hops : ℕ
  pub updated_ms : ℕ

abbrev pub zero_route : Route
zero_route = record { valid = false; dst = 0; next_hop = 0; cost = 0; hops = 0; updated_ms = 0 }

-- `tn_route_table_t`
pub record RouteTable : Type 0 where
  pub entries : List Route
  pub count : ℕ

abbrev pub entry : RouteTable → ℕ → Route
entry t i = get_or t.entries i zero_route

unfoldable pub init : RouteTable
init = record { entries = replicate max_routes zero_route; count = 0 }

abbrev pub leads_to : ℕ → Route → Bool
leads_to dst r = r.valid && r.dst == dst

abbrev pub is_stale : ℕ → ℕ → Route → Bool
is_stale now timeout_ms r = ltb timeout_ms (elapsed r.updated_ms now)

-- `if (t->count > 0) t->count--` is the subtraction of ℕ.
unfoldable pub lookup : RouteTable → ℕ → ℕ → ℕ → RouteTable × Option Route
lookup t dst now timeout_ms = elim (find_index (leads_to dst) t.entries) [
  | none ↦ (t, none)
  | some i ↦
      let r = entry t i in
      if is_stale now timeout_ms r
      then (
        record { entries = set t.entries i (record r { valid = false }); count = t.count - 1 },
        none,
      )
      else (t, some r)
]

unfoldable pub route_slot : RouteTable → ℕ → ℕ
unfolding scan
route_slot t now = scan (λ r. r.valid) (λ r. r.updated_ms) now t.entries 0 0 0

unfoldable pub add : RouteTable → ℕ → ℕ → ℕ → ℕ → ℕ → RouteTable
unfolding route_slot
add t dst next_hop cost hops now =
    let new : Route = record {
      valid = true;
      dst = dst;
      next_hop = next_hop;
      cost = cost;
      hops = hops;
      updated_ms = now;
    } in
    elim (find_index (leads_to dst) t.entries) [
      | some i ↦ record t { entries = set t.entries i new }
      | none ↦
          let i = route_slot t now in
          record {
            entries = set t.entries i new;
            count = if (entry t i).valid then t.count else u32 (t.count + 1);
          }
    ]

-- The loop of tn_route_remove_via and tn_route_expire: the entries, the count, the number removed.
unfoldable pub invalidate : (Route → Bool) → List Route → ℕ → ℕ → List Route × ℕ × ℕ
invalidate p [] count removed = ([], count, removed)
invalidate p (r ∷ rs) count removed =
    let hit = r.valid && p r in
    let (rs', count', removed') =
      invalidate p rs (if hit then count - 1 else count) (if hit then removed + 1 else removed) in
    ((if hit then record r { valid = false } else r) ∷ rs', count', removed')

unfoldable pub remove_via : RouteTable → ℕ → RouteTable × ℕ
unfolding invalidate
remove_via t next_hop =
    let (es, count, removed) = invalidate (λ r. r.next_hop == next_hop) t.entries t.count 0 in
    (record { entries = es; count = count }, removed)

unfoldable pub expire : RouteTable → ℕ → ℕ → RouteTable × ℕ
unfolding invalidate
expire t now timeout_ms =
    let (es, count, removed) = invalidate (is_stale now timeout_ms) t.entries t.count 0 in
    (record { entries = es; count = count }, removed)
