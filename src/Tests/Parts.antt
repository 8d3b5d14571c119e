-- ===== src/Tests/Parts.antt =====
-- The parts of an instance at concrete inputs.
use treenity.Prelude.{
  ℕ, ◌+◌, ◌<◌, ◌≤◌, ◌≡◌, ◌≢◌, ◌⊎◌, refl, true, false, [], ◌∷◌, some, none, arith, leb, ltb,
  if◌then◌else◌, length-replicate,
}
use treenity.Prelude.Word.{add32}
use treenity.Prelude.Int.{pos, negsuc, ◌≤ℤ◌}
use treenity.Config.{dup_ttl_ms, max_routes, dup_cache_size}
use treenity.Util.{elapsed}
use treenity.Timer
use treenity.Timer.{Timer}
use treenity.Timer.Deadline.{fire-start, fire_periodic}
use treenity.Ewma
use treenity.Ewma.{Ewma}
use treenity.Ewma.Bounds.{Within, reset-Within, push-Within}
use treenity.Dupcache
use treenity.Dupcache.{Dupcache, Entry, dup_slot, no_entry}
use treenity.Dupcache.Fresh
use treenity.Neighbor.{Neighbor, zero_neighbor, update_cost, table_init, note_beacon}
use treenity.Neighbor.Table.{Lists, table_init-IsTable, note_beacon-Lists}
use treenity.Neighbor.Cost.{update_cost_bounds}
use treenity.Routes
use treenity.Routes.{Route, RouteTable, zero_route}
use treenity.Routes.Lookup

abbrev idle : Timer
idle = record { next_ms = 0; interval = 0; active = false }

fire-start_example :
    let (tm', fired) = Timer.fire (Timer.start idle 4294967000 500) (add32 4294967000 600) in
    (fired ≡ leb 500 600) × (tm'.active ≡ ltb 600 500)
fire-start_example = fire-start idle 4294967000 500 600 (omega arith) (omega arith) (omega arith)

abbrev ticking : Timer
ticking = record { next_ms = 4294967290; interval = 100; active = true }

fire_periodic_example :
    let now = add32 4294967290 250 in
    let (tm', fired) = Timer.fire ticking now in
    (fired ≡ true)
    × (tm'.active ≡ true)
    × (tm'.interval ≡ 100)
    × ((tm'.next_ms ≡ add32 4294967290 100) × (250 ≤ 100 + 100)
        ⊎ (tm'.next_ms ≡ add32 now 100) × (100 + 100 < 250))
fire_periodic_example =
    fire_periodic ticking 250 refl (omega arith) (omega arith) (omega arith) (omega arith)

push-Within_example :
    Within (negsuc 127) (pos 127) (Ewma.push Ewma.reset (negsuc 9))
    × (negsuc 127 ≤ℤ Ewma.get (Ewma.push Ewma.reset (negsuc 9)))
    × (Ewma.get (Ewma.push Ewma.reset (negsuc 9)) ≤ℤ pos 127)
push-Within_example =
    push-Within (negsuc 127) (pos 127) Ewma.reset (negsuc 9) (reset-Within (negsuc 127) (pos 127))
      (omega arith) (omega arith)

new_cache-IsValid : Fresh.IsValid (Dupcache.init dup_ttl_ms)
unfolding Dupcache.init
new_cache-IsValid = record { size = length-replicate dup_cache_size no_entry; ttl = omega arith }

check-mark_example :
    (Dupcache.check
        (Dupcache.mark (Dupcache.init dup_ttl_ms) 5 77 4294967290)
        5
        77
        (add32 4294967290 900)
      ≡ leb 900 (Dupcache.init dup_ttl_ms).ttl_ms)
    × ((src' seq' later : ℕ)
        → dup_slot 5 77 ≢ dup_slot src' seq'
        → Dupcache.check (Dupcache.mark (Dupcache.init dup_ttl_ms) 5 77 4294967290) src' seq' later
          ≡ Dupcache.check (Dupcache.init dup_ttl_ms) src' seq' later)
check-mark_example =
    Fresh.check-mark (Dupcache.init dup_ttl_ms) 5 77 4294967290 900 new_cache-IsValid (omega arith)
      (omega arith)

check-mark_wraps_example :
    Dupcache.check
      (Dupcache.mark (Dupcache.init dup_ttl_ms) 5 77 1000)
      5
      77
      (add32 (add32 1000 (Dupcache.init dup_ttl_ms).ttl_ms) (0x8000_0000 + 5))
    ≡ true
check-mark_wraps_example =
    Fresh.check-mark_wraps (Dupcache.init dup_ttl_ms) 5 77 1000 5 new_cache-IsValid (omega arith)
      (omega arith)

abbrev heard : Neighbor
heard = record zero_neighbor {
  valid = true;
  addr = 9;
  pdr = record { value = pos 800; init = true };
  snr = record { value = negsuc 79; init = true };
}

update_cost_bounds_example :
    (256 ≤ (update_cost heard).etx_q8)
    × ((update_cost heard).etx_q8 ≤ 4096)
    × ((update_cost heard).link_cost ≤ 768)
update_cost_bounds_example = update_cost_bounds heard

new_routes-IsValid : Lookup.IsValid Routes.init
unfolding Routes.init
new_routes-IsValid = record { size = length-replicate max_routes zero_route; counted = refl }

abbrev one_route : RouteTable
one_route = Routes.add Routes.init 9 4 30 2 1000

one_route-IsValid : Lookup.IsValid one_route
one_route-IsValid = Lookup.add-IsValid Routes.init 9 4 30 2 1000 new_routes-IsValid

lookup-add_example :
    (Routes.lookup (Routes.add one_route 9 6 31 3 2000) 9 (add32 2000 500) 135000).1
    ≡ (if leb 500 135000 then some (Lookup.new_route 9 6 31 3 2000) else none)
lookup-add_example =
    Lookup.lookup-add one_route 9 6 31 3 2000 500 135000 one_route-IsValid (omega arith)
      (omega arith)

abbrev two_routes : RouteTable
two_routes = record {
  entries = Lookup.new_route 9 4 30 2 1000 ∷ Lookup.new_route 10 6 20 1 1000 ∷ [];
  count = 2;
}

abbrev kept : Route
kept = Lookup.new_route 10 6 20 1 1000

kept-found : (Routes.lookup (Routes.remove_via two_routes 4).0 10 1500 135000).1 ≡ some kept
unfolding Routes.lookup Routes.remove_via Routes.invalidate elapsed
kept-found = refl

lookup-remove_via_example : kept.next_hop ≢ 4
lookup-remove_via_example = Lookup.lookup-remove_via two_routes 4 10 1500 135000 kept kept-found

remove_via-expire-IsValid_example :
    Lookup.IsValid (Routes.remove_via one_route 4).0
    × ((Routes.remove_via one_route 4).1 + (Routes.remove_via one_route 4).0.count
        ≡ one_route.count)
    × Lookup.IsValid (Routes.expire one_route 200000 135000).0
    × ((Routes.expire one_route 200000 135000).1 + (Routes.expire one_route 200000 135000).0.count
        ≡ one_route.count)
remove_via-expire-IsValid_example =
    Lookup.remove_via-expire-IsValid one_route 4 200000 135000 one_route-IsValid

note_beacon-Lists_example :
    Lists (note_beacon table_init 9 32 5 2 100 (negsuc 80) (pos 4) 7000) 9 32 5 2 7000
note_beacon-Lists_example =
    note_beacon-Lists table_init 9 32 5 2 100 (negsuc 80) (pos 4) 7000 table_init-IsTable
