-- ===== src/Node/Intact/Change.antt =====
-- What keeps an instance intact: a branch, whichever is taken, and a change of one field of
-- `struct treenet` that respects the invariant.
use treenity.Prelude.{
  ℕ, ◌≤◌, ◌≡◌, refl, ◌∙◌, Bool, true, false, List, Option, none, some, arith, length, length-set,
  set, if◌then◌else◌,
}
use treenity.Config.{reassembly_slots, dup_cache_size, beacon_min_ms, beacon_max_ms}
use treenity.Frame.Bytes.{Word, Long}
use treenity.Neighbor.Unique.{IsTable}
use treenity.Routes.Lookup.{IsValid}
use treenity.Neighbor.{NeighborTable}
use treenity.Routes.{RouteTable}
use treenity.Dupcache.{Dupcache}
use treenity.Node.State.{Node, TxSlot, Event, EventArg, EventQueue, Reasm, Effect, note}
use treenity.Node.EventList.{IsQueue, enqueue-contents}
use treenity.Node.Event.{emit_event}
use treenity.Node.Intact.{IsSlot, IsSent, All, All-set, IsNamed, IsIntact}

pub IsIntact-if : (b : Bool) (x y : Node) → IsIntact x → IsIntact y → IsIntact (if b then x else y)
IsIntact-if true x y hx hy = hx
IsIntact-if false x y hx hy = hy

-- The same with what the test says.
pub IsIntact-test :
    (b : Bool) (x y : Node)
    → (b ≡ true → IsIntact x)
    → (b ≡ false → IsIntact y)
    → IsIntact (if b then x else y)
IsIntact-test true x y hx hy = hx refl
IsIntact-test false x y hx hy = hy refl

pub IsIntact-option {ℓ} :
    {A : Type ℓ} (o : Option A) (x : Node) (g : A → Node)
    → IsIntact x
    → ((a : A) → o ≡ some a → IsIntact (g a))
    → IsIntact (elim o [ none ↦ x | some a ↦ g a ])
IsIntact-option none x g hx hg = hx
IsIntact-option (some a) x g hx hg = hg a refl

pub IsIntact-set_slot :
    (t : Node) (i : ℕ) (s : TxSlot)
    → IsIntact t
    → IsSlot t.addr t.net_id s
    → IsIntact (record t { tx = set t.tx i s })
unfolding IsIntact
IsIntact-set_slot t i s v h =
    ground
      (arith, v, length-set t.tx i s ∙ v.slots, All-set (IsSlot t.addr t.net_id) t.tx i s v.tx h)

pub IsIntact-neighbors :
    (t : Node) (x : NeighborTable)
    → IsIntact t
    → IsTable x
    → All IsNamed x.entries
    → IsIntact (record t { neighbors = x })
unfolding IsIntact
IsIntact-neighbors t x v h k = ground arith

pub IsIntact-routes :
    (t : Node) (x : RouteTable) → IsIntact t → IsValid x → IsIntact (record t { routes = x })
unfolding IsIntact
IsIntact-routes t x v h = ground arith

pub IsIntact-events :
    (t : Node) (x : EventQueue) → IsIntact t → IsQueue x → IsIntact (record t { events = x })
unfolding IsIntact
IsIntact-events t x v h = ground arith

pub IsIntact-reasm :
    (t : Node) (x : List Reasm)
    → IsIntact t
    → length x ≡ reassembly_slots
    → IsIntact (record t { reasm = x })
unfolding IsIntact
IsIntact-reasm t x v h = ground arith

pub IsIntact-dup :
    (t : Node) (x : Dupcache)
    → IsIntact t
    → length x.entries ≡ dup_cache_size
    → IsIntact (record t { dup = x })
unfolding IsIntact
IsIntact-dup t x v h = ground arith

pub IsIntact-trickle :
    (t : Node) (ms : ℕ)
    → IsIntact t
    → beacon_min_ms ≤ ms
    → ms ≤ beacon_max_ms
    → IsIntact (record t { trickle_I = ms })
unfolding IsIntact
IsIntact-trickle t ms v low high = ground arith

pub IsIntact-seq : (t : Node) (n : ℕ) → IsIntact t → Word n → IsIntact (record t { seq = n })
unfolding IsIntact
IsIntact-seq t n v h = ground arith

pub IsIntact-parent :
    (t : Node) (addr : ℕ) → IsIntact t → Long addr → IsIntact (record t { parent = addr })
unfolding IsIntact
IsIntact-parent t addr v h = ground arith

pub IsIntact-note :
    (t : Node) (e : Effect) → IsIntact t → IsSent t.addr t.net_id e → IsIntact (note e t)
unfolding IsIntact
IsIntact-note t e v h = ground arith

pub IsIntact-emit_event :
    (t : Node) (ev : Event) (arg : EventArg) → IsIntact t → IsIntact (emit_event t ev arg)
unfolding emit_event IsIntact
IsIntact-emit_event t ev arg v = IsIntact-events t _ v (enqueue-contents t.events ev arg v.events).0

-- Of the two results of a test.
pub IsIntact-pair {ℓ} :
    {B : Type ℓ} (b : Bool) (x y : Node × B)
    → IsIntact x.0
    → IsIntact y.0
    → IsIntact (if b then x else y).0
IsIntact-pair true x y hx hy = hx
IsIntact-pair false x y hx hy = hy

-- The same with what the test says.
pub IsIntact-pair_test {ℓ} :
    {B : Type ℓ} (b : Bool) (x y : Node × B)
    → (b ≡ true → IsIntact x.0)
    → (b ≡ false → IsIntact y.0)
    → IsIntact (if b then x else y).0
IsIntact-pair_test true x y hx hy = hx refl
IsIntact-pair_test false x y hx hy = hy refl

-- Of the two results of a search.
pub IsIntact-option_pair {ℓ κ} :
    {A : Type ℓ} {B : Type κ} (o : Option A) (x : Node × B) (g : A → Node × B)
    → IsIntact x.0
    → ((a : A) → o ≡ some a → IsIntact (g a).0)
    → IsIntact (elim o as (λ _. Node × B) [ none ↦ x | some a ↦ g a ]).0
IsIntact-option_pair none x g hx hg = hx
IsIntact-option_pair (some a) x g hx hg = hg a refl
