-- ===== src/Node/Intact.antt =====
-- The invariant of `struct treenet` in src/core/internal.h: its tables, its addresses, and the frames that
-- it has queued and sent.
pub mod Change
pub mod Named
pub mod Pending
pub mod Control
pub mod Routing
pub mod Link
pub mod Data
pub mod Forward
pub mod Poll
pub mod Calls
use treenity.Prelude.{
  ℕ, zero, suc, ◌+◌, ◌≤◌, ◌≡◌, refl, ◌∙◌, Bool, true, false, List, [], ◌∷◌, Option, none, some, ◌<◌,
  ◌≢◌, take, arith, length, length-set, length-blit, get_or, set, if◌then◌else◌, replicate, sym,
  subst,
}
use treenity.Config.{
  mtu, addr_invalid, addr_broadcast, max_retries, tx_queue_size, reassembly_slots, dup_cache_size,
  beacon_min_ms, beacon_max_ms,
}
use treenity.Frame.{Frame, frame_decode}
use treenity.Frame.Bytes.{Word, Long}
use treenity.Neighbor.Unique.{IsTable}
use treenity.Routes.Lookup.{IsValid}
use treenity.Neighbor.{Neighbor, NeighborTable}
use treenity.Routes.{RouteTable}
use treenity.Dupcache.{Dupcache}
use treenity.Node.State.{
  Node, TxSlot, zero_slot, Event, EventArg, EventQueue, Reasm, Effect, transmit, recv, event, arm,
  note,
}
use treenity.Node.EventList.{IsQueue, enqueue-contents}
use treenity.Node.Event.{emit_event}

-- Bytes that a receiver accepts as a frame from this hop and of this network.
pub record IsAir (own net : ℕ) (bytes : List ℕ) : Type 0 where
  pub frame : Frame
  pub decodes : frame_decode bytes ≡ some frame
  pub hop : frame.prev ≡ own
  pub network : frame.net_id ≡ net

-- A slot whose bytes fit its buffer, not tried more often than allowed; in use it holds a frame.
pub record IsSlot (own net : ℕ) (s : TxSlot) : Type 0 where
  pub size : length s.buf ≡ mtu
  pub len : s.len ≤ mtu
  pub attempts : s.attempts ≤ max_retries
  pub holds : s.valid ≡ true → IsAir own net (take s.len s.buf)

-- Whatever is handed to the modem is a frame.
abbrev pub IsSent : (own net : ℕ) → Effect → Type 0
IsSent own net (transmit bytes) = IsAir own net bytes
IsSent own net _ = Unit {0}

abbrev pub All {ℓ κ} : {A : Type ℓ} → (A → Type κ) → List A → Type κ
All P [] = Unit
All P (x ∷ xs) = P x × All P xs

pub All-set {ℓ κ} :
    {A : Type ℓ} (P : A → Type κ) (xs : List A) (i : ℕ) (x : A)
    → All P xs
    → P x
    → All P (set xs i x)
All-set P [] i x h k = h
All-set P (y ∷ ys) zero x h k = (k, h.1)
All-set P (y ∷ ys) (suc i) x h k = (h.0, All-set P ys i x h.1 k)

pub All-replicate {ℓ κ} :
    {A : Type ℓ} (P : A → Type κ) (n : ℕ) (x : A) → P x → All P (replicate n x)
All-replicate P zero x h = tt
All-replicate P (suc n) x h = (h, All-replicate P n x h)

pub All-get_or {ℓ κ} :
    {A : Type ℓ} (P : A → Type κ) (xs : List A) (i : ℕ) (d : A) → All P xs → P d → P (get_or xs i d)
All-get_or P [] i d h k = k
All-get_or P (y ∷ ys) zero d h k = h.0
All-get_or P (y ∷ ys) (suc i) d h k = All-get_or P ys i d h.1 k

abbrev pub IsNamed : Neighbor → Type 0
IsNamed n = Long n.addr

-- The part of an instance that the invariant is about.
pub record Tables : Type 0 where
  pub neighbors : NeighborTable
  pub routes : RouteTable
  pub tx : List TxSlot
  pub events : EventQueue
  pub reasm : List Reasm
  pub dup : Dupcache
  pub trickle_I : ℕ
  pub addr : ℕ
  pub net_id : ℕ
  pub seq : ℕ
  pub parent : ℕ
  pub effects : List Effect

unfoldable pub tables : Node → Tables
tables t = record {
  neighbors = t.neighbors;
  routes = t.routes;
  tx = t.tx;
  events = t.events;
  reasm = t.reasm;
  dup = t.dup;
  trickle_I = t.trickle_I;
  addr = t.addr;
  net_id = t.net_id;
  seq = t.seq;
  parent = t.parent;
  effects = t.world.effects;
}

pub record AreIntact (t : Tables) : Type 0 where
  pub neighbors : IsTable t.neighbors
  pub named : All IsNamed t.neighbors.entries
  pub routes : IsValid t.routes
  pub slots : length t.tx ≡ tx_queue_size
  pub tx : All (IsSlot t.addr t.net_id) t.tx
  pub events : IsQueue t.events
  pub reasm : length t.reasm ≡ reassembly_slots
  pub dup : length t.dup.entries ≡ dup_cache_size
  pub trickle : (beacon_min_ms ≤ t.trickle_I) × (t.trickle_I ≤ beacon_max_ms)
  pub own : Long t.addr × (t.addr ≢ addr_invalid) × (t.addr ≢ addr_broadcast)
  pub net : Word t.net_id
  pub seq : Word t.seq
  pub parent : Long t.parent
  pub sent : All (IsSent t.addr t.net_id) t.effects

unfoldable pub IsIntact : Node → Type 0
unfolding tables
IsIntact t = AreIntact (tables t)

-- Only this part matters.
pub IsIntact-same : (t t' : Node) → tables t' ≡ tables t → IsIntact t → IsIntact t'
unfolding IsIntact
IsIntact-same t t' e v = rw e v

-- What the frames of an instance are marked with.
abbrev pub label : Node → ℕ × ℕ
label t = (t.addr, t.net_id)

pub label-if :
    {l : ℕ × ℕ} (b : Bool) (x y : Node) → label x ≡ l → label y ≡ l → label (if b then x else y) ≡ l
label-if true x y hx hy = hx
label-if false x y hx hy = hy

-- A slot of one is a slot of the other.
pub IsSlot-label :
    (t t' : Node) (s : TxSlot)
    → label t' ≡ label t
    → IsSlot t.addr t.net_id s
    → IsSlot t'.addr t'.net_id s
IsSlot-label t t' s e h = subst (λ l. IsSlot l.0 l.1 s) (sym e) h

pub IsSlot-zero_slot : (own net : ℕ) → IsSlot own net zero_slot
IsSlot-zero_slot own net = record {
  size = refl;
  len = omega arith;
  attempts = omega arith;
  holds = λ h. cc;
}

pub IsSlot-get_or :
    (t : Node) (i : ℕ) → IsIntact t → IsSlot t.addr t.net_id (get_or t.tx i zero_slot)
unfolding IsIntact
IsSlot-get_or t i v =
    All-get_or (IsSlot t.addr t.net_id) t.tx i zero_slot v.tx (IsSlot-zero_slot t.addr t.net_id)

pub IsTable-neighbors : (t : Node) → IsIntact t → IsTable t.neighbors
unfolding IsIntact
IsTable-neighbors t v = v.neighbors

pub IsValid-routes : (t : Node) → IsIntact t → IsValid t.routes
unfolding IsIntact
IsValid-routes t v = v.routes

pub IsQueue-events : (t : Node) → IsIntact t → IsQueue t.events
unfolding IsIntact
IsQueue-events t v = v.events

pub length-reasm : (t : Node) → IsIntact t → length t.reasm ≡ reassembly_slots
unfolding IsIntact
length-reasm t v = v.reasm

pub length-dup : (t : Node) → IsIntact t → length t.dup.entries ≡ dup_cache_size
unfolding IsIntact
length-dup t v = v.dup

pub All-IsNamed : (t : Node) → IsIntact t → All IsNamed t.neighbors.entries
unfolding IsIntact
All-IsNamed t v = v.named

-- The fields that frames are made of.
pub record HasNames (t : Node) : Type 0 where
  pub own : Long t.addr × (t.addr ≢ addr_invalid) × (t.addr ≢ addr_broadcast)
  pub net : Word t.net_id
  pub seq : Word t.seq
  pub parent : Long t.parent

pub names : (t : Node) → IsIntact t → HasNames t
unfolding IsIntact
names t v = record { own = v.own; net = v.net; seq = v.seq; parent = v.parent }
