-- ===== src/Ring/Sound.antt =====
-- What holds between any two steps of src/core/ringbuf.c, whoever takes them.
use treenity.Prelude.{ℕ, ◌+◌, ◌≤◌, ◌≡◌, List, [], ◌∷◌, ◌++◌}
use treenity.Prelude.Word.{sub32}
use treenity.Config.{rx_ring_bytes}
use treenity.Ring.Defs.{Ringbuf, rx_hdr, meta_bytes}
use treenity.Ring.Window.{window}
use treenity.Ring.Queue.{Record, IsRecord}
use treenity.Ring.Refine.{Holds}
use treenity.Ring.Steps.{
  Producer, waiting, admitted, header_in, payload_in, Consumer, resting, looking, measured, copied,
  Shared, Turn, producer, consumer,
}

abbrev pub used : Ringbuf → ℕ
used rb = sub32 rb.tail rb.head

-- A record of the C types that the consumer has room for.
abbrev pub IsShort : ℕ → Record → Type 0
IsShort max r = IsRecord r × (r.0.len ≤ max)

abbrev pub AreShort : ℕ → List Record → Type 0
AreShort max [] = Unit {0}
AreShort max (r ∷ q) = (r.0.len ≤ max) × AreShort max q

-- The room that the producer has found, and the bytes that it has written.
abbrev pub Written : ℕ → Ringbuf → Producer → Type 0
Written max rb waiting = Unit {0}
Written max rb (admitted r) = IsShort max r × (used rb + (rx_hdr + r.0.len) ≤ rx_ring_bytes)
Written max rb (header_in r) =
    IsShort max r
    × (used rb + (rx_hdr + r.0.len) ≤ rx_ring_bytes)
    × (window rb.buf rb.tail rx_hdr ≡ meta_bytes r.0)
Written max rb (payload_in r) =
    IsShort max r
    × (used rb + (rx_hdr + r.0.len) ≤ rx_ring_bytes)
    × (window rb.buf rb.tail rx_hdr ≡ meta_bytes r.0)
    × (window rb.buf (rb.tail + rx_hdr) r.0.len ≡ r.1)

-- What the consumer knows is true of the oldest record.
abbrev pub Oldest : List Record → (Record → Type 0) → Type 0
Oldest [] P = ⊥
Oldest (r ∷ q) P = P r

abbrev pub Seen : (head : ℕ) → List Record → Consumer → Type 0
Seen head q resting = Unit {0}
Seen head q (looking tail) = Oldest q (λ r. rx_hdr + r.0.len ≤ sub32 tail head)
Seen head q (measured meta) = Oldest q (λ r. meta ≡ r.0)
Seen head q (copied r) = Oldest q (λ r'. r ≡ r')

-- Every record that the producer is given is one of those.
abbrev pub AreTurns : ℕ → List Turn → Type 0
AreTurns max [] = Unit {0}
AreTurns max (producer r ∷ ws) = IsShort max r × AreTurns max ws
AreTurns max (consumer ∷ ws) = AreTurns max ws

-- Between any two steps the ring holds what has been accepted and not yet delivered.
pub record IsSound (max : ℕ) (s : Shared) (q : List Record) : Type 0 where
  pub holds : Holds s.rb q
  pub fifo : s.accepted ≡ s.delivered ++ q
  pub short : AreShort max q
  pub written : Written max s.rb s.producer
  pub seen : Seen s.rb.head q s.consumer
