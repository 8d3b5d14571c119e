-- ===== src/Node/Intact/Pending.antt =====
-- The records that wait in the receive ring of `struct treenet`: each consists of bytes.
use treenity.Prelude.{
  ℕ, ◌≡◌, sym, ◌∙◌, List, [], ◌∷◌, ◌++◌, Option, some, ltb, arith, Bool-cases, inl, inr,
}
use treenity.Frame.Integrity.{AreBytes}
use treenity.Ring
use treenity.Ring.{Ringbuf, RxMeta}
use treenity.Ring.Queue
use treenity.Ring.Queue.{Record, IsRecord}
use treenity.Ring.Refine.{Holds, push_refines}
use treenity.Ring.Pop.{pop_refines}
use treenity.Node.State.{Node}
use treenity.Node.Intact.{All}

abbrev pub IsOfBytes : Record → Type 0
IsOfBytes r = AreBytes r.1

-- A ring that holds whole records of bytes and nothing else.
abbrev pub HoldsBytes : Ringbuf → Type 0
HoldsBytes rb = (q : List Record) × Holds rb q × All IsOfBytes q

-- What a pop leaves, and what it gives.
pub record IsPopped (p : Ringbuf × Option Record) : Type 0 where
  pub left : HoldsBytes p.0
  pub taken : (r : Record) → p.1 ≡ some r → IsOfBytes r

All-pop :
    (q : List Record) (max : ℕ)
    → All IsOfBytes q
    → All IsOfBytes (Queue.pop q max).0
      × ((r : Record) → (Queue.pop q max).1 ≡ some r → IsOfBytes r)
unfolding Queue.pop
All-pop [] max h = (tt, λ r e. absurd (ground (arith, e)))
All-pop (x ∷ q) max h = elim (Bool-cases (ltb max x.0.len)) [
  | inl long ↦ rw (long, Queue.pop) (tt, λ r e. absurd (ground (arith, e)))
  | inr fits ↦ rw (fits, Queue.pop) (h.1, λ r e. ground (arith, h.0, e))
]

pub IsPopped-pop : (rb : Ringbuf) (max : ℕ) → HoldsBytes rb → IsPopped (Ring.pop rb max)
IsPopped-pop rb max (q, v, h) =
    let (v', out) = pop_refines max v in
    let (h', taken) = All-pop q max h in
    record { left = ((Queue.pop q max).0, v', h'); taken = λ r e. taken r (sym out ∙ e) }

All-append :
    (q : List Record) (r : Record) → All IsOfBytes q → IsOfBytes r → All IsOfBytes (q ++ r ∷ [])
All-append [] r h k = (k, tt)
All-append (x ∷ q) r h k = (h.0, All-append q r h.1 k)

All-push :
    (q : List Record) (r : Record)
    → All IsOfBytes q
    → IsOfBytes r
    → All IsOfBytes (Queue.push q r).0
unfolding Queue.push
All-push q r h k = ground (arith, h, All-append q r h k)

pub HoldsBytes-push :
    (rb : Ringbuf) (m : RxMeta) (bytes : List ℕ)
    → HoldsBytes rb
    → IsRecord (m, bytes)
    → AreBytes bytes
    → HoldsBytes (Ring.push rb m bytes).0
HoldsBytes-push rb m bytes (q, v, h) ok k =
    ((Queue.push q (m, bytes)).0, (push_refines m bytes v ok).0, All-push q (m, bytes) h k)

abbrev pub IsQueued : Node → Type 0
IsQueued t = HoldsBytes t.rx

pub IsQueued-same : (t t' : Node) → t'.rx ≡ t.rx → IsQueued t → IsQueued t'
IsQueued-same t t' e (q, v, h) = (q, rw e v, h)
