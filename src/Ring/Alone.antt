-- ===== src/Ring/Alone.antt =====
-- One side of src/core/ringbuf.c at a time, in the steps that interleave when both run.
use treenity.Prelude.{ℕ, List, ◌≡◌, ap, sym, subst, ◌∙◌, is_some}
use treenity.Ring.Defs.{Ringbuf}
use treenity.Ring.Queue
use treenity.Ring.Queue.{Record, IsRecord}
use treenity.Ring.Refine.{Holds, push_refines}
use treenity.Ring.Pop.{pop_refines}
use treenity.Ring.Steps.{push_alone, pop_alone}
use treenity.Ring.Race.{alone-eq-call, first_of}

-- The steps of a push that nothing interrupts append the record exactly if the bounded queue has room
-- for it; the steps of a pop that nothing interrupts hand out what the queue does. Either way the ring is
-- left holding what is left of the queue. The ring holds whole records at first, and the record to push is
-- one that the C types can hold.
pub alone_refines :
    (max : ℕ) {rb : Ringbuf} {q : List Record} (r : Record)
    → Holds rb q
    → IsRecord r
    → (let s = push_alone rb r in
        let (q', ok) = Queue.push q r in Holds s.rb q' × (is_some (first_of s.accepted) ≡ ok))
      × (let s = pop_alone max rb in
          let (q', out) = Queue.pop q max in Holds s.rb q' × (first_of s.delivered ≡ out))
alone_refines max {rb} {q} r v ok =
    let (pushes, pops) = alone-eq-call max rb r in
    let (v', taken, _) = push_refines r.0 r.1 v ok in
    let (v'', out) = pop_refines max v in
    (
      (
        subst (λ x. Holds x (Queue.push q r).0) (ap (λ p. p.0) pushes) v',
        sym (ap (λ p. p.1) pushes) ∙ taken,
      ),
      (
        subst (λ x. Holds x (Queue.pop q max).0) (ap (λ p. p.0) pops) v'',
        sym (ap (λ p. p.1) pops) ∙ out,
      ),
    )
