-- ===== src/Node/Announce.antt =====
-- What tn_events_flush of src/api/treenet.c hands to the application of all that tn_emit_event was
-- given.
use treenity.Prelude.{
  ℕ, zero, suc, ◌+◌, ◌-◌, ◌≤◌, ◌≡◌, refl, sym, ap, ◌∙◌, true, List, [], ◌∷◌, ◌++◌, arith, drop,
  length, length-append, length-drop, inl, inr, ap₂, if◌then◌else◌, Bool-cases, ltb,
}
use mathlib.Core.List.{append_assoc, append-nil}
use treenity.Config.{event_queue_size}
use treenity.Node.State.{Event, EventArg, event, Node, Effect, note}
use treenity.Node.Event.{emit_event, flush_loop, events_flush}
use treenity.Node.EventList.{
  items, contents, IsQueue, advance, front, room, length-contents, contents-advance,
  advance-IsQueue, enqueue-contents,
}

-- The last 16 elements.
abbrev pub newest {ℓ} : {A : Type ℓ} → List A → List A
newest xs = drop (length xs - event_queue_size) xs

drop-append_le {ℓ} :
    {A : Type ℓ} (k : ℕ) (xs ys : List A) → k ≤ length xs → drop k xs ++ ys ≡ drop k (xs ++ ys)
drop-append_le zero xs ys h = refl
drop-append_le (suc k) [] ys h = absurd (omega (arith, h))
drop-append_le (suc k) (x ∷ xs) ys h = drop-append_le k xs ys (omega (arith, h))

drop-drop {ℓ} : {A : Type ℓ} (k m n : ℕ) (xs : List A) → n ≡ k + m → drop m (drop k xs) ≡ drop n xs
drop-drop zero m n xs e = ap (λ i. drop i xs) (omega (arith, e))
drop-drop (suc k) m zero xs e = absurd (omega (arith, e))
drop-drop (suc k) zero (suc n) [] e = refl
drop-drop (suc k) (suc m) (suc n) [] e = refl
drop-drop (suc k) m (suc n) (x ∷ xs) e = drop-drop k m n xs (omega (arith, e))

-- Making room before an element or only at the end comes to the same.
newest-room {ℓ} :
    {A : Type ℓ} (xs : List A) (y : A) (ys : List A)
    → length xs ≤ event_queue_size
    → newest ((room xs ++ (y ∷ [])) ++ ys) ≡ newest (xs ++ (y ∷ ys))
newest-room xs y ys h =
    let k = length xs + 1 - event_queue_size in
    let all = xs ++ (y ∷ ys) in
    ap newest (append_assoc (room xs) (y ∷ []) ys ∙ drop-append_le k xs (y ∷ ys) (omega (arith, h)))
    ∙ drop-drop k (length (drop k all) - event_queue_size) (length all - event_queue_size) all
        (omega (arith, length-drop k all, length-append xs (y ∷ ys), h))

abbrev pub emit_all : List (Event × EventArg) → Node → Node
emit_all [] t = t
emit_all (x ∷ xs) t = emit_all xs (emit_event t x.0 x.1)

emit_all-contents :
    (xs : List (Event × EventArg)) (t : Node)
    → IsQueue t.events
    → IsQueue (emit_all xs t).events
      × (contents (emit_all xs t).events ≡ newest (contents t.events ++ xs))
      × ((emit_all xs t).world ≡ t.world)
      × ((emit_all xs t).cfg ≡ t.cfg)
unfolding emit_event
emit_all-contents [] t v = (
  v,
  sym (
      ap newest (append-nil (contents t.events))
      ∙ ap (λ k. drop k (contents t.events)) {y = 0}
          (omega (arith, length-contents t.events, v.count))),
  refl,
  refl,
)
emit_all-contents (x ∷ xs) t v =
    let (v', same) = enqueue-contents t.events x.0 x.1 v in
    let (last, all, world, cfg) = emit_all-contents xs (emit_event t x.0 x.1) v' in
    (
      last,
      all
          ∙ ap (λ q. newest (q ++ xs)) same
          ∙ newest-room (contents t.events) x xs (omega (arith, length-contents t.events, v.count)),
      world,
      cfg,
    )

-- The calls of the application's callback, newest first.
abbrev pub calls : List (Event × EventArg) → List Effect → List Effect
calls [] es = es
calls (x ∷ xs) es = calls xs (event x.0 x.1 ∷ es)

flush_loop-calls :
    (n : ℕ) (t : Node)
    → IsQueue t.events
    → t.events.count ≡ n
    → ((flush_loop n t).world.effects ≡ calls (contents t.events) t.world.effects)
      × ((flush_loop n t).events.count ≡ 0)
unfolding flush_loop
flush_loop-calls zero t v e = (rw e refl, e)
flush_loop-calls (suc n) t v e =
    let q = t.events in
    let next = note (event (front q).0 (front q).1) (record t { events = advance q }) in
    let (made, empty) =
      flush_loop-calls n next (advance-IsQueue q v (omega (arith, e))) (omega (arith, e)) in
    let more : ltb 0 q.count ≡ true = ground (arith, e) in
    rw more
      (made ∙ sym (ap (λ xs. calls xs t.world.effects) (contents-advance q n e v.head)), empty)

none_left : (t : Node) → t.events.count ≡ 0 → contents t.events ≡ []
none_left t e = ap (λ n. items n t.events.head t.events.ev t.events.arg) e

events_flush-calls :
    (t : Node)
    → IsQueue t.events
    → ((events_flush t).world.effects ≡ (
        if t.cfg.has_on_event then calls (contents t.events) t.world.effects else t.world.effects))
      × (contents (events_flush t).events ≡ [])
unfolding events_flush
events_flush-calls t v =
    let (made, empty) = flush_loop-calls t.events.count t v refl in
    elim (Bool-cases t.cfg.has_on_event) [
      | inl has ↦
          let calling : events_flush t ≡ flush_loop t.events.count t = ground (arith, has) in
          ground (arith, has, made, none_left (flush_loop t.events.count t) empty)
      | inr has ↦ ground (arith, has)
    ]

-- Whatever has been announced since the last flush, the application's callback is called for the
-- newest 16 events in the order they came, and the queue is empty. Without a callback nothing is
-- called and the queue is emptied too.
pub events_flush-emit_all :
    (xs : List (Event × EventArg)) (t : Node)
    → IsQueue t.events
    → ((events_flush (emit_all xs t)).world.effects ≡ (
        if t.cfg.has_on_event
        then calls (newest (contents t.events ++ xs)) t.world.effects
        else t.world.effects))
      × (contents (events_flush (emit_all xs t)).events ≡ [])
events_flush-emit_all xs t v =
    let (v', all, world, cfg) = emit_all-contents xs t v in
    let (made, empty) = events_flush-calls (emit_all xs t) v' in
    (
      made
          ∙ ap₂ (λ b es. if b then es else (emit_all xs t).world.effects)
              (ap (λ c. c.has_on_event) cfg) (ap₂ calls all (ap (λ w. w.effects) world))
          ∙ ap
              (λ w.
                if t.cfg.has_on_event
                then calls (newest (contents t.events ++ xs)) t.world.effects
                else w.effects)
              world,
      empty,
    )
