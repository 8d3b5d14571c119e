-- ===== src/Node/EventList.antt =====
-- The event queue of src/api/treenet.c as a list of at most 16 events, oldest first.
use treenity.Prelude.{
  ℕ, zero, suc, ◌+◌, ◌-◌, ◌%◌, ◌≤◌, ◌<◌, ◌≡◌, ◌≢◌, refl, sym, ap, ◌∙◌, List, [], ◌∷◌, ◌++◌, arith,
  get_or, set, drop, length, length-set, get_or-set_self, get_or-set_ne, dec_lt, ap₂,
}
use treenity.Prelude.Word.{u8}
use treenity.Config.{event_queue_size}
use treenity.Node.State.{Event, network_ready, EventArg, null, EventQueue}
use treenity.Node.Event.{make_room, enqueue}

-- The `n` entries from position `h` on, around the end of the arrays.
abbrev pub items : ℕ → ℕ → List Event → List EventArg → List (Event × EventArg)
items zero h ev arg = []
items (suc n) h ev arg =
    (get_or ev h network_ready, get_or arg h null) ∷ items n ((h + 1) % 16) ev arg

-- The queued events, oldest first.
abbrev pub contents : EventQueue → List (Event × EventArg)
contents q = items q.count q.head q.ev q.arg

pub record IsQueue (q : EventQueue) : Type 0 where
  pub ev : length q.ev ≡ event_queue_size
  pub arg : length q.arg ≡ event_queue_size
  pub head : q.head < event_queue_size
  pub count : q.count ≤ event_queue_size
  pub tail : q.tail ≡ (q.head + q.count) % event_queue_size

length-items : (n h : ℕ) (ev : List Event) (arg : List EventArg) → length (items n h ev arg) ≡ n
length-items zero h ev arg = refl
length-items (suc n) h ev arg = ap suc (length-items n ((h + 1) % 16) ev arg)

items-set :
    (n h tail : ℕ) (ev : List Event) (arg : List EventArg) (e : Event) (a : EventArg)
    → length ev ≡ 16
    → length arg ≡ 16
    → n < 16
    → h < 16
    → tail ≡ (h + n) % 16
    → items (suc n) h (set ev tail e) (set arg tail a) ≡ items n h ev arg ++ ((e, a) ∷ [])
items-set zero h tail ev arg e a le la small lt at =
    let here : tail ≡ h = omega (arith, at, lt) in
    rw here (
      ap₂ (λ x y. (x, y) ∷ []) (get_or-set_self ev h e network_ready (omega (arith, lt, le)))
        (get_or-set_self arg h a null (omega (arith, lt, la))))
items-set (suc n) h tail ev arg e a le la small lt at =
    let other : tail ≢ h = omega (arith, at, lt, small) in
    ap₂ ◌∷◌
      (ap₂ (λ x y. (x, y)) (get_or-set_ne ev tail h e network_ready other)
        (get_or-set_ne arg tail h a null other))
      (items-set n ((h + 1) % 16) tail ev arg e a le la (omega (arith, small)) (omega arith)
        (omega (arith, at)))

-- The queue without its oldest event.
abbrev pub advance : EventQueue → EventQueue
advance q = record q { head = u8 ((q.head + 1) % event_queue_size); count = q.count - 1 }

abbrev pub front : EventQueue → Event × EventArg
front q = (get_or q.ev q.head network_ready, get_or q.arg q.head null)

pub contents-advance :
    (q : EventQueue) (n : ℕ)
    → q.count ≡ suc n
    → q.head < event_queue_size
    → contents q ≡ front q ∷ contents (advance q)
contents-advance q n e lt =
    let e' : q.count - 1 ≡ n = omega (arith, e) in
    let h' : u8 ((q.head + 1) % 16) ≡ (q.head + 1) % 16 = omega arith in rw (e', h', e) refl

pub advance-IsQueue : (q : EventQueue) → IsQueue q → 0 < q.count → IsQueue (advance q)
advance-IsQueue q v some = record {
  ev = v.ev;
  arg = v.arg;
  head = omega arith;
  count = omega (arith, v.count);
  tail = omega (arith, v.tail, v.head, v.count, some);
}

pub length-contents : (q : EventQueue) → length (contents q) ≡ q.count
length-contents q = length-items q.count q.head q.ev q.arg

-- What makes room in a list.
abbrev pub room {ℓ} : {A : Type ℓ} → List A → List A
room xs = drop (length xs + 1 - event_queue_size) xs

make_room-contents :
    (q : EventQueue)
    → IsQueue q
    → IsQueue (make_room q)
      × ((make_room q).count < event_queue_size)
      × (contents (make_room q) ≡ room (contents q))
unfolding make_room
make_room-contents q v = elim (dec_lt q.count event_queue_size) [
  | yes small ↦
      let e : length (contents q) + 1 - event_queue_size ≡ 0 =
        omega (arith, small, length-contents q) in
      let same : make_room q ≡ q = ground (arith, small) in rw (same, e) (v, small, refl)
  | no full ↦
      let at : q.count ≡ 16 = omega (arith, full, v.count) in
      let next : make_room q ≡ advance q = ground (arith, full) in
      let e : length (contents q) + 1 - event_queue_size ≡ 1 =
        omega (arith, at, length-contents q) in
      rw (next, e)
        (
          advance-IsQueue q v (omega (arith, at)),
          omega (arith, at),
          sym (ap (drop 1) (contents-advance q 15 at v.head)),
        )
]

pub enqueue-contents :
    (q : EventQueue) (e : Event) (a : EventArg)
    → IsQueue q
    → IsQueue (enqueue q e a) × (contents (enqueue q e a) ≡ room (contents q) ++ ((e, a) ∷ []))
unfolding enqueue
enqueue-contents q e a v =
    let (v', small, same) = make_room-contents q v in
    let r = make_room q in
    let n : u8 (r.count + 1) ≡ suc r.count = omega (arith, small) in
    (
      record {
        ev = length-set r.ev r.tail e ∙ v'.ev;
        arg = length-set r.arg r.tail a ∙ v'.arg;
        head = v'.head;
        count = omega (arith, small);
        tail = omega (arith, v'.tail, small);
      },
      ap (λ k. items k r.head (set r.ev r.tail e) (set r.arg r.tail a)) n
          ∙ items-set r.count r.head r.tail r.ev r.arg e a v'.ev v'.arg small v'.head v'.tail
          ∙ ap (λ xs. xs ++ ((e, a) ∷ [])) same,
    )
