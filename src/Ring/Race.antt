-- ===== src/Ring/Race.antt =====
-- Producer and consumer of src/core/ringbuf.c in any interleaving of their steps.
use treenity.Prelude.{
  ℕ, ◌+◌, ◌≤◌, ◌≡◌, refl, sym, ap, ◌∙◌, true, List, [], ◌∷◌, ◌++◌, length, arith, ltb, ◌||◌, ◌==◌,
  Option, none, some, is_some,
}
use mathlib.Core.List.{append_assoc}
use treenity.Prelude.Word.{add32, sub32}
use treenity.Config.{rx_ring_bytes}
use treenity.Ring.Defs.{Ringbuf, rx_hdr, read_at, init, push, pop}
use treenity.Ring.Window.{not-ltb}
use treenity.Ring.Queue.{Record}
use treenity.Ring.Refine.{Holds, length-flat, init-Holds}
use treenity.Ring.Pop.{used_split, read_meta, read_data, popped-Holds, guard}
use treenity.Ring.Steps.{
  Producer, waiting, admitted, header_in, payload_in, Consumer, resting, looking, measured, copied,
  Shared, consume, Turn, producer, consumer, turn, turns, at_rest, push_alone, pop_alone,
}
use treenity.Ring.Sound.{used, Written, Seen, AreTurns, IsSound}
use treenity.Ring.Produce.{produce-IsSound}

-- A producer under way finds its bytes as it left them when the head moves on.
Written-advance :
    (max : ℕ) (rb : Ringbuf) (head : ℕ) (p : Producer)
    → sub32 rb.tail head ≤ used rb
    → Written max rb p
    → Written max (record rb { head = head }) p
Written-advance max rb head waiting less w = tt
Written-advance max rb head (admitted r) less w = (w.0, omega (arith, w.1, less))
Written-advance max rb head (header_in r) less w = (w.0, omega (arith, w.1, less), w.2)
Written-advance max rb head (payload_in r) less w = (w.0, omega (arith, w.1, less), w.2, w.3)

-- The consumer alone goes on.
moved :
    {max : ℕ} {s : Shared} {q : List Record} (c : Consumer)
    → IsSound max s q
    → Seen s.rb.head q c
    → IsSound max (record s { consumer = c }) q
moved c v seen = record {
  holds = v.holds;
  fifo = v.fifo;
  short = v.short;
  written = v.written;
  seen = seen;
}

-- Each step of the consumer keeps the ring sound; the last one takes the oldest record out.
consume-IsSound :
    (max : ℕ) (s : Shared) (q : List Record)
    → IsSound max s q
    → (c : Consumer) → Seen s.rb.head q c
    → (q' : List Record) × IsSound max (consume max s c) q'
unfolding consume
consume-IsSound max s [] v resting w =
    let idle : (s.rb.capacity == 0 || ltb (sub32 s.rb.tail s.rb.head) rx_hdr) ≡ true =
      ground (arith, v.holds.capacity, length-flat v.holds) in
    ([], rw idle (moved resting v tt))
consume-IsSound max s (r ∷ q) v resting w = (
  r ∷ q,
  rw (guard r v.holds) (moved (looking s.rb.tail) v (omega (arith, used_split r v.holds))),
)
consume-IsSound max s [] v (looking tail) w = absurd w
consume-IsSound max s (r ∷ q) v (looking tail) w = (
  r ∷ q,
  rw
      (
        read_meta r v.holds,
        not-ltb max r.0.len v.short.0,
        not-ltb (sub32 tail s.rb.head) (rx_hdr + r.0.len) w,
      )
      (moved (measured r.0) v refl),
)
consume-IsSound max s [] v (measured meta) w = absurd w
consume-IsSound max s (r ∷ q) v (measured meta) w = (
  r ∷ q,
  moved _ v (
      ap (λ m. (m, read_at s.rb.buf s.rb.capacity (add32 s.rb.head rx_hdr) m.len)) w
      ∙ ap (λ bytes. (r.0, bytes)) (read_data r v.holds)),
)
consume-IsSound max s [] v (copied x) w = absurd w
consume-IsSound max s (r ∷ q) v (copied x) w = (
  q,
  rw w (record {
    holds = popped-Holds r v.holds;
    fifo = v.fifo ∙ sym (append_assoc s.delivered (r ∷ []) q);
    short = v.short.1;
    written =
        Written-advance max s.rb (add32 (add32 s.rb.head rx_hdr) r.0.len) s.producer
          (omega (arith, used_split r v.holds, v.holds.head_word, v.holds.tail_word, v.holds.room))
          v.written;
    seen = tt;
  }),
)

-- In whatever order the two sides take their steps, the ring stays sound.
turns-IsSound :
    (max : ℕ) (ws : List Turn) (s : Shared) (q : List Record)
    → AreTurns max ws
    → IsSound max s q
    → (q' : List Record) × IsSound max (turns max s ws) q'
unfolding turns turn
turns-IsSound max [] s q h v = (q, v)
turns-IsSound max (producer r ∷ ws) s q h v =
    let (q', v') = produce-IsSound max s q r v h.0 s.producer v.written in
    turns-IsSound max ws (turn max s (producer r)) q' h.1 v'
turns-IsSound max (consumer ∷ ws) s q h v =
    let (q', v') = consume-IsSound max s q v s.consumer v.seen in
    turns-IsSound max ws (turn max s consumer) q' h v'

at_rest-IsSound : (max : ℕ) (rb : Ringbuf) → Holds rb [] → IsSound max (at_rest rb) []
unfolding at_rest
at_rest-IsSound max rb v = record { holds = v; fifo = refl; short = tt; written = tt; seen = tt }

-- However the steps of producer and consumer are interleaved, if every record has the bytes that its
-- metadata says and the consumer has room for it: the records that were accepted are those that were
-- delivered, in the same order and byte for byte, followed by those that the ring still holds.
pub turns-fifo :
    (max : ℕ) (ws : List Turn) (storage : List ℕ)
    → length storage ≡ rx_ring_bytes
    → AreTurns max ws
    → (q : List Record) × Holds (turns max (at_rest (init storage rx_ring_bytes)) ws).rb q
      × ((turns max (at_rest (init storage rx_ring_bytes)) ws).accepted
          ≡ (turns max (at_rest (init storage rx_ring_bytes)) ws).delivered ++ q)
turns-fifo max ws storage size h =
    let rb = init storage rx_ring_bytes in
    let (q, v) =
      turns-IsSound max ws (at_rest rb) [] h (at_rest-IsSound max rb (init-Holds storage size)) in
    (q, v.holds, v.fifo)

abbrev pub first_of : List Record → Option Record
first_of [] = none
first_of (r ∷ rs) = some r

-- The steps of a call that nothing interrupts come to what the model of the whole call does.
pub alone-eq-call :
    (max : ℕ) (rb : Ringbuf) (r : Record)
    → (push rb r.0 r.1 ≡ ((push_alone rb r).rb, is_some (first_of (push_alone rb r).accepted)))
      × (pop rb max ≡ ((pop_alone max rb).rb, first_of (pop_alone max rb).delivered))
unfolding push_alone pop_alone push pop
alone-eq-call max rb r = (ground arith, ground arith)
