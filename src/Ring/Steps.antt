-- ===== src/Ring/Steps.antt =====
-- The two calls of src/core/ringbuf.c in the steps between which the other side can run: the
-- receive interrupt pushes while the poll loop pops. Each side alone takes four turns for a call.
use treenity.Prelude.{ℕ, ◌+◌, ◌||◌, List, [], ◌∷◌, ◌++◌, ltb, ◌==◌, if◌then◌else◌, zero, suc}
use treenity.Prelude.Word.{add32, sub32}
use treenity.Ring.Defs.{Ringbuf, RxMeta, rx_hdr, meta_bytes, parse_meta, write_at, read_at}
use treenity.Ring.Queue.{Record}

-- Where the producer stands in tn_ringbuf_push: before the call, past the test for room, with the
-- header copied, with the payload copied.
pub data Producer : Type 0 where
  waiting : Producer
  admitted header_in payload_in : Record → Producer

-- Where the consumer stands in tn_ringbuf_pop: before the call, with its snapshot of `tail`, with
-- the metadata, with the record.
pub data Consumer : Type 0 where
  resting : Consumer
  looking : (tail : ℕ) → Consumer
  measured : RxMeta → Consumer
  copied : Record → Consumer

-- The ring and both sides; `accepted` has the records whose push has returned true and `delivered`
-- those that a pop has returned, oldest first.
pub record Shared : Type 0 where
  pub rb : Ringbuf
  pub producer : Producer
  pub consumer : Consumer
  pub accepted : List Record
  pub delivered : List Record

-- The next step of the producer; the record is that of the next call.
unfoldable pub produce : Shared → Producer → Record → Shared
produce s waiting r =
    let rb = s.rb in
    if rb.capacity == 0 || ltb (sub32 rb.capacity (sub32 rb.tail rb.head)) (rx_hdr + r.0.len)
    then record s { rb = record rb { dropped = add32 rb.dropped 1 }; producer = waiting }
    else record s { producer = admitted r }
produce s (admitted r) _ = record s {
  rb = record s.rb { buf = write_at s.rb.buf s.rb.capacity s.rb.tail (meta_bytes r.0) rx_hdr };
  producer = header_in r;
}
produce s (header_in r) _ = record s {
  rb = record s.rb { buf = write_at s.rb.buf s.rb.capacity (add32 s.rb.tail rx_hdr) r.1 r.0.len };
  producer = payload_in r;
}
produce s (payload_in r) _ = record s {
  rb = record s.rb { tail = add32 s.rb.tail (rx_hdr + r.0.len) };
  producer = waiting;
  accepted = s.accepted ++ r ∷ [];
}

-- The next step of the consumer, which has room for `max` bytes.
unfoldable pub consume : ℕ → Shared → Consumer → Shared
consume max s resting =
    if s.rb.capacity == 0 || ltb (sub32 s.rb.tail s.rb.head) rx_hdr
    then record s { consumer = resting }
    else record s { consumer = looking s.rb.tail }
consume max s (looking tail) =
    let meta = parse_meta (read_at s.rb.buf s.rb.capacity s.rb.head rx_hdr) in
    if ltb max meta.len
    then record s { rb = record s.rb { head = tail }; consumer = resting }
    else if ltb (sub32 tail s.rb.head) (rx_hdr + meta.len)
    then record s { consumer = resting }
    else record s { consumer = measured meta }
consume max s (measured meta) = record s {
  consumer = copied (meta, read_at s.rb.buf s.rb.capacity (add32 s.rb.head rx_hdr) meta.len);
}
consume max s (copied r) = record s {
  rb = record s.rb { head = add32 (add32 s.rb.head rx_hdr) r.0.len };
  consumer = resting;
  delivered = s.delivered ++ r ∷ [];
}

-- Whose turn it is.
pub data Turn : Type 0 where
  producer : Record → Turn
  consumer : Turn

unfoldable pub turn : ℕ → Shared → Turn → Shared
unfolding produce consume
turn max s (producer r) = produce s s.producer r
turn max s consumer = consume max s s.consumer

-- Any order of turns.
unfoldable pub turns : ℕ → Shared → List Turn → Shared
unfolding turn
turns max s [] = s
turns max s (w ∷ ws) = turns max (turn max s w) ws

unfoldable pub at_rest : Ringbuf → Shared
at_rest rb = record {
  rb = rb;
  producer = waiting;
  consumer = resting;
  accepted = [];
  delivered = [];
}

-- A side that goes on until its call is over; a call has four steps at most.
unfoldable pub finish_push : ℕ → Shared → Producer → Record → Shared
unfolding produce
finish_push zero s p r = s
finish_push (suc left) s waiting r = s
finish_push (suc left) s p r = let s' = produce s p r in finish_push left s' s'.producer r

unfoldable pub finish_pop : ℕ → ℕ → Shared → Consumer → Shared
unfolding consume
finish_pop max zero s c = s
finish_pop max (suc left) s resting = s
finish_pop max (suc left) s c = let s' = consume max s c in finish_pop max left s' s'.consumer

-- A call without interruption.
unfoldable pub push_alone : Ringbuf → Record → Shared
unfolding produce finish_push at_rest
push_alone rb r = let s = produce (at_rest rb) waiting r in finish_push 3 s s.producer r

unfoldable pub pop_alone : ℕ → Ringbuf → Shared
unfolding consume finish_pop at_rest
pop_alone max rb = let s = consume max (at_rest rb) resting in finish_pop max 3 s s.consumer
