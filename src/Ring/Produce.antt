-- ===== src/Ring/Produce.antt =====
-- The steps of tn_ringbuf_push in src/core/ringbuf.c, with the consumer at any point of its call.
use treenity.Prelude.{
  ℕ, ◌+◌, ◌%◌, ◌≤◌, ◌≡◌, refl, sym, ap, ap₂, ◌∙◌, subst, List, [], ◌∷◌, ◌++◌, length, arith, ltb,
  ◌||◌, ◌==◌, Bool-cases, inl, inr,
}
use mathlib.Core.List.{append_assoc}
use treenity.Prelude.Word.{add32, sub32}
use treenity.Config.{rx_ring_bytes}
use treenity.Ring.Defs.{Ringbuf, rx_hdr, meta_bytes, write_at}
use treenity.Ring.Window.{window, window-add, window_congr}
use treenity.Ring.Write.{length-write_at, window-write_self, window-write_other}
use treenity.Ring.Queue.{Record}
use treenity.Ring.Refine.{Holds, length-meta_bytes, flat-append, AreRecords-append}
use treenity.Ring.Steps.{
  Producer, waiting, admitted, header_in, payload_in, Consumer, resting, looking, measured, copied,
  Shared, produce,
}
use treenity.Ring.Sound.{used, IsShort, AreShort, Written, Oldest, Seen, IsSound}

-- A write behind the records in the ring leaves them alone.
module _ {rb : Ringbuf} {q : List Record} (v : Holds rb q) (src : List ℕ) (k n pos : ℕ)
    (all : n ≡ length src) (room : sub32 rb.tail rb.head + (k + n) ≤ rx_ring_bytes)
    (at : (rb.tail + k) % rx_ring_bytes ≡ pos % rx_ring_bytes) where
  abbrev buf : List ℕ
  buf = write_at rb.buf rb.capacity pos src n

  same_buf : buf ≡ write_at rb.buf rx_ring_bytes pos src n
  same_buf = ap (λ c. write_at rb.buf c pos src n) v.capacity

  from_head : (rb.head + sub32 rb.tail rb.head + k) % rx_ring_bytes ≡ pos % rx_ring_bytes
  from_head = omega (arith, at, v.head_word, v.tail_word)

  -- What stands before the write is as it was.
  before :
      (p m : ℕ)
      → p + m ≤ rb.head + sub32 rb.tail rb.head + k
      → rb.head ≤ p
      → window buf p m ≡ window rb.buf p m
  before p m low high =
      ap (λ b. window b p m) same_buf
      ∙ window-write_other rb.buf src pos (rb.head + sub32 rb.tail rb.head + k) n from_head v.size
          (omega (arith, all, room)) all p m low (omega (arith, all, room, high))

  write-Holds : Holds (record rb { buf = buf }) q
  write-Holds = record {
    capacity = v.capacity;
    size = length-write_at rb.buf rb.capacity pos src n ∙ v.size;
    head_word = v.head_word;
    tail_word = v.tail_word;
    room = v.room;
    stored = before rb.head (sub32 rb.tail rb.head) (omega arith) (omega arith) ∙ v.stored;
    records = v.records;
  }

  write-window : window buf pos n ≡ src
  write-window =
      ap (λ b. window b pos n) same_buf
      ∙ subst (λ i. window (write_at rb.buf rx_ring_bytes pos src n) pos i ≡ src) (sym all)
          (window-write_self rb.buf src pos pos n refl v.size (omega (arith, all, room)) all)

Oldest-append :
    (q : List Record) (x : Record) (P : Record → Type 0) → Oldest q P → Oldest (q ++ x ∷ []) P
Oldest-append [] x P h = absurd h
Oldest-append (r ∷ q) x P h = h

Seen-append :
    (head : ℕ) (q : List Record) (x : Record) (c : Consumer)
    → Seen head q c
    → Seen head (q ++ x ∷ []) c
Seen-append head q x resting h = tt
Seen-append head q x (looking tail) h = Oldest-append q x _ h
Seen-append head q x (measured meta) h = Oldest-append q x _ h
Seen-append head q x (copied r) h = Oldest-append q x _ h

AreShort-append :
    (max : ℕ) (q : List Record) (x : Record)
    → AreShort max q
    → x.0.len ≤ max
    → AreShort max (q ++ x ∷ [])
AreShort-append max [] x h k = (k, tt)
AreShort-append max (r ∷ q) x h k = (h.0, AreShort-append max q x h.1 k)

-- Publishing a record whose bytes are in place appends it.
publish-Holds :
    {rb : Ringbuf} {q : List Record} (max : ℕ) (r : Record)
    → Holds rb q
    → Written max rb (payload_in r)
    → Holds (record rb { tail = add32 rb.tail (rx_hdr + r.0.len) }) (q ++ r ∷ [])
publish-Holds {rb} {q} max r v (ok, room, meta, body) =
    let grown : sub32 (add32 rb.tail (rx_hdr + r.0.len)) rb.head ≡ used rb + (rx_hdr + r.0.len) =
      omega (arith, v.head_word, v.tail_word, room) in
    let at : (rb.head + used rb) % rx_ring_bytes ≡ rb.tail % rx_ring_bytes =
      omega (arith, v.head_word, v.tail_word) in
    record {
      capacity = v.capacity;
      size = v.size;
      head_word = v.head_word;
      tail_word = omega arith;
      room = rw grown room;
      stored = rw grown (
          window-add rb.buf rb.head (used rb) (rx_hdr + r.0.len) (used rb + (rx_hdr + r.0.len)) refl
          ∙ ap₂ ◌++◌ v.stored (
              window_congr rb.buf (rb.head + used rb) rb.tail (rx_hdr + r.0.len) at
              ∙ window-add rb.buf rb.tail rx_hdr r.0.len (rx_hdr + r.0.len) refl
              ∙ ap₂ ◌++◌ meta body)
          ∙ sym (flat-append q r));
      records = AreRecords-append q r v.records ok.0;
    }

-- A push that is refused changes a counter only.
counted-Holds :
    {rb : Ringbuf} {q : List Record} (n : ℕ) → Holds rb q → Holds (record rb { dropped = n }) q
counted-Holds n v = record {
  capacity = v.capacity;
  size = v.size;
  head_word = v.head_word;
  tail_word = v.tail_word;
  room = v.room;
  stored = v.stored;
  records = v.records;
}

-- Each step of the producer keeps the ring sound; the last one appends the record.
pub produce-IsSound :
    (max : ℕ) (s : Shared) (q : List Record) (r : Record)
    → IsSound max s q
    → IsShort max r
    → (p : Producer) → Written max s.rb p
    → (q' : List Record) × IsSound max (produce s p r) q'
unfolding produce
produce-IsSound max s q r v ok waiting w =
    elim (Bool-cases (
      s.rb.capacity == 0
      || ltb (sub32 s.rb.capacity (sub32 s.rb.tail s.rb.head)) (rx_hdr + r.0.len))) [
        | inl full ↦ (
          q,
          rw full (record {
            holds = counted-Holds (add32 s.rb.dropped 1) v.holds;
            fifo = v.fifo;
            short = v.short;
            written = tt;
            seen = v.seen;
          }),
        )
        | inr room ↦ (
          q,
          rw room (record {
            holds = v.holds;
            fifo = v.fifo;
            short = v.short;
            written = (ok, ground (arith, room, v.holds.capacity, v.holds.room));
            seen = v.seen;
          }),
        )
      ]
produce-IsSound max s q r v ok (admitted x) w =
    let hdr = meta_bytes x.0 in
    let size = sym (length-meta_bytes x.0) in
    let room : used s.rb + (0 + rx_hdr) ≤ rx_ring_bytes = omega (arith, w.1) in
    let at : (s.rb.tail + 0) % rx_ring_bytes ≡ s.rb.tail % rx_ring_bytes = omega arith in
    (
      q,
      record {
        holds = write-Holds v.holds hdr 0 rx_hdr s.rb.tail size room at;
        fifo = v.fifo;
        short = v.short;
        written = (w.0, w.1, write-window v.holds hdr 0 rx_hdr s.rb.tail size room at);
        seen = v.seen;
      },
    )
produce-IsSound max s q r v ok (header_in x) w =
    let size = sym w.0.0.bytes in
    let room : used s.rb + (rx_hdr + x.0.len) ≤ rx_ring_bytes = w.1 in
    let pos = add32 s.rb.tail rx_hdr in
    let at : (s.rb.tail + rx_hdr) % rx_ring_bytes ≡ pos % rx_ring_bytes = omega arith in
    let at_tail : (s.rb.head + used s.rb) % rx_ring_bytes ≡ s.rb.tail % rx_ring_bytes =
      omega (arith, v.holds.head_word, v.holds.tail_word) in
    let new = write_at s.rb.buf s.rb.capacity pos x.1 x.0.len in
    (
      q,
      record {
        holds = write-Holds v.holds x.1 rx_hdr x.0.len pos size room at;
        fifo = v.fifo;
        short = v.short;
        written = (
          w.0,
          w.1,
          window_congr new s.rb.tail (s.rb.head + used s.rb) rx_hdr (sym at_tail)
              ∙ before v.holds x.1 rx_hdr x.0.len pos size room at (s.rb.head + used s.rb) rx_hdr
                  (omega arith) (omega arith)
              ∙ window_congr s.rb.buf (s.rb.head + used s.rb) s.rb.tail rx_hdr at_tail
              ∙ w.2,
          window_congr new (s.rb.tail + rx_hdr) pos x.0.len at
              ∙ write-window v.holds x.1 rx_hdr x.0.len pos size room at,
        );
        seen = v.seen;
      },
    )
produce-IsSound max s q r v ok (payload_in x) w = (
  q ++ x ∷ [],
  record {
    holds = publish-Holds max x v.holds w;
    fifo = ap (λ l. l ++ x ∷ []) v.fifo ∙ append_assoc s.delivered q (x ∷ []);
    short = AreShort-append max q x v.short w.0.1;
    written = tt;
    seen = Seen-append s.rb.head q x s.consumer v.seen;
  },
)
