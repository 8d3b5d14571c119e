-- ===== src/Ring/Refine.antt =====
-- The ring behaves as the queue of records that it holds.
use treenity.Prelude.{
  ℕ, ◌+◌, ◌-◌, ◌%◌, ◌≤◌, ◌<◌, ◌≡◌, refl, sym, ap, ap₂, ◌∙◌, subst, true, false, List, [], ◌∷◌, ◌++◌,
  length, arith, ltb, lt→ltb, if◌then◌else◌, ◌||◌, ◌==◌, dec_le,
}
use mathlib.Core.List.{append_assoc, append-nil}
use treenity.Prelude.Word.{add32, sub32, u32_mod}
use treenity.Config.{rx_ring_bytes}
use treenity.Util.{put_u16}
use treenity.Ring.Defs.{RxMeta, Ringbuf, rx_hdr, meta_bytes, init, push, write_at}
use treenity.Ring.Window.{window, window-add, length-window, not-ltb}
use treenity.Ring.Write.{length-write_at, window-write_self, window-write_other}
use treenity.Ring.Queue.{Record, IsRecord, AreRecords, record_bytes, flat}
use treenity.Ring.Queue

-- The ring stores exactly the records of `q`, oldest first.
pub record Holds (rb : Ringbuf) (q : List Record) : Type 0 where
  pub capacity : rb.capacity ≡ rx_ring_bytes
  pub size : length rb.buf ≡ rx_ring_bytes
  pub head_word : rb.head < u32_mod
  pub tail_word : rb.tail < u32_mod
  pub room : sub32 rb.tail rb.head ≤ rx_ring_bytes
  pub stored : window rb.buf rb.head (sub32 rb.tail rb.head) ≡ flat q
  pub records : AreRecords q

pub init-Holds :
    (storage : List ℕ) → length storage ≡ rx_ring_bytes → Holds (init storage rx_ring_bytes) []
unfolding init
init-Holds storage h = record {
  capacity = refl;
  size = h;
  head_word = omega arith;
  tail_word = omega arith;
  room = omega arith;
  stored = refl;
  records = tt;
}

pub length-meta_bytes : (m : RxMeta) → length (meta_bytes m) ≡ rx_hdr
unfolding meta_bytes put_u16
length-meta_bytes m = refl

pub flat-append : (q : List Record) (r : Record) → flat (q ++ r ∷ []) ≡ flat q ++ record_bytes r
flat-append [] r = append-nil (record_bytes r)
flat-append (x ∷ q) r =
    ap (◌++◌ (record_bytes x)) (flat-append q r)
    ∙ sym (append_assoc (record_bytes x) (flat q) (record_bytes r))

pub AreRecords-append :
    (q : List Record) (r : Record) → AreRecords q → IsRecord r → AreRecords (q ++ r ∷ [])
AreRecords-append [] r h k = (k, tt)
AreRecords-append (x ∷ q) r h k = (h.0, AreRecords-append q r h.1 k)

module _ {rb : Ringbuf} {q : List Record} (v : Holds rb q) where
  abbrev used : ℕ
  used = sub32 rb.tail rb.head

  pub length-flat : length (flat q) ≡ used
  length-flat = ap length (sym v.stored) ∙ length-window rb.buf rb.head used

  module _ (m : RxMeta) (bytes : List ℕ) (ok : IsRecord (m, bytes))
      (fits : used + (rx_hdr + m.len) ≤ rx_ring_bytes) where
    abbrev first : List ℕ
    first = write_at rb.buf rx_ring_bytes rb.tail (meta_bytes m) rx_hdr

    abbrev second : List ℕ
    second = write_at first rx_ring_bytes (add32 rb.tail rx_hdr) bytes m.len

    size_first : length first ≡ rx_ring_bytes
    size_first = length-write_at rb.buf rx_ring_bytes rb.tail (meta_bytes m) rx_hdr ∙ v.size

    small : length bytes ≤ rx_ring_bytes
    small = omega (arith, ok.bytes)

    at_tail : (rb.head + used) % rx_ring_bytes ≡ rb.tail % rx_ring_bytes
    at_tail = omega (arith, v.head_word, v.tail_word)

    at_data : (rb.head + used + rx_hdr) % rx_ring_bytes ≡ add32 rb.tail rx_hdr % rx_ring_bytes
    at_data = omega (arith, at_tail)

    old_part : window second rb.head used ≡ flat q
    old_part =
        window-write_other first bytes (add32 rb.tail rx_hdr) (rb.head + used + rx_hdr) m.len
          at_data size_first small (sym ok.bytes) rb.head used (omega arith)
          (omega (arith, ok.bytes))
        ∙ window-write_other rb.buf (meta_bytes m) rb.tail (rb.head + used) rx_hdr at_tail v.size
            (omega (arith, length-meta_bytes m)) (sym (length-meta_bytes m)) rb.head used
            (omega arith) (omega (arith, length-meta_bytes m))
        ∙ v.stored

    meta_part : window second (rb.head + used) rx_hdr ≡ meta_bytes m
    meta_part =
        window-write_other first bytes (add32 rb.tail rx_hdr) (rb.head + used + rx_hdr) m.len
          at_data size_first small (sym ok.bytes) (rb.head + used) rx_hdr (omega arith)
          (omega (arith, ok.bytes))
        ∙ subst (λ n. window first (rb.head + used) n ≡ meta_bytes m) (length-meta_bytes m)
            (window-write_self rb.buf (meta_bytes m) rb.tail (rb.head + used) rx_hdr at_tail v.size
              (omega (arith, length-meta_bytes m)) (sym (length-meta_bytes m)))

    data_part : window second (rb.head + used + rx_hdr) m.len ≡ bytes
    data_part =
        subst (λ n. window second (rb.head + used + rx_hdr) n ≡ bytes) ok.bytes
          (window-write_self first bytes (add32 rb.tail rx_hdr) (rb.head + used + rx_hdr) m.len
            at_data size_first small (sym ok.bytes))

    pushed_bytes : window second rb.head (used + (rx_hdr + m.len)) ≡ flat (q ++ (m, bytes) ∷ [])
    pushed_bytes =
        window-add second rb.head used (rx_hdr + m.len) (used + (rx_hdr + m.len)) refl
        ∙ ap₂ ◌++◌ old_part (
            window-add second (rb.head + used) rx_hdr m.len (rx_hdr + m.len) refl
            ∙ ap₂ ◌++◌ meta_part data_part)
        ∙ sym (flat-append q (m, bytes))

    abbrev pushed : Ringbuf
    pushed = record rb { buf = second; tail = add32 rb.tail (rx_hdr + m.len) }

    pushed_used : sub32 (add32 rb.tail (rx_hdr + m.len)) rb.head ≡ used + (rx_hdr + m.len)
    pushed_used = omega (arith, v.head_word, v.tail_word)

    pushed-Holds : Holds pushed (q ++ (m, bytes) ∷ [])
    pushed-Holds = record {
      capacity = v.capacity;
      size = length-write_at first rx_ring_bytes (add32 rb.tail rx_hdr) bytes m.len ∙ size_first;
      head_word = v.head_word;
      tail_word = omega arith;
      room = rw pushed_used fits;
      stored = rw pushed_used pushed_bytes;
      records = AreRecords-append q (m, bytes) v.records ok;
    }

    push_fits : push rb m bytes ≡ (pushed, true)
    unfolding push
    push_fits =
        let guard : (rb.capacity == 0
              || ltb (sub32 rb.capacity (sub32 rb.tail rb.head)) (rx_hdr + m.len))
            ≡ false =
          ground (arith, v.capacity) in
        rw guard (
          ap
            (λ c. (
              record rb {
                buf =
                    write_at (write_at rb.buf c rb.tail (meta_bytes m) rx_hdr) c
                      (add32 rb.tail rx_hdr) bytes m.len;
                tail = add32 rb.tail (rx_hdr + m.len);
              },
              true,
            ))
            v.capacity)

  push_full :
      (m : RxMeta) (bytes : List ℕ)
      → rx_ring_bytes < used + (rx_hdr + m.len)
      → push rb m bytes ≡ (record rb { dropped = add32 rb.dropped 1 }, false)
  unfolding push
  push_full m bytes full =
      let guard : (rb.capacity == 0
            || ltb (sub32 rb.capacity (sub32 rb.tail rb.head)) (rx_hdr + m.len))
          ≡ true =
        ground (arith, v.capacity, v.room) in
      rw guard

  queue_push :
      (r : Record)
      → Queue.push q r ≡ (
          if ltb rx_ring_bytes (used + (rx_hdr + r.0.len)) then (q, false) else (q ++ r ∷ [], true))
  unfolding Queue.push
  queue_push r =
      let same : ltb (rx_ring_bytes - length (flat q)) (rx_hdr + r.0.len)
          ≡ ltb rx_ring_bytes (used + (rx_hdr + r.0.len)) =
        ground (arith, length-flat, v.room) in
      rw same

-- `tn_ringbuf_push` appends a record if it fits, and otherwise refuses it and counts it as dropped;
-- either way as the queue does.
pub push_refines :
    {rb : Ringbuf} {q : List Record} (m : RxMeta) (bytes : List ℕ)
    → Holds rb q
    → IsRecord (m, bytes)
    → let (rb', ok) = push rb m bytes in
      let (q', ok') = Queue.push q (m, bytes) in
      Holds rb' q' × (ok ≡ ok') × (rb'.dropped ≡ (if ok then rb.dropped else add32 rb.dropped 1))
push_refines {rb} {q} m bytes v r = elim (dec_le (used v + (rx_hdr + m.len)) rx_ring_bytes) [
  | yes fits ↦
      rw
        (
          push_fits v m bytes r fits,
          queue_push v (m, bytes),
          not-ltb rx_ring_bytes (used v + (rx_hdr + m.len)) fits,
        )
        (pushed-Holds v m bytes r fits, refl, refl)
  | no full ↦
      let over : rx_ring_bytes < used v + (rx_hdr + m.len) = omega arith in
      rw
        (
          push_full v m bytes over,
          queue_push v (m, bytes),
          lt→ltb rx_ring_bytes (used v + (rx_hdr + m.len)) over,
        )
        (
          record {
            capacity = v.capacity;
            size = v.size;
            head_word = v.head_word;
            tail_word = v.tail_word;
            room = v.room;
            stored = v.stored;
            records = v.records;
          },
          refl,
          refl,
        )
]
