-- ===== src/Ring/Pop.antt =====
-- `tn_ringbuf_pop` against the queue, and whole histories of calls.
use treenity.Prelude.{
  ℕ, ◌+◌, ◌*◌, ◌/◌, ◌%◌, ◌≤◌, ◌<◌, ◌≡◌, refl, sym, ap, ap₂, ◌∙◌, Bool, true, false, List, [], ◌∷◌,
  ◌++◌, Option, none, some, length, length-append, arith, ltb, lt→ltb, ◌||◌, ◌==◌, dec_le,
  append_inj_left, append_inj_right,
}
use mathlib.Core.List.{append_assoc}
use treenity.Prelude.Word.{add32, sub32}
use treenity.Prelude.Int.{ℤ, pos, negsuc, ◌≤ℤ◌, to_unsigned, to_signed}
use treenity.Util.{put_u16, get_u16}
use treenity.Ring.Defs.{RxMeta, Ringbuf, rx_hdr, meta_bytes, parse_meta, push, pop, read_at}
use treenity.Ring.Window.{window, window-add, window_congr, length-window, read_at_lem, not-ltb}
use treenity.Ring.Queue.{Record, IsRecord, AreRecords, record_bytes, flat}
use treenity.Ring.Queue
use treenity.Ring.Refine.{Holds, length-flat, length-meta_bytes, push_refines}

i16_cast : (x : ℤ) → negsuc 32767 ≤ℤ x → x ≤ℤ pos 32767 → to_signed 65536 (to_unsigned 65536 x) ≡ x
i16_cast x p q = ground arith

i8_cast : (x : ℤ) → negsuc 127 ≤ℤ x → x ≤ℤ pos 127 → to_signed 256 (to_unsigned 256 x) ≡ x
i8_cast x p q = ground arith

i16_bytes :
    (x : ℤ)
    → to_unsigned 65536 x % 256 + to_unsigned 65536 x / 256 % 256 * 256 ≡ to_unsigned 65536 x
i16_bytes x = ground arith

-- The metadata is read back as it was stored.
parse_meta-meta_bytes : (r : Record) → IsRecord r → parse_meta (meta_bytes r.0) ≡ r.0
unfolding parse_meta meta_bytes put_u16 get_u16
parse_meta-meta_bytes (m, bytes) ok =
    ground (arith, i16_bytes m.rssi_dbm, i16_cast m.rssi_dbm, i8_cast m.snr_db)

pop-empty : {rb : Ringbuf} (max : ℕ) → Holds rb [] → pop rb max ≡ (rb, none)
unfolding pop
pop-empty {rb} max v =
    let guard : (rb.capacity == 0 || ltb (sub32 rb.tail rb.head) rx_hdr) ≡ true =
      ground (arith, v.capacity, length-flat v) in
    rw guard

module _ {rb : Ringbuf} {q : List Record} (r : Record) (v : Holds rb (r ∷ q)) where
  abbrev pub used : ℕ
  used = sub32 rb.tail rb.head

  abbrev pub len : ℕ
  len = r.0.len

  pub used_split : used ≡ rx_hdr + (len + length (flat q))
  used_split = omega (
    arith,
    length-flat v,
    length-append (record_bytes r) (flat q),
    length-append (meta_bytes r.0) r.1,
    length-meta_bytes r.0,
    v.records.0.bytes,
  )

  split :
      window rb.buf rb.head rx_hdr
        ++ (window rb.buf (rb.head + rx_hdr) len
            ++ window rb.buf (rb.head + rx_hdr + len) (length (flat q)))
      ≡ meta_bytes r.0 ++ (r.1 ++ flat q)
  split =
      ap (◌++◌ (window rb.buf rb.head rx_hdr)) (
        sym
          (window-add rb.buf (rb.head + rx_hdr) len (length (flat q)) (len + length (flat q)) refl))
      ∙ sym (window-add rb.buf rb.head rx_hdr (len + length (flat q)) used used_split)
      ∙ v.stored
      ∙ append_assoc (meta_bytes r.0) r.1 (flat q)

  meta_same : window rb.buf rb.head rx_hdr ≡ meta_bytes r.0
  meta_same =
      append_inj_left (window rb.buf rb.head rx_hdr) (meta_bytes r.0)
        (window rb.buf (rb.head + rx_hdr) len
          ++ window rb.buf (rb.head + rx_hdr + len) (length (flat q)))
        (r.1 ++ flat q) split (length-window rb.buf rb.head rx_hdr ∙ sym (length-meta_bytes r.0))

  rest_split :
      window rb.buf (rb.head + rx_hdr) len
        ++ window rb.buf (rb.head + rx_hdr + len) (length (flat q))
      ≡ r.1 ++ flat q
  rest_split =
      append_inj_right (window rb.buf rb.head rx_hdr) (meta_bytes r.0)
        (window rb.buf (rb.head + rx_hdr) len
          ++ window rb.buf (rb.head + rx_hdr + len) (length (flat q)))
        (r.1 ++ flat q) split (length-window rb.buf rb.head rx_hdr ∙ sym (length-meta_bytes r.0))

  data_same : window rb.buf (rb.head + rx_hdr) len ≡ r.1
  data_same =
      append_inj_left (window rb.buf (rb.head + rx_hdr) len) r.1
        (window rb.buf (rb.head + rx_hdr + len) (length (flat q))) (flat q) rest_split
        (length-window rb.buf (rb.head + rx_hdr) len ∙ sym v.records.0.bytes)

  rest_same : window rb.buf (rb.head + rx_hdr + len) (length (flat q)) ≡ flat q
  rest_same =
      append_inj_right (window rb.buf (rb.head + rx_hdr) len) r.1
        (window rb.buf (rb.head + rx_hdr + len) (length (flat q))) (flat q) rest_split
        (length-window rb.buf (rb.head + rx_hdr) len ∙ sym v.records.0.bytes)

  pub read_meta : parse_meta (read_at rb.buf rb.capacity rb.head rx_hdr) ≡ r.0
  read_meta =
      ap parse_meta (
        ap (λ c. read_at rb.buf c rb.head rx_hdr) v.capacity
        ∙ read_at_lem rb.buf rb.head rx_hdr v.size (omega arith)
        ∙ meta_same)
      ∙ parse_meta-meta_bytes r v.records.0

  pub read_data : read_at rb.buf rb.capacity (add32 rb.head rx_hdr) len ≡ r.1
  read_data =
      ap (λ c. read_at rb.buf c (add32 rb.head rx_hdr) len) v.capacity
      ∙ read_at_lem rb.buf (add32 rb.head rx_hdr) len v.size (omega (arith, used_split, v.room))
      ∙ window_congr rb.buf (add32 rb.head rx_hdr) (rb.head + rx_hdr) len (omega arith)
      ∙ data_same

  pub guard : (rb.capacity == 0 || ltb used rx_hdr) ≡ false
  guard = ground (arith, v.capacity, used_split)

  pop_long : (max : ℕ) → max < len → pop rb max ≡ (record rb { head = rb.tail }, none)
  unfolding pop
  pop_long max h = rw (guard, read_meta, lt→ltb max len h)

  pop_short :
      (max : ℕ)
      → len ≤ max
      → pop rb max ≡ (record rb { head = add32 (add32 rb.head rx_hdr) len }, some r)
  unfolding pop
  pop_short max h = rw (
    guard,
    read_meta,
    not-ltb max len h,
    not-ltb used (rx_hdr + len) (omega (arith, used_split)),
    read_data,
  )

  pub popped-Holds : Holds (record rb { head = add32 (add32 rb.head rx_hdr) len }) q
  popped-Holds =
      let left : sub32 rb.tail (add32 (add32 rb.head rx_hdr) len) ≡ length (flat q) =
        omega (arith, used_split, v.room, v.head_word, v.tail_word) in
      record {
        capacity = v.capacity;
        size = v.size;
        head_word = omega arith;
        tail_word = v.tail_word;
        room = rw left (omega (arith, used_split, v.room));
        stored = rw left (
            window_congr rb.buf (add32 (add32 rb.head rx_hdr) len) (rb.head + rx_hdr + len)
              (length (flat q)) (omega arith)
            ∙ rest_same);
        records = v.records.1;
      }

  drained-Holds : Holds (record rb { head = rb.tail }) []
  drained-Holds =
      let none_left : sub32 rb.tail rb.tail ≡ 0 = omega arith in
      record {
        capacity = v.capacity;
        size = v.size;
        head_word = v.tail_word;
        tail_word = v.tail_word;
        room = rw none_left (omega arith);
        stored = rw none_left;
        records = tt;
      }

-- `tn_ringbuf_pop` returns what the queue returns, and leaves the ring holding what is left of it:
-- the oldest record if the reader has room for it, and nothing at all if it has not.
pub pop_refines :
    {rb : Ringbuf} {q : List Record} (max : ℕ)
    → Holds rb q
    → let (rb', out) = pop rb max in let (q', out') = Queue.pop q max in Holds rb' q' × (out ≡ out')
unfolding Queue.pop
pop_refines {rb} {q = []} max v = rw (pop-empty max v) (v, refl)
pop_refines {rb} {q = r ∷ q} max v = elim (dec_le r.0.len max) [
  | yes fits ↦ rw (pop_short r v max fits, not-ltb max r.0.len fits) (popped-Holds r v, refl)
  | no long ↦
      let over : max < r.0.len = omega arith in
      rw (pop_long r v max over, lt→ltb max r.0.len over) (drained-Holds r v, refl)
]

-- What the two ends do: the producer pushes, the consumer pops.
pub data Op : Type 0 where
  put : RxMeta → List ℕ → Op
  get : ℕ → Op

-- The answers to a history of calls, of the ring and of the queue.
unfoldable pub run : Ringbuf → List Op → List (Bool × Option Record)
run rb [] = []
run rb (put m bytes ∷ ops) = let (rb', ok) = push rb m bytes in (ok, none) ∷ run rb' ops
run rb (get max ∷ ops) = let (rb', out) = pop rb max in (true, out) ∷ run rb' ops

unfoldable pub run_queue : List Record → List Op → List (Bool × Option Record)
run_queue q [] = []
run_queue q (put m bytes ∷ ops) =
    let (q', ok) = Queue.push q (m, bytes) in (ok, none) ∷ run_queue q' ops
run_queue q (get max ∷ ops) = let (q', out) = Queue.pop q max in (true, out) ∷ run_queue q' ops

-- Every record that is put in fits the types of the metadata.
abbrev pub AreOps : List Op → Type 0
AreOps [] = Unit {0}
AreOps (put m bytes ∷ ops) = IsRecord (m, bytes) × AreOps ops
AreOps (get max ∷ ops) = AreOps ops

-- No history of pushes and pops, however often the positions wrap, tells the ring from the queue.
pub run_refines :
    (ops : List Op) {rb : Ringbuf} {q : List Record}
    → AreOps ops
    → Holds rb q
    → run rb ops ≡ run_queue q ops
unfolding run run_queue
run_refines [] h v = refl
run_refines (put m bytes ∷ ops) h v =
    let (v', ok, _) = push_refines m bytes v h.0 in
    ap₂ ◌∷◌ (ap (λ b. (b, none)) ok) (run_refines ops h.1 v')
run_refines (get max ∷ ops) h v =
    let (v', out) = pop_refines max v in ap₂ ◌∷◌ (ap (λ o. (true, o)) out) (run_refines ops h v')
