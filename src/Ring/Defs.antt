-- ===== src/Ring/Defs.antt =====
-- The functions of src/core/ringbuf.c.
use treenity.Prelude.{
  ℕ, ◌+◌, ◌-◌, Bool, true, false, not, ◌&&◌, ◌||◌, List, ◌∷◌, [], ◌++◌, Option, none, some, ltb,
  ◌==◌, if◌then◌else◌, bit_and, take, drop, blit, get_or, min,
}
use treenity.Prelude.Word.{add32, sub32, u32}
use treenity.Prelude.Int.{ℤ, to_unsigned, to_signed}
use treenity.Util.{put_u16, get_u16}

-- `tn_rx_meta_t`
pub record RxMeta : Type 0 where
  pub len : ℕ
  pub rssi_dbm : ℤ
  pub snr_db : ℤ

-- `tn_ringbuf_t`
pub record Ringbuf : Type 0 where
  pub buf : List ℕ
  pub capacity : ℕ
  pub head : ℕ
  pub tail : ℕ
  pub dropped : ℕ

-- TN_RX_HDR
abbrev pub rx_hdr : ℕ
rx_hdr = 5

unfoldable pub is_pow2 : ℕ → Bool
is_pow2 v = not (v == 0) && bit_and v (v - 1) == 0

unfoldable pub init : List ℕ → ℕ → Ringbuf
unfolding is_pow2
init storage capacity = record {
  buf = storage;
  capacity = if is_pow2 capacity then u32 capacity else 0;
  head = 0;
  tail = 0;
  dropped = 0;
}

-- The storage after ring_write_at; `src` has the `n` bytes to write.
unfoldable pub write_at : List ℕ → ℕ → ℕ → List ℕ → ℕ → List ℕ
write_at buf capacity pos src n =
    let idx = bit_and pos (capacity - 1) in
    let first = min (capacity - idx) n in
    let low = blit buf idx (take first src) in
    if ltb first n then blit low 0 (take (n - first) (drop first src)) else low

-- The bytes that ring_read_at copies out.
unfoldable pub read_at : List ℕ → ℕ → ℕ → ℕ → List ℕ
read_at buf capacity pos n =
    let idx = bit_and pos (capacity - 1) in
    let first = min (capacity - idx) n in
    let low = take first (drop idx buf) in if ltb first n then low ++ take (n - first) buf else low

-- The five bytes before the payload of a record.
unfoldable pub meta_bytes : RxMeta → List ℕ
meta_bytes m =
    put_u16 m.len ++ (put_u16 (to_unsigned 65536 m.rssi_dbm) ++ (to_unsigned 256 m.snr_db ∷ []))

unfoldable pub parse_meta : List ℕ → RxMeta
parse_meta hdr = record {
  len = get_u16 hdr 0;
  rssi_dbm = to_signed 65536 (get_u16 hdr 2);
  snr_db = to_signed 256 (get_or hdr 4 0);
}

unfoldable pub push : Ringbuf → RxMeta → List ℕ → Ringbuf × Bool
push rb meta bytes =
    let need = rx_hdr + meta.len in
    if rb.capacity == 0 || ltb (sub32 rb.capacity (sub32 rb.tail rb.head)) need
    then (record rb { dropped = add32 rb.dropped 1 }, false)
    else let hdr_in = write_at rb.buf rb.capacity rb.tail (meta_bytes meta) rx_hdr in
      (
        record rb {
          buf = write_at hdr_in rb.capacity (add32 rb.tail rx_hdr) bytes meta.len;
          tail = add32 rb.tail need;
        },
        true,
      )

-- `none` is the result false.
unfoldable pub pop : Ringbuf → ℕ → Ringbuf × Option (RxMeta × List ℕ)
pop rb max =
    let avail = sub32 rb.tail rb.head in
    if rb.capacity == 0 || ltb avail rx_hdr
    then (rb, none)
    else let meta = parse_meta (read_at rb.buf rb.capacity rb.head rx_hdr) in
      if ltb max meta.len
      then (record rb { head = rb.tail }, none)
      else if ltb avail (rx_hdr + meta.len)
      then (rb, none)
      else (
        record rb { head = add32 (add32 rb.head rx_hdr) meta.len },
        some (meta, read_at rb.buf rb.capacity (add32 rb.head rx_hdr) meta.len),
      )

unfoldable pub empty : Ringbuf → Bool
empty rb = rb.head == rb.tail

unfoldable pub used : Ringbuf → ℕ
used rb = sub32 rb.tail rb.head
