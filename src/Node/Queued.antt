-- ===== src/Node/Queued.antt =====
-- A queued frame is what the modem will send, and what a receiver decodes: tn_tx_submit of
-- src/api/treenet.c with the codec of src/mac/frame.c.
use treenity.Prelude.{
  ℕ, ◌+◌, ◌<◌, ◌≤◌, ◌≡◌, ◌≢◌, ap, ◌∙◌, Bool, List, some, arith, get_or, take, blit, length,
  find_index, get_or-set_self, get_or-set_ne, find_index-lt, take-blit,
}
use treenity.Prelude.Word.{u16}
use treenity.Config.{mtu}
use treenity.Frame.{Frame, frame_decode, frame_overhead}
use treenity.Frame.RoundTrip.{IsFrame, Same, decode-encode}
use treenity.Node.State.{Node, zero_slot}
use treenity.Node.Tx.{queued, tx_submit, is_free, slot, stamped}
use treenity.Node.Capacity.{tx_submit-writes, new_slot}

pub stored :
    (buf bytes : List ℕ)
    → length bytes ≤ length buf
    → length bytes < 65536
    → take (u16 (length bytes)) (blit buf 0 bytes) ≡ bytes
stored buf bytes h small =
    ap (λ n. take n (blit buf 0 bytes)) (omega (arith, small)) ∙ take-blit buf bytes h

-- A frame that fits the MTU and is submitted while slot `i` is the first free one is queued in that
-- slot. The bytes that the modem is given for the slot decode to the frame with the node's address
-- as its previous hop; no other slot changes.
pub tx_submit-decodes :
    (t : Node) (f : Frame) (reliable : Bool) (next_hop delay_ms i : ℕ)
    → find_index is_free t.tx ≡ some i
    → length (slot t i).buf ≡ mtu
    → IsFrame (stamped t f)
    → frame_overhead + f.payload_len ≤ mtu
    → ((tx_submit t f reliable next_hop delay_ms).1 ≡ queued)
      × ((g : Frame) × (frame_decode (
              take
                (slot (tx_submit t f reliable next_hop delay_ms).0 i).len
                (slot (tx_submit t f reliable next_hop delay_ms).0 i).buf)
            ≡ some g)
          × Same (stamped t f) g)
      × ((j : ℕ) → i ≢ j → slot (tx_submit t f reliable next_hop delay_ms).0 j ≡ slot t j)
tx_submit-decodes t f reliable next_hop delay_ms i e size v fits =
    let (bytes, g, enc, len, dec, same) = decode-encode mtu (stamped t f) v fits fits in
    let (ok, tx_eq) = tx_submit-writes t f reliable next_hop delay_ms i bytes e enc in
    let new = new_slot t f reliable next_hop delay_ms i bytes in
    let lt = find_index-lt is_free t.tx i e in
    (
      ok,
      (
        g,
        ap (λ s. frame_decode (take s.len s.buf))
              (ap (λ xs. get_or xs i zero_slot) tx_eq ∙ get_or-set_self t.tx i new zero_slot lt)
            ∙ (ap frame_decode (
                  stored (slot t i).buf bytes (omega (arith, len, size, fits))
                    (omega (arith, len, fits)))
                ∙ dec),
        same,
      ),
      λ j ne. ap (λ xs. get_or xs j zero_slot) tx_eq ∙ get_or-set_ne t.tx i j new zero_slot ne,
    )
