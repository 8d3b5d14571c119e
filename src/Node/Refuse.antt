-- ===== src/Node/Refuse.antt =====
-- The error results of treenet_send and treenet_broadcast in src/api/treenet.c: a datagram that is
-- refused leaves nothing behind in the transmission queue.
use treenity.Prelude.{
  ℕ, zero, suc, ◌+◌, ◌≡◌, ◌≢◌, ◌⊎◌, inl, inr, refl, ap, ◌∙◌, Bool, true, false, not, ◌&&◌, ◌||◌,
  List, some, arith, ltb, leb, ◌==◌, if◌then◌else◌, length, find_index, Option-cases, Bool-cases,
}
use treenity.Prelude.Word.{u16}
use treenity.Config.{
  mtu, max_fragments, max_datagram, addr_invalid, addr_broadcast, route_timeout_ms,
}
use treenity.Frame.{Frame, frame_encode}
use treenity.Routes
use treenity.Node.State.{Node, incr, call_rnd, next_seq}
use treenity.Node.Tx.{
  TxResult, queued, full, unencodable, tx_submit, is_free, stamped, tx_free_slots,
}
use treenity.Node.Control.{is_queued}
use treenity.Node.Receive.{route_next_hop}
use treenity.Node.Capacity.{send_fragmented-cases, frag_count}
use treenity.Node.Send.{
  SendResult, sent, refused, no_path, max_payload, submit_result, data_frame, ack_flag, send_single,
  frag_frame, send_frags, send_fragmented, send_via, send_datagram, treenet_broadcast, treenet_send,
}

-- A datagram was queued and counted once, or there is an error and neither the queue nor the count of
-- datagrams has changed.
abbrev pub Atomic : Node → Node × SendResult → Type 0
Atomic t p =
    ((p.1 ≡ sent) × (p.0.stats.datagrams_tx ≡ incr t.stats.datagrams_tx))
    ⊎ ((p.1 ≢ sent) × (p.0.tx ≡ t.tx) × (p.0.stats.datagrams_tx ≡ t.stats.datagrams_tx))

-- The queue and the count are all that matters of the instance before.
Atomic-from :
    (t t' : Node) (p : Node × SendResult)
    → t'.tx ≡ t.tx
    → t'.stats.datagrams_tx ≡ t.stats.datagrams_tx
    → Atomic t' p
    → Atomic t p
Atomic-from t t' p tx count (inl (ok, one)) = inl (ok, one ∙ ap incr count)
Atomic-from t t' p tx count (inr (bad, same, none_counted)) =
    inr (bad, same ∙ tx, none_counted ∙ count)

refuse : (t : Node) (r : SendResult) → r ≢ sent → Atomic t (t, r)
refuse t r ne = inr (ne, refl, refl)

Atomic-if :
    (b : Bool) (t : Node) (p q : Node × SendResult)
    → Atomic t p
    → Atomic t q
    → Atomic t (if b then p else q)
Atomic-if true t p q f g = f
Atomic-if false t p q f g = g

tx_submit-count :
    (t : Node) (f : Frame) (reliable : Bool) (next_hop delay_ms : ℕ)
    → ((tx_submit t f reliable next_hop delay_ms).0.stats.datagrams_tx ≡ t.stats.datagrams_tx)
      × (((tx_submit t f reliable next_hop delay_ms).1 ≡ queued)
          ⊎ (((tx_submit t f reliable next_hop delay_ms).1 ≢ queued)
              × ((tx_submit t f reliable next_hop delay_ms).0.tx ≡ t.tx)))
unfolding tx_submit call_rnd
tx_submit-count t f reliable next_hop delay_ms = elim (Option-cases (find_index is_free t.tx)) [
  | inl busy ↦ (ground (arith, busy), inr (λ e. ground (arith, busy, e), ground (arith, busy)))
  | inr (i, free) ↦ elim (Option-cases (frame_encode mtu (stamped t f))) [
    | inl big ↦ (
      ground (arith, free, big),
      inr (λ e. ground (arith, free, big, e), ground (arith, free, big)),
    )
    | inr (bytes, enc) ↦ (ground (arith, free, enc), inl (ground (arith, free, enc)))
  ]
]

submit-Atomic :
    (t t2 : Node) (rc : TxResult)
    → t2.stats.datagrams_tx ≡ t.stats.datagrams_tx
    → ((rc ≡ queued) ⊎ ((rc ≢ queued) × (t2.tx ≡ t.tx)))
    → Atomic t (
      if is_queued rc
          then record t2 { stats = record t2.stats { datagrams_tx = incr t2.stats.datagrams_tx } }
          else t2,
      submit_result rc,
    )
submit-Atomic t t2 queued count out = inl (refl, ap incr count)
submit-Atomic t t2 full count (inl e) = absurd (ground (arith, e))
submit-Atomic t t2 full count (inr (ne, tx)) = inr (λ e. ground (arith, e), tx, count)
submit-Atomic t t2 unencodable count (inl e) = absurd (ground (arith, e))
submit-Atomic t t2 unencodable count (inr (ne, tx)) = inr (λ e. ground (arith, e), tx, count)

send_single-Atomic :
    (t : Node) (flood reliable : Bool) (dst nh : ℕ) (bytes : List ℕ)
    → Atomic t (send_single t flood reliable dst nh bytes)
unfolding send_single next_seq
send_single-Atomic t flood reliable dst nh bytes =
    let t1 = record t { seq = u16 (t.seq + 1) } in
    let frame = record (data_frame t flood dst t.seq) {
      flags = ack_flag reliable;
      payload = some bytes;
      payload_len = length bytes;
    } in
    let (count, out) = tx_submit-count t1 frame reliable nh 0 in
    let (t2, rc) = tx_submit t1 frame reliable nh 0 in submit-Atomic t t2 rc count out

counts_if_queued :
    (n : ℕ) (b : Bool) (rest : Node × SendResult) (t2 : Node)
    → (rest.1 ≡ sent → rest.0.stats.datagrams_tx ≡ n)
    → (if b then rest else (t2, refused)).1 ≡ sent
    → (if b then rest else (t2, refused)).0.stats.datagrams_tx ≡ n
counts_if_queued n true rest t2 h e = h e
counts_if_queued n false rest t2 h e = absurd (ground (arith, e))

send_frags-count :
    (left : ℕ) (t : Node) (flood reliable : Bool) (dst nh : ℕ) (bytes : List ℕ)
    (dgram_id count i : ℕ)
    → (send_frags left t flood reliable dst nh bytes dgram_id count i).1 ≡ sent
    → (send_frags left t flood reliable dst nh bytes dgram_id count i).0.stats.datagrams_tx
      ≡ incr t.stats.datagrams_tx
unfolding send_frags next_seq
send_frags-count zero t flood reliable dst nh bytes dgram_id count i e = refl
send_frags-count (suc left) t flood reliable dst nh bytes dgram_id count i e =
    let t1 = record t { seq = u16 (t.seq + 1) } in
    let frame = frag_frame t flood reliable dst t.seq bytes dgram_id count i in
    let t2 = (tx_submit t1 frame reliable nh 0).0 in
    counts_if_queued (incr t.stats.datagrams_tx) (is_queued (tx_submit t1 frame reliable nh 0).1)
      (send_frags left t2 flood reliable dst nh bytes dgram_id count (i + 1)) t2
      (λ ok.
        send_frags-count left t2 flood reliable dst nh bytes dgram_id count (i + 1) ok
        ∙ ap incr (tx_submit-count t1 frame reliable nh 0).0)
      e

send_fragmented-count :
    (t : Node) (flood reliable : Bool) (dst nh : ℕ) (bytes : List ℕ)
    → (send_fragmented t flood reliable dst nh bytes).1 ≡ sent
    → (send_fragmented t flood reliable dst nh bytes).0.stats.datagrams_tx
      ≡ incr t.stats.datagrams_tx
unfolding send_fragmented next_seq
send_fragmented-count t flood reliable dst nh bytes e =
    let t1 = record t { seq = u16 (t.seq + 1) } in
    let count = frag_count bytes in
    elim (Bool-cases (ltb max_fragments count)) [
      | inl big ↦ absurd (ground (arith, big, e))
      | inr few ↦ elim (Bool-cases (ltb (tx_free_slots t) count)) [
        | inl many ↦ absurd (ground (arith, few, many, e))
        | inr fits ↦ ground (
          arith,
          few,
          fits,
          e,
          send_frags-count count t1 flood reliable dst nh bytes t.seq count 0,
        )
      ]
    ]

send_fragmented-Atomic :
    (t : Node) (flood reliable : Bool) (dst nh : ℕ) (bytes : List ℕ)
    → Atomic t (send_fragmented t flood reliable dst nh bytes)
send_fragmented-Atomic t flood reliable dst nh bytes =
    elim (send_fragmented-cases t flood reliable dst nh bytes) [
      | inl (few, fits, ok) ↦ inl (ok, send_fragmented-count t flood reliable dst nh bytes ok)
      | inr (why, bad, same) ↦ inr (bad, ap (λ u. u.tx) same, ap (λ u. u.stats.datagrams_tx) same)
    ]

send_via-Atomic :
    (t : Node) (flood : Bool) (dst nh : ℕ) (bytes : List ℕ)
    → Atomic t (send_via t flood dst nh bytes)
unfolding send_via
send_via-Atomic t flood dst nh bytes =
    Atomic-if (leb (length bytes) max_payload) t _ _
      (send_single-Atomic t flood (not flood && t.cfg.reliable) dst nh bytes)
      (send_fragmented-Atomic t flood (not flood && t.cfg.reliable) dst nh bytes)

route_next_hop-keeps :
    (t : Node) (dst : ℕ)
    → ((route_next_hop t dst).0.tx ≡ t.tx) × ((route_next_hop t dst).0.stats ≡ t.stats)
unfolding route_next_hop
route_next_hop-keeps t dst =
    elim (Option-cases (Routes.lookup t.routes dst t.now_ms route_timeout_ms).1) [
      | inl gone ↦ ground (arith, gone)
      | inr (r, found) ↦ ground (arith, found)
    ]

send_datagram-Atomic :
    (t : Node) (dst : ℕ) (bytes : List ℕ) (flood : Bool)
    → Atomic t (send_datagram t dst bytes flood)
unfolding send_datagram
send_datagram-Atomic t dst bytes flood =
    let (t1, nh) = route_next_hop t dst in
    let (tx, stats) = route_next_hop-keeps t dst in
    let count = ap (λ s. s.datagrams_tx) stats in
    Atomic-if (length bytes == 0 || ltb max_datagram (length bytes)) t _ _
      (refuse t refused (λ e. ground (arith, e)))
      (Atomic-if flood t _ _ (send_via-Atomic t true dst addr_broadcast bytes) (
        Atomic-if (nh == addr_invalid) t _ _
          (Atomic-from t t1 (t1, no_path) tx count (refuse t1 no_path (λ e. ground (arith, e))))
          (Atomic-from t t1 (send_via t1 false dst nh bytes) tx count
            (send_via-Atomic t1 false dst nh bytes))))

treenet_broadcast-Atomic : (t : Node) (bytes : List ℕ) → Atomic t (treenet_broadcast t bytes)
unfolding treenet_broadcast
treenet_broadcast-Atomic t bytes =
    Atomic-if (not t.initialized) t _ _ (refuse t refused (λ e. ground (arith, e)))
      (send_datagram-Atomic t addr_broadcast bytes true)

-- Every call of treenet_send either succeeds and counts one datagram, or returns an error and leaves
-- the transmission queue and the count of datagrams as they were.
pub treenet_send-Atomic :
    (t : Node) (dst : ℕ) (bytes : List ℕ) → Atomic t (treenet_send t dst bytes)
unfolding treenet_send
treenet_send-Atomic t dst bytes =
    let refusal = refuse t refused (λ e. ground (arith, e)) in
    Atomic-if (not t.initialized) t _ _ refusal (
      Atomic-if (dst == addr_broadcast) t _ _ (treenet_broadcast-Atomic t bytes) (
        Atomic-if (dst == t.addr || dst == addr_invalid) t _ _ refusal
          (send_datagram-Atomic t dst bytes false)))
