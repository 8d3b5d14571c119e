-- ===== src/Node/Relay/Fragments.antt =====
-- Every fragment of a datagram is queued: the loop of tn_send_datagram in src/api/treenet.c.
use treenity.Prelude.{
  ℕ, zero, suc, ◌+◌, ◌<◌, ◌≤◌, ◌≡◌, ◌≢◌, ◌⊎◌, inl, inr, refl, sym, ap, ◌∙◌, subst, Bool, true,
  false, List, arith, ℕ_discrete,
}
use treenity.Prelude.Word.{u16}
use treenity.Config.{max_fragments}
use treenity.Frame.{Frame}
use treenity.Node.State.{Node, next_seq, call_rnd}
use treenity.Node.Tx.{tx_submit, tx_free_slots, stamped, slot}
use treenity.Node.Send.{sent, frag_bytes, frag_frame, send_frags, send_fragmented}
use treenity.Node.Capacity.{
  frag_count, frag_bytes-fit, free_seq, send_fragmented-cases, tx_submit-takes_one,
}
use treenity.Node.Intact.{IsIntact, names, label}
use treenity.Node.Intact.Control.{IsIntact-next_seq, numbered}
use treenity.Node.Intact.Calls.{IsReal, IsMine-frag_frame}
use treenity.Node.Relay.{Carries, Fills, queued-Fills}

-- A slot that was free holds the frame.
abbrev Holds : Node → Node → Frame → Type 0
Holds t t' f =
    (j : ℕ) × ((slot t j).valid ≡ false) × ((slot t' j).valid ≡ true) × Carries (slot t' j) f

-- What is left of a slot in use.
abbrev KeepsUsed : Node → Node → Type 0
KeepsUsed t t' = (j : ℕ) → (slot t j).valid ≡ true → slot t' j ≡ slot t j

label-tx_submit :
    (t : Node) (f : Frame) (reliable : Bool) (next_hop delay_ms : ℕ)
    → let t' = (tx_submit t f reliable next_hop delay_ms).0 in
      (label t' ≡ label t) × (t'.seq ≡ t.seq)
unfolding tx_submit call_rnd
label-tx_submit t f reliable next_hop delay_ms = ground arith

module _ (flood reliable : Bool) (dst nh : ℕ) (bytes : List ℕ) (real : IsReal dst)
    (dgram_id count : ℕ) where
  -- Fragment `i` with this sequence number, as the node sends it.
  abbrev piece : Node → (seq i : ℕ) → Frame
  piece t seq i = stamped t (frag_frame t flood reliable dst seq bytes dgram_id count i)

  piece-label :
      (t t' : Node) (seq seq' i i' : ℕ)
      → label t' ≡ label t
      → seq' ≡ seq
      → i' ≡ i
      → piece t' seq' i' ≡ piece t seq i
  piece-label t t' seq seq' i i' e es ei = rw (es, ei) cc

  -- The `left` fragments from `i` on are in slots that were free, and only these slots have changed.
  record AreQueued (left : ℕ) (t t' : Node) (i : ℕ) : Type 0 where
    room : tx_free_slots t' + left ≡ tx_free_slots t
    kept : KeepsUsed t t'
    each : (k : ℕ) → k < left → Holds t t' (piece t (u16 (t.seq + k)) (i + k))

  -- One fragment has been queued in slot `j`, and then the others.
  module _ (t t2 t' : Node) (left i j : ℕ) (v : IsIntact t) (fills : Fills (piece t t.seq i) t t2 j)
      (same : label t2 ≡ label t) (next : t2.seq ≡ u16 (t.seq + 1))
      (room : tx_free_slots t2 + 1 ≡ tx_free_slots t) (rest : AreQueued left t2 t' (i + 1)) where
    was_free : (m : ℕ) → (slot t2 m).valid ≡ false → (slot t m).valid ≡ false
    was_free m free = elim (ℕ_discrete j m) [
      | yes e ↦ absurd (ground (arith, fills.used, free, e))
      | no ne ↦ ap (λ s. s.valid) (sym (fills.others m ne)) ∙ free
    ]

    kept_first : KeepsUsed t t'
    kept_first m used = elim (ℕ_discrete j m) [
      | yes e ↦ absurd (ground (arith, fills.free, used, e))
      | no ne ↦ rest.kept m (ap (λ s. s.valid) (fills.others m ne) ∙ used) ∙ fills.others m ne
    ]

    each_first : (k : ℕ) → k < suc left → Holds t t' (piece t (u16 (t.seq + k)) (i + k))
    each_first zero lt =
        let stays = rest.kept j fills.used in
        let piece_eq =
          piece-label t t t.seq (u16 (t.seq + 0)) i (i + 0) refl (omega (arith, (names t v).seq))
            (omega arith) in
        (
          j,
          fills.free,
          ap (λ s. s.valid) stays ∙ fills.used,
          subst (λ s. Carries s (piece t (u16 (t.seq + 0)) (i + 0))) (sym stays)
              (subst (Carries (slot t2 j)) (sym piece_eq) fills.carries),
        )
    each_first (suc k) lt =
        let (m, free, used, carries) = rest.each k (omega (arith, lt)) in
        let piece_eq =
          piece-label t t2 (u16 (t.seq + suc k)) (u16 (t2.seq + k)) (i + suc k) (i + 1 + k) same
            (omega (arith, next)) (omega arith) in
        (m, was_free m free, used, subst (Carries (slot t' m)) piece_eq carries)

    AreQueued-first : AreQueued (suc left) t t' i
    AreQueued-first = record {
      room = omega (arith, room, rest.room);
      kept = kept_first;
      each = each_first;
    }

  AreQueued-send_frags :
      (left : ℕ) (t : Node) (i : ℕ)
      → IsIntact t
      → left ≤ tx_free_slots t
      → AreQueued left t (send_frags left t flood reliable dst nh bytes dgram_id count i).0 i
  unfolding send_frags next_seq tx_free_slots
  AreQueued-send_frags zero t i v h = record {
    room = omega arith;
    kept = λ j used. refl;
    each = λ k lt. absurd (omega (arith, lt));
  }
  AreQueued-send_frags (suc left) t i v h =
      let t1 = (next_seq t).0 in
      let frame = frag_frame t flood reliable dst t.seq bytes dgram_id count i in
      let mine = IsMine-frag_frame t flood reliable dst bytes dgram_id count i v real in
      let t2 = (tx_submit t1 frame reliable nh 0).0 in
      let v2 = numbered t frame reliable nh v mine in
      let (ok, one) =
        tx_submit-takes_one t1 frame reliable nh 0 (frag_bytes bytes dgram_id count i)
          (omega (arith, h, free_seq t)) refl (frag_bytes-fit bytes dgram_id count i) in
      let (j, fills) =
        queued-Fills t1 frame reliable nh 0 (IsIntact-next_seq t v) mine.frame
          (ground (arith, ok)) in
      let here : Fills (piece t t.seq i) t t2 j = record {
        free = fills.free;
        used = fills.used;
        carries = fills.carries;
        others = fills.others;
      } in
      let (same, seq) = label-tx_submit t1 frame reliable nh 0 in
      let rest = AreQueued-send_frags left t2 (i + 1) v2 (omega (arith, h, one, free_seq t)) in
      rw ok (
        AreQueued-first t t2
          (send_frags left t2 flood reliable dst nh bytes dgram_id count (i + 1)).0 left i j v here
          same seq (omega (arith, one, free_seq t)) rest)

-- Every fragment of a datagram has got a slot that was free, with the next sequence numbers in their
-- order; as many slots have been taken, and the slots in use are as they were.
pub record AreInSlots (t t' : Node) (flood reliable : Bool) (dst : ℕ) (bytes : List ℕ)
    : Type 0 where
  pub room : tx_free_slots t' + frag_count bytes ≡ tx_free_slots t
  pub kept : KeepsUsed t t'
  pub each :
      (k : ℕ)
      → k < frag_count bytes
      → Holds t t' (
          stamped t (
            frag_frame t flood reliable dst (u16 (t.seq + 1 + k)) bytes t.seq (frag_count bytes) k))

send_fragmented-send_frags :
    (t : Node) (flood reliable : Bool) (dst nh : ℕ) (bytes : List ℕ)
    → frag_count bytes ≤ max_fragments
    → frag_count bytes ≤ tx_free_slots t
    → send_fragmented t flood reliable dst nh bytes
      ≡ send_frags
          (frag_count bytes)
          (next_seq t).0
          flood
          reliable
          dst
          nh
          bytes
          t.seq
          (frag_count bytes)
          0
unfolding send_fragmented next_seq
send_fragmented-send_frags t flood reliable dst nh bytes few fits = ground arith

send_frags-AreInSlots :
    (t : Node) (flood reliable : Bool) (dst nh : ℕ) (bytes : List ℕ)
    → IsIntact t
    → IsReal dst
    → frag_count bytes ≤ tx_free_slots t
    → AreInSlots t
        (send_frags
          (frag_count bytes)
          (next_seq t).0
          flood
          reliable
          dst
          nh
          bytes
          t.seq
          (frag_count bytes)
          0).0
        flood
        reliable
        dst
        bytes
unfolding next_seq
send_frags-AreInSlots t flood reliable dst nh bytes v real fits =
    let count = frag_count bytes in
    let t1 = (next_seq t).0 in
    let t' = (send_frags count t1 flood reliable dst nh bytes t.seq count 0).0 in
    let queued =
      AreQueued-send_frags flood reliable dst nh bytes real t.seq count count t1 0
        (IsIntact-next_seq t v) (omega (arith, fits, free_seq t)) in
    record {
      room = omega (arith, queued.room, free_seq t);
      kept = queued.kept;
      each = λ k lt.
          let (j, free, used, carries) = queued.each k lt in
          let piece_eq =
            piece-label flood reliable dst nh bytes real t.seq count t t1 (u16 (t.seq + 1 + k))
              (u16 (t1.seq + k)) k (0 + k) refl (omega arith) (omega arith) in
          (j, free, used, subst (Carries (slot t' j)) piece_eq carries);
    }

-- A fragmented datagram is queued as a whole if it has at most 8 fragments and the queue has a free slot
-- for each: every fragment is then in a slot that was free, as bytes that decode to its frame from this
-- instance with the next sequence numbers in their order; as many slots are taken as there are fragments,
-- and the slots in use are as they were. In every other case the datagram is refused and the instance is
-- as it was. The tables of the instance are intact, and the destination is a 32-bit address other
-- than 0.
pub send_fragmented-whole :
    (t : Node) (flood reliable : Bool) (dst nh : ℕ) (bytes : List ℕ)
    → IsIntact t
    → IsReal dst
    → let (t', result) = send_fragmented t flood reliable dst nh bytes in
      let count = frag_count bytes in
      ((count ≤ max_fragments)
        × (count ≤ tx_free_slots t)
        × (result ≡ sent)
        × AreInSlots t t' flood reliable dst bytes)
      ⊎ (((max_fragments < count) ⊎ (tx_free_slots t < count)) × (result ≢ sent) × (t' ≡ t))
send_fragmented-whole t flood reliable dst nh bytes v real =
    elim (send_fragmented-cases t flood reliable dst nh bytes) [
      | inr refused ↦ inr refused
      | inl (few, fits, ok) ↦
          let same = send_fragmented-send_frags t flood reliable dst nh bytes few fits in
          inl (
            few,
            fits,
            ok,
            subst (λ r. AreInSlots t r.0 flood reliable dst bytes) (sym same)
                (send_frags-AreInSlots t flood reliable dst nh bytes v real fits),
          )
    ]
