-- ===== src/Node/Relay.antt =====
-- What a submission and an acknowledgement of src/api/treenet.c make of the transmission queue, and what
-- the handling of a frame may make of it.
pub mod Handlers
pub mod Advert
pub mod Fragments
use treenity.Prelude.{
  ℕ, ◌-◌, ◌<◌, ◌≡◌, ◌≢◌, refl, sym, ap, ◌∙◌, Bool, true, false, not, ◌||◌, List, Option, none, some,
  leb, ◌==◌, arith, take, length, find_index, Option-cases, Bool-cases, inl, inr, ℕ_discrete,
  if◌then◌else◌, subst, get_or, get_or-set_self, find_index-lt, find_index-passes,
}
use treenity.Prelude.Int.{ℤ}
use treenity.Config.{protocol_version, mtu, addr_invalid, addr_broadcast}
use treenity.Dupcache
use treenity.Frame.{Frame, zero_frame, frame_decode, frame_encode, frame_overhead}
use treenity.Frame.RoundTrip.{IsFrame, Same}
use treenity.Node.State.{Node, zero_slot, TxSlot, call_rnd}
use treenity.Node.Tx.{tx_submit, is_free, stamped, slot, drop_frame}
use treenity.Node.Control.{frame_ack, send_ack, is_queued}
use treenity.Node.Beacon.{is_leaf}
use treenity.Node.Reasm.{deliver, reasm_input, reasm_accept, hand_up}
use treenity.Node.Receive.{
  route_next_hop, wants_ack, ack_if_wanted, one_hop_less, accept_data, forward_data, handle_data,
  flood_delay, handle_flood,
}
use treenity.Node.Queued.{tx_submit-decodes}
use treenity.Node.Quiet.{core, core-deliver}
use treenity.Node.Intact.Data.{Heard, IsIntact-deliver}
use treenity.Node.Intact.Forward.{
  IsIntact-mark, IsIntact-route_next_hop, IsIntact-flood_delay, IsMine-one_hop_less,
  label-route_next_hop, label-deliver, label-flood_delay,
}
use treenity.Node.Intact.{IsIntact, IsSlot-get_or, names, label}
use treenity.Node.Capacity.{tx_submit-writes, new_slot}
use treenity.Node.Intact.Control.{frame_encode-fits, made, IsIntact-tx_submit}

-- The bytes of the slot are a frame with this header and this payload.
abbrev pub Carries : TxSlot → Frame → Type 0
Carries s f = (g : Frame) × (frame_decode (take s.len s.buf) ≡ some g) × Same f g

-- What the submission of a frame makes of a slot: nothing, or the frame fills it if it was free.
pub data Submitted (f : Frame) (s s' : TxSlot) : Type 0 where
  untouched : s' ≡ s → Submitted f s s'
  filled : s.valid ≡ false → s'.valid ≡ true → Carries s' f → Submitted f s s'

-- Slot `i` was free and has been filled with the frame; the other slots are as they were.
pub record Fills (f : Frame) (t t' : Node) (i : ℕ) : Type 0 where
  pub free : (slot t i).valid ≡ false
  pub used : (slot t' i).valid ≡ true
  pub carries : Carries (slot t' i) f
  pub others : (j : ℕ) → i ≢ j → slot t' j ≡ slot t j

Fills-tx_submit :
    (t : Node) (f : Frame) (reliable : Bool) (next_hop delay_ms i : ℕ) (bytes : List ℕ)
    → IsIntact t
    → IsFrame (stamped t f)
    → find_index is_free t.tx ≡ some i
    → frame_encode mtu (stamped t f) ≡ some bytes
    → Fills (stamped t f) t (tx_submit t f reliable next_hop delay_ms).0 i
Fills-tx_submit t f reliable next_hop delay_ms i bytes v h e enc =
    let (ok, carries, others) =
      tx_submit-decodes t f reliable next_hop delay_ms i e (IsSlot-get_or t i v).size h
        (frame_encode-fits (stamped t f) bytes enc) in
    let writes = (tx_submit-writes t f reliable next_hop delay_ms i bytes e enc).1 in
    let new = new_slot t f reliable next_hop delay_ms i bytes in
    record {
      free = ground (arith, find_index-passes is_free t.tx i zero_slot e);
      used =
          ap (λ xs. (get_or xs i zero_slot).valid) writes
          ∙ ap (λ s. s.valid)
              (get_or-set_self t.tx i new zero_slot (find_index-lt is_free t.tx i e));
      carries = carries;
      others = others;
    }

pub Submitted-tx_submit :
    (t : Node) (f : Frame) (reliable : Bool) (next_hop delay_ms j : ℕ)
    → IsIntact t
    → IsFrame (stamped t f)
    → Submitted (stamped t f) (slot t j) (slot (tx_submit t f reliable next_hop delay_ms).0 j)
unfolding tx_submit
Submitted-tx_submit t f reliable next_hop delay_ms j v h =
    let t' = (tx_submit t f reliable next_hop delay_ms).0 in
    elim (Option-cases (find_index is_free t.tx)) [
      | inl e ↦ rw (e, tx_submit) (untouched refl)
      | inr (i, e) ↦ elim (Option-cases (frame_encode mtu (stamped t f))) [
        | inl enc ↦ rw (e, enc, tx_submit) (untouched refl)
        | inr (bytes, enc) ↦
            let fills = Fills-tx_submit t f reliable next_hop delay_ms i bytes v h e enc in
            elim (ℕ_discrete i j) [
              | yes same ↦
                  subst (λ k. Submitted (stamped t f) (slot t k) (slot t' k)) same
                    (filled fills.free fills.used fills.carries)
              | no ne ↦ untouched (fills.others j ne)
            ]
      ]
    ]

-- A submission that is queued fills a slot.
pub queued-Fills :
    (t : Node) (f : Frame) (reliable : Bool) (next_hop delay_ms : ℕ)
    → IsIntact t
    → IsFrame (stamped t f)
    → is_queued (tx_submit t f reliable next_hop delay_ms).1 ≡ true
    → (i : ℕ) × Fills (stamped t f) t (tx_submit t f reliable next_hop delay_ms).0 i
unfolding tx_submit
queued-Fills t f reliable next_hop delay_ms v h ok = elim (Option-cases (find_index is_free t.tx)) [
  | inl e ↦ absurd (ground (arith, e, ok))
  | inr (i, e) ↦ elim (Option-cases (frame_encode mtu (stamped t f))) [
    | inl enc ↦ absurd (ground (arith, e, enc, ok))
    | inr (bytes, enc) ↦ (i, Fills-tx_submit t f reliable next_hop delay_ms i bytes v h e enc)
  ]
]

-- The acknowledgement of `f`, from a node with this address and network.
abbrev pub ack_of : ℕ × ℕ → Frame → Frame
ack_of l f = record zero_frame {
  version = protocol_version;
  type = frame_ack;
  src = l.0;
  dst = f.prev;
  seq = f.seq;
  net_id = l.1;
  hop_limit = 1;
  prev = l.0;
}

-- The frame as it is passed on by a node with this address.
abbrev pub passed_on : ℕ × ℕ → Frame → Frame
passed_on l f = record f { hop_limit = f.hop_limit - 1; prev = l.0 }

Submitted-send_ack :
    (t : Node) (f : Frame) (j : ℕ)
    → IsIntact t
    → IsFrame f
    → Submitted (ack_of (label t) f) (slot t j) (slot (send_ack t f.prev f.seq) j)
unfolding send_ack
Submitted-send_ack t f j v h =
    elim (Bool-cases (f.prev == addr_invalid || f.prev == addr_broadcast)) [
      | inl none_there ↦ rw (none_there, send_ack) (untouched refl)
      | inr there ↦
          rw (there, send_ack)
            (Submitted-tx_submit t (record (ack_of (label t) f) { prev = 0 }) false f.prev 0 j v
              ((made t (record (ack_of (label t) f) { prev = 0 }) (names t v) refl
                (omega arith, omega arith, omega arith, omega arith) (names t v).own
                (h.prev, ground (arith, there)) h.seq refl refl).frame))
    ]

-- What the handling of frame `f` by the instance `t` makes of a slot of its transmission queue.
pub data Handled (t : Node) (f : Frame) (now : ℕ) (s s' : TxSlot) : Type 0 where
  kept : s' ≡ s → Handled t f now s s'
  acked :
      wants_ack f ≡ true → s.valid ≡ false → Carries s' (ack_of (label t) f) → Handled t f now s s'
  relayed :
      Dupcache.check t.dup f.src f.seq now ≡ false
      → is_leaf t.role ≡ false
      → 1 < f.hop_limit
      → s.valid ≡ false
      → Carries s' (passed_on (label t) f)
      → Handled t f now s s'

-- An acknowledgement by an instance `t'` that `t` has become.
pub Handled-ack :
    (t t' : Node) (f : Frame) (now j : ℕ)
    → label t' ≡ label t
    → IsIntact t'
    → IsFrame f
    → Handled t f now (slot t' j) (slot (ack_if_wanted t' f) j)
Handled-ack t t' f now j e v h = elim (Bool-cases (wants_ack f)) [
  | inr no_need ↦ rw no_need (kept refl)
  | inl wanted ↦
      let sent =
        subst (λ l. Submitted (ack_of l f) (slot t' j) (slot (send_ack t' f.prev f.seq) j)) e
          (Submitted-send_ack t' f j v h) in
      rw wanted (elim sent [
        | untouched same ↦ kept same
        | filled free used carries ↦ acked wanted free carries
      ])
]
