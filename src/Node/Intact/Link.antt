-- ===== src/Node/Intact/Link.antt =====
-- Acknowledgements, transmission and ageing in src/api/treenet.c keep the tables intact.
use treenity.Prelude.{
  ℕ, zero, suc, ◌+◌, ◌≡◌, refl, Bool, true, false, not, ◌&&◌, some, ◌==◌, leb, if◌then◌else◌, arith,
  find_index, Option-cases, Bool-cases, inl, inr, take, List,
}
use treenity.Prelude.Word.{add32}
use treenity.Config.{max_retries, tx_queue_size, max_neighbors, ack_fail_threshold, link_suspect_ms}
use treenity.Util.{time_after}
use treenity.Frame.{Frame}
use treenity.Neighbor
use treenity.Neighbor.{Neighbor}
use treenity.Neighbor.Table.{rewritten}
use treenity.Neighbor.Drop.{cleared-IsTable}
use treenity.Routes
use treenity.Routes.Lookup.{remove_via-expire-IsValid}
use treenity.Node.State.{Node, TxSlot, tx_done, tx_failed, neighbor_removed, null, transmit, note}
use treenity.Node.Tx.{slot, set_slot}
use treenity.Node.Ack.{
  set_neighbor, one_more_failure, link_failed, link_ack_result, handle_ack, awaits_ack,
}
use treenity.Node.TxPoll.{
  channel_busy, port_tx, count_sent, after_attempt, attempt, give_up, tx_step, tx_loop, tx_poll,
}
use treenity.Node.Lifecycle.{drop_neighbor, age_step, age_loop, age_neighbors}
use treenity.Node.Intact.{
  IsSlot, IsIntact, tables, IsIntact-same, IsSlot-get_or, IsTable-neighbors, IsValid-routes,
  IsNamed, All-IsNamed, All-set, IsAir, label, label-if, IsSlot-label,
}
use treenity.Node.Intact.Change.{
  IsIntact-if, IsIntact-test, IsIntact-option, IsIntact-set_slot, IsIntact-emit_event,
  IsIntact-neighbors, IsIntact-routes, IsIntact-note,
}
use treenity.Node.Intact.Named.{AreNamed-set_entry}
use treenity.Node.Intact.Routing.{IsIntact-select_parent, IsIntact-on_parent_lost}

-- What a link has shown, written back into the entry of the neighbour.
IsIntact-set_neighbor :
    (t : Node) (addr i : ℕ) (n : Neighbor)
    → IsIntact t
    → Neighbor.find t.neighbors addr ≡ some i
    → n.valid ≡ (Neighbor.entry t.neighbors i).valid
    → n.addr ≡ (Neighbor.entry t.neighbors i).addr
    → IsIntact (set_neighbor t i n)
IsIntact-set_neighbor t addr i n v e valid same =
    IsIntact-neighbors t _ v (rewritten t.neighbors addr i n (IsTable-neighbors t v) e valid same).0
      (AreNamed-set_entry t.neighbors i n (All-IsNamed t v) same)

IsIntact-link_failed :
    (t : Node) (addr i : ℕ)
    → IsIntact t
    → Neighbor.find t.neighbors addr ≡ some i
    → IsIntact (link_failed t i (Neighbor.entry t.neighbors i))
unfolding link_failed
IsIntact-link_failed t addr i v e =
    let n = Neighbor.entry t.neighbors i in
    let suspect =
      IsIntact-set_neighbor t addr i
        (record n { ack_fail = 0; suspect_until_ms = add32 t.now_ms link_suspect_ms }) v e refl
        refl in
    IsIntact-if (leb ack_fail_threshold (one_more_failure n.ack_fail)) _ _
      (IsIntact-if (n.addr == t.parent) _ _ (IsIntact-select_parent _ t.now_ms suspect) suspect)
      (IsIntact-set_neighbor t addr i _ v e refl refl)

pub IsIntact-link_ack_result :
    (t : Node) (dst : ℕ) (acked : Bool) → IsIntact t → IsIntact (link_ack_result t dst acked)
unfolding link_ack_result
IsIntact-link_ack_result t dst acked v = elim (Option-cases (Neighbor.find t.neighbors dst)) [
  | inl e ↦ rw (e, link_ack_result) v
  | inr (i, e) ↦
      rw (e, link_ack_result)
        (IsIntact-if acked _ _ (IsIntact-set_neighbor t dst i _ v e refl refl)
          (IsIntact-link_failed t dst i v e))
]

-- A slot that is given free.
released :
    (t : Node) (i : ℕ) → IsIntact t → IsIntact (set_slot t i (record (slot t i) { valid = false }))
released t i v =
    let s = IsSlot-get_or t i v in
    IsIntact-set_slot t i _ v
      (record { size = s.size; len = s.len; attempts = s.attempts; holds = λ free. cc })

pub IsIntact-handle_ack : (t : Node) (f : Frame) → IsIntact t → IsIntact (handle_ack t f)
unfolding handle_ack
IsIntact-handle_ack t f v = IsIntact-option (Neighbor.find t.neighbors f.src) t _ v (λ _ _.
    IsIntact-option (find_index (awaits_ack f.seq) t.tx) t _ v (λ i _.
      IsIntact-emit_event _ tx_done null (
        IsIntact-link_ack_result _ (slot t i).ack_dst (f.src == (slot t i).ack_dst)
          (released t i v))))

IsIntact-give_up : (t : Node) (i : ℕ) → IsIntact t → IsIntact (give_up t i (slot t i))
IsIntact-give_up t i v =
    IsIntact-emit_event _ tx_failed null
      (IsIntact-link_ack_result _ (slot t i).ack_dst false (released t i v))

-- One more attempt is counted only if the limit has not been reached.
IsSlot-after_attempt :
    (t : Node) (own net : ℕ) (s : TxSlot)
    → IsSlot own net s
    → s.valid ≡ true
    → (s.reliable && leb max_retries s.attempts) ≡ false
    → IsSlot own net (after_attempt t s)
IsSlot-after_attempt t own net s h used below = record {
  size = ground (arith, h.size);
  len = ground (arith, h.len);
  attempts = ground (arith, h.attempts, below);
  holds = λ _. ground (arith, h.holds used);
}

IsIntact-channel_busy : (t : Node) → IsIntact t → IsIntact (channel_busy t).0
unfolding channel_busy tables
IsIntact-channel_busy t v = IsIntact-same t _ (ground arith) v

-- Waiting for the channel changes neither the address nor the network.
label-channel_busy : (t : Node) → label (channel_busy t).0 ≡ label t
unfolding channel_busy
label-channel_busy t = ground arith

IsIntact-port_tx :
    (t : Node) (bytes : List ℕ)
    → IsIntact t
    → IsAir t.addr t.net_id bytes
    → IsIntact (port_tx t bytes).0
unfolding port_tx tables
IsIntact-port_tx t bytes v air =
    IsIntact-same (note (transmit bytes) t) _ refl (IsIntact-note t (transmit bytes) v air)

label-port_tx : (t : Node) (bytes : List ℕ) → label (port_tx t bytes).0 ≡ label t
unfolding port_tx
label-port_tx t bytes = refl

IsIntact-attempt :
    (t : Node) (i : ℕ)
    → IsIntact t
    → (slot t i).valid ≡ true
    → ((slot t i).reliable && leb max_retries (slot t i).attempts) ≡ false
    → IsIntact (attempt t i (slot t i))
unfolding attempt tables
IsIntact-attempt t i v used below =
    let s = slot t i in
    let t1 = (channel_busy t).0 in
    let bytes = take s.len s.buf in
    let t2 = (port_tx t1 bytes).0 in
    let sent = (port_tx t1 bytes).1 in
    let is = IsSlot-get_or t i v in
    let v1 = IsIntact-channel_busy t v in
    let is1 = IsSlot-label t t1 s (label-channel_busy t) is in
    let v2 = IsIntact-port_tx t1 bytes v1 (is1.holds used) in
    let is2 = IsSlot-label t1 t2 s (label-port_tx t1 bytes) is1 in
    let t3 = if sent then count_sent t2 s else t2 in
    let v3 =
      IsIntact-if sent (count_sent t2 s) t2 (IsIntact-same t2 (count_sent t2 s) refl v2) v2 in
    let is3 = IsSlot-label t2 t3 s (label-if sent (count_sent t2 s) t2 refl refl) is2 in
    IsIntact-if (channel_busy t).1 _ _
      (IsIntact-set_slot t1 i _ v1
        (record { size = is1.size; len = is1.len; attempts = is1.attempts; holds = is1.holds }))
      (IsIntact-set_slot t3 i (after_attempt t s) v3
        (IsSlot-after_attempt t t3.addr t3.net_id s is3 used below))

IsIntact-tx_step : (t : Node) (i : ℕ) → IsIntact t → IsIntact (tx_step t i)
unfolding tx_step
IsIntact-tx_step t i v =
    IsIntact-test (not (slot t i).valid) _ _ (λ _. v)
      (λ used. IsIntact-if (time_after (slot t i).next_tx_ms t.now_ms) _ _ v (
        IsIntact-test ((slot t i).reliable && leb max_retries (slot t i).attempts) _ _
          (λ _. IsIntact-give_up t i v) (IsIntact-attempt t i v (ground (arith, used)))))

IsIntact-tx_loop : (left i : ℕ) (t : Node) → IsIntact t → IsIntact (tx_loop left i t)
unfolding tx_loop
IsIntact-tx_loop zero i t v = v
IsIntact-tx_loop (suc left) i t v =
    IsIntact-tx_loop left (i + 1) (tx_step t i) (IsIntact-tx_step t i v)

pub IsIntact-tx_poll : (t : Node) → IsIntact t → IsIntact (tx_poll t)
unfolding tx_poll
IsIntact-tx_poll t v = IsIntact-tx_loop tx_queue_size 0 t v

-- A neighbour that is forgotten, with the routes via it.
IsIntact-drop_neighbor :
    (t : Node) (i gone : ℕ)
    → IsIntact t
    → (Neighbor.entry t.neighbors i).valid ≡ true
    → IsIntact (drop_neighbor t i gone)
unfolding drop_neighbor tables
IsIntact-drop_neighbor t i gone v used =
    let t1 = record t { routes = (Routes.remove_via t.routes gone).0 } in
    let v1 =
      IsIntact-routes t t1.routes v
        (remove_via-expire-IsValid t.routes gone 0 0 (IsValid-routes t v)).0 in
    let v2 = IsIntact-emit_event _ neighbor_removed null (
      IsIntact-neighbors t1 _ v1 (cleared-IsTable t.neighbors i (IsTable-neighbors t v) used) (
        All-set IsNamed t.neighbors.entries i Neighbor.zero_neighbor (All-IsNamed t v)
          (omega arith))) in
    IsIntact-if _ _ _ (IsIntact-on_parent_lost _ _ v2) v2

IsIntact-age_step : (t : Node) (i : ℕ) → IsIntact t → IsIntact (age_step t i)
unfolding age_step
IsIntact-age_step t i v = elim (Bool-cases (Neighbor.entry t.neighbors i).valid) [
  | inl used ↦
      rw (used, age_step)
        (IsIntact-if _ _ _ v
          (IsIntact-drop_neighbor t i (Neighbor.entry t.neighbors i).addr v used))
  | inr free ↦ rw (free, age_step) v
]

IsIntact-age_loop : (left i : ℕ) (t : Node) → IsIntact t → IsIntact (age_loop left i t)
unfolding age_loop
IsIntact-age_loop zero i t v = v
IsIntact-age_loop (suc left) i t v =
    IsIntact-age_loop left (i + 1) (age_step t i) (IsIntact-age_step t i v)

pub IsIntact-age_neighbors : (t : Node) → IsIntact t → IsIntact (age_neighbors t)
unfolding age_neighbors
IsIntact-age_neighbors t v = IsIntact-age_loop max_neighbors 0 t v
