-- ===== src/Node/Intact/Data.antt =====
-- Events, reassembly, delivery and route advertisements in src/api/treenet.c and
-- src/routing/routing.c keep an instance intact.
use treenity.Prelude.{
  ℕ, zero, suc, ◌+◌, ◌≡◌, refl, ap, ◌∙◌, true, false, not, List, [], ◌∷◌, ◌==◌, ltb, arith, length,
  length-set, set, find_index, Option-cases, inl, inr, map, ltb→lt, bit_and, Option, none, some,
}
use treenity.Prelude.Word.{u8}
use treenity.Prelude.Int.{ℤ}
use treenity.Config.{addr_invalid}
use treenity.Frame.{Frame, FragHdr, Dao, frag_decode, dao_decode, flag_frag, dao_encode}
use treenity.Routes.Lookup.{add-IsValid}
use treenity.Node.State.{Node, Reasm, event, note, next_seq, incr}
use treenity.Node.Event.{flush_loop, events_flush}
use treenity.Node.EventList.{front, advance, advance-IsQueue}
use treenity.Node.Control.{is_master, dao_frame}
use treenity.Node.Beacon.{is_leaf}
use treenity.Node.Dao.{bad_dao, install_route, link_cost_to, dao_install, dao_handle}
use treenity.Node.Reasm.{
  reasm_slot, hand_up, reasm_accept, reasm_input, deliver, expire_reasm, belongs, free_reasm,
}
use treenity.Node.Intact.{
  IsIntact, tables, IsIntact-same, IsValid-routes, IsQueue-events, length-reasm, names,
}
use treenity.Node.Intact.Change.{
  IsIntact-if, IsIntact-test, IsIntact-option, IsIntact-pair, IsIntact-option_pair, IsIntact-events,
  IsIntact-reasm, IsIntact-routes, IsIntact-note, IsIntact-pair_test,
}
use treenity.Frame.RoundTrip.{IsFrame}
use treenity.Frame.Bytes.{Long}
use treenity.Frame.Integrity.{AreBytes, AreBytes-get_or}
use treenity.Util.{get_u32, put_u32}
use treenity.Node.Intact.Control.{made, numbered}

IsIntact-flush_loop : (fuel : ℕ) (t : Node) → IsIntact t → IsIntact (flush_loop fuel t)
unfolding flush_loop tables
IsIntact-flush_loop zero t v = v
IsIntact-flush_loop (suc fuel) t v =
    IsIntact-test (ltb 0 t.events.count) _ _
      (λ some_left.
        let next = record t { events = advance t.events } in
        IsIntact-flush_loop fuel (note (event (front t.events).0 (front t.events).1) next) (
          IsIntact-note next (event (front t.events).0 (front t.events).1)
            (IsIntact-events t (advance t.events) v
              (advance-IsQueue t.events (IsQueue-events t v) (ltb→lt 0 t.events.count some_left)))
            tt))
      (λ _. v)

pub IsIntact-events_flush : (t : Node) → IsIntact t → IsIntact (events_flush t)
unfolding events_flush
IsIntact-events_flush t v =
    let q = IsQueue-events t v in
    IsIntact-if (not t.cfg.has_on_event) _ _
      (IsIntact-events t (record t.events { head = 0; tail = 0; count = 0 }) v
        (record {
          ev = q.ev;
          arg = q.arg;
          head = omega arith;
          count = omega arith;
          tail = omega arith;
        }))
      (IsIntact-flush_loop t.events.count t v)

length-reasm_slot :
    (rs : List Reasm) (src dgram_id count now : ℕ)
    → length (reasm_slot rs src dgram_id count now).0 ≡ length rs
unfolding reasm_slot
length-reasm_slot rs src dgram_id count now =
    elim (Option-cases (find_index (belongs src dgram_id) rs)) [
      | inr (i, e) ↦ rw (e, reasm_slot)
      | inl e ↦ elim (Option-cases (find_index free_reasm rs)) [
        | inr (i, e') ↦ rw (e, e', reasm_slot) (length-set rs i _)
        | inl e' ↦ rw (e, e', reasm_slot) (length-set rs _ _)
      ]
    ]

IsIntact-hand_up :
    (t : Node) (f : Frame) (bytes : List ℕ) (rssi snr : ℤ)
    → IsIntact t
    → IsIntact (hand_up t f bytes rssi snr)
unfolding hand_up tables
IsIntact-hand_up t f bytes rssi snr v =
    let t1 = record t { stats = record t.stats { datagrams_rx = incr t.stats.datagrams_rx } } in
    let v1 = IsIntact-same t t1 refl v in
    IsIntact-if t.cfg.has_on_recv _ _ (IsIntact-note t1 _ v1 tt) v1

IsIntact-reasm_accept :
    (t : Node) (f : Frame) (fh : FragHdr) (chunk : List ℕ) (rssi snr : ℤ) (now : ℕ)
    → IsIntact t
    → IsIntact (reasm_accept t f fh chunk rssi snr now)
unfolding reasm_accept
IsIntact-reasm_accept t f fh chunk rssi snr now v =
    let found = reasm_slot t.reasm f.src fh.dgram_id fh.count now in
    let put = λ (r : Reasm). IsIntact-reasm t (set found.0 found.1 r) v (
      length-set found.0 found.1 r
      ∙ length-reasm_slot t.reasm f.src fh.dgram_id fh.count now
      ∙ length-reasm t v) in
    IsIntact-if _ _ _ (put _) (IsIntact-if _ _ _ (IsIntact-hand_up _ f _ rssi snr (put _)) (put _))

pub IsIntact-deliver :
    (t : Node) (f : Frame) (rssi snr : ℤ) → IsIntact t → IsIntact (deliver t f rssi snr)
unfolding deliver reasm_input
IsIntact-deliver t f rssi snr v =
    IsIntact-if (not (bit_and f.flags flag_frag == 0)) _ _
      (IsIntact-option (frag_decode f.payload f.payload_len) t _ v
        (λ fh _. IsIntact-if _ _ _ v (IsIntact-reasm_accept t f fh _ rssi snr t.now_ms v)))
      (IsIntact-hand_up t f _ rssi snr v)

-- A frame that came in: well formed, of the node's network, with a payload of bytes.
pub record Heard (t : Node) (f : Frame) : Type 0 where
  pub frame : IsFrame f
  pub network : f.net_id ≡ t.net_id
  pub content : (p : List ℕ) → f.payload ≡ some p → AreBytes p

-- The origin of an advertisement that came in.
pub Long-origin :
    (payload : Option (List ℕ)) (len : ℕ) (d : Dao)
    → ((p : List ℕ) → payload ≡ some p → AreBytes p)
    → dao_decode payload len ≡ some d
    → Long d.origin
unfolding dao_decode get_u32
Long-origin none len d h e = absurd (ground (arith, e))
Long-origin (some p) len d h e =
    let bytes = h p refl in
    ground (
      arith,
      e,
      AreBytes-get_or p 0 bytes,
      AreBytes-get_or p 1 bytes,
      AreBytes-get_or p 2 bytes,
      AreBytes-get_or p 3 bytes,
    )

IsIntact-dao_install :
    (t : Node) (d : Dao) (f : Frame) (now : ℕ)
    → IsIntact t
    → Long d.origin
    → bad_dao d f ≡ false
    → IsIntact (dao_install t d f now).0
unfolding dao_install next_seq put_u32 dao_encode
IsIntact-dao_install t d f now v long good =
    let t1 = install_route t d f now in
    let cost = link_cost_to t f.prev in
    let v1 =
      IsIntact-routes t t1.routes v
        (add-IsValid t.routes d.origin f.prev cost (u8 (d.hops + 1)) now (IsValid-routes t v)) in
    let n = names t1 v1 in
    IsIntact-pair (is_master t1.role) _ _ v1 (
      IsIntact-pair_test (t1.parent == addr_invalid) _ _ (λ _. v1)
        (λ placed. IsIntact-pair (f.prev == t1.parent) _ _ v1 (
          numbered t1 (dao_frame t1 d.origin d.origin (u8 (d.hops + 1)) t1.seq) true t1.parent v1 (
            made t1 _ n refl (omega arith, omega arith, omega arith, omega arith)
              (long, ground (arith, good), ground (arith, good)) (n.parent, ground (arith, placed))
              n.seq refl refl))))

pub IsIntact-dao_handle :
    (t : Node) (f : Frame) (now : ℕ) → IsIntact t → Heard t f → IsIntact (dao_handle t f now).0
unfolding dao_handle
IsIntact-dao_handle t f now v h = IsIntact-pair (is_leaf t.role) _ _ v (
    IsIntact-option_pair (dao_decode f.payload f.payload_len) _ _ v (λ d e.
      IsIntact-pair_test (bad_dao d f) _ _ (λ _. v)
        (λ good. IsIntact-pair (d.origin == t.addr) _ _ v (
          IsIntact-dao_install t d f now v (Long-origin f.payload f.payload_len d h.content e)
            good))))

length-map {ℓ κ} :
    {A : Type ℓ} {B : Type κ} (f : A → B) (xs : List A) → length (map f xs) ≡ length xs
length-map f [] = refl
length-map f (x ∷ xs) = ap suc (length-map f xs)

pub IsIntact-expire_reasm : (t : Node) → IsIntact t → IsIntact (expire_reasm t)
unfolding expire_reasm
IsIntact-expire_reasm t v = IsIntact-reasm t _ v (length-map _ t.reasm ∙ length-reasm t v)
