-- ===== src/Node/Relay/Advert.antt =====
-- What an accepted destination advertisement makes a node do: tn_dao_handle of src/routing/routing.c.
use treenity.Prelude.{
  ℕ, ◌+◌, ◌<◌, ◌≤◌, ◌≡◌, refl, Bool, true, false, Option, none, some, leb, ◌==◌, arith, inl, inr,
  ◌⊎◌, if◌then◌else◌,
}
use treenity.Prelude.Word.{u8, u32_mod, add32}
use treenity.Config.{max_hops, addr_invalid}
use treenity.Frame.{Frame, Dao, dao_decode, dao_encode}
use treenity.Util.{put_u32}
use treenity.Routes
use treenity.Routes.Lookup.{lookup-add, add-IsValid, new_route}
use treenity.Node.State.{Node, next_seq, call_rnd}
use treenity.Node.Tx.{tx_submit, stamped, slot}
use treenity.Node.Control.{is_master, dao_frame}
use treenity.Node.Beacon.{is_leaf}
use treenity.Node.Dao.{bad_dao, install_route, link_cost_to, dao_install, dao_handle}
use treenity.Node.Intact.{IsIntact, IsValid-routes, names}
use treenity.Node.Intact.Control.{made, IsIntact-next_seq}
use treenity.Node.Intact.Change.{IsIntact-routes}
use treenity.Node.Intact.Data.{Heard, Long-origin}
use treenity.Node.Relay.{Carries, queued-Fills}

-- A lookup of the origin gives the previous hop of the advertisement, for as long as a route lives.
abbrev IsRouted : Node → Node → Dao → Frame → ℕ → Type 0
IsRouted t t' d f now =
    (k timeout_ms : ℕ)
    → k < u32_mod
    → (Routes.lookup t'.routes d.origin (add32 now k) timeout_ms).1 ≡ (
        if leb k timeout_ms
        then some (new_route d.origin f.prev (link_cost_to t f.prev) (u8 (d.hops + 1)) now)
        else none)

-- A slot that was free holds the advertisement for the parent, one hop further from its origin.
abbrev IsPassedUp : Node → Node → Dao → Type 0
IsPassedUp t t' d =
    (i : ℕ) × ((slot t i).valid ≡ false)
    × Carries (slot t' i) (stamped t (dao_frame t d.origin d.origin (u8 (d.hops + 1)) t.seq))

-- What has been done about the advertisement in `f` when `t` has become `t'`.
pub data Advertised (t : Node) (f : Frame) (now : ℕ) (t' : Node) : Type 0 where
  leaf : is_leaf t.role ≡ true → t' ≡ t → Advertised t f now t'
  own :
      (d : Dao)
      → dao_decode f.payload f.payload_len ≡ some d
      → d.origin ≡ t.addr
      → t' ≡ t
      → Advertised t f now t'
  learnt :
      (d : Dao)
      → dao_decode f.payload f.payload_len ≡ some d
      → d.hops ≤ max_hops
      → IsRouted t t' d f now
      → (is_master t.role ≡ true) ⊎ (f.prev ≡ t.parent) ⊎ IsPassedUp t t' d
      → Advertised t f now t'

routes-tx_submit :
    (t : Node) (f : Frame) (reliable : Bool) (next_hop delay_ms : ℕ)
    → (tx_submit t f reliable next_hop delay_ms).0.routes ≡ t.routes
unfolding tx_submit call_rnd
routes-tx_submit t f reliable next_hop delay_ms = ground arith

module _ (t : Node) (f : Frame) (now : ℕ) (v : IsIntact t) (h : Heard t f)
    (early : now < u32_mod) where
  -- If the result is true, the advertisement has been dealt with.
  abbrev Deals : Node × Bool → Type 0
  Deals p = p.1 ≡ true → Advertised t f now p.0

  Deals-test :
      (b : Bool) (x y : Node × Bool)
      → (b ≡ true → Deals x)
      → (b ≡ false → Deals y)
      → Deals (if b then x else y)
  Deals-test true x y hx hy = hx refl
  Deals-test false x y hx hy = hy refl

  Deals-option :
      (o : Option Dao) (x : Node × Bool) (g : Dao → Node × Bool)
      → Deals x
      → ((d : Dao) → o ≡ some d → Deals (g d))
      → Deals (elim o as (λ _. Node × Bool) [ none ↦ x | some d ↦ g d ])
  Deals-option none x g hx hg = hx
  Deals-option (some d) x g hx hg = hg d refl

  IsRouted-install :
      (t' : Node) (d : Dao) → t'.routes ≡ (install_route t d f now).routes → IsRouted t t' d f now
  IsRouted-install t' d e k timeout_ms lt = rw e (
      lookup-add t.routes d.origin f.prev (link_cost_to t f.prev) (u8 (d.hops + 1)) now k timeout_ms
        (IsValid-routes t v) early lt)

  Deals-dao_install :
      (d : Dao)
      → dao_decode f.payload f.payload_len ≡ some d
      → bad_dao d f ≡ false
      → Deals (dao_install t d f now)
  unfolding dao_install next_seq put_u32 dao_encode
  Deals-dao_install d e good =
      let t1 = install_route t d f now in
      let frame = dao_frame t d.origin d.origin (u8 (d.hops + 1)) t.seq in
      let n = names t v in
      let t2 = (next_seq t1).0 in
      let v2 = IsIntact-next_seq t1 (
        IsIntact-routes t t1.routes v (
          add-IsValid t.routes d.origin f.prev (link_cost_to t f.prev) (u8 (d.hops + 1)) now
            (IsValid-routes t v))) in
      let made_frame = λ (placed : t.parent == addr_invalid ≡ false).
        (made t frame n refl (omega arith, omega arith, omega arith, omega arith)
          (
            Long-origin f.payload f.payload_len d h.content e,
            ground (arith, good),
            ground (arith, good),
          )
          (n.parent, ground (arith, placed)) n.seq refl refl).frame in
      let few : d.hops ≤ max_hops = ground (arith, good) in
      let routed = IsRouted-install t1 d refl in
      Deals-test (is_master t1.role) _ _ (λ top _. learnt d e few routed (inl top))
        (λ _.
          Deals-test (t1.parent == addr_invalid) _ _ (λ _ no. absurd (ground (arith, no)))
            (λ placed.
              Deals-test (f.prev == t1.parent) _ _
                (λ back _. learnt d e few routed (inr (inl (ground (arith, back)))))
                (λ _ ok.
                  let (i, fills) =
                    queued-Fills t2 frame true t.parent 0 v2 (made_frame placed) ok in
                  let t3 = (tx_submit t2 frame true t.parent 0).0 in
                  learnt d e few (IsRouted-install t3 d (routes-tx_submit t2 frame true t.parent 0))
                    (inr (inr (i, fills.free, fills.carries))))))

  Deals-dao_handle : Deals (dao_handle t f now)
  unfolding dao_handle
  Deals-dao_handle =
      Deals-test (is_leaf t.role) _ _ (λ end _. leaf end refl)
        (λ _.
          Deals-option (dao_decode f.payload f.payload_len) _ _ (λ no. absurd (ground (arith, no)))
            (λ d e.
              Deals-test (bad_dao d f) _ _ (λ _ no. absurd (ground (arith, no)))
                (λ good.
                  Deals-test (d.origin == t.addr) _ _
                    (λ mine _. own d e (ground (arith, mine)) refl)
                    (λ _. Deals-dao_install d e good))))

-- An advertisement that is well formed and of the network, and that tn_dao_handle reports as dealt with,
-- so that it is acknowledged, really is: the instance is a leaf, or the advertisement is its own, and
-- nothing changes; or a lookup of the origin gives the previous hop of the advertisement for as long as a
-- route lives, and the instance is the master, or the advertisement comes from its parent, or a slot that
-- was free holds the advertisement for the parent with one hop more. The tables of the instance are
-- intact, and the time is one of the clock.
pub dao_handle-Advertised :
    (t : Node) (f : Frame) (now : ℕ)
    → IsIntact t
    → Heard t f
    → now < u32_mod
    → (dao_handle t f now).1 ≡ true
    → Advertised t f now (dao_handle t f now).0
dao_handle-Advertised t f now v h early = Deals-dao_handle t f now v h early
