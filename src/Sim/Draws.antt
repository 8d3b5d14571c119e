-- ===== src/Sim/Draws.antt =====
-- Hearing and receiving in src/sim/sim.c change nothing of the simulator but the generator's state,
-- which they advance.
use treenity.Prelude.{
  ℕ, zero, suc, ◌+◌, ◌≡◌, refl, ap, ◌∙◌, Bool, true, false, if◌then◌else◌, List, Option, [], ◌∷◌,
  none, some, arith,
}
use treenity.Sim.Double.{Double}
use treenity.Sim.State.{Sim, SimNode, TxRec, at}
use treenity.Sim.Prng.{rnd_raw, rnd_after, sim_rnd_unit}
use treenity.Sim.Link.{sim_link}
use treenity.Sim.Deliver.{
  Pending, find_node, hears, hear_nodes, hear_all, flip_bits, corrupt, on_air, receive, receive_all,
}

rnd_after-rnd_after : (r a b : ℕ) → rnd_after (rnd_after r a) b ≡ rnd_after r (b + a)
rnd_after-rnd_after r a zero = ap (rnd_after r) (omega arith)
rnd_after-rnd_after r a (suc b) =
    ap rnd_raw (rnd_after-rnd_after r a b) ∙ ap (rnd_after r) {x = suc (b + a)} (omega arith)

-- Some numbers have been drawn, and nothing else has happened to the simulator.
pub record Draws {ℓ m} {W : Type ℓ} {A : Type m} (s : Sim W) (p : Sim W × A) : Type (ℓ ⊔ m) where
  pub count : ℕ
  pub same : p.0 ≡ record s { rnd = rnd_after s.rnd count }

module _ {ℓ} {W : Type ℓ} where
  Draws-none {m} : {A : Type m} (s : Sim W) (a : A) → Draws s (s, a)
  Draws-none s a = record { count = 0; same = refl }

  Draws-trans {m n k} :
      {A : Type m} {B : Type n} {C : Type k} (s : Sim W) (p : Sim W × A) (q : Sim W × B) (c : C)
      → Draws s p
      → Draws p.0 q
      → Draws s (q.0, c)
  Draws-trans s p q c f g =
      let step : record p.0 { rnd = rnd_after p.0.rnd g.count }
          ≡ record s { rnd = rnd_after (rnd_after s.rnd f.count) g.count } =
        ap advance_by f.same in
      record {
        count = g.count + f.count;
        same = g.same ∙ step ∙ ap (λ r. at_state r) (rnd_after-rnd_after s.rnd f.count g.count);
      }
    where
      advance_by : Sim W → Sim W
      advance_by z = record z { rnd = rnd_after z.rnd g.count }

      at_state : ℕ → Sim W
      at_state r = record s { rnd = r }

  Draws-if {m} :
      {A : Type m} (s : Sim W) (b : Bool) (x y : Sim W × A)
      → Draws s x
      → Draws s y
      → Draws s (if b then x else y)
  Draws-if s true x y f g = f
  Draws-if s false x y f g = g

  Draws-option {m n} :
      {A : Type m} {B : Type n} (s : Sim W) (o : Option A) (x : Sim W × B) (f : A → Sim W × B)
      → Draws s x
      → ((a : A) → Draws s (f a))
      → Draws s (elim o as (λ _. Sim W × B) [ none ↦ x | some a ↦ f a ])
  Draws-option s none x f h k = h
  Draws-option s (some a) x f h k = k a

module _ {ℓ} {W : Type ℓ} ⦃d : Double W⦄ where
  sim_rnd_unit-Draws : (s : Sim W) → Draws s (sim_rnd_unit s)
  unfolding sim_rnd_unit
  sim_rnd_unit-Draws s = record { count = 1; same = refl }

  Draws-once {m} : {A : Type m} (s : Sim W) (a : A) → Draws s ((sim_rnd_unit s).0, a)
  unfolding sim_rnd_unit
  Draws-once s a = record { count = 1; same = refl }

  sim_link-Draws : (s : Sim W) (a b : SimNode W) → Draws s (sim_link s a b)
  unfolding sim_link
  sim_link-Draws s a b =
      Draws-if s _ _ _ (Draws-none s _) (Draws-if s _ _ _ (Draws-once s _) (Draws-once s _))

  pub hears-Draws : (s : Sim W) (rec : TxRec) (n : SimNode W) → Draws s (hears s rec n)
  unfolding hears
  hears-Draws s rec n = Draws-if s _ _ _ (Draws-none s _) (
      Draws-option s (find_node s.nodes rec.sender) _ _ (Draws-none s _)
        (λ txn. Draws-if s _ _ _ (Draws-none s _) (sim_link-Draws s txn n)))

  pub hear_nodes-Draws :
      (r : ℕ) (rec : TxRec) (ns : List (SimNode W)) (ps : List Pending) (s : Sim W)
      → Draws s (hear_nodes r rec ns ps s)
  unfolding hear_nodes
  hear_nodes-Draws r rec [] ps s = Draws-none s _
  hear_nodes-Draws r rec (n ∷ ns) [] s = Draws-none s _
  hear_nodes-Draws r rec (n ∷ ns) (p ∷ ps) s =
      Draws-trans s _ _ _ (hears-Draws s rec n) (hear_nodes-Draws r rec ns ps (hears s rec n).0)

  pub hear_all-Draws :
      (r : ℕ) (recs : List TxRec) (ps : List Pending) (s : Sim W) → Draws s (hear_all r recs ps s)
  unfolding hear_all
  hear_all-Draws r [] ps s = Draws-none s _
  hear_all-Draws r (rec ∷ recs) ps s =
      let heard = hear_nodes r rec s.nodes ps s in
      Draws-trans s _ _ _ (hear_nodes-Draws r rec s.nodes ps s)
        (hear_all-Draws (r + 1) recs heard.1 heard.0)

  flip_bits-Draws : (left mask : ℕ) (s : Sim W) (b : ℕ) → Draws s (flip_bits left mask s b)
  unfolding flip_bits
  flip_bits-Draws zero mask s b = Draws-none s _
  flip_bits-Draws (suc left) mask s b =
      Draws-trans s _ _ _ (sim_rnd_unit-Draws s) (flip_bits-Draws left _ (sim_rnd_unit s).0 _)

  corrupt-Draws : (bs : List ℕ) (s : Sim W) → Draws s (corrupt bs s)
  unfolding corrupt
  corrupt-Draws [] s = Draws-none s _
  corrupt-Draws (b ∷ bs) s =
      Draws-trans s _ _ _ (flip_bits-Draws 8 1 s b) (corrupt-Draws bs (flip_bits 8 1 s b).0)

  on_air-Draws : (bs : List ℕ) (s : Sim W) → Draws s (on_air bs s)
  unfolding on_air
  on_air-Draws bs s = Draws-if s _ _ _ (corrupt-Draws bs s) (Draws-none s _)

  on_air-Draws_at {m} :
      {A : Type m} (bs : List ℕ) (s : Sim W) (a : A) → Draws s ((on_air bs s).0, a)
  on_air-Draws_at bs s a = record {
    count = (on_air-Draws bs s).count;
    same = (on_air-Draws bs s).same;
  }

  receive-Draws :
      (channel : List TxRec) (p : Pending) (n : SimNode W) (s : Sim W)
      → Draws s (receive channel p n s)
  unfolding receive
  receive-Draws channel p n s = Draws-if s _ _ _ (Draws-none s _) (
      Draws-option s p.first_rec _ _ (Draws-none s _) (λ r.
        Draws-option s (at channel r) _ _ (Draws-none s _) (λ rec. on_air-Draws_at rec.buf s _)))

  pub receive_all-Draws :
      (channel : List TxRec) (ps : List Pending) (ns : List (SimNode W)) (s : Sim W)
      → Draws s (receive_all channel ps ns s)
  unfolding receive_all
  receive_all-Draws channel [] ns s = Draws-none s _
  receive_all-Draws channel (p ∷ ps) [] s = Draws-none s _
  receive_all-Draws channel (p ∷ ps) (n ∷ ns) s =
      Draws-trans s _ _ _ (receive-Draws channel p n s)
        (receive_all-Draws channel ps ns (receive channel p n s).0)
