-- ===== src/Node/Gather.antt =====
-- One fragment after another at tn_reasm_input of src/api/treenet.c: what the table holds of a
-- datagram in between, and what the last fragment does.
use treenity.Prelude.{
  ℕ, zero, suc, ◌/◌, ◌<◌, ◌≡◌, refl, sym, ap, ◌∙◌, subst, Bool, true, false, not, List, [], ◌∷◌,
  none, some, arith, length, get_or, set, find_index, length-set, length-replicate, get_or-set_self,
  find_index-lt, find_index-set, inl, inr, Bool-cases, Option-cases, passes_below, passes_below_lem,
}
use treenity.Config.{max_datagram, max_fragments}
use treenity.Frame.{FragHdr}
use treenity.Node.State.{Node, Reasm, zero_reasm}
use treenity.Node.Reasm.{
  frag_chunk, belongs, free_reasm, fresh_reasm, reasm_slot, disagrees, has_fragment,
}
use treenity.Node.Capacity.{frag_count}
use treenity.Node.Datagram.{Holds}

set-set {ℓ} : {A : Type ℓ} (xs : List A) (i : ℕ) (v w : A) → set (set xs i v) i w ≡ set xs i w
set-set [] i v w = refl
set-set (x ∷ xs) zero v w = refl
set-set (x ∷ xs) (suc i) v w = ap (◌∷◌ x) (set-set xs i v w)

find_index-set-none {ℓ} :
    {A : Type ℓ} (p : A → Bool) (xs : List A) (i : ℕ) (v : A)
    → find_index p xs ≡ none
    → p v ≡ false
    → find_index p (set xs i v) ≡ none
find_index-set-none p [] i v e h = refl
find_index-set-none p (x ∷ xs) zero v e h = elim (Option-cases (find_index p xs)) [
  | inl rest ↦ ground (arith, e, h, rest)
  | inr (j, rest) ↦ ground (arith, e, h, rest)
]
find_index-set-none p (x ∷ xs) (suc i) v e h = elim (Option-cases (find_index p xs)) [
  | inl rest ↦ ground (arith, e, rest, find_index-set-none p xs i v rest h)
  | inr (j, rest) ↦ ground (arith, e, rest)
]

-- The header of a fragment of the datagram.
abbrev pub hdr : List ℕ → (id i : ℕ) → FragHdr
hdr bytes id i = record { dgram_id = id; index = i; count = frag_count bytes }

-- The place of the datagram in a table.
pub record Slot (bytes : List ℕ) (src id : ℕ) (got : ℕ → Bool) (rs : List Reasm) (s : ℕ)
    : Type 0 where
  pub inside : s < length rs
  pub own : belongs src id (get_or rs s zero_reasm) ≡ true
  pub count : (get_or rs s zero_reasm).count ≡ frag_count bytes
  pub holds : Holds bytes got (get_or rs s zero_reasm)
  pub found :
      (v : Reasm) → belongs src id v ≡ true → find_index (belongs src id) (set rs s v) ≡ some s
  pub agree :
      (v : Reasm)
      → disagrees src (hdr bytes id 0) v ≡ false
      → find_index (disagrees src (hdr bytes id 0)) (set rs s v) ≡ none

-- The instance has the fragments that `got` marks, or room for the first one.
pub record Partial (bytes : List ℕ) (src id : ℕ) (got : ℕ → Bool) (t : Node) : Type 0 where
  pub agree : find_index (disagrees src (hdr bytes id 0)) t.reasm ≡ none
  pub slot :
      (now : ℕ)
      → Slot bytes src id got
          (reasm_slot t.reasm src id (frag_count bytes) now).0
          (reasm_slot t.reasm src id (frag_count bytes) now).1

agree-belongs :
    (src : ℕ) (fh : FragHdr) (rs : List Reasm)
    → find_index (belongs src fh.dgram_id) rs ≡ none
    → find_index (disagrees src fh) rs ≡ none
agree-belongs src fh [] e = refl
agree-belongs src fh (r ∷ rs) e = elim (Option-cases (find_index (belongs src fh.dgram_id) rs)) [
  | inl rest ↦ ground (arith, e, rest, agree-belongs src fh rs rest)
  | inr (j, rest) ↦ ground (arith, e, rest)
]

empty_mask : (i : ℕ) → i < 6 → has_fragment 0 i ≡ false
unfolding passes_below
empty_mask i lt =
    not_true (has_fragment 0 i) (passes_below_lem (λ j. not (has_fragment 0 j)) 6 i lt refl)
  where
    not_true : (b : Bool) → not b ≡ true → b ≡ false
    not_true true h = absurd (ground (arith, h))
    not_true false h = refl

fresh-Holds :
    (bytes : List ℕ) (src id now : ℕ)
    → Holds bytes (λ i. false) (fresh_reasm src id (frag_count bytes) now)
fresh-Holds bytes src id now = record {
  size = length-replicate {A = ℕ} max_datagram 0;
  lens = length-replicate {A = ℕ} max_fragments 0;
  mask = omega arith;
  bits = empty_mask;
  lengths = λ i lt e. absurd (ground (arith, e));
  content = λ k lt e. absurd (ground (arith, e));
}

reasm_slot-fresh :
    (rs : List Reasm) (src id count now s : ℕ)
    → find_index (belongs src id) rs ≡ none
    → find_index free_reasm rs ≡ some s
    → reasm_slot rs src id count now ≡ (set rs s (fresh_reasm src id count now), s)
unfolding reasm_slot
reasm_slot-fresh rs src id count now s unseen free = ground (arith, unseen, free)

reasm_slot-found :
    (rs : List Reasm) (src id count now s : ℕ)
    → find_index (belongs src id) rs ≡ some s
    → reasm_slot rs src id count now ≡ (rs, s)
unfolding reasm_slot
reasm_slot-found rs src id count now s found = ground (arith, found)

-- A slot that has been written with an entry of the datagram's.
written-Slot :
    (bytes : List ℕ) (src id : ℕ) (got : ℕ → Bool) (rs : List Reasm) (s : ℕ) (v : Reasm)
    → s < length rs
    → belongs src id v ≡ true
    → v.count ≡ frag_count bytes
    → Holds bytes got v
    → ((w : Reasm) → belongs src id w ≡ true → find_index (belongs src id) (set rs s w) ≡ some s)
    → ((w : Reasm)
        → disagrees src (hdr bytes id 0) w ≡ false
        → find_index (disagrees src (hdr bytes id 0)) (set rs s w) ≡ none)
    → Slot bytes src id got (set rs s v) s
written-Slot bytes src id got rs s v lt own count holds found agree =
    let same = get_or-set_self rs s v zero_reasm lt in
    record {
      inside = omega (arith, lt, length-set rs s v);
      own = ap (belongs src id) same ∙ own;
      count = ap (λ r. r.count) same ∙ count;
      holds = subst (Holds bytes got) (sym same) holds;
      found = λ w h. ap (find_index (belongs src id)) (set-set rs s v w) ∙ found w h;
      agree =
          λ w h. ap (find_index (disagrees src (hdr bytes id 0))) (set-set rs s v w) ∙ agree w h;
    }

-- An instance that has nothing of a datagram, and a free slot.
pub unseen-Partial :
    (bytes : List ℕ) (src id s : ℕ) (t : Node)
    → find_index (belongs src id) t.reasm ≡ none
    → find_index free_reasm t.reasm ≡ some s
    → Partial bytes src id (λ i. false) t
unseen-Partial bytes src id s t unseen free = record {
  agree = agree-belongs src (hdr bytes id 0) t.reasm unseen;
  slot = λ now.
      subst (λ p. Slot bytes src id (λ i. false) p.0 p.1)
        (sym (reasm_slot-fresh t.reasm src id (frag_count bytes) now s unseen free))
        (written-Slot bytes src id (λ i. false) t.reasm s
          (fresh_reasm src id (frag_count bytes) now) (find_index-lt free_reasm t.reasm s free)
          (ground arith) refl (fresh-Holds bytes src id now)
          (λ w h.
            find_index-set (belongs src id) t.reasm s w (inl unseen)
              (find_index-lt free_reasm t.reasm s free) h)
          (λ w h.
            find_index-set-none (disagrees src (hdr bytes id 0)) t.reasm s w
              (agree-belongs src (hdr bytes id 0) t.reasm unseen) h));
}

agrees :
    (bytes : List ℕ) (src id : ℕ) (v : Reasm)
    → v.count ≡ frag_count bytes
    → disagrees src (hdr bytes id 0) v ≡ false
agrees bytes src id v e = elim (Bool-cases (belongs src id v)) [
  | inl own ↦ ground (arith, own, e)
  | inr other ↦ ground (arith, other)
]

-- A table with the datagram's slot in it.
pub kept-Partial :
    (bytes : List ℕ) (src id : ℕ) (got got' : ℕ → Bool) (rs : List Reasm) (s : ℕ) (v : Reasm)
    (t : Node)
    → Slot bytes src id got rs s
    → belongs src id v ≡ true
    → v.count ≡ frag_count bytes
    → Holds bytes got' v
    → t.reasm ≡ set rs s v
    → Partial bytes src id got' t
kept-Partial bytes src id got got' rs s v t h own count holds e = record {
  agree =
      ap (find_index (disagrees src (hdr bytes id 0))) e ∙ h.agree v (agrees bytes src id v count);
  slot = λ now.
      subst (λ p. Slot bytes src id got' p.0 p.1)
        (sym (
          ap (λ xs. reasm_slot xs src id (frag_count bytes) now) e
          ∙ reasm_slot-found (set rs s v) src id (frag_count bytes) now s (h.found v own)))
        (written-Slot bytes src id got' rs s v h.inside own count holds h.found h.agree);
}

-- The same fragments, marked otherwise.
pub Holds-same :
    (bytes : List ℕ) (got got' : ℕ → Bool) (r : Reasm) (now : ℕ)
    → ((i : ℕ) → got' i ≡ got i)
    → Holds bytes got r
    → Holds bytes got' (record r { last_ms = now })
Holds-same bytes got got' r now e h = record {
  size = h.size;
  lens = h.lens;
  mask = h.mask;
  bits = λ i lt. h.bits i lt ∙ sym (e i);
  lengths = λ i lt g. h.lengths i lt (sym (e i) ∙ g);
  content = λ k lt g. h.content k lt (sym (e (k / frag_chunk)) ∙ g);
}
