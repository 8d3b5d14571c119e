-- ===== src/Ewma/Bounds.antt =====
-- The average stays within the range of its samples.
use treenity.Prelude.{◌≡◌, inl, inr, true, arith, Bool-cases}
use treenity.Prelude.Int.{ℤ, ◌≤ℤ◌, ◌+ℤ◌, ◌-ℤ◌, scale, div_trunc, div_floor}
use treenity.Config.{ewma_div}
use treenity.Ewma.{Ewma, reset, push, get}

-- An average over samples between `lo` and `hi`, if it has any.
pub record Within (lo hi : ℤ) (e : Ewma) : Type 0 where
  pub above : e.init ≡ true → scale ewma_div lo ≤ℤ e.value
  pub below : e.init ≡ true → e.value ≤ℤ scale ewma_div hi

abbrev moved : ℤ → ℤ → ℤ
moved v s = v +ℤ div_trunc (scale ewma_div s -ℤ v) ewma_div

moved_above : (lo v s : ℤ) → scale ewma_div lo ≤ℤ v → lo ≤ℤ s → scale ewma_div lo ≤ℤ moved v s
moved_above lo v s p q = ground arith

moved_below : (hi v s : ℤ) → v ≤ℤ scale ewma_div hi → s ≤ℤ hi → moved v s ≤ℤ scale ewma_div hi
moved_below hi v s p q = ground arith

floor_above : (lo v : ℤ) → scale ewma_div lo ≤ℤ v → lo ≤ℤ div_floor v ewma_div
floor_above lo v p = ground arith

floor_below : (hi v : ℤ) → v ≤ℤ scale ewma_div hi → div_floor v ewma_div ≤ℤ hi
floor_below hi v p = ground arith

scale_mono : (a b : ℤ) → a ≤ℤ b → scale ewma_div a ≤ℤ scale ewma_div b
scale_mono a b h = ground arith

pub reset-Within : (lo hi : ℤ) → Within lo hi reset
unfolding reset
reset-Within lo hi = record { above = λ e. cc; below = λ e. cc }

push_above :
    (lo : ℤ) (e : Ewma) (sample : ℤ)
    → (e.init ≡ true → scale ewma_div lo ≤ℤ e.value)
    → lo ≤ℤ sample
    → scale ewma_div lo ≤ℤ (push e sample).value
unfolding push
push_above lo e sample w p = elim (Bool-cases e.init) [
  | inl i ↦ rw (i, push) (moved_above lo e.value sample (w i) p)
  | inr i ↦ rw (i, push) (scale_mono lo sample p)
]

push_below :
    (hi : ℤ) (e : Ewma) (sample : ℤ)
    → (e.init ≡ true → e.value ≤ℤ scale ewma_div hi)
    → sample ≤ℤ hi
    → (push e sample).value ≤ℤ scale ewma_div hi
unfolding push
push_below hi e sample w p = elim (Bool-cases e.init) [
  | inl i ↦ rw (i, push) (moved_below hi e.value sample (w i) p)
  | inr i ↦ rw (i, push) (scale_mono sample hi p)
]

pub init-push : (e : Ewma) (sample : ℤ) → (push e sample).init ≡ true
unfolding push
init-push e sample = ground arith

get-push : (e : Ewma) (sample : ℤ) → get (push e sample) ≡ div_floor (push e sample).value ewma_div
unfolding get
get-push e sample = rw (init-push e sample)

-- Feeding a sample between `lo` and `hi` keeps the stored value between `8 lo` and `8 hi`, so with
-- 16-bit samples it never leaves `int32_t`, and the reading lies between `lo` and `hi`.
pub push-Within :
    (lo hi : ℤ) (e : Ewma) (sample : ℤ)
    → Within lo hi e
    → lo ≤ℤ sample
    → sample ≤ℤ hi
    → Within lo hi (push e sample) × (lo ≤ℤ get (push e sample)) × (get (push e sample) ≤ℤ hi)
push-Within lo hi e sample w p q =
    let a = push_above lo e sample w.above p in
    let b = push_below hi e sample w.below q in
    (
      record { above = λ i. a; below = λ i. b },
      rw (get-push e sample) (floor_above lo (push e sample).value a),
      rw (get-push e sample) (floor_below hi (push e sample).value b),
    )

-- The first sample is taken as it is, and repeating it leaves the average there.
pub push_constant : (sample : ℤ) → get (push (push reset sample) sample) ≡ sample
unfolding push get reset
push_constant sample = ground arith
