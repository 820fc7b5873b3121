-- ===== src/Measure/Ring.antt =====
-- The loops over a ring, openbsc/src/libbsc/meas_rep.c, against the values from the newest to the
-- oldest.
use openbsc.Base.{
  Bool-cases, leb→le, inl, inr, ℕ, zero, suc, ◌+◌, ◌-◌, ◌%◌, ◌≤◌, ◌<◌, ◌≡◌, refl, ap, ap₂, ◌∙◌,
  Bool, true, false, if◌then◌else◌, ltb, leb, arith,
}
use openbsc.Measure.{sum_ring, count_ring, calc_initial_idx}

-- The sum of the `n` newest values, and how many of them reach a bound.
unfoldable pub sum_latest : (ℕ → ℕ) → ℕ → ℕ
sum_latest h zero = 0
sum_latest h (suc n) = h n + sum_latest h n

unfoldable pub count_latest : (ℕ → ℕ) → ℕ → ℕ → ℕ
count_latest h be zero = 0
count_latest h be (suc n) = if leb be (h n) then count_latest h be n + 1 else count_latest h be n

-- The slots from an index on hold the `n` newest values, the oldest of them first.
abbrev pub Window : (ℕ → ℕ) → ℕ → ℕ → (ℕ → ℕ) → ℕ → Type 0
Window value size idx h n = (i : ℕ) → i < n → value ((idx + i) % size) ≡ h (n - 1 - i)

Window-next :
    (value : ℕ → ℕ) (size idx : ℕ) (h : ℕ → ℕ) (n : ℕ)
    → idx + suc n < 4294967296
    → Window value size idx h (suc n)
    → Window value size ((idx + 1) % 4294967296) h n
Window-next value size idx h n b w i l =
    ap (λ j. value (j % size)) (omega arith) ∙ w (suc i) (omega arith) ∙ ap h (omega arith)

Window-head :
    (value : ℕ → ℕ) (size idx : ℕ) (h : ℕ → ℕ) (n : ℕ)
    → Window value size idx h (suc n)
    → value (idx % size) ≡ h n
Window-head value size idx h n w =
    ap (λ j. value (j % size)) (omega arith) ∙ w 0 (omega arith) ∙ ap h (omega arith)

pub sum_ring_lem :
    (value : ℕ → ℕ) (size idx : ℕ) (h : ℕ → ℕ) (n : ℕ)
    → idx + n < 4294967296
    → Window value size idx h n
    → sum_ring value size idx n ≡ sum_latest h n
unfolding sum_ring sum_latest
sum_ring_lem value size idx h zero b w = refl
sum_ring_lem value size idx h (suc n) b w =
    ap₂ (λ x y. x + y) (Window-head value size idx h n w)
      (sum_ring_lem value size ((idx + 1) % 4294967296) h n (omega arith)
        (Window-next value size idx h n b w))

-- The count goes up to `x` more, and the loop ends once it reaches `k`.
count_step :
    (b : Bool) (k c x : ℕ) (rest : ℕ → Bool)
    → c < k
    → ((c' : ℕ) → c' < k → rest c' ≡ leb k (c' + x))
    → (if leb k (if b then c + 1 else c) then true else rest (if b then c + 1 else c))
      ≡ leb k (c + (if b then x + 1 else x))
count_step true k c x rest l h = elim (Bool-cases (leb k (c + 1))) [
  | inl e ↦ ground (arith, leb→le k (c + 1) e)
  | inr e ↦ let l' : c + 1 < k = ground arith in ground (arith, h (c + 1) l')
]
count_step false k c x rest l h = ground (arith, h c l)

pub count_ring_lem :
    (value : ℕ → ℕ) (size be k idx c : ℕ) (h : ℕ → ℕ) (n : ℕ)
    → idx + n < 4294967296
    → c < k
    → Window value size idx h n
    → count_ring value size be k idx c n ≡ leb k (c + count_latest h be n)
unfolding count_ring count_latest
count_ring_lem value size be k idx c h zero b l w = ground arith
count_ring_lem value size be k idx c h (suc n) b l w =
    let w' = Window-next value size idx h n b w in
    let next = (idx + 1) % 4294967296 in
    rw (Window-head value size idx h n w) (
      count_step (leb be (h n)) k c (count_latest h be n)
        (λ c'. count_ring value size be k next c' n) l
        (λ c' l'. count_ring_lem value size be k next c' h n (omega arith) l' w'))

-- The index to start from, for a window that fits into the ring.
pub calc_initial_idx_lem :
    (size idx num : ℕ)
    → idx < size
    → num ≤ size
    → size < 1000
    → calc_initial_idx size idx num ≡ (if ltb idx num then size + idx - num else idx - num)
unfolding calc_initial_idx
calc_initial_idx_lem size idx num l m s = ground arith
