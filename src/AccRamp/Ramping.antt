-- ===== src/AccRamp/Ramping.antt =====
-- openbsc/src/libbsc/acc_ramp.c: the loops over the classes, on the list of those held back.
use openbsc.Base.{
  ℕ, zero, suc, ◌+◌, ◌<◌, ◌≡◌, refl, ◌∙◌, true, false, some, List, [], ◌∷◌, arith, Option-cases,
  inl, inr, drop,
}
use openbsc.AccRamp.{
  Bts, AccRamp, acc_is_permanently_barred, allow_one_acc, barr_all_accs, allow_all_accs,
  allow_next_acc, allow_next_accs, allow_accs, barr_accs, barr_one_acc,
}
use openbsc.AccRamp.Bars.{barred-allow_one_acc, barred-barr_all_accs, barred-allow_all_accs}
use openbsc.AccRamp.Classes.{
  select_ext, select_none, classes, open_classes, Disjoint, allow_next_acc-next_round,
  select-allow_one_acc,
}

allow_one_acc-Disjoint :
    (b : Bts) (r : AccRamp) (acc : ℕ) → acc < 10 → Disjoint b r → Disjoint b (allow_one_acc r acc)
allow_one_acc-Disjoint b r acc h d k l e =
    d k l (ground (arith, barred-allow_one_acc r acc k h (omega arith)))

-- The loop lets in the n lowest classes.
pub allow_next_accs-drop :
    (b : Bts) (n : ℕ) (r : AccRamp) (l : List ℕ)
    → Disjoint b r
    → classes r ≡ l
    → (classes (allow_next_accs b n r) ≡ drop n l) × Disjoint b (allow_next_accs b n r)
unfolding allow_next_accs
allow_next_accs-drop b zero r l d e = (e, d)
allow_next_accs-drop b (suc n) r [] d e =
    rw (allow_next_acc-next_round b r, e, allow_next_accs) (e, d)
allow_next_accs-drop b (suc n) r (j ∷ js) d e =
    let (rest, above, below, held) = select-allow_one_acc r 10 0 j js (omega arith) e in
    rw (allow_next_acc-next_round b r, e, d j below held, allow_next_accs)
      (allow_next_accs-drop b n (allow_one_acc r j) js (allow_one_acc-Disjoint b r j below d) rest)

-- While a class is both barred for good and held back by the ramp, no round gets past it.
pub allow_next_accs_stuck :
    (b : Bts) (n : ℕ) (r : AccRamp) (j : ℕ) (js : List ℕ)
    → classes r ≡ j ∷ js
    → acc_is_permanently_barred b j ≡ true
    → allow_next_accs b n r ≡ r
unfolding allow_next_accs
allow_next_accs_stuck b zero r j js e p = refl
allow_next_accs_stuck b (suc n) r j js e p =
    rw (allow_next_acc-next_round b r, e, p, allow_next_accs) (allow_next_accs_stuck b n r j js e p)

pub allow_all_accs-classes :
    (b : Bts) (r : AccRamp)
    → Disjoint b r
    → (classes (allow_all_accs b r) ≡ []) × Disjoint b (allow_all_accs b r)
allow_all_accs-classes b r d = (
  select_ext _ (λ _. false) 10 0
        (λ j _ h. ground (arith, barred-allow_all_accs b r j (omega arith), d j (omega arith)))
      ∙ select_none _ 10 0 (λ _ _. refl),
  λ k l e. ground (arith, barred-allow_all_accs b r k l, d k l),
)

pub barr_all_accs-classes :
    (b : Bts) (r : AccRamp)
    → Disjoint b r
    → (classes (barr_all_accs b r) ≡ open_classes b) × Disjoint b (barr_all_accs b r)
barr_all_accs-classes b r d = (
  select_ext _ _ 10 0
      (λ j _ h. ground (arith, barred-barr_all_accs b r j (omega arith), d j (omega arith))),
  λ k l e. ground (arith, barred-barr_all_accs b r k l, d k l),
)

-- The loops write nothing but the mask.
abbrev pub SameSettings : AccRamp → AccRamp → Type 0
SameSettings r s = s ≡ record r { barred_accs = s.barred_accs }

allow_accs-SameSettings :
    (b : Bts) (left acc : ℕ) (r : AccRamp) → SameSettings r (allow_accs b left acc r)
unfolding allow_accs allow_one_acc
allow_accs-SameSettings b zero acc r = refl
allow_accs-SameSettings b (suc left) acc r = ground (
  arith,
  allow_accs-SameSettings b left (acc + 1) r,
  allow_accs-SameSettings b left (acc + 1) (allow_one_acc r acc),
)

pub allow_all_accs-SameSettings : (b : Bts) (r : AccRamp) → SameSettings r (allow_all_accs b r)
unfolding allow_all_accs
allow_all_accs-SameSettings b r = allow_accs-SameSettings b 10 0 r

barr_accs-SameSettings :
    (b : Bts) (left acc : ℕ) (r : AccRamp) → SameSettings r (barr_accs b left acc r)
unfolding barr_accs barr_one_acc
barr_accs-SameSettings b zero acc r = refl
barr_accs-SameSettings b (suc left) acc r = ground (
  arith,
  barr_accs-SameSettings b left (acc + 1) r,
  barr_accs-SameSettings b left (acc + 1) (barr_one_acc r acc),
)

pub barr_all_accs-SameSettings : (b : Bts) (r : AccRamp) → SameSettings r (barr_all_accs b r)
unfolding barr_all_accs
barr_all_accs-SameSettings b r = barr_accs-SameSettings b 10 0 r

allow_next_acc-SameSettings :
    (b : Bts) (r s : AccRamp) → allow_next_acc b r ≡ some s → SameSettings r s
unfolding allow_next_acc allow_one_acc
allow_next_acc-SameSettings b r s e = ground arith

pub allow_next_accs-SameSettings :
    (b : Bts) (n : ℕ) (r : AccRamp) → SameSettings r (allow_next_accs b n r)
unfolding allow_next_accs
allow_next_accs-SameSettings b zero r = refl
allow_next_accs-SameSettings b (suc n) r = elim (Option-cases (allow_next_acc b r)) [
  | inl e ↦ rw (e, allow_next_accs) refl
  | inr (s, e) ↦
      rw (e, allow_next_accs)
        (ground (arith, allow_next_acc-SameSettings b r s e, allow_next_accs-SameSettings b n s))
]
