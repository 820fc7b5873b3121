-- ===== src/AccRamp/Classes.antt =====
-- The ramp as a list: the classes that it holds back, lowest first. Barring fills the list, and a
-- round of the loop of `do_acc_ramping_step` takes its head.
use openbsc.Base.{
  ap₂, ◌≢◌, ◌^◌, ℕ, zero, suc, ◌+◌, ◌≤◌, ◌<◌, ◌≡◌, refl, sym, ap, ◌∙◌, Bool, true, false, not, ◌&&◌,
  Option, none, some, List, [], ◌∷◌, ◌++◌, ltb, ◌==◌, if◌then◌else◌, arith, Bool-cases, inl, inr,
  length,
}
use mathlib.Core.List.{append-nil}
use openbsc.Base.Bits.{test_bit, test_bit_ext, test_bit_high, test_bit-zero}
use native.Mathlib.Nat.{one-le-pow}
use openbsc.AccRamp.{
  Bts, AccRamp, acc_is_permanently_barred, allow_one_acc, acc_ramp_get_barred_t2,
  acc_ramp_get_barred_t3, ffs_from, ffs, allow_next_acc,
}
use openbsc.AccRamp.Bars.{
  barred, barred-allow_one_acc, test_bit-get_barred_t3, test_bit-get_barred_t2, get_barred_t3-lt,
  get_barred_t2-lt,
}

-- The numbers from k on, `left` of them, that pass the test.
unfoldable pub select : (ℕ → Bool) → ℕ → ℕ → List ℕ
select p zero k = []
select p (suc left) k = if p k then k ∷ select p left (k + 1) else select p left (k + 1)

pub select_ext :
    (p q : ℕ → Bool) (left k : ℕ)
    → ((j : ℕ) → k ≤ j → j < k + left → p j ≡ q j)
    → select p left k ≡ select q left k
unfolding select
select_ext p q zero k h = refl
select_ext p q (suc left) k h =
    ground (arith, h k, select_ext p q left (k + 1) (λ j a b. h j (omega arith) (omega arith)))

select-append : (p : ℕ → Bool) (m n k : ℕ) → select p (m + n) k ≡ select p m k ++ select p n (k + m)
unfolding select
select-append p zero n k = ground arith
select-append p (suc m) n k =
    let e : suc m + n ≡ suc (m + n) = omega arith in
    let f : k + suc m ≡ k + 1 + m = omega arith in
    rw (e, f) (ground (arith, select-append p m n (k + 1)))

pub select_none :
    (p : ℕ → Bool) (left k : ℕ) → ((j : ℕ) → k ≤ j → p j ≡ false) → select p left k ≡ []
unfolding select
select_none p zero k h = refl
select_none p (suc left) k h =
    ground (arith, h k, select_none p left (k + 1) (λ j a. h j (omega arith)))

-- `ffs` finds the first number of the selection.
abbrev ffs_of : List ℕ → ℕ
ffs_of [] = 0
ffs_of (j ∷ js) = j + 1

ffs_from-select : (left k x : ℕ) → ffs_from left k x ≡ ffs_of (select (test_bit x) left k)
unfolding ffs_from select
ffs_from-select zero k x = refl
ffs_from-select (suc left) k x = ground (arith, ffs_from-select left (k + 1) x)

-- The classes held back by the ramp, and those that a ramp holds back at its start.
abbrev pub classes : AccRamp → List ℕ
classes r = select (barred r) 10 0

abbrev pub open_classes : Bts → List ℕ
open_classes b = select (λ k. not (acc_is_permanently_barred b k)) 10 0

ffs-get_barred_t3 : (r : AccRamp) → ffs (acc_ramp_get_barred_t3 r) ≡ ffs_of (select (barred r) 8 0)
unfolding ffs
ffs-get_barred_t3 r =
    ffs_from-select 32 0 _
    ∙ ap ffs_of (
        select_ext _ (λ k. barred r k && ltb k 8) 32 0 (λ j a b. test_bit-get_barred_t3 r j)
        ∙ select-append _ 8 24 0
        ∙ ap₂ ◌++◌ (select_ext _ (barred r) 8 0 (λ j a b. ground arith))
            (select_none _ 24 8 (λ j a. ground arith))
        ∙ append-nil _)

ffs-get_barred_t2 :
    (r : AccRamp)
    → ffs (acc_ramp_get_barred_t2 r) ≡ (if barred r 8 then 1 else if barred r 9 then 2 else 0)
unfolding ffs
ffs-get_barred_t2 r =
    ffs_from-select 32 0 _
    ∙ ap ffs_of (
        select_ext _ (λ k. barred r (k + 8) && ltb k 2) 32 0 (λ j a b. test_bit-get_barred_t2 r j)
        ∙ select-append _ 2 30 0
        ∙ ap (λ l. select (λ k. barred r (k + 8) && ltb k 2) 2 0 ++ l)
            (select_none _ 30 2 (λ j a. ground arith)))
    ∙ unfold select in ground arith

-- The class that the next round of the loop looks at, and what it does with it.
abbrev pub next_round : Bts → AccRamp → List ℕ → Option AccRamp
next_round b r [] = none
next_round b r (k ∷ ks) = some (if acc_is_permanently_barred b k then r else allow_one_acc r k)

pub allow_next_acc-next_round :
    (b : Bts) (r : AccRamp) → allow_next_acc b r ≡ next_round b r (classes r)
allow_next_acc-next_round b r =
    rw (select-append (barred r) 8 2 0) (go (select (barred r) 8 0) (ffs-get_barred_t3 r))
  where
    go :
        (l : List ℕ)
        → ffs (acc_ramp_get_barred_t3 r) ≡ ffs_of l
        → allow_next_acc b r ≡ next_round b r (l ++ select (barred r) 2 8)
    go [] e = unfold allow_next_acc select in ground (arith, ffs-get_barred_t2 r)
    go (j ∷ js) e = unfold allow_next_acc in ground arith

-- The ramp holds back no class that the operator bars.
abbrev pub Disjoint : Bts → AccRamp → Type 0
Disjoint b r = (k : ℕ) → k < 10 → barred r k ≡ true → acc_is_permanently_barred b k ≡ false

select_nil :
    (p : ℕ → Bool) (left k j : ℕ) → select p left k ≡ [] → k ≤ j → j < k + left → p j ≡ false
unfolding select
select_nil p zero k j e a b = absurd (omega arith)
select_nil p (suc left) k j e a b = ground (arith, select_nil p left (k + 1) j)

pub length-select : (p : ℕ → Bool) (left k : ℕ) → length (select p left k) ≤ left
unfolding select
length-select p zero k = omega arith
length-select p (suc left) k = ground (arith, length-select p left (k + 1))

-- A word with no bit is zero.
word_zero : (w x : ℕ) → x < 2 ^ w → select (test_bit x) w 0 ≡ [] → x ≡ 0
word_zero w x h e = test_bit_ext w x 0 h (omega (arith, one-le-pow w 2)) λ k.
    elim (Bool-cases (ltb k w)) [
      | inl t ↦ select_nil _ w 0 k e (omega arith) (ground arith) ∙ sym (test_bit-zero k)
      | inr f ↦ test_bit_high w k x h (ground arith) ∙ sym (test_bit-zero k)
    ]

abbrev pub is_nil {ℓ} : {A : Type ℓ} → List A → Bool
is_nil [] = true
is_nil (x ∷ xs) = false

ffs_zero : ffs 0 ≡ 0
unfolding ffs ffs_from test_bit
ffs_zero = refl

get_barred_t3_zero :
    (r : AccRamp) → (acc_ramp_get_barred_t3 r == 0) ≡ is_nil (select (barred r) 8 0)
get_barred_t3_zero r = go (select (barred r) 8 0) refl
  where
    bits : select (test_bit (acc_ramp_get_barred_t3 r)) 8 0 ≡ select (barred r) 8 0
    bits = select_ext _ _ 8 0 (λ j a b. test_bit-get_barred_t3 r j ∙ ground arith)

    go : (l : List ℕ) → select (barred r) 8 0 ≡ l → (acc_ramp_get_barred_t3 r == 0) ≡ is_nil l
    go [] e = ground (arith, word_zero 8 _ (get_barred_t3-lt r) (bits ∙ e))
    go (j ∷ js) e = ground (arith, nonzero)
      where
        nonzero : acc_ramp_get_barred_t3 r ≢ 0
        nonzero z =
            let f : ffs (acc_ramp_get_barred_t3 r) ≡ 0 = ap ffs z ∙ ffs_zero in
            let g : ffs_of (select (barred r) 8 0) ≡ j + 1 = ap ffs_of e in
            omega (arith, ffs-get_barred_t3 r)

get_barred_t2_zero :
    (r : AccRamp) → (acc_ramp_get_barred_t2 r == 0) ≡ (not (barred r 8) && not (barred r 9))
get_barred_t2_zero r = ground (arith, clear, set_bits)
  where
    clear : barred r 8 ≡ false → barred r 9 ≡ false → acc_ramp_get_barred_t2 r ≡ 0
    clear p q = word_zero 2 _ (get_barred_t2-lt r) (
        select_ext _ (λ k. barred r (k + 8) && ltb k 2) 2 0 (λ j a b. test_bit-get_barred_t2 r j)
        ∙ unfold select in ground arith)

    set_bits : acc_ramp_get_barred_t2 r ≡ 0 → (barred r 8 ≡ false) × (barred r 9 ≡ false)
    set_bits e =
        let f : ffs (acc_ramp_get_barred_t2 r) ≡ 0 = ap ffs e ∙ ffs_zero in
        ground (arith, ffs-get_barred_t2 r)

-- The test on the two octets says whether the ramp holds back any class.
pub get_barred-is_nil :
    (r : AccRamp)
    → (acc_ramp_get_barred_t2 r == 0 && acc_ramp_get_barred_t3 r == 0) ≡ is_nil (classes r)
get_barred-is_nil r =
    rw (get_barred_t2_zero r, get_barred_t3_zero r, select-append (barred r) 8 2 0)
      (go (select (barred r) 8 0))
  where
    go :
        (l : List ℕ)
        → (not (barred r 8) && not (barred r 9) && is_nil l) ≡ is_nil (l ++ select (barred r) 2 8)
    go [] = unfold select in ground arith
    go (j ∷ js) = ground arith

-- Allowing a class takes it out of the list.
select-allow_one_acc_before :
    (r : AccRamp) (acc left k : ℕ)
    → acc < k
    → k + left ≤ 10
    → select (barred (allow_one_acc r acc)) left k ≡ select (barred r) left k
select-allow_one_acc_before r acc left k h l =
    select_ext _ _ left k
      λ j a b. barred-allow_one_acc r acc j (omega arith) (omega arith) ∙ ground arith

pub select-allow_one_acc :
    (r : AccRamp) (left k j : ℕ) (js : List ℕ)
    → k + left ≤ 10
    → select (barred r) left k ≡ j ∷ js
    → (select (barred (allow_one_acc r j)) left k ≡ js)
      × (k ≤ j)
      × (j < k + left)
      × (barred r j ≡ true)
unfolding select
select-allow_one_acc r zero k j js l e = cc
select-allow_one_acc r (suc left) k j js l e = ground (
  arith,
  select-allow_one_acc r left (k + 1) j js,
  select-allow_one_acc_before r k left (k + 1),
  barred-allow_one_acc r j k,
)
