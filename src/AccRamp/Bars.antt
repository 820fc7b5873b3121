-- ===== src/AccRamp/Bars.antt =====
-- Which access control classes the ramp bars, and which ones the cell announces as barred.
use openbsc.Base.{
  ℕ, zero, suc, ◌+◌, ◌-◌, ◌^◌, ◌≤◌, ◌<◌, ◌≡◌, refl, ◌∙◌, Bool, not, ◌&&◌, ◌||◌, ltb, leb, ◌==◌,
  if◌then◌else◌, arith,
}
use openbsc.Base.Bits.{
  ◌<<<◌, ◌>>>◌, test_bit, has_bit-test_bit, test_bit-or, test_bit-and, test_bit-mod, test_bit-shift,
  test_bit-not, test_bit-shr, bit_and_low, shift-lt,
}
use openbsc.AccRamp.{
  Bts, RachControl, AccRamp, acc_is_permanently_barred, allow_one_acc, barr_one_acc, barr_accs,
  allow_accs, barr_all_accs, allow_all_accs, acc_ramp_get_barred_t2, acc_ramp_get_barred_t3,
  acc_ramp_apply,
}

-- Class k is held back by the ramp.
abbrev pub barred : AccRamp → ℕ → Bool
barred r k = test_bit r.barred_accs k

pub barred-allow_one_acc :
    (r : AccRamp) (acc k : ℕ)
    → acc < 10
    → k < 16
    → barred (allow_one_acc r acc) k ≡ (barred r k && not (acc == k))
unfolding allow_one_acc
barred-allow_one_acc r acc k h l =
    rw
      (
        test_bit-mod,
        test_bit-and,
        test_bit-not 32 k (1 <<< acc) (shift-lt 32 acc (omega arith)) (omega arith),
        test_bit-shift,
      )
      (ground arith)

pub barred-barr_one_acc :
    (r : AccRamp) (acc k : ℕ) → k < 16 → barred (barr_one_acc r acc) k ≡ (barred r k || acc == k)
unfolding barr_one_acc
barred-barr_one_acc r acc k l = rw (test_bit-mod, test_bit-or, test_bit-shift) (ground arith)

-- The class lies in the rounds still to come: `left` of them, from class `acc` on.
abbrev in_rounds : ℕ → ℕ → ℕ → Bool
in_rounds left acc k = leb acc k && ltb k (acc + left)

barred-barr_accs :
    (b : Bts) (left acc k : ℕ) (r : AccRamp)
    → acc + left ≤ 10
    → k < 16
    → barred (barr_accs b left acc r) k
      ≡ (barred r k || (in_rounds left acc k && not (acc_is_permanently_barred b k)))
unfolding barr_accs
barred-barr_accs b zero acc k r h l = ground arith
barred-barr_accs b (suc left) acc k r h l = ground (
  arith,
  barred-barr_accs b left (acc + 1) k r (omega arith) l,
  barred-barr_accs b left (acc + 1) k (barr_one_acc r acc) (omega arith) l,
  barred-barr_one_acc r acc k l,
)

barred-allow_accs :
    (b : Bts) (left acc k : ℕ) (r : AccRamp)
    → acc + left ≤ 10
    → k < 16
    → barred (allow_accs b left acc r) k
      ≡ (barred r k && not (in_rounds left acc k && not (acc_is_permanently_barred b k)))
unfolding allow_accs
barred-allow_accs b zero acc k r h l = ground arith
barred-allow_accs b (suc left) acc k r h l = ground (
  arith,
  barred-allow_accs b left (acc + 1) k r (omega arith) l,
  barred-allow_accs b left (acc + 1) k (allow_one_acc r acc) (omega arith) l,
  barred-allow_one_acc r acc k (omega arith) l,
)

-- Barring all classes bars each class of the ramp that is not permanently barred, and no other.
pub barred-barr_all_accs :
    (b : Bts) (r : AccRamp) (k : ℕ)
    → k < 10
    → barred (barr_all_accs b r) k ≡ (barred r k || not (acc_is_permanently_barred b k))
unfolding barr_all_accs
barred-barr_all_accs b r k h =
    barred-barr_accs b 10 0 k r (omega arith) (omega arith) ∙ ground arith

-- Allowing all classes leaves barred only what the operator has barred for good.
pub barred-allow_all_accs :
    (b : Bts) (r : AccRamp) (k : ℕ)
    → k < 10
    → barred (allow_all_accs b r) k ≡ (barred r k && acc_is_permanently_barred b k)
unfolding allow_all_accs
barred-allow_all_accs b r k h =
    barred-allow_accs b 10 0 k r (omega arith) (omega arith) ∙ ground arith

-- What a phone reads of the octets: the bit of its class.
abbrev pub announces : RachControl → ℕ → Bool
announces c k = if ltb k 8 then test_bit c.t3 k else test_bit c.t2 (k - 8)

pub permanent_announces :
    (b : Bts) (k : ℕ) → k < 10 → acc_is_permanently_barred b k ≡ announces b.rach_control k
unfolding acc_is_permanently_barred
permanent_announces b k h =
    ground (arith, has_bit-test_bit b.rach_control.t2 (k - 8), has_bit-test_bit b.rach_control.t3 k)

pub test_bit-get_barred_t3 :
    (r : AccRamp) (k : ℕ) → test_bit (acc_ramp_get_barred_t3 r) k ≡ (barred r k && ltb k 8)
unfolding acc_ramp_get_barred_t3
test_bit-get_barred_t3 r k = rw (bit_and_low 8 r.barred_accs) (test_bit-mod 8 k r.barred_accs)

pub test_bit-get_barred_t2 :
    (r : AccRamp) (k : ℕ) → test_bit (acc_ramp_get_barred_t2 r) k ≡ (barred r (k + 8) && ltb k 2)
unfolding acc_ramp_get_barred_t2
test_bit-get_barred_t2 r k =
    rw (bit_and_low 2 (r.barred_accs >>> 8), test_bit-mod 2 k (r.barred_accs >>> 8), test_bit-shr)
      refl

-- The announced RACH control bars an access class below ten exactly when the operator or the ramp
-- bars it.
pub announces-acc_ramp_apply :
    (b : Bts) (r : AccRamp) (k : ℕ)
    → k < 10
    → announces (acc_ramp_apply b.rach_control r) k ≡ (acc_is_permanently_barred b k || barred r k)
unfolding acc_ramp_apply
announces-acc_ramp_apply b r k h = ground (
  arith,
  permanent_announces b k h,
  test_bit-or b.rach_control.t3 (acc_ramp_get_barred_t3 r) k,
  test_bit-or b.rach_control.t2 (acc_ramp_get_barred_t2 r) (k - 8),
  test_bit-get_barred_t3 r k,
  test_bit-get_barred_t2 r (k - 8),
)

pub get_barred_t3-lt : (r : AccRamp) → acc_ramp_get_barred_t3 r < 2 ^ 8
unfolding acc_ramp_get_barred_t3
get_barred_t3-lt r = rw (bit_and_low 8 r.barred_accs) (omega arith)

pub get_barred_t2-lt : (r : AccRamp) → acc_ramp_get_barred_t2 r < 2 ^ 2
unfolding acc_ramp_get_barred_t2
get_barred_t2-lt r = rw (bit_and_low 2 (r.barred_accs >>> 8)) (omega arith)
