-- ===== src/Base/Bits.antt =====
-- Bits of the native numbers: `&`, `|`, `~` and shifts of unsigned C words, read bit by bit.
mod Digits
use openbsc.Base.Tests.{ltb, leb, ◌==◌, Bool-cases}
use Digits.{bit_and_halves, bit_or_halves}
use Prim.Native.Nat.{
  ℕ, zero, suc, ◌+◌, ◌-◌, ◌*◌, ◌/◌, ◌%◌, ◌^◌, ◌≤◌, ◌<◌, min, max, bit_and, bit_or, bit_and-bitwise,
}
use mathlib.Core.Path.{◌≡◌, refl, sym, ap, ◌∙◌}
use mathlib.Core.Bool.{Bool, true, false, not, ◌&&◌, ◌||◌}
use native.Mathlib.Nat.{
  pow-suc, pow-le-pow_right, one-le-pow, div-div-eq-div-mul, mul-add-mod_self_left, mod-eq_of_lt,
  mod-lt, div-add-mod,
}
use native.Mathlib.Omega.{arith}

infixl 75 ◌<<<◌ ◌>>>◌
abbrev pub ◌<<<◌ : ℕ → ℕ → ℕ
x <<< k = x * 2 ^ k

abbrev pub ◌>>>◌ : ℕ → ℕ → ℕ
x >>> k = x / 2 ^ k

-- Bit k of x, by halving.
unfoldable pub test_bit : ℕ → ℕ → Bool
test_bit x zero = x % 2 == 1
test_bit x (suc k) = test_bit (x / 2) k

-- `x & (1 << k)` as a C condition.
unfoldable pub has_bit : ℕ → ℕ → Bool
has_bit x k = ltb 0 (bit_and x (1 <<< k))

-- `~m` of a word of w bits.
unfoldable pub bit_not : ℕ → ℕ → ℕ
bit_not w m = 2 ^ w - 1 - m

pub test_bit-or : (a b k : ℕ) → test_bit (bit_or a b) k ≡ (test_bit a k || test_bit b k)
unfolding test_bit
test_bit-or a b zero = ground (arith, bit_or_halves a b)
test_bit-or a b (suc k) =
    ap (λ x. test_bit x k) (omega (arith, bit_or_halves a b)) ∙ test_bit-or (a / 2) (b / 2) k

pub test_bit-and : (a b k : ℕ) → test_bit (bit_and a b) k ≡ (test_bit a k && test_bit b k)
unfolding test_bit
test_bit-and a b zero = ground (arith, bit_and_halves a b)
test_bit-and a b (suc k) =
    ap (λ x. test_bit x k) (omega (arith, bit_and_halves a b)) ∙ test_bit-and (a / 2) (b / 2) k

pub test_bit-zero : (k : ℕ) → test_bit 0 k ≡ false
unfolding test_bit
test_bit-zero zero = refl
test_bit-zero (suc k) = test_bit-zero k

pub test_bit-shift : (j k : ℕ) → test_bit (1 <<< j) k ≡ (j == k)
unfolding test_bit
test_bit-shift zero zero = refl
test_bit-shift zero (suc k) = ground (arith, test_bit-zero k)
test_bit-shift (suc j) zero = ground (arith, pow-suc 2 j)
test_bit-shift (suc j) (suc k) =
    let e : (1 <<< suc j) / 2 ≡ 1 <<< j = omega (arith, pow-suc 2 j) in
    ap (λ x. test_bit x k) e ∙ test_bit-shift j k ∙ ground arith

-- A number below 2 ^ w has no bit at w or above.
pub test_bit_high : (w k x : ℕ) → x < 2 ^ w → w < k + 1 → test_bit x k ≡ false
unfolding test_bit
test_bit_high zero k x h l = ap (λ x. test_bit x k) (omega arith) ∙ test_bit-zero k
test_bit_high (suc w) zero x h l = absurd (omega arith)
test_bit_high (suc w) (suc k) x h l =
    test_bit_high w k (x / 2) (omega (arith, pow-suc 2 w)) (omega arith)

pub test_bit-not : (w k m : ℕ) → m < 2 ^ w → k < w → test_bit (bit_not w m) k ≡ not (test_bit m k)
unfolding test_bit bit_not
test_bit-not zero k m h l = absurd (omega arith)
test_bit-not (suc w) zero m h l = ground (arith, pow-suc 2 w)
test_bit-not (suc w) (suc k) m h l =
    ap (λ x. test_bit x k) (omega (arith, pow-suc 2 w, one-le-pow w 2))
    ∙ test_bit-not w k (m / 2) (omega (arith, pow-suc 2 w)) (omega arith)

bit_and_zero_count : (n x : ℕ) → x ≤ n → bit_and x 0 ≡ 0
bit_and_zero_count n zero h = refl
bit_and_zero_count zero (suc x) h = absurd (omega arith)
bit_and_zero_count (suc n) (suc x) h =
    omega (arith, bit_and_halves (suc x) 0, bit_and_zero_count n (suc x / 2) (omega arith))

pub bit_and-zero : (x : ℕ) → bit_and x 0 ≡ 0
bit_and-zero x = bit_and_zero_count x x (omega arith)

-- The C test reads the bit.
pub has_bit-test_bit : (x k : ℕ) → has_bit x k ≡ test_bit x k
unfolding has_bit test_bit
has_bit-test_bit x zero = ground (arith, bit_and_halves x 1, bit_and-zero (x / 2))
has_bit-test_bit x (suc k) =
    let e : bit_and x (1 <<< suc k) ≡ bit_and (x / 2) (1 <<< k) * 2 =
      bit_and_halves x (1 <<< suc k) ∙ half in
    ap (ltb 0) e ∙ ground arith ∙ has_bit-test_bit (x / 2) k
  where
    half :
        bit_and (x / 2) ((1 <<< suc k) / 2) * 2 + min (x % 2) ((1 <<< suc k) % 2)
        ≡ bit_and (x / 2) (1 <<< k) * 2
    half = ground (arith, pow-suc 2 k)

-- Words of w bits that agree at every bit are equal.
pub test_bit_ext :
    (w a b : ℕ) → a < 2 ^ w → b < 2 ^ w → ((k : ℕ) → test_bit a k ≡ test_bit b k) → a ≡ b
unfolding test_bit
test_bit_ext zero a b p q h = omega arith
test_bit_ext (suc w) a b p q h = ground (
  arith,
  h 0,
  pow-suc 2 w,
  test_bit_ext w (a / 2) (b / 2) (omega (arith, pow-suc 2 w)) (omega (arith, pow-suc 2 w))
      (λ k. h (suc k)),
)

pub test_bit-shr : (j k x : ℕ) → test_bit (x >>> j) k ≡ test_bit x (k + j)
unfolding test_bit
test_bit-shr zero k x = ground (arith)
test_bit-shr (suc j) k x =
    let e : x / 2 ^ suc j ≡ x / 2 / 2 ^ j =
      ap (λ (t : ℕ). x / t) (omega (arith, pow-suc 2 j)) ∙ sym (div-div-eq-div-mul x 2 (2 ^ j)) in
    let n : k + suc j ≡ suc (k + j) = omega arith in
    ap (λ y. test_bit y k) e ∙ test_bit-shr j k (x / 2) ∙ ap (test_bit x) (sym n)

pub bit_or-lt : (w a b : ℕ) → a < 2 ^ w → b < 2 ^ w → bit_or a b < 2 ^ w
bit_or-lt zero zero zero p q = omega arith
bit_or-lt zero zero (suc b) p q = absurd (omega arith)
bit_or-lt zero (suc a) b p q = absurd (omega arith)
bit_or-lt (suc w) a b p q =
    omega (arith, bit_or_halves a b, pow-suc 2 w, bit_or-lt w (a / 2) (b / 2))

pub bit_and-le_count : (n a b : ℕ) → a ≤ n → bit_and a b ≤ a
bit_and-le_count n zero b h = omega (arith, bit_and-bitwise 0 b)
bit_and-le_count zero (suc a) b h = absurd (omega arith)
bit_and-le_count (suc n) (suc a) b h =
    omega (arith, bit_and_halves (suc a) b, bit_and-le_count n (suc a / 2) (b / 2) (omega arith))

pub bit_and-le : (a b : ℕ) → bit_and a b ≤ a
bit_and-le a b = bit_and-le_count a a b (omega arith)

mod_double : (x p : ℕ) → 0 < p → x % (2 * p) ≡ x / 2 % p * 2 + x % 2
mod_double x p h =
    ap (λ (t : ℕ). t % (2 * p)) split
    ∙ mul-add-mod_self_left (2 * p) (x / 2 / p) rest
    ∙ mod-eq_of_lt (omega (arith, mod-lt (x / 2) h))
  where
    rest : ℕ
    rest = x / 2 % p * 2 + x % 2

    split : x ≡ 2 * p * (x / 2 / p) + rest
    split = omega (arith, div-add-mod (x / 2) p)

-- A mask of k low ones takes the remainder.
pub bit_and_low : (k x : ℕ) → bit_and x (2 ^ k - 1) ≡ x % 2 ^ k
bit_and_low zero x = omega (arith, bit_and-zero x)
bit_and_low (suc k) x =
    let m : (2 ^ suc k - 1) / 2 ≡ 2 ^ k - 1 = omega (arith, pow-suc 2 k, one-le-pow k 2) in
    let r : x % 2 ^ suc k ≡ x / 2 % 2 ^ k * 2 + x % 2 =
      ap (λ (t : ℕ). x % t) (omega (arith, pow-suc 2 k))
      ∙ mod_double x (2 ^ k) (omega (arith, one-le-pow k 2)) in
    let e : bit_and (x / 2) ((2 ^ suc k - 1) / 2) ≡ x / 2 % 2 ^ k =
      ap (bit_and (x / 2)) m ∙ bit_and_low k (x / 2) in
    omega (arith, bit_and_halves x (2 ^ suc k - 1), pow-suc 2 k, one-le-pow k 2)

pub test_bit-ones : (w k : ℕ) → test_bit (2 ^ w - 1) k ≡ ltb k w
unfolding test_bit
test_bit-ones zero k = test_bit-zero k ∙ ground arith
test_bit-ones (suc w) zero = ground (arith, pow-suc 2 w, one-le-pow w 2)
test_bit-ones (suc w) (suc k) =
    let m : (2 ^ suc w - 1) / 2 ≡ 2 ^ w - 1 = omega (arith, pow-suc 2 w, one-le-pow w 2) in
    ap (λ x. test_bit x k) m ∙ test_bit-ones w k ∙ ground arith

-- Truncation to w bits keeps the bits below w.
pub test_bit-mod : (w k x : ℕ) → test_bit (x % 2 ^ w) k ≡ (test_bit x k && ltb k w)
test_bit-mod w k x = rw (← bit_and_low w x, test_bit-and x (2 ^ w - 1) k, test_bit-ones w k) refl

pub shift-lt : (w j : ℕ) → j < w → 1 <<< j < 2 ^ w
shift-lt w j h =
    let m : 2 ^ suc j ≤ 2 ^ w = pow-le-pow_right (omega arith) h in
    omega (arith, pow-suc 2 j, one-le-pow j 2)

shl_suc : (j x : ℕ) → x <<< suc j ≡ 2 * (x <<< j)
shl_suc j x = ap (λ (t : ℕ). x * t) (pow-suc 2 j) ∙ grind arith

pub test_bit-shl : (j k x : ℕ) → test_bit (x <<< j) k ≡ (leb j k && test_bit x (k - j))
unfolding test_bit
test_bit-shl zero k x =
    let e : x <<< 0 ≡ x = omega arith in
    let f : k - 0 ≡ k = omega arith in ap (λ (t : ℕ). test_bit t k) e ∙ rw f (ground arith)
test_bit-shl (suc j) zero x = ground (arith, shl_suc j x)
test_bit-shl (suc j) (suc k) x =
    let e : (x <<< suc j) / 2 ≡ x <<< j = omega (arith, shl_suc j x) in
    ap (λ y. test_bit y k) e ∙ test_bit-shl j k x ∙ ground arith

pub shl-lt : (w j x : ℕ) → x < 2 ^ w → x <<< j < 2 ^ (j + w)
shl-lt w zero x h = let e : zero + w ≡ w = omega arith in rw e (omega arith)
shl-lt w (suc j) x h =
    let e : suc j + w ≡ suc (j + w) = omega arith in
    rw e (omega (arith, shl_suc j x, shl-lt w j x h, pow-suc 2 (j + w)))
