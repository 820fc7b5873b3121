-- ===== src/Base/Bits/Digits.antt =====
-- The native bit operations stand for a recursion on binary digits with a count of digits to go.
-- The count is dropped here: each operation is one step on the lowest digits and a call on the halves.
use Prim.Native.Nat.{
  ℕ, zero, suc, ◌+◌, ◌*◌, ◌/◌, ◌%◌, ◌≤◌, min, max, bit_and, bit_or, digits, bit_and-bitwise,
  bit_or-bitwise,
}
use mathlib.Core.Path.{◌≡◌, refl, ap}
use native.Mathlib.Omega.{arith}

-- `rest` is what is left once the first number has run out, `op` the operation on two digits.
module _ (rest : ℕ → ℕ) (op : ℕ → ℕ → ℕ) where
  -- Two counts that reach the first number give the same digits.
  count_irrelevant : (a b p q : ℕ) → a ≤ p → a ≤ q → digits rest op p a b ≡ digits rest op q a b
  count_irrelevant zero b zero zero hp hq = refl
  count_irrelevant zero b zero (suc q) hp hq = refl
  count_irrelevant zero b (suc p) zero hp hq = refl
  count_irrelevant zero b (suc p) (suc q) hp hq = refl
  count_irrelevant (suc a) b zero q hp hq = absurd (omega arith)
  count_irrelevant (suc a) b (suc p) zero hp hq = absurd (omega arith)
  count_irrelevant (suc a) b (suc p) (suc q) hp hq =
      ap (λ (t : ℕ). t * 2 + op (suc a % 2) (b % 2))
        (count_irrelevant (suc a / 2) (b / 2) p q (omega arith) (omega arith))

  -- So the count of the halved number, one less than before, may be the number itself.
  halve :
      (a b : ℕ)
      → digits rest op (suc a) (suc a) b
        ≡ digits rest op (suc a / 2) (suc a / 2) (b / 2) * 2 + op (suc a % 2) (b % 2)
  halve a b =
      ap (λ (t : ℕ). t * 2 + op (suc a % 2) (b % 2))
        (count_irrelevant (suc a / 2) (b / 2) a (suc a / 2) (omega arith) (omega arith))

pub bit_or_halves : (a b : ℕ) → bit_or a b ≡ bit_or (a / 2) (b / 2) * 2 + max (a % 2) (b % 2)
bit_or_halves zero b = simp bit_or-bitwise (omega arith)
bit_or_halves (suc a) b = simp bit_or-bitwise (halve (λ d. d) max a b)

pub bit_and_halves : (a b : ℕ) → bit_and a b ≡ bit_and (a / 2) (b / 2) * 2 + min (a % 2) (b % 2)
bit_and_halves zero b = simp bit_and-bitwise (omega arith)
bit_and_halves (suc a) b = simp bit_and-bitwise (halve (λ d. 0) min a b)
