-- ===== src/ArfcnRange/Window.antt =====
-- openbsc/src/libbsc/arfcn_range_encode.c: the numbers of an odd range on a circle. The half that
-- begins with a number and the half that begins opposite to it meet in that number alone.
use openbsc.Base.{
  ℕ, suc, ◌+◌, ◌-◌, ◌*◌, ◌/◌, ◌%◌, ◌≡◌, ◌≤◌, ◌<◌, refl, List, [], ◌∷◌, ltb, leb, ◌==◌,
  if◌then◌else◌, length, All, arith,
}
use native.Mathlib.Nat.{mod-eq_of_lt, mod-eq-sub-mod}
use openbsc.ArfcnRange.{pos, sub_ℕ, modulo, half_count}

-- How often `x` is in the list.
abbrev pub count : ℕ → List ℕ → ℕ
count x [] = 0
count x (y ∷ ys) = (if x == y then 1 else 0) + count x ys

-- The steps from `t` round the circle to `x`, and the number that is `x` steps from `t`.
abbrev pub distance : ℕ → ℕ → ℕ → ℕ
distance r x t = if leb t x then x - t else x + r - t

abbrev pub rotate : ℕ → ℕ → ℕ → ℕ
rotate r x t = if ltb (t + x) r then t + x else t + x - r

abbrev pub next : ℕ → ℕ → ℕ
next r t = rotate r 1 t

-- In a range of 2 * d + 1 numbers, the one that follows the half that begins with `t`.
abbrev pub opposite : ℕ → ℕ → ℕ
opposite d t = rotate (2 * d + 1) (d + 1) t

pub mod_small : (n r : ℕ) → n < r → n % r ≡ n
mod_small n r h = mod-eq_of_lt h

pub mod_once : (n r : ℕ) → r ≤ n → n < r + r → n % r ≡ n - r
mod_once n r h k = grind (arith, mod-eq-sub-mod, mod-eq_of_lt)

pub modulo-sub : (r x t : ℕ) → x < r → t < r → modulo (sub_ℕ x t) r ≡ distance r x t
unfolding modulo
modulo-sub r x t h k = ground (arith, mod_small (x - t) r, mod_small (suc (t - x - 1)) r)

pub modulo-pos : (r x t : ℕ) → x ≤ r → t < r → modulo (pos (t + x)) r ≡ rotate r x t
unfolding modulo
modulo-pos r x t h k = ground (arith, mod_small (t + x) r, mod_once (t + x) r)

abbrev pub same : ℕ → ℕ → ℕ
same t x = if t == x then 1 else 0

module _ (d : ℕ) where
  -- The conditions on one number `x`, in the two halves.
  abbrev pub in_half : ℕ → ℕ → ℕ
  in_half t x = if leb (distance (2 * d + 1) x t) d then 1 else 0

  in_half-opposite :
      (t x : ℕ)
      → t < 2 * d + 1
      → x < 2 * d + 1
      → in_half t x + in_half (opposite d t) x ≡ 1 + same t x
  in_half-opposite t x h k = ground arith

  in_half-next :
      (t x : ℕ)
      → t < 2 * d + 1
      → x < 2 * d + 1
      → in_half (next (2 * d + 1) t) x + same t x ≡ in_half t x + same (opposite d t) x
  in_half-next t x h k = ground arith

  -- `d` is the C expression `(range - 1) / 2`.
  half_lem : (2 * d + 1 - 1) / 2 ≡ d
  half_lem = omega arith

  pub half_count-cons :
      (t x : ℕ) (xs : List ℕ)
      → t < 2 * d + 1
      → x < 2 * d + 1
      → half_count (2 * d + 1) t (x ∷ xs) ≡ in_half t x + half_count (2 * d + 1) t xs
  unfolding half_count
  half_count-cons t x xs h k = rw (half_lem, modulo-sub (2 * d + 1) x t k h) refl

  pub opposite-lt : (t : ℕ) → t < 2 * d + 1 → opposite d t < 2 * d + 1
  opposite-lt t h = ground arith

  pub next-lt : (t : ℕ) → t < 2 * d + 1 → 0 < d → next (2 * d + 1) t < 2 * d + 1
  next-lt t h k = ground arith

  abbrev pub InRange : List ℕ → Type 0
  InRange = All (λ x. x < 2 * d + 1)

  pub half_count-opposite :
      (t : ℕ) (xs : List ℕ)
      → t < 2 * d + 1
      → InRange xs
      → half_count (2 * d + 1) t xs + half_count (2 * d + 1) (opposite d t) xs
        ≡ length xs + count t xs
  half_count-opposite t [] h a = unfold half_count in refl
  half_count-opposite t (x ∷ xs) h a = omega (
    arith,
    half_count-cons t x xs h a.0,
    half_count-cons (opposite d t) x xs (opposite-lt t h) a.0,
    in_half-opposite t x h a.0,
    half_count-opposite t xs h a.1,
  )

  pub half_count-next :
      (t : ℕ) (xs : List ℕ)
      → t < 2 * d + 1
      → 0 < d
      → InRange xs
      → half_count (2 * d + 1) (next (2 * d + 1) t) xs + count t xs
        ≡ half_count (2 * d + 1) t xs + count (opposite d t) xs
  half_count-next t [] h k a = unfold half_count in refl
  half_count-next t (x ∷ xs) h k a = omega (
    arith,
    half_count-cons t x xs h a.0,
    half_count-cons (next (2 * d + 1) t) x xs (next-lt t h k) a.0,
    in_half-next t x h a.0,
    half_count-next t xs h k a.1,
  )
