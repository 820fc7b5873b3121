-- ===== src/ArfcnRange/Sides.antt =====
-- openbsc/src/libbsc/arfcn_range_encode.c: what `range_enc_arfcns` hands to its calls of itself. Each
-- frequency but the one at which the list is split goes to one of the two sides.
use openbsc.Base.{
  ℕ, ◌+◌, ◌*◌, ◌/◌, ◌≡◌, ◌<◌, refl, inl, inr, Bool, true, List, [], ◌∷◌, ltb, if◌then◌else◌, length,
  All, Bool-cases, ltb→lt, arith,
}
use openbsc.ArfcnRange.{half_count, side}
use openbsc.ArfcnRange.Window.{
  count, distance, rotate, next, opposite, InRange, half_count-cons, in_half, same, modulo-sub,
}

module _ (d : ℕ) where
  on_side : ℕ → ℕ → Bool
  on_side o x = ltb (distance (2 * d + 1) x o) d

  half_range : (2 * d + 1) / 2 ≡ d
  half_range = omega arith

  side-cons :
      (o x : ℕ) (xs : List ℕ)
      → o < 2 * d + 1
      → x < 2 * d + 1
      → side (2 * d + 1) o (x ∷ xs) ≡ (
          if on_side o x
          then distance (2 * d + 1) x o ∷ side (2 * d + 1) o xs
          else side (2 * d + 1) o xs)
  unfolding side on_side
  side-cons o x xs h k = rw (half_range, modulo-sub (2 * d + 1) x o k h) refl

  length-side-cons :
      (o x : ℕ) (xs : List ℕ)
      → o < 2 * d + 1
      → x < 2 * d + 1
      → length (side (2 * d + 1) o (x ∷ xs))
        ≡ (if on_side o x then 1 else 0) + length (side (2 * d + 1) o xs)
  length-side-cons o x xs h k = elim (Bool-cases (on_side o x)) [
    | inl t ↦ rw (side-cons o x xs h k, t) (omega arith)
    | inr t ↦ rw (side-cons o x xs h k, t) (omega arith)
  ]

  count-side-cons :
      (y o x : ℕ) (xs : List ℕ)
      → o < 2 * d + 1
      → x < 2 * d + 1
      → count y (side (2 * d + 1) o (x ∷ xs))
        ≡ (if on_side o x then same y (distance (2 * d + 1) x o) else 0)
          + count y (side (2 * d + 1) o xs)
  count-side-cons y o x xs h k = elim (Bool-cases (on_side o x)) [
    | inl t ↦ rw (side-cons o x xs h k, t) (omega arith)
    | inr t ↦ rw (side-cons o x xs h k, t) (omega arith)
  ]

  right_element :
      (p x : ℕ)
      → p < 2 * d + 1
      → x < 2 * d + 1
      → (if on_side (next (2 * d + 1) p) x then 1 else 0) + same p x ≡ in_half d p x
  unfolding on_side
  right_element p x h k = ground arith

  left_element :
      (p x : ℕ)
      → p < 2 * d + 1
      → x < 2 * d + 1
      → (if on_side (opposite d p) x then 1 else 0) + in_half d p x ≡ 1
  unfolding on_side
  left_element p x h k = ground arith

  same_element :
      (y o x : ℕ)
      → o < 2 * d + 1
      → x < 2 * d + 1
      → (if on_side o x then same y (distance (2 * d + 1) x o) else 0)
        ≡ (if ltb y d then same (rotate (2 * d + 1) y o) x else 0)
  unfolding on_side
  same_element y o x h k = ground arith

  pub length-right :
      (p : ℕ) (xs : List ℕ)
      → p < 2 * d + 1
      → InRange d xs
      → length (side (2 * d + 1) (next (2 * d + 1) p) xs) + count p xs ≡ half_count (2 * d + 1) p xs
  length-right p [] h a = unfold side half_count in refl
  length-right p (x ∷ xs) h a = omega (
    arith,
    length-side-cons (next (2 * d + 1) p) x xs (ground arith) a.0,
    half_count-cons d p x xs h a.0,
    right_element p x h a.0,
    length-right p xs h a.1,
  )

  pub length-left :
      (p : ℕ) (xs : List ℕ)
      → p < 2 * d + 1
      → InRange d xs
      → length (side (2 * d + 1) (opposite d p) xs) + half_count (2 * d + 1) p xs ≡ length xs
  length-left p [] h a = unfold side half_count in refl
  length-left p (x ∷ xs) h a = omega (
    arith,
    length-side-cons (opposite d p) x xs (ground arith) a.0,
    half_count-cons d p x xs h a.0,
    left_element p x h a.0,
    length-left p xs h a.1,
  )

  -- A side holds, as the distances from its origin, the frequencies that are near enough to it.
  pub count-side :
      (y o : ℕ) (xs : List ℕ)
      → o < 2 * d + 1
      → InRange d xs
      → count y (side (2 * d + 1) o xs) ≡ (if ltb y d then count (rotate (2 * d + 1) y o) xs else 0)
  count-side y o [] h a = unfold side in ground arith
  count-side y o (x ∷ xs) h a =
      ground
        (arith, count-side-cons y o x xs h a.0, same_element y o x h a.0, count-side y o xs h a.1)

  pub side-All :
      (o : ℕ) (xs : List ℕ)
      → o < 2 * d + 1
      → InRange d xs
      → All (λ x. x < d) (side (2 * d + 1) o xs)
  side-All o [] h a = unfold side in tt
  side-All o (x ∷ xs) h a = elim (Bool-cases (on_side o x)) [
    | inl t ↦ rw (side-cons o x xs h a.0, t) (near t, side-All o xs h a.1)
    | inr t ↦ rw (side-cons o x xs h a.0, t) (side-All o xs h a.1)
  ]
    where
      near : on_side o x ≡ true → distance (2 * d + 1) x o < d
      near t = unfold on_side in ltb→lt (distance (2 * d + 1) x o) d t
