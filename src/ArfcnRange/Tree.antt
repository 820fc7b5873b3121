-- ===== src/ArfcnRange/Tree.antt =====
-- openbsc/src/libbsc/arfcn_range_encode.c: `range_enc_arfcns` writes a tree that decodes to its
-- frequencies.
use openbsc.Base.{
  ℕ, zero, suc, ◌+◌, ◌-◌, ◌*◌, ◌/◌, ◌≡◌, ◌≤◌, ◌<◌, refl, sym, ap, ◌∙◌, inl, inr, some, List, [],
  ◌∷◌, ltb, length, get_or, All, Bool-cases, length-set, some_inj, arith,
}
use openbsc.ArfcnRange.{
  Encoder, Rc, done, pos, modulo, side, encode_side, encode_sides, encode_split, encode_body,
  range_enc_arfcns,
}
use openbsc.ArfcnRange.Window.{
  count, rotate, next, opposite, opposite-lt, next-lt, InRange, modulo-pos,
}
use openbsc.ArfcnRange.Split.{IsDistinct, Splits, range_enc_find_index-hit}
use openbsc.ArfcnRange.Sides.{length-left, length-right, count-side, side-All}
use openbsc.ArfcnRange.Levels.{level}
use openbsc.ArfcnRange.Decode.{full, decode, entry, count-decode_node}
use openbsc.ArfcnRange.Places.{
  Encoded, IsFree, Outside, out₁, power_index, left-IsFree, right-IsFree, root-out₃, decode-left,
  keeps_all, node-fits,
}

pub range_enc_arfcns-empty :
    (k range : ℕ) (out : List ℕ) (index : ℕ)
    → range_enc_arfcns k range [] out index ≡ some (done, out)
unfolding range_enc_arfcns
range_enc_arfcns-empty zero range out index = refl
range_enc_arfcns-empty (suc k) range out index = refl

encode_side-Encoded :
    (k : ℕ) (xs out : List ℕ) (index step : ℕ) (e : Encoded k xs out index step)
    → encode_side (range_enc_arfcns k) (full k) xs out index ≡ some e.out'
unfolding encode_side
encode_side-Encoded k [] out index step e =
    let q = some_inj (sym (range_enc_arfcns-empty k (full k) out index) ∙ e.returns) in
    ap (λ (r : Rc × List ℕ). some r.1) q
encode_side-Encoded k (x ∷ xs) out index step e = rw (e.returns, encode_side) refl

encode_sides_lem :
    (rec : Encoder) (range : ℕ) (left right : List ℕ) (power : ℕ) (out : List ℕ) (index d : ℕ)
    (out₂ out₃ : List ℕ)
    → range / 2 ≡ d
    → (range - 1) / 2 ≡ d
    → encode_side rec d left out (index + power) ≡ some out₂
    → encode_side rec d right out₂ (index + 2 * power) ≡ some out₃
    → encode_sides rec range left right power out index ≡ some (done, out₃)
unfolding encode_sides
encode_sides_lem rec range left right power out index d out₂ out₃ e₁ e₂ e₃ e₄ = ground arith

-- What the induction provides for the two sides.
abbrev pub Encodes : ℕ → Type 0
Encodes k =
    (n : ℕ) (xs out : List ℕ) (index step : ℕ)
    → All (λ x. x < full k) xs
    → IsDistinct xs
    → IsFree n (length xs) out index step
    → Encoded k xs out index step

module _ (k n p : ℕ) (xs out : List ℕ) (index step : ℕ) (ih : Encodes k) (positive : 0 < full k)
    (a : InRange (full k) xs) (once : IsDistinct xs) (free : IsFree n (length xs) out index step)
    (k₀ : p < 2 * full k + 1) (in_list : 1 ≤ count p xs)
    (splits : Splits (2 * full k + 1) xs p) where
  abbrev left_origin : ℕ
  left_origin = opposite (full k) p

  abbrev right_origin : ℕ
  right_origin = next (2 * full k + 1) p

  abbrev left : List ℕ
  left = side (2 * full k + 1) left_origin xs

  abbrev right : List ℕ
  right = side (2 * full k + 1) right_origin xs

  some_left : 0 < length xs
  some_left = elim (Bool-cases (ltb 0 (length xs))) [
    | inl t ↦ ground (arith, t)
    | inr t ↦ absurd (ground (arith, t, length-left (full k) p xs k₀ a, splits))
  ]

  left_size : 2 * length left ≤ length xs
  left_size = omega (arith, some_left, splits, length-left (full k) p xs k₀ a)

  right_size : 2 * length right + 1 ≤ length xs
  right_size = omega (arith, some_left, splits, in_list, length-right (full k) p xs k₀ a)

  side-IsDistinct : (o : ℕ) → o < 2 * full k + 1 → IsDistinct (side (2 * full k + 1) o xs)
  side-IsDistinct o h y =
      ground (arith, count-side (full k) y o xs h a, once (rotate (2 * full k + 1) y o))

  out_root : List ℕ
  out_root = out₁ n (length xs) p out index step free

  abbrev left-Encoded : Encoded k left out_root (index + step) (2 * step)
  unfolding out_root
  left-Encoded =
      ih (suc n) left out_root (index + step) (2 * step)
        (side-All (full k) left_origin xs (opposite-lt (full k) p k₀) a)
        (side-IsDistinct left_origin (opposite-lt (full k) p k₀))
        (left-IsFree n (length xs) p out index step free (length left) left_size)

  abbrev right-Encoded : Encoded k right left-Encoded.out' (index + 2 * step) (2 * step)
  unfolding out_root
  right-Encoded =
      ih (suc n) right left-Encoded.out' (index + 2 * step) (2 * step)
        (side-All (full k) right_origin xs (next-lt (full k) p k₀ positive) a)
        (side-IsDistinct right_origin (next-lt (full k) p k₀ positive))
        (right-IsFree n (length xs) p out index step free (length left) (length right)
          left-Encoded.out' left-Encoded.keeps left-Encoded.same_length right_size)

  split-returns :
      encode_split (range_enc_arfcns k) (2 * full k + 1) xs p out index
      ≡ some (done, right-Encoded.out')
  unfolding encode_split out_root
  split-returns =
      let l : modulo (pos (p + (2 * full k + 1 - 1) / 2 + 1)) (2 * full k + 1) ≡ left_origin =
        ap (λ (z : ℕ). modulo (pos z) (2 * full k + 1)) (omega arith)
        ∙ modulo-pos (2 * full k + 1) (full k + 1) p (omega arith) k₀ in
      rw
        (
          l,
          modulo-pos (2 * full k + 1) 1 p (omega arith) k₀,
          power_index n (length xs) p out index step free,
        )
        (encode_sides_lem (range_enc_arfcns k) (2 * full k + 1) left right step out_root index
          (full k) left-Encoded.out' right-Encoded.out' (omega arith) (omega arith)
          (encode_side-Encoded k left out_root (index + step) (2 * step) left-Encoded)
          (encode_side-Encoded k right left-Encoded.out' (index + 2 * step) (2 * step)
            right-Encoded))

  split-decodes : (x : ℕ) → count x (decode (suc k) right-Encoded.out' index step) ≡ count x xs
  unfolding decode out_root
  split-decodes x =
      let root : get_or right-Encoded.out' index 0 ≡ suc p =
        root-out₃ n (length xs) p out index step free (length left) (length right) left-Encoded.out'
          left-Encoded.keeps left-Encoded.same_length right-Encoded.out' right-Encoded.keeps
          some_left
        ∙ omega arith in
      let l =
        decode-left n (length xs) p out index step free (length left) (length right)
          left-Encoded.out' left-Encoded.keeps left-Encoded.same_length right-Encoded.out'
          right-Encoded.keeps k in
      rw (root, l)
        (count-decode_node k p x xs (decode k left-Encoded.out' (index + step) (2 * step))
          (decode k right-Encoded.out' (index + 2 * step) (2 * step)) positive k₀ a
          (omega (arith, once p, in_list))
          (λ y.
            left-Encoded.decodes y
            ∙ count-side (full k) y left_origin xs (opposite-lt (full k) p k₀) a)
          (λ y.
            right-Encoded.decodes y
            ∙ count-side (full k) y right_origin xs (next-lt (full k) p k₀ positive) a))

  split-keeps :
      (q : ℕ) → Outside index step (length xs) q → get_or right-Encoded.out' q 0 ≡ get_or out q 0
  unfolding out_root
  split-keeps =
      keeps_all n (length xs) p out index step free (length left) (length right) left-Encoded.out'
        left-Encoded.keeps left-Encoded.same_length right-Encoded.out' right-Encoded.keeps left_size
        right_size some_left

  split-fits : (i : ℕ) → get_or right-Encoded.out' (entry index step i) 0 ≤ full (suc k - level i)
  unfolding out_root
  split-fits =
      node-fits n (length xs) p out index step free (length left) (length right) left-Encoded.out'
        left-Encoded.keeps left-Encoded.same_length right-Encoded.out' right-Encoded.keeps k
        (unfold full in k₀) some_left left-Encoded.fits right-Encoded.fits

  split-same_length : length right-Encoded.out' ≡ length out
  unfolding out_root
  split-same_length =
      right-Encoded.same_length ∙ left-Encoded.same_length ∙ length-set out index (1 + p)

two_numbers :
    (d x y : ℕ) (xs : List ℕ) → InRange d (x ∷ (y ∷ xs)) → IsDistinct (x ∷ (y ∷ xs)) → 0 < d
two_numbers d x y xs a once = ground (arith, once x)

pub pair-Encoded :
    (k n x y : ℕ) (xs out : List ℕ) (index step : ℕ)
    → Encodes k
    → InRange (full k) (x ∷ (y ∷ xs))
    → IsDistinct (x ∷ (y ∷ xs))
    → IsFree n (length (x ∷ (y ∷ xs))) out index step
    → Encoded (suc k) (x ∷ (y ∷ xs)) out index step
unfolding range_enc_arfcns full
pair-Encoded k n x y xs out index step ih a once free =
    let freqs = x ∷ (y ∷ xs) in
    let positive = two_numbers (full k) x y xs a once in
    let (j, e, h, c, s) = range_enc_find_index-hit (full k) x (y ∷ xs) positive a once in
    let p = get_or freqs j 0 in
    record {
      out' = (right-Encoded k n p freqs out index step ih positive a once free h c s).out';
      returns =
          rw (e, encode_body)
            (split-returns k n p freqs out index step ih positive a once free h c s);
      decodes = split-decodes k n p freqs out index step ih positive a once free h c s;
      keeps = split-keeps k n p freqs out index step ih positive a once free h c s;
      same_length = split-same_length k n p freqs out index step ih positive a once free h c s;
      fits = split-fits k n p freqs out index step ih positive a once free h c s;
    }
