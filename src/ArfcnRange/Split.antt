-- ===== src/ArfcnRange/Split.antt =====
-- openbsc/src/libbsc/arfcn_range_encode.c: `range_enc_find_index` finds an index. On the way round
-- the circle, the number of frequencies in the half that begins at a place falls by one at most, and
-- only where a frequency is left behind.
use openbsc.Base.{
  ℕ, zero, suc, ◌+◌, ◌-◌, ◌*◌, ◌/◌, ◌%◌, ◌≡◌, ◌≤◌, ◌<◌, refl, ap, ◌∙◌, ◌⊎◌, inl, inr, some, List,
  [], ◌∷◌, ◌==◌, length, get_or, Bool-cases, ==-ne, arith,
}
use native.Mathlib.Decide.{dec_le, dec_lt, ℕ_discrete}
use openbsc.ArfcnRange.{half_count, find_index_loop, range_enc_find_index}
use openbsc.ArfcnRange.Window.{
  count, distance, next, opposite, opposite-lt, next-lt, InRange, half_count-opposite,
  half_count-next,
}

-- No number is in the list twice.
abbrev pub IsDistinct : List ℕ → Type 0
IsDistinct xs = (x : ℕ) → count x xs ≤ 1

module _ (d : ℕ) (xs : List ℕ) (pos : 0 < d) (a : InRange d xs) (once : IsDistinct xs) where
  abbrev half : ℕ → ℕ
  half t = half_count (2 * d + 1) t xs

  -- A frequency whose half has `m` frequencies.
  abbrev Found : ℕ → Type 0
  Found m = (f : ℕ) × (f < 2 * d + 1) × (1 ≤ count f xs) × (half f ≡ m)

  distance-next :
      (n t u : ℕ)
      → t < 2 * d + 1
      → u < 2 * d + 1
      → distance (2 * d + 1) u t ≡ suc n
      → distance (2 * d + 1) u (next (2 * d + 1) t) ≡ n
  distance-next n t u h k e = ground arith

  -- From a place with `m` or more to one with fewer.
  fall :
      (n m t u : ℕ)
      → t < 2 * d + 1
      → u < 2 * d + 1
      → distance (2 * d + 1) u t ≡ n
      → m ≤ half t
      → half u < m
      → Found m
  fall zero m t u h k e p q = let s : t ≡ u = ground arith in absurd (omega (arith, ap half s))
  fall (suc n) m t u h k e p q =
      let t' = next (2 * d + 1) t in
      elim (dec_le m (half t')) [
        | yes p' ↦ fall n m t' u (next-lt d t h pos) k (distance-next n t u h k e) p' q
        | no p' ↦
            let step = half_count-next d t xs h pos a in
            (t, h, omega (arith, step), omega (arith, step, once t, once (opposite d t)))
      ]

  -- From a place with half of an even number of frequencies, to a frequency.
  level :
      (n m t f : ℕ)
      → t < 2 * d + 1
      → f < 2 * d + 1
      → distance (2 * d + 1) f t ≡ n
      → length xs ≡ m + m
      → half t ≡ m
      → 1 ≤ count f xs
      → Found m
  level zero m t f h k e l p c =
      let s : t ≡ f = ground arith in (f, k, c, ap half (ground arith) ∙ p)
  level (suc n) m t f h k e l p c = elim (dec_le 1 (count t xs)) [
    | yes ct ↦ (t, h, ct, p)
    | no ct ↦
        let o = half_count-opposite d t xs h a in
        elim (dec_le 1 (count (opposite d t) xs)) [
          | yes co ↦ (opposite d t, opposite-lt d t h, co, omega (arith, o))
          | no co ↦
              let step = half_count-next d t xs h pos a in
              level n m (next (2 * d + 1) t) f (next-lt d t h pos) k (distance-next n t f h k e) l
                (omega (arith, step)) c
        ]
  ]

  between : (m t u : ℕ) → t < 2 * d + 1 → u < 2 * d + 1 → m ≤ half t → half u < m → Found m
  between m t u h k p q = fall (distance (2 * d + 1) u t) m t u h k refl p q

  balanced :
      (m f : ℕ)
      → f < 2 * d + 1
      → 1 ≤ count f xs
      → (length xs ≡ m + m) ⊎ (length xs + 1 ≡ m + m)
      → Found m
  balanced m f h c l =
      let g = opposite d f in
      let k = opposite-lt d f h in
      let o = half_count-opposite d f xs h a in
      elim (dec_le m (half f)) [
        | no p ↦ between m g f k h (ground (arith, o, l, once f)) (omega arith)
        | yes p ↦ elim (dec_lt (half g) m) [
          | yes q ↦ between m f g h k p q
          | no q ↦ elim l [
            | inl even ↦ elim (dec_le (half f) m) [
              | yes r ↦ (f, h, c, omega arith)
              | no r ↦
                  level (distance (2 * d + 1) f g) m g f k h refl even (omega (arith, o, once f)) c
            ]
            | inr odd ↦ (f, h, c, omega (arith, o, once f))
          ]
        ]
      ]

-- What the search needs of the frequency at the index.
abbrev pub Splits : ℕ → List ℕ → ℕ → Type 0
Splits range freqs f = half_count range f freqs ≡ (length freqs - 1) / 2 + 1

count-cons_ne : (f x : ℕ) (xs : List ℕ) → 1 ≤ count f (x ∷ xs) → (x ≡ f) ⊎ (1 ≤ count f xs)
count-cons_ne f x xs h = elim (Bool-cases (f == x)) [
  | inl t ↦ inl (ground (arith, t))
  | inr t ↦ inr (ground (arith, t, h))
]

find_index_loop-hit :
    (range : ℕ) (freqs fs : List ℕ) (i f : ℕ)
    → 1 ≤ count f fs
    → Splits range freqs f
    → (j : ℕ) × (find_index_loop range freqs fs i ≡ some (i + j))
      × (1 ≤ count (get_or fs j 0) fs)
      × Splits range freqs (get_or fs j 0)
unfolding find_index_loop
find_index_loop-hit range freqs [] i f c s = absurd (omega arith)
find_index_loop-hit range freqs (x ∷ fs) i f c s =
    elim (Bool-cases (half_count range x freqs == (length freqs - 1) / 2 + 1)) [
      | inl t ↦ (0, rw t (ground arith), ground arith, ground (arith, t))
      | inr t ↦ elim (count-cons_ne f x fs c) [
        | inl e ↦ absurd (==-ne _ _ t (ap (λ y. half_count range y freqs) e ∙ s))
        | inr c' ↦
            let (j, r, p, q) = find_index_loop-hit range freqs fs (suc i) f c' s in
            (suc j, rw t (r ∙ ap some (omega arith)), omega (arith, p), q)
      ]
    ]

InRange-count : (d : ℕ) (xs : List ℕ) (f : ℕ) → InRange d xs → 1 ≤ count f xs → f < 2 * d + 1
InRange-count d [] f a c = absurd (omega arith)
InRange-count d (x ∷ xs) f a c = elim (count-cons_ne f x xs c) [
  | inl e ↦ omega (arith, e, a.0)
  | inr c' ↦ InRange-count d xs f a.1 c'
]

parity : (n : ℕ) → (suc n ≡ (n / 2 + 1) + (n / 2 + 1)) ⊎ (suc n + 1 ≡ (n / 2 + 1) + (n / 2 + 1))
parity n = elim (ℕ_discrete (n % 2) 0) [ yes e ↦ inr (omega arith) | no e ↦ inl (omega arith) ]

-- For different frequencies of the range the search has a result, the index of a frequency.
pub range_enc_find_index-hit :
    (d x : ℕ) (xs : List ℕ)
    → 0 < d
    → InRange d (x ∷ xs)
    → IsDistinct (x ∷ xs)
    → (j : ℕ) × (range_enc_find_index (2 * d + 1) (x ∷ xs) ≡ some j)
      × (get_or (x ∷ xs) j 0 < 2 * d + 1)
      × (1 ≤ count (get_or (x ∷ xs) j 0) (x ∷ xs))
      × Splits (2 * d + 1) (x ∷ xs) (get_or (x ∷ xs) j 0)
unfolding range_enc_find_index
range_enc_find_index-hit d x xs h a once =
    let l = parity (length xs) in
    let m : length xs / 2 + 1 ≡ (length (x ∷ xs) - 1) / 2 + 1 = omega arith in
    let (f, k, c, s) = balanced d (x ∷ xs) h a once (length xs / 2 + 1) x a.0 (ground arith) l in
    let (j, e, p, q) = find_index_loop-hit (2 * d + 1) (x ∷ xs) (x ∷ xs) 0 f c (s ∙ m) in
    (j, e ∙ ap some (omega arith), InRange-count d (x ∷ xs) (get_or (x ∷ xs) j 0) a p, p, q)
