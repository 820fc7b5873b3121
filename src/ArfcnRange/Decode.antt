-- ===== src/ArfcnRange/Decode.antt =====
-- The decoding of a frequency list of 3GPP TS 44.018, 10.5.2.13, which the encoder of
-- openbsc/src/libbsc/arfcn_range_encode.c serves.
use openbsc.Base.{
  ℕ, zero, suc, ◌+◌, ◌*◌, ◌%◌, ◌≡◌, ◌≤◌, ◌<◌, refl, ap, ◌∙◌, inl, inr, Bool, true, ◌&&◌, List, [],
  ◌∷◌, ◌++◌, map, ltb, if◌then◌else◌, get_or, All, Bool-cases, arith,
}
use openbsc.ArfcnRange.Window.{
  count, distance, rotate, next, opposite, InRange, same, mod_small, mod_once,
}

-- The range of k bits, 2 ^ k - 1.
unfoldable pub full : ℕ → ℕ
full zero = 0
full (suc k) = 2 * full k + 1

-- A tree from the entry at its root, in a range of k + 1 bits, and the trees below. An entry W stands
-- for W - 1, and 0 for no tree; the numbers below are offsets in half of the range, which begins
-- 2 ^ k or 1 after W - 1.
unfoldable pub decode_node : ℕ → ℕ → List ℕ → List ℕ → List ℕ
unfolding full
decode_node k zero left right = []
decode_node k (suc p) left right =
    p
    ∷ (map (λ x. (x + p + (full k + 1)) % full (suc k)) left
        ++ map (λ x. (x + p + 1) % full (suc k)) right)

-- The tree of k levels whose root is the entry at `index`.
unfoldable pub decode : ℕ → List ℕ → ℕ → ℕ → List ℕ
unfolding decode_node
decode zero w index step = []
decode (suc k) w index step =
    decode_node k (get_or w index 0) (decode k w (index + step) (2 * step))
      (decode k w (index + 2 * step) (2 * step))

-- The index of the entry `i` of such a tree.
abbrev pub entry : ℕ → ℕ → ℕ → ℕ
entry index step i = index + i * step

pub entry-left :
    (index step i : ℕ) → entry (index + step) (2 * step) i ≡ entry index step (1 + 2 * i)
entry-left index step i = grind arith

pub entry-right :
    (index step i : ℕ) → entry (index + 2 * step) (2 * step) i ≡ entry index step (2 + 2 * i)
entry-right index step i = grind arith

pub decode-ext :
    (k : ℕ) (w v : List ℕ) (index step : ℕ)
    → ((i : ℕ) → get_or w (entry index step i) 0 ≡ get_or v (entry index step i) 0)
    → decode k w index step ≡ decode k v index step
unfolding decode
decode-ext zero w v index step h = refl
decode-ext (suc k) w v index step h =
    let root : get_or w index 0 ≡ get_or v index 0 =
      ap (λ i. get_or w i 0) (omega arith) ∙ h 0 ∙ ap (λ i. get_or v i 0) (omega arith) in
    let left : decode k w (index + step) (2 * step) ≡ decode k v (index + step) (2 * step) =
      decode-ext k w v (index + step) (2 * step)
        (λ i. rw (entry-left index step i) (h (1 + 2 * i))) in
    let right : decode k w (index + 2 * step) (2 * step)
        ≡ decode k v (index + 2 * step) (2 * step) =
      decode-ext k w v (index + 2 * step) (2 * step)
        (λ i. rw (entry-right index step i) (h (2 + 2 * i))) in
    rw (root, left, right) refl

pub decode-empty :
    (k : ℕ) (w : List ℕ) (index step : ℕ) → get_or w index 0 ≡ 0 → decode k w index step ≡ []
unfolding decode
decode-empty zero w index step e = refl
decode-empty (suc k) w index step e = rw e refl

pub count-append : (x : ℕ) (xs ys : List ℕ) → count x (xs ++ ys) ≡ count x xs + count x ys
count-append x [] ys = omega arith
count-append x (y ∷ xs) ys = omega (arith, count-append x xs ys)

-- A list that holds no number from `d` on.
pub All-count : (d : ℕ) (xs : List ℕ) → ((y : ℕ) → d ≤ y → count y xs ≡ 0) → All (λ y. y < d) xs
All-count d [] h = tt
All-count d (x ∷ xs) h = (ground (arith, h x), All-count d xs (λ y l. omega (arith, h y l)))

module _ (d : ℕ) where
  -- Whether the number is one of the `d` that begin at the origin.
  near : ℕ → ℕ → Bool
  near x o = ltb x (2 * d + 1) && ltb (distance (2 * d + 1) x o) d

  same-rotate :
      (x o y : ℕ)
      → o < 2 * d + 1
      → y < d
      → same x (rotate (2 * d + 1) y o)
        ≡ (if near x o then same (distance (2 * d + 1) x o) y else 0)
  unfolding near
  same-rotate x o y h k = ground arith

  rotate-distance :
      (x o : ℕ)
      → o < 2 * d + 1
      → x < 2 * d + 1
      → rotate (2 * d + 1) (distance (2 * d + 1) x o) o ≡ x
  rotate-distance x o h k = ground arith

  count-map :
      (x o : ℕ) (f : ℕ → ℕ) (ys : List ℕ)
      → o < 2 * d + 1
      → ((y : ℕ) → y < d → f y ≡ rotate (2 * d + 1) y o)
      → All (λ y. y < d) ys
      → count x (map f ys) ≡ (if near x o then count (distance (2 * d + 1) x o) ys else 0)
  count-map x o f [] h g a = ground arith
  count-map x o f (y ∷ ys) h g a =
      ground (arith, ap (same x) (g y a.0), same-rotate x o y h a.0, count-map x o f ys h g a.1)

  left-rotate :
      (p y : ℕ)
      → p < 2 * d + 1
      → y < d
      → (y + p + (d + 1)) % (2 * d + 1) ≡ rotate (2 * d + 1) y (opposite d p)
  left-rotate p y h k =
      ground
        (arith, mod_small (y + p + (d + 1)) (2 * d + 1), mod_once (y + p + (d + 1)) (2 * d + 1))

  right-rotate :
      (p y : ℕ)
      → p < 2 * d + 1
      → y < d
      → (y + p + 1) % (2 * d + 1) ≡ rotate (2 * d + 1) y (next (2 * d + 1) p)
  right-rotate p y h k =
      ground (arith, mod_small (y + p + 1) (2 * d + 1), mod_once (y + p + 1) (2 * d + 1))

  -- A list that is one side of `xs`: the numbers near the origin, by their distance.
  abbrev Side : List ℕ → ℕ → List ℕ → Type 0
  Side xs o ys = (y : ℕ) → count y ys ≡ (if ltb y d then count (rotate (2 * d + 1) y o) xs else 0)

  -- What stands at the distance of a near number.
  near-side :
      (x o : ℕ) (xs : List ℕ)
      → o < 2 * d + 1
      → near x o ≡ true
      → (if ltb (distance (2 * d + 1) x o) d
          then count (rotate (2 * d + 1) (distance (2 * d + 1) x o) o) xs
          else 0)
        ≡ count x xs
  unfolding near
  near-side x o xs h t =
      ground (arith, t, ap (λ z. count z xs) (rotate-distance x o h (ground (arith, t))))

  count-Side-map :
      (x o : ℕ) (f : ℕ → ℕ) (xs ys : List ℕ)
      → o < 2 * d + 1
      → ((y : ℕ) → y < d → f y ≡ rotate (2 * d + 1) y o)
      → Side xs o ys
      → count x (map f ys) ≡ (if near x o then count x xs else 0)
  count-Side-map x o f xs ys h g s =
      let below : All (λ y. y < d) ys = All-count d ys (λ y l. ground (arith, s y)) in
      let m = count-map x o f ys h g below in
      elim (Bool-cases (near x o)) [
        | inr t ↦ rw t (m ∙ rw t refl)
        | inl t ↦ rw t (m ∙ rw t (s (distance (2 * d + 1) x o) ∙ near-side x o xs h t))
      ]

  -- Every number but the pivot is near one of the two origins.
  near-once :
      (x p c : ℕ)
      → p < 2 * d + 1
      → 0 < d
      → (2 * d + 1 ≤ x → c ≡ 0)
      → (x ≡ p → c ≡ 1)
      → same x p
          + ((if near x (opposite d p) then c else 0)
              + (if near x (next (2 * d + 1) p) then c else 0))
        ≡ c
  unfolding near
  near-once x p c h k z o = ground arith

  count-out_of_range : (x : ℕ) (xs : List ℕ) → InRange d xs → 2 * d + 1 ≤ x → count x xs ≡ 0
  count-out_of_range x [] a h = refl
  count-out_of_range x (y ∷ xs) a h = ground (arith, count-out_of_range x xs a.1 h)

-- From the two sides of a list and the number at which it was split, the list.
pub count-decode_node :
    (k p x : ℕ) (xs left right : List ℕ)
    → 0 < full k
    → p < 2 * full k + 1
    → InRange (full k) xs
    → count p xs ≡ 1
    → Side (full k) xs (opposite (full k) p) left
    → Side (full k) xs (next (2 * full k + 1) p) right
    → count x (decode_node k (suc p) left right) ≡ count x xs
unfolding decode_node
count-decode_node k p x xs left right h b a c l r =
    let d = full k in
    omega (
      arith,
      count-append x (map (λ y. (y + p + (d + 1)) % (2 * d + 1)) left)
          (map (λ y. (y + p + 1) % (2 * d + 1)) right),
      count-Side-map d x (opposite d p) (λ y. (y + p + (d + 1)) % (2 * d + 1)) xs left
          (ground arith) (λ y. left-rotate d p y b) l,
      count-Side-map d x (next (2 * d + 1) p) (λ y. (y + p + 1) % (2 * d + 1)) xs right
          (ground arith) (λ y. right-rotate d p y b) r,
      near-once d x p (count x xs) b h (count-out_of_range d x xs a)
          (λ e. ap (λ z. count z xs) e ∙ c),
    )
