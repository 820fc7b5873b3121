-- ===== src/ArfcnRange/Octets/Ascending.antt =====
-- openbsc/src/libbsc/system_information.c: ascending lists of frequencies, as `range_encode` gets
-- them, and their numbers in the tree.
use openbsc.Base.{ℕ, ◌-◌, ◌≡◌, ◌≤◌, ◌<◌, refl, List, [], ◌∷◌, map, All, arith}
use openbsc.ArfcnRange.{modulo, last_arfcn}
use openbsc.ArfcnRange.Window.{count}
use openbsc.ArfcnRange.Split.{IsDistinct}
use openbsc.ArfcnRange.Filtered.{offset}

-- Frequencies from the lowest one on, each higher than the one before.
abbrev pub Ascending : ℕ → List ℕ → Type 0
Ascending x [] = Unit
Ascending x (y ∷ ys) = (x < y) × Ascending y ys

pub last-ge : (x : ℕ) (xs : List ℕ) → Ascending x xs → x ≤ last_arfcn x xs
unfolding last_arfcn
last-ge x [] a = omega arith
last-ge x (y ∷ ys) a = omega (arith, a.0, last-ge y ys a.1)

pub Ascending-All :
    (b x : ℕ) (xs : List ℕ) → b ≤ x → Ascending x xs → All (λ y. (b < y) × (y ≤ last_arfcn x xs)) xs
unfolding last_arfcn
Ascending-All b x [] h a = tt
Ascending-All b x (y ∷ ys) h a =
    ((omega (arith, h, a.0), last-ge y ys a.1), Ascending-All b y ys (omega (arith, h, a.0)) a.1)

module _ {ℓ κ} (P : ℕ → Type ℓ) (Q : ℕ → Type κ) where
  pub All-map : (f : ℕ → ℕ) (xs : List ℕ) → ((x : ℕ) → P x → Q (f x)) → All P xs → All Q (map f xs)
  All-map f [] h a = tt
  All-map f (x ∷ xs) h a = (h x a.0, All-map f xs h a.1)

  pub All-weaken : (xs : List ℕ) → ((x : ℕ) → P x → Q x) → All P xs → All Q xs
  All-weaken [] h a = tt
  All-weaken (x ∷ xs) h a = (h x a.0, All-weaken xs h a.1)

pub Ascending-below : (x y : ℕ) (xs : List ℕ) → Ascending x xs → y ≤ x → count y xs ≡ 0
Ascending-below x y [] a h = refl
Ascending-below x y (z ∷ zs) a h = ground (arith, a.0, Ascending-below z y zs a.1)

pub Ascending-once : (x y : ℕ) (xs : List ℕ) → Ascending x xs → count y xs ≤ 1
Ascending-once x y [] a = omega arith
Ascending-once x y (z ∷ zs) a =
    ground (arith, Ascending-once z y zs a.1, Ascending-below z y zs a.1)

pub offset-above : (f0 x : ℕ) → f0 < x → x < 1024 → offset f0 x ≡ x - f0 - 1
unfolding modulo
offset-above f0 x h k = ground arith

pub Ascending-offset :
    (f0 x : ℕ) (xs : List ℕ)
    → f0 < x
    → last_arfcn x xs < 1024
    → Ascending x xs
    → Ascending (offset f0 x) (map (offset f0) xs)
unfolding last_arfcn
Ascending-offset f0 x [] h k a = tt
Ascending-offset f0 x (y ∷ ys) h k a =
    let top = last-ge y ys a.1 in
    let e = offset-above f0 x h (omega (arith, top, a.0)) in
    let e' = offset-above f0 y (omega (arith, a.0)) (omega (arith, top)) in
    (omega (arith, e, e', a.0), Ascending-offset f0 y ys (omega (arith, a.0)) k a.1)

pub offsets-IsDistinct :
    (f0 : ℕ) (rest : List ℕ)
    → last_arfcn f0 rest < 1024
    → Ascending f0 rest
    → IsDistinct (map (offset f0) rest)
unfolding last_arfcn
offsets-IsDistinct f0 [] k a x = omega arith
offsets-IsDistinct f0 (y ∷ ys) k a x =
    let up = Ascending-offset f0 y ys a.0 k a.1 in
    ground (
      arith,
      Ascending-once (offset f0 y) x (map (offset f0) ys) up,
      Ascending-below (offset f0 y) x (map (offset f0) ys) up,
    )
