-- ===== src/ArfcnRange/Octets/Counts.antt =====
-- openbsc/src/libbsc/system_information.c: the numbers of a tree as frequencies.
use openbsc.Base.{ℕ, ◌+◌, ◌%◌, ◌≡◌, ◌≤◌, ◌<◌, refl, ◌∙◌, List, [], ◌∷◌, map, All, arith}
use openbsc.ArfcnRange.{modulo}
use openbsc.ArfcnRange.Window.{count, same}
use openbsc.ArfcnRange.Decode.{full, decode, All-count}
use openbsc.ArfcnRange.Filtered.{offset, StandsFor}
use openbsc.ArfcnRange.Octets.Read.{read_arfcns}

-- The frequency that a number of the tree stands for.
abbrev pub wrap : ℕ → ℕ → ℕ
wrap f0 x = (x + f0 + 1) % 1024

pub same-wrap :
    (f0 x d : ℕ) → f0 < 1024 → x < 1024 → d < 1024 → same x (wrap f0 d) ≡ same (offset f0 x) d
unfolding modulo
same-wrap f0 x d h k l = ground arith

same-offset :
    (f0 x y : ℕ) → f0 < 1024 → x < 1024 → y < 1024 → same (offset f0 x) (offset f0 y) ≡ same x y
unfolding modulo
same-offset f0 x y h k l = ground arith

pub count-wrap :
    (f0 x : ℕ) (ds : List ℕ)
    → f0 < 1024
    → x < 1024
    → All (λ d. d < 1024) ds
    → count x (map (wrap f0) ds) ≡ count (offset f0 x) ds
count-wrap f0 x [] h k a = refl
count-wrap f0 x (d ∷ ds) h k a = omega (arith, same-wrap f0 x d h k a.0, count-wrap f0 x ds h k a.1)

pub count-offset :
    (f0 x : ℕ) (ys : List ℕ)
    → f0 < 1024
    → x < 1024
    → All (λ y. y < 1024) ys
    → count (offset f0 x) (map (offset f0) ys) ≡ count x ys
count-offset f0 x [] h k a = refl
count-offset f0 x (y ∷ ys) h k a =
    omega (arith, same-offset f0 x y h k a.0, count-offset f0 x ys h k a.1)

pub count-high : (d x : ℕ) (xs : List ℕ) → All (λ y. y < d) xs → d ≤ x → count x xs ≡ 0
count-high d x [] a h = refl
count-high d x (y ∷ ys) a h = ground (arith, a.0, count-high d x ys a.1 h)

pub count-read_arfcns :
    (k f0 x : ℕ) (numbers w : List ℕ)
    → StandsFor k numbers w
    → All (λ y. y < full k) numbers
    → full k ≤ 1024
    → f0 < 1024
    → x < 1024
    → count x (read_arfcns k f0 w) ≡ count (offset f0 x) numbers
unfolding read_arfcns
count-read_arfcns k f0 x numbers w s a small h l =
    count-wrap f0 x (decode k w 0 1) h l (
      All-count 1024 (decode k w 0 1)
        (λ y m. s.decodes y ∙ count-high (full k) y numbers a (omega (arith, m, small))))
    ∙ s.decodes (offset f0 x)

wrap-All : (f0 : ℕ) (ds : List ℕ) → All (λ y. y < 1024) (map (wrap f0) ds)
wrap-All f0 [] = tt
wrap-All f0 (d ∷ ds) = (omega arith, wrap-All f0 ds)

-- No number from 1024 on is ever read.
pub count-read_arfcns_high : (k f0 x : ℕ) (w : List ℕ) → 1024 ≤ x → count x (read_arfcns k f0 w) ≡ 0
unfolding read_arfcns
count-read_arfcns_high k f0 x w h =
    count-high 1024 x (map (wrap f0) (decode k w 0 1)) (wrap-All f0 (decode k w 0 1)) h
