-- ===== src/ArfcnRange/Levels.antt =====
-- openbsc/src/libbsc/arfcn_range_encode.c: the levels of the tree of entries. The entry at index `k`
-- is the entry W(k + 1) of 3GPP TS 44.018.
use openbsc.Base.{ℕ, zero, suc, ◌+◌, ◌*◌, ◌^◌, ◌≤◌, ◌<◌, ◌≡◌, ◌==◌, if◌then◌else◌, arith}
use native.Mathlib.Decide.{dec_lt}
use native.Mathlib.Nat.{pow-suc, pow-le-pow_right}

-- The level of the entry at an index and its place in the level.
unfoldable pub shape : ℕ → ℕ × ℕ
shape zero = (0, 0)
shape (suc k) = let (i, j) = shape k in if j + 1 == 2 ^ i then (suc i, 0) else (i, j + 1)

pub shape_lem : (k : ℕ) → ((shape k).1 < 2 ^ (shape k).0) × (2 ^ (shape k).0 + (shape k).1 ≡ k + 1)
unfolding shape
shape_lem zero = (omega arith, omega arith)
shape_lem (suc k) = ground (arith, shape_lem k, pow-suc 2 (shape k).0)

abbrev pub level : ℕ → ℕ
level k = (shape k).0

level-le : (n m k : ℕ) → 2 ^ n ≤ k → k < 2 ^ suc m → n ≤ m
level-le n m k low high = elim (dec_lt m n) [
  | yes h ↦ absurd (omega (arith, pow-le-pow_right {n = 2} (omega arith) h))
  | no h ↦ omega arith
]

level_unique : (n k : ℕ) → 2 ^ n ≤ k + 1 → k + 1 < 2 ^ suc n → level k ≡ n
level_unique n k low high =
    let (a, b) = shape_lem k in
    omega (
      arith,
      level-le n (level k) (k + 1) low (omega (arith, a, b, pow-suc 2 (level k))),
      level-le (level k) n (k + 1) (omega (arith, b)) high,
    )

pub level-left : (j : ℕ) → level (1 + 2 * j) ≡ suc (level j)
level-left j =
    let (a, b) = shape_lem j in
    let p = pow-suc 2 (level j) in
    level_unique (suc (level j)) (1 + 2 * j) (omega arith)
      (omega (arith, pow-suc 2 (suc (level j))))

pub level-right : (j : ℕ) → level (2 + 2 * j) ≡ suc (level j)
level-right j =
    let (a, b) = shape_lem j in
    let p = pow-suc 2 (level j) in
    level_unique (suc (level j)) (2 + 2 * j) (omega arith)
      (omega (arith, pow-suc 2 (suc (level j))))
