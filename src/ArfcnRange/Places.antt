-- ===== src/ArfcnRange/Places.antt =====
-- openbsc/src/libbsc/arfcn_range_encode.c: where `range_enc_arfcns` writes. The entries of the tree below an entry stand `step` apart, those of the left one at
-- the odd places and those of the right one at the even ones.
use openbsc.Base.{
  ℕ, zero, suc, ◌+◌, ◌-◌, ◌*◌, ◌/◌, ◌%◌, ◌≡◌, ◌≢◌, ◌≤◌, ◌<◌, ◌⊎◌, inl, inr, refl, sym, ap, ◌∙◌,
  some, List, length, get_or, set, length-set, get_or-set_self, get_or-set_ne, arith,
}
use native.Mathlib.Decide.{dec_lt, ℕ_discrete}
use native.Mathlib.Nat.{mul-le-mul_right}
use openbsc.ArfcnRange.{done, power_loop, greatest_power_of_2_lesser_or_equal_to, range_enc_arfcns}
use openbsc.ArfcnRange.Window.{count}
use openbsc.ArfcnRange.Levels.{shape, level, level-left, level-right}
use openbsc.ArfcnRange.Decode.{full, decode, entry, entry-left, entry-right, decode-ext}

-- The power of two after `n` doublings.
unfoldable pub doubled : ℕ → ℕ → ℕ
doubled zero p = p
doubled (suc n) p = doubled n (p * 2)

doubled-suc : (n p : ℕ) → doubled (suc n) p ≡ 2 * doubled n p
unfolding doubled
doubled-suc zero p = omega arith
doubled-suc (suc n) p = doubled-suc n (p * 2)

doubled-le : (n p : ℕ) → 0 < p → n + p ≤ doubled n p
unfolding doubled
doubled-le zero p h = omega arith
doubled-le (suc n) p h = omega (arith, doubled-le n (p * 2))

power_loop_lem :
    (n fuel p index : ℕ)
    → 0 < p
    → n < fuel
    → doubled n p ≤ index
    → index < 2 * doubled n p
    → power_loop fuel p index ≡ doubled n p
unfolding doubled power_loop
power_loop_lem n zero p index h f l u = absurd (omega arith)
power_loop_lem zero (suc fuel) p index h f l u = ground arith
power_loop_lem (suc n) (suc fuel) p index h f l u =
    ground (arith, doubled-le n (p * 2), power_loop_lem n fuel (p * 2) index)

power_lem :
    (n index : ℕ)
    → doubled n 1 ≤ index
    → index < 2 * doubled n 1
    → greatest_power_of_2_lesser_or_equal_to index ≡ doubled n 1
unfolding greatest_power_of_2_lesser_or_equal_to
power_lem n index l u =
    power_loop_lem n (suc index) 1 index (omega arith) (omega (arith, doubled-le n 1)) l u

-- The places of one tree are apart.
times-lt : (i j step : ℕ) → 0 < step → i < j → i * step < j * step
times-lt i j step h l = grind arith

entry-ne : (index step i j : ℕ) → 0 < step → i ≢ j → entry index step i ≢ entry index step j
entry-ne index step i j h n e = elim (dec_lt i j) [
  | yes l ↦ omega (arith, times-lt i j step h l)
  | no l ↦ elim (dec_lt j i) [
    | yes m ↦ omega (arith, times-lt j i step h m)
    | no m ↦ n (omega arith)
  ]
]

entry-le : (index step i j : ℕ) → i ≤ j → entry index step i ≤ entry index step j
entry-le index step i j h = grind (arith, mul-le-mul_right)

-- An entry is the root, or one of the left tree or of the right one.
child_of : (i : ℕ) → (i ≡ 0) ⊎ (((j : ℕ) × (i ≡ 1 + 2 * j)) ⊎ ((j : ℕ) × (i ≡ 2 + 2 * j)))
child_of zero = inl refl
child_of (suc i) = elim (ℕ_discrete (i % 2) 0) [
  | yes h ↦ inr (inl (i / 2, omega arith))
  | no h ↦ inr (inr (i / 2, omega arith))
]

level-root : (i : ℕ) → i ≡ 0 → (n : ℕ) → n - level i ≡ n
level-root i root n =
    let e : n - level i ≡ n - level 0 = ap (λ m. n - level m) root in
    e ∙ unfold shape in omega arith

-- An entry that the tree with `size` entries does not use.
abbrev pub Outside : ℕ → ℕ → ℕ → ℕ → Type 0
Outside index step size q = (i : ℕ) → i < size → q ≢ entry index step i

-- What the encoder does with the frequencies `xs`.
pub record Encoded (k : ℕ) (xs out : List ℕ) (index step : ℕ) : Type 0 where
  pub out' : List ℕ
  pub returns : range_enc_arfcns k (full k) xs out index ≡ some (done, out')
  pub decodes : (x : ℕ) → count x (decode k out' index step) ≡ count x xs
  pub keeps : (q : ℕ) → Outside index step (length xs) q → get_or out' q 0 ≡ get_or out q 0
  pub same_length : length out' ≡ length out
  pub fits : (i : ℕ) → get_or out' (entry index step i) 0 ≤ full (k - level i)

-- No entry of the tree is in use, and there is room for those that will be.
pub record IsFree (n : ℕ) (size : ℕ) (out : List ℕ) (index step : ℕ) : Type 0 where
  pub power : step ≡ doubled n 1
  pub low : step ≤ index + 1
  pub high : index + 1 < 2 * step
  pub empty : (i : ℕ) → get_or out (entry index step i) 0 ≡ 0
  pub room : (i : ℕ) → i < size → entry index step i < length out

-- The two trees below an entry, with the number `p` in it.
module _ (n size p : ℕ) (out : List ℕ) (index step : ℕ) (free : IsFree n size out index step) where
  abbrev pub out₁ : List ℕ
  out₁ = set out index (1 + p)

  step_pos : 0 < step
  step_pos = omega (arith, free.power, doubled-le n 1)

  pub power_index : greatest_power_of_2_lesser_or_equal_to (index + 1) ≡ step
  power_index =
      power_lem n (index + 1) (omega (arith, free.power, free.low))
        (omega (arith, free.power, free.high))
      ∙ sym free.power

  pub root-out₁ : 0 < size → get_or out₁ index 0 ≡ 1 + p
  root-out₁ h = get_or-set_self out index (1 + p) 0 (omega (arith, free.room 0 h))

  pub keeps-out₁ : (q : ℕ) → q ≢ index → get_or out₁ q 0 ≡ get_or out q 0
  keeps-out₁ q h = get_or-set_ne out index q (1 + p) 0 (λ e. h (sym e))

  empty-out₁ : (i : ℕ) → 0 < i → get_or out₁ (entry index step i) 0 ≡ 0
  empty-out₁ i h =
      keeps-out₁ (entry index step i)
        (λ e. entry-ne index step i 0 step_pos (omega arith) (e ∙ omega arith))
      ∙ free.empty i

  child-room : (i : ℕ) → i < size → entry index step i < length out₁
  child-room i h = omega (arith, free.room i h, length-set {0} out index (1 + p))

  pub left-IsFree : (l : ℕ) → 2 * l ≤ size → IsFree (suc n) l out₁ (index + step) (2 * step)
  left-IsFree l h = record {
    power = omega (arith, free.power, doubled-suc n 1);
    low = omega (arith, free.low);
    high = omega (arith, free.high, step_pos);
    empty = λ i. rw (entry-left index step i) (empty-out₁ (1 + 2 * i) (omega arith));
    room = λ i m. rw (entry-left index step i) (child-room (1 + 2 * i) (omega arith));
  }

  -- Of the entries below, the left tree uses the odd ones, the right tree the even ones.
  Outside-left :
      (l m : ℕ)
      → ((j : ℕ) → m ≢ 1 + 2 * j)
      → Outside (index + step) (2 * step) l (entry index step m)
  Outside-left l m odd j h e =
      entry-ne index step m (1 + 2 * j) step_pos (odd j) (e ∙ entry-left index step j)

  Outside-right :
      (r m : ℕ)
      → ((j : ℕ) → m ≢ 2 + 2 * j)
      → Outside (index + 2 * step) (2 * step) r (entry index step m)
  Outside-right r m even j h e =
      entry-ne index step m (2 + 2 * j) step_pos (even j) (e ∙ entry-right index step j)

  module _ (l r : ℕ) (out₂ : List ℕ)
      (keeps₂ : (q : ℕ) → Outside (index + step) (2 * step) l q → get_or out₂ q 0 ≡ get_or out₁ q 0)
      (same₂ : length out₂ ≡ length out₁) where
    pub right-IsFree : 2 * r + 1 ≤ size → IsFree (suc n) r out₂ (index + 2 * step) (2 * step)
    right-IsFree h = record {
      power = omega (arith, free.power, doubled-suc n 1);
      low = omega (arith, free.low);
      high = omega (arith, free.high, step_pos);
      empty = λ i. rw (entry-right index step i) (
          keeps₂ (entry index step (2 + 2 * i))
            (Outside-left l (2 + 2 * i) (λ j z. omega (arith, z)))
          ∙ empty-out₁ (2 + 2 * i) (omega arith));
      room = λ i m.
          rw (entry-right index step i)
            (omega (arith, same₂, child-room (2 + 2 * i) (omega arith)));
    }

    module _ (out₃ : List ℕ)
        (keeps₃ : (q : ℕ)
          → Outside (index + 2 * step) (2 * step) r q
          → get_or out₃ q 0 ≡ get_or out₂ q 0) where
      pub root-out₃ : 0 < size → get_or out₃ index 0 ≡ 1 + p
      root-out₃ h =
          ap (λ q. get_or out₃ q 0) z
          ∙ keeps₃ (entry index step 0) (Outside-right r 0 (λ j e. omega (arith, e)))
          ∙ keeps₂ (entry index step 0) (Outside-left l 0 (λ j e. omega (arith, e)))
          ∙ ap (λ q. get_or out₁ q 0) (sym z)
          ∙ root-out₁ h
        where
          z : index ≡ entry index step 0
          z = omega arith

      -- The entries of the node are its number and those of the two trees below.
      pub node-fits :
          (k : ℕ)
          → p < full (suc k)
          → 0 < size
          → ((i : ℕ) → get_or out₂ (entry (index + step) (2 * step) i) 0 ≤ full (k - level i))
          → ((i : ℕ) → get_or out₃ (entry (index + 2 * step) (2 * step) i) 0 ≤ full (k - level i))
          → (i : ℕ) → get_or out₃ (entry index step i) 0 ≤ full (suc k - level i)
      node-fits k h pos left right i = elim (child_of i) [
        | inl root ↦
            let z : entry index step i ≡ index = omega (arith, ap (λ (n : ℕ). n * step) root) in
            let top : suc k - level i ≡ suc k = level-root i root (suc k) in
            rw (top, z) (omega (arith, root-out₃ pos))
        | inr (inl (j, odd)) ↦
            let down : suc k - level i ≡ k - level j = rw odd (omega (arith, level-left j)) in
            let kept : get_or out₃ (entry index step i) 0
                ≡ get_or out₂ (entry (index + step) (2 * step) j) 0 =
              keeps₃ (entry index step i) (Outside-right r i (λ m e. omega (arith, e, odd)))
              ∙ ap (λ n. get_or out₂ (entry index step n) 0) odd
              ∙ ap (λ q. get_or out₂ q 0) (sym (entry-left index step j)) in
            rw (down, kept) (left j)
        | inr (inr (j, even)) ↦
            let down : suc k - level i ≡ k - level j = rw even (omega (arith, level-right j)) in
            let same : get_or out₃ (entry index step i) 0
                ≡ get_or out₃ (entry (index + 2 * step) (2 * step) j) 0 =
              ap (λ n. get_or out₃ (entry index step n) 0) even
              ∙ ap (λ q. get_or out₃ q 0) (sym (entry-right index step j)) in
            rw (down, same) (right j)
      ]

      -- The right tree leaves the left one as it is.
      pub decode-left :
          (k : ℕ)
          → decode k out₃ (index + step) (2 * step) ≡ decode k out₂ (index + step) (2 * step)
      decode-left k = decode-ext k out₃ out₂ (index + step) (2 * step) (λ i.
          rw (entry-left index step i) (
            keeps₃ (entry index step (1 + 2 * i))
              (Outside-right r (1 + 2 * i) (λ j e. omega (arith, e)))))

      pub keeps_all :
          2 * l ≤ size
          → 2 * r + 1 ≤ size
          → 0 < size
          → (q : ℕ) → Outside index step size q
          → get_or out₃ q 0 ≡ get_or out q 0
      keeps_all hl hr h q o =
          keeps₃ q (λ j m e. o (2 + 2 * j) (omega arith) (e ∙ entry-right index step j))
          ∙ keeps₂ q (λ j m e. o (1 + 2 * j) (omega arith) (e ∙ entry-left index step j))
          ∙ keeps-out₁ q (λ e. o 0 h (omega (arith, e)))
