-- ===== src/ArfcnRange/Octets/Levels.antt =====
-- openbsc/src/libbsc/arfcn_range_encode.c: where `write_all_wn` puts the entries.
use openbsc.Base.{
  ℕ, zero, suc, ◌+◌, ◌-◌, ◌*◌, ◌^◌, ◌≤◌, ◌<◌, ◌≡◌, refl, sym, ap, ◌∙◌, inl, inr, true, false, List,
  length, ◌==◌, get_or, Bool-cases, arith,
}
use openbsc.ArfcnRange.Levels.{shape, shape_lem}
use openbsc.ArfcnRange.Octets.{Writer, write_wk, write_levels, write_all_wn}
use openbsc.ArfcnRange.Octets.Slice.{bit_at, position}
use openbsc.ArfcnRange.Octets.Entry.{
  Written, write_wk-Written, read_bits, read_bits-ext, read_bits-Written,
}

-- The bits before a level: 2 ^ i entries of `w1_len - i` bits each for every level above.
unfoldable pub level_start : ℕ → ℕ → ℕ
level_start w1_len zero = 0
level_start w1_len (suc i) = level_start w1_len i + 2 ^ i * (w1_len - i)

-- The first bit of an entry, from the start of the entries on.
unfoldable pub place : ℕ → ℕ × ℕ → ℕ
unfolding level_start
place w1_len (i, j) = level_start w1_len i + j * (w1_len - i)

-- The number of its bits.
abbrev pub width : ℕ → ℕ → ℕ
width w1_len k = w1_len - (shape k).0

one_more : (j d : ℕ) → (j + 1) * d ≡ j * d + d
one_more j d = grind arith

pub place-next :
    (w1_len k : ℕ) → place w1_len (shape (suc k)) ≡ place w1_len (shape k) + width w1_len k
unfolding place level_start shape
place-next w1_len k = elim (Bool-cases ((shape k).1 + 1 == 2 ^ (shape k).0)) [
  | inl t ↦
      let e : 2 ^ (shape k).0 ≡ (shape k).1 + 1 = ground arith in
      rw t
        (omega (arith, ap (λ (n : ℕ). n * width w1_len k) e, one_more (shape k).1 (width w1_len k)))
  | inr t ↦ rw t (omega (arith, one_more (shape k).1 (width w1_len k)))
]

module _ (w : List ℕ) (w1_len : ℕ) where
  -- The outer loop from the entry at index `k` on.
  unfoldable pub write_from : ℕ → ℕ → Writer → Writer
  write_from rounds k s =
      write_levels rounds w k (width w1_len k) (shape k).0 (2 ^ (shape k).0 - (shape k).1) s

  write_levels-same :
      (rounds k : ℕ) (s : Writer) (a b c a' b' c' : ℕ)
      → a ≡ a'
      → b ≡ b'
      → c ≡ c'
      → write_levels rounds w k a b c s ≡ write_levels rounds w k a' b' c' s
  write_levels-same rounds k s a b c a' b' c' e f g = rw (e, f, g) refl

  write_from-suc :
      (rounds k : ℕ) (s : Writer)
      → write_from (suc rounds) k s
        ≡ write_from rounds (suc k) (write_wk (width w1_len k) (get_or w k 0) (width w1_len k) s)
  unfolding write_from write_levels shape
  write_from-suc rounds k s =
      let written = write_wk (width w1_len k) (get_or w k 0) (width w1_len k) s in
      let below = (shape_lem k).0 in
      elim (Bool-cases ((shape k).1 + 1 == 2 ^ (shape k).0)) [
        | inl t ↦
            let full_level : (2 ^ (shape k).0 - (shape k).1 - 1 == 0) ≡ true = ground arith in
            let e : (shape k).0 + 1 ≡ suc (shape k).0 = omega arith in
            let power = ap (λ (n : ℕ). 2 ^ n) e in
            rw (write_from, write_levels, t, full_level)
              (write_levels-same rounds (suc k) written _ _ _ _ _ _ (omega arith) (omega arith)
                (omega (arith, power)))
        | inr t ↦
            let more : (2 ^ (shape k).0 - (shape k).1 - 1 == 0) ≡ false = ground arith in
            rw (write_from, write_levels, t, more)
              (write_levels-same rounds (suc k) written _ _ _ _ _ _ refl refl (omega arith))
      ]

  -- What has been written from the entry at index `k` on: nothing before it changes, and the entries
  -- that fit can be read.
  pub record Entries (rounds k : ℕ) (base : ℕ) (s s' : Writer) : Type 0 where
    pub same_length : length s'.chan_list ≡ length s.chan_list
    pub before : (p : ℕ) → p < position s → bit_at s'.chan_list p ≡ bit_at s.chan_list p
    pub reads :
        (m : ℕ)
        → k ≤ m
        → m < k + rounds
        → get_or w m 0 < 2 ^ width w1_len m
        → read_bits s'.chan_list (base + place w1_len (shape m)) (width w1_len m) ≡ get_or w m 0

  place-le : (k n : ℕ) → place w1_len (shape k) ≤ place w1_len (shape (k + n))
  place-le k zero = let e : k + 0 ≡ k = omega arith in rw e (omega arith)
  place-le k (suc n) =
      let e : k + suc n ≡ suc (k + n) = omega arith in
      rw e (omega (arith, place-le k n, place-next w1_len (k + n)))

  step-Entries :
      (rounds k base : ℕ) (s t s' : Writer)
      → position s ≡ base + place w1_len (shape k)
      → Written (get_or w k 0) (width w1_len k) s t
      → Entries rounds (suc k) base t s'
      → Entries (suc rounds) k base s s'
  step-Entries rounds k base s t s' at here rest = record {
    same_length = rest.same_length ∙ here.same_length;
    before = λ p h. rest.before p (omega (arith, here.moved)) ∙ here.bits p ∙ ground arith;
    reads = λ m low high fits. elim (Bool-cases (m == k)) [
      | inl this ↦
          let e : m ≡ k = ground arith in
          let fits' : get_or w k 0 < 2 ^ width w1_len k = rw (← e) fits in
          let start = base + place w1_len (shape k) in
          rw e (
            read_bits-ext s'.chan_list t.chan_list start (width w1_len k)
              (λ p h. rest.before p (omega (arith, here.moved, at)))
            ∙ ap (λ q. read_bits t.chan_list q (width w1_len k)) (sym at)
            ∙ read_bits-Written (get_or w k 0) (width w1_len k) s t here fits')
      | inr later ↦ rest.reads m (ground arith) (omega arith) fits
    ];
  }

  write_from-Entries :
      (rounds k base : ℕ) (s : Writer)
      → position s ≡ base + place w1_len (shape k)
      → s.bit_offs < 8
      → base + place w1_len (shape (k + rounds)) ≤ 8 * length s.chan_list
      → Entries rounds k base s (write_from rounds k s)
  write_from-Entries zero k base s at octet room =
      unfold write_from write_levels in
      record {
        same_length = refl;
        before = λ p h. refl;
        reads = λ m low high. absurd (omega arith);
      }
  write_from-Entries (suc rounds) k base s at octet room =
      let n = width w1_len k in
      let t = write_wk n (get_or w k 0) n s in
      let next = place-next w1_len k in
      let later = place-le (suc k) rounds in
      let e : k + suc rounds ≡ suc k + rounds = omega arith in
      let room' : base + place w1_len (shape (suc k + rounds)) ≤ 8 * length s.chan_list =
        rw (← e) room in
      let here =
        write_wk-Written n (get_or w k 0) n s (omega arith)
          (record { in_octet = octet; room = omega (arith, at, next, later, room') }) in
      rw (write_from-suc rounds k s) (
        step-Entries rounds k base s t (write_from rounds (suc k) t) at here (
          write_from-Entries rounds (suc k) base t (omega (arith, at, next, here.moved))
            here.in_octet (omega (arith, room', here.same_length))))

-- The octets after all entries, the first of which goes to bit `8 * octet_offs + bit_offs`.
pub write_all_wn-Entries :
    (l : List ℕ) (octet_offs bit_offs : ℕ) (w : List ℕ) (size w1_len : ℕ)
    → bit_offs < 8
    → 8 * octet_offs + bit_offs + place w1_len (shape size) ≤ 8 * length l
    → (s' : Writer) × (write_all_wn l octet_offs bit_offs w size w1_len ≡ s'.chan_list)
      × Entries w w1_len size 0
          (8 * octet_offs + bit_offs)
          (record { chan_list = l; octet_offs = octet_offs; bit_offs = bit_offs })
          s'
unfolding write_all_wn write_from shape
write_all_wn-Entries l octet_offs bit_offs w size w1_len octet room =
    let s : Writer = record { chan_list = l; octet_offs = octet_offs; bit_offs = bit_offs } in
    let start : place w1_len (shape 0) ≡ 0 = unfold place level_start shape in omega arith in
    let all : w1_len - 0 ≡ w1_len = omega arith in
    let n : 0 + size ≡ size = omega arith in
    (
      write_from w w1_len size 0 s,
      rw all refl,
      write_from-Entries w w1_len size 0 (8 * octet_offs + bit_offs) s (omega (arith, start)) octet
          (rw n room),
    )
