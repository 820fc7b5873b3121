-- ===== src/ArfcnRange/Octets/Slice.antt =====
-- openbsc/src/libbsc/arfcn_range_encode.c: the bits that the inner loop of `write_all_wn` writes.
use openbsc.Base.{
  ℕ, ◌+◌, ◌-◌, ◌*◌, ◌/◌, ◌%◌, ◌^◌, ◌≤◌, ◌<◌, ◌≡◌, refl, ap, ◌∙◌, inl, inr, Bool, true, false, ◌&&◌,
  List, length, ltb, leb, ◌==◌, if◌then◌else◌, get_or, set, get_or-set_self, get_or-set_ne, ==→eq,
  ◌≢◌, bit_and, bit_or, Bool-cases, arith,
}
use openbsc.Base.Bits.{
  ◌<<<◌, ◌>>>◌, bit_not, test_bit, test_bit-or, test_bit-and, test_bit-not, test_bit-shr,
  test_bit-shl, test_bit-ones, shl-lt,
}
use native.Mathlib.Nat.{one-le-pow, pow-le-pow_right}
use openbsc.ArfcnRange.Octets.{Writer, cur_bits, write_slice}

-- Bit `p` of the octets, the highest bit of an octet first.
unfoldable pub bit_at : List ℕ → ℕ → Bool
bit_at l p = test_bit (get_or l (p / 8) 0) (7 - p % 8)

-- Where the next bit goes.
abbrev pub position : Writer → ℕ
position s = 8 * s.octet_offs + s.bit_offs

abbrev mask : ℕ → ℕ
mask bits = (1 <<< bits) - 1

-- The octet that a round leaves, where `rest` bits of the entry are left after it.
abbrev sliced : ℕ → ℕ → ℕ → ℕ → ℕ → ℕ
sliced o wk rest bits shift =
    bit_or (bit_and o (bit_not 8 (mask bits <<< shift)))
      (bit_and (wk >>> rest) (mask bits) <<< shift)

test_bit-mask : (bits k : ℕ) → test_bit (mask bits) k ≡ ltb k bits
test_bit-mask bits k =
    let e : mask bits ≡ 2 ^ bits - 1 = omega arith in
    ap (λ x. test_bit x k) e ∙ test_bit-ones bits k

mask-lt : (bits shift : ℕ) → shift + bits ≤ 8 → mask bits <<< shift < 2 ^ 8
mask-lt bits shift h =
    let small : mask bits < 2 ^ bits = omega (arith, one-le-pow bits 2) in
    let power : 2 ^ (shift + bits) ≤ 2 ^ 8 = pow-le-pow_right (omega arith) h in
    omega (arith, shl-lt bits shift (mask bits) small)

test_bit-sliced :
    (o wk rest bits shift k : ℕ)
    → shift + bits ≤ 8
    → k < 8
    → test_bit (sliced o wk rest bits shift) k ≡ (
        if leb shift k && ltb (k - shift) bits
        then test_bit wk (k - shift + rest)
        else test_bit o k)
test_bit-sliced o wk rest bits shift k h l =
    rw
      (
        test_bit-or (bit_and o (bit_not 8 (mask bits <<< shift)))
            (bit_and (wk >>> rest) (mask bits) <<< shift) k,
        test_bit-and o (bit_not 8 (mask bits <<< shift)) k,
        test_bit-not 8 k (mask bits <<< shift) (mask-lt bits shift h) l,
        test_bit-shl shift k (mask bits),
        test_bit-shl shift k (bit_and (wk >>> rest) (mask bits)),
        test_bit-and (wk >>> rest) (mask bits) (k - shift),
        test_bit-mask bits (k - shift),
        test_bit-shr rest (k - shift) wk,
      )
      (ground arith)

if-ext :
    (c d : Bool) (wk i j : ℕ) (x : Bool)
    → c ≡ d
    → (c ≡ true → i ≡ j)
    → (if c then test_bit wk i else x) ≡ (if d then test_bit wk j else x)
if-ext true true wk i j x e h = ap (test_bit wk) (h refl)
if-ext false false wk i j x e h = refl
if-ext true false wk i j x e h = cc
if-ext false true wk i j x e h = cc

-- The bits of an octet from its own lowest one and from the highest one of the list.
module _ (p o b n : ℕ) (at : p / 8 ≡ o) (fit : b + n ≤ 8) where
  from_low : Bool
  from_low = leb (8 - (b + n)) (7 - p % 8) && ltb (7 - p % 8 - (8 - (b + n))) n

  from_high : Bool
  from_high = leb (8 * o + b) p && ltb p (8 * o + b + n)

  from_low-from_high : 0 < n → from_low ≡ from_high
  unfolding from_low from_high
  from_low-from_high h = ground arith

  index_from_low :
      (left : ℕ)
      → n ≤ left
      → from_low ≡ true
      → 7 - p % 8 - (8 - (b + n)) + (left - n) ≡ left + (8 * o + b) - 1 - p
  unfolding from_low
  index_from_low left h e = ground arith

-- What a writer can go on with: the next bit lies in an octet, and there are `n` more.
pub record HasRoom (n : ℕ) (s : Writer) : Type 0 where
  pub in_octet : s.bit_offs < 8
  pub room : position s + n ≤ 8 * length s.chan_list

module _ (wk left : ℕ) (s : Writer) where
  abbrev next : Writer
  next = write_slice wk left s

  abbrev bits : ℕ
  bits = cur_bits left s

  abbrev octet : ℕ
  octet = sliced (get_or s.chan_list s.octet_offs 0) wk (left - bits) bits (8 - (s.bit_offs + bits))

  pub chan_list-slice : next.chan_list ≡ set s.chan_list s.octet_offs octet
  unfolding write_slice
  chan_list-slice = ground arith

  pub position-slice : s.bit_offs < 8 → position next ≡ position s + bits
  unfolding write_slice cur_bits
  position-slice h = ground arith

  pub in_octet-slice : s.bit_offs < 8 → next.bit_offs < 8
  unfolding write_slice cur_bits
  in_octet-slice h = ground arith

  pub bits-le : bits ≤ left
  unfolding cur_bits
  bits-le = omega arith

  pub bits-pos : s.bit_offs < 8 → 0 < left → 0 < bits
  unfolding cur_bits
  bits-pos h p = omega arith

  bits-fit : s.bit_offs < 8 → s.bit_offs + bits ≤ 8
  unfolding cur_bits
  bits-fit h = omega arith

  pub bit_at-slice :
      HasRoom left s
      → 0 < left
      → (p : ℕ)
      → bit_at next.chan_list p ≡ (
          if leb (position s) p && ltb p (position s + bits)
          then test_bit wk (left + position s - 1 - p)
          else bit_at s.chan_list p)
  unfolding bit_at from_low from_high
  bit_at-slice r h p = elim (Bool-cases (p / 8 == s.octet_offs)) [
    | inl here ↦
        let at : p / 8 ≡ s.octet_offs = ==→eq (p / 8) s.octet_offs here in
        let inside : s.octet_offs < length s.chan_list = omega (arith, r.in_octet, r.room) in
        let written : get_or next.chan_list (p / 8) 0 ≡ octet =
          ap (λ l. get_or l (p / 8) 0) chan_list-slice
          ∙ ap (λ i. get_or (set s.chan_list s.octet_offs octet) i 0) at
          ∙ get_or-set_self s.chan_list s.octet_offs octet 0 inside in
        let old : get_or s.chan_list (p / 8) 0 ≡ get_or s.chan_list s.octet_offs 0 =
          ap (λ i. get_or s.chan_list i 0) at in
        let fit = bits-fit r.in_octet in
        let some_bits = bits-pos r.in_octet h in
        rw (written, old)
          (test_bit-sliced (get_or s.chan_list s.octet_offs 0) wk (left - bits) bits
              (8 - (s.bit_offs + bits)) (7 - p % 8) (omega (arith, fit)) (omega arith)
            ∙ if-ext (from_low p s.octet_offs s.bit_offs bits at fit)
                (from_high p s.octet_offs s.bit_offs bits at fit) wk _ _ _
                (from_low-from_high p s.octet_offs s.bit_offs bits at fit some_bits)
                (index_from_low p s.octet_offs s.bit_offs bits at fit left bits-le))
    | inr there ↦
        let apart : s.octet_offs ≢ p / 8 = ground arith in
        let outside : (leb (position s) p && ltb p (position s + bits)) ≡ false =
          ground (arith, bits-fit r.in_octet) in
        let kept : get_or next.chan_list (p / 8) 0 ≡ get_or s.chan_list (p / 8) 0 =
          ap (λ l. get_or l (p / 8) 0) chan_list-slice
          ∙ get_or-set_ne s.chan_list s.octet_offs (p / 8) octet 0 apart in
        rw (kept, outside) refl
  ]
