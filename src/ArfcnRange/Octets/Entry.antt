-- ===== src/ArfcnRange/Octets/Entry.antt =====
-- openbsc/src/libbsc/arfcn_range_encode.c: the bits of one entry, as `write_all_wn` writes them and as
-- they are read.
use openbsc.Base.{
  ℕ, zero, suc, ◌+◌, ◌-◌, ◌*◌, ◌/◌, ◌^◌, ◌≤◌, ◌<◌, ◌≡◌, refl, ap, ◌∙◌, inl, inr, Bool, ◌&&◌, List,
  length, length-set, ltb, leb, ◌==◌, if◌then◌else◌, Bool-cases, arith,
}
use native.Mathlib.Nat.{pow-suc}
use openbsc.Base.Bits.{test_bit}
use openbsc.ArfcnRange.Octets.{Writer, cur_bits, write_slice, write_wk}
use openbsc.ArfcnRange.Octets.Slice.{
  bit_at, position, HasRoom, chan_list-slice, position-slice, in_octet-slice, bits-le, bits-pos,
  bit_at-slice,
}

-- Bits written from a position on, the highest one first, and all else kept.
pub record Written (wk left : ℕ) (s s' : Writer) : Type 0 where
  pub moved : position s' ≡ position s + left
  pub in_octet : s'.bit_offs < 8
  pub same_length : length s'.chan_list ≡ length s.chan_list
  pub bits :
      (p : ℕ)
      → bit_at s'.chan_list p ≡ (
          if leb (position s) p && ltb p (position s + left)
          then test_bit wk (left + position s - 1 - p)
          else bit_at s.chan_list p)

join_ranges :
    (a b c p : ℕ) (t x : Bool)
    → a ≤ b
    → b ≤ c
    → (if leb b p && ltb p c then t else if leb a p && ltb p b then t else x)
      ≡ (if leb a p && ltb p c then t else x)
join_ranges a b c p t x h k = ground arith

none-Written : (wk : ℕ) (s : Writer) → s.bit_offs < 8 → Written wk 0 s s
none-Written wk s h = record {
  moved = omega arith;
  in_octet = h;
  same_length = refl;
  bits = λ p. ground arith;
}

slice-HasRoom :
    (wk left : ℕ) (s : Writer)
    → HasRoom left s
    → HasRoom (left - cur_bits left s) (write_slice wk left s)
slice-HasRoom wk left s r = record {
  in_octet = in_octet-slice wk left s r.in_octet;
  room = omega (
    arith,
    r.room,
    position-slice wk left s r.in_octet,
    bits-le wk left s,
    ap length (chan_list-slice wk left s),
    length-set {0},
  );
}

slice-Written :
    (wk left : ℕ) (s s' : Writer)
    → HasRoom left s
    → 0 < left
    → Written wk (left - cur_bits left s) (write_slice wk left s) s'
    → Written wk left s s'
slice-Written wk left s s' r h w =
    let next = write_slice wk left s in
    let n = cur_bits left s in
    let few = bits-le wk left s in
    let moved = position-slice wk left s r.in_octet in
    let index : left - n + position next ≡ left + position s = omega arith in
    let end : position next + (left - n) ≡ position s + left = omega arith in
    record {
      moved = w.moved ∙ end;
      in_octet = w.in_octet;
      same_length =
          w.same_length ∙ ap length (chan_list-slice wk left s) ∙ length-set s.chan_list _ _;
      bits = λ p.
          w.bits p
          ∙ rw (index, end, moved, bit_at-slice wk left s r h p)
              (join_ranges (position s) (position s + n) (position s + left) p
                (test_bit wk (left + position s - 1 - p)) (bit_at s.chan_list p) (omega arith)
                (omega arith));
    }

pub write_wk-Written :
    (fuel wk left : ℕ) (s : Writer)
    → left ≤ fuel
    → HasRoom left s
    → Written wk left s (write_wk fuel wk left s)
unfolding write_wk
write_wk-Written zero wk left s h r =
    let e : left ≡ 0 = omega arith in rw e (none-Written wk s r.in_octet)
write_wk-Written (suc fuel) wk left s h r = elim (Bool-cases (left == 0)) [
  | inl t ↦ let e : left ≡ 0 = ground arith in rw e (none-Written wk s r.in_octet)
  | inr t ↦
      let some_left : 0 < left = ground arith in
      let some_bits = bits-pos wk left s r.in_octet some_left in
      rw (write_wk, t)
        (slice-Written wk left s _ r some_left (
          write_wk-Written fuel wk (left - cur_bits left s) (write_slice wk left s)
            (omega (arith, some_bits)) (slice-HasRoom wk left s r)))
]

-- The number in `n` bits from a position on.
unfoldable pub read_bits : List ℕ → ℕ → ℕ → ℕ
read_bits l pos zero = 0
read_bits l pos (suc n) = 2 * read_bits l pos n + (if bit_at l (pos + n) then 1 else 0)

pub read_bits-ext :
    (l m : List ℕ) (pos n : ℕ)
    → ((p : ℕ) → p < pos + n → bit_at l p ≡ bit_at m p)
    → read_bits l pos n ≡ read_bits m pos n
unfolding read_bits
read_bits-ext l m pos zero h = refl
read_bits-ext l m pos (suc n) h =
    rw (read_bits-ext l m pos n (λ p k. h p (omega arith)), h (pos + n) (omega arith)) refl

pub read_bits-value :
    (l : List ℕ) (pos n x : ℕ)
    → ((i : ℕ) → i < n → bit_at l (pos + i) ≡ test_bit x (n - 1 - i))
    → x < 2 ^ n
    → read_bits l pos n ≡ x
unfolding read_bits test_bit
read_bits-value l pos zero x h b = omega arith
read_bits-value l pos (suc n) x h b =
    let rest : read_bits l pos n ≡ x / 2 =
      read_bits-value l pos n (x / 2)
        (λ i k.
          let e : suc n - 1 - i ≡ suc (n - 1 - i) = omega arith in
          h i (omega arith) ∙ ap (test_bit x) e)
        (omega (arith, pow-suc 2 n)) in
    let last : bit_at l (pos + n) ≡ test_bit x 0 =
      let e : suc n - 1 - n ≡ 0 = omega arith in h n (omega arith) ∙ ap (test_bit x) e in
    ground (arith, rest, last)

-- An entry that fits is read where it has been written, and what is read before it is unchanged.
pub read_bits-Written :
    (wk left : ℕ) (s s' : Writer)
    → Written wk left s s'
    → wk < 2 ^ left
    → read_bits s'.chan_list (position s) left ≡ wk
read_bits-Written wk left s s' w h =
    read_bits-value s'.chan_list (position s) left wk
      (λ i k. w.bits (position s + i) ∙ ground arith) h
