-- ===== src/ArfcnRange/Octets/Formats.antt =====
-- openbsc/src/libbsc/arfcn_range_encode.c: what is read from the octets of range_enc_range*.
use openbsc.Base.{
  ℕ, zero, suc, ◌+◌, ◌-◌, ◌*◌, ◌/◌, ◌%◌, ◌^◌, ◌≤◌, ◌<◌, ◌≡◌, refl, sym, ap, ◌∙◌, inl, inr, true,
  false, List, [], ◌∷◌, map, length, ltb, get_or, bit_and, bit_or, Bool-cases, arith,
}
use native.Mathlib.Nat.{pow-suc}
use openbsc.Base.Bits.{
  ◌>>>◌, test_bit, test_bit-or, test_bit-and, test_bit-shr, test_bit-shl, test_bit-mod,
  test_bit-zero,
}
use openbsc.ArfcnRange.Decode.{full, decode-ext, entry}
use openbsc.ArfcnRange.Levels.{shape, level}
use openbsc.ArfcnRange.Octets.{Writer, write_orig_arfcn, write_head, write_all_wn}
use openbsc.ArfcnRange.Octets.Slice.{bit_at}
use openbsc.ArfcnRange.Octets.Entry.{read_bits, read_bits-ext, read_bits-value}
use openbsc.ArfcnRange.Octets.Levels.{place, Entries, write_all_wn-Entries}
use openbsc.ArfcnRange.Octets.Read.{read_entries, get_or-read_entries, read_arfcns, read_range}

high_bit : (x y k : ℕ) → test_bit (bit_or x (bit_and y 1)) (suc k) ≡ test_bit x (suc k)
high_bit x y k =
    let one : test_bit 1 (suc k) ≡ false = unfold test_bit in test_bit-zero k in
    rw (test_bit-or x (bit_and y 1) (suc k), test_bit-and y 1 (suc k), one) (ground arith)

low_bit : (x y : ℕ) → test_bit x 0 ≡ false → test_bit (bit_or x (bit_and y 1)) 0 ≡ test_bit y 0
low_bit x y h =
    let one : test_bit 1 0 ≡ true = unfold test_bit in refl in
    rw (test_bit-or x (bit_and y 1) 0, test_bit-and y 1 0, h, one) (ground arith)

-- The highest nine bits of F0 after the format, and its lowest one.
module _ (code f0 a b c : ℕ) (l : List ℕ) where
  abbrev head : List ℕ
  head = write_head code (a ∷ (b ∷ (c ∷ l))) f0

  length-head : length head ≡ length (a ∷ (b ∷ (c ∷ l)))
  unfolding write_head write_orig_arfcn
  length-head = refl

  -- The bits of the format are not changed by F0.
  bit_at-format : (p : ℕ) → p < 7 → bit_at head p ≡ bit_at (code ∷ []) p
  unfolding write_head write_orig_arfcn bit_at
  bit_at-format p h =
      let first : p / 8 ≡ 0 = omega arith in
      let k : 7 - p % 8 ≡ suc (6 - p) = omega arith in
      rw (first, k) (high_bit code (f0 >>> 9) (6 - p))

  bit_at-f0 : test_bit code 0 ≡ false → (i : ℕ) → i < 10 → bit_at head (7 + i) ≡ test_bit f0 (9 - i)
  unfolding write_head write_orig_arfcn bit_at
  bit_at-f0 even zero h = low_bit code (f0 >>> 9) even ∙ test_bit-shr 9 0 f0
  bit_at-f0 even (suc i) h = elim (Bool-cases (ltb i 8)) [
    | inl t ↦
        let second : (7 + suc i) / 8 ≡ 1 = ground arith in
        let k : 7 - (7 + suc i) % 8 ≡ 7 - i = ground arith in
        let low : ltb (7 - i) 8 ≡ true = ground arith in
        let j : 7 - i + 1 ≡ 9 - suc i = ground arith in
        rw (second, k, test_bit-mod 8 (7 - i) (f0 >>> 1), low, test_bit-shr 1 (7 - i) f0, j)
          (ground arith)
    | inr t ↦
        let last : i ≡ 8 = ground arith in
        let one : test_bit 1 0 ≡ true = unfold test_bit in refl in
        rw (last, test_bit-shl 7 7 (bit_and f0 1), test_bit-and f0 1 0, one) (ground arith)
  ]

full-lt : (n : ℕ) → full n < 2 ^ n
unfolding full
full-lt zero = omega arith
full-lt (suc n) = omega (arith, full-lt n, pow-suc 2 n)

-- The entries are those of a tree of `k` levels, and there are no more than `size` of them.
pub record IsTree (k size : ℕ) (w : List ℕ) : Type 0 where
  pub fits : (i : ℕ) → get_or w i 0 ≤ full (k - level i)
  pub few : (i : ℕ) → size ≤ i → get_or w i 0 ≡ 0

module _ (w : List ℕ) (k size base : ℕ) (s s' : Writer) (written : Entries w k size 0 base s s')
    (tree : IsTree k size w) where
  read_entries-written :
      (i : ℕ) → get_or (read_entries s'.chan_list base k 0 size) i 0 ≡ get_or w i 0
  read_entries-written i =
      get_or-read_entries s'.chan_list base k 0 size i ∙ elim (Bool-cases (ltb i size)) [
        | inl t ↦
            let e : 0 + i ≡ i = omega arith in
            rw (t, e)
              (written.reads i (omega arith) (ground arith)
                (omega (arith, tree.fits i, full-lt (k - level i))))
        | inr t ↦ rw t (sym (tree.few i (ground arith)))
      ]

  pub read_arfcns-written :
      (f0 : ℕ) → read_arfcns k f0 (read_entries s'.chan_list base k 0 size) ≡ read_arfcns k f0 w
  unfolding read_arfcns
  read_arfcns-written f0 = ap (map (λ x. (x + f0 + 1) % 1024)) (
      decode-ext k (read_entries s'.chan_list base k 0 size) w 0 1
        (λ i. read_entries-written (entry 0 1 i)))

-- The formats that begin with F0.
module _ (code f0 a b c : ℕ) (l w : List ℕ) (k size : ℕ) (even : test_bit code 0 ≡ false)
    (small : f0 < 1024) (room : 17 + place k (shape size) ≤ 8 * length (a ∷ (b ∷ (c ∷ l))))
    (tree : IsTree k size w) where
  abbrev octets : List ℕ
  octets = write_all_wn (head code f0 a b c l) 2 1 w size k

  written :
      (s' : Writer) × (octets ≡ s'.chan_list)
      × Entries w k size 0 17
          (record { chan_list = head code f0 a b c l; octet_offs = 2; bit_offs = 1 })
          s'
  written =
      write_all_wn-Entries (head code f0 a b c l) 2 1 w size k (omega arith)
        (omega (arith, room, ap (λ (n : ℕ). 8 * n) (length-head code f0 a b c l)))

  bit_at-octets : (p : ℕ) → p < 17 → bit_at octets p ≡ bit_at (head code f0 a b c l) p
  bit_at-octets p h = let (s', e, entries) = written in ap (λ o. bit_at o p) e ∙ entries.before p h

  pub read_format : (p n : ℕ) → p + n ≤ 7 → read_bits octets p n ≡ read_bits (code ∷ []) p n
  read_format p n h =
      read_bits-ext octets (code ∷ []) p n
        (λ q m. bit_at-octets q (omega arith) ∙ bit_at-format code f0 a b c l q (omega arith))

  read_f0 : read_bits octets 7 10 ≡ f0
  read_f0 =
      read_bits-value octets 7 10 f0
        (λ i h. bit_at-octets (7 + i) (omega arith) ∙ bit_at-f0 code f0 a b c l even i h)
        (omega arith)

  pub read_range-octets : read_range octets k size ≡ f0 ∷ read_arfcns k f0 w
  unfolding read_range
  read_range-octets =
      let (s', e, entries) = written in
      let others : read_arfcns k f0 (read_entries octets 17 k 0 size) ≡ read_arfcns k f0 w =
        ap (λ o. read_arfcns k f0 (read_entries o 17 k 0 size)) e
        ∙ read_arfcns-written w k size 17 _ s' entries tree f0 in
      rw (read_f0, others) refl
