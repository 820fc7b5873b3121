-- ===== src/ArfcnRange/Octets/Whole.antt =====
-- openbsc/src/libbsc/system_information.c: the octets of `range_encode` are read as a list of
-- frequencies.
use native.Mathlib.Decide.{dec_lt}
use openbsc.Base.{
  ℕ, suc, ◌+◌, ◌-◌, ◌≡◌, ◌≤◌, ◌<◌, sym, ap, ◌∙◌, false, some, some_inj, List, [], ◌∷◌, map, ◌==◌,
  if◌then◌else◌, length, replicate, All, length-map, length-append, All-append, arith,
}
use openbsc.ArfcnRange.{last_arfcn, range_enc_filter_arfcns, range_of, range_enc_determine_range}
use openbsc.ArfcnRange.Window.{count, same}
use openbsc.ArfcnRange.Decode.{full}
use openbsc.ArfcnRange.Filtered.{
  offset, Differs, with_excess, count-with_excess, range_encode-tree, range_encode-absent,
  filter-absent_flag,
}
use openbsc.ArfcnRange.Octets.{encode_entries, range_encode_octets}
use openbsc.ArfcnRange.Octets.Formats.{IsTree}
use openbsc.ArfcnRange.Octets.Ranges.{
  chan, RangeFormat, range128, range256, range512, depth, most, encode_format-read,
  encode_format-1024,
}
use openbsc.ArfcnRange.Octets.Read.{read_arfcns, read_freq_list}
use openbsc.ArfcnRange.Octets.Counts.{
  wrap, same-wrap, count-offset, count-high, count-read_arfcns, count-read_arfcns_high,
}
use openbsc.ArfcnRange.Octets.Ascending.{
  Ascending, last-ge, Ascending-All, All-map, All-weaken, offset-above, offsets-IsDistinct,
}

-- The lists that `range_enc_determine_range` puts into one of the formats with F0, with numbers that
-- lie in the range themselves, and with an entry to spare.
pub record InFormat (fm : RangeFormat) (f0 : ℕ) (rest : List ℕ) : Type 0 where
  pub ascending : Ascending f0 rest
  pub determined : range_enc_determine_range (f0 ∷ rest) ≡ some (some (full (depth fm)), f0)
  pub low : last_arfcn f0 rest < full (depth fm)
  pub spare : length rest < most fm

depth-le : (fm : RangeFormat) → full (depth fm) ≤ 511
unfolding full
depth-le range128 = omega arith
depth-le range256 = omega arith
depth-le range512 = omega arith

range_of-le :
    (fm : RangeFormat) (d n : ℕ) → range_of d n ≡ some (full (depth fm)) → d ≤ full (depth fm)
unfolding range_of full
range_of-le range128 d n e = ground arith
range_of-le range256 d n e = ground arith
range_of-le range512 d n e = ground arith

most-le : (fm : RangeFormat) → most fm ≤ 28
most-le range128 = omega arith
most-le range256 = omega arith
most-le range512 = omega arith

length-with_excess : (f0 : ℕ) (rest : List ℕ) → length (with_excess f0 rest) ≡ suc (length rest)
length-with_excess f0 rest = omega (
  arith,
  length-append (map (offset f0) rest) (last_arfcn f0 rest ∷ []),
  length-map rest (offset f0),
)

module _ (fm : RangeFormat) (f0 : ℕ) (rest : List ℕ) (h : InFormat fm f0 rest) where
  abbrev last : ℕ
  last = last_arfcn f0 rest

  near : last - f0 ≤ full (depth fm)
  unfolding range_enc_determine_range
  near = range_of-le fm (last - f0) (length (f0 ∷ rest)) (ap (λ r. r.0) (some_inj h.determined))

  others : All (λ x. (f0 < x) × (x ≤ last)) rest
  others = Ascending-All f0 f0 rest (omega arith) h.ascending

  below_1024 : last < 1024
  below_1024 = omega (arith, h.low, depth-le fm)

  rest_range : All (λ x. x < 1024) rest
  rest_range = All-weaken _ _ rest (λ x i. omega (arith, i, below_1024)) others

  differs : Differs f0 rest
  differs = All-weaken _ _ rest (λ x i. ground (arith, i)) others

  in_range : All (λ x. x < full (depth fm)) (map (offset f0) rest)
  in_range =
      All-map _ _ (offset f0) rest
        (λ x i.
          let e = offset-above f0 x i.0 (omega (arith, i, below_1024)) in omega (arith, e, i, near))
        others

  fresh : count last (map (offset f0) rest) ≡ 0
  fresh =
      count-high last last (map (offset f0) rest)
        (All-map _ _ (offset f0) rest
          (λ x i.
            let e = offset-above f0 x i.0 (omega (arith, i, below_1024)) in omega (arith, e, i))
          others)
        (omega arith)

  -- For an ascending list that range_enc_determine_range puts into the range 128, 256 or 512, whose
  -- highest frequency is a number of that range and which leaves an entry to spare, `range_encode`
  -- returns octets that are read, by 3GPP TS 44.018, as a list of these frequencies and of one
  -- more, the sum of the lowest frequency, the highest one and 1.
  pub range_encode_octets-excess :
      (a b c : ℕ) (l : List ℕ)
      → length (chan a b c l) ≡ 16
      → (o : List ℕ) × (arfcns : List ℕ) × (range_encode_octets
            (depth fm)
            (full (depth fm))
            (f0 ∷ rest)
            (replicate 29 0)
            f0
            (chan a b c l)
          ≡ some o)
        × (read_freq_list o ≡ some arfcns)
        × ((x : ℕ) → count x arfcns ≡ count x (f0 ∷ rest) + (if x == f0 + last + 1 then 1 else 0))
  unfolding range_encode_octets encode_entries
  range_encode_octets-excess a b c l sixteen =
      let k = depth fm in
      let below_f0 = last-ge f0 rest h.ascending in
      let (w, e, entries) =
        range_encode-tree k 29 f0 rest differs in_range h.low
          (offsets-IsDistinct f0 rest below_1024 h.ascending) fresh
          (omega (arith, h.spare, most-le fm)) in
      let tree : IsTree k (most fm) w = record {
        fits = entries.fits;
        few = λ i m. entries.few i (omega (arith, m, h.spare, length-with_excess f0 rest));
      } in
      let small : f0 < 1024 = omega (arith, below_f0, below_1024) in
      let (o, written, read) =
        encode_format-read a b c l w sixteen f0 small fm
          (range_enc_filter_arfcns (f0 ∷ rest) f0).f0_included tree in
      (
        o,
        f0 ∷ read_arfcns k f0 w,
        rw e written,
        read,
        λ x. elim (dec_lt x 1024) [
          | no m ↦
              let high : 1024 ≤ x = omega (arith, m) in
              let number = count-read_arfcns_high k f0 x w high in
              ground (arith, number, count-high 1024 x rest rest_range high, h.low, depth-le fm)
          | yes m ↦
              let number =
                count-read_arfcns k f0 x (with_excess f0 rest) w entries
                  (All-append (λ y. y < full k) (map (offset f0) rest) last in_range h.low)
                  (omega (arith, depth-le fm)) small m in
              let excess = same-wrap f0 x last small m below_1024 in
              let top : wrap f0 last ≡ f0 + last + 1 =
                omega (arith, h.low, depth-le fm, below_f0) in
              let those = count-offset f0 x rest small m rest_range in
              let both = count-with_excess f0 (offset f0 x) rest in
              omega (arith, number, both, those, excess, ap (same x) top)
        ],
      )

module _ (x : ℕ) (xs : List ℕ) (pos : 0 < x) (up : Ascending x xs)
    (top : last_arfcn x xs < 1024) where
  arfcns_range : All (λ y. (0 < y) × (y < 1024)) (x ∷ xs)
  arfcns_range =
      let above = last-ge x xs up in
      (
        (pos, omega (arith, above, top)),
        All-weaken _ _ xs (λ y i. (i.0, omega (arith, i.1, top)))
            (Ascending-All 0 x xs (omega arith) up),
      )

  no_zero : Differs 0 (x ∷ xs)
  no_zero = All-weaken _ _ (x ∷ xs) (λ y i. ground (arith, i)) arfcns_range

  numbers_range : All (λ y. y < full 10) (map (offset 0) (x ∷ xs))
  unfolding full
  numbers_range =
      All-map _ _ (offset 0) (x ∷ xs)
        (λ y i. let e = offset-above 0 y i.0 i.1 in omega (arith, e, i)) arfcns_range

  -- For at most 16 ascending frequencies from 1 to 1023, `range_encode` with the range 1024 and F0
  -- = 0 returns octets that are read, by 3GPP TS 44.018, as a list of just these frequencies, each
  -- as often as in the list, whatever the sixteen octets held before.
  pub range_encode_octets-exact :
      (a : ℕ) (l : List ℕ)
      → length (a ∷ l) ≡ 16
      → length (x ∷ xs) ≤ 16
      → (o : List ℕ) × (arfcns : List ℕ) × (range_encode_octets 10 1023
            (x ∷ xs)
            (replicate 29 0)
            0
            (a ∷ l)
          ≡ some o)
        × (read_freq_list o ≡ some arfcns)
        × ((y : ℕ) → count y arfcns ≡ count y (x ∷ xs))
  unfolding range_encode_octets encode_entries full
  range_encode_octets-exact a l sixteen few =
      let (w, e, entries) =
        range_encode-absent 10 29 0 (x ∷ xs) no_zero numbers_range
          (offsets-IsDistinct 0 (x ∷ xs) (unfold last_arfcn in top) (pos, up)) (omega arith) in
      let small : All (λ z. z < 1024) (x ∷ xs) =
        All-weaken _ _ (x ∷ xs) (λ z i. i.1) arfcns_range in
      let tree : IsTree 10 16 w = record {
        fits = entries.fits;
        few = λ i m. entries.few i (omega (arith, m, few, length-map (x ∷ xs) (offset 0)));
      } in
      let (o, written, read) = encode_format-1024 a l w sixteen tree false 0 in
      (
        o,
        read_arfcns 10 0 w,
        rw (e, filter-absent_flag 0 (x ∷ xs) no_zero) written,
        read,
        λ y. elim (dec_lt y 1024) [
          | no m ↦
              let high : 1024 ≤ y = omega (arith, m) in
              count-read_arfcns_high 10 0 y w high ∙ sym (count-high 1024 y (x ∷ xs) small high)
          | yes m ↦
              count-read_arfcns 10 0 y (map (offset 0) (x ∷ xs)) w entries numbers_range
                (omega arith) (omega arith) m
              ∙ count-offset 0 y (x ∷ xs) (omega arith) m small
        ],
      )
