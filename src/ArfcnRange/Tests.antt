-- ===== src/ArfcnRange/Tests.antt =====
-- Runs of openbsc/src/libbsc/arfcn_range_encode.c, and its theorems at concrete frequencies.
use openbsc.Base.{
  ℕ, ◌+◌, ◌≡◌, refl, ap, Bool, false, ◌&&◌, ◌||◌, ltb, none, some, List, [], ◌∷◌, map, ◌==◌,
  if◌then◌else◌, length, get_or, replicate, arith,
}
use openbsc.ArfcnRange.{
  done, modulo, greatest_power_of_2_lesser_or_equal_to, range_enc_find_index, range_enc_arfcns,
  range_encode, last_arfcn, range_enc_determine_range,
}
use openbsc.ArfcnRange.Window.{count}
use openbsc.ArfcnRange.Split.{IsDistinct}
use openbsc.ArfcnRange.Decode.{full, decode}
use openbsc.ArfcnRange.RoundTrip.{range_enc_arfcns-decode}
use openbsc.ArfcnRange.Levels.{shape}
use openbsc.ArfcnRange.Filtered.{offset}
use openbsc.Base.Bits.{bit_not, test_bit}
use openbsc.ArfcnRange.Octets.{
  write_orig_arfcn, cur_bits, write_slice, write_wk, write_levels, write_all_wn, write_head,
  range_enc_range128, range_enc_range1024, encode_format, encode_entries, range_encode_octets,
}
use openbsc.ArfcnRange.Octets.Slice.{bit_at}
use openbsc.ArfcnRange.Octets.Entry.{read_bits}
use openbsc.ArfcnRange.Octets.Levels.{level_start, place}
use openbsc.ArfcnRange.Octets.Read.{
  read_arfcns, read_entries, read_range, read_range1024, read_freq_list,
}
use openbsc.ArfcnRange.Octets.Ranges.{chan, range128}
use openbsc.ArfcnRange.Octets.Whole.{InFormat, range_encode_octets-excess}
use openbsc.ArfcnRange.Octets.Select.{
  BtsBand, band_compatible, use_arfcn, encoded, fault, enc_freq_lst_range, used_from,
}
use openbsc.ArfcnRange.Octets.Announced.{
  is_used, enc_freq_lst_range-exact, enc_freq_lst_range-overrun,
}

program : Unit {0}
unfolding range_enc_arfcns range_encode full decode
program = tt

abbrev five : List ℕ
five = 3 ∷ 40 ∷ 41 ∷ 77 ∷ 120 ∷ []

five-written :
    range_enc_arfcns 7 (full 7) five (replicate 6 0) 0 ≡ some (done, 4 ∷ 11 ∷ 38 ∷ 12 ∷ 31 ∷ 0 ∷ [])
unfolding range_enc_arfcns full
five-written = refl

five-decoded : decode 7 (4 ∷ 11 ∷ 38 ∷ 12 ∷ 31 ∷ 0 ∷ []) 0 1 ≡ 3 ∷ 77 ∷ 120 ∷ 41 ∷ 40 ∷ []
unfolding decode
five-decoded = refl

power_of_seven : greatest_power_of_2_lesser_or_equal_to 7 ≡ 4
unfolding greatest_power_of_2_lesser_or_equal_to
power_of_seven = refl

-- Without a pair of opposite halves there is no index: all frequencies are the same.
no_index : range_enc_find_index 127 (5 ∷ 5 ∷ 5 ∷ []) ≡ none
unfolding range_enc_find_index
no_index = refl

determine : range_enc_determine_range (10 ∷ 20 ∷ 30 ∷ []) ≡ some (some 127, 10)
unfolding range_enc_determine_range
determine = refl

five-IsDistinct : IsDistinct five
five-IsDistinct x = ground arith

range_enc_arfcns-decode_example :
    (w : List ℕ) × (range_enc_arfcns 7 (full 7) five (replicate 6 0) 0 ≡ some (done, w))
    × ((x : ℕ) → count x (decode 7 w 0 1) ≡ count x five)
    × ((q : ℕ) → get_or w (length five + q) 0 ≡ 0)
unfolding full
range_enc_arfcns-decode_example =
    range_enc_arfcns-decode 7 6 five (omega arith) five-IsDistinct (omega arith)

-- ARFCN 10, 20 and 30 with F0 = 10: the frequency 10 + 1 + 30 is announced as well.
excess-IsDistinct : IsDistinct (map (offset 10) (20 ∷ 30 ∷ []))
unfolding modulo
excess-IsDistinct x = ground arith

-- The octets of ARFCN 10, 20 and 30, and of 1, 200 and 900, and what is read from them.
all_octets : Unit {0}
unfolding program write_orig_arfcn cur_bits write_slice write_wk write_levels write_all_wn
    write_head range_enc_range128 range_enc_range1024 encode_format encode_entries
    range_encode_octets bit_not read_bits bit_at test_bit read_arfcns read_entries read_range
    read_range1024 read_freq_list shape level_start place
all_octets = tt

abbrev blank : List ℕ
blank = replicate 16 0

abbrev three_octets : List ℕ
three_octets = 0x8C ∷ 5 ∷ 20 ∷ 216 ∷ 176 ∷ replicate 11 0

three-octets :
    range_encode_octets 7 127 (10 ∷ 20 ∷ 30 ∷ []) (replicate 29 0) 10 blank ≡ some three_octets
unfolding all_octets
three-octets = refl

-- ARFCN 41 is announced as well.
three-read : read_freq_list three_octets ≡ some (10 ∷ 30 ∷ 20 ∷ 41 ∷ [])
unfolding all_octets
three-read = refl

three-InFormat : InFormat range128 10 (20 ∷ 30 ∷ [])
unfolding range_enc_determine_range last_arfcn full
three-InFormat = record {
  ascending = (omega arith, (omega arith, tt));
  determined = refl;
  low = omega arith;
  spare = omega arith;
}

range_encode_octets-excess_example :
    (o : List ℕ) × (arfcns : List ℕ) × (range_encode_octets 7
        (full 7)
        (10 ∷ 20 ∷ 30 ∷ [])
        (replicate 29 0)
        10
        (chan 0 0 0 (replicate 13 0))
      ≡ some o)
    × (read_freq_list o ≡ some arfcns)
    × ((x : ℕ)
        → count x arfcns
          ≡ count x (10 ∷ 20 ∷ 30 ∷ [])
            + (if x == 10 + last_arfcn 10 (20 ∷ 30 ∷ []) + 1 then 1 else 0))
range_encode_octets-excess_example =
    range_encode_octets-excess range128 10 (20 ∷ 30 ∷ []) three-InFormat 0 0 0 (replicate 13 0) refl

-- A cell with neighbours on ARFCN 1, 200 and 900, and one with 30 neighbours.
abbrev own_band : BtsBand
own_band = record { force_combined_si = false; band = 5 }

abbrev three_neighbours : ℕ → Bool
three_neighbours i = i == 1 || i == 200 || i == 900

abbrev thirty_neighbours : ℕ → Bool
thirty_neighbours i = ltb i 30

all_used : Unit {0}
unfolding use_arfcn band_compatible
all_used = tt

abbrev uses : (ℕ → Bool) → ℕ → Bool
uses bit = is_used (λ i. 5) 6 7 bit own_band false false false

three-used : used_from (uses three_neighbours) 1024 0 ≡ 1 ∷ 200 ∷ 900 ∷ []
unfolding all_used
three-used = refl

enc_freq_lst_range-exact_example :
    (o : List ℕ) × (arfcns : List ℕ) × (enc_freq_lst_range
        (λ i. 5)
        6
        7
        three_neighbours
        (0 ∷ replicate 15 0)
        1024
        own_band
        false
        false
        false
      ≡ encoded o)
    × (read_freq_list o ≡ some arfcns)
    × ((y : ℕ) → count y arfcns ≡ (if ltb y 1024 && uses three_neighbours y then 1 else 0))
unfolding all_used
enc_freq_lst_range-exact_example =
    enc_freq_lst_range-exact (λ i. 5) 6 7 three_neighbours own_band false false false 1024 1 900 0
      (replicate 15 0) refl (omega arith) refl (omega (arith, ap length three-used)) refl refl
      (omega arith) (omega arith)

thirty-used : length (used_from (uses thirty_neighbours) 40 0) ≡ 30
unfolding all_used
thirty-used = refl

enc_freq_lst_range-overrun_example :
    enc_freq_lst_range (λ i. 5) 6 7 thirty_neighbours blank 40 own_band false false false ≡ fault
enc_freq_lst_range-overrun_example =
    enc_freq_lst_range-overrun (λ i. 5) 6 7 thirty_neighbours own_band false false false 40 blank
      (omega (arith, thirty-used))
