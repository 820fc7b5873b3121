-- ===== src/ArfcnRange/Octets/Announced.antt =====
-- openbsc/src/libbsc/system_information.c: what is read from the octets of `enc_freq_lst_range`.
use native.Mathlib.Decide.{ℕ_discrete, dec_lt}
use openbsc.Base.{
  ℕ, zero, suc, ◌+◌, ◌≡◌, ◌≤◌, ◌<◌, refl, sym, ap, ◌∙◌, inl, inr, Bool, true, false, ◌&&◌, some,
  List, [], ◌∷◌, ltb, if◌then◌else◌, length, All, Bool-cases, arith,
}
use openbsc.ArfcnRange.{last_arfcn, range_of, range_enc_determine_range}
use openbsc.ArfcnRange.Window.{count}
use openbsc.ArfcnRange.Octets.Read.{read_freq_list}
use openbsc.ArfcnRange.Octets.Counts.{count-high}
use openbsc.ArfcnRange.Octets.Ascending.{
  Ascending, Ascending-All, Ascending-below, last-ge, All-weaken,
}
use openbsc.ArfcnRange.Octets.Whole.{range_encode_octets-exact}
use openbsc.ArfcnRange.Octets.Select.{
  BtsBand, selected, encoded, fault, encode_selected, encode_selection, is_selected,
  enc_freq_lst_range, used_from, select_loop-used_from, select_loop-overrun,
}

module _ (is_used : ℕ → Bool) where
  used_from-Ascending : (rounds z i : ℕ) → z < i → Ascending z (used_from is_used rounds i)
  used_from-Ascending zero z i h = tt
  used_from-Ascending (suc rounds) z i h = elim (Bool-cases (is_used i)) [
    | inl used ↦ rw used (h, used_from-Ascending rounds i (suc i) (omega arith))
    | inr unused ↦ rw unused (used_from-Ascending rounds z (suc i) (omega (arith, h)))
  ]

  used_from-last :
      (rounds d i : ℕ) → d < i + rounds → last_arfcn d (used_from is_used rounds i) < i + rounds
  unfolding last_arfcn
  used_from-last zero d i h = h
  used_from-last (suc rounds) d i h = elim (Bool-cases (is_used i)) [
    | inl used ↦ rw used (omega (arith, used_from-last rounds i (suc i) (omega arith)))
    | inr unused ↦ rw unused (omega (arith, used_from-last rounds d (suc i) (omega (arith, h))))
  ]

  -- A frequency is in the list once when it is used.
  count-used_from :
      (rounds i y : ℕ)
      → i ≤ y
      → y < i + rounds
      → count y (used_from is_used rounds i) ≡ (if is_used y then 1 else 0)
  count-used_from zero i y h k = absurd (omega (arith, h, k))
  count-used_from (suc rounds) i y h k = elim (ℕ_discrete y i) [
    | yes same ↦
        let once =
          Ascending-below i i (used_from is_used rounds (suc i))
            (used_from-Ascending rounds i (suc i) (omega arith)) (omega arith) in
        rw same (elim (Bool-cases (is_used i)) [
          | inl used ↦ rw used (ground (arith, once))
          | inr unused ↦ rw unused once
        ])
    | no other ↦
        let rest = count-used_from rounds (suc i) y (omega (arith, h, other)) (omega (arith, k)) in
        elim (Bool-cases (is_used i)) [
          | inl used ↦ rw used (ground (arith, rest, other))
          | inr unused ↦ rw unused rest
        ]
  ]

  count-used :
      (bits y : ℕ) (zs : List ℕ)
      → used_from is_used bits 0 ≡ zs
      → is_used y ≡ true
      → y < bits
      → count y zs ≡ 1
  count-used bits y zs e used h =
      ap (count y) (sym e)
      ∙ count-used_from bits 0 y (omega arith) (omega (arith, h))
      ∙ rw used refl

  count-outside : (rounds i y : ℕ) → i + rounds ≤ y → count y (used_from is_used rounds i) ≡ 0
  count-outside zero i y h = refl
  count-outside (suc rounds) i y h =
      let rest = count-outside rounds (suc i) y (omega (arith, h)) in
      elim (Bool-cases (is_used i)) [
        | inl used ↦ rw used (ground (arith, rest, h))
        | inr unused ↦ rw unused rest
      ]

  used_from_1 : (bits : ℕ) → is_used 0 ≡ false → Ascending 0 (used_from is_used bits 0)
  used_from_1 zero unused = tt
  used_from_1 (suc rounds) unused = rw unused (used_from-Ascending rounds 0 1 (omega arith))

  -- What the list of the used frequencies has, with its first frequency.
  record IsSpread (bits x : ℕ) (xs : List ℕ) : Type 0 where
    positive : 0 < x
    ascending : Ascending x xs
    below : last_arfcn x xs < bits
    wide : x + 512 ≤ last_arfcn x xs

  first-le : (x y : ℕ) (xs : List ℕ) → Ascending x xs → count y (x ∷ xs) ≡ 1 → x ≤ y
  first-le x y xs up e = elim (dec_lt y x) [
    | yes less ↦ absurd (ground (arith, Ascending-below x y xs up (omega (arith, less)), e))
    | no h ↦ omega (arith, h)
  ]

  le-last : (x y : ℕ) (xs : List ℕ) → Ascending x xs → count y (x ∷ xs) ≡ 1 → y ≤ last_arfcn x xs
  le-last x y xs up e = elim (dec_lt (last_arfcn x xs) y) [
    | yes more ↦
        let below : All (λ z. z < suc (last_arfcn x xs)) xs =
          All-weaken _ _ xs (λ z i. omega (arith, i)) (Ascending-All 0 x xs (omega arith) up) in
        absurd (
          omega (
            arith,
            count-high (suc (last_arfcn x xs)) y (x ∷ xs) (omega (arith, last-ge x xs up), below)
                more,
            e,
          ))
    | no h ↦ omega (arith, h)
  ]

  used_from-IsSpread :
      (bits low high x : ℕ) (xs : List ℕ)
      → used_from is_used bits 0 ≡ x ∷ xs
      → is_used 0 ≡ false
      → is_used low ≡ true
      → is_used high ≡ true
      → low + 512 ≤ high
      → high < bits
      → IsSpread bits x xs
  unfolding last_arfcn
  used_from-IsSpread bits low high x xs e zeroth l h far top =
      let up : Ascending 0 (x ∷ xs) = rw e at (used_from_1 bits zeroth) in
      let last : last_arfcn 0 (x ∷ xs) < 0 + bits =
        rw e at (used_from-last bits 0 0 (omega (arith, top))) in
      let lows = count-used bits low (x ∷ xs) e l (omega (arith, far, top)) in
      let highs = count-used bits high (x ∷ xs) e h top in
      record {
        positive = up.0;
        ascending = up.1;
        below = omega (arith, last);
        wide = omega (arith, first-le x low xs up.1 lows, le-last x high xs up.1 highs, far);
      }

  spread-1024 :
      (bits x : ℕ) (xs : List ℕ)
      → IsSpread bits x xs
      → bits ≤ 1024
      → length (x ∷ xs) ≤ 16
      → range_enc_determine_range (x ∷ xs) ≡ some (some 1023, 0)
  unfolding range_enc_determine_range range_of
  spread-1024 bits x xs s small few = ground (arith, s.below, s.wide)

  -- What is selected of a list with its first frequency, and what is read from its octets.
  announced :
      (bits low high a : ℕ) (l zs : List ℕ)
      → used_from is_used bits 0 ≡ zs
      → length (a ∷ l) ≡ 16
      → bits ≤ 1024
      → is_used 0 ≡ false
      → length zs ≤ 16
      → is_used low ≡ true
      → is_used high ≡ true
      → low + 512 ≤ high
      → high < bits
      → (o : List ℕ) × (arfcns : List ℕ) × (encode_selection (a ∷ l) (selected zs) ≡ encoded o)
        × (read_freq_list o ≡ some arfcns)
        × ((y : ℕ) → count y arfcns ≡ count y zs)
  unfolding encode_selection encode_selected
  announced bits low high a l [] e sixteen small zeroth few lo hi far top =
      absurd (omega (arith, count-used bits high [] e hi top))
  announced bits low high a l (x ∷ xs) e sixteen small zeroth few lo hi far top =
      let s = used_from-IsSpread bits low high x xs e zeroth lo hi far top in
      let (o, arfcns, written, read, counts) =
        range_encode_octets-exact x xs s.positive s.ascending (omega (arith, s.below, small)) a l
          sixteen few in
      (o, arfcns, rw (spread-1024 bits x xs s small few, written) refl, read, counts)

  count-all_used :
      (bits y : ℕ) → count y (used_from is_used bits 0) ≡ (if ltb y bits && is_used y then 1 else 0)
  count-all_used bits y = elim (dec_lt y bits) [
    | yes h ↦
        let below : ltb y bits ≡ true = ground (arith, h) in
        rw below (count-used_from bits 0 y (omega arith) (omega (arith, h)))
    | no h ↦
        let above : ltb y bits ≡ false = ground (arith, h) in
        rw above (count-outside bits 0 y (omega (arith, h)))
  ]

-- The frequencies of a vector of `bits` bits that are used by `use_arfcn`.
module _ (gsm_arfcn2band : ℕ → ℕ) (gsm_band_1800 gsm_band_1900 : ℕ) (bitvec_get_bit_pos : ℕ → Bool)
    (bts : BtsBand) (bis ter pgsm : Bool) where
  abbrev pub is_used : ℕ → Bool
  is_used =
      is_selected gsm_arfcn2band gsm_band_1800 gsm_band_1900 bitvec_get_bit_pos bts bis ter pgsm

  -- Of a vector of at most 1024 bits, when ARFCN 0 is not used, at most 16 frequencies are, and two
  -- of them lie 512 or more apart, enc_freq_lst_range succeeds and writes octets that are read, by
  -- 3GPP TS 44.018, as a list of just the frequencies that are set in the vector and used by
  -- use_arfcn, each once, whatever the sixteen octets held before.
  pub enc_freq_lst_range-exact :
      (bits low high a : ℕ) (l : List ℕ)
      → length (a ∷ l) ≡ 16
      → bits ≤ 1024
      → is_used 0 ≡ false
      → length (used_from is_used bits 0) ≤ 16
      → is_used low ≡ true
      → is_used high ≡ true
      → low + 512 ≤ high
      → high < bits
      → (o : List ℕ) × (arfcns : List ℕ) × (enc_freq_lst_range gsm_arfcn2band gsm_band_1800
            gsm_band_1900 bitvec_get_bit_pos
            (a ∷ l)
            bits
            bts
            bis
            ter
            pgsm
          ≡ encoded o)
        × (read_freq_list o ≡ some arfcns)
        × ((y : ℕ) → count y arfcns ≡ (if ltb y bits && is_used y then 1 else 0))
  unfolding enc_freq_lst_range
  enc_freq_lst_range-exact bits low high a l sixteen small zeroth few lo hi far top =
      let (o, arfcns, written, read, counts) =
        announced is_used bits low high a l _ refl sixteen small zeroth few lo hi far top in
      (
        o,
        arfcns,
        ap (encode_selection (a ∷ l)) (select_loop-used_from is_used bits 0 [] (omega (arith, few)))
            ∙ written,
        read,
        λ y. counts y ∙ count-all_used is_used bits y,
      )

  -- When more than 29 frequencies are set in the vector and used by use_arfcn, enc_freq_lst_range
  -- writes behind its array before its own test of their number can fail.
  pub enc_freq_lst_range-overrun :
      (bits : ℕ) (chan_list : List ℕ)
      → 29 < length (used_from is_used bits 0)
      → enc_freq_lst_range gsm_arfcn2band gsm_band_1800 gsm_band_1900 bitvec_get_bit_pos chan_list
          bits bts bis ter pgsm
        ≡ fault
  unfolding enc_freq_lst_range encode_selection
  enc_freq_lst_range-overrun bits chan_list many =
      ap (encode_selection chan_list)
        (select_loop-overrun is_used bits 0 [] (omega arith) (omega (arith, many)))
