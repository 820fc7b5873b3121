-- ===== src/ArfcnRange/Octets/Select.antt =====
-- openbsc/src/libbsc/system_information.c, `enc_freq_lst_range`: the frequencies of a bit vector that
-- a message of system information may name, in a range format.
use mathlib.Core.List.{append-nil, append_assoc}
use openbsc.Base.{
  ℕ, zero, suc, ◌+◌, ◌≡◌, ◌≤◌, ◌<◌, refl, ap, ◌∙◌, inl, inr, Bool, true, false, not, ◌&&◌, ◌||◌,
  Option, none, some, List, [], ◌∷◌, ◌++◌, ltb, ◌==◌, if◌then◌else◌, length, replicate,
  length-append, Bool-cases, arith,
}
use openbsc.ArfcnRange.{range_enc_determine_range}
use openbsc.ArfcnRange.Octets.{range_encode_octets}

-- What `use_arfcn` reads of the base station, with a band of libosmocore as a number.
pub record BtsBand : Type 0 where
  pub force_combined_si : Bool
  pub band : ℕ

-- The bands and their frequencies are those of libosmocore.
module _ (gsm_arfcn2band : ℕ → ℕ) (gsm_band_1800 gsm_band_1900 : ℕ) where
  unfoldable pub band_compatible : BtsBand → ℕ → Bool
  band_compatible bts arfcn =
      let band = gsm_arfcn2band arfcn in
      band == bts.band || (band == gsm_band_1800 && bts.band == gsm_band_1900)

  unfoldable pub use_arfcn : BtsBand → Bool → Bool → Bool → ℕ → Bool
  use_arfcn bts bis ter pgsm arfcn =
      let compatible = band_compatible bts arfcn in
      if bts.force_combined_si
      then not bis && not ter
      else if not bis && not ter && compatible
      then true
      else if bis && pgsm && compatible && (ltb arfcn 1 || ltb 124 arfcn)
      then true
      else ter && not compatible

-- `overrun` is a write behind the array of RANGE_ENC_MAX_ARFCNS entries.
pub data Selection : Type 0 where
  selected : List ℕ → Selection
  too_many : Selection
  overrun : Selection

-- The loop over the bits, with the frequency `i` next, for the frequencies `is_used` of the vector.
unfoldable pub select_loop : (ℕ → Bool) → ℕ → ℕ → List ℕ → Selection
select_loop is_used zero i arfcns = selected arfcns
select_loop is_used (suc rounds) i arfcns = elim (ltb 29 (length arfcns)) [
  | true ↦ too_many
  | false ↦ elim (is_used i) [
    | true ↦ elim (ltb (length arfcns) 29) [
      | true ↦ select_loop is_used rounds (suc i) (arfcns ++ i ∷ [])
      | false ↦ overrun
    ]
    | false ↦ select_loop is_used rounds (suc i) arfcns
  ]
]

-- `fault` is an access outside the array, `failed` a negative result.
pub data Generated : Type 0 where
  encoded : List ℕ → Generated
  failed : Generated
  fault : Generated

abbrev bits_of : ℕ → ℕ
bits_of r = if r == 127 then 7 else if r == 255 then 8 else if r == 511 then 9 else 10

abbrev outcome : Option (List ℕ) → Generated
outcome none = failed
outcome (some chan_list) = encoded chan_list

unfoldable pub encode_selected : List ℕ → List ℕ → Option (Option ℕ × ℕ) → Generated
encode_selected chan_list arfcns none = fault
encode_selected chan_list arfcns (some (none, f0)) = failed
encode_selected chan_list arfcns (some (some r, f0)) =
    outcome (range_encode_octets (bits_of r) r arfcns (replicate 29 0) f0 chan_list)

unfoldable pub encode_selection : List ℕ → Selection → Generated
encode_selection chan_list (selected arfcns) =
    encode_selected chan_list arfcns (range_enc_determine_range arfcns)
encode_selection chan_list too_many = failed
encode_selection chan_list overrun = fault

-- For a vector of `bits` bits, of which the test `bitvec_get_bit_pos` of libosmocore is given.
module _ (gsm_arfcn2band : ℕ → ℕ) (gsm_band_1800 gsm_band_1900 : ℕ)
    (bitvec_get_bit_pos : ℕ → Bool) where
  abbrev pub is_selected : BtsBand → Bool → Bool → Bool → ℕ → Bool
  is_selected bts bis ter pgsm i =
      bitvec_get_bit_pos i
      && use_arfcn gsm_arfcn2band gsm_band_1800 gsm_band_1900 bts bis ter pgsm i

  unfoldable pub enc_freq_lst_range : List ℕ → ℕ → BtsBand → Bool → Bool → Bool → Generated
  enc_freq_lst_range chan_list bits bts bis ter pgsm =
      encode_selection chan_list (select_loop (is_selected bts bis ter pgsm) bits 0 [])

-- The frequencies from `i` on, of `rounds` ones, that are used.
abbrev pub used_from : (ℕ → Bool) → ℕ → ℕ → List ℕ
used_from is_used zero i = []
used_from is_used (suc rounds) i =
    let rest = used_from is_used rounds (suc i) in if is_used i then i ∷ rest else rest

module _ (is_used : ℕ → Bool) where
  pub select_loop-used_from :
      (rounds i : ℕ) (arfcns : List ℕ)
      → length arfcns + length (used_from is_used rounds i) ≤ 29
      → select_loop is_used rounds i arfcns ≡ selected (arfcns ++ used_from is_used rounds i)
  unfolding select_loop
  select_loop-used_from zero i arfcns h = rw (append-nil arfcns) refl
  select_loop-used_from (suc rounds) i arfcns h =
      let room : ltb 29 (length arfcns) ≡ false = ground (arith, h) in
      elim (Bool-cases (is_used i)) [
        | inl used ↦
            let fits : length arfcns + suc (length (used_from is_used rounds (suc i))) ≤ 29 =
              rw used at h in
            let some_room : ltb (length arfcns) 29 ≡ true = ground (arith, fits) in
            let more = length-append arfcns (i ∷ []) in
            rw (select_loop, room, used, some_room)
              (select_loop-used_from rounds (suc i) (arfcns ++ i ∷ []) (omega (arith, fits, more))
                ∙ ap selected (append_assoc arfcns (i ∷ []) (used_from is_used rounds (suc i))))
        | inr unused ↦
            rw (select_loop, room, unused)
              (select_loop-used_from rounds (suc i) arfcns (rw unused at h))
      ]

  pub select_loop-overrun :
      (rounds i : ℕ) (arfcns : List ℕ)
      → length arfcns ≤ 29
      → 29 < length arfcns + length (used_from is_used rounds i)
      → select_loop is_used rounds i arfcns ≡ overrun
  unfolding select_loop
  select_loop-overrun zero i arfcns l h = absurd (omega (arith, h, l))
  select_loop-overrun (suc rounds) i arfcns l h =
      let room : ltb 29 (length arfcns) ≡ false = ground (arith, l) in
      elim (Bool-cases (is_used i)) [
        | inr unused ↦
            rw (select_loop, room, unused)
              (select_loop-overrun rounds (suc i) arfcns l (rw unused at h))
        | inl used ↦ elim (Bool-cases (ltb (length arfcns) 29)) [
          | inr full ↦ rw (select_loop, room, used, full) refl
          | inl free ↦
              let more = length-append arfcns (i ∷ []) in
              let size : length arfcns < 29 = ground (arith, free) in
              let over : 29 < length arfcns + suc (length (used_from is_used rounds (suc i))) =
                rw used at h in
              rw (select_loop, room, used, free)
                (select_loop-overrun rounds (suc i) (arfcns ++ i ∷ []) (omega (arith, more, size))
                  (omega (arith, over, more)))
        ]
      ]
