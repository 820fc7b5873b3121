-- ===== src/ArfcnRange/Octets.antt =====
-- openbsc/src/libbsc/arfcn_range_encode.c, `write_orig_arfcn`, `write_all_wn` and the functions
-- range_enc_range*, and the end of `range_encode` of openbsc/src/libbsc/system_information.c: the
-- octets of a frequency list. An octet is a number below 256, and the offset of an octet counts from
-- the first octet of the list, also where the source passes the address of a later one.
pub mod Slice
pub mod Entry
pub mod Levels
pub mod Read
pub mod Formats
pub mod Ranges
pub mod Counts
pub mod Ascending
pub mod Whole
pub mod Select
pub mod Announced
use openbsc.Base.{
  ℕ, zero, suc, ◌+◌, ◌-◌, ◌*◌, ◌/◌, ◌%◌, ◌^◌, Bool, true, false, Option, none, some, List, [], ◌∷◌,
  ltb, ◌==◌, if◌then◌else◌, get_or, set, min, bit_and, bit_or,
}
use openbsc.Base.Bits.{◌<<<◌, ◌>>>◌, bit_not}
use openbsc.ArfcnRange.{Rc, done, einval, range_enc_filter_arfcns, range_encode}

unfoldable pub write_orig_arfcn : List ℕ → ℕ → List ℕ
write_orig_arfcn chan_list f0 =
    let l₀ = set chan_list 0 (bit_or (get_or chan_list 0 0) (bit_and (f0 >>> 9) 1)) in
    set (set l₀ 1 ((f0 >>> 1) % 256)) 2 (bit_and f0 1 <<< 7)

-- The variables of `write_all_wn` that say where the next bit goes.
pub record Writer : Type 0 where
  pub chan_list : List ℕ
  pub octet_offs : ℕ
  pub bit_offs : ℕ

-- The number of bits that the current octet takes.
unfoldable pub cur_bits : ℕ → Writer → ℕ
cur_bits wk_left s = min (8 - s.bit_offs) wk_left

-- One round of the inner loop for the entry `wk`. In an octet, `~` is that of eight bits.
unfoldable pub write_slice : ℕ → ℕ → Writer → Writer
unfolding cur_bits bit_not
write_slice wk wk_left s =
    let bits = cur_bits wk_left s in
    let cur_mask = (1 <<< bits) - 1 in
    let bit_offs = s.bit_offs + bits in
    let wk_slice = bit_and (wk >>> (wk_left - bits)) cur_mask in
    let shift = 8 - bit_offs in
    let cleared = bit_and (get_or s.chan_list s.octet_offs 0) (bit_not 8 (cur_mask <<< shift)) in
    let octets = set s.chan_list s.octet_offs (bit_or cleared (wk_slice <<< shift)) in
    if bit_offs == 8
    then record { chan_list = octets; octet_offs = s.octet_offs + 1; bit_offs = 0 }
    else record { chan_list = octets; octet_offs = s.octet_offs; bit_offs = bit_offs }

-- The inner loop. Each round writes a bit at least, so that as many rounds as bits are enough.
unfoldable pub write_wk : ℕ → ℕ → ℕ → Writer → Writer
unfolding write_slice
write_wk zero wk wk_left s = s
write_wk (suc fuel) wk wk_left s = elim (wk_left == 0) [
  | true ↦ s
  | false ↦ write_wk fuel wk (wk_left - cur_bits wk_left s) (write_slice wk wk_left s)
]

-- The outer loop, from the entry at index `k` on. The source may go below 0 with `wk_len`, and then
-- writes nothing either.
unfoldable pub write_levels : ℕ → List ℕ → ℕ → ℕ → ℕ → ℕ → Writer → Writer
unfolding write_wk
write_levels zero w k wk_len level lvl_left s = s
write_levels (suc rounds) w k wk_len level lvl_left s =
    let written = write_wk wk_len (get_or w k 0) wk_len s in
    elim (lvl_left - 1 == 0) [
      | true ↦ write_levels rounds w (suc k) (wk_len - 1) (level + 1) (1 <<< (level + 1)) written
      | false ↦ write_levels rounds w (suc k) wk_len level (lvl_left - 1) written
    ]

-- The list from octet `octet_offs` on.
unfoldable pub write_all_wn : List ℕ → ℕ → ℕ → List ℕ → ℕ → ℕ → List ℕ
unfolding write_levels
write_all_wn chan_list octet_offs bit_offs w w_size w1_len =
    let s : Writer = record {
      chan_list = chan_list;
      octet_offs = octet_offs;
      bit_offs = bit_offs;
    } in
    (write_levels w_size w 0 w1_len 0 1 s).chan_list

-- The start of the functions for the ranges 128, 256 and 512, with the octet of the format.
unfoldable pub write_head : ℕ → List ℕ → ℕ → List ℕ
unfolding write_orig_arfcn
write_head format chan_list f0 = write_orig_arfcn (set chan_list 0 format) f0

unfoldable pub range_enc_range128 : List ℕ → ℕ → List ℕ → List ℕ
range_enc_range128 chan_list f0 w = write_all_wn (write_head 0x8C chan_list f0) 2 1 w 28 7

unfoldable pub range_enc_range256 : List ℕ → ℕ → List ℕ → List ℕ
range_enc_range256 chan_list f0 w = write_all_wn (write_head 0x8A chan_list f0) 2 1 w 21 8

unfoldable pub range_enc_range512 : List ℕ → ℕ → List ℕ → List ℕ
range_enc_range512 chan_list f0 w = write_all_wn (write_head 0x88 chan_list f0) 2 1 w 17 9

unfoldable pub range_enc_range1024 : List ℕ → Bool → List ℕ → List ℕ
range_enc_range1024 chan_list f0_included w =
    let included : ℕ = if f0_included then 1 else 0 in
    write_all_wn (set chan_list 0 (bit_or 0x80 (included <<< 2))) 0 6 w 16 10

-- The switch of `range_encode` over the range; ERANGE is `none`.
unfoldable pub encode_format : ℕ → List ℕ → ℕ → Bool → List ℕ → Option (List ℕ)
encode_format r chan_list f0 f0_included w =
    if r == 127
    then some (range_enc_range128 chan_list f0 w)
    else if r == 255
    then some (range_enc_range256 chan_list f0 w)
    else if r == 511
    then some (range_enc_range512 chan_list f0 w)
    else if r == 1023
    then some (range_enc_range1024 chan_list f0_included w)
    else none

-- What `range_encode` does with the entries: the frequency list, or `none` for a negative result.
unfoldable pub encode_entries : ℕ → List ℕ → ℕ → List ℕ → Option (Rc × List ℕ) → Option (List ℕ)
encode_entries r arfcns f0 chan_list (some (done, w)) =
    encode_format r chan_list f0 (range_enc_filter_arfcns arfcns f0).f0_included w
encode_entries r arfcns f0 chan_list (some (einval, w)) = none
encode_entries r arfcns f0 chan_list none = none

-- The whole of `range_encode`, for a range of `bits` bits.
unfoldable pub range_encode_octets : ℕ → ℕ → List ℕ → List ℕ → ℕ → List ℕ → Option (List ℕ)
range_encode_octets bits r arfcns w f0 chan_list =
    encode_entries r arfcns f0 chan_list (range_encode bits r arfcns w f0)
