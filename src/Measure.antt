-- ===== src/Measure.antt =====
-- openbsc/src/libbsc/meas_rep.c: averages and counts over the measurement reports of a channel,
-- which openbsc/src/libcommon/gsm_data.c keeps in a ring of six.
--
-- Indices are unsigned and of 32 bits. A sum of levels is an `int`; as a level has eight bits it
-- does not overflow below eight million values, and the windows have at most ten.
pub mod Ring
pub mod History
pub mod Window
mod Tests
use openbsc.Base.{
  ℕ, zero, suc, ◌+◌, ◌-◌, ◌/◌, ◌%◌, Bool, true, false, List, [], ◌∷◌, if◌then◌else◌, ltb, leb,
  get_or, set, replicate,
}

-- The received level and quality, over the whole of a period (full) or a part of it (sub), of one
-- direction.
pub record Levels : Type 0 where
  pub rx_lev : ℕ
  pub rx_qual : ℕ

pub record Unidir : Type 0 where
  pub full : Levels
  pub sub : Levels

-- `struct gsm_meas_rep_cell`: `processed` is the flag MRC_F_PROCESSED.
pub record MeasRepCell : Type 0 where
  pub rxlev : ℕ
  pub bsic : ℕ
  pub arfcn : ℕ
  pub processed : Bool

-- `struct gsm_meas_rep`; `dl_dtx` is the flag MEAS_REP_F_DL_DTX and `ta` stands in `ms_l1`.
pub record MeasRep : Type 0 where
  pub nr : ℕ
  pub dl_dtx : Bool
  pub ul : Unidir
  pub dl : Unidir
  pub ta : ℕ
  pub num_cell : ℕ
  pub cell : List MeasRepCell

-- `enum meas_rep_field`.
pub data MeasRepField : Type 0 where
  dl_rxlev_full : MeasRepField
  dl_rxlev_sub : MeasRepField
  dl_rxqual_full : MeasRepField
  dl_rxqual_sub : MeasRepField
  ul_rxlev_full : MeasRepField
  ul_rxlev_sub : MeasRepField
  ul_rxqual_full : MeasRepField
  ul_rxqual_sub : MeasRepField

abbrev pub get_field : MeasRep → MeasRepField → ℕ
get_field rep dl_rxlev_full = rep.dl.full.rx_lev
get_field rep dl_rxlev_sub = rep.dl.sub.rx_lev
get_field rep dl_rxqual_full = rep.dl.full.rx_qual
get_field rep dl_rxqual_sub = rep.dl.sub.rx_qual
get_field rep ul_rxlev_full = rep.ul.full.rx_lev
get_field rep ul_rxlev_sub = rep.ul.sub.rx_lev
get_field rep ul_rxqual_full = rep.ul.full.rx_qual
get_field rep ul_rxqual_sub = rep.ul.sub.rx_qual

abbrev pub no_levels : Levels
no_levels = record { rx_lev = 0; rx_qual = 0 }

abbrev pub no_unidir : Unidir
no_unidir = record { full = no_levels; sub = no_levels }

-- What `memset` leaves.
abbrev pub no_rep : MeasRep
no_rep = record {
  nr = 0;
  dl_dtx = false;
  ul = no_unidir;
  dl = no_unidir;
  ta = 0;
  num_cell = 0;
  cell = [];
}

-- The part of `struct gsm_lchan` that caches reports.
pub record Lchan : Type 0 where
  pub meas_rep : List MeasRep
  pub meas_rep_idx : ℕ

-- `ARRAY_SIZE(lchan->meas_rep)`.
abbrev pub meas_rep_size : ℕ
meas_rep_size = 6

abbrev pub no_reps : Lchan
no_reps = record { meas_rep = replicate meas_rep_size no_rep; meas_rep_idx = 0 }

-- The slot of the next report, which is cleared, and the channel.
abbrev pub lchan_next_meas_rep : Lchan → ℕ × Lchan
lchan_next_meas_rep lc = (
  lc.meas_rep_idx,
  record {
    meas_rep = set lc.meas_rep lc.meas_rep_idx no_rep;
    meas_rep_idx = (lc.meas_rep_idx + 1) % meas_rep_size;
  },
)

-- The slot is filled in with the report that was received.
abbrev pub add_rep : MeasRep → Lchan → Lchan
add_rep r lc =
    let (i, next) = lchan_next_meas_rep lc in record next { meas_rep = set next.meas_rep i r }

-- `offs` is signed, and the index is unsigned again.
unfoldable pub calc_initial_idx : ℕ → ℕ → ℕ → ℕ
calc_initial_idx array_size meas_rep_idx num_values =
    let offs = (meas_rep_idx + (4294967296 - num_values)) % 4294967296 in
    if ltb 2147483647 offs then (array_size + offs) % 4294967296 else offs

-- The loop that sums `n` values of a ring of `size` slots from an index on.
unfoldable pub sum_ring : (ℕ → ℕ) → ℕ → ℕ → ℕ → ℕ
sum_ring value size idx zero = 0
sum_ring value size idx (suc n) =
    value (idx % size) + sum_ring value size ((idx + 1) % 4294967296) n

abbrev pub field_at : Lchan → MeasRepField → ℕ → ℕ
field_at lc field j = get_field (get_or lc.meas_rep j no_rep) field

unfoldable pub get_meas_rep_avg : Lchan → MeasRepField → ℕ → ℕ
unfolding calc_initial_idx sum_ring
get_meas_rep_avg lc field num =
    let idx = calc_initial_idx meas_rep_size lc.meas_rep_idx num in
    if ltb num 1 then 0 else sum_ring (field_at lc field) meas_rep_size idx num / num

-- The loop of `meas_rep_n_out_of_m_be`, with the count so far and the values that are left.
unfoldable pub count_ring : (ℕ → ℕ) → ℕ → ℕ → ℕ → ℕ → ℕ → ℕ → Bool
count_ring value size be n idx count zero = false
count_ring value size be n idx count (suc m) =
    let count' = if leb be (value (idx % size)) then count + 1 else count in
    let rest = count_ring value size be n ((idx + 1) % 4294967296) count' m in
    if leb n count' then true else rest

unfoldable pub meas_rep_n_out_of_m_be : Lchan → MeasRepField → ℕ → ℕ → ℕ → Bool
unfolding calc_initial_idx count_ring
meas_rep_n_out_of_m_be lc field n m be =
    let idx = calc_initial_idx meas_rep_size lc.meas_rep_idx m in
    count_ring (field_at lc field) meas_rep_size be n idx 0 m
