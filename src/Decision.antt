-- ===== src/Decision.antt =====
-- openbsc/src/libbsc/handover_decision.c: the levels of the neighbour cells that a mobile reports,
-- and whether a handover is attempted.
--
-- A report is the newest of the channel's ring and is passed beside it; the marks on its cells are
-- of no use to the ring's readers. `rxlev2dbm` of libosmocore is a parameter, with the sign turned.
pub mod Neighbours
pub mod Best
pub mod Process
mod Tests
use openbsc.Base.{
  ℕ, zero, suc, ◌+◌, ◌-◌, ◌/◌, ◌%◌, Bool, true, false, not, ◌&&◌, ◌||◌, Option, none, some, List,
  [], ◌∷◌, if◌then◌else◌, ltb, leb, ◌==◌, get_or, set,
}
use openbsc.Measure.{
  Lchan, MeasRep, MeasRepCell, MeasRepField, dl_rxlev_full, dl_rxlev_sub, dl_rxqual_full,
  dl_rxqual_sub, calc_initial_idx, sum_ring, get_meas_rep_avg, meas_rep_n_out_of_m_be,
}

-- `struct neigh_meas_proc`; a slot with the ARFCN 0 is not used.
pub record NeighMeasProc : Type 0 where
  pub arfcn : ℕ
  pub bsic : ℕ
  pub rxlev : List ℕ
  pub rxlev_cnt : ℕ
  pub last_seen_nr : ℕ

-- The settings `handover` of `struct gsm_network`.
pub record Settings : Type 0 where
  pub active : Bool
  pub win_rxlev_avg : ℕ
  pub win_rxlev_avg_neigh : ℕ
  pub pwr_interval : ℕ
  pub pwr_hysteresis : ℕ
  pub max_distance : ℕ

-- A base station, by the ARFCN of its first transceiver and its BSIC.
pub record Cell : Type 0 where
  pub arfcn : ℕ
  pub bsic : ℕ

-- MAX_WIN_NEIGH_AVG.
abbrev pub max_win_neigh_avg : ℕ
max_win_neigh_avg = 10

-- The level of the first of the `n` cells that matches, which is marked as processed.
abbrev pub mark_cell : ℕ → List MeasRepCell → ℕ → ℕ → Option ℕ × List MeasRepCell
mark_cell zero cells arfcn bsic = (none, cells)
mark_cell (suc n) [] arfcn bsic = (none, [])
mark_cell (suc n) (c ∷ cells) arfcn bsic =
    let (level, rest) = mark_cell n cells arfcn bsic in
    if not ((c.arfcn == arfcn) && (c.bsic == bsic))
    then (level, c ∷ rest)
    else (some c.rxlev, record c { processed = true } ∷ cells)

abbrev pub rxlev_for_cell_in_rep : MeasRep → ℕ → ℕ → Option ℕ × MeasRep
rxlev_for_cell_in_rep mr arfcn bsic =
    let (level, cells) = mark_cell mr.num_cell mr.cell arfcn bsic in
    (level, record mr { cell = cells })

abbrev pub rxlev_at : NeighMeasProc → ℕ → ℕ
rxlev_at nmp j = get_or nmp.rxlev j 0

unfoldable pub neigh_meas_avg : NeighMeasProc → ℕ → ℕ
unfolding calc_initial_idx sum_ring
neigh_meas_avg nmp window =
    let idx = calc_initial_idx max_win_neigh_avg (nmp.rxlev_cnt % max_win_neigh_avg) window in
    sum_ring (rxlev_at nmp) max_win_neigh_avg idx window / window

-- The first slot that is not used, from the slot `j` on.
unfoldable pub find_empty : List NeighMeasProc → ℕ → Option ℕ
find_empty [] j = none
find_empty (nmp ∷ nmps) j =
    let rest = find_empty nmps (j + 1) in if nmp.arfcn == 0 then some j else rest

-- The slot with the lowest average, from the slot `j` on, and the lowest so far.
unfoldable pub find_worst : List NeighMeasProc → ℕ → Option (ℕ × ℕ) → Option (ℕ × ℕ)
unfolding neigh_meas_avg
find_worst [] j worst = worst
find_worst (nmp ∷ nmps) j worst =
    let avg = neigh_meas_avg nmp max_win_neigh_avg in
    let is_worse : Bool = elim worst [ none ↦ true | some (i, w) ↦ ltb avg w ] in
    find_worst nmps (j + 1) (if is_worse then some (j, avg) else worst)

unfoldable pub find_evict_neigh : List NeighMeasProc → Option ℕ
unfolding find_empty find_worst
find_evict_neigh nmps = elim (find_empty nmps 0) [
  | some j ↦ some j
  | none ↦ elim (find_worst nmps 0 none) [ none ↦ none | some (j, avg) ↦ some j ]
]

-- A level is added to a slot.
abbrev pub put_level : ℕ → NeighMeasProc → NeighMeasProc
put_level level nmp = record nmp {
  rxlev = set nmp.rxlev (nmp.rxlev_cnt % max_win_neigh_avg) level;
  rxlev_cnt = (nmp.rxlev_cnt + 1) % 4294967296;
}

-- The first loop of `process_meas_neigh`, for one slot: a cell that was not reported counts as 0.
abbrev pub update_neigh : MeasRep → NeighMeasProc → MeasRep × NeighMeasProc
update_neigh mr nmp =
    let (level, mr') = rxlev_for_cell_in_rep mr nmp.arfcn nmp.bsic in
    let nmp' : NeighMeasProc = elim level [
      | none ↦ put_level 0 nmp
      | some l ↦ record (put_level l nmp) { last_seen_nr = mr.nr }
    ] in
    if nmp.arfcn == 0 then (mr, nmp) else (mr', nmp')

abbrev pub update_neighs : MeasRep → List NeighMeasProc → MeasRep × List NeighMeasProc
update_neighs mr [] = (mr, [])
update_neighs mr (nmp ∷ nmps) =
    let (mr1, nmp') = update_neigh mr nmp in
    let (mr2, nmps') = update_neighs mr1 nmps in (mr2, nmp' ∷ nmps')

-- A slot is given to a cell of the report: only these fields are written.
abbrev pub take_slot : ℕ → MeasRepCell → NeighMeasProc → NeighMeasProc
take_slot nr c nmp = record (put_level c.rxlev nmp) {
  arfcn = c.arfcn;
  bsic = c.bsic;
  last_seen_nr = nr;
}

abbrev pub take_slot_at : ℕ → MeasRepCell → List NeighMeasProc → ℕ → List NeighMeasProc
take_slot_at nr c [] j = []
take_slot_at nr c (nmp ∷ nmps) zero = take_slot nr c nmp ∷ nmps
take_slot_at nr c (nmp ∷ nmps) (suc j) = nmp ∷ take_slot_at nr c nmps j

-- The second loop, over the `n` cells that are left.
unfoldable pub add_cells : ℕ → ℕ → List MeasRepCell → List NeighMeasProc → List NeighMeasProc
unfolding find_evict_neigh
add_cells nr zero cells nmps = nmps
add_cells nr (suc n) [] nmps = nmps
add_cells nr (suc n) (c ∷ cells) nmps =
    let nmps' : List NeighMeasProc = elim (find_evict_neigh nmps) [
      | none ↦ nmps
      | some j ↦ take_slot_at nr c nmps j
    ] in
    add_cells nr n cells (if c.processed then nmps else nmps')

unfoldable pub process_meas_neigh : MeasRep → List NeighMeasProc → List NeighMeasProc
unfolding add_cells
process_meas_neigh mr nmps =
    let (mr', nmps') = update_neighs mr nmps in add_cells mr.nr mr.num_cell mr'.cell nmps'

-- The loop of `attempt_handover`: the best cell so far, and by how much it is better.
unfoldable pub find_best :
    Settings → ℕ → List NeighMeasProc → Option NeighMeasProc → ℕ → Option NeighMeasProc
unfolding neigh_meas_avg
find_best net rx_lev [] best best_better_db = best
find_best net rx_lev (nmp ∷ nmps) best best_better_db =
    let avg = neigh_meas_avg nmp net.win_rxlev_avg_neigh in
    let better = avg - rx_lev in
    let takes =
      not (nmp.arfcn == 0)
      && not (ltb avg (rx_lev + net.pwr_hysteresis))
      && ltb best_better_db better in
    find_best net rx_lev nmps (if takes then some nmp else best)
      (if takes then better else best_better_db)

-- What comes of a report: nothing, a cell that no base station has, or a handover to the base
-- station at a place in the list of the network.
pub data Decision : Type 0 where
  stay : Decision
  unknown_cell : Decision
  start : ℕ → Decision

unfoldable pub gsm_bts_neighbor : List Cell → ℕ → ℕ → ℕ → Option ℕ
gsm_bts_neighbor [] arfcn bsic j = none
gsm_bts_neighbor (b ∷ bts_list) arfcn bsic j =
    let rest = gsm_bts_neighbor bts_list arfcn bsic (j + 1) in
    if (b.arfcn == arfcn) && (b.bsic == bsic) then some j else rest

unfoldable pub handover_to_arfcn_bsic : List Cell → ℕ → ℕ → Decision
unfolding gsm_bts_neighbor
handover_to_arfcn_bsic bts_list arfcn bsic = elim (gsm_bts_neighbor bts_list arfcn bsic 0) [
  | none ↦ unknown_cell
  | some j ↦ start j
]

unfoldable pub attempt_handover : Settings → List Cell → MeasRep → List NeighMeasProc → Decision
unfolding find_best handover_to_arfcn_bsic
attempt_handover net bts_list mr nmps = elim (find_best net mr.dl.full.rx_lev nmps none 0) [
  | none ↦ stay
  | some nmp ↦ if not net.active then stay else handover_to_arfcn_bsic bts_list nmp.arfcn nmp.bsic
]

-- What `process_meas_rep` reads and writes of a channel.
pub record MeasLchan : Type 0 where
  pub is_tch : Bool
  pub reps : Lchan
  pub neigh_meas : List NeighMeasProc

abbrev pub dlev : MeasRep → MeasRepField
dlev mr = if mr.dl_dtx then dl_rxlev_sub else dl_rxlev_full

abbrev pub dqual : MeasRep → MeasRepField
dqual mr = if mr.dl_dtx then dl_rxqual_sub else dl_rxqual_full

-- The tests in their order, each of which attempts a handover.
unfoldable pub is_due : (ℕ → ℕ) → Settings → MeasRep → Lchan → Bool
is_due minus_dbm net mr reps =
    let av_rxlev = get_meas_rep_avg reps (dlev mr) net.win_rxlev_avg in
    let bad_quality = meas_rep_n_out_of_m_be reps (dqual mr) 3 4 5 in
    (ltb (minus_dbm av_rxlev) 85 && bad_quality)
    || bad_quality
    || leb 110 (minus_dbm av_rxlev)
    || ltb net.max_distance mr.ta
    || (mr.nr % net.pwr_interval == net.pwr_interval - 1)

unfoldable pub process_meas_rep :
    (ℕ → ℕ) → Settings → List Cell → MeasRep → MeasLchan → Decision × MeasLchan
unfolding is_due process_meas_neigh attempt_handover
process_meas_rep minus_dbm net bts_list mr lc =
    let nmps =
      if ltb 0 mr.num_cell && ltb mr.num_cell 7
      then process_meas_neigh mr lc.neigh_meas
      else lc.neigh_meas in
    let decision =
      if is_due minus_dbm net mr lc.reps then attempt_handover net bts_list mr nmps else stay in
    if not lc.is_tch then (stay, lc) else (decision, record lc { neigh_meas = nmps })
