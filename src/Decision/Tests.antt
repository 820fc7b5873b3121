-- ===== src/Decision/Tests.antt =====
-- Handover decisions by example.
use openbsc.Base.{ℕ, ◌-◌, ◌≡◌, refl, true, false, some, List, [], ◌∷◌, replicate, arith}
use openbsc.Measure.{
  MeasRep, no_rep, no_reps, no_unidir, calc_initial_idx, sum_ring, count_ring, get_meas_rep_avg,
  meas_rep_n_out_of_m_be,
}
use openbsc.Measure.Ring.{sum_latest}
use openbsc.Decision.{
  NeighMeasProc, Settings, Cell, start, MeasLchan, neigh_meas_avg, find_empty, find_worst,
  find_evict_neigh, add_cells, process_meas_neigh, find_best, gsm_bts_neighbor,
  handover_to_arfcn_bsic, attempt_handover, is_due, process_meas_rep, take_slot,
}
use openbsc.Decision.Neighbours.{level_back, neigh_meas_avg-take_slot}
use openbsc.Decision.Process.{IsStarted, process_meas_rep-start}

program : Unit {0}
unfolding calc_initial_idx sum_ring count_ring get_meas_rep_avg meas_rep_n_out_of_m_be
    neigh_meas_avg find_empty find_worst find_evict_neigh add_cells process_meas_neigh find_best
    gsm_bts_neighbor handover_to_arfcn_bsic attempt_handover is_due process_meas_rep sum_latest
    level_back
program = tt

-- A slot with ten times the same level.
abbrev slot : ℕ → ℕ → NeighMeasProc
slot arfcn level = record {
  arfcn = arfcn;
  bsic = 7;
  rxlev = replicate 10 level;
  rxlev_cnt = 10;
  last_seen_nr = 0;
}

abbrev settings : Settings
settings = record {
  active = true;
  win_rxlev_avg = 6;
  win_rxlev_avg_neigh = 10;
  pwr_interval = 6;
  pwr_hysteresis = 3;
  max_distance = 9999;
}

abbrev cells : List Cell
cells =
    record { arfcn = 870; bsic = 7 }
    ∷ record { arfcn = 871; bsic = 7 }
    ∷ record { arfcn = 872; bsic = 7 }
    ∷ []

-- The sixth report, at a level of 10, of one neighbour at 40.
abbrev report : MeasRep
report = record no_rep {
  nr = 5;
  dl = record no_unidir { full = record { rx_lev = 10; rx_qual = 0 } };
  num_cell = 1;
  cell = record { rxlev = 40; bsic = 7; arfcn = 871; processed = false } ∷ [];
}

abbrev lchan : MeasLchan
lchan = record {
  is_tch = true;
  reps = no_reps;
  neigh_meas = slot 870 12 ∷ slot 871 40 ∷ slot 872 30 ∷ [];
}

abbrev minus_dbm : ℕ → ℕ
minus_dbm level = 110 - level

starts : (process_meas_rep minus_dbm settings cells report lchan).0 ≡ start 1
unfolding program
starts = refl

-- All slots are in use, and the worst is taken.
evicts : find_evict_neigh lchan.neigh_meas ≡ some 0
unfolding program
evicts = refl

process_meas_rep-start_example :
    (lchan.is_tch ≡ true)
    × (is_due minus_dbm settings report lchan.reps ≡ true)
    × IsStarted settings cells report
        (process_meas_rep minus_dbm settings cells report lchan).1.neigh_meas
        1
process_meas_rep-start_example =
    process_meas_rep-start minus_dbm settings cells report lchan 1 starts

-- A cell at the lowest level inherits 36 of the 40 of the cell before it.
neigh_meas_avg-take_slot_example :
    neigh_meas_avg
      (take_slot 6 (record { rxlev = 0; bsic = 1; arfcn = 900; processed = false }) (slot 871 40))
      10
    ≡ 36
unfolding sum_latest level_back
neigh_meas_avg-take_slot_example =
    neigh_meas_avg-take_slot 6 (record { rxlev = 0; bsic = 1; arfcn = 900; processed = false })
      (slot 871 40) 9 refl (omega arith) (omega arith)
