-- ===== src/Measure/Tests.antt =====
-- Measurement reports by example.
use openbsc.Base.{ℕ, ◌+◌, ◌≡◌, refl, List, [], ◌∷◌, ◌/◌, arith}
use openbsc.Measure.{
  MeasRep, Lchan, no_rep, no_unidir, field_at, get_meas_rep_avg, dl_rxlev_full, calc_initial_idx,
}
use openbsc.Measure.History.{fresh, receive}
use openbsc.Measure.Window.{slots, get_meas_rep_avg_long}

abbrev report : ℕ → ℕ → MeasRep
report level quality = record no_rep {
  dl = record no_unidir { full = record { rx_lev = level; rx_qual = quality } };
}

abbrev reports : List MeasRep
reports = report 30 6 ∷ report 20 1 ∷ []

starts_before : calc_initial_idx 6 1 3 ≡ 4
unfolding calc_initial_idx
starts_before = refl

starts_out_of_range : calc_initial_idx 6 0 10 ≡ 4294967292
unfolding calc_initial_idx
starts_out_of_range = refl

-- Two reports on a channel that another call has used.
abbrev reused : Lchan
reused =
    receive reports
      (fresh (report 51 0) (report 52 0) (report 53 0) (report 54 0) (report 55 0) (report 56 0))

abbrev old_reports : List MeasRep
old_reports = report 56 0 ∷ report 55 0 ∷ report 54 0 ∷ report 53 0 ∷ report 52 0 ∷ report 51 0 ∷ []

-- Ten values of a ring of six whose index is 1.
abbrev ring : Lchan
ring = record {
  meas_rep = report 10 0 ∷ report 40 0 ∷ report 40 0 ∷ report 40 0 ∷ report 20 0 ∷ report 20 0 ∷ [];
  meas_rep_idx = 1;
}

get_meas_rep_avg_long_example :
    get_meas_rep_avg ring dl_rxlev_full 10
    ≡ (slots (field_at ring dl_rxlev_full) 1 3
        + slots (field_at ring dl_rxlev_full) 0 6
        + slots (field_at ring dl_rxlev_full) 0 1)
      / 10
get_meas_rep_avg_long_example =
    get_meas_rep_avg_long ring dl_rxlev_full 3 (omega arith) (omega arith)
