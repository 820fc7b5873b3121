-- ===== src/Decision/Process.antt =====
-- The whole handling of a report, openbsc/src/libbsc/handover_decision.c, with the ring of reports.
use mathlib.Core.Path.{subst}
use openbsc.Base.{
  sym, ℕ, ◌≤◌, ◌≡◌, refl, Bool, true, false, not, ◌&&◌, List, ◌++◌, if◌then◌else◌, ltb, some, inl,
  inr, arith,
}
use openbsc.Measure.{MeasRep}
use openbsc.Measure.History.{fresh, old, receive, latest, meas_rep_n_out_of_m_be-receive}
use openbsc.Measure.Ring.{count_latest}
use openbsc.Decision.{
  Settings, Cell, Decision, stay, start, MeasLchan, dqual, is_due, process_meas_rep,
  process_meas_neigh, attempt_handover, handover_to_arfcn_bsic, gsm_bts_neighbor, NeighMeasProc,
}
use openbsc.Decision.Best.{IsBest, attempt_handover-IsBest}

-- Of a traffic channel, a report after which at least three of the four newest qualities are 5 or
-- worse leads to an attempt, whatever the settings for the other triggers.
bad_quality :
    (minus_dbm : ℕ → ℕ) (net : Settings) (mr r1 r2 r3 r4 r5 r6 : MeasRep) (rs : List MeasRep)
    → 3 ≤ count_latest (latest (rs ++ old r1 r2 r3 r4 r5 r6) (dqual mr)) 5 4
    → is_due minus_dbm net mr (receive rs (fresh r1 r2 r3 r4 r5 r6)) ≡ true
unfolding is_due
bad_quality minus_dbm net mr r1 r2 r3 r4 r5 r6 rs h = ground (
  arith,
  meas_rep_n_out_of_m_be-receive r1 r2 r3 r4 r5 r6 rs (dqual mr) 3 4 5 (omega arith) (omega arith),
)

handover_to_arfcn_bsic-start :
    (bts_list : List Cell) (arfcn bsic j : ℕ)
    → handover_to_arfcn_bsic bts_list arfcn bsic ≡ start j
    → gsm_bts_neighbor bts_list arfcn bsic 0 ≡ some j
unfolding handover_to_arfcn_bsic
handover_to_arfcn_bsic-start bts_list arfcn bsic j h = ground (arith, h)

-- A handover is started.
unfoldable pub IsStarted : Settings → List Cell → MeasRep → List NeighMeasProc → ℕ → Type 0
IsStarted net bts_list mr nmps j =
    (net.active ≡ true)
    × ((n : NeighMeasProc) × IsBest net mr.dl.full.rx_lev nmps n
        × (gsm_bts_neighbor bts_list n.arfcn n.bsic 0 ≡ some j))

attempt_handover-start :
    (net : Settings) (bts_list : List Cell) (mr : MeasRep) (nmps : List NeighMeasProc) (j : ℕ)
    → attempt_handover net bts_list mr nmps ≡ start j
    → IsStarted net bts_list mr nmps j
unfolding IsStarted
attempt_handover-start net bts_list mr nmps j h =
    elim (attempt_handover-IsBest net bts_list mr nmps) [
      | inl (none_better, e) ↦ absurd (ground (arith, h, e))
      | inr (n, b, e) ↦
          let a : net.active ≡ true = ground (arith, h, e) in
          let k : handover_to_arfcn_bsic bts_list n.arfcn n.bsic ≡ start j = ground (arith, h, e) in
          (a, (n, b, handover_to_arfcn_bsic-start bts_list n.arfcn n.bsic j k))
    ]

abbrev outcome : Bool → Bool → MeasLchan → MeasLchan → Decision → Decision × MeasLchan
outcome tch due lc lc' d = if not tch then (stay, lc) else (if due then d else stay, lc')

started :
    (tch due : Bool) (lc lc' : MeasLchan) (d : Decision) (j : ℕ)
    → (outcome tch due lc lc' d).0 ≡ start j
    → (tch ≡ true) × (due ≡ true) × (d ≡ start j) × ((outcome tch due lc lc' d).1 ≡ lc')
started true true lc lc' d j h = (refl, refl, h, refl)
started true false lc lc' d j h = absurd (ground (arith, h))
started false due lc lc' d j h = absurd (ground (arith, h))

-- A report leads to the start of a handover to the base station `j` only for a traffic channel,
-- with handover active, when a trigger fires, and when `j` is the first base station with the ARFCN
-- and BSIC of a best neighbour among the updated ones.
pub process_meas_rep-start :
    (minus_dbm : ℕ → ℕ) (net : Settings) (bts_list : List Cell) (mr : MeasRep) (lc : MeasLchan)
    (j : ℕ)
    → (process_meas_rep minus_dbm net bts_list mr lc).0 ≡ start j
    → (lc.is_tch ≡ true)
      × (is_due minus_dbm net mr lc.reps ≡ true)
      × IsStarted net bts_list mr (process_meas_rep minus_dbm net bts_list mr lc).1.neigh_meas j
unfolding process_meas_rep
process_meas_rep-start minus_dbm net bts_list mr lc j h =
    let nmps : List NeighMeasProc =
      if ltb 0 mr.num_cell && ltb mr.num_cell 7
      then process_meas_neigh mr lc.neigh_meas
      else lc.neigh_meas in
    let lc' : MeasLchan = record lc { neigh_meas = nmps } in
    let (t, due, d, e) =
      started lc.is_tch (is_due minus_dbm net mr lc.reps) lc lc'
        (attempt_handover net bts_list mr nmps) j h in
    (
      t,
      due,
      subst (λ (l : MeasLchan). IsStarted net bts_list mr l.neigh_meas j) (sym e)
          (attempt_handover-start net bts_list mr nmps j d),
    )
