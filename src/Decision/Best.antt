-- ===== src/Decision/Best.antt =====
-- The cell that a handover is attempted to, openbsc/src/libbsc/handover_decision.c.
use openbsc.Base.{
  ℕ, ◌+◌, ◌-◌, ◌≤◌, ◌<◌, ◌≡◌, ◌≢◌, refl, Bool, true, false, not, ◌&&◌, Option, none, some, ◌⊎◌, inl,
  inr, List, [], ◌∷◌, if◌then◌else◌, ltb, ◌==◌, All, Bool-cases, arith,
}
use openbsc.Measure.{MeasRep}
use openbsc.Decision.{
  NeighMeasProc, Settings, Cell, Decision, stay, neigh_meas_avg, find_best, attempt_handover,
  handover_to_arfcn_bsic,
}

module _ (net : Settings) (rx_lev : ℕ) where
  abbrev pub average : NeighMeasProc → ℕ
  average nmp = neigh_meas_avg nmp net.win_rxlev_avg_neigh

  -- A slot in use whose average is better than the serving cell's level, by the hysteresis at least.
  pub record Qualifies (nmp : NeighMeasProc) : Type 0 where
    pub in_use : nmp.arfcn ≢ 0
    pub hysteresis : rx_lev + net.pwr_hysteresis ≤ average nmp
    pub better : rx_lev < average nmp

  abbrev pub AtMost : ℕ → NeighMeasProc → Type 0
  AtMost bound nmp = Qualifies nmp → average nmp ≤ bound

  abbrev pub IsIn : NeighMeasProc → List NeighMeasProc → Type 0
  IsIn n [] = ⊥
  IsIn n (m ∷ ms) = (n ≡ m) ⊎ IsIn n ms

  pub record IsBest (nmps : List NeighMeasProc) (n : NeighMeasProc) : Type 0 where
    pub is_in : IsIn n nmps
    pub qualifies : Qualifies n
    pub best : All (AtMost (average n)) nmps

  takes : NeighMeasProc → ℕ → Bool
  takes nmp db =
      not (nmp.arfcn == 0)
      && not (ltb (average nmp) (rx_lev + net.pwr_hysteresis))
      && ltb db (average nmp - rx_lev)

  takes-Qualifies :
      (nmp : NeighMeasProc) (db : ℕ)
      → takes nmp db ≡ true
      → Qualifies nmp × (rx_lev + db < average nmp)
  unfolding takes
  takes-Qualifies nmp db e = (
    record { in_use = λ z. ground arith; hysteresis = ground arith; better = ground arith },
    ground arith,
  )

  not_takes-AtMost :
      (nmp : NeighMeasProc) (db : ℕ) → takes nmp db ≡ false → AtMost (rx_lev + db) nmp
  unfolding takes
  not_takes-AtMost nmp db e q = ground (arith, q.in_use, q.hysteresis, q.better)

  AtMost-weaken :
      (a b : ℕ) → a ≤ b → (nmps : List NeighMeasProc) → All (AtMost a) nmps → All (AtMost b) nmps
  AtMost-weaken a b l [] h = tt
  AtMost-weaken a b l (n ∷ nmps) h = (λ q. omega (arith, h.0 q), AtMost-weaken a b l nmps h.1)

  -- What the loop returns: the best cell so far, which no other one beats, or a better one.
  Found : List NeighMeasProc → Option NeighMeasProc → ℕ → Option NeighMeasProc → Type 0
  Found nmps best db r =
      ((r ≡ best) × All (AtMost (rx_lev + db)) nmps)
      ⊎ ((n : NeighMeasProc) × (r ≡ some n) × IsBest nmps n × (rx_lev + db < average n))

  Found-here :
      (nmp : NeighMeasProc) (nmps : List NeighMeasProc) (best : Option NeighMeasProc) (db : ℕ)
      (r : Option NeighMeasProc)
      → takes nmp db ≡ true
      → Found nmps (some nmp) (average nmp - rx_lev) r
      → Found (nmp ∷ nmps) best db r
  unfolding Found
  Found-here nmp nmps best db r e (inl (p, all)) =
      let (q, l) = takes-Qualifies nmp db e in
      let here : IsBest (nmp ∷ nmps) nmp = record {
        is_in = inl refl;
        qualifies = q;
        best = (λ _. omega arith, AtMost-weaken _ (average nmp) (omega (arith, q.better)) nmps all);
      } in
      inr (nmp, p, here, l)
  Found-here nmp nmps best db r e (inr (n, p, b, l)) =
      let (q, l') = takes-Qualifies nmp db e in
      let there : IsBest (nmp ∷ nmps) n = record {
        is_in = inr b.is_in;
        qualifies = b.qualifies;
        best = (λ _. omega arith, b.best);
      } in
      inr (n, p, there, omega arith)

  Found-later :
      (nmp : NeighMeasProc) (nmps : List NeighMeasProc) (best : Option NeighMeasProc) (db : ℕ)
      (r : Option NeighMeasProc)
      → takes nmp db ≡ false
      → Found nmps best db r
      → Found (nmp ∷ nmps) best db r
  unfolding Found
  Found-later nmp nmps best db r e (inl (p, all)) = inl (p, (not_takes-AtMost nmp db e, all))
  Found-later nmp nmps best db r e (inr (n, p, b, l)) =
      let there : IsBest (nmp ∷ nmps) n = record {
        is_in = inr b.is_in;
        qualifies = b.qualifies;
        best = (λ q. omega (arith, not_takes-AtMost nmp db e q), b.best);
      } in
      inr (n, p, there, l)

  find_best-Found :
      (nmps : List NeighMeasProc) (best : Option NeighMeasProc) (db : ℕ)
      → Found nmps best db (find_best net rx_lev nmps best db)
  unfolding find_best Found takes
  find_best-Found [] best db = inl (refl, tt)
  find_best-Found (nmp ∷ nmps) best db = elim (Bool-cases (takes nmp db)) [
    | inl e ↦
        Found-here nmp nmps best db (find_best net rx_lev (nmp ∷ nmps) best db) e
          (rw e (find_best-Found nmps (some nmp) (average nmp - rx_lev)))
    | inr e ↦
        Found-later nmp nmps best db (find_best net rx_lev (nmp ∷ nmps) best db) e
          (rw e (find_best-Found nmps best db))
  ]

  no_Qualifies :
      (nmps : List NeighMeasProc) → All (AtMost (rx_lev + 0)) nmps → All (λ m. ¬ Qualifies m) nmps
  no_Qualifies [] h = tt
  no_Qualifies (n ∷ nmps) h = (λ q. omega (arith, h.0 q, q.better), no_Qualifies nmps h.1)

if_not : (b : Bool) (x y : Decision) → (if not b then x else y) ≡ (if b then y else x)
if_not true x y = refl
if_not false x y = refl

-- A handover is attempted to a neighbour exactly when one qualifies (its slot is in use, and its
-- average is above the serving cell's level, by the hysteresis at least), to one whose average no
-- other qualifying one exceeds; and only if handover is active.
pub attempt_handover-IsBest :
    (net : Settings) (bts_list : List Cell) (mr : MeasRep) (nmps : List NeighMeasProc)
    → (All (λ m. ¬ Qualifies net mr.dl.full.rx_lev m) nmps
        × (attempt_handover net bts_list mr nmps ≡ stay))
      ⊎ ((n : NeighMeasProc) × IsBest net mr.dl.full.rx_lev nmps n
          × (attempt_handover net bts_list mr nmps
              ≡ (if net.active then handover_to_arfcn_bsic bts_list n.arfcn n.bsic else stay)))
unfolding attempt_handover Found
attempt_handover-IsBest net bts_list mr nmps =
    elim (find_best-Found net mr.dl.full.rx_lev nmps none 0) [
      | inl (p, all) ↦
          inl (no_Qualifies net mr.dl.full.rx_lev nmps all, rw (p, attempt_handover) refl)
      | inr (n, p, b, l) ↦ inr (
        n,
        b,
        rw (p, attempt_handover)
            (if_not net.active stay (handover_to_arfcn_bsic bts_list n.arfcn n.bsic)),
      )
    ]
