-- ===== src/Measure/History.antt =====
-- The averages and counts of openbsc/src/libbsc/meas_rep.c against the list of the reports that a
-- channel has received, the newest first.
use openbsc.Base.{
  ℕ, zero, suc, ◌+◌, ◌-◌, ◌%◌, ◌≤◌, ◌<◌, ◌≡◌, refl, ap, ◌∙◌, List, [], ◌∷◌, ◌++◌, leb, get_or, set,
  length, length-set, get_or-set_self, get_or-set_ne, arith,
}
use openbsc.Measure.{
  MeasRep, MeasRepField, Lchan, get_field, no_rep, meas_rep_size, add_rep, field_at,
  calc_initial_idx, meas_rep_n_out_of_m_be,
}
use openbsc.Measure.Ring.{count_latest, Window, count_ring_lem, calc_initial_idx_lem}

-- A channel whose ring holds six reports when it is freed or set up, which puts the index at 0.
abbrev pub fresh : MeasRep → MeasRep → MeasRep → MeasRep → MeasRep → MeasRep → Lchan
fresh r1 r2 r3 r4 r5 r6 = record { meas_rep = r1 ∷ r2 ∷ r3 ∷ r4 ∷ r5 ∷ r6 ∷ []; meas_rep_idx = 0 }

-- The channel after the reports of a list, the newest of which stands first.
unfoldable pub receive : List MeasRep → Lchan → Lchan
receive [] lc = lc
receive (r ∷ rs) lc = add_rep r (receive rs lc)

-- A field of the k-th newest report, 0 where there is none.
abbrev pub latest : List MeasRep → MeasRepField → ℕ → ℕ
latest rs field k = get_field (get_or rs k no_rep) field

-- The ring holds the six newest reports.
record Holds (lc : Lchan) (rs : List MeasRep) : Type 0 where
  size : length lc.meas_rep ≡ 6
  idx : lc.meas_rep_idx < 6
  reps :
      (k : ℕ)
      → k < 6
      → get_or lc.meas_rep ((lc.meas_rep_idx + 5 - k) % 6) no_rep ≡ get_or rs k no_rep

add_rep-Holds :
    (r : MeasRep) (lc : Lchan) (rs : List MeasRep) → Holds lc rs → Holds (add_rep r lc) (r ∷ rs)
add_rep-Holds r lc rs h = record {
  size =
      length-set (set lc.meas_rep lc.meas_rep_idx no_rep) lc.meas_rep_idx r
      ∙ length-set lc.meas_rep lc.meas_rep_idx no_rep
      ∙ h.size;
  idx = omega arith;
  reps = λ k. added k;
}
  where
    inner : List MeasRep
    inner = set lc.meas_rep lc.meas_rep_idx no_rep

    added :
        (k : ℕ)
        → k < 6
        → get_or (set inner lc.meas_rep_idx r) (((lc.meas_rep_idx + 1) % 6 + 5 - k) % 6) no_rep
          ≡ get_or (r ∷ rs) k no_rep
    added zero l =
        ap (λ j. get_or (set inner lc.meas_rep_idx r) j no_rep) (omega (arith, h.idx))
        ∙ get_or-set_self inner lc.meas_rep_idx r no_rep
            (omega (arith, h.idx, h.size, length-set lc.meas_rep lc.meas_rep_idx no_rep))
    added (suc k) l =
        let i = lc.meas_rep_idx in
        let j = ((i + 1) % 6 + 5 - suc k) % 6 in
        get_or-set_ne inner i j r no_rep (λ e. omega (arith, h.idx))
        ∙ get_or-set_ne lc.meas_rep i j no_rep no_rep (λ e. omega (arith, h.idx))
        ∙ ap (λ n. get_or lc.meas_rep n no_rep) (omega (arith, h.idx))
        ∙ h.reps k (omega arith)

module _ (r1 r2 r3 r4 r5 r6 : MeasRep) where
  -- These reports, the newest first.
  abbrev pub old : List MeasRep
  old = r6 ∷ r5 ∷ r4 ∷ r3 ∷ r2 ∷ r1 ∷ []

  fresh-Holds : Holds (fresh r1 r2 r3 r4 r5 r6) old
  fresh-Holds = record { size = refl; idx = omega arith; reps = slot }
    where
      slot :
          (k : ℕ)
          → k < 6
          → get_or (fresh r1 r2 r3 r4 r5 r6).meas_rep ((0 + 5 - k) % 6) no_rep ≡ get_or old k no_rep
      slot zero l = refl
      slot (suc zero) l = refl
      slot (suc (suc zero)) l = refl
      slot (suc (suc (suc zero))) l = refl
      slot (suc (suc (suc (suc zero)))) l = refl
      slot (suc (suc (suc (suc (suc zero))))) l = refl
      slot (suc (suc (suc (suc (suc (suc k)))))) l = absurd (omega (arith, l))

  receive-Holds : (rs : List MeasRep) → Holds (receive rs (fresh r1 r2 r3 r4 r5 r6)) (rs ++ old)
  unfolding receive
  receive-Holds [] = fresh-Holds
  receive-Holds (r ∷ rs) =
      add_rep-Holds r (receive rs (fresh r1 r2 r3 r4 r5 r6)) (rs ++ old) (receive-Holds rs)

-- The `k` values before the index are read from the start index on.
start_place :
    (idx num i : ℕ)
    → idx < 6
    → num ≤ 6
    → i < num
    → (calc_initial_idx 6 idx num + i) % 6 ≡ (idx + 5 - (num - 1 - i)) % 6
start_place idx num i h l b = rw (calc_initial_idx_lem 6 idx num h l (omega arith)) (ground arith)

start_bound : (idx num : ℕ) → idx < 6 → num ≤ 6 → calc_initial_idx 6 idx num + num < 4294967296
start_bound idx num h l = rw (calc_initial_idx_lem 6 idx num h l (omega arith)) (ground arith)

receive-Window :
    (r1 r2 r3 r4 r5 r6 : MeasRep) (rs : List MeasRep) (field : MeasRepField) (num : ℕ)
    → num ≤ 6
    → Window
        (field_at (receive rs (fresh r1 r2 r3 r4 r5 r6)) field)
        6
        (calc_initial_idx meas_rep_size (receive rs (fresh r1 r2 r3 r4 r5 r6)).meas_rep_idx num)
        (latest (rs ++ old r1 r2 r3 r4 r5 r6) field)
        num
receive-Window r1 r2 r3 r4 r5 r6 rs field num l i b =
    let h = receive-Holds r1 r2 r3 r4 r5 r6 rs in
    ap (field_at (receive rs (fresh r1 r2 r3 r4 r5 r6)) field)
      (start_place (receive rs (fresh r1 r2 r3 r4 r5 r6)).meas_rep_idx num i h.idx l b)
    ∙ ap (λ r. get_field r field) (h.reps (num - 1 - i) (omega arith))

-- The test of the last `m` reports, up to six, is whether at least `n` of the values in the newest
-- reports received reach the bound.
pub meas_rep_n_out_of_m_be-receive :
    (r1 r2 r3 r4 r5 r6 : MeasRep) (rs : List MeasRep) (field : MeasRepField) (n m be : ℕ)
    → 1 ≤ n
    → m ≤ 6
    → meas_rep_n_out_of_m_be (receive rs (fresh r1 r2 r3 r4 r5 r6)) field n m be
      ≡ leb n (count_latest (latest (rs ++ old r1 r2 r3 r4 r5 r6) field) be m)
unfolding meas_rep_n_out_of_m_be
meas_rep_n_out_of_m_be-receive r1 r2 r3 r4 r5 r6 rs field n m be o l =
    let idx = calc_initial_idx 6 (receive rs (fresh r1 r2 r3 r4 r5 r6)).meas_rep_idx m in
    count_ring_lem (field_at (receive rs (fresh r1 r2 r3 r4 r5 r6)) field) 6 be n idx 0
      (latest (rs ++ old r1 r2 r3 r4 r5 r6) field) m
      (start_bound (receive rs (fresh r1 r2 r3 r4 r5 r6)).meas_rep_idx m
        (receive-Holds r1 r2 r3 r4 r5 r6 rs).idx l)
      o (receive-Window r1 r2 r3 r4 r5 r6 rs field m l)
    ∙ ap (leb n) (omega arith)
