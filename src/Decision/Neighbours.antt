-- ===== src/Decision/Neighbours.antt =====
-- The levels of a neighbour cell, openbsc/src/libbsc/handover_decision.c: a slot keeps ten of them
-- in a ring.
use openbsc.Base.{
  ℕ, zero, suc, ◌+◌, ◌-◌, ◌/◌, ◌%◌, ◌≤◌, ◌<◌, ◌≡◌, refl, ap, ◌∙◌, length, get_or-set_self,
  get_or-set_ne, arith,
}
use openbsc.Measure.{calc_initial_idx, MeasRepCell}
use openbsc.Measure.Ring.{sum_latest, sum_ring_lem, calc_initial_idx_lem}
use openbsc.Decision.{NeighMeasProc, neigh_meas_avg, rxlev_at, take_slot}

-- The level that a slot was given k levels before the newest.
unfoldable pub level_back : NeighMeasProc → ℕ → ℕ
level_back nmp k = rxlev_at nmp ((nmp.rxlev_cnt + 9 - k) % 10)

start_place :
    (idx num i : ℕ)
    → idx < 10
    → num ≤ 10
    → i < num
    → (calc_initial_idx 10 idx num + i) % 10 ≡ (idx + 9 - (num - 1 - i)) % 10
start_place idx num i h l b = rw (calc_initial_idx_lem 10 idx num h l (omega arith)) (ground arith)

start_bound : (idx num : ℕ) → idx < 10 → num ≤ 10 → calc_initial_idx 10 idx num + num < 4294967296
start_bound idx num h l = rw (calc_initial_idx_lem 10 idx num h l (omega arith)) (ground arith)

-- The average over a window is that of the newest levels of the slot.
pub neigh_meas_avg_lem :
    (nmp : NeighMeasProc) (window : ℕ)
    → window ≤ 10
    → neigh_meas_avg nmp window ≡ sum_latest (level_back nmp) window / window
unfolding neigh_meas_avg level_back
neigh_meas_avg_lem nmp window l =
    let idx = nmp.rxlev_cnt % 10 in
    ap (λ s. s / window)
      (sum_ring_lem (rxlev_at nmp) 10 (calc_initial_idx 10 idx window) (level_back nmp) window
        (start_bound idx window (omega arith) l)
        (λ i b. ap (rxlev_at nmp) (start_place idx window i (omega arith) l b ∙ omega arith)))

sum_latest-cons :
    (h g : ℕ → ℕ) (n : ℕ)
    → ((k : ℕ) → k < n → h (suc k) ≡ g k)
    → sum_latest h (suc n) ≡ h 0 + sum_latest g n
unfolding sum_latest
sum_latest-cons h g zero e = refl
sum_latest-cons h g (suc n) e =
    omega (arith, e n (omega arith), sum_latest-cons h g n (λ k l. e k (omega arith)))

take_slot_newest :
    (nr : ℕ) (c : MeasRepCell) (nmp : NeighMeasProc)
    → length nmp.rxlev ≡ 10
    → nmp.rxlev_cnt + 1 < 4294967296
    → level_back (take_slot nr c nmp) 0 ≡ c.rxlev
unfolding level_back
take_slot_newest nr c nmp s b =
    ap (rxlev_at (take_slot nr c nmp)) (omega arith)
    ∙ get_or-set_self nmp.rxlev (nmp.rxlev_cnt % 10) c.rxlev 0 (omega arith)

take_slot_older :
    (nr : ℕ) (c : MeasRepCell) (nmp : NeighMeasProc) (k : ℕ)
    → nmp.rxlev_cnt + 1 < 4294967296
    → k < 9
    → level_back (take_slot nr c nmp) (suc k) ≡ level_back nmp k
unfolding level_back
take_slot_older nr c nmp k b l =
    get_or-set_ne nmp.rxlev (nmp.rxlev_cnt % 10)
      (((nmp.rxlev_cnt + 1) % 4294967296 + 9 - suc k) % 10) c.rxlev 0 (λ e. omega arith)
    ∙ ap (rxlev_at nmp) (omega arith)

-- A slot that is given to another cell, with a level `x` in the report, has as its average over a
-- window the mean of `x` and of the newest levels of the cell that had the slot before.
pub neigh_meas_avg-take_slot :
    (nr : ℕ) (c : MeasRepCell) (nmp : NeighMeasProc) (window : ℕ)
    → length nmp.rxlev ≡ 10
    → nmp.rxlev_cnt + 1 < 4294967296
    → window < 10
    → neigh_meas_avg (take_slot nr c nmp) (suc window)
      ≡ (c.rxlev + sum_latest (level_back nmp) window) / suc window
neigh_meas_avg-take_slot nr c nmp window s b l =
    neigh_meas_avg_lem (take_slot nr c nmp) (suc window) (omega arith)
    ∙ ap (λ n. n / suc window)
        (sum_latest-cons (level_back (take_slot nr c nmp)) (level_back nmp) window
            (λ k h. take_slot_older nr c nmp k b (omega arith))
          ∙ ap (λ x. x + sum_latest (level_back nmp) window) (take_slot_newest nr c nmp s b))
