-- ===== src/Measure/Window.antt =====
-- Windows that are longer than the ring of reports, openbsc/src/libbsc/meas_rep.c: the default of
-- `win_rxlev_avg`, openbsc/src/libbsc/net_init.c, is 10.
use openbsc.Base.{ℕ, zero, suc, ◌+◌, ◌-◌, ◌/◌, ◌≤◌, ◌≡◌, ap, false, ltb, arith}
use openbsc.Measure.{MeasRepField, Lchan, field_at, sum_ring, calc_initial_idx, get_meas_rep_avg}

-- The sum over `n` slots from one on.
abbrev pub slots : (ℕ → ℕ) → ℕ → ℕ → ℕ
slots value start zero = 0
slots value start (suc n) = value start + slots value (start + 1) n

long_sum :
    (value : ℕ → ℕ) (idx k : ℕ)
    → 1 ≤ k
    → idx + k ≤ 4
    → sum_ring value 6 (calc_initial_idx 6 idx (idx + 6 + k)) (idx + 6 + k)
      ≡ slots value (4 - k) k + slots value 0 6 + slots value 0 idx
unfolding sum_ring calc_initial_idx
long_sum value zero (suc zero) h l = omega arith
long_sum value zero (suc (suc zero)) h l = omega arith
long_sum value zero (suc (suc (suc zero))) h l = omega arith
long_sum value zero (suc (suc (suc (suc zero)))) h l = omega arith
long_sum value (suc zero) (suc zero) h l = omega arith
long_sum value (suc zero) (suc (suc zero)) h l = omega arith
long_sum value (suc zero) (suc (suc (suc zero))) h l = omega arith
long_sum value (suc (suc zero)) (suc zero) h l = omega arith
long_sum value (suc (suc zero)) (suc (suc zero)) h l = omega arith
long_sum value (suc (suc (suc zero))) (suc zero) h l = omega arith
long_sum value idx k h l = absurd (omega (arith, h, l))

-- For a window of up to ten reports that is at least seven and k more than six and the index of the
-- ring, the average counts each of the six slots of the ring once, the slots before the index once
-- more, and the last k of the first four slots once more, wherever the newest reports are.
pub get_meas_rep_avg_long :
    (lc : Lchan) (field : MeasRepField) (k : ℕ)
    → 1 ≤ k
    → lc.meas_rep_idx + k ≤ 4
    → get_meas_rep_avg lc field (lc.meas_rep_idx + 6 + k)
      ≡ (slots (field_at lc field) (4 - k) k
          + slots (field_at lc field) 0 6
          + slots (field_at lc field) 0 lc.meas_rep_idx)
        / (lc.meas_rep_idx + 6 + k)
unfolding get_meas_rep_avg
get_meas_rep_avg_long lc field k h l =
    let some_values : ltb (lc.meas_rep_idx + 6 + k) 1 ≡ false = ground arith in
    rw some_values
      (ap (λ n. n / (lc.meas_rep_idx + 6 + k)) (long_sum (field_at lc field) lc.meas_rep_idx k h l))
