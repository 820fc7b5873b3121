-- ===== src/AccRamp/Interval.antt =====
-- openbsc/src/libbsc/acc_ramp.c: the interval between two steps of the ramp.
use openbsc.Base.{◌*◌, ◌≤◌, ◌<◌, ◌≡◌, false, ◌==◌, if◌then◌else◌, arith, min}
use openbsc.AccRamp.{Bts, AccRamp, get_next_step_interval, step_interval_min, step_interval_max}

-- Without a fixed interval the next step comes after six seconds for each percent of load, 600 at
-- most, and after 30 without load.
pub get_next_step_interval_lem :
    (b : Bts) (r : AccRamp)
    → r.step_interval_is_fixed ≡ false
    → (get_next_step_interval b r).1 ≡ (
        if b.chan_load_avg == 0
        then step_interval_min
        else min (6 * b.chan_load_avg) step_interval_max)
unfolding get_next_step_interval
get_next_step_interval_lem b r h = ground arith

-- Without a fixed interval, at a load of 1 to 4 percent, the interval is below the minimum of 30
-- seconds.
pub get_next_step_interval_short :
    (b : Bts) (r : AccRamp)
    → r.step_interval_is_fixed ≡ false
    → 1 ≤ b.chan_load_avg
    → b.chan_load_avg ≤ 4
    → (get_next_step_interval b r).1 < step_interval_min
get_next_step_interval_short b r h p q = ground (arith, get_next_step_interval_lem b r h)
