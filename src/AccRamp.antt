-- ===== src/AccRamp.antt =====
-- openbsc/src/libbsc/acc_ramp.c and openbsc/include/openbsc/acc_ramp.h: access control class ramping.
--
-- `Cell` joins the fields of `struct gsm_bts` that the ramp reads with its `struct acc_ramp`. The
-- step timer is the delay it was armed with while it is pending. `broadcast` lists the RACH control
-- octets of each round of system information that `gsm_bts_set_system_infos` sends, newest first.
pub mod Bars
pub mod Classes
pub mod Ramping
pub mod Sound
pub mod Progress
pub mod Interval
pub mod Signal
mod Tests
use openbsc.Base.{
  ℕ, zero, suc, ◌+◌, ◌-◌, ◌*◌, ◌/◌, ◌%◌, ◌^◌, Bool, true, false, not, ◌&&◌, ◌||◌, Option, none,
  some, List, [], ◌∷◌, ltb, ◌==◌, if◌then◌else◌, bit_and, bit_or,
}
use openbsc.Base.Bits.{◌<<<◌, ◌>>>◌, has_bit, test_bit, bit_not}

abbrev pub step_size_min : ℕ
step_size_min = 1

abbrev pub step_size_max : ℕ
step_size_max = 10

abbrev pub step_interval_min : ℕ
step_interval_min = 30

abbrev pub step_interval_max : ℕ
step_interval_max = 600

-- `struct gsm48_rach_control`, the two octets that bar access control classes.
pub record RachControl : Type 0 where
  pub t2 : ℕ
  pub t3 : ℕ

pub record Bts : Type 0 where
  pub rach_control : RachControl
  pub chan_load_avg : ℕ

pub record AccRamp : Type 0 where
  pub acc_ramping_enabled : Bool
  pub barred_accs : ℕ
  pub step_size : ℕ
  pub step_interval_sec : ℕ
  pub step_interval_is_fixed : Bool
  pub step_timer : Option ℕ

pub record Cell : Type 0 where
  pub bts : Bts
  pub ramp : AccRamp
  pub broadcast : List RachControl

-- The test `acc == 8 || acc == 9` and the two octets; the assertion `acc <= 9` is the callers'.
unfoldable pub acc_is_permanently_barred : Bts → ℕ → Bool
acc_is_permanently_barred b acc =
    if acc == 8 || acc == 9
    then has_bit b.rach_control.t2 (acc - 8)
    else has_bit b.rach_control.t3 acc

-- `barred_accs` is a `uint16_t`, so the assignment keeps sixteen bits.
unfoldable pub allow_one_acc : AccRamp → ℕ → AccRamp
allow_one_acc r acc = record r {
  barred_accs = bit_and r.barred_accs (bit_not 32 (1 <<< acc)) % 2 ^ 16;
}

unfoldable pub barr_one_acc : AccRamp → ℕ → AccRamp
barr_one_acc r acc = record r { barred_accs = bit_or r.barred_accs (1 <<< acc) % 2 ^ 16 }

-- The loops of `barr_all_accs` and `allow_all_accs`: `left` rounds from class `acc` on.
unfoldable pub barr_accs : Bts → ℕ → ℕ → AccRamp → AccRamp
barr_accs b zero acc r = r
barr_accs b (suc left) acc r =
    barr_accs b left (acc + 1) (if acc_is_permanently_barred b acc then r else barr_one_acc r acc)

unfoldable pub allow_accs : Bts → ℕ → ℕ → AccRamp → AccRamp
allow_accs b zero acc r = r
allow_accs b (suc left) acc r =
    allow_accs b left (acc + 1) (if acc_is_permanently_barred b acc then r else allow_one_acc r acc)

unfoldable pub barr_all_accs : Bts → AccRamp → AccRamp
barr_all_accs b r = barr_accs b 10 0 r

unfoldable pub allow_all_accs : Bts → AccRamp → AccRamp
allow_all_accs b r = allow_accs b 10 0 r

unfoldable pub acc_ramp_get_barred_t2 : AccRamp → ℕ
acc_ramp_get_barred_t2 r = bit_and (r.barred_accs >>> 8) 3

unfoldable pub acc_ramp_get_barred_t3 : AccRamp → ℕ
acc_ramp_get_barred_t3 r = bit_and r.barred_accs 255

-- `|=` on the two octets; the masks have eight bits and the octets too.
unfoldable pub acc_ramp_apply : RachControl → AccRamp → RachControl
acc_ramp_apply c r = record {
  t2 = bit_or c.t2 (acc_ramp_get_barred_t2 r);
  t3 = bit_or c.t3 (acc_ramp_get_barred_t3 r);
}

-- `gsm_bts_set_system_infos`, as far as the access control classes go: what the generators of
-- system_information.c put into the RACH control parameters of a system information message.
unfoldable pub set_system_infos : Cell → Cell
set_system_infos c = record c { broadcast = octets ∷ c.broadcast }
  where
    octets : RachControl
    octets =
        if c.ramp.acc_ramping_enabled
        then acc_ramp_apply c.bts.rach_control c.ramp
        else c.bts.rach_control

-- `ffs` of the C library: one more than the lowest bit that is set, 0 if none is.
unfoldable pub ffs_from : ℕ → ℕ → ℕ → ℕ
ffs_from zero k x = 0
ffs_from (suc left) k x = let rest = ffs_from left (k + 1) x in if test_bit x k then k + 1 else rest

unfoldable pub ffs : ℕ → ℕ
ffs x = ffs_from 32 0 x

-- The interval is scaled to the load in fixed point; `load` has 64 bits and does not wrap.
unfoldable pub get_next_step_interval : Bts → AccRamp → AccRamp × ℕ
get_next_step_interval b r =
    let scaled = ((b.chan_load_avg <<< 8) * step_interval_max / 100) >>> 8 in
    let clamped =
      if ltb scaled step_size_min
      then step_interval_min
      else if ltb step_interval_max scaled
      then step_interval_max
      else scaled in
    if r.step_interval_is_fixed
    then (r, r.step_interval_sec)
    else (record r { step_interval_sec = clamped }, clamped)

-- One round of the loop of `do_acc_ramping_step`; `none` is its `break`.
unfoldable pub allow_next_acc : Bts → AccRamp → Option AccRamp
allow_next_acc b r =
    let idx = ffs (acc_ramp_get_barred_t3 r) in
    let idx' = ffs (acc_ramp_get_barred_t2 r) in
    if ltb 0 idx
    then some (allow_unless_permanent (idx - 1))
    else if idx' == 1 || idx' == 2
    then some (allow_unless_permanent (idx' - 1 + 8))
    else none
  where
    allow_unless_permanent : ℕ → AccRamp
    allow_unless_permanent acc = if acc_is_permanently_barred b acc then r else allow_one_acc r acc

unfoldable pub allow_next_accs : Bts → ℕ → AccRamp → AccRamp
allow_next_accs b zero r = r
allow_next_accs b (suc left) r = elim (allow_next_acc b r) [
  | none ↦ r
  | some s ↦ allow_next_accs b left s
]

unfoldable pub schedule_next_step : Cell → Cell
schedule_next_step c =
    let next = get_next_step_interval c.bts c.ramp in
    if acc_ramp_get_barred_t2 c.ramp == 0 && acc_ramp_get_barred_t3 c.ramp == 0
    then c
    else record c { ramp = record (next.0) { step_timer = some next.1 } }

-- The body of the step timer's callback; `acc_ramp_trigger` calls it too.
unfoldable pub do_acc_ramping_step : Cell → Cell
do_acc_ramping_step c =
    if c.ramp.step_size == step_size_max
    then set_system_infos (record c { ramp = allow_all_accs c.bts c.ramp })
    else schedule_next_step
        (set_system_infos (record c { ramp = allow_next_accs c.bts c.ramp.step_size c.ramp }))

-- The step timer expires: it is no longer pending when its callback runs.
unfoldable pub timer_expires : Cell → Cell
timer_expires c = elim c.ramp.step_timer [
  | none ↦ c
  | some delay ↦ do_acc_ramping_step (record c { ramp = record (c.ramp) { step_timer = none } })
]

unfoldable pub acc_ramp_abort : Cell → Cell
acc_ramp_abort c = record c { ramp = allow_all_accs c.bts (record (c.ramp) { step_timer = none }) }

unfoldable pub acc_ramp_trigger : Cell → Cell
acc_ramp_trigger c =
    let quiet = acc_ramp_abort c in
    if quiet.ramp.acc_ramping_enabled
    then do_acc_ramping_step (record quiet { ramp = barr_all_accs quiet.bts quiet.ramp })
    else quiet

-- The fields of the zeroed structure that `acc_ramp_init` does not set keep their zeros.
unfoldable pub acc_ramp_init : Bts → AccRamp → AccRamp
acc_ramp_init b r = allow_all_accs b (record r {
  acc_ramping_enabled = false;
  step_size = step_size_min;
  step_interval_sec = step_interval_min;
  step_interval_is_fixed = false;
})

-- `none` is the `-ERANGE` of the two setters, which leaves the structure as it was.
unfoldable pub acc_ramp_set_step_size : AccRamp → ℕ → Option AccRamp
acc_ramp_set_step_size r n =
    if ltb n step_size_min || ltb step_size_max n then none else some (record r { step_size = n })

unfoldable pub acc_ramp_set_step_interval : AccRamp → ℕ → Option AccRamp
acc_ramp_set_step_interval r n =
    if ltb n step_interval_min || ltb step_interval_max n
    then none
    else some (record r { step_interval_sec = n; step_interval_is_fixed = true })

unfoldable pub acc_ramp_set_step_interval_dynamic : AccRamp → AccRamp
acc_ramp_set_step_interval_dynamic r = record r { step_interval_is_fixed = false }

unfoldable pub acc_ramp_set_enabled : AccRamp → Bool → AccRamp
acc_ramp_set_enabled r enable = record r { acc_ramping_enabled = enable }
