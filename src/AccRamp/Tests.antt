-- ===== src/AccRamp/Tests.antt =====
-- Runs of the ramp on a cell whose operator bars class 2, and each theorem at an input.
use openbsc.Base.{◌≡◌, ◌≢◌, refl, sym, ◌∙◌, true, false, ◌||◌, some, none, [], ◌∷◌, arith}
use openbsc.Base.Bits.{has_bit, test_bit, bit_not, test_bit-zero}
use openbsc.AccRamp.{
  Bts, AccRamp, Cell, acc_is_permanently_barred, allow_one_acc, barr_one_acc, barr_accs, allow_accs,
  barr_all_accs, allow_all_accs, acc_ramp_get_barred_t2, acc_ramp_get_barred_t3, acc_ramp_apply,
  set_system_infos, ffs_from, ffs, get_next_step_interval, allow_next_acc, allow_next_accs,
  schedule_next_step, do_acc_ramping_step, timer_expires, acc_ramp_abort, acc_ramp_trigger,
}
use openbsc.AccRamp.Bars.{barred, announces, announces-acc_ramp_apply}
use openbsc.AccRamp.Classes.{select, classes}
use openbsc.AccRamp.Sound.{IsSound}
use openbsc.AccRamp.Progress.{acc_ramp_trigger_lem, expire, ramp_ends, timer_expires_stalls}
use openbsc.Nm.{NmState, AdmState, OpState, AvState}
use openbsc.AccRamp.Signal.{Trx}

program : Unit {0}
unfolding has_bit test_bit bit_not acc_is_permanently_barred allow_one_acc barr_one_acc barr_accs
    allow_accs barr_all_accs allow_all_accs acc_ramp_get_barred_t2 acc_ramp_get_barred_t3
    acc_ramp_apply set_system_infos ffs_from ffs get_next_step_interval allow_next_acc
    allow_next_accs schedule_next_step do_acc_ramping_step timer_expires acc_ramp_abort
    acc_ramp_trigger select
program = tt

abbrev site : Bts
site = record { rach_control = record { t2 = 0; t3 = 4 }; chan_load_avg = 3 }

abbrev quiet_ramp : AccRamp
quiet_ramp = record {
  acc_ramping_enabled = true;
  barred_accs = 0;
  step_size = 3;
  step_interval_sec = 30;
  step_interval_is_fixed = false;
  step_timer = none;
}

abbrev quiet : Cell
quiet = record { bts = site; ramp = quiet_ramp; broadcast = [] }

quiet-IsSound : IsSound quiet
unfolding program
quiet-IsSound = record {
  disjoint = λ k h e. cc (sym (test_bit-zero k) ∙ e);
  sized = omega arith;
  armed = λ h. absurd (h refl);
  rests = λ _. refl;
}

triggered_classes : classes (acc_ramp_trigger quiet).ramp ≡ 4 ∷ 5 ∷ 6 ∷ 7 ∷ 8 ∷ 9 ∷ []
unfolding program
triggered_classes = refl

triggered_timer : (acc_ramp_trigger quiet).ramp.step_timer ≡ some 18
unfolding program
triggered_timer = refl

expired_classes : classes (timer_expires (acc_ramp_trigger quiet)).ramp ≡ 7 ∷ 8 ∷ 9 ∷ []
unfolding program
expired_classes = refl

triggered : Cell
triggered = acc_ramp_trigger quiet

triggered-IsSound : IsSound triggered
unfolding triggered
triggered-IsSound = (acc_ramp_trigger_lem quiet quiet-IsSound).1

announces-acc_ramp_apply_example :
    announces (acc_ramp_apply site.rach_control triggered.ramp) 7
    ≡ (acc_is_permanently_barred site 7 || barred triggered.ramp 7)
announces-acc_ramp_apply_example = announces-acc_ramp_apply site triggered.ramp 7 (omega arith)

ramp_ends_example : (classes (expire 4 quiet).ramp ≡ []) × ((expire 4 quiet).ramp.step_timer ≡ none)
ramp_ends_example = ramp_ends 4 quiet quiet-IsSound (omega arith)

-- The operator bars class 4 while the ramp still holds it back.
abbrev stalled : Cell
stalled = record {
  bts = record { rach_control = record { t2 = 0; t3 = 20 }; chan_load_avg = 3 };
  ramp = record quiet_ramp { barred_accs = 0x3f0; step_timer = some 18 };
  broadcast = [];
}

timer_expires_stalls_example :
    ((timer_expires stalled).ramp.barred_accs ≡ 0x3f0)
    × ((timer_expires stalled).ramp.step_timer ≢ none)
unfolding program
timer_expires_stalls_example =
    timer_expires_stalls stalled 18 4 (5 ∷ 6 ∷ 7 ∷ 8 ∷ 9 ∷ []) refl (omega arith) refl refl

abbrev down : NmState
down = record {
  operational = OpState.enabled;
  administrative = AdmState.locked;
  availability = AvState.ok;
}

abbrev up : NmState
up = record {
  operational = OpState.enabled;
  administrative = AdmState.unlocked;
  availability = AvState.ok;
}

abbrev first_trx : Trx
first_trx = record { nr = 0; rsl_link = true; is_ipaccess = true; mo = down; bb_transc = up }
