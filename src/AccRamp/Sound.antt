-- ===== src/AccRamp/Sound.antt =====
-- The invariant of the ramp, and one step of it from a timer at rest.
use openbsc.Base.{
  ◌≤◌, ◌≡◌, ◌≢◌, ◌⊎◌, refl, sym, ap, ◌∙◌, none, List, [], ◌∷◌, ◌==◌, arith, Bool-cases, ==→eq, inl,
  inr, drop, drop_all,
}
use openbsc.Base.Bits.{test_bit}
use openbsc.AccRamp.{
  AccRamp, Cell, allow_all_accs, allow_next_accs, set_system_infos, schedule_next_step,
  do_acc_ramping_step, get_next_step_interval,
}
use openbsc.AccRamp.Bars.{barred}
use openbsc.AccRamp.Ramping.{
  allow_next_accs-drop, allow_all_accs-classes, allow_all_accs-SameSettings,
  allow_next_accs-SameSettings,
}
use openbsc.AccRamp.Classes.{select, classes, Disjoint, get_barred-is_nil, length-select}

pub List-cases {ℓ} : {A : Type ℓ} (xs : List A) → (xs ≡ []) ⊎ (xs ≢ [])
List-cases [] = inl refl
List-cases (x ∷ xs) = inr (λ e. cc)

-- What holds between two events: the ramp holds back no class that the operator bars, the step
-- size is in its range, and the step timer is pending exactly while a class is held back.
pub record IsSound (c : Cell) : Type 0 where
  pub disjoint : Disjoint c.bts c.ramp
  pub sized : (1 ≤ c.ramp.step_size) × (c.ramp.step_size ≤ 10)
  pub armed : classes c.ramp ≢ [] → c.ramp.step_timer ≢ none
  pub rests : classes c.ramp ≡ [] → c.ramp.step_timer ≡ none

schedule_next_step_rests : (c : Cell) → classes c.ramp ≡ [] → schedule_next_step c ≡ c
unfolding schedule_next_step
schedule_next_step_rests c e = ground (arith, get_barred-is_nil c.ramp)

-- With a class left, the timer is armed and nothing else that matters changes.
pub schedule_next_step_arms :
    (c : Cell)
    → classes c.ramp ≢ []
    → let d = schedule_next_step c in
      (d.bts ≡ c.bts)
      × (d.ramp.barred_accs ≡ c.ramp.barred_accs)
      × (d.ramp.step_size ≡ c.ramp.step_size)
      × (d.ramp.step_timer ≢ none)
unfolding schedule_next_step get_next_step_interval
schedule_next_step_arms c h = ground (arith, get_barred-is_nil c.ramp)

schedule_next_step_lem :
    (c : Cell)
    → Disjoint c.bts c.ramp
    → (1 ≤ c.ramp.step_size) × (c.ramp.step_size ≤ 10)
    → c.ramp.step_timer ≡ none
    → (classes (schedule_next_step c).ramp ≡ classes c.ramp) × IsSound (schedule_next_step c)
schedule_next_step_lem c d s t = elim (List-cases (classes c.ramp)) [
  | inl e ↦
      rw (schedule_next_step_rests c e)
        (refl, record { disjoint = d; sized = s; armed = λ h. absurd (h e); rests = λ _. t })
  | inr h ↦
      let (same_bts, same_mask, same_size, pending) = schedule_next_step_arms c h in
      let same : classes (schedule_next_step c).ramp ≡ classes c.ramp =
        ap (λ m. select (test_bit m) 10 0) same_mask in
      (
        same,
        record {
          disjoint = rw (same_bts, same_mask) d;
          sized = rw same_size s;
          armed = λ _. pending;
          rests = λ z. absurd (h (sym same ∙ z));
        },
      )
]

-- The two ways through a step, with the timer at rest.
abbrev pub all_in : Cell → Cell
all_in c = set_system_infos (record c { ramp = allow_all_accs c.bts c.ramp })

abbrev pub some_in : Cell → Cell
some_in c = set_system_infos (record c { ramp = allow_next_accs c.bts c.ramp.step_size c.ramp })

module _ (c : Cell) (d : Disjoint c.bts c.ramp)
    (s : (1 ≤ c.ramp.step_size) × (c.ramp.step_size ≤ 10)) (t : c.ramp.step_timer ≡ none) where
  step_whole :
      c.ramp.step_size ≡ 10
      → (classes (all_in c).ramp ≡ drop c.ramp.step_size (classes c.ramp)) × IsSound (all_in c)
  unfolding set_system_infos
  step_whole e =
      let (empty, apart) = allow_all_accs-classes c.bts c.ramp d in
      let same = allow_all_accs-SameSettings c.bts c.ramp in
      (
        empty
            ∙ sym (
                drop_all c.ramp.step_size (classes c.ramp)
                  (omega (arith, length-select (barred c.ramp) 10 0))),
        record {
          disjoint = apart;
          sized = ground arith;
          armed = λ h. absurd (h empty);
          rests = λ _. ap (λ (r : AccRamp). r.step_timer) same ∙ t;
        },
      )

  step_part :
      (classes (schedule_next_step (some_in c)).ramp ≡ drop c.ramp.step_size (classes c.ramp))
      × IsSound (schedule_next_step (some_in c))
  unfolding set_system_infos
  step_part =
      let (fewer, apart) =
        allow_next_accs-drop c.bts c.ramp.step_size c.ramp (classes c.ramp) d refl in
      let same = allow_next_accs-SameSettings c.bts c.ramp.step_size c.ramp in
      let (kept, sound) =
        schedule_next_step_lem (some_in c) apart (ground arith)
          (ap (λ (r : AccRamp). r.step_timer) same ∙ t) in
      (kept ∙ fewer, sound)

-- A step with the timer at rest.
pub do_acc_ramping_step_lem :
    (c : Cell)
    → Disjoint c.bts c.ramp
    → (1 ≤ c.ramp.step_size) × (c.ramp.step_size ≤ 10)
    → c.ramp.step_timer ≡ none
    → (classes (do_acc_ramping_step c).ramp ≡ drop c.ramp.step_size (classes c.ramp))
      × IsSound (do_acc_ramping_step c)
unfolding do_acc_ramping_step
do_acc_ramping_step_lem c d s t = elim (Bool-cases (c.ramp.step_size == 10)) [
  | inl whole ↦ rw (whole, do_acc_ramping_step) (step_whole c d s t (==→eq _ _ whole))
  | inr part ↦ rw (part, do_acc_ramping_step) (step_part c d s t)
]

pub do_acc_ramping_step-step_size :
    (c : Cell) → (do_acc_ramping_step c).ramp.step_size ≡ c.ramp.step_size
unfolding do_acc_ramping_step set_system_infos schedule_next_step get_next_step_interval
do_acc_ramping_step-step_size c = ground (
  arith,
  allow_all_accs-SameSettings c.bts c.ramp,
  allow_next_accs-SameSettings c.bts c.ramp.step_size c.ramp,
)

pub do_acc_ramping_step-bts : (c : Cell) → (do_acc_ramping_step c).bts ≡ c.bts
unfolding do_acc_ramping_step set_system_infos schedule_next_step
do_acc_ramping_step-bts c = ground arith
