-- ===== src/AccRamp/Progress.antt =====
-- openbsc/src/libbsc/acc_ramp.c: the ramp as a whole, from a trigger over the expirations of its timer.
use openbsc.Base.{
  ℕ, zero, suc, ◌+◌, ◌*◌, ◌≤◌, ◌<◌, ◌≡◌, ◌≢◌, refl, sym, ap, ap₂, ◌∙◌, true, false, none, some,
  List, [], ◌∷◌, ◌==◌, if◌then◌else◌, arith, Bool-cases, Option-cases, inl, inr, drop, drop_all,
  drop-drop,
}
use openbsc.AccRamp.{
  AccRamp, Cell, acc_is_permanently_barred, barr_all_accs, allow_all_accs, set_system_infos,
  do_acc_ramping_step, timer_expires, acc_ramp_trigger, acc_ramp_abort,
}
use openbsc.AccRamp.Bars.{barred}
use openbsc.AccRamp.Ramping.{
  allow_next_accs_stuck, allow_all_accs-classes, barr_all_accs-classes, allow_all_accs-SameSettings,
  barr_all_accs-SameSettings,
}
use openbsc.AccRamp.Classes.{classes, open_classes, length-select}
use openbsc.AccRamp.Sound.{
  IsSound, List-cases, some_in, schedule_next_step_arms, do_acc_ramping_step_lem,
  do_acc_ramping_step-step_size,
}

-- Aborting lets every class in and stops the timer.
acc_ramp_abort_lem :
    (c : Cell)
    → IsSound c
    → (classes (acc_ramp_abort c).ramp ≡ [])
      × IsSound (acc_ramp_abort c)
      × ((acc_ramp_abort c).ramp.step_timer ≡ none)
unfolding acc_ramp_abort
acc_ramp_abort_lem c v =
    let quiet : AccRamp = record (c.ramp) { step_timer = none } in
    let (empty, apart) = allow_all_accs-classes c.bts quiet v.disjoint in
    let same = allow_all_accs-SameSettings c.bts quiet in
    let off : (allow_all_accs c.bts quiet).step_timer ≡ none =
      ap (λ (r : AccRamp). r.step_timer) same in
    (
      empty,
      record {
        disjoint = apart;
        sized = ground arith;
        armed = λ h. absurd (h empty);
        rests = λ _. off;
      },
      off,
    )

acc_ramp_abort_fields :
    (c : Cell)
    → ((acc_ramp_abort c).bts ≡ c.bts)
      × ((acc_ramp_abort c).ramp.step_size ≡ c.ramp.step_size)
      × ((acc_ramp_abort c).ramp.acc_ramping_enabled ≡ c.ramp.acc_ramping_enabled)
unfolding acc_ramp_abort
acc_ramp_abort_fields c =
    ground (arith, allow_all_accs-SameSettings c.bts (record (c.ramp) { step_timer = none }))

-- Barring all classes and the first step, from a cell at rest.
ramp_starts :
    (c : Cell)
    → IsSound c
    → c.ramp.step_timer ≡ none
    → let d = do_acc_ramping_step (record c { ramp = barr_all_accs c.bts c.ramp }) in
      (classes d.ramp ≡ drop c.ramp.step_size (open_classes c.bts)) × IsSound d
ramp_starts c v t =
    let (all, apart) = barr_all_accs-classes c.bts c.ramp v.disjoint in
    let same = barr_all_accs-SameSettings c.bts c.ramp in
    let size : (barr_all_accs c.bts c.ramp).step_size ≡ c.ramp.step_size =
      ap (λ (r : AccRamp). r.step_size) same in
    let (dropped, sound) =
      do_acc_ramping_step_lem (record c { ramp = barr_all_accs c.bts c.ramp }) apart
        (rw size v.sized) (ap (λ (r : AccRamp). r.step_timer) same ∙ t) in
    (dropped ∙ ap₂ drop size all, sound)

-- From a sound state, triggering an enabled ramp holds back the classes that the operator leaves
-- open but the lowest step_size of them, a disabled one lets in every class, and the state stays
-- sound.
pub acc_ramp_trigger_lem :
    (c : Cell)
    → IsSound c
    → (classes (acc_ramp_trigger c).ramp
        ≡ (if c.ramp.acc_ramping_enabled then drop c.ramp.step_size (open_classes c.bts) else []))
      × IsSound (acc_ramp_trigger c)
unfolding acc_ramp_trigger
acc_ramp_trigger_lem c v =
    let (empty, sound, off) = acc_ramp_abort_lem c v in
    let (bts, size, enabled) = acc_ramp_abort_fields c in
    elim (Bool-cases c.ramp.acc_ramping_enabled) [
      | inl on ↦
          let (dropped, sound') = ramp_starts (acc_ramp_abort c) sound off in
          simp (enabled, on) (dropped ∙ ap₂ (λ n b. drop n (open_classes b)) size bts, sound')
      | inr off' ↦ simp (enabled, off') (empty, sound)
    ]

-- When the step timer expires, the lowest `step_size` classes are let in; with no timer pending
-- there is nothing to let in.
pub timer_expires_lem :
    (c : Cell)
    → IsSound c
    → (classes (timer_expires c).ramp ≡ drop c.ramp.step_size (classes c.ramp))
      × IsSound (timer_expires c)
unfolding timer_expires
timer_expires_lem c v = elim (Option-cases c.ramp.step_timer) [
  | inl e ↦ rw (e, timer_expires) (at_rest e, v)
  | inr (delay, e) ↦
      rw (e, timer_expires)
        (do_acc_ramping_step_lem (record c { ramp = record (c.ramp) { step_timer = none } })
          v.disjoint v.sized refl)
]
  where
    at_rest : c.ramp.step_timer ≡ none → classes c.ramp ≡ drop c.ramp.step_size (classes c.ramp)
    at_rest e = elim (List-cases (classes c.ramp)) [
      | inl z ↦ rw z (sym (drop_all c.ramp.step_size [] (omega arith)))
      | inr h ↦ absurd (v.armed h e)
    ]

pub expire : ℕ → Cell → Cell
expire zero c = c
expire (suc n) c = expire n (timer_expires c)

timer_expires-step_size : (c : Cell) → (timer_expires c).ramp.step_size ≡ c.ramp.step_size
unfolding timer_expires
timer_expires-step_size c = ground (
  arith,
  do_acc_ramping_step-step_size (record c { ramp = record (c.ramp) { step_timer = none } }),
)

-- From a sound state, n expirations of the timer let in the lowest n * step_size of the classes
-- held back, and the state stays sound.
pub expire_lem :
    (n : ℕ) (c : Cell)
    → IsSound c
    → (classes (expire n c).ramp ≡ drop (n * c.ramp.step_size) (classes c.ramp))
      × IsSound (expire n c)
unfolding expire
expire_lem zero c v = (ground arith, v)
expire_lem (suc n) c v =
    let (dropped, sound) = timer_expires_lem c v in
    let (rest, sound') = expire_lem n (timer_expires c) sound in
    let count : c.ramp.step_size + n * c.ramp.step_size ≡ suc n * c.ramp.step_size = omega arith in
    (
      rest
          ∙ ap₂ (λ (k : ℕ) l. drop (n * k) l) (timer_expires-step_size c) dropped
          ∙ drop-drop (n * c.ramp.step_size) c.ramp.step_size (classes c.ramp)
          ∙ ap (λ k. drop k (classes c.ramp)) count,
      sound',
    )

-- From a sound state, after n expirations of the timer with n * step_size at least ten, every
-- access class is let in and the timer is at rest.
pub ramp_ends :
    (n : ℕ) (c : Cell)
    → IsSound c
    → 10 ≤ n * c.ramp.step_size
    → (classes (expire n c).ramp ≡ []) × ((expire n c).ramp.step_timer ≡ none)
ramp_ends n c v h =
    let (dropped, sound) = expire_lem n c v in
    let empty : classes (expire n c).ramp ≡ [] =
      dropped ∙ drop_all _ (classes c.ramp) (omega (arith, length-select (barred c.ramp) 10 0)) in
    (empty, sound.rests empty)

size_test : (c : Cell) → c.ramp.step_size < 10 → (c.ramp.step_size == 10) ≡ false
size_test c h = ground arith

do_acc_ramping_step_stalls :
    (c : Cell) (j : ℕ) (js : List ℕ)
    → c.ramp.step_size < 10
    → classes c.ramp ≡ j ∷ js
    → acc_is_permanently_barred c.bts j ≡ true
    → ((do_acc_ramping_step c).ramp.barred_accs ≡ c.ramp.barred_accs)
      × ((do_acc_ramping_step c).ramp.step_timer ≢ none)
unfolding do_acc_ramping_step set_system_infos
do_acc_ramping_step_stalls c j js s e p =
    let stuck = allow_next_accs_stuck c.bts c.ramp.step_size c.ramp j js e p in
    let kept : classes (some_in c).ramp ≢ [] = λ z. cc (sym e ∙ ap classes (sym stuck) ∙ z) in
    let (_, mask, _, pending) = schedule_next_step_arms (some_in c) kept in
    rw (size_test c s) (mask ∙ ap (λ (r : AccRamp). r.barred_accs) stuck, pending)

-- With a pending timer and a step size below ten, while the operator bars the lowest class that is
-- held back, an expiration lets no class in and arms the timer again.
pub timer_expires_stalls :
    (c : Cell) (delay j : ℕ) (js : List ℕ)
    → c.ramp.step_timer ≡ some delay
    → c.ramp.step_size < 10
    → classes c.ramp ≡ j ∷ js
    → acc_is_permanently_barred c.bts j ≡ true
    → ((timer_expires c).ramp.barred_accs ≡ c.ramp.barred_accs)
      × ((timer_expires c).ramp.step_timer ≢ none)
unfolding timer_expires
timer_expires_stalls c delay j js t s e p = rw t (
    do_acc_ramping_step_stalls (record c { ramp = record (c.ramp) { step_timer = none } }) j js s e
      p)
