-- ===== src/AccRamp/Signal.antt =====
-- `acc_ramp_nm_sig_cb` of openbsc/src/libbsc/acc_ramp.c, with `trx_is_usable` of chan_alloc.c: which state changes of the first transceiver start or stop the ramp.
use openbsc.Base.{ℕ, ◌≡◌, Bool, true, false, not, ◌&&◌, ◌||◌, ◌==◌, if◌then◌else◌, arith}
use openbsc.Nm.{
  AdmState, OpState, NmState, same_adm, same_op, is_enabled, is_unlocked, nm_is_running,
}
use openbsc.AccRamp.{Cell, acc_ramp_trigger, acc_ramp_abort}

pub record Trx : Type 0 where
  pub nr : ℕ
  pub rsl_link : Bool
  pub is_ipaccess : Bool
  pub mo : NmState
  pub bb_transc : NmState

unfoldable pub trx_is_usable : Trx → Bool
unfolding nm_is_running
trx_is_usable t = if t.is_ipaccess then nm_is_running t.mo && nm_is_running t.bb_transc else true

pub data NmSignal : Type 0 where
  statechg_adm statechg_oper : NmSignal
  other_signal : ℕ → NmSignal

abbrev is_statechg : NmSignal → Bool
is_statechg s = elim s [ statechg_adm ↦ true | statechg_oper ↦ true | other_signal n ↦ false ]

-- The two flags of the handler.
pub record Wish : Type 0 where
  pub trigger_ramping : Bool
  pub abort_ramping : Bool

-- The first `switch`, on the new administrative state.
on_adm_change : Trx → NmState → NmState → Wish → Wish
on_adm_change t old new w = elim new.administrative [
  | AdmState.unlocked ↦
      if not (same_op old.operational new.operational)
      then (if is_enabled new.operational then record w { trigger_ramping = true } else w)
      else if trx_is_usable t
      then record w { trigger_ramping = true }
      else w
  | AdmState.locked ↦ record w { abort_ramping = true }
  | AdmState.shutdown ↦ record w { abort_ramping = true }
  | AdmState.null ↦ w
  | AdmState.unknown n ↦ w
]

-- The second `switch`, on the new operational state.
on_op_change : Trx → NmState → NmState → Wish → Wish
on_op_change t old new w = elim new.operational [
  | OpState.enabled ↦
      if not (same_adm old.administrative new.administrative)
      then (if is_unlocked new.administrative then record w { trigger_ramping = true } else w)
      else if is_unlocked t.mo.administrative
      then record w { trigger_ramping = true }
      else w
  | OpState.disabled ↦ record w { abort_ramping = true }
  | OpState.null ↦ w
  | OpState.unknown n ↦ w
]

unfoldable pub decide_ramping : Trx → NmState → NmState → Wish
unfolding on_adm_change on_op_change
decide_ramping t old new =
    let start : Wish = record { trigger_ramping = false; abort_ramping = false } in
    let adm =
      if not (same_adm old.administrative new.administrative)
      then on_adm_change t old new start
      else start in
    if not (same_op old.operational new.operational) then on_op_change t old new adm else adm

-- The guards of the handler, in order.
abbrev is_relevant : NmSignal → Bool → Trx → Bool
is_relevant signal is_radio_carrier t =
    is_statechg signal && is_radio_carrier && t.nr == 0 && t.rsl_link

unfoldable pub acc_ramp_nm_sig_cb : NmSignal → Bool → Trx → NmState → NmState → Cell → Cell
acc_ramp_nm_sig_cb signal is_radio_carrier t old new c =
    let w = decide_ramping t old new in
    if is_relevant signal is_radio_carrier t
    then (if w.trigger_ramping
        then acc_ramp_trigger c
        else if w.abort_ramping
        then acc_ramp_abort c
        else c)
    else c

abbrev pub adm_changed : NmState → NmState → Bool
adm_changed old new = not (same_adm old.administrative new.administrative)

abbrev pub op_changed : NmState → NmState → Bool
op_changed old new = not (same_op old.operational new.operational)

abbrev pub is_barred : AdmState → Bool
is_barred s = elim s [ AdmState.locked ↦ true | AdmState.shutdown ↦ true | _ ↦ false ]

abbrev pub is_disabled : OpState → Bool
is_disabled s = elim s [ OpState.disabled ↦ true | _ ↦ false ]

same_adm-is_unlocked : (a b : AdmState) → same_adm a b ≡ true → is_unlocked a ≡ is_unlocked b
unfolding same_adm
same_adm-is_unlocked a b h = ground arith

-- For a transceiver that still carries the old state: the ramp is to start exactly when something
-- changed, the new state is unlocked and the transceiver is enabled; to stop exactly when the
-- change locks, shuts down or disables it; and never both.
pub decide_ramping_lem :
    (t : Trx) (old new : NmState)
    → t.mo ≡ old
    → ((decide_ramping t old new).trigger_ramping ≡ (
        (adm_changed old new || op_changed old new)
        && is_unlocked new.administrative
        && (if op_changed old new then is_enabled new.operational else trx_is_usable t)))
      × ((decide_ramping t old new).abort_ramping ≡ (
          adm_changed old new && is_barred new.administrative
          || op_changed old new && is_disabled new.operational))
      × ((decide_ramping t old new).trigger_ramping && (decide_ramping t old new).abort_ramping
          ≡ false)
unfolding decide_ramping
decide_ramping_lem t old new h =
    ground (arith, same_adm-is_unlocked old.administrative new.administrative)
