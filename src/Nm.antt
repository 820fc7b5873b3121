-- ===== src/Nm.antt =====
-- `struct gsm_nm_state` of openbsc/include/openbsc/gsm_data_shared.h and `nm_is_running` of
-- openbsc/src/libbsc/abis_nm.c: the state of a managed object of the base station.
use openbsc.Base.{ℕ, Bool, true, false, ◌&&◌, ◌==◌}

-- The codes of 3GPP TS 12.21 by their names; `unknown` is any other code.
pub data AdmState : Type 0 where
  locked unlocked shutdown null : AdmState
  unknown : ℕ → AdmState

pub data OpState : Type 0 where
  disabled enabled null : OpState
  unknown : ℕ → OpState

pub data AvState : Type 0 where
  ok not_reported : AvState
  other : ℕ → AvState

unfoldable pub same_adm : AdmState → AdmState → Bool
same_adm AdmState.locked AdmState.locked = true
same_adm AdmState.unlocked AdmState.unlocked = true
same_adm AdmState.shutdown AdmState.shutdown = true
same_adm AdmState.null AdmState.null = true
same_adm (AdmState.unknown m) (AdmState.unknown n) = m == n
same_adm _ _ = false

unfoldable pub same_op : OpState → OpState → Bool
same_op OpState.disabled OpState.disabled = true
same_op OpState.enabled OpState.enabled = true
same_op OpState.null OpState.null = true
same_op (OpState.unknown m) (OpState.unknown n) = m == n
same_op _ _ = false

pub record NmState : Type 0 where
  pub operational : OpState
  pub administrative : AdmState
  pub availability : AvState

abbrev pub is_enabled : OpState → Bool
is_enabled s = elim s [ OpState.enabled ↦ true | _ ↦ false ]

abbrev pub is_unlocked : AdmState → Bool
is_unlocked s = elim s [ AdmState.unlocked ↦ true | _ ↦ false ]

abbrev pub is_available : AvState → Bool
is_available s = elim s [ ok ↦ true | not_reported ↦ true | other n ↦ false ]

unfoldable pub nm_is_running : NmState → Bool
nm_is_running s = is_enabled s.operational && is_available s.availability
