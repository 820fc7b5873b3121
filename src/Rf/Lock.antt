-- ===== src/Rf/Lock.antt =====
-- openbsc/src/libbsc/bsc_rf_ctrl.c: what the commands do to the base stations.
use openbsc.Base.{◌≡◌, Bool, true, false, Option, none, some, List, [], ◌∷◌, if◌then◌else◌, All}
use openbsc.Nm.{AdmState}
use openbsc.Rf.{
  rf_off, rf_on, rf_grace, Cmd, query, off, on, direct_off, unknown_cmd, Trx, Bts, BscRf,
  is_pending, lock_each_trx, osmo_bsc_rf_schedule_lock,
}

abbrev pub first : List AdmState → Option AdmState
first [] = none
first (s ∷ ss) = some s

abbrev pub adm_of : Bool → AdmState
adm_of lock = if lock then AdmState.locked else AdmState.unlocked

-- The newest request to a transceiver, or the state that it gets when it connects.
abbrev pub IsTold : Bool → Bool → Trx → Type 0
IsTold lock true trx = first trx.sent ≡ some (adm_of lock)
IsTold lock false trx = trx.nm_state.administrative ≡ adm_of lock

abbrev pub BtsTold : Bool → Bts → Type 0
BtsTold lock b = b.excl_from_rf_lock ≡ false → All (IsTold lock b.oml_link) b.trx_list

-- Every transceiver of the base stations that are not excluded is told.
unfoldable pub AllTold : Bool → List Bts → Type 0
AllTold lock bs = All (BtsTold lock) bs

-- The commands that are requested one after the other.
unfoldable pub schedule_all : BscRf → List Cmd → BscRf
schedule_all rf [] = rf
schedule_all rf (c ∷ cs) = schedule_all (osmo_bsc_rf_schedule_lock rf c) cs

-- The transceivers, the policy and the timers of the last command are as they were.
unfoldable pub IsUntouched : BscRf → BscRf → Type 0
IsUntouched old rf =
    (rf.policy ≡ old.policy)
    × (rf.bts_list ≡ old.bts_list)
    × (rf.grace_timeout ≡ old.grace_timeout)
    × (rf.rf_check ≡ old.rf_check)

-- What a command is to bring about from the state `old`, and nothing else.
unfoldable pub Carried : Cmd → BscRf → BscRf → Type 0
unfolding AllTold
Carried direct_off old rf =
    (rf.policy ≡ rf_off)
    × AllTold true rf.bts_list
    × (rf.bts_list ≡ lock_each_trx true old.bts_list)
    × (rf.grace_timeout ≡ none)
    × (rf.rf_check ≡ none)
Carried on old rf =
    (rf.policy ≡ rf_on)
    × AllTold false rf.bts_list
    × (rf.bts_list ≡ lock_each_trx false old.bts_list)
    × (rf.grace_timeout ≡ none)
    × (rf.rf_check ≡ some 3)
Carried off old rf =
    (rf.policy ≡ rf_grace)
    × (is_pending rf.grace_timeout ≡ true)
    × (rf.bts_list ≡ old.bts_list)
    × (rf.rf_check ≡ none)
Carried query old rf = IsUntouched old rf
Carried unknown_cmd old rf = IsUntouched old rf
