-- ===== src/Rf.antt =====
-- openbsc/src/libbsc/bsc_rf_ctrl.c: switching the radio of all base stations on and off, at once or
-- after a grace period.
--
-- A timer is its delay while it is pending. The requests that reach a transceiver over the OML link
-- are listed in `sent`, the newest first; sockets and the names for display are left out.
pub mod Timers
pub mod Lock
pub mod Grace
mod Tests
use openbsc.Base.{
  ℕ, Bool, true, false, not, ◌&&◌, ◌||◌, Option, none, some, List, [], ◌∷◌, map, if◌then◌else◌,
}
use openbsc.Nm.{NmState, AdmState, OpState, AvState, ok, is_enabled, is_unlocked}

-- `enum signal_rf`, the values of the policy too.
pub data Policy : Type 0 where
  rf_off : Policy
  rf_on : Policy
  rf_grace : Policy

-- The characters of the control socket.
pub data Cmd : Type 0 where
  query : Cmd
  off : Cmd
  on : Cmd
  direct_off : Cmd
  unknown_cmd : Cmd

pub data StateCommand : Type 0 where
  no_command : StateCommand
  was_direct_off : StateCommand
  was_direct_on : StateCommand
  was_scheduled_off : StateCommand
  was_unknown : StateCommand

pub record Trx : Type 0 where
  pub nm_state : NmState
  pub sent : List AdmState

pub record Bts : Type 0 where
  pub excl_from_rf_lock : Bool
  pub oml_link : Bool
  pub is_ipaccess : Bool
  pub trx_list : List Trx

-- `struct osmo_bsc_rf` with its network and the settings of `struct osmo_bsc_data`; a negative
-- `auto_off_timeout` is `none`.
pub record BscRf : Type 0 where
  pub policy : Policy
  pub last_request : Option Cmd
  pub last_state_command : StateCommand
  pub delay_cmd : Option ℕ
  pub rf_check : Option ℕ
  pub grace_timeout : Option ℕ
  pub auto_off_timer : Option ℕ
  pub bts_list : List Bts
  pub mid_call_timeout : ℕ
  pub auto_off_timeout : Option ℕ

abbrev pub is_pending : Option ℕ → Bool
is_pending none = false
is_pending (some n) = true

-- `gsm_trx_lock_rf` of openbsc/src/libbsc/abis_nm.c: without a link the state is set, to be sent
-- when the base station connects.
abbrev pub gsm_trx_lock_rf : Bool → Bool → Trx → Trx
gsm_trx_lock_rf oml_link lock trx =
    let new_state = if lock then AdmState.locked else AdmState.unlocked in
    if oml_link
    then record trx { sent = new_state ∷ trx.sent }
    else record trx { nm_state = record (trx.nm_state) { administrative = new_state } }

abbrev pub lock_bts : Bool → Bts → Bts
lock_bts lock bts =
    if bts.excl_from_rf_lock
    then bts
    else record bts { trx_list = map (gsm_trx_lock_rf bts.oml_link lock) bts.trx_list }

unfoldable pub lock_each_trx : Bool → List Bts → List Bts
lock_each_trx lock [] = []
lock_each_trx lock (b ∷ bs) = lock_bts lock b ∷ lock_each_trx lock bs

-- Each operation returns the signal that it dispatches.
abbrev pub Result : Type 0
Result = BscRf × Option Policy

abbrev pub send_signal : BscRf → Policy → Result
send_signal rf val = (record rf { policy = val }, some val)

unfoldable pub switch_rf_off : BscRf → Result
unfolding lock_each_trx
switch_rf_off rf = send_signal (record rf { bts_list = lock_each_trx true rf.bts_list }) rf_off

-- The callback of the grace timer, which is no longer pending.
unfoldable pub grace_timeout_cb : BscRf → Result
unfolding switch_rf_off
grace_timeout_cb rf = switch_rf_off (record rf { grace_timeout = none })

unfoldable pub enter_grace : BscRf → Result
enter_grace rf =
    if is_pending rf.grace_timeout
    then (rf, none)
    else send_signal (record rf { grace_timeout = some rf.mid_call_timeout }) rf_grace

-- The command that was last requested is carried out.
unfoldable pub run_request : Option Cmd → BscRf → Result
unfolding switch_rf_off enter_grace
run_request (some direct_off) rf =
    switch_rf_off
      (record rf { last_state_command = was_direct_off; rf_check = none; grace_timeout = none })
run_request (some on) rf =
    let (rf', signal) =
      send_signal
        (record rf {
          last_state_command = was_direct_on;
          grace_timeout = none;
          bts_list = lock_each_trx false rf.bts_list;
        })
        rf_on in
    (record rf' { rf_check = some 3 }, signal)
run_request (some off) rf =
    enter_grace (record rf { last_state_command = was_scheduled_off; rf_check = none })
run_request (some query) rf = (rf, none)
run_request (some unknown_cmd) rf = (rf, none)
run_request none rf = (rf, none)

unfoldable pub rf_delay_cmd_cb : BscRf → Result
unfolding run_request
rf_delay_cmd_cb rf = run_request rf.last_request (record rf { delay_cmd = none })

abbrev pub osmo_bsc_rf_schedule_lock : BscRf → Cmd → BscRf
osmo_bsc_rf_schedule_lock rf cmd = record rf {
  last_request = some cmd;
  delay_cmd = if is_pending rf.delay_cmd then rf.delay_cmd else some 1;
}

abbrev pub rf_auto_off_cb : BscRf → BscRf
rf_auto_off_cb rf = osmo_bsc_rf_schedule_lock (record rf { auto_off_timer = none }) direct_off

abbrev is_av_ok : AvState → Bool
is_av_ok s = elim s [ ok ↦ true | _ ↦ false ]

abbrev is_disabled : OpState → Bool
is_disabled s = elim s [ OpState.disabled ↦ true | _ ↦ false ]

-- A transceiver that counts as online for a query.
abbrev pub is_online : Trx → Bool
is_online trx = is_av_ok trx.nm_state.availability && not (is_disabled trx.nm_state.operational)

abbrev pub any_trx : (Trx → Bool) → List Trx → Bool
any_trx test [] = false
any_trx test (t ∷ ts) = test t || any_trx test ts

abbrev pub any_online : List Bts → Bool
any_online [] = false
any_online (b ∷ bs) = (not b.excl_from_rf_lock && any_trx is_online b.trx_list) || any_online bs

-- The answer to a query: `g`, `1` or `0`.
unfoldable pub handle_query : BscRf → Policy
handle_query rf = elim rf.policy [
  | rf_grace ↦ rf_grace
  | _ ↦ if any_online rf.bts_list then rf_on else rf_off
]

-- The command of a connection, and the answer if there is one.
unfoldable pub rf_read_cmd : BscRf → Cmd → Result
unfolding handle_query
rf_read_cmd rf query = (rf, some (handle_query rf))
rf_read_cmd rf direct_off = (osmo_bsc_rf_schedule_lock rf direct_off, none)
rf_read_cmd rf on = (osmo_bsc_rf_schedule_lock rf on, none)
rf_read_cmd rf off = (osmo_bsc_rf_schedule_lock rf off, none)
rf_read_cmd rf unknown_cmd = (record rf { last_state_command = was_unknown }, none)

abbrev pub is_bad : Trx → Bool
is_bad trx =
    not (is_av_ok trx.nm_state.availability)
    || not (is_enabled trx.nm_state.operational)
    || not (is_unlocked trx.nm_state.administrative)

-- Whether `rf_check_cb` drops the link of a base station.
abbrev pub is_dropped : Bts → Bool
is_dropped b = b.oml_link && b.is_ipaccess && not b.excl_from_rf_lock && any_trx is_bad b.trx_list

-- The base stations whose link is dropped; the timer is no longer pending.
unfoldable pub rf_check_cb : BscRf → BscRf × List Bool
rf_check_cb rf = (record rf { rf_check = none }, map is_dropped rf.bts_list)

abbrev pub start_auto_off : Option ℕ → Bool → BscRf → BscRf
start_auto_off none is_normal rf = rf
start_auto_off (some t) is_normal rf =
    if not is_normal
    then rf
    else if is_pending rf.auto_off_timer
    then rf
    else record rf { auto_off_timer = some t }

-- `msc_signal_handler`, for the MSC that is lost and for one that is connected.
unfoldable pub msc_lost : Bool → BscRf → BscRf
msc_lost is_normal rf = start_auto_off rf.auto_off_timeout is_normal rf

unfoldable pub msc_connected : Bool → BscRf → BscRf
msc_connected is_normal rf = if not is_normal then rf else record rf { auto_off_timer = none }

-- `osmo_bsc_rf_create`, without the socket.
abbrev pub osmo_bsc_rf_create : List Bts → ℕ → Option ℕ → BscRf
osmo_bsc_rf_create bts_list mid_call_timeout auto_off_timeout = record {
  policy = rf_on;
  last_request = none;
  last_state_command = no_command;
  delay_cmd = none;
  rf_check = none;
  grace_timeout = none;
  auto_off_timer = none;
  bts_list = bts_list;
  mid_call_timeout = mid_call_timeout;
  auto_off_timeout = auto_off_timeout;
}

-- `osmo_bsc_rf_get_opstate_by_bts`, whether the base station is operational, and
-- `osmo_bsc_rf_get_adminstate_by_bts`, whether it is unlocked.
abbrev pub osmo_bsc_rf_get_opstate_by_bts : Bts → Bool
osmo_bsc_rf_get_opstate_by_bts bts = any_trx (λ t. is_enabled t.nm_state.operational) bts.trx_list

abbrev pub osmo_bsc_rf_get_adminstate_by_bts : Bts → Bool
osmo_bsc_rf_get_adminstate_by_bts bts =
    any_trx (λ t. is_unlocked t.nm_state.administrative) bts.trx_list
