-- ===== src/Call/Events/Sound.antt =====
-- openbsc/src/libmsc/gsm_04_08.c: the invariant of a call.
pub mod Phone
pub mod Application
pub mod Timers
use openbsc.Base.{
  ℕ, zero, suc, ◌+◌, ◌-◌, ◌≡◌, ◌≢◌, ◌≤◌, ◌<◌, ◌⊎◌, inl, inr, refl, Bool, true, false, not, ◌&&◌,
  ◌||◌, Option, none, some, List, [], ◌∷◌, ltb, ◌==◌, if◌then◌else◌, Bool-cases, arith,
}
use openbsc.Call.{
  CcState, null, initiated, mo_call_proc, call_delivered, call_present, call_received,
  connect_request, mo_term_call_conf, active, disconnect_req, disconnect_ind, release_req,
  mo_orig_modify, mo_term_modify, connect_ind, CcTimer, t301, t303, t306, t308, t310, t313, t323,
  Told, disc_ind, rel_ind, rel_cnf, rej_ind, ToMs, release_compl, Sent, mncc, ms, Call, is_active,
  is_null, is_release_req, count_statistics, new_cc_state, mncc_recvmsg, mncc_release_ind,
  forget_callref, trans_free, gsm48_cc_tx_setup, gsm48_cc_tx_disconnect, gsm48_cc_tx_release,
  gsm48_cc_tx_release_compl,
}
use openbsc.Call.Events.{
  FromMs, call_conf, facility, notify, start_dtmf, stop_dtmf, status_enq, hold, retr, modify,
  modify_compl, modify_reject, user_info, FromMncc, ms_allowed, mncc_allowed, gsm48_cc_rx,
  gsm0408_rcv_cc, gsm48_cc_tx, mncc_tx_to_cc, gsm48_cc_timeout, is_rel_req, timeout_release,
  timeout_disconnect, paging_done, call_proc_req, alert_req, setup_compl_req, modify_rsp,
  modify_rej_req, setup_req, disc_req, rel_req, rej_req, expire, paging_succeeded, paging_expired,
  gsm0408_clear_request,
}
use openbsc.Call.Handlers.{gsm48_cc_rx_release, gsm48_cc_rx_release_compl, release_compl_told}

-- The timer that runs in a state.
unfoldable pub timer_of : CcState → Option CcTimer
timer_of call_present = some t303
timer_of call_received = some t301
timer_of mo_term_call_conf = some t310
timer_of connect_ind = some t313
timer_of disconnect_ind = some t306
timer_of release_req = some t308
timer_of mo_term_modify = some t323
timer_of s = none

-- The messages that end the call for the application, and the answer to its rejection of a call.
unfoldable pub closing : ℕ → Sent → Bool
closing ref (mncc rel_ind r) = r == ref
closing ref (mncc rel_cnf r) = r == ref
closing ref (mncc rej_ind r) = r == ref
closing ref (mncc t r) = false
closing ref (ms release_compl) = true
closing ref (ms m) = false

unfoldable pub closings : ℕ → List Sent → ℕ
unfolding closing
closings ref [] = 0
closings ref (m ∷ l) = (if closing ref m then 1 else 0) + closings ref l

abbrev pub bit : Bool → ℕ
bit b = if b then 1 else 0

pub record IsSound (ref : ℕ) (c : Call) : Type 0 where
  pub timed : c.timer ≡ timer_of c.state
  pub counted : c.active_calls ≡ bit (is_active c.state)
  pub told : closings ref c.sent ≡ bit (c.freed || (c.callref == 0))
  pub ended : c.freed ≡ true → c.timer ≡ none
  pub own : (c.callref == 0 || (c.callref == ref)) ≡ true

pub count_statistics_lem :
    (old new : CcState) (calls : ℕ)
    → calls ≡ bit (is_active old)
    → count_statistics old new calls ≡ bit (is_active new)
unfolding count_statistics
count_statistics_lem old new calls h = ground arith

pub closing-release_compl_told :
    (ref r : ℕ) (s : CcState) → closing ref (mncc (release_compl_told s) r) ≡ (r == ref)
unfolding closing release_compl_told
closing-release_compl_told ref r call_present = refl
closing-release_compl_told ref r release_req = refl
closing-release_compl_told ref r s = refl

-- What leaves the timer alone is allowed only where none runs.
pub setup-timer_of : (s : CcState) → ms_allowed FromMs.setup s ≡ true → timer_of s ≡ none
unfolding ms_allowed timer_of
setup-timer_of null h = refl
setup-timer_of s h = cc

pub modify-timer_of : (s : CcState) → ms_allowed modify s ≡ true → timer_of s ≡ none
unfolding ms_allowed timer_of
modify-timer_of active h = refl
modify-timer_of s h = cc

abbrev pub leaves_timer : FromMncc → Bool
leaves_timer call_proc_req = true
leaves_timer alert_req = true
leaves_timer setup_compl_req = true
leaves_timer modify_rsp = true
leaves_timer modify_rej_req = true
leaves_timer m = false

pub mncc-timer_of :
    (m : FromMncc) (s : CcState)
    → leaves_timer m ≡ true
    → mncc_allowed m s ≡ true
    → timer_of s ≡ none
unfolding mncc_allowed timer_of
mncc-timer_of call_proc_req initiated l h = refl
mncc-timer_of alert_req initiated l h = refl
mncc-timer_of alert_req mo_call_proc l h = refl
mncc-timer_of setup_compl_req connect_request l h = refl
mncc-timer_of modify_rsp mo_orig_modify l h = refl
mncc-timer_of modify_rej_req mo_orig_modify l h = refl
mncc-timer_of m s l h = cc

pub is_release_req-timer_of : (s : CcState) → is_release_req s ≡ true → timer_of s ≡ some t308
unfolding is_release_req timer_of
is_release_req-timer_of release_req h = refl
is_release_req-timer_of s h = cc

pub setup_req-is_null : (s : CcState) → mncc_allowed setup_req s ≡ true → is_null s ≡ true
unfolding mncc_allowed is_null
setup_req-is_null null h = refl
setup_req-is_null s h = cc

-- The timer of a sound call is that of its state.
pub IsSound-timer :
    {ref : ℕ} (c : Call) → IsSound ref c → IsSound ref (record c { timer = timer_of c.state })
IsSound-timer c s = ground arith

pub if-IsSound :
    {ref : ℕ} {x y : Call} (b : Bool)
    → (b ≡ true → IsSound ref x)
    → (b ≡ false → IsSound ref y)
    → IsSound ref (if b then x else y)
if-IsSound true f g = f refl
if-IsSound false f g = g refl
