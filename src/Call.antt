-- ===== src/Call.antt =====
-- openbsc/src/libmsc/gsm_04_08.c: the call control of one call, the functions gsm48_cc_* with the
-- tables that choose among them. The application behind MNCC and the phone are sources of events; of
-- a message its type counts, and for the application the call reference in it.
pub mod Handlers
pub mod Events
use openbsc.Base.{
  ℕ, zero, suc, ◌+◌, ◌-◌, Bool, true, false, not, ◌&&◌, ◌||◌, Option, none, some, List, [], ◌∷◌,
  ◌++◌, ltb, ◌==◌, if◌then◌else◌,
}

-- The states of enum gsm48_cc_states that the code uses.
pub data CcState : Type 0 where
  null : CcState
  initiated : CcState
  mo_call_proc : CcState
  call_delivered : CcState
  call_present : CcState
  call_received : CcState
  connect_request : CcState
  mo_term_call_conf : CcState
  active : CcState
  disconnect_req : CcState
  disconnect_ind : CcState
  release_req : CcState
  mo_orig_modify : CcState
  mo_term_modify : CcState
  connect_ind : CcState

pub data CcTimer : Type 0 where
  t301 : CcTimer
  t303 : CcTimer
  t306 : CcTimer
  t308 : CcTimer
  t310 : CcTimer
  t313 : CcTimer
  t323 : CcTimer

-- What the application is told: the MNCC_*_IND and MNCC_*_CNF, and MNCC_MODIFY_REJ.
pub data Told : Type 0 where
  setup_ind : Told
  call_conf_ind : Told
  alert_ind : Told
  setup_cnf : Told
  setup_compl_ind : Told
  disc_ind : Told
  rel_ind : Told
  rel_cnf : Told
  rej_ind : Told
  facility_ind : Told
  notify_ind : Told
  start_dtmf_ind : Told
  stop_dtmf_ind : Told
  hold_ind : Told
  retrieve_ind : Told
  modify_ind : Told
  modify_cnf : Told
  modify_rej : Told
  userinfo_ind : Told

-- What the phone is sent: the GSM48_MT_CC_*. A RELEASE COMPLETE that gsm48_tx_simple sends has no
-- information elements.
pub data ToMs : Type 0 where
  setup : ToMs
  call_proc : ToMs
  alerting : ToMs
  progress : ToMs
  connect : ToMs
  connect_ack : ToMs
  disconnect : ToMs
  release : ToMs
  release_compl : ToMs
  release_compl_simple : ToMs
  status : ToMs
  other : ToMs

-- A message to the application, with its call reference, or to the phone.
pub data Sent : Type 0 where
  mncc : Told → ℕ → Sent
  ms : ToMs → Sent

-- `struct gsm_trans` of a call. `conn` and `paging` tell whether the pointers are set; a timer that is
-- pending is Tcurrent. `freed` and `fault` are the memory: whether the transaction has been freed, and
-- whether it was written to after that or a null pointer was used. `sent` and `active_calls` belong to the network.
pub record Call : Type 0 where
  pub state : CcState
  pub timer : Option CcTimer
  pub t308_second : Bool
  pub callref : ℕ
  pub transaction_id : ℕ
  pub conn : Bool
  pub paging : Bool
  pub freed : Bool
  pub fault : Bool
  pub active_calls : ℕ
  pub sent : List Sent

pub is_active : CcState → Bool
is_active active = true
is_active s = false

pub is_null : CcState → Bool
is_null null = true
is_null s = false

pub is_release_req : CcState → Bool
is_release_req release_req = true
is_release_req s = false

-- The counter of `count_statistics`; nothing is counted where the state stays the same.
pub count_statistics : CcState → CcState → ℕ → ℕ
unfolding is_active
count_statistics old new calls =
    if is_active old
    then (if is_active new then calls else calls - 1)
    else if is_active new
    then calls + 1
    else calls

pub new_cc_state : CcState → Call → Call
unfolding count_statistics
new_cc_state s c = record c { state = s; active_calls = count_statistics c.state s c.active_calls }

pub gsm48_stop_cc_timer : Call → Call
gsm48_stop_cc_timer c = record c { timer = none }

pub gsm48_start_cc_timer : CcTimer → Call → Call
gsm48_start_cc_timer t c = record c { timer = some t }

pub mncc_recvmsg : Told → ℕ → Call → Call
mncc_recvmsg t ref c = record c { sent = mncc t ref ∷ c.sent }

pub gsm48_conn_sendmsg : ToMs → Call → Call
gsm48_conn_sendmsg m c = record c { sent = ms m ∷ c.sent }

pub mncc_release_ind : ℕ → Call → Call
unfolding is_release_req mncc_recvmsg
mncc_release_ind ref c = mncc_recvmsg (if is_release_req c.state then rel_cnf else rel_ind) ref c

-- `trans_free` of transaction.c with `_gsm48_cc_trans_free`.
pub trans_free : Call → Call
unfolding gsm48_stop_cc_timer mncc_release_ind new_cc_state is_null
trans_free c =
    let stopped = gsm48_stop_cc_timer c in
    let told =
      if ltb 0 stopped.callref then mncc_release_ind stopped.callref stopped else stopped in
    let cleared = if is_null told.state then told else new_cc_state null told in
    record cleared { freed = true; paging = false }

-- The application has been told, or needs not be.
pub forget_callref : Call → Call
forget_callref c = record c { callref = 0 }

-- `gsm48_cc_tx_setup`; `assigned` is what `trans_assign_trans_id` returns.
pub gsm48_cc_tx_setup : Option ℕ → Call → Call
unfolding mncc_release_ind forget_callref trans_free gsm48_start_cc_timer new_cc_state
    gsm48_conn_sendmsg
gsm48_cc_tx_setup none c = trans_free (forget_callref (mncc_release_ind c.callref c))
gsm48_cc_tx_setup (some trans_id) c =
    if c.transaction_id == 255
    then gsm48_conn_sendmsg setup (
        new_cc_state call_present
          (gsm48_start_cc_timer t303 (record c { transaction_id = trans_id })))
    else trans_free (forget_callref (mncc_release_ind c.callref c))

pub gsm48_cc_tx_disconnect : Call → Call
unfolding gsm48_stop_cc_timer gsm48_start_cc_timer new_cc_state gsm48_conn_sendmsg
gsm48_cc_tx_disconnect c =
    gsm48_conn_sendmsg disconnect
      (new_cc_state disconnect_ind (gsm48_start_cc_timer t306 (gsm48_stop_cc_timer c)))

pub gsm48_cc_tx_release : Call → Call
unfolding gsm48_stop_cc_timer gsm48_start_cc_timer new_cc_state gsm48_conn_sendmsg is_release_req
gsm48_cc_tx_release c =
    let started = record (gsm48_start_cc_timer t308 (gsm48_stop_cc_timer c)) {
      t308_second = false;
    } in
    gsm48_conn_sendmsg release
      (if is_release_req started.state then started else new_cc_state release_req started)

pub gsm48_cc_tx_release_compl : Call → Call
unfolding forget_callref gsm48_stop_cc_timer gsm48_conn_sendmsg trans_free
gsm48_cc_tx_release_compl c =
    trans_free (gsm48_conn_sendmsg release_compl (gsm48_stop_cc_timer (forget_callref c)))
