-- ===== src/Call/Events.antt =====
-- openbsc/src/libmsc/gsm_04_08.c: what the phone and the application may ask of a call, by its state,
-- the expiry of a timer, the end of paging, and the loss of the connection.
pub mod Sound
pub mod Ends
pub mod Expirations
pub mod Tests
use openbsc.Base.{
  ℕ, zero, suc, ◌+◌, ◌-◌, Bool, true, false, not, ◌&&◌, ◌||◌, Option, none, some, List, [], ◌∷◌,
  ltb, ◌==◌, if◌then◌else◌,
}
use openbsc.Call.{
  CcState, null, initiated, mo_call_proc, call_delivered, call_present, call_received,
  connect_request, mo_term_call_conf, active, disconnect_req, disconnect_ind, release_req,
  mo_orig_modify, mo_term_modify, connect_ind, CcTimer, t301, t303, t306, t308, t310, t313, t323,
  Told, setup_ind, call_conf_ind, alert_ind, setup_cnf, setup_compl_ind, disc_ind, rel_ind, rel_cnf,
  rej_ind, facility_ind, notify_ind, start_dtmf_ind, stop_dtmf_ind, hold_ind, retrieve_ind,
  modify_ind, modify_cnf, modify_rej, userinfo_ind, ToMs, call_proc, progress, release_compl_simple,
  status, other, Call, is_null, is_release_req, new_cc_state, gsm48_stop_cc_timer,
  gsm48_start_cc_timer, mncc_recvmsg, gsm48_conn_sendmsg, mncc_release_ind, trans_free,
  forget_callref, gsm48_cc_tx_setup, gsm48_cc_tx_disconnect, gsm48_cc_tx_release,
  gsm48_cc_tx_release_compl,
}
use openbsc.Call.Handlers.{
  gsm48_cc_rx_release, release_compl_told, gsm48_cc_rx_release_compl, gsm48_cc_rx_setup,
  gsm48_cc_rx_connect_ack, gsm48_cc_rx_call_conf, gsm48_cc_rx_alerting, gsm48_cc_rx_connect,
  gsm48_cc_rx_facility, gsm48_cc_rx_notify, gsm48_cc_rx_start_dtmf, gsm48_cc_rx_stop_dtmf,
  gsm48_cc_rx_status_enq, gsm48_cc_rx_hold, gsm48_cc_rx_retrieve, gsm48_cc_rx_modify,
  gsm48_cc_rx_modify_complete, gsm48_cc_rx_modify_reject, gsm48_cc_rx_userinfo,
  gsm48_cc_rx_disconnect, gsm48_cc_tx_call_proc, gsm48_cc_tx_alerting, gsm48_cc_tx_connect,
  gsm48_cc_tx_progress, gsm48_cc_tx_connect_ack, gsm48_cc_tx_facility, gsm48_cc_tx_modify,
  gsm48_cc_tx_modify_complete, gsm48_cc_tx_modify_reject,
}

-- The messages of the phone in `datastatelist`; EMERGENCY SETUP is handled as SETUP is.
pub data FromMs : Type 0 where
  setup : FromMs
  connect_ack : FromMs
  call_conf : FromMs
  alerting : FromMs
  connect : FromMs
  facility : FromMs
  notify : FromMs
  start_dtmf : FromMs
  stop_dtmf : FromMs
  status_enq : FromMs
  hold : FromMs
  retr : FromMs
  modify : FromMs
  modify_compl : FromMs
  modify_reject : FromMs
  user_info : FromMs
  disconnect : FromMs
  release : FromMs
  release_compl : FromMs

-- The requests of the application in `downstatelist`. Those whose handler sends a message and does
-- nothing else are one where the table allows the same states: `dtmf_answer` is
-- MNCC_START_DTMF_RSP, MNCC_START_DTMF_REJ and MNCC_STOP_DTMF_RSP, `active_request` is MNCC_NOTIFY_REQ,
-- MNCC_USERINFO_REQ and the answers to HOLD and RETRIEVE.
pub data FromMncc : Type 0 where
  call_proc_req : FromMncc
  alert_req : FromMncc
  setup_rsp : FromMncc
  progress_req : FromMncc
  setup_req : FromMncc
  setup_compl_req : FromMncc
  facility_req : FromMncc
  dtmf_answer : FromMncc
  active_request : FromMncc
  lchan_modify : FromMncc
  modify_req : FromMncc
  modify_rsp : FromMncc
  modify_rej_req : FromMncc
  rej_req : FromMncc
  disc_req : FromMncc
  rel_req : FromMncc

-- `datastatelist`.
pub ms_allowed : FromMs → CcState → Bool
unfolding is_null is_release_req
ms_allowed FromMs.setup null = true
ms_allowed FromMs.connect_ack connect_ind = true
ms_allowed call_conf call_present = true
ms_allowed FromMs.alerting call_present = true
ms_allowed FromMs.alerting mo_term_call_conf = true
ms_allowed FromMs.connect call_present = true
ms_allowed FromMs.connect mo_term_call_conf = true
ms_allowed FromMs.connect call_received = true
ms_allowed facility s = not (is_null s)
ms_allowed notify active = true
ms_allowed start_dtmf s = true
ms_allowed stop_dtmf s = true
ms_allowed status_enq s = true
ms_allowed hold active = true
ms_allowed retr active = true
ms_allowed modify active = true
ms_allowed modify_compl mo_term_modify = true
ms_allowed modify_reject mo_term_modify = true
ms_allowed user_info active = true
ms_allowed FromMs.disconnect s = not (is_null s) && not (is_release_req s)
ms_allowed FromMs.release s = not (is_null s)
ms_allowed FromMs.release_compl s = true
ms_allowed m s = false

is_disconnecting : CcState → Bool
is_disconnecting disconnect_ind = true
is_disconnecting disconnect_req = true
is_disconnecting s = false

-- `downstatelist`.
pub mncc_allowed : FromMncc → CcState → Bool
unfolding is_null is_release_req is_disconnecting
mncc_allowed call_proc_req initiated = true
mncc_allowed alert_req initiated = true
mncc_allowed alert_req mo_call_proc = true
mncc_allowed setup_rsp initiated = true
mncc_allowed setup_rsp mo_call_proc = true
mncc_allowed setup_rsp call_delivered = true
mncc_allowed progress_req mo_call_proc = true
mncc_allowed setup_req null = true
mncc_allowed setup_compl_req connect_request = true
mncc_allowed facility_req s = not (is_null s) && not (is_release_req s)
mncc_allowed dtmf_answer s = true
mncc_allowed active_request active = true
mncc_allowed lchan_modify s = true
mncc_allowed modify_req active = true
mncc_allowed modify_rsp mo_orig_modify = true
mncc_allowed modify_rej_req mo_orig_modify = true
mncc_allowed rej_req initiated = true
mncc_allowed disc_req s = not (is_null s) && (not (is_disconnecting s) && not (is_release_req s))
mncc_allowed rel_req s = not (is_null s) && not (is_release_req s)
mncc_allowed m s = false

-- The functions gsm48_cc_rx_* for a message that the table allows.
pub gsm48_cc_rx : FromMs → Call → Call
unfolding gsm48_cc_rx_setup gsm48_cc_rx_connect_ack gsm48_cc_rx_call_conf gsm48_cc_rx_alerting
    gsm48_cc_rx_connect gsm48_cc_rx_facility gsm48_cc_rx_notify gsm48_cc_rx_start_dtmf
    gsm48_cc_rx_stop_dtmf gsm48_cc_rx_status_enq gsm48_cc_rx_hold gsm48_cc_rx_retrieve
    gsm48_cc_rx_modify gsm48_cc_rx_modify_complete gsm48_cc_rx_modify_reject gsm48_cc_rx_userinfo
    gsm48_cc_rx_disconnect gsm48_cc_rx_release gsm48_cc_rx_release_compl
gsm48_cc_rx FromMs.setup c = gsm48_cc_rx_setup c
gsm48_cc_rx FromMs.connect_ack c = gsm48_cc_rx_connect_ack c
gsm48_cc_rx call_conf c = gsm48_cc_rx_call_conf c
gsm48_cc_rx FromMs.alerting c = gsm48_cc_rx_alerting c
gsm48_cc_rx FromMs.connect c = gsm48_cc_rx_connect c
gsm48_cc_rx facility c = gsm48_cc_rx_facility c
gsm48_cc_rx notify c = gsm48_cc_rx_notify c
gsm48_cc_rx start_dtmf c = gsm48_cc_rx_start_dtmf c
gsm48_cc_rx stop_dtmf c = gsm48_cc_rx_stop_dtmf c
gsm48_cc_rx status_enq c = gsm48_cc_rx_status_enq c
gsm48_cc_rx hold c = gsm48_cc_rx_hold c
gsm48_cc_rx retr c = gsm48_cc_rx_retrieve c
gsm48_cc_rx modify c = gsm48_cc_rx_modify c
gsm48_cc_rx modify_compl c = gsm48_cc_rx_modify_complete c
gsm48_cc_rx modify_reject c = gsm48_cc_rx_modify_reject c
gsm48_cc_rx user_info c = gsm48_cc_rx_userinfo c
gsm48_cc_rx FromMs.disconnect c = gsm48_cc_rx_disconnect c
gsm48_cc_rx FromMs.release c = gsm48_cc_rx_release c
gsm48_cc_rx FromMs.release_compl c = gsm48_cc_rx_release_compl c

-- `gsm0408_rcv_cc`, from the transaction that was found or created on.
pub gsm0408_rcv_cc : FromMs → Call → Call
unfolding ms_allowed gsm48_cc_rx
gsm0408_rcv_cc m c = if ms_allowed m c.state then gsm48_cc_rx m c else c

-- The functions gsm48_cc_tx_* for a request that the table allows.
pub gsm48_cc_tx : Option ℕ → FromMncc → Call → Call
unfolding gsm48_cc_tx_call_proc gsm48_cc_tx_alerting gsm48_cc_tx_connect gsm48_cc_tx_progress
    gsm48_cc_tx_connect_ack gsm48_cc_tx_facility gsm48_cc_tx_modify gsm48_cc_tx_modify_complete
    gsm48_cc_tx_modify_reject gsm48_conn_sendmsg gsm48_cc_tx_setup gsm48_cc_tx_disconnect
    gsm48_cc_tx_release gsm48_cc_tx_release_compl
gsm48_cc_tx o call_proc_req c = gsm48_cc_tx_call_proc c
gsm48_cc_tx o alert_req c = gsm48_cc_tx_alerting c
gsm48_cc_tx o setup_rsp c = gsm48_cc_tx_connect c
gsm48_cc_tx o progress_req c = gsm48_cc_tx_progress c
gsm48_cc_tx o setup_req c = gsm48_cc_tx_setup o c
gsm48_cc_tx o setup_compl_req c = gsm48_cc_tx_connect_ack c
gsm48_cc_tx o facility_req c = gsm48_cc_tx_facility c
gsm48_cc_tx o dtmf_answer c = gsm48_conn_sendmsg other c
gsm48_cc_tx o active_request c = gsm48_conn_sendmsg other c
gsm48_cc_tx o lchan_modify c = c
gsm48_cc_tx o modify_req c = gsm48_cc_tx_modify c
gsm48_cc_tx o modify_rsp c = gsm48_cc_tx_modify_complete c
gsm48_cc_tx o modify_rej_req c = gsm48_cc_tx_modify_reject c
gsm48_cc_tx o rej_req c = gsm48_cc_tx_release_compl c
gsm48_cc_tx o disc_req c = gsm48_cc_tx_disconnect c
gsm48_cc_tx o rel_req c = gsm48_cc_tx_release c

is_rel_req : FromMncc → Bool
is_rel_req rel_req = true
is_rel_req m = false

-- `mncc_tx_to_cc` for the transaction with the call reference: while it is paged for, any request
-- ends it.
pub mncc_tx_to_cc : Option ℕ → FromMncc → Call → Call
unfolding mncc_allowed gsm48_cc_tx mncc_recvmsg forget_callref trans_free is_rel_req
mncc_tx_to_cc o m c =
    if c.conn
    then (if mncc_allowed m c.state then gsm48_cc_tx o m c else c)
    else trans_free
        (forget_callref (mncc_recvmsg (if is_rel_req m then rel_cnf else rel_ind) c.callref c))

-- The ways out of `gsm48_cc_timeout`: a release or a disconnection, of the application and the phone.
pub timeout_release : Call → Call
unfolding mncc_release_ind forget_callref gsm48_cc_tx_release
timeout_release c =
    gsm48_cc_tx_release
      (if ltb 0 c.callref then forget_callref (mncc_release_ind c.callref c) else c)

pub timeout_disconnect : Call → Call
unfolding mncc_recvmsg gsm48_cc_tx_disconnect
timeout_disconnect c =
    gsm48_cc_tx_disconnect (if ltb 0 c.callref then mncc_recvmsg disc_ind c.callref c else c)

-- `gsm48_cc_timeout` by Tcurrent.
pub gsm48_cc_timeout : CcTimer → Call → Call
unfolding timeout_release timeout_disconnect gsm48_cc_tx_release trans_free
gsm48_cc_timeout t303 c = timeout_release c
gsm48_cc_timeout t310 c = timeout_disconnect c
gsm48_cc_timeout t313 c = timeout_disconnect c
gsm48_cc_timeout t301 c = timeout_disconnect c
gsm48_cc_timeout t308 c =
    if c.t308_second then trans_free c else record (gsm48_cc_tx_release c) { t308_second = true }
gsm48_cc_timeout t306 c = timeout_release c
gsm48_cc_timeout t323 c = timeout_disconnect c

-- The pending timer expires.
pub expire : Call → Call
unfolding gsm48_cc_timeout
expire c = elim c.timer [ none ↦ c | some t ↦ gsm48_cc_timeout t (record c { timer = none }) ]

-- The last statement of `setup_trig_pag_evt`, which writes to the transaction.
pub paging_done : Call → Call
paging_done c = record c { paging = false; fault = c.fault || c.freed }

-- `setup_trig_pag_evt` with GSM_PAGING_SUCCEEDED, and with GSM_PAGING_EXPIRED or GSM_PAGING_BUSY.
pub paging_succeeded : Option ℕ → Call → Call
unfolding gsm48_cc_tx_setup paging_done
paging_succeeded o c = paging_done (gsm48_cc_tx_setup o (record c { conn = true }))

pub paging_expired : Call → Call
unfolding mncc_release_ind forget_callref trans_free paging_done
paging_expired c =
    paging_done
      (trans_free (record (forget_callref (mncc_release_ind c.callref c)) { paging = false }))

-- `gsm0408_clear_request`: the transactions of a connection that is released are freed.
pub gsm0408_clear_request : Call → Call
unfolding trans_free
gsm0408_clear_request c = if c.conn then trans_free c else c

-- `gsm0408_clear_all_trans`: the socket of the application was closed, and all calls are freed.
pub gsm0408_clear_all_trans : Call → Call
unfolding forget_callref trans_free
gsm0408_clear_all_trans c = trans_free (forget_callref c)

-- `disconnect_bridge`, for one of the two calls that MNCC_BRIDGE could not connect. Without a
-- connection the message is sent by a null pointer.
pub disconnect_bridge : Call → Call
unfolding gsm48_cc_tx_disconnect
disconnect_bridge c = if c.conn then gsm48_cc_tx_disconnect c else record c { fault = true }

-- A new transaction: of the phone, in `gsm0408_rcv_cc`, and of the application, in `mncc_tx_to_cc`,
-- for a subscriber with a connection or without one.
pub mobile_originated : ℕ → ℕ → Call
mobile_originated callref trans_id = record {
  state = null;
  timer = none;
  t308_second = false;
  callref = callref;
  transaction_id = trans_id;
  conn = true;
  paging = false;
  freed = false;
  fault = false;
  active_calls = 0;
  sent = [];
}

pub mobile_terminated : ℕ → Bool → Call
unfolding mobile_originated
mobile_terminated callref connected = record (mobile_originated callref 255) {
  conn = connected;
  paging = not connected;
}
