-- ===== src/Call/Handlers.antt =====
-- openbsc/src/libmsc/gsm_04_08.c: the functions gsm48_cc_rx_* and gsm48_cc_tx_*, one for each message of
-- the phone and request of the application that does something.
use openbsc.Base.{ltb, if◌then◌else◌}
use openbsc.Call.{
  CcState, null, initiated, mo_call_proc, call_delivered, call_present, call_received,
  connect_request, mo_term_call_conf, active, disconnect_req, release_req, mo_orig_modify,
  mo_term_modify, connect_ind, t301, t310, t313, t323, Told, setup_ind, call_conf_ind, alert_ind,
  setup_cnf, setup_compl_ind, disc_ind, rel_ind, rel_cnf, rej_ind, facility_ind, notify_ind,
  start_dtmf_ind, stop_dtmf_ind, hold_ind, retrieve_ind, modify_ind, modify_cnf, modify_rej,
  userinfo_ind, ToMs, call_proc, progress, release_compl_simple, status, other, Call,
  is_release_req, new_cc_state, gsm48_stop_cc_timer, gsm48_start_cc_timer, mncc_recvmsg,
  gsm48_conn_sendmsg, trans_free, forget_callref,
}

-- `gsm48_cc_rx_release`.
unfoldable pub gsm48_cc_rx_release : Call → Call
unfolding gsm48_stop_cc_timer mncc_recvmsg gsm48_conn_sendmsg new_cc_state forget_callref trans_free
    is_release_req
gsm48_cc_rx_release c =
    let stopped = gsm48_stop_cc_timer c in
    let told =
      if is_release_req stopped.state
      then mncc_recvmsg rel_cnf stopped.callref stopped
      else mncc_recvmsg rel_ind stopped.callref (gsm48_conn_sendmsg release_compl_simple stopped) in
    trans_free (forget_callref (new_cc_state null told))

unfoldable pub release_compl_told : CcState → Told
release_compl_told call_present = rej_ind
release_compl_told release_req = rel_cnf
release_compl_told s = rel_ind

-- `gsm48_cc_rx_release_compl`.
unfoldable pub gsm48_cc_rx_release_compl : Call → Call
unfolding gsm48_stop_cc_timer mncc_recvmsg forget_callref trans_free release_compl_told
gsm48_cc_rx_release_compl c =
    let stopped = gsm48_stop_cc_timer c in
    let told =
      if ltb 0 stopped.callref
      then mncc_recvmsg (release_compl_told stopped.state) stopped.callref stopped
      else stopped in
    trans_free (forget_callref told)

unfoldable pub gsm48_cc_rx_setup : Call → Call
unfolding new_cc_state mncc_recvmsg
gsm48_cc_rx_setup c = mncc_recvmsg setup_ind c.callref (new_cc_state initiated c)

unfoldable pub gsm48_cc_rx_connect_ack : Call → Call
unfolding gsm48_stop_cc_timer new_cc_state mncc_recvmsg
gsm48_cc_rx_connect_ack c =
    mncc_recvmsg setup_compl_ind c.callref (new_cc_state active (gsm48_stop_cc_timer c))

unfoldable pub gsm48_cc_rx_call_conf : Call → Call
unfolding gsm48_stop_cc_timer gsm48_start_cc_timer new_cc_state mncc_recvmsg
gsm48_cc_rx_call_conf c =
    mncc_recvmsg call_conf_ind c.callref
      (new_cc_state mo_term_call_conf (gsm48_start_cc_timer t310 (gsm48_stop_cc_timer c)))

unfoldable pub gsm48_cc_rx_alerting : Call → Call
unfolding gsm48_stop_cc_timer gsm48_start_cc_timer new_cc_state mncc_recvmsg
gsm48_cc_rx_alerting c =
    mncc_recvmsg alert_ind c.callref
      (new_cc_state call_received (gsm48_start_cc_timer t301 (gsm48_stop_cc_timer c)))

unfoldable pub gsm48_cc_rx_connect : Call → Call
unfolding gsm48_stop_cc_timer new_cc_state mncc_recvmsg
gsm48_cc_rx_connect c =
    mncc_recvmsg setup_cnf c.callref (new_cc_state connect_request (gsm48_stop_cc_timer c))

unfoldable pub gsm48_cc_rx_facility : Call → Call
unfolding mncc_recvmsg
gsm48_cc_rx_facility c = mncc_recvmsg facility_ind c.callref c

unfoldable pub gsm48_cc_rx_notify : Call → Call
unfolding mncc_recvmsg
gsm48_cc_rx_notify c = mncc_recvmsg notify_ind c.callref c

unfoldable pub gsm48_cc_rx_start_dtmf : Call → Call
unfolding mncc_recvmsg
gsm48_cc_rx_start_dtmf c = mncc_recvmsg start_dtmf_ind c.callref c

unfoldable pub gsm48_cc_rx_stop_dtmf : Call → Call
unfolding mncc_recvmsg
gsm48_cc_rx_stop_dtmf c = mncc_recvmsg stop_dtmf_ind c.callref c

unfoldable pub gsm48_cc_rx_status_enq : Call → Call
unfolding gsm48_conn_sendmsg
gsm48_cc_rx_status_enq c = gsm48_conn_sendmsg status c

unfoldable pub gsm48_cc_rx_hold : Call → Call
unfolding mncc_recvmsg
gsm48_cc_rx_hold c = mncc_recvmsg hold_ind c.callref c

unfoldable pub gsm48_cc_rx_retrieve : Call → Call
unfolding mncc_recvmsg
gsm48_cc_rx_retrieve c = mncc_recvmsg retrieve_ind c.callref c

unfoldable pub gsm48_cc_rx_modify : Call → Call
unfolding new_cc_state mncc_recvmsg
gsm48_cc_rx_modify c = mncc_recvmsg modify_ind c.callref (new_cc_state mo_orig_modify c)

unfoldable pub gsm48_cc_rx_modify_complete : Call → Call
unfolding gsm48_stop_cc_timer new_cc_state mncc_recvmsg
gsm48_cc_rx_modify_complete c =
    mncc_recvmsg modify_cnf c.callref (new_cc_state active (gsm48_stop_cc_timer c))

unfoldable pub gsm48_cc_rx_modify_reject : Call → Call
unfolding gsm48_stop_cc_timer new_cc_state mncc_recvmsg
gsm48_cc_rx_modify_reject c =
    mncc_recvmsg modify_rej c.callref (new_cc_state active (gsm48_stop_cc_timer c))

unfoldable pub gsm48_cc_rx_userinfo : Call → Call
unfolding mncc_recvmsg
gsm48_cc_rx_userinfo c = mncc_recvmsg userinfo_ind c.callref c

unfoldable pub gsm48_cc_rx_disconnect : Call → Call
unfolding gsm48_stop_cc_timer new_cc_state mncc_recvmsg
gsm48_cc_rx_disconnect c =
    mncc_recvmsg disc_ind c.callref (new_cc_state disconnect_req (gsm48_stop_cc_timer c))

unfoldable pub gsm48_cc_tx_call_proc : Call → Call
unfolding new_cc_state gsm48_conn_sendmsg
gsm48_cc_tx_call_proc c = gsm48_conn_sendmsg call_proc (new_cc_state mo_call_proc c)

unfoldable pub gsm48_cc_tx_alerting : Call → Call
unfolding new_cc_state gsm48_conn_sendmsg
gsm48_cc_tx_alerting c = gsm48_conn_sendmsg ToMs.alerting (new_cc_state call_delivered c)

unfoldable pub gsm48_cc_tx_connect : Call → Call
unfolding gsm48_stop_cc_timer gsm48_start_cc_timer new_cc_state gsm48_conn_sendmsg
gsm48_cc_tx_connect c =
    gsm48_conn_sendmsg ToMs.connect
      (new_cc_state connect_ind (gsm48_start_cc_timer t313 (gsm48_stop_cc_timer c)))

unfoldable pub gsm48_cc_tx_progress : Call → Call
unfolding gsm48_conn_sendmsg
gsm48_cc_tx_progress c = gsm48_conn_sendmsg progress c

unfoldable pub gsm48_cc_tx_connect_ack : Call → Call
unfolding new_cc_state gsm48_conn_sendmsg
gsm48_cc_tx_connect_ack c = gsm48_conn_sendmsg ToMs.connect_ack (new_cc_state active c)

unfoldable pub gsm48_cc_tx_facility : Call → Call
unfolding gsm48_conn_sendmsg
gsm48_cc_tx_facility c = gsm48_conn_sendmsg other c

unfoldable pub gsm48_cc_tx_modify : Call → Call
unfolding gsm48_start_cc_timer new_cc_state gsm48_conn_sendmsg
gsm48_cc_tx_modify c =
    gsm48_conn_sendmsg other (new_cc_state mo_term_modify (gsm48_start_cc_timer t323 c))

unfoldable pub gsm48_cc_tx_modify_complete : Call → Call
unfolding new_cc_state gsm48_conn_sendmsg
gsm48_cc_tx_modify_complete c = gsm48_conn_sendmsg other (new_cc_state active c)

unfoldable pub gsm48_cc_tx_modify_reject : Call → Call
unfolding new_cc_state gsm48_conn_sendmsg
gsm48_cc_tx_modify_reject c = gsm48_conn_sendmsg other (new_cc_state active c)
