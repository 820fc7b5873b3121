-- ===== src/Call/Events/Tests.antt =====
-- Runs of the call control of openbsc/src/libmsc/gsm_04_08.c, and its theorems at concrete calls.
use openbsc.Base.{◌≡◌, refl, true, none, some, [], ◌∷◌, arith}
use openbsc.Call.{
  active, t303, setup_ind, setup_compl_ind, rel_ind, rel_cnf, ToMs, call_proc, release, mncc, ms,
  Call, is_release_req,
}
use openbsc.Call.Events.{
  FromMs, call_proc_req, setup_rsp, setup_req, gsm0408_rcv_cc, mncc_tx_to_cc, expire,
  mobile_originated, mobile_terminated,
}
use openbsc.Call.Events.Sound.{closings}
use openbsc.Call.Events.Ends.{Reachable, from_application, next, from_mncc}
use openbsc.Call.Events.Expirations.{expirations, expirations-freed, expire-gsm48_cc_rx_release}

-- A call of the phone up to the conversation.
conversation : Call
conversation = gsm0408_rcv_cc FromMs.connect_ack (
    mncc_tx_to_cc none setup_rsp
      (mncc_tx_to_cc none call_proc_req (gsm0408_rcv_cc FromMs.setup (mobile_originated 5 8))))

conversation-active : conversation.state ≡ active
unfolding conversation gsm0408_rcv_cc mncc_tx_to_cc mobile_originated
conversation-active = refl

conversation-sent :
    conversation.sent
    ≡ mncc setup_compl_ind 5 ∷ ms ToMs.connect ∷ ms call_proc ∷ mncc setup_ind 5 ∷ []
unfolding conversation gsm0408_rcv_cc mncc_tx_to_cc mobile_originated
conversation-sent = refl

conversation-counted : conversation.active_calls ≡ 1
unfolding conversation gsm0408_rcv_cc mncc_tx_to_cc mobile_originated
conversation-counted = refl

-- A call to a phone with a connection, after the SETUP.
abbrev calling : Call
calling = mncc_tx_to_cc (some 3) setup_req (mobile_terminated 7 true)

calling-Reachable : Reachable 7 calling
calling-Reachable = next (from_application true) (
    from_mncc (some 3) setup_req (mobile_terminated 7 true) (unfold mobile_terminated in refl)
      (unfold mobile_terminated in omega arith))

calling-timer : calling.timer ≡ some t303
unfolding mncc_tx_to_cc mobile_terminated
calling-timer = refl

expirations-freed_example :
    ((expirations 4 calling).freed ≡ true) × (closings 7 (expirations 4 calling).sent ≡ 1)
expirations-freed_example = expirations-freed t303 (omega arith) calling-Reachable calling-timer

expire-gsm48_cc_rx_release_example :
    (gsm0408_rcv_cc FromMs.release (expire calling)).sent
    ≡ mncc rel_cnf 0 ∷ ms release ∷ mncc rel_ind calling.callref ∷ calling.sent
expire-gsm48_cc_rx_release_example =
    expire-gsm48_cc_rx_release t303 calling refl calling-timer
      (unfold mncc_tx_to_cc mobile_terminated in omega arith)
      (unfold mncc_tx_to_cc mobile_terminated is_release_req in refl)
