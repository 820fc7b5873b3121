-- ===== src/Call/Events/Sound/Application.antt =====
-- openbsc/src/libmsc/gsm_04_08.c: the invariant under the requests of the application.
use openbsc.Base.{
  ℕ, ◌≡◌, ◌<◌, inl, inr, Bool, true, false, Option, none, some, if◌then◌else◌, Bool-cases, arith,
}
use openbsc.Call.{
  null, call_present, disconnect_ind, release_req, rel_ind, rel_cnf, Call, is_active, is_null,
  is_release_req, mncc_recvmsg, forget_callref, trans_free, gsm48_cc_tx_setup,
  gsm48_cc_tx_disconnect, gsm48_cc_tx_release, gsm48_cc_tx_release_compl,
}
use openbsc.Call.Events.{
  FromMncc, mncc_allowed, gsm48_cc_tx, mncc_tx_to_cc, is_rel_req, setup_req, disc_req, rel_req,
  rej_req,
}
use openbsc.Call.Events.Sound.{
  timer_of, closings, IsSound, IsSound-timer, if-IsSound, count_statistics_lem, mncc-timer_of,
  is_release_req-timer_of, setup_req-is_null,
}

module _ (ref : ℕ) (pos : 0 < ref) where
  pub gsm48_cc_tx_setup-IsSound :
      (o : Option ℕ) (c : Call)
      → IsSound ref c
      → c.freed ≡ false
      → is_null c.state ≡ true
      → 0 < c.callref
      → IsSound ref (gsm48_cc_tx_setup o c)
  unfolding gsm48_cc_tx_setup closings timer_of is_active is_null
  gsm48_cc_tx_setup-IsSound none c s f n h =
      ground (arith, count_statistics_lem c.state null c.active_calls)
  gsm48_cc_tx_setup-IsSound (some t) c s f n h = ground (
    arith,
    count_statistics_lem c.state null c.active_calls,
    count_statistics_lem c.state call_present c.active_calls,
  )

  pub gsm48_cc_tx_disconnect-IsSound :
      (c : Call)
      → IsSound ref (record c { timer = timer_of c.state })
      → c.freed ≡ false
      → IsSound ref (gsm48_cc_tx_disconnect c)
  unfolding gsm48_cc_tx_disconnect closings timer_of is_active
  gsm48_cc_tx_disconnect-IsSound c s f =
      ground (arith, count_statistics_lem c.state disconnect_ind c.active_calls)

  pub gsm48_cc_tx_release-IsSound :
      (c : Call)
      → IsSound ref (record c { timer = timer_of c.state })
      → c.freed ≡ false
      → IsSound ref (gsm48_cc_tx_release c)
  unfolding gsm48_cc_tx_release closings
  gsm48_cc_tx_release-IsSound c s f = elim (Bool-cases (is_release_req c.state)) [
    | inl t ↦ ground (arith, t, is_release_req-timer_of c.state t)
    | inr t ↦
        unfold timer_of is_active in
        ground (arith, t, count_statistics_lem c.state release_req c.active_calls)
  ]

  pub gsm48_cc_tx_release_compl-IsSound :
      (c : Call)
      → IsSound ref c
      → c.freed ≡ false
      → 0 < c.callref
      → IsSound ref (gsm48_cc_tx_release_compl c)
  unfolding gsm48_cc_tx_release_compl closings timer_of is_active is_null
  gsm48_cc_tx_release_compl-IsSound c s f h =
      ground (arith, count_statistics_lem c.state null c.active_calls)

  pub gsm48_cc_tx-IsSound :
      (o : Option ℕ) (m : FromMncc) (c : Call)
      → IsSound ref c
      → c.freed ≡ false
      → 0 < c.callref
      → mncc_allowed m c.state ≡ true
      → IsSound ref (gsm48_cc_tx o m c)
  unfolding gsm48_cc_tx closings is_active timer_of
  gsm48_cc_tx-IsSound o setup_req c s f p h =
      gsm48_cc_tx_setup-IsSound o c s f (setup_req-is_null c.state h) p
  gsm48_cc_tx-IsSound o disc_req c s f p h = gsm48_cc_tx_disconnect-IsSound c (IsSound-timer c s) f
  gsm48_cc_tx-IsSound o rel_req c s f p h = gsm48_cc_tx_release-IsSound c (IsSound-timer c s) f
  gsm48_cc_tx-IsSound o rej_req c s f p h = gsm48_cc_tx_release_compl-IsSound c s f p
  gsm48_cc_tx-IsSound o m c s f p h = ground (
    arith,
    mncc-timer_of m c.state,
    count_statistics_lem c.state (gsm48_cc_tx o m c).state c.active_calls,
  )

  -- What ends a call that is paged for.
  pub paged_end-IsSound :
      (b : Bool) (c : Call)
      → IsSound ref c
      → c.freed ≡ false
      → 0 < c.callref
      → IsSound ref
          (trans_free (forget_callref (mncc_recvmsg (if b then rel_cnf else rel_ind) c.callref c)))
  unfolding trans_free forget_callref mncc_recvmsg closings timer_of is_active
  paged_end-IsSound b c s f p = ground (arith, count_statistics_lem c.state null c.active_calls)

  pub mncc_tx_to_cc-IsSound :
      (o : Option ℕ) (m : FromMncc) (c : Call)
      → IsSound ref c
      → c.freed ≡ false
      → 0 < c.callref
      → IsSound ref (mncc_tx_to_cc o m c)
  unfolding mncc_tx_to_cc
  mncc_tx_to_cc-IsSound o m c s f p =
      if-IsSound c.conn
        (λ y. if-IsSound (mncc_allowed m c.state) (λ a. gsm48_cc_tx-IsSound o m c s f p a) (λ a. s))
        (λ n. paged_end-IsSound (is_rel_req m) c s f p)
