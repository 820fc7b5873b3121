-- ===== src/Call/Events/Sound/Phone.antt =====
-- openbsc/src/libmsc/gsm_04_08.c: the invariant under the messages of the phone.
use openbsc.Base.{ℕ, ◌≡◌, ◌<◌, true, false, arith}
use openbsc.Call.{null, initiated, mo_orig_modify, Call, is_active, is_null, trans_free}
use openbsc.Call.Events.{FromMs, modify, ms_allowed, gsm48_cc_rx, gsm0408_rcv_cc}
use openbsc.Call.Handlers.{gsm48_cc_rx_release, gsm48_cc_rx_release_compl}
use openbsc.Call.Events.Sound.{
  timer_of, closings, IsSound, if-IsSound, count_statistics_lem, closing-release_compl_told,
  setup-timer_of, modify-timer_of,
}

module _ (ref : ℕ) (pos : 0 < ref) where
  pub trans_free-IsSound : (c : Call) → IsSound ref c → c.freed ≡ false → IsSound ref (trans_free c)
  unfolding trans_free closings timer_of is_active
  trans_free-IsSound c s f = ground (arith, count_statistics_lem c.state null c.active_calls)

  pub gsm48_cc_rx_release-IsSound :
      (c : Call) → IsSound ref c → c.freed ≡ false → IsSound ref (gsm48_cc_rx_release c)
  unfolding gsm48_cc_rx_release closings timer_of is_active is_null
  gsm48_cc_rx_release-IsSound c s f =
      ground (arith, count_statistics_lem c.state null c.active_calls)

  pub gsm48_cc_rx_release_compl-IsSound :
      (c : Call) → IsSound ref c → c.freed ≡ false → IsSound ref (gsm48_cc_rx_release_compl c)
  unfolding gsm48_cc_rx_release_compl closings timer_of is_active is_null
  gsm48_cc_rx_release_compl-IsSound c s f = ground (
    arith,
    count_statistics_lem c.state null c.active_calls,
    closing-release_compl_told ref c.callref c.state,
  )

  pub gsm48_cc_rx-IsSound :
      (m : FromMs) (c : Call)
      → IsSound ref c
      → c.freed ≡ false
      → ms_allowed m c.state ≡ true
      → IsSound ref (gsm48_cc_rx m c)
  unfolding gsm48_cc_rx closings is_active timer_of
  gsm48_cc_rx-IsSound FromMs.setup c s f h =
      ground
        (arith, setup-timer_of c.state h, count_statistics_lem c.state initiated c.active_calls)
  gsm48_cc_rx-IsSound modify c s f h =
      ground (
        arith,
        modify-timer_of c.state h,
        count_statistics_lem c.state mo_orig_modify c.active_calls,
      )
  gsm48_cc_rx-IsSound FromMs.release c s f h = gsm48_cc_rx_release-IsSound c s f
  gsm48_cc_rx-IsSound FromMs.release_compl c s f h = gsm48_cc_rx_release_compl-IsSound c s f
  gsm48_cc_rx-IsSound m c s f h =
      ground (arith, count_statistics_lem c.state (gsm48_cc_rx m c).state c.active_calls)

  pub gsm0408_rcv_cc-IsSound :
      (m : FromMs) (c : Call) → IsSound ref c → c.freed ≡ false → IsSound ref (gsm0408_rcv_cc m c)
  unfolding gsm0408_rcv_cc
  gsm0408_rcv_cc-IsSound m c s f =
      if-IsSound (ms_allowed m c.state) (λ a. gsm48_cc_rx-IsSound m c s f a) (λ a. s)
