-- ===== src/Call/Events/Sound/Timers.antt =====
-- openbsc/src/libmsc/gsm_04_08.c: the invariant under the timers, the end of paging and the release of the
-- connection.
use openbsc.Base.{ℕ, ◌≡◌, ◌<◌, inl, inr, true, false, Option, none, some, ltb, Bool-cases, arith}
use openbsc.Call.{
  null, CcTimer, t303, t306, t308, disc_ind, Call, is_active, is_null, mncc_recvmsg,
  mncc_release_ind, forget_callref, trans_free, gsm48_cc_tx_release,
}
use openbsc.Call.Events.{
  gsm48_cc_timeout, timeout_release, timeout_disconnect, paging_done, expire, paging_succeeded,
  paging_expired, gsm0408_clear_request,
}
use openbsc.Call.Events.Sound.{
  timer_of, closings, IsSound, IsSound-timer, if-IsSound, count_statistics_lem,
}
use openbsc.Call.Events.Sound.Phone.{trans_free-IsSound}
use openbsc.Call.Events.Sound.Application.{
  gsm48_cc_tx_setup-IsSound, gsm48_cc_tx_disconnect-IsSound, gsm48_cc_tx_release-IsSound,
}

module _ (ref : ℕ) (pos : 0 < ref) where
  pub timeout_release-IsSound :
      (c : Call)
      → IsSound ref (record c { timer = timer_of c.state })
      → c.freed ≡ false
      → IsSound ref (timeout_release c)
  unfolding timeout_release
  timeout_release-IsSound c s f = elim (Bool-cases (ltb 0 c.callref)) [
    | inr t ↦ rw t (gsm48_cc_tx_release-IsSound ref pos c s f)
    | inl t ↦ rw t (
        gsm48_cc_tx_release-IsSound ref pos (forget_callref (mncc_release_ind c.callref c))
          (unfold forget_callref mncc_release_ind closings in ground (arith, t)) f)
  ]

  pub timeout_disconnect-IsSound :
      (c : Call)
      → IsSound ref (record c { timer = timer_of c.state })
      → c.freed ≡ false
      → IsSound ref (timeout_disconnect c)
  unfolding timeout_disconnect
  timeout_disconnect-IsSound c s f = elim (Bool-cases (ltb 0 c.callref)) [
    | inr t ↦ rw t (gsm48_cc_tx_disconnect-IsSound ref pos c s f)
    | inl t ↦ rw t (
        gsm48_cc_tx_disconnect-IsSound ref pos (mncc_recvmsg disc_ind c.callref c)
          (unfold mncc_recvmsg closings in ground (arith, t)) f)
  ]

  pub t308-IsSound :
      (c : Call)
      → IsSound ref (record c { timer = timer_of c.state })
      → c.freed ≡ false
      → IsSound ref (gsm48_cc_timeout t308 c)
  unfolding gsm48_cc_timeout
  t308-IsSound c s f =
      if-IsSound c.t308_second (λ t. trans_free-timer c s f)
        (λ t.
          t308_second-IsSound (gsm48_cc_tx_release c) (gsm48_cc_tx_release-IsSound ref pos c s f))
    where
      t308_second-IsSound :
          (r : Call) → IsSound ref r → IsSound ref (record r { t308_second = true })
      t308_second-IsSound r s = ground arith

      trans_free-timer :
          (r : Call)
          → IsSound ref (record r { timer = timer_of r.state })
          → r.freed ≡ false
          → IsSound ref (trans_free r)
      trans_free-timer r s f =
          unfold trans_free in
          trans_free-IsSound ref pos (record r { timer = timer_of r.state }) s f

  pub gsm48_cc_timeout-IsSound :
      (t : CcTimer) (c : Call)
      → IsSound ref (record c { timer = timer_of c.state })
      → c.freed ≡ false
      → IsSound ref (gsm48_cc_timeout t c)
  unfolding gsm48_cc_timeout
  gsm48_cc_timeout-IsSound t303 c s f = timeout_release-IsSound c s f
  gsm48_cc_timeout-IsSound t306 c s f = timeout_release-IsSound c s f
  gsm48_cc_timeout-IsSound t308 c s f = t308-IsSound c s f
  gsm48_cc_timeout-IsSound t c s f = timeout_disconnect-IsSound c s f

  pub expire-IsSound : (c : Call) → IsSound ref c → c.freed ≡ false → IsSound ref (expire c)
  unfolding expire
  expire-IsSound c s f =
      elim c.timer
        as (λ t.
          IsSound ref
            (elim t [ none ↦ c | some t' ↦ gsm48_cc_timeout t' (record c { timer = none }) ])) [
              | none ↦ s
              | some t ↦
                  gsm48_cc_timeout-IsSound t (record c { timer = none }) (IsSound-timer c s) f
            ]

  pub paging_succeeded-IsSound :
      (o : Option ℕ) (c : Call)
      → IsSound ref c
      → c.freed ≡ false
      → is_null c.state ≡ true
      → 0 < c.callref
      → IsSound ref (paging_succeeded o c)
  unfolding paging_succeeded paging_done
  paging_succeeded-IsSound o c s f n p =
      let t = gsm48_cc_tx_setup-IsSound ref pos o (record c { conn = true }) (ground arith) f n p in
      record { timed = t.timed; counted = t.counted; told = t.told; ended = t.ended; own = t.own }

  pub paging_expired-IsSound :
      (c : Call) → IsSound ref c → c.freed ≡ false → 0 < c.callref → IsSound ref (paging_expired c)
  unfolding paging_expired paging_done trans_free closings timer_of is_active is_null
  paging_expired-IsSound c s f p = ground (arith, count_statistics_lem c.state null c.active_calls)

  pub gsm0408_clear_request-IsSound :
      (c : Call) → IsSound ref c → c.freed ≡ false → IsSound ref (gsm0408_clear_request c)
  unfolding gsm0408_clear_request
  gsm0408_clear_request-IsSound c s f =
      if-IsSound c.conn (λ t. trans_free-IsSound ref pos c s f) (λ t. s)
