-- ===== src/Call/Events/Expirations.antt =====
-- openbsc/src/libmsc/gsm_04_08.c: a call of which nothing more is heard, and the calls that end badly.
use openbsc.Base.{
  ℕ, zero, suc, ◌≡◌, ◌≢◌, ◌<◌, inl, inr, refl, ◌∙◌, Bool, true, false, none, some, ◌∷◌, Bool-cases,
  arith,
}
use openbsc.Call.{
  CcTimer, t303, t306, t308, rel_ind, rel_cnf, release, mncc, ms, Call, gsm48_cc_tx_setup,
  is_release_req, trans_free, gsm48_cc_tx_release, gsm48_cc_tx_disconnect,
}
use openbsc.Call.Events.{
  FromMs, ms_allowed, gsm48_cc_rx, gsm0408_rcv_cc, gsm48_cc_timeout, timeout_release,
  timeout_disconnect, expire, paging_done, paging_succeeded, paging_expired,
}
use openbsc.Call.Handlers.{gsm48_cc_rx_release}
use openbsc.Call.Events.Sound.{IsSound, closings}
use openbsc.Call.Events.Sound.Timers.{expire-IsSound}
use openbsc.Call.Events.Ends.{Reachable, Reachable-IsSound, expire-none}

-- The timers on the way to the end.
t308_second_expires :
    (c : Call)
    → c.timer ≡ some t308
    → c.t308_second ≡ true
    → ((expire c).freed ≡ true) × ((expire c).timer ≡ none)
unfolding expire gsm48_cc_timeout trans_free
t308_second_expires c e s = ground arith

t308_expires :
    (c : Call)
    → c.timer ≡ some t308
    → c.t308_second ≡ false
    → ((expire c).timer ≡ some t308) × ((expire c).t308_second ≡ true)
unfolding expire gsm48_cc_timeout gsm48_cc_tx_release
t308_expires c e s = ground arith

abbrev leads_to_release : CcTimer → Bool
leads_to_release t303 = true
leads_to_release t306 = true
leads_to_release t = false

release_expires :
    (t : CcTimer) (c : Call)
    → c.timer ≡ some t
    → leads_to_release t ≡ true
    → ((expire c).timer ≡ some t308) × ((expire c).t308_second ≡ false)
unfolding expire gsm48_cc_timeout timeout_release gsm48_cc_tx_release
release_expires t303 c e s = ground arith
release_expires t306 c e s = ground arith
release_expires t c e s = cc

disconnect_expires :
    (t : CcTimer) (c : Call)
    → c.timer ≡ some t
    → t ≢ t308
    → leads_to_release t ≡ false
    → (expire c).timer ≡ some t306
unfolding expire gsm48_cc_timeout timeout_disconnect gsm48_cc_tx_disconnect
disconnect_expires t308 c e n s = absurd (n refl)
disconnect_expires t c e n s = ground arith

-- `n` expirations of whatever timer runs.
unfoldable pub expirations : ℕ → Call → Call
expirations zero c = c
expirations (suc n) c = expirations n (expire c)

expire-IsSound_always : (ref : ℕ) (c : Call) → 0 < ref → IsSound ref c → IsSound ref (expire c)
expire-IsSound_always ref c h s = elim (Bool-cases c.freed) [
  | inl f ↦ rw (expire-none c (s.ended f)) s
  | inr f ↦ expire-IsSound ref h c s f
]

expirations-IsSound :
    (n ref : ℕ) (c : Call) → 0 < ref → IsSound ref c → IsSound ref (expirations n c)
unfolding expirations
expirations-IsSound zero ref c h s = s
expirations-IsSound (suc n) ref c h s =
    expirations-IsSound n ref (expire c) h (expire-IsSound_always ref c h s)

freed-expire : (c : Call) → c.freed ≡ true → c.timer ≡ none → (expire c).freed ≡ true
freed-expire c f e = rw (expire-none c e) f

two_left :
    (c : Call) → c.timer ≡ some t308 → c.t308_second ≡ false → (expire (expire c)).freed ≡ true
two_left c e s = let (e', s') = t308_expires c e s in (t308_second_expires (expire c) e' s').0

released :
    (t : CcTimer) (c : Call)
    → c.timer ≡ some t
    → leads_to_release t ≡ true
    → (expire (expire (expire c))).freed ≡ true
released t c e h = let (e', s') = release_expires t c e h in two_left (expire c) e' s'

-- A call that has ended stays so.
freed-again : (ref : ℕ) (c : Call) → IsSound ref c → c.freed ≡ true → (expire c).freed ≡ true
freed-again ref c s f = freed-expire c f (s.ended f)

four_expire :
    (t : CcTimer) (ref : ℕ) (c : Call)
    → 0 < ref
    → IsSound ref c
    → c.timer ≡ some t
    → (expirations 4 c).freed ≡ true
unfolding expirations
four_expire t308 ref c h s e = elim (Bool-cases c.t308_second) [
  | inl y ↦
      let (f, n) = t308_second_expires c e y in
      let f' = freed-again ref (expire c) (expirations-IsSound 1 ref c h s) f in
      let f'' = freed-again ref (expire (expire c)) (expirations-IsSound 2 ref c h s) f' in
      freed-again ref (expire (expire (expire c))) (expirations-IsSound 3 ref c h s) f''
  | inr y ↦
      let f = two_left c e y in
      let f' = freed-again ref (expire (expire c)) (expirations-IsSound 2 ref c h s) f in
      freed-again ref (expire (expire (expire c))) (expirations-IsSound 3 ref c h s) f'
]
four_expire t303 ref c h s e =
    freed-again ref (expire (expire (expire c))) (expirations-IsSound 3 ref c h s)
      (released t303 c e refl)
four_expire t306 ref c h s e =
    freed-again ref (expire (expire (expire c))) (expirations-IsSound 3 ref c h s)
      (released t306 c e refl)
four_expire t ref c h s e = released t306 (expire c) (disconnect_expires t c e (λ z. cc) refl) refl

-- In every reachable state of a call with a reference in which a timer runs, a call of which
-- nothing more is heard is freed by four expirations of its timers, and then exactly one message
-- that ends the call has gone to the application, or the answer to the application's rejection to
-- the phone.
pub expirations-freed :
    {ref : ℕ} {c : Call} (t : CcTimer)
    → 0 < ref
    → Reachable ref c
    → c.timer ≡ some t
    → ((expirations 4 c).freed ≡ true) × (closings ref (expirations 4 c).sent ≡ 1)
expirations-freed {ref} {c} t h r e = elim (Reachable-IsSound h r) [
  | inr d ↦ absurd (ground (arith, d.no_timer, e))
  | inl s ↦
      let f = four_expire t ref c h s e in
      let s' = expirations-IsSound 4 ref c h s in (f, s'.told ∙ ground (arith, f))
]

-- When paging for the phone fails, and also when it succeeds but no transaction identifier is left,
-- `setup_trig_pag_evt` frees the transaction and then writes to it.
pub setup_trig_pag_evt-fault :
    (c : Call) → ((paging_expired c).fault ≡ true) × ((paging_succeeded none c).fault ≡ true)
unfolding paging_expired paging_succeeded paging_done trans_free gsm48_cc_tx_setup
setup_trig_pag_evt-fault c = ground arith

-- When T303 or T306 expires for a call with a reference that is not being released yet, and then a
-- RELEASE of the phone arrives, the application gets a release indication for the call and then a
-- release confirmation for the call reference 0.
pub expire-gsm48_cc_rx_release :
    (t : CcTimer) (c : Call)
    → leads_to_release t ≡ true
    → c.timer ≡ some t
    → 0 < c.callref
    → is_release_req c.state ≡ false
    → (gsm0408_rcv_cc FromMs.release (expire c)).sent
      ≡ mncc rel_cnf 0 ∷ ms release ∷ mncc rel_ind c.callref ∷ c.sent
unfolding expire gsm48_cc_timeout timeout_release gsm48_cc_tx_release gsm0408_rcv_cc gsm48_cc_rx
    gsm48_cc_rx_release trans_free ms_allowed
expire-gsm48_cc_rx_release t303 c i e h n = ground arith
expire-gsm48_cc_rx_release t306 c i e h n = ground arith
expire-gsm48_cc_rx_release t c i e h n = cc
