-- ===== src/Call/Events/Ends.antt =====
-- openbsc/src/libmsc/gsm_04_08.c: the calls that can come about, and how they end.
use openbsc.Base.{
  ℕ, ◌≡◌, ◌≢◌, ◌<◌, ◌⊎◌, inl, inr, refl, Bool, true, false, Option, none, some, Bool-cases,
  if◌then◌else◌, arith,
}
use openbsc.Call.{
  is_active, Call, is_null, count_statistics, new_cc_state, trans_free, forget_callref,
  gsm48_stop_cc_timer, gsm48_cc_tx_disconnect,
}
use openbsc.Call.Events.{
  FromMs, FromMncc, gsm48_cc_rx, gsm48_cc_tx, gsm0408_rcv_cc, mncc_tx_to_cc, gsm48_cc_timeout,
  timeout_release, timeout_disconnect, expire, paging_done, paging_succeeded, paging_expired,
  gsm0408_clear_request, gsm0408_clear_all_trans, disconnect_bridge, mobile_originated,
  mobile_terminated,
}
use openbsc.Call.Events.Sound.{IsSound, IsSound-timer, if-IsSound, closings, timer_of}
use openbsc.Call.Events.Sound.Phone.{gsm0408_rcv_cc-IsSound}
use openbsc.Call.Events.Sound.Application.{gsm48_cc_tx_disconnect-IsSound, mncc_tx_to_cc-IsSound}
use openbsc.Call.Events.Sound.Timers.{
  expire-IsSound, paging_succeeded-IsSound, paging_expired-IsSound, gsm0408_clear_request-IsSound,
}

-- What can happen to a transaction that has not been freed. The phone's messages find it by its
-- identifier, 0xff is none, and the application's by its call reference, 0 is none.
pub data Step : Call → Call → Type 0 where
  from_ms :
      (m : FromMs) (c : Call)
      → c.freed ≡ false
      → c.transaction_id ≢ 255
      → Step c (gsm0408_rcv_cc m c)
  from_mncc :
      (o : Option ℕ) (m : FromMncc) (c : Call)
      → c.freed ≡ false
      → 0 < c.callref
      → Step c (mncc_tx_to_cc o m c)
  timeout : (c : Call) → c.freed ≡ false → Step c (expire c)
  paged :
      (o : Option ℕ) (c : Call) → c.freed ≡ false → c.paging ≡ true → Step c (paging_succeeded o c)
  not_paged : (c : Call) → c.freed ≡ false → c.paging ≡ true → Step c (paging_expired c)
  cleared : (c : Call) → c.freed ≡ false → Step c (gsm0408_clear_request c)
  not_bridged : (c : Call) → c.freed ≡ false → 0 < c.callref → Step c (disconnect_bridge c)
  all_cleared : (c : Call) → c.freed ≡ false → Step c (gsm0408_clear_all_trans c)

pub data Reachable (ref : ℕ) : Call → Type 0 where
  from_phone : (trans_id : ℕ) → Reachable ref (mobile_originated ref trans_id)
  from_application : (connected : Bool) → Reachable ref (mobile_terminated ref connected)
  next : {c d : Call} → Reachable ref c → Step c d → Reachable ref d

-- While the phone is paged for, nothing else has happened to the call.
pub record IsPaged (c : Call) : Type 0 where
  pub untouched :
      c.paging ≡ true
      → (is_null c.state ≡ true)
        × (0 < c.callref)
        × (c.conn ≡ false)
        × (c.transaction_id ≡ 255)
        × (c.timer ≡ none)

not_paging : (c : Call) → c.paging ≡ false → IsPaged c
not_paging c h = record { untouched = λ p. absurd (cc) }

trans_free-paging : (c : Call) → (trans_free c).paging ≡ false
unfolding trans_free
trans_free-paging c = refl

gsm0408_rcv_cc-paging :
    (m : FromMs) (c : Call) → c.paging ≡ false → (gsm0408_rcv_cc m c).paging ≡ false
unfolding gsm0408_rcv_cc gsm48_cc_rx
gsm0408_rcv_cc-paging m c h = ground arith

mncc_tx_to_cc-paging :
    (o : Option ℕ) (m : FromMncc) (c : Call) → IsPaged c → (mncc_tx_to_cc o m c).paging ≡ false
mncc_tx_to_cc-paging o m c p = elim (Bool-cases c.conn) [
  | inr n ↦ unfold mncc_tx_to_cc trans_free in ground (arith, n)
  | inl y ↦ connected (not_paged_for y)
]
  where
    not_paged_for : c.conn ≡ true → c.paging ≡ false
    not_paged_for y = elim (Bool-cases c.paging) [
      | inl q ↦ absurd (ground (arith, p.untouched q, y))
      | inr q ↦ q
    ]

    connected : c.paging ≡ false → (mncc_tx_to_cc o m c).paging ≡ false
    connected q = unfold mncc_tx_to_cc trans_free gsm48_cc_tx in ground (arith, q)

expire-paging : (c : Call) → c.paging ≡ false → (expire c).paging ≡ false
unfolding expire gsm48_cc_timeout timeout_release timeout_disconnect trans_free
expire-paging c h = ground arith

pub expire-none : (c : Call) → c.timer ≡ none → expire c ≡ c
unfolding expire
expire-none c h =
    elim c.timer
        as (λ t.
          t ≡ none
          → elim t [ none ↦ c | some t' ↦ gsm48_cc_timeout t' (record c { timer = none }) ] ≡ c) [
            | none ↦ λ e. refl
            | some t ↦ λ e. absurd (cc)
          ]
      h

if-IsPaged :
    {x y : Call} (b : Bool)
    → (b ≡ true → IsPaged x)
    → (b ≡ false → IsPaged y)
    → IsPaged (if b then x else y)
if-IsPaged true f g = f refl
if-IsPaged false f g = g refl

disconnect_bridge-IsPaged : (c : Call) → IsPaged c → IsPaged (disconnect_bridge c)
unfolding disconnect_bridge
disconnect_bridge-IsPaged c p =
    if-IsPaged c.conn
      (λ y.
        not_paging (gsm48_cc_tx_disconnect c) (unfold gsm48_cc_tx_disconnect in not_paged_for y))
      (λ n. record { untouched = p.untouched })
  where
    not_paged_for : c.conn ≡ true → c.paging ≡ false
    not_paged_for y = elim (Bool-cases c.paging) [
      | inl q ↦ absurd (ground (arith, p.untouched q, y))
      | inr q ↦ q
    ]

Step-IsPaged : {c d : Call} → Step c d → IsPaged c → IsPaged d
Step-IsPaged (from_ms m c f n) p = elim (Bool-cases c.paging) [
  | inl q ↦ absurd (n (p.untouched q).3)
  | inr q ↦ not_paging (gsm0408_rcv_cc m c) (gsm0408_rcv_cc-paging m c q)
]
Step-IsPaged (from_mncc o m c f h) p =
    not_paging (mncc_tx_to_cc o m c) (mncc_tx_to_cc-paging o m c p)
Step-IsPaged (timeout c f) p = elim (Bool-cases c.paging) [
  | inl q ↦ rw (expire-none c (p.untouched q).4) p
  | inr q ↦ not_paging (expire c) (expire-paging c q)
]
Step-IsPaged (paged o c f q) p =
    not_paging (paging_succeeded o c) (unfold paging_succeeded paging_done in refl)
Step-IsPaged (not_paged c f q) p =
    not_paging (paging_expired c) (unfold paging_expired paging_done in refl)
Step-IsPaged (cleared c f) p = elim (Bool-cases c.conn) [
  | inl y ↦
      not_paging (gsm0408_clear_request c)
        (unfold gsm0408_clear_request trans_free in ground (arith, y))
  | inr n ↦ unfold gsm0408_clear_request in simp n p
]
Step-IsPaged (not_bridged c f h) p = disconnect_bridge-IsPaged c p
Step-IsPaged (all_cleared c f) p =
    not_paging (gsm0408_clear_all_trans c) (unfold gsm0408_clear_all_trans trans_free in refl)

-- A call that was freed with all others, when the application's socket was closed, from the call
-- `before`: nothing more is sent to anyone.
pub record IsDropped (ref : ℕ) (c : Call) : Type 0 where
  pub before : Call
  pub sound : IsSound ref before
  pub alive : before.freed ≡ false
  pub silent : c.sent ≡ before.sent
  pub freed : c.freed ≡ true
  pub no_timer : c.timer ≡ none
  pub not_counted : c.active_calls ≡ 0
  pub no_callref : c.callref ≡ 0

gsm0408_clear_all_trans-IsDropped :
    (ref : ℕ) (c : Call)
    → c.freed ≡ false
    → IsSound ref c
    → IsDropped ref (gsm0408_clear_all_trans c)
unfolding gsm0408_clear_all_trans forget_callref trans_free gsm48_stop_cc_timer new_cc_state
    count_statistics is_active is_null
gsm0408_clear_all_trans-IsDropped ref c f s = record {
  before = c;
  sound = s;
  alive = f;
  silent = ground arith;
  freed = ground arith;
  no_timer = ground arith;
  not_counted = ground (arith, s.counted);
  no_callref = ground arith;
}

disconnect_bridge-IsSound :
    (ref : ℕ) (c : Call)
    → c.freed ≡ false
    → 0 < ref
    → IsSound ref c
    → IsSound ref (disconnect_bridge c)
unfolding disconnect_bridge
disconnect_bridge-IsSound ref c f h s =
    if-IsSound c.conn (λ t. gsm48_cc_tx_disconnect-IsSound ref h c (IsSound-timer c s) f)
      (λ t. record {
        timed = s.timed;
        counted = s.counted;
        told = s.told;
        ended = s.ended;
        own = s.own;
      })

-- What has become of a call: it is sound, or it was freed with all others.
abbrev pub Fate : ℕ → Call → Type 0
Fate ref c = IsSound ref c ⊎ IsDropped ref c

Step-Fate : {ref : ℕ} {c d : Call} → 0 < ref → Step c d → IsSound ref c → IsPaged c → Fate ref d
Step-Fate {ref} h (from_ms m c f n) s p = inl (gsm0408_rcv_cc-IsSound ref h m c s f)
Step-Fate {ref} h (from_mncc o m c f k) s p = inl (mncc_tx_to_cc-IsSound ref h o m c s f k)
Step-Fate {ref} h (timeout c f) s p = inl (expire-IsSound ref h c s f)
Step-Fate {ref} h (paged o c f q) s p =
    inl (paging_succeeded-IsSound ref h o c s f (p.untouched q).0 (p.untouched q).1)
Step-Fate {ref} h (not_paged c f q) s p = inl (paging_expired-IsSound ref h c s f (p.untouched q).1)
Step-Fate {ref} h (cleared c f) s p = inl (gsm0408_clear_request-IsSound ref h c s f)
Step-Fate {ref} h (not_bridged c f k) s p = inl (disconnect_bridge-IsSound ref c f h s)
Step-Fate {ref} h (all_cleared c f) s p = inr (gsm0408_clear_all_trans-IsDropped ref c f s)

Step-alive : {c d : Call} → Step c d → c.freed ≡ false
Step-alive (from_ms m c f n) = f
Step-alive (from_mncc o m c f k) = f
Step-alive (timeout c f) = f
Step-alive (paged o c f q) = f
Step-alive (not_paged c f q) = f
Step-alive (cleared c f) = f
Step-alive (not_bridged c f k) = f
Step-alive (all_cleared c f) = f

further-Fate : {ref : ℕ} {c d : Call} → 0 < ref → Fate ref c → Step c d → IsPaged c → Fate ref d
further-Fate h (inl s) st p = Step-Fate h st s p
further-Fate h (inr d) st p = absurd (ground (arith, d.freed, Step-alive st))

Reachable-both : {ref : ℕ} {c : Call} → 0 < ref → Reachable ref c → Fate ref c × IsPaged c
Reachable-both {ref} h (from_phone t) = (
  inl (unfold mobile_originated timer_of closings is_active in ground arith),
  not_paging (mobile_originated ref t) (unfold mobile_originated in refl),
)
Reachable-both {ref} h (from_application b) = (
  inl (unfold mobile_terminated timer_of closings is_active in ground arith),
  record { untouched = unfold mobile_terminated is_null in ground arith },
)
Reachable-both h (next r st) =
    let (s, p) = Reachable-both h r in (further-Fate h s st p, Step-IsPaged st p)

pub Reachable-IsSound : {ref : ℕ} {c : Call} → 0 < ref → Reachable ref c → Fate ref c
Reachable-IsSound h r = (Reachable-both h r).0
