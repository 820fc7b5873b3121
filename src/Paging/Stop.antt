-- ===== src/Paging/Stop.antt =====
-- openbsc/src/libbsc/paging.c: the stop of the paging of a subscriber.
use openbsc.Base.{
  ℕ, ◌≡◌, ◌≢◌, ◌∙◌, refl, sym, ap, inl, inr, Bool, true, false, List, [], ◌∷◌, if◌then◌else◌, ◌==◌,
  ==→eq, arith, Bool-cases,
}
use openbsc.Paging.{
  Request, State, paging_init_if_needed, paging_pending_request, stop_first, paging_request_stop,
}
use openbsc.Paging.Live.{Distinct, IsLive, paging_init_if_needed-IsLive}

stopped :
    (rs : List Request) (b : ℕ) → Distinct rs → paging_pending_request (stop_first rs b).0 b ≡ false
unfolding Distinct paging_pending_request stop_first
stopped [] b d = refl
stopped (r ∷ rs) b d = elim (Bool-cases (r.bsub == b)) [
  | inl e ↦ rw e (ap (λ k. paging_pending_request rs k) (sym (==→eq r.bsub b e)) ∙ d.0)
  | inr e ↦ rw e (ground (arith, e, stopped rs b d.1))
]

kept :
    (rs : List Request) (b c : ℕ)
    → c ≢ b
    → paging_pending_request (stop_first rs b).0 c ≡ paging_pending_request rs c
unfolding paging_pending_request stop_first
kept [] b c n = refl
kept (r ∷ rs) b c n = ground (arith, kept rs b c n, n)

if_true : (c : Bool) (x y : State) → c ≡ true → (if c then x else y) ≡ x
if_true true x y e = refl
if_true false x y e = cc

init_same : (s : State) → s.is_initialized ≡ true → paging_init_if_needed s ≡ s
unfolding paging_init_if_needed
init_same s on = if_true s.is_initialized s _ on

-- After the paging of an initialized base station in a live state is stopped for a subscriber, no
-- request for the subscriber is pending, and the other subscribers' requests are as before.
pub paging_request_stop-pending :
    (s : State) (b : ℕ) (conn : Bool)
    → IsLive s
    → s.is_initialized ≡ true
    → (paging_pending_request (paging_request_stop s b conn).0.pending_requests b ≡ false)
      × ((c : ℕ)
          → c ≢ b
          → paging_pending_request (paging_request_stop s b conn).0.pending_requests c
            ≡ paging_pending_request s.pending_requests c)
unfolding paging_request_stop
paging_request_stop-pending s b conn v on = (
  stopped (paging_init_if_needed s).pending_requests b (paging_init_if_needed-IsLive s v).distinct,
  λ c n.
      kept (paging_init_if_needed s).pending_requests b c n
      ∙ ap (λ (t : State). paging_pending_request t.pending_requests c) (init_same s on),
)
