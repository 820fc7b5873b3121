-- ===== src/Paging/Live.antt =====
-- openbsc/src/libbsc/paging.c: everything that can happen to the paging of a base station.
use mathlib.Core.Path.{subst}
use openbsc.Base.{
  ℕ, zero, suc, ◌≡◌, ◌≢◌, refl, ap, inl, inr, Bool, true, false, not, ◌||◌, Option, none, some,
  List, [], ◌∷◌, ◌++◌, if◌then◌else◌, ◌==◌, arith, Bool-cases, some_inj,
}
use openbsc.ChanAlloc.{trx_is_usable}
use openbsc.Paging.{
  ChanNeed, Request, State, Env, held_back, send_first, handle_list, paging_handle_pending_requests,
  paging_worker, paging_give_credit, is_empty, paging_schedule_if_needed, paging_init_if_needed,
  paging_pending_request, add_request, unusable, pending, requested, paging_request_bts, remove_nth,
  paging_t3113_expired, stop_first, paging_request_stop, paging_update_buffer_space,
}

-- Something that can happen to the paging of a base station. A timer expires only when it is pending.
pub data Step : State → State → Type 0 where
  work_expires : (env : Env) (s : State) → s.work_timer ≡ true → Step s (paging_worker env s).0
  credit_expires :
      (env : Env) (s : State) → s.credit_timer ≡ true → Step s (paging_give_credit env s).0
  request :
      (env : Env) (s t : State) (bsub : ℕ) (type : ChanNeed) (cbfn : Option ℕ)
      → paging_request_bts env s bsub type cbfn ≡ requested t
      → Step s t
  t3113_expires : (s : State) (n : ℕ) → Step s (paging_t3113_expired s n)
  stop : (s : State) (bsub : ℕ) (conn : Bool) → Step s (paging_request_stop s bsub conn).0
  buffer_space : (s : State) (free_slots : ℕ) → Step s (paging_update_buffer_space s free_slots)

abbrev pub unused : Option ℕ → State
unused need = record {
  pending_requests = [];
  is_initialized = false;
  work_timer = false;
  credit_timer = false;
  free_chans_need = need;
  available_slots = 0;
}

pub data Reachable : State → Type 0 where
  start : (need : Option ℕ) → Reachable (unused need)
  next : {s t : State} → Reachable s → Step s t → Reachable t

unfoldable pub Distinct : List Request → Type 0
Distinct [] = Unit
Distinct (r ∷ rs) = (paging_pending_request rs r.bsub ≡ false) × Distinct rs

-- While a request is pending a timer is; the subscribers of the requests are different.
pub record IsLive (s : State) : Type 0 where
  pub timed : s.pending_requests ≢ [] → (s.work_timer || s.credit_timer) ≡ true
  pub distinct : Distinct s.pending_requests

pending_append :
    (rs : List Request) (r : Request) (b : ℕ)
    → paging_pending_request (rs ++ (r ∷ [])) b ≡ (paging_pending_request rs b || (b == r.bsub))
unfolding paging_pending_request
pending_append [] r b = ground arith
pending_append (x ∷ rs) r b = ground (arith, pending_append rs r b)

Distinct-append :
    (rs : List Request) (r : Request)
    → Distinct rs
    → paging_pending_request rs r.bsub ≡ false
    → Distinct (rs ++ (r ∷ []))
unfolding Distinct paging_pending_request
Distinct-append [] r d p = (refl, tt)
Distinct-append (x ∷ rs) r d p = (
  ground (arith, pending_append rs r x.bsub, d.0, p),
  Distinct-append rs r d.1 (ground (arith, p)),
)

pending-remove_nth :
    (rs : List Request) (n b : ℕ)
    → paging_pending_request rs b ≡ false
    → paging_pending_request (remove_nth rs n) b ≡ false
unfolding paging_pending_request remove_nth
pending-remove_nth [] n b p = p
pending-remove_nth (r ∷ rs) zero b p = ground (arith, p)
pending-remove_nth (r ∷ rs) (suc n) b p =
    ground (arith, p, pending-remove_nth rs n b (ground (arith, p)))

Distinct-remove_nth : (rs : List Request) (n : ℕ) → Distinct rs → Distinct (remove_nth rs n)
unfolding Distinct remove_nth
Distinct-remove_nth [] n d = d
Distinct-remove_nth (r ∷ rs) zero d = d.1
Distinct-remove_nth (r ∷ rs) (suc n) d =
    (pending-remove_nth rs n r.bsub d.0, Distinct-remove_nth rs n d.1)

pending-stop_first :
    (rs : List Request) (b c : ℕ)
    → paging_pending_request rs c ≡ false
    → paging_pending_request (stop_first rs b).0 c ≡ false
unfolding paging_pending_request stop_first
pending-stop_first [] b c p = p
pending-stop_first (r ∷ rs) b c p = ground (arith, p, pending-stop_first rs b c (ground (arith, p)))

Distinct-stop_first : (rs : List Request) (b : ℕ) → Distinct rs → Distinct (stop_first rs b).0
unfolding Distinct stop_first
Distinct-stop_first [] b d = d
Distinct-stop_first (r ∷ rs) b d = elim (Bool-cases (r.bsub == b)) [
  | inl e ↦ rw e d.1
  | inr e ↦ rw e (pending-stop_first rs b r.bsub d.0, Distinct-stop_first rs b d.1)
]

send_first-IsLive :
    (env : Env) (s : State) (r : Request) (rs : List Request)
    → s.pending_requests ≡ r ∷ rs
    → Distinct (r ∷ rs)
    → IsLive (send_first env s r rs).0
unfolding send_first Distinct
send_first-IsLive env s r rs e d = elim (Bool-cases (held_back env s.free_chans_need r)) [
  | inl h ↦ rw h (record { timed = λ _. refl; distinct = rw e d })
  | inr h ↦ rw h (record { timed = λ _. refl; distinct = Distinct-append rs _ d.1 d.0 })
]

handle_list-IsLive :
    (env : Env) (s : State) (rs : List Request)
    → s.pending_requests ≡ rs
    → Distinct rs
    → IsLive (handle_list env s rs).0
unfolding handle_list
handle_list-IsLive env s [] e d = record { timed = λ n. absurd (n e); distinct = rw e d }
handle_list-IsLive env s (r ∷ rs) e d = elim (Bool-cases (s.available_slots == 0)) [
  | inl h ↦ rw h (record { timed = λ _. ground arith; distinct = rw e d })
  | inr h ↦ rw h (send_first-IsLive env s r rs e d)
]

if_IsLive :
    (c : Bool) (s t : State)
    → (c ≡ true → IsLive s)
    → (c ≡ false → IsLive t)
    → IsLive (if c then s else t)
if_IsLive true s t h k = h refl
if_IsLive false s t h k = k refl

pub paging_init_if_needed-IsLive : (s : State) → IsLive s → IsLive (paging_init_if_needed s)
unfolding paging_init_if_needed Distinct
paging_init_if_needed-IsLive s v =
    if_IsLive s.is_initialized s _ (λ _. v)
      (λ _. record { timed = λ n. absurd (n refl); distinct = tt })

is_empty_nil : (rs : List Request) → is_empty rs ≡ true → rs ≡ []
unfolding is_empty
is_empty_nil [] e = refl
is_empty_nil (r ∷ rs) e = cc

schedule-IsLive : (s : State) → Distinct s.pending_requests → IsLive (paging_schedule_if_needed s)
unfolding paging_schedule_if_needed
schedule-IsLive s d =
    if_IsLive (is_empty s.pending_requests) s _
      (λ e. record { timed = λ n. absurd (n (is_empty_nil s.pending_requests e)); distinct = d })
      (λ e. record { timed = λ _. refl; distinct = d })

-- A request that is accepted leaves a live state, in which the subscriber's request is pending.
add_request-IsLive :
    (s t : State) (bsub : ℕ) (type : ChanNeed) (cbfn : Option ℕ)
    → IsLive s
    → add_request s bsub type cbfn ≡ some t
    → IsLive t
unfolding add_request
add_request-IsLive s t bsub type cbfn v e =
    elim (Bool-cases (paging_pending_request s.pending_requests bsub)) [
      | inl p ↦ absurd (ground (arith, rw p at e))
      | inr p ↦
          subst IsLive (some_inj (rw p at e))
            (schedule-IsLive _ (Distinct-append s.pending_requests _ v.distinct p))
    ]

requested-IsLive :
    (s t : State) (c : Bool) (o : Option State)
    → ((u : State) → o ≡ some u → IsLive u)
    → (if c then unusable else elim o [ none ↦ pending | some u ↦ requested u ]) ≡ requested t
    → IsLive t
requested-IsLive s t true o h e = cc
requested-IsLive s t false none h e = cc
requested-IsLive s t false (some u) h e = let k : u ≡ t = cc in subst IsLive k (h u refl)

-- Every step keeps the state live.
pub Step-IsLive : {s t : State} → Step s t → IsLive s → IsLive t
unfolding paging_handle_pending_requests paging_worker paging_give_credit paging_request_bts
    paging_t3113_expired paging_request_stop paging_update_buffer_space remove_nth stop_first
Step-IsLive (work_expires env s e) v = handle_list-IsLive env _ s.pending_requests refl v.distinct
Step-IsLive (credit_expires env s e) v = handle_list-IsLive env _ s.pending_requests refl v.distinct
Step-IsLive (request env s t bsub type cbfn e) v =
    requested-IsLive s t (not (trx_is_usable env.bts.is_ipaccess env.c0)) _
      (λ u a.
        add_request-IsLive (paging_init_if_needed s) u bsub type cbfn
          (paging_init_if_needed-IsLive s v) a)
      e
Step-IsLive (t3113_expires s n) v = record {
  timed = λ m. v.timed (λ e. m (ap (λ l. remove_nth l n) e));
  distinct = Distinct-remove_nth s.pending_requests n v.distinct;
}
Step-IsLive (stop s bsub conn) v =
    let w = paging_init_if_needed-IsLive s v in
    record {
      timed = λ m. w.timed (λ e. m (ap (λ l. (stop_first l bsub).0) e));
      distinct = Distinct-stop_first (paging_init_if_needed s).pending_requests bsub w.distinct;
    }
Step-IsLive (buffer_space s free_slots) v =
    schedule-IsLive _ (paging_init_if_needed-IsLive s v).distinct

-- In every reachable state of the paging, while a request is pending the work timer or the credit
-- timer is pending, and no two pending requests are for the same subscriber.
pub Reachable-IsLive : (s : State) → Reachable s → IsLive s
unfolding Distinct
Reachable-IsLive s (start need) = record { timed = λ n. absurd (n refl); distinct = tt }
Reachable-IsLive s (next r st) = Step-IsLive st (Reachable-IsLive _ r)
