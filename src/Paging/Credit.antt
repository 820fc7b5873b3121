-- ===== src/Paging/Credit.antt =====
-- openbsc/src/libbsc/paging.c: the work timer and the free slots.
use mathlib.Core.List.{append_assoc, append-nil}
use mathlib.Core.Path.{subst}
use openbsc.Base.{
  ℕ, zero, suc, ◌+◌, ◌-◌, ◌≤◌, ◌<◌, ◌≡◌, ◌∙◌, refl, sym, ap, Bool, true, false, Option, none, some,
  List, [], ◌∷◌, ◌++◌, map, length, length-append, if◌then◌else◌, ◌==◌, arith,
}
use openbsc.Paging.{
  Request, State, Env, can_send_pag_req, held_back, send_first, handle_list,
  paging_handle_pending_requests, paging_worker,
}

to_list : Option Request → List Request
to_list none = []
to_list (some r) = r ∷ []

-- The state after n expirations of the work timer, and what was sent meanwhile.
unfoldable pub work : Env → ℕ → State → State × List Request
unfolding to_list
work env zero s = (s, [])
work env (suc n) s =
    let (t, o) = paging_worker env s in let (u, l) = work env n t in (u, to_list o ++ l)

-- A request as it stands after it was sent.
unfoldable pub attempted : Request → Request
attempted r = record r { attempts = r.attempts + 1 }

Spends : State → State × Option Request → Type 0
Spends s p = length (to_list p.1) + (p.0).available_slots ≤ s.available_slots

if_Spends :
    (s : State) (c : Bool) (p q : State × Option Request)
    → (c ≡ true → Spends s p)
    → (c ≡ false → Spends s q)
    → Spends s (if c then p else q)
if_Spends s true p q h k = h refl
if_Spends s false p q h k = k refl

handle_list-Spends : (env : Env) (s : State) (rs : List Request) → Spends s (handle_list env s rs)
unfolding handle_list send_first Spends to_list
handle_list-Spends env s [] = omega arith
handle_list-Spends env s (r ∷ rs) =
    if_Spends s (s.available_slots == 0) _ _ (λ e. omega arith)
      (λ e.
        if_Spends s (held_back env s.free_chans_need r) _ _ (λ h. omega arith) (λ h. ground arith))

worker-Spends : (env : Env) (s : State) → Spends s (paging_worker env s)
unfolding paging_worker paging_handle_pending_requests Spends
worker-Spends env s = handle_list-Spends env (record s { work_timer = false }) s.pending_requests

-- However often the work timer expires, what is sent and the slots left are together at most the
-- slots there were.
pub work-credit :
    (env : Env) (n : ℕ) (s : State)
    → length (work env n s).1 + (work env n s).0.available_slots ≤ s.available_slots
unfolding work Spends
work-credit env zero s = omega arith
work-credit env (suc n) s =
    let once = worker-Spends env s in
    let rest = work-credit env n (paging_worker env s).0 in
    omega (
      arith,
      once,
      rest,
      length-append (to_list (paging_worker env s).1) (work env n (paging_worker env s).0).1,
    )

if_false {ℓ} : {A : Type ℓ} (c : Bool) (x y : A) → c ≡ false → (if c then x else y) ≡ y
if_false true x y e = cc
if_false false x y e = refl

if_true {ℓ} : {A : Type ℓ} (c : Bool) (x y : A) → c ≡ true → (if c then x else y) ≡ x
if_true true x y e = refl
if_true false x y e = cc

-- The state after the first request was sent.
abbrev pub after_send : State → Request → List Request → State
after_send s r rs = record s {
  available_slots = s.available_slots - 1;
  pending_requests = rs ++ (attempted r ∷ []);
  work_timer = true;
}

not_held : (env : Env) (o : Option ℕ) (r : Request) → o ≡ none → held_back env o r ≡ false
not_held env none r e = refl
not_held env (some n) r e = cc

handle_sends :
    (env : Env) (s : State) (r : Request) (rs : List Request)
    → env.oml_link ≡ true
    → s.free_chans_need ≡ none
    → 0 < s.available_slots
    → handle_list env s (r ∷ rs) ≡ (after_send s r rs, some r)
unfolding handle_list send_first attempted
handle_sends env s r rs up need h =
    if_false (s.available_slots == 0) _ _ (ground arith)
    ∙ if_false (held_back env s.free_chans_need r) _ _ (not_held env s.free_chans_need r need)
    ∙ ap (λ o. (after_send s r rs, o)) (if_true env.oml_link (some r) none up)

worker_sends :
    (env : Env) (s : State) (r : Request) (rs : List Request)
    → env.oml_link ≡ true
    → s.free_chans_need ≡ none
    → s.pending_requests ≡ r ∷ rs
    → 0 < s.available_slots
    → paging_worker env s ≡ (after_send s r rs, some r)
unfolding paging_worker paging_handle_pending_requests
worker_sends env s r rs up need e h =
    ap (handle_list env (record s { work_timer = false })) e
    ∙ handle_sends env (record s { work_timer = false }) r rs up need h

-- With the link up and no test of the load, as many expirations of the work timer as there are
-- requests at the head of the queue, each with a free slot, send exactly these in order, and queue
-- them again with one more attempt.
pub work_round :
    (env : Env) (rs ds : List Request) (s : State)
    → env.oml_link ≡ true
    → s.free_chans_need ≡ none
    → s.pending_requests ≡ rs ++ ds
    → length rs ≤ s.available_slots
    → ((work env (length rs) s).1 ≡ rs)
      × ((work env (length rs) s).0.pending_requests ≡ ds ++ map attempted rs)
      × ((work env (length rs) s).0.available_slots + length rs ≡ s.available_slots)
unfolding work to_list
work_round env [] ds s up need e h = (refl, e ∙ sym (append-nil ds), omega arith)
work_round env (r ∷ rs) ds s up need e h =
    let t = after_send s r (rs ++ ds) in
    let sent = worker_sends env s r (rs ++ ds) up need e (omega arith) in
    let (l, q, n) =
      work_round env rs (ds ++ (attempted r ∷ [])) t up need (append_assoc rs ds (attempted r ∷ []))
        (omega arith) in
    subst
      (λ (p : State × Option Request).
        (to_list p.1 ++ (work env (length rs) p.0).1 ≡ r ∷ rs)
        × ((work env (length rs) p.0).0.pending_requests ≡ ds ++ map attempted (r ∷ rs))
        × ((work env (length rs) p.0).0.available_slots + length (r ∷ rs) ≡ s.available_slots))
      (sym sent)
      (
        ap (λ x. r ∷ x) l,
        q ∙ append_assoc ds (attempted r ∷ []) (map attempted rs),
        omega (arith, n),
      )

-- The link to the base station is up or down.
abbrev pub with_link : Bool → Env → Env
with_link up env = record env { oml_link = up }

held_back-with_link :
    (env : Env) (o : Option ℕ) (r : Request)
    → held_back (with_link false env) o r ≡ held_back (with_link true env) o r
unfolding can_send_pag_req
held_back-with_link env none r = refl
held_back-with_link env (some n) r = refl

-- The same state, and nothing is sent.
abbrev IsSilent : State × Option Request → State × Option Request → Type 0
IsSilent p q = (p.0 ≡ q.0) × (p.1 ≡ none)

if_IsSilent :
    (c d : Bool) (p q p' q' : State × Option Request)
    → c ≡ d
    → IsSilent p p'
    → IsSilent q q'
    → IsSilent (if c then p else q) (if d then p' else q')
if_IsSilent true true p q p' q' e h k = h
if_IsSilent false false p q p' q' e h k = k
if_IsSilent true false p q p' q' e h k = absurd cc
if_IsSilent false true p q p' q' e h k = absurd cc

handle_list-with_link :
    (env : Env) (s : State) (rs : List Request)
    → IsSilent (handle_list (with_link false env) s rs) (handle_list (with_link true env) s rs)
unfolding handle_list send_first
handle_list-with_link env s [] = (refl, refl)
handle_list-with_link env s (r ∷ rs) =
    if_IsSilent (s.available_slots == 0) _ _ _ _ _ refl (refl, refl)
      (if_IsSilent _ _ _ _ _ _ (held_back-with_link env s.free_chans_need r) (refl, refl)
        (refl, refl))

worker-with_link :
    (env : Env) (s : State)
    → IsSilent (paging_worker (with_link false env) s) (paging_worker (with_link true env) s)
unfolding paging_worker paging_handle_pending_requests
worker-with_link env s =
    handle_list-with_link env (record s { work_timer = false }) s.pending_requests

-- After any number of expirations of the work timer, the queue, its counts of attempts, the slots
-- and the timers of a base station with its link down are just those of one with its link up,
-- though with the link down nothing was sent.
pub work-with_link :
    (env : Env) (n : ℕ) (s : State)
    → ((work (with_link false env) n s).0 ≡ (work (with_link true env) n s).0)
      × ((work (with_link false env) n s).1 ≡ [])
unfolding work to_list
work-with_link env zero s = (refl, refl)
work-with_link env (suc n) s =
    let (same, silent) = worker-with_link env s in
    let (t, l) = work-with_link env n (paging_worker (with_link false env) s).0 in
    (
      t ∙ ap (λ u. (work (with_link true env) n u).0) same,
      ap
            (λ o.
              to_list o
              ++ (work (with_link false env) n (paging_worker (with_link false env) s).0).1)
            silent
          ∙ l,
    )
