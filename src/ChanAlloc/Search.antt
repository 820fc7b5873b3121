-- ===== src/ChanAlloc/Search.antt =====
-- openbsc/src/libbsc/chan_alloc.c: the search loops of the allocator.
use mathlib.Core.Path.{subst}
use native.Mathlib.Decide.{ℕ_discrete}
use openbsc.Base.{
  ℕ, zero, suc, ◌+◌, ◌≤◌, ◌<◌, ◌≡◌, ◌∙◌, refl, ◌⊎◌, inl, inr, Bool, true, false, not, ◌||◌, Option,
  none, some, List, [], ◌∷◌, All, if◌then◌else◌, get_elem?, arith, Option-cases, Bool-cases,
}
use openbsc.ChanAlloc.{
  Pchan, tch_f_pdch, tch_f_tch_h_pdch, Pchan-discrete, same_pchan, Lchan, Ts, ts_pchan, ts_subslots,
  ts_is_usable, up_from, down_from, find_first, bind_option, is_free, find_sub_slot, first_if_sane,
  find_in_pchan, find_in_ts,
}

module _ {ℓ} {A : Type ℓ} where
  pub find_first-some :
      (P : ℕ → Type 0) (f : ℕ → Option A) (l : List ℕ) {a : A}
      → All P l
      → find_first f l ≡ some a
      → (i : ℕ) × P i × (f i ≡ some a)
  unfolding find_first
  find_first-some P f [] h e = cc
  find_first-some P f (i ∷ is) h e = elim (Option-cases (f i)) [
    | inl n ↦ find_first-some P f is h.1 (rw (n, find_first) at e)
    | inr (b, s) ↦ (i, h.0, ground (arith, s))
  ]

  pub find_first-none :
      (f : ℕ → Option A) (l : List ℕ) → find_first f l ≡ none → All (λ i. f i ≡ none) l
  unfolding find_first
  find_first-none f [] e = tt
  find_first-none f (i ∷ is) e = elim (Option-cases (f i)) [
    | inl n ↦ (n, find_first-none f is (rw (n, find_first) at e))
    | inr (b, s) ↦ absurd (ground (arith, s))
  ]

  pub if_some :
      (t : Bool) (x : A) {y : A} → (if t then some x else none) ≡ some y → (t ≡ true) × (x ≡ y)
  if_some true x e = (refl, cc)
  if_some false x e = cc

  pub if_none :
      (t : Bool) (o : Option A) {y : A}
      → (if t then none else o) ≡ some y
      → (t ≡ false) × (o ≡ some y)
  if_none true o e = cc
  if_none false o e = (refl, e)

pub up_from-lt : (left k n : ℕ) → k + left ≤ n → All (λ i. i < n) (up_from left k)
up_from-lt zero k n h = tt
up_from-lt (suc left) k n h = (omega arith, up_from-lt left (k + 1) n (omega arith))

pub All-up_from :
    (P : ℕ → Type 0) (left k i : ℕ) → All P (up_from left k) → k ≤ i → i < k + left → P i
All-up_from P zero k i h p q = absurd (omega arith)
All-up_from P (suc left) k i h p q = elim (ℕ_discrete k i) [
  | yes e ↦ subst P e h.0
  | no n ↦ All-up_from P left (k + 1) i h.1 (omega arith) (omega arith)
]

pub All-down_from : (P : ℕ → Type 0) (n i : ℕ) → All P (down_from n) → i < n → P i
All-down_from P zero i h q = absurd (omega arith)
All-down_from P (suc n) i h q = elim (ℕ_discrete n i) [
  | yes e ↦ subst P e h.0
  | no m ↦ All-down_from P n i h.1 (omega arith)
]

pub bind_option-some {ℓ κ} :
    {A : Type ℓ} {B : Type κ} (o : Option A) (f : A → Option B) {b : B}
    → bind_option o f ≡ some b
    → (a : A) × (o ≡ some a) × (f a ≡ some b)
unfolding bind_option
bind_option-some none f e = cc
bind_option-some (some a) f e = (a, refl, e)

pub bind_option_at {ℓ κ} :
    {A : Type ℓ} {B : Type κ} (o : Option A) (f : A → Option B) {a : A}
    → o ≡ some a
    → f a ≡ bind_option o f
unfolding bind_option
bind_option_at o f e = rw e refl

pub same_pchan→eq : (a b : Pchan) → same_pchan a b ≡ true → a ≡ b
same_pchan→eq a b h =
    (elim (Pchan-discrete a b) as (λ d. elim d [ yes e ↦ true | no n ↦ false ] ≡ true → a ≡ b) [
      | yes e ↦ λ _. e
      | no n ↦ λ f. cc
    ])
      h

pub find_sub_slot-some :
    (n : ℕ) (ls : List Lchan) {ss : ℕ}
    → find_sub_slot n ls ≡ some ss
    → (ss < n) × (lc : Lchan) × (get_elem? ls ss ≡ some lc) × (is_free lc ≡ true)
unfolding find_sub_slot
find_sub_slot-some n ls e =
    let (i, below, found) =
      find_first-some (λ i. i < n) _ (up_from n 0) (up_from-lt n 0 n (omega arith)) e in
    let (lc, at, good) = bind_option-some (get_elem? ls i) _ found in
    let (free, same) = if_some (is_free lc) i good in
    (subst (λ j. j < n) same below, lc, subst (λ j. get_elem? ls j ≡ some lc) same at, free)

pub find_sub_slot-none :
    (n : ℕ) (ls : List Lchan) (ss : ℕ) (lc : Lchan)
    → find_sub_slot n ls ≡ none
    → ss < n
    → get_elem? ls ss ≡ some lc
    → is_free lc ≡ false
unfolding find_sub_slot
find_sub_slot-none n ls ss lc e h at =
    let round : ℕ → Option ℕ =
      λ i. bind_option (get_elem? ls i) (λ lc. if is_free lc then some i else none) in
    let r : round ss ≡ none =
      All-up_from (λ i. round i ≡ none) n 0 ss (find_first-none _ (up_from n 0) e) (omega arith)
        (omega arith) in
    ground
      (arith, bind_option_at (get_elem? ls ss) (λ lc. if is_free lc then some ss else none) at ∙ r)

-- What makes a timeslot of the kind asked for offer the channel `ss`: either the timeslot is in
-- PDCH mode, from which it is switched over, or the channel is free; a fully dynamic timeslot that
-- is not in PDCH mode is in the mode asked for.
abbrev pub Holds : Pchan → Pchan → Ts → ℕ → Type 0
Holds pchan mode ts ss =
    ((ts_pchan ts ≡ Pchan.pdch) × (ss ≡ 0))
    ⊎ ((ss < ts_subslots ts)
        × (pchan ≡ tch_f_tch_h_pdch → ts_pchan ts ≡ mode)
        × (lc : Lchan) × (get_elem? ts.lchans ss ≡ some lc)
        × (is_free lc ≡ true))

free-Holds :
    (pchan mode : Pchan) (ts : Ts) {ss : ℕ}
    → (pchan ≡ tch_f_tch_h_pdch → ts_pchan ts ≡ mode)
    → find_sub_slot (ts_subslots ts) ts.lchans ≡ some ss
    → Holds pchan mode ts ss
free-Holds pchan mode ts m e =
    let (below, lc, at, free) = find_sub_slot-some (ts_subslots ts) ts.lchans e in
    inr (below, m, lc, at, free)

first_if_sane-some : (ls : List Lchan) {ss : ℕ} → first_if_sane ls ≡ some ss → ss ≡ 0
unfolding first_if_sane
first_if_sane-some [] e = cc
first_if_sane-some (lc ∷ lcs) e = ground arith

dyn-Holds :
    (mode : Pchan) (ts : Ts) {ss : ℕ}
    → ts_pchan ts ≡ ts.pchan_is
    → find_in_pchan tch_f_tch_h_pdch mode ts ≡ some ss
    → Holds tch_f_tch_h_pdch mode ts ss
unfolding find_in_pchan
dyn-Holds mode ts k e =
    let (_, e1) = if_none (not (same_pchan ts.pchan_is ts.pchan_want)) _ e in
    elim (Bool-cases (same_pchan ts.pchan_is Pchan.pdch)) [
      | inl idle ↦ inl (k ∙ same_pchan→eq _ _ idle, first_if_sane-some ts.lchans (rw idle at e1))
      | inr busy ↦
          let (fits, e2) = if_none (not (same_pchan ts.pchan_is mode)) _ (rw busy at e1) in
          free-Holds tch_f_tch_h_pdch mode ts
            (λ _. k ∙ same_pchan→eq ts.pchan_is mode (ground arith)) e2
    ]

pub find_in_pchan-Holds :
    (pchan mode : Pchan) (ts : Ts) {ss : ℕ}
    → ts.pchan ≡ pchan
    → find_in_pchan pchan mode ts ≡ some ss
    → Holds pchan mode ts ss
unfolding find_in_pchan
find_in_pchan-Holds tch_f_tch_h_pdch mode ts k e = dyn-Holds mode ts (unfold ts_pchan in rw k) e
find_in_pchan-Holds tch_f_pdch mode ts k e =
    let (idle, e1) = if_none (not (same_pchan (ts_pchan ts) Pchan.pdch)) (some 0) e in
    inl (same_pchan→eq (ts_pchan ts) Pchan.pdch (ground arith), ground (arith, e1))
find_in_pchan-Holds pchan mode ts k e = free-Holds _ mode ts (λ q. cc) e

pub find_in_ts-some :
    (ip : Bool) (pchan mode : Pchan) (ts : Ts) {ss : ℕ}
    → find_in_ts ip pchan mode ts ≡ some ss
    → (ts_is_usable ip ts ≡ true) × (ts.pchan ≡ pchan) × Holds pchan mode ts ss
unfolding find_in_ts
find_in_ts-some ip pchan mode ts e =
    let (g, e1) = if_none (not (ts_is_usable ip ts) || not (same_pchan ts.pchan pchan)) _ e in
    let k : ts.pchan ≡ pchan = same_pchan→eq ts.pchan pchan (ground arith) in
    (ground (arith, g), k, find_in_pchan-Holds pchan mode ts k e1)
