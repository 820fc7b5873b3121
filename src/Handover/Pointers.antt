-- ===== src/Handover/Pointers.antt =====
-- openbsc/src/libbsc/handover_logic.c: how the channels and connections of the pending handovers
-- point to each other.
use mathlib.Core.Path.{subst}
use openbsc.Base.{
  ℕ, ◌≡◌, ◌≢◌, sym, ap, ◌∙◌, ◌⊎◌, inl, inr, true, none, some, List, [], ◌∷◌, ◌==◌, All, Bool-cases,
  some_inj, ==→eq, arith,
}
use openbsc.Handover.{
  Handover, State, write, same_handover, handover_free, bsc_ho_by_new_lchan, bsc_ho_by_old_lchan,
}

-- Both channels of the handover belong to one connection, whose channel is the old one and whose
-- handover channel is the new one.
pub record IsActive (s : State) (h : Handover) : Type 0 where
  pub owner : ℕ
  pub old_conn : s.conn h.old_lchan ≡ some owner
  pub new_conn : s.conn h.new_lchan ≡ some owner
  pub primary : s.lchan owner ≡ some h.old_lchan
  pub target : s.ho_lchan owner ≡ some h.new_lchan
  pub apart : h.old_lchan ≢ h.new_lchan

-- No two handovers have the same old channel.
unfoldable pub Different : List Handover → Type 0
Different [] = Unit
Different (h ∷ hs) = All (λ g. g.old_lchan ≢ h.old_lchan) hs × Different hs

unfoldable pub IsIn : Handover → List Handover → Type 0
IsIn h [] = ⊥
IsIn h (g ∷ hs) = (h ≡ g) ⊎ IsIn h hs

pub record IsValid (s : State) : Type 0 where
  pub active : All (IsActive s) s.bsc_handovers
  pub different : Different s.bsc_handovers

pub IsIn-All :
    (P : Handover → Type 0) (h : Handover) (hs : List Handover) → IsIn h hs → All P hs → P h
unfolding IsIn
IsIn-All P h [] i a = elim i [ ]
IsIn-All P h (g ∷ hs) (inl e) a = subst P (sym e) a.0
IsIn-All P h (g ∷ hs) (inr i) a = IsIn-All P h hs i a.1

pub write_same : {A : Type 0} (f : ℕ → A) (k : ℕ) (v : A) → write f k v k ≡ v
write_same f k v = ground arith

pub write_other : {A : Type 0} (f : ℕ → A) (k : ℕ) (v : A) (x : ℕ) → x ≢ k → write f k v x ≡ f x
write_other f k v x n = ground (arith, n)

-- A handover with another old channel has another connection and other channels.
pub record Apart (s : State) (h g : Handover) (c d : ℕ) : Type 0 where
  pub owners : d ≢ c
  pub old_old : g.old_lchan ≢ h.old_lchan
  pub old_new : g.old_lchan ≢ h.new_lchan
  pub new_old : g.new_lchan ≢ h.old_lchan
  pub new_new : g.new_lchan ≢ h.new_lchan

same_owner : (s : State) (x y c d : ℕ) → s.conn x ≡ some c → s.conn y ≡ some d → x ≡ y → d ≡ c
same_owner s x y c d p q e = some_inj (sym q ∙ ap s.conn (sym e) ∙ p)

pub IsActive-Apart :
    (s : State) (h g : Handover) (a : IsActive s h) (b : IsActive s g)
    → g.old_lchan ≢ h.old_lchan
    → Apart s h g a.owner b.owner
IsActive-Apart s h g a b n =
    let o : b.owner ≢ a.owner = λ e. n (some_inj (sym b.primary ∙ ap s.lchan e ∙ a.primary)) in
    record {
      owners = o;
      old_old = n;
      old_new = λ e.
          o (same_owner s h.new_lchan g.old_lchan a.owner b.owner a.new_conn b.old_conn (sym e));
      new_old = λ e.
          o (same_owner s h.old_lchan g.new_lchan a.owner b.owner a.old_conn b.new_conn (sym e));
      new_new = λ e.
          o (same_owner s h.new_lchan g.new_lchan a.owner b.owner a.new_conn b.new_conn (sym e));
    }

-- A handover stays active when what it reads stays.
pub IsActive-frame :
    (s t : State) (g : Handover) (b : IsActive s g)
    → t.conn g.old_lchan ≡ s.conn g.old_lchan
    → t.conn g.new_lchan ≡ s.conn g.new_lchan
    → t.lchan b.owner ≡ s.lchan b.owner
    → t.ho_lchan b.owner ≡ s.ho_lchan b.owner
    → IsActive t g
IsActive-frame s t g b p q r u = record {
  owner = b.owner;
  old_conn = p ∙ b.old_conn;
  new_conn = q ∙ b.new_conn;
  primary = r ∙ b.primary;
  target = u ∙ b.target;
  apart = b.apart;
}

same_handover-old : (g h : Handover) → same_handover g h ≡ true → g.old_lchan ≡ h.old_lchan
same_handover-old g h e = ground (arith, e)

same_handover_self : (h : Handover) → same_handover h h ≡ true
same_handover_self h = ground arith

-- What stays in the list when a handover is freed.
pub All-handover_free :
    (P : Handover → Type 0) (h : Handover) (hs : List Handover)
    → All P hs
    → All P (handover_free h hs)
unfolding handover_free
All-handover_free P h [] a = tt
All-handover_free P h (g ∷ hs) a = elim (Bool-cases (same_handover g h)) [
  | inl e ↦ rw e a.1
  | inr e ↦ rw e (a.0, All-handover_free P h hs a.1)
]

pub Different-handover_free :
    (h : Handover) (hs : List Handover) → Different hs → Different (handover_free h hs)
unfolding handover_free Different
Different-handover_free h [] d = tt
Different-handover_free h (g ∷ hs) d = elim (Bool-cases (same_handover g h)) [
  | inl e ↦ rw e d.1
  | inr e ↦ rw e (
    All-handover_free (λ x. x.old_lchan ≢ g.old_lchan) h hs d.0,
    Different-handover_free h hs d.1,
  )
]

-- Those that stay have another old channel than the one that is freed.
pub handover_free_other :
    (h : Handover) (hs : List Handover)
    → IsIn h hs
    → Different hs
    → All (λ g. g.old_lchan ≢ h.old_lchan) (handover_free h hs)
unfolding handover_free Different IsIn
handover_free_other h [] i d = tt
handover_free_other h (g ∷ hs) (inl e) d =
    let t : same_handover g h ≡ true = ap (λ x. same_handover x h) (sym e) ∙ same_handover_self h in
    rw t (subst (λ (x : Handover). All (λ y. y.old_lchan ≢ x.old_lchan) hs) (sym e) d.0)
handover_free_other h (g ∷ hs) (inr i) d = elim (Bool-cases (same_handover g h)) [
  | inl e ↦
      absurd (IsIn-All (λ x. x.old_lchan ≢ g.old_lchan) h hs i d.0 (sym (same_handover-old g h e)))
  | inr e ↦ rw e (
    (λ p. IsIn-All (λ x. x.old_lchan ≢ g.old_lchan) h hs i d.0 (sym p)),
    handover_free_other h hs i d.1,
  )
]

-- The searches.
pub bsc_ho_by_new_lchan-IsIn :
    (hs : List Handover) (l : ℕ) (h : Handover)
    → bsc_ho_by_new_lchan hs l ≡ some h
    → IsIn h hs × (h.new_lchan ≡ l)
unfolding bsc_ho_by_new_lchan IsIn
bsc_ho_by_new_lchan-IsIn [] l h e = absurd (ground (arith, e))
bsc_ho_by_new_lchan-IsIn (g ∷ hs) l h e = elim (Bool-cases (g.new_lchan == l)) [
  | inl t ↦
      let p : some g ≡ some h = rw t at e in
      (inl (sym (some_inj p)), ap (λ x. x.new_lchan) (sym (some_inj p)) ∙ ==→eq g.new_lchan l t)
  | inr t ↦ let (i, n) = bsc_ho_by_new_lchan-IsIn hs l h (rw t at e) in (inr i, n)
]

pub bsc_ho_by_old_lchan-IsIn :
    (hs : List Handover) (l : ℕ) (h : Handover)
    → bsc_ho_by_old_lchan hs l ≡ some h
    → IsIn h hs × (h.old_lchan ≡ l)
unfolding bsc_ho_by_old_lchan IsIn
bsc_ho_by_old_lchan-IsIn [] l h e = absurd (ground (arith, e))
bsc_ho_by_old_lchan-IsIn (g ∷ hs) l h e = elim (Bool-cases (g.old_lchan == l)) [
  | inl t ↦
      let p : some g ≡ some h = rw t at e in
      (inl (sym (some_inj p)), ap (λ x. x.old_lchan) (sym (some_inj p)) ∙ ==→eq g.old_lchan l t)
  | inr t ↦ let (i, n) = bsc_ho_by_old_lchan-IsIn hs l h (rw t at e) in (inr i, n)
]

pub bsc_ho_by_old_lchan-none :
    (hs : List Handover) (l : ℕ) → bsc_ho_by_old_lchan hs l ≡ none → All (λ g. g.old_lchan ≢ l) hs
unfolding bsc_ho_by_old_lchan
bsc_ho_by_old_lchan-none [] l e = tt
bsc_ho_by_old_lchan-none (g ∷ hs) l e = elim (Bool-cases (g.old_lchan == l)) [
  | inl t ↦ absurd (ground (arith, t, e))
  | inr t ↦ (λ p. ground (arith, t, p), bsc_ho_by_old_lchan-none hs l (ground (arith, t, e)))
]
