-- ===== src/SmsQueue/Sane.antt =====
-- openbsc/src/libmsc/sms_queue.c: the entries of the queue and their count.
use mathlib.Core.Path.{subst}
use openbsc.Base.{
  All-append, ℕ, ◌+◌, ◌≡◌, ◌≢◌, refl, sym, ◌⊎◌, inl, inr, true, false, some, List, [], ◌∷◌, ◌++◌,
  length, All, ◌==◌, Bool-cases, some_inj, ==→eq, ==-ne, arith,
}
use openbsc.SmsQueue.{
  Sms, Db, Pending, Queue, sms_find_pending, sms_subscriber_find_pending, is_found, free_entry,
}

-- No two entries are for the same subscriber.
unfoldable pub Distinct : List Pending → Type 0
Distinct [] = Unit
Distinct (p ∷ ps) = All (λ r. r.subscr ≢ p.subscr) ps × Distinct ps

-- The count is that of the entries, and each entry is for the receiver of its message.
pub record IsSane (receiver_of : ℕ → ℕ) (q : Queue) : Type 0 where
  pub counted : q.pending ≡ length q.pending_sms
  pub distinct : Distinct q.pending_sms
  pub owned : All (λ p. p.subscr ≡ receiver_of p.sms_id) q.pending_sms

-- The queries return messages with the receivers that they have, the query for one subscriber a
-- message to the subscriber.
pub record IsDb (receiver_of : ℕ → ℕ) (db : Db) : Type 0 where
  pub by_subscr : (n : ℕ) (m : Sms) → db.unsent_by_subscr n ≡ some m → m.receiver ≡ receiver_of m.id
  pub for_subscr :
      (n : ℕ) (m : Sms)
      → db.unsent_for_subscr n ≡ some m
      → (m.receiver ≡ receiver_of m.id) × (m.receiver ≡ n)

-- What a found entry tells.
pub record Entry (ps : List Pending) (id : ℕ) (p : Pending) : Type 0 where
  pub same_id : p.sms_id ≡ id
  pub shorter : length (free_entry ps id) + 1 ≡ length ps
  pub others : All (λ r. r.subscr ≢ p.subscr) (free_entry ps id)

-- What a found entry tells when it stands first, and when it does not.
found_cases :
    (x : Pending) (ps : List Pending) (id : ℕ) (p : Pending)
    → sms_find_pending (x ∷ ps) id ≡ some p
    → ((x.sms_id == id) ≡ true) × (x ≡ p)
      ⊎ (((x.sms_id == id) ≡ false) × (sms_find_pending ps id ≡ some p))
unfolding sms_find_pending
found_cases x ps id p e = elim (Bool-cases (x.sms_id == id)) [
  | inl t ↦ let q : some x ≡ some p = rw t at e in inl (t, some_inj q)
  | inr t ↦ inr (t, rw t at e)
]

pub sms_find_pending-All :
    (P : Pending → Type 0) (ps : List Pending) (id : ℕ) (p : Pending)
    → sms_find_pending ps id ≡ some p
    → All P ps
    → P p
unfolding sms_find_pending
sms_find_pending-All P [] id p e a = absurd (ground (arith, e))
sms_find_pending-All P (x ∷ ps) id p e a = elim (found_cases x ps id p e) [
  | inl (t, q) ↦ subst P q a.0
  | inr (t, q) ↦ sms_find_pending-All P ps id p q a.1
]

pub sms_find_pending-Entry :
    (ps : List Pending) (id : ℕ) (p : Pending)
    → Distinct ps
    → sms_find_pending ps id ≡ some p
    → Entry ps id p
unfolding sms_find_pending free_entry Distinct
sms_find_pending-Entry [] id p d e = absurd (ground (arith, e))
sms_find_pending-Entry (x ∷ ps) id p d e = elim (found_cases x ps id p e) [
  | inl (t, q) ↦
      subst (Entry (x ∷ ps) id) q
        (record { same_id = ==→eq x.sms_id id t; shorter = rw t (omega arith); others = rw t d.0 })
  | inr (t, q) ↦
      let rest = sms_find_pending-Entry ps id p d.1 q in
      record {
        same_id = rest.same_id;
        shorter = rw t (omega (arith, rest.shorter));
        others = rw t (
          (λ z. sms_find_pending-All (λ r. r.subscr ≢ x.subscr) ps id p q d.0 (sym z)),
          rest.others,
        );
      }
]

pub All-free_entry :
    (P : Pending → Type 0) (ps : List Pending) (id : ℕ) → All P ps → All P (free_entry ps id)
unfolding free_entry
All-free_entry P [] id a = tt
All-free_entry P (p ∷ ps) id a = elim (Bool-cases (p.sms_id == id)) [
  | inl t ↦ rw t a.1
  | inr t ↦ rw t (a.0, All-free_entry P ps id a.1)
]

pub Distinct-free_entry : (ps : List Pending) (id : ℕ) → Distinct ps → Distinct (free_entry ps id)
unfolding free_entry Distinct
Distinct-free_entry [] id d = tt
Distinct-free_entry (p ∷ ps) id d = elim (Bool-cases (p.sms_id == id)) [
  | inl t ↦ rw t d.1
  | inr t ↦
      rw t (All-free_entry (λ r. r.subscr ≢ p.subscr) ps id d.0, Distinct-free_entry ps id d.1)
]

pub Distinct-append :
    (ps : List Pending) (p : Pending)
    → Distinct ps
    → All (λ r. r.subscr ≢ p.subscr) ps
    → Distinct (ps ++ (p ∷ []))
unfolding Distinct
Distinct-append [] p d a = (tt, tt)
Distinct-append (x ∷ ps) p d a = (
  All-append (λ r. r.subscr ≢ x.subscr) ps p d.0 (λ e. a.0 (sym e)),
  Distinct-append ps p d.1 a.1,
)

pub no_subscriber :
    (ps : List Pending) (s : ℕ)
    → is_found (sms_subscriber_find_pending ps s) ≡ false
    → All (λ r. r.subscr ≢ s) ps
unfolding sms_subscriber_find_pending
no_subscriber [] s e = tt
no_subscriber (p ∷ ps) s e = elim (Bool-cases (p.subscr == s)) [
  | inl t ↦ absurd (ground (arith, t, e))
  | inr t ↦ (==-ne p.subscr s t, no_subscriber ps s (rw t at e))
]

pub no_entry_for :
    (ps : List Pending) (s : ℕ)
    → All (λ r. r.subscr ≢ s) ps
    → is_found (sms_subscriber_find_pending ps s) ≡ false
unfolding sms_subscriber_find_pending
no_entry_for [] s a = refl
no_entry_for (p ∷ ps) s a = ground (arith, a.0, no_entry_for ps s a.1)
