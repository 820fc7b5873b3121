-- ===== src/SmsQueue/Keeps.antt =====
-- openbsc/src/libmsc/sms_queue.c: what each operation does to the entries.
use openbsc.Base.{
  All-append, ℕ, ◌+◌, ◌-◌, ◌≡◌, ◌≢◌, refl, sym, ap, ◌∙◌, inl, inr, true, false, Option, none, some,
  List, [], ◌∷◌, length, length-append, All, ltb, ◌==◌, Bool-cases, arith,
}
use openbsc.SmsQueue.{
  Sms, Db, Pending, Queue, Result, sms_find_pending, is_found, sms_is_in_pending,
  sms_subscriber_is_pending, free_entry, drop_entry, add_entry, retry_entry, sms_pending_failed,
  sms_queue_trigger, seen, wrap_around, take_next_sms, submit_loop, sms_submit_pending,
  send_or_submit, sms_send_next,
}
use openbsc.SmsQueue.Events.{
  PagingResult, no_paging, paging_expired, paging_oom, paging_busy, paging_other, on_error,
}
use openbsc.SmsQueue.Sane.{
  Distinct, IsSane, IsDb, sms_find_pending-All, sms_find_pending-Entry, All-free_entry,
  Distinct-free_entry, Distinct-append, no_subscriber, no_entry_for,
}
use openbsc.SmsQueue.Submit.{Sends, submit_loop_lem}

module _ (receiver_of : ℕ → ℕ) where
  -- Only the entries and their count matter.
  pub same-IsSane :
      (q t : Queue)
      → t.pending ≡ q.pending
      → t.pending_sms ≡ q.pending_sms
      → IsSane receiver_of q
      → IsSane receiver_of t
  same-IsSane q t e f h = record {
    counted = e ∙ h.counted ∙ ap length (sym f);
    distinct = rw f h.distinct;
    owned = rw f h.owned;
  }

  add_entry-IsSane :
      (q : Queue) (m : Sms)
      → m.receiver ≡ receiver_of m.id
      → All (λ r. r.subscr ≢ m.receiver) q.pending_sms
      → IsSane receiver_of q
      → IsSane receiver_of (add_entry m q)
  add_entry-IsSane q m e a h = record {
    counted = omega (arith, h.counted, length-append q.pending_sms (_ ∷ []));
    distinct = Distinct-append q.pending_sms _ h.distinct a;
    owned = All-append (λ p. p.subscr ≡ receiver_of p.sms_id) q.pending_sms _ h.owned e;
  }

  pub drop_entry-IsSane :
      (q : Queue) (id : ℕ) (p : Pending)
      → sms_find_pending q.pending_sms id ≡ some p
      → IsSane receiver_of q
      → IsSane receiver_of (drop_entry p.sms_id q)
  drop_entry-IsSane q id p e h =
      let x = sms_find_pending-Entry q.pending_sms id p h.distinct e in
      let l : length (free_entry q.pending_sms p.sms_id) + 1 ≡ length q.pending_sms =
        rw x.same_id x.shorter in
      record {
        counted = omega (arith, h.counted, l);
        distinct = Distinct-free_entry q.pending_sms p.sms_id h.distinct;
        owned =
            All-free_entry (λ r. r.subscr ≡ receiver_of r.sms_id) q.pending_sms p.sms_id h.owned;
      }

  module _ (db : Db) (d : IsDb receiver_of db) where
    seen-IsSane :
        (o : Option Sms) (q : Queue) → IsSane receiver_of q → IsSane receiver_of (seen o q)
    seen-IsSane none q h = h
    seen-IsSane (some m) q h = same-IsSane q (seen (some m) q) refl refl h

    take_next_sms-IsSane :
        (q : Queue)
        → IsSane receiver_of q
        → IsSane receiver_of (take_next_sms db q).0
          × ((m : Sms) → (take_next_sms db q).1 ≡ some m → m.receiver ≡ receiver_of m.id)
    unfolding take_next_sms
    take_next_sms-IsSane q h = by_first (db.unsent_by_subscr q.last_subscr_id) refl
      where
        by_first :
            (o : Option Sms)
            → db.unsent_by_subscr q.last_subscr_id ≡ o
            → IsSane receiver_of (wrap_around db o q).0
              × ((m : Sms) → (wrap_around db o q).1 ≡ some m → m.receiver ≡ receiver_of m.id)
        by_first (some m) e =
            (seen-IsSane (some m) q h, λ n f. d.by_subscr q.last_subscr_id n (e ∙ f))
        by_first none e = (
          seen-IsSane (db.unsent_by_subscr 0) (record q { last_subscr_id = 0 })
              (same-IsSane q (record q { last_subscr_id = 0 }) refl refl h),
          λ n f. d.by_subscr 0 n f,
        )

    sent-IsSane :
        (q : Queue) (m : Sms)
        → Sends db q m
        → IsSane receiver_of q
        → IsSane receiver_of (add_entry m (take_next_sms db q).0)
    unfolding sms_subscriber_is_pending
    sent-IsSane q m s h =
        let (k, r) = take_next_sms-IsSane q h in
        add_entry-IsSane (take_next_sms db q).0 m (r m s.next)
          (no_subscriber (take_next_sms db q).0.pending_sms m.receiver s.new_receiver) k

    loop-IsSane :
        (rounds attempts : ℕ) (q : Queue)
        → IsSane receiver_of q
        → IsSane receiver_of (submit_loop db rounds attempts 0 none q).0
    loop-IsSane rounds attempts q =
        submit_loop_lem db attempts (λ a q r. IsSane receiver_of q → IsSane receiver_of r.0)
          (λ a q h. h) (λ a q h. (take_next_sms-IsSane q h).0)
          (λ a q r k h. k (take_next_sms-IsSane q h).0) (λ a q m r s l k h. k (sent-IsSane q m s h))
          (λ a q m s h. sent-IsSane q m s h) rounds 0 none q

    pub sms_submit_pending-IsSane :
        (q : Queue) → IsSane receiver_of q → IsSane receiver_of (sms_submit_pending db q).0
    unfolding sms_submit_pending
    sms_submit_pending-IsSane q h = loop-IsSane 1000 (q.max_pending - q.pending) q h

    -- The call passes its assertions, and leaves a sane queue.
    pub record Kept (r : Option Result) : Type 0 where
      pub result : Result
      pub returns : r ≡ some result
      pub sane : IsSane receiver_of result.0

    pub kept : (r : Result) → IsSane receiver_of r.0 → Kept (some r)
    kept r h = record { result = r; returns = refl; sane = h }

    -- A message to a subscriber without an entry has none itself.
    new_message :
        (q : Queue) (m : Sms)
        → m.receiver ≡ receiver_of m.id
        → All (λ r. r.subscr ≢ m.receiver) q.pending_sms
        → IsSane receiver_of q
        → sms_is_in_pending q m ≡ false
    unfolding sms_is_in_pending
    new_message q m e a h = by_found (sms_find_pending q.pending_sms m.id) refl
      where
        by_found :
            (o : Option Pending)
            → sms_find_pending q.pending_sms m.id ≡ o
            → is_found (sms_find_pending q.pending_sms m.id) ≡ false
        by_found none f = rw f refl
        by_found (some p) f =
            let x = sms_find_pending-Entry q.pending_sms m.id p h.distinct f in
            let o =
              sms_find_pending-All (λ r. r.subscr ≡ receiver_of r.sms_id) q.pending_sms m.id p f
                h.owned in
            let n = sms_find_pending-All (λ r. r.subscr ≢ m.receiver) q.pending_sms m.id p f a in
            absurd (n (o ∙ ap receiver_of x.same_id ∙ sym e))

    send_or_submit-Kept :
        (q : Queue) (subscr : ℕ) (o : Option Sms)
        → db.unsent_for_subscr subscr ≡ o
        → All (λ r. r.subscr ≢ subscr) q.pending_sms
        → IsSane receiver_of q
        → Kept (send_or_submit db o q)
    send_or_submit-Kept q subscr none e a h =
        kept (sms_submit_pending db q) (sms_submit_pending-IsSane q h)
    send_or_submit-Kept q subscr (some m) e a h =
        let (r, s) = d.for_subscr subscr m e in
        let a' : All (λ x. x.subscr ≢ m.receiver) q.pending_sms = rw s a in
        rw (new_message q m r a' h) (kept (add_entry m q, m ∷ []) (add_entry-IsSane q m r a' h))

    pub sms_send_next-Kept :
        (q : Queue) (subscr : ℕ)
        → All (λ r. r.subscr ≢ subscr) q.pending_sms
        → IsSane receiver_of q
        → Kept (sms_send_next db subscr q)
    unfolding sms_send_next sms_subscriber_is_pending
    sms_send_next-Kept q subscr a h =
        rw (no_entry_for q.pending_sms subscr a)
          (send_or_submit-Kept q subscr (db.unsent_for_subscr subscr) refl a h)

  pub trigger-IsSane : (q : Queue) → IsSane receiver_of q → IsSane receiver_of (sms_queue_trigger q)
  trigger-IsSane q h = same-IsSane q (sms_queue_trigger q) refl refl h

  retry_entry-All :
      (P : Pending → Type 0) (ps : List Pending) (id : ℕ)
      → ((p : Pending)
          → P p
          → P (record p { failed_attempts = p.failed_attempts + 1; resend = true }))
      → All P ps
      → All P (retry_entry ps id)
  unfolding retry_entry
  retry_entry-All P [] id f a = tt
  retry_entry-All P (p ∷ ps) id f a = elim (Bool-cases (p.sms_id == id)) [
    | inl t ↦ rw t (f p a.0, a.1)
    | inr t ↦ rw t (a.0, retry_entry-All P ps id f a.1)
  ]

  retry_entry-Distinct : (ps : List Pending) (id : ℕ) → Distinct ps → Distinct (retry_entry ps id)
  unfolding retry_entry Distinct
  retry_entry-Distinct [] id d = tt
  retry_entry-Distinct (p ∷ ps) id d = elim (Bool-cases (p.sms_id == id)) [
    | inl t ↦ rw t d
    | inr t ↦ rw t (
      retry_entry-All (λ r. r.subscr ≢ p.subscr) ps id (λ r n. n) d.0,
      retry_entry-Distinct ps id d.1,
    )
  ]

  length-retry_entry : (ps : List Pending) (id : ℕ) → length (retry_entry ps id) ≡ length ps
  unfolding retry_entry
  length-retry_entry [] id = refl
  length-retry_entry (p ∷ ps) id = ground (arith, length-retry_entry ps id)

  sms_pending_failed-IsSane :
      (q : Queue) (id : ℕ) (p : Pending)
      → sms_find_pending q.pending_sms id ≡ some p
      → IsSane receiver_of q
      → IsSane receiver_of (sms_pending_failed p q)
  unfolding sms_pending_failed
  sms_pending_failed-IsSane q id p e h =
      elim (Bool-cases (ltb (p.failed_attempts + 1) q.max_fail)) [
        | inl t ↦ rw t (record {
          counted = h.counted ∙ sym (length-retry_entry q.pending_sms p.sms_id);
          distinct = retry_entry-Distinct q.pending_sms p.sms_id h.distinct;
          owned =
              retry_entry-All (λ r. r.subscr ≡ receiver_of r.sms_id) q.pending_sms p.sms_id
                (λ r n. n) h.owned;
        })
        | inr t ↦ rw t (trigger-IsSane (drop_entry p.sms_id q) (drop_entry-IsSane q id p e h))
      ]

  pub on_error-IsSane :
      (r : PagingResult) (q : Queue) (id : ℕ) (p : Pending)
      → sms_find_pending q.pending_sms id ≡ some p
      → IsSane receiver_of q
      → IsSane receiver_of (on_error r p q)
  on_error-IsSane no_paging q id p e h = sms_pending_failed-IsSane q id p e h
  on_error-IsSane paging_expired q id p e h = sms_pending_failed-IsSane q id p e h
  on_error-IsSane paging_oom q id p e h =
      trigger-IsSane (drop_entry p.sms_id q) (drop_entry-IsSane q id p e h)
  on_error-IsSane paging_busy q id p e h =
      trigger-IsSane (drop_entry p.sms_id q) (drop_entry-IsSane q id p e h)
  on_error-IsSane paging_other q id p e h = h
