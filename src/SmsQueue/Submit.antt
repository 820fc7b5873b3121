-- ===== src/SmsQueue/Submit.antt =====
-- openbsc/src/libmsc/sms_queue.c: the loop of `sms_submit_pending`, and how many messages it hands
-- over.
use mathlib.Core.Path.{subst}
use openbsc.Base.{
  ℕ, zero, suc, ◌+◌, ◌-◌, ◌≤◌, ◌<◌, max, ◌≡◌, refl, ap, ◌∙◌, inl, inr, Bool, true, false, ◌||◌,
  Option, none, some, [], ◌∷◌, length, if◌then◌else◌, ltb, Bool-cases, ltb→lt, ◌==◌, arith,
}
use openbsc.SmsQueue.{
  Sms, Db, Queue, Result, add_entry, seen, wrap_around, take_next_sms, Round, stop, skip, send,
  round_of, end_round, attempted_after, first_after, queue_after, submit_loop, sms_submit_pending,
  sms_is_in_pending, sms_subscriber_is_pending,
}

-- The next message is `sms`, and neither it nor another message for its receiver is pending.
pub record Sends (db : Db) (q : Queue) (sms : Sms) : Type 0 where
  pub next : (take_next_sms db q).1 ≡ some sms
  pub new_sms : sms_is_in_pending (take_next_sms db q).0 sms ≡ false
  pub new_receiver : sms_subscriber_is_pending (take_next_sms db q).0 sms.receiver ≡ false

unless-send :
    (b : Bool) (f g : ℕ) (sms m : Sms)
    → (if b then skip f else send f sms) ≡ send g m
    → (b ≡ false) × (sms ≡ m)
unless-send true f g sms m e = absurd (ground (arith, e))
unless-send false f g sms m e = (refl, ground (arith, e))

neither : (a b : Bool) → (a || b) ≡ false → (a ≡ false) × (b ≡ false)
neither true b e = absurd (ground (arith, e))
neither false b e = (refl, e)

abbrev IsSent : Queue → Option Sms → Sms → Type 0
IsSent q o m =
    (o ≡ some m)
    × (sms_is_in_pending q m ≡ false)
    × (sms_subscriber_is_pending q m.receiver ≡ false)

new-IsSent :
    (q : Queue) (sms m : Sms) (f g : ℕ)
    → (if sms_is_in_pending q sms || sms_subscriber_is_pending q sms.receiver
        then skip f
        else send f sms)
      ≡ send g m
    → IsSent q (some sms) m
new-IsSent q sms m f g e =
    let (b, p) =
      unless-send (sms_is_in_pending q sms || sms_subscriber_is_pending q sms.receiver) f g sms m
        e in
    let (x, y) = neither (sms_is_in_pending q sms) (sms_subscriber_is_pending q sms.receiver) b in
    subst (IsSent q (some sms)) p (refl, x, y)

round_of-send :
    (first : Option ℕ) (q : Queue) (o : Option Sms) (f : ℕ) (m : Sms)
    → round_of first q o ≡ send f m
    → IsSent q o m
unfolding round_of
round_of-send first q none f m e = absurd (ground (arith, e))
round_of-send none q (some sms) f m e = new-IsSent q sms m sms.receiver f e
round_of-send (some x) q (some sms) f m e = elim (Bool-cases (x == sms.receiver)) [
  | inl t ↦ let n : stop ≡ send f m = rw t at e in absurd (ground (arith, n))
  | inr t ↦ new-IsSent q sms m x f (rw t at e)
]

-- A property of the attempts made so far, the queue and the result holds of the loop when each way a
-- round can end keeps it.
module _ (db : Db) (attempts : ℕ) (P : ℕ → Queue → Result → Type 0)
    (none_left : (a : ℕ) (q : Queue) → P a q (q, []))
    (ends : (a : ℕ) (q : Queue) → P a q ((take_next_sms db q).0, []))
    (skips : (a : ℕ) (q : Queue) (r : Result) → P a (take_next_sms db q).0 r → P a q r)
    (sends : (a : ℕ) (q : Queue) (sms : Sms) (r : Result)
      → Sends db q sms
      → a + 1 < attempts
      → P (a + 1) (add_entry sms (take_next_sms db q).0) r
      → P a q (r.0, sms ∷ r.1))
    (sends_last : (a : ℕ) (q : Queue) (sms : Sms)
      → Sends db q sms
      → P a q (add_entry sms (take_next_sms db q).0, sms ∷ [])) where
  by_round :
      (a : ℕ) (q : Queue) (r : Round) (rest : Result)
      → ((f : ℕ) (m : Sms) → r ≡ send f m → Sends db q m)
      → P (attempted_after a r) (queue_after (take_next_sms db q).0 r) rest
      → P a q (end_round attempts a (take_next_sms db q).0 r rest)
  by_round a q stop rest h p = ends a q
  by_round a q (skip f) rest h p = elim (Bool-cases (ltb a attempts)) [
    | inl t ↦ rw t (skips a q rest p)
    | inr t ↦ rw t (ends a q)
  ]
  by_round a q (send f m) rest h p = elim (Bool-cases (ltb (a + 1) attempts)) [
    | inl t ↦ rw t (sends a q m rest (h f m refl) (ltb→lt (a + 1) attempts t) p)
    | inr t ↦ rw t (sends_last a q m (h f m refl))
  ]

  pub submit_loop_lem :
      (rounds a : ℕ) (first : Option ℕ) (q : Queue)
      → P a q (submit_loop db rounds attempts a first q)
  unfolding submit_loop
  submit_loop_lem zero a first q = none_left a q
  submit_loop_lem (suc rounds) a first q =
      let t = take_next_sms db q in
      let r = round_of first t.0 t.1 in
      by_round a q r
        (submit_loop db rounds attempts (attempted_after a r) (first_after r) (queue_after t.0 r))
        (λ f m e.
          let (x, y, z) = round_of-send first t.0 t.1 f m e in
          record { next = x; new_sms = y; new_receiver = z })
        (submit_loop_lem rounds (attempted_after a r) (first_after r) (queue_after t.0 r))

-- What the loop adds to the count.
pub record Adds (q : Queue) (wanted : ℕ) (r : Result) : Type 0 where
  pub counted : r.0.pending ≡ q.pending + length r.1
  pub bounded : length r.1 ≤ max 1 wanted

seen-pending : (o : Option Sms) (q : Queue) → (seen o q).pending ≡ q.pending
seen-pending none q = refl
seen-pending (some sms) q = refl

take_next_sms-pending : (db : Db) (q : Queue) → (take_next_sms db q).0.pending ≡ q.pending
unfolding take_next_sms
take_next_sms-pending db q = by_first (db.unsent_by_subscr q.last_subscr_id)
  where
    by_first : (o : Option Sms) → (wrap_around db o q).0.pending ≡ q.pending
    by_first none = seen-pending (db.unsent_by_subscr 0) (record q { last_subscr_id = 0 })
    by_first (some sms) = refl

loop-Adds : (db : Db) (rounds n : ℕ) (q : Queue) → Adds q n (submit_loop db rounds n 0 none q)
loop-Adds db rounds n q =
    let h =
      submit_loop_lem db n (λ a q r. Adds q (n - a) r)
        (λ a q. record { counted = omega arith; bounded = omega arith })
        (λ a q. record {
          counted = omega (arith, take_next_sms-pending db q);
          bounded = omega arith;
        })
        (λ a q r h. record {
          counted = omega (arith, take_next_sms-pending db q, h.counted);
          bounded = h.bounded;
        })
        (λ a q sms r s l h. record {
          counted = omega (arith, take_next_sms-pending db q, h.counted);
          bounded = omega (arith, h.bounded);
        })
        (λ a q sms s. record {
          counted = omega (arith, take_next_sms-pending db q);
          bounded = omega arith;
        })
        rounds 0 none q in
    record { counted = h.counted; bounded = omega (arith, h.bounded) }

-- Each run counts the messages that it hands over, and hands over no more than there is room for, or
-- one.
pub sms_submit_pending-Adds :
    (db : Db) (q : Queue) → Adds q (q.max_pending - q.pending) (sms_submit_pending db q)
unfolding sms_submit_pending
sms_submit_pending-Adds db q = loop-Adds db 1000 (q.max_pending - q.pending) q

round_of-Sends :
    (db : Db) (q : Queue) (sms : Sms)
    → Sends db q sms
    → round_of none (take_next_sms db q).0 (take_next_sms db q).1 ≡ send sms.receiver sms
unfolding round_of
round_of-Sends db q sms h = rw (h.next, round_of) (rw (h.new_sms, h.new_receiver) refl)

loop-full :
    (db : Db) (rounds : ℕ) (q : Queue) (sms : Sms)
    → Sends db q sms
    → submit_loop db (suc rounds) 0 0 none q ≡ (add_entry sms (take_next_sms db q).0, sms ∷ [])
unfolding submit_loop
loop-full db rounds q sms h = rw (round_of-Sends db q sms h) refl

submit_full :
    (db : Db) (q : Queue) (sms : Sms)
    → q.max_pending ≤ q.pending
    → Sends db q sms
    → sms_submit_pending db q ≡ (add_entry sms (take_next_sms db q).0, sms ∷ [])
unfolding sms_submit_pending
submit_full db q sms l h =
    let z : q.max_pending - q.pending ≡ 0 = omega (arith, l) in
    ap (λ n. submit_loop db 1000 n 0 none q) z ∙ loop-full db 999 q sms h

-- When as many messages are pending as there may be, or more, a run still hands over the next
-- message of the data base if neither it nor its receiver is pending, so that there are more than
-- there may be.
pub sms_submit_pending-full :
    (db : Db) (q : Queue) (sms : Sms)
    → q.max_pending ≤ q.pending
    → Sends db q sms
    → ((sms_submit_pending db q).1 ≡ sms ∷ [])
      × (q.max_pending < (sms_submit_pending db q).0.pending)
sms_submit_pending-full db q sms l h =
    let e = submit_full db q sms l h in
    (
      ap (λ (r : Result). r.1) e,
      omega (arith, l, ap (λ (r : Result). r.0.pending) e, take_next_sms-pending db q),
    )
