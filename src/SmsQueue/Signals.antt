-- ===== src/SmsQueue/Signals.antt =====
-- openbsc/src/libmsc/sms_queue.c: every sequence of signals, ends of timers and changed settings.
use mathlib.Core.Path.{subst}
use openbsc.Base.{
  ℕ, suc, ◌+◌, ◌≡◌, ◌≢◌, refl, sym, ap, ◌∙◌, Bool, true, false, Option, none, some, List, [], ◌∷◌,
  length, All, some_inj, arith,
}
use openbsc.SmsQueue.{
  Sms, Db, Pending, Queue, Result, sms_find_pending, drop_entry, sms_queue_trigger, Resent,
  resend_entry, resend_entries, sms_resend_pending, push_queue_cb,
}
use openbsc.SmsQueue.Events.{
  Signal, submitted, smma, delivered, mem_exceeded, unknown_error, other_signal, on_entry,
  on_message, sms_sms_cb, sms_queue_set_max_pending, sms_queue_set_max_failure, sms_queue_clear,
  empty_queue, sms_queue_start,
}
use openbsc.SmsQueue.Sane.{Distinct, IsSane, IsDb, sms_find_pending-Entry}
use openbsc.SmsQueue.Tables.{Stored, db_of, receiver_of, db_of-IsDb}
use openbsc.SmsQueue.Keeps.{
  same-IsSane, drop_entry-IsSane, sms_submit_pending-IsSane, Kept, kept, sms_send_next-Kept,
  trigger-IsSane, on_error-IsSane,
}

module _ (receiver_of : ℕ → ℕ) (db : Db) (d : IsDb receiver_of db) where
  on_entry-Kept :
      (signal : Signal) (q : Queue) (id : ℕ) (p : Pending)
      → sms_find_pending q.pending_sms id ≡ some p
      → IsSane receiver_of q
      → Kept receiver_of db d (on_entry db signal p q)
  unfolding on_entry
  on_entry-Kept submitted q id p e h = kept receiver_of db d (q, []) h
  on_entry-Kept smma q id p e h = kept receiver_of db d (q, []) h
  on_entry-Kept delivered q id p e h =
      let x = sms_find_pending-Entry q.pending_sms id p h.distinct e in
      sms_send_next-Kept receiver_of db d (drop_entry p.sms_id q) p.subscr (rw x.same_id x.others)
        (drop_entry-IsSane receiver_of q id p e h)
  on_entry-Kept mem_exceeded q id p e h =
      kept receiver_of db d (sms_queue_trigger (drop_entry p.sms_id q), [])
        (trigger-IsSane receiver_of (drop_entry p.sms_id q)
          (drop_entry-IsSane receiver_of q id p e h))
  on_entry-Kept (unknown_error r) q id p e h =
      kept receiver_of db d _ (on_error-IsSane receiver_of r q id p e h)
  on_entry-Kept other_signal q id p e h = kept receiver_of db d (q, []) h

  on_message-Kept :
      (signal : Signal) (q : Queue) (id : ℕ) (o : Option Pending)
      → sms_find_pending q.pending_sms id ≡ o
      → IsSane receiver_of q
      → Kept receiver_of db d (on_message db signal o q)
  on_message-Kept signal q id none e h = kept receiver_of db d (q, []) h
  on_message-Kept signal q id (some p) e h = on_entry-Kept signal q id p e h

  -- From a sane queue, no signal of a message fails an assertion, and the queue stays sane.
  pub sms_sms_cb-Kept :
      (signal : Signal) (sms : Option Sms) (q : Queue)
      → IsSane receiver_of q
      → Kept receiver_of db d (sms_sms_cb db signal sms q)
  unfolding sms_sms_cb
  sms_sms_cb-Kept submitted sms q h =
      kept receiver_of db d (sms_queue_trigger q, []) (trigger-IsSane receiver_of q h)
  sms_sms_cb-Kept smma sms q h =
      kept receiver_of db d (sms_queue_trigger q, []) (trigger-IsSane receiver_of q h)
  sms_sms_cb-Kept delivered none q h = kept receiver_of db d (q, []) h
  sms_sms_cb-Kept mem_exceeded none q h = kept receiver_of db d (q, []) h
  sms_sms_cb-Kept (unknown_error r) none q h = kept receiver_of db d (q, []) h
  sms_sms_cb-Kept other_signal none q h = kept receiver_of db d (q, []) h
  sms_sms_cb-Kept delivered (some m) q h = on_message-Kept delivered q m.id _ refl h
  sms_sms_cb-Kept mem_exceeded (some m) q h = on_message-Kept mem_exceeded q m.id _ refl h
  sms_sms_cb-Kept (unknown_error r) (some m) q h = on_message-Kept (unknown_error r) q m.id _ refl h
  sms_sms_cb-Kept other_signal (some m) q h = on_message-Kept other_signal q m.id _ refl h

-- What one entry adds to the entries that stay.
resend_entry-All :
    (P : Pending → Type 0) (b : Bool) (o : Option Sms) (p : Pending) (rest : Resent)
    → ((r : Pending) → P r → P (record r { resend = false }))
    → P p
    → All P rest.0
    → All P (resend_entry b o p rest).0
resend_entry-All P false o p rest f h a = (h, a)
resend_entry-All P true none p rest f h a = a
resend_entry-All P true (some m) p rest f h a = (f p h, a)

resend_entries-All :
    (P : Pending → Type 0) (db : Db) (ps : List Pending)
    → ((p : Pending) → P p → P (record p { resend = false }))
    → All P ps
    → All P (resend_entries db ps).0
unfolding resend_entries
resend_entries-All P db [] f a = tt
resend_entries-All P db (p ∷ ps) f a =
    resend_entry-All P p.resend (db.sms_get p.sms_id) p (resend_entries db ps) f a.0
      (resend_entries-All P db ps f a.1)

resend_entry-Distinct :
    (b : Bool) (o : Option Sms) (p : Pending) (rest : Resent)
    → All (λ r. r.subscr ≢ p.subscr) rest.0
    → Distinct rest.0
    → Distinct (resend_entry b o p rest).0
unfolding Distinct
resend_entry-Distinct false o p rest a d = (a, d)
resend_entry-Distinct true none p rest a d = d
resend_entry-Distinct true (some m) p rest a d = (a, d)

resend_entries-Distinct :
    (db : Db) (ps : List Pending) → Distinct ps → Distinct (resend_entries db ps).0
unfolding resend_entries Distinct
resend_entries-Distinct db [] d = tt
resend_entries-Distinct db (p ∷ ps) d =
    resend_entry-Distinct p.resend (db.sms_get p.sms_id) p (resend_entries db ps)
      (resend_entries-All (λ r. r.subscr ≢ p.subscr) db ps (λ r n. n) d.0)
      (resend_entries-Distinct db ps d.1)

resend_entry-count :
    (b : Bool) (o : Option Sms) (p : Pending) (rest : Resent)
    → length (resend_entry b o p rest).0 + (resend_entry b o p rest).1
      ≡ suc (length rest.0 + rest.1)
resend_entry-count false o p rest = omega arith
resend_entry-count true none p rest = omega arith
resend_entry-count true (some m) p rest = omega arith

resend_entries-count :
    (db : Db) (ps : List Pending)
    → length (resend_entries db ps).0 + (resend_entries db ps).1 ≡ length ps
unfolding resend_entries
resend_entries-count db [] = omega arith
resend_entries-count db (p ∷ ps) =
    resend_entry-count p.resend (db.sms_get p.sms_id) p (resend_entries db ps)
    ∙ ap suc (resend_entries-count db ps)

sms_resend_pending-IsSane :
    (receiver_of : ℕ → ℕ) (db : Db) (q : Queue)
    → IsSane receiver_of q
    → IsSane receiver_of (sms_resend_pending db q).0
unfolding sms_resend_pending
sms_resend_pending-IsSane receiver_of db q h = record {
  counted = omega (arith, h.counted, resend_entries-count db q.pending_sms);
  distinct = resend_entries-Distinct db q.pending_sms h.distinct;
  owned =
      resend_entries-All (λ p. p.subscr ≡ receiver_of p.sms_id) db q.pending_sms (λ p e. e) h.owned;
}

-- Something that can happen to the queue. The tables may be others each time, as long as an extension
-- keeps its subscriber and a message its destination (`Stored`).
pub data Step (owner dest_of : ℕ → ℕ) : Queue → Queue → Type 0 where
  signals :
      (st : Stored owner dest_of) (signal : Signal) (sms : Option Sms) (q : Queue) (r : Result)
      → sms_sms_cb (db_of owner dest_of st) signal sms q ≡ some r
      → Step owner dest_of q r.0
  pushes :
      (st : Stored owner dest_of) (q : Queue)
      → Step owner dest_of q (push_queue_cb (db_of owner dest_of st) q).0
  resends :
      (st : Stored owner dest_of) (q : Queue)
      → Step owner dest_of q (sms_resend_pending (db_of owner dest_of st) q).0
  sets_max_pending : (n : ℕ) (q : Queue) → Step owner dest_of q (sms_queue_set_max_pending n q)
  sets_max_failure : (n : ℕ) (q : Queue) → Step owner dest_of q (sms_queue_set_max_failure n q)
  clears : (q : Queue) → Step owner dest_of q (sms_queue_clear q)

pub data Reachable (owner dest_of : ℕ → ℕ) : Queue → Type 0 where
  starts :
      (st : Stored owner dest_of) (max_pending : ℕ)
      → Reachable owner dest_of (sms_queue_start (db_of owner dest_of st) max_pending).0
  next :
      {q r : Queue} → Reachable owner dest_of q → Step owner dest_of q r → Reachable owner dest_of r

push_queue_cb-IsSane :
    (receiver_of : ℕ → ℕ) (db : Db) (q : Queue)
    → IsDb receiver_of db
    → IsSane receiver_of q
    → IsSane receiver_of (push_queue_cb db q).0
unfolding push_queue_cb
push_queue_cb-IsSane receiver_of db q d h =
    sms_submit_pending-IsSane receiver_of db d (record q { push_queue = false })
      (same-IsSane receiver_of q (record q { push_queue = false }) refl refl h)

sms_queue_start-IsSane :
    (receiver_of : ℕ → ℕ) (db : Db) (n : ℕ)
    → IsDb receiver_of db
    → IsSane receiver_of (sms_queue_start db n).0
unfolding sms_queue_start Distinct
sms_queue_start-IsSane receiver_of db n d =
    sms_submit_pending-IsSane receiver_of db d (empty_queue n)
      (record { counted = refl; distinct = tt; owned = tt })

module _ (owner dest_of : ℕ → ℕ) where
  Step-IsSane :
      {q r : Queue}
      → Step owner dest_of q r
      → IsSane (receiver_of owner dest_of) q
      → IsSane (receiver_of owner dest_of) r
  unfolding Distinct
  Step-IsSane (signals st signal sms q r e) h =
      let k =
        sms_sms_cb-Kept (receiver_of owner dest_of) (db_of owner dest_of st)
          (db_of-IsDb owner dest_of st) signal sms q h in
      subst (λ (x : Result). IsSane (receiver_of owner dest_of) x.0) (some_inj (sym k.returns ∙ e))
        k.sane
  Step-IsSane (pushes st q) h =
      push_queue_cb-IsSane (receiver_of owner dest_of) (db_of owner dest_of st) q
        (db_of-IsDb owner dest_of st) h
  Step-IsSane (resends st q) h =
      sms_resend_pending-IsSane (receiver_of owner dest_of) (db_of owner dest_of st) q h
  Step-IsSane (sets_max_pending n q) h =
      same-IsSane (receiver_of owner dest_of) q (sms_queue_set_max_pending n q) refl refl h
  Step-IsSane (sets_max_failure n q) h =
      same-IsSane (receiver_of owner dest_of) q (sms_queue_set_max_failure n q) refl refl h
  Step-IsSane (clears q) h = record { counted = refl; distinct = tt; owned = tt }

  Reachable-IsSane : {q : Queue} → Reachable owner dest_of q → IsSane (receiver_of owner dest_of) q
  Reachable-IsSane (starts st n) =
      sms_queue_start-IsSane (receiver_of owner dest_of) (db_of owner dest_of st) n
        (db_of-IsDb owner dest_of st)
  Reachable-IsSane (next r s) = Step-IsSane s (Reachable-IsSane r)

  -- As long as each extension stays with its subscriber, in memory and in the data base, and each
  -- message with its destination, the count of the queue is in every reachable state that of the
  -- entries, no two entries are for the same subscriber, each entry is for the receiver of its
  -- message, and no signal of a message fails an assertion, whatever messages and subscribers the
  -- tables have then.
  pub sms_sms_cb-returns :
      (q : Queue) (st : Stored owner dest_of) (signal : Signal) (sms : Option Sms)
      → Reachable owner dest_of q
      → IsSane (receiver_of owner dest_of) q
        × ((r : Result) × (sms_sms_cb (db_of owner dest_of st) signal sms q ≡ some r))
  sms_sms_cb-returns q st signal sms r =
      let h = Reachable-IsSane r in
      let k =
        sms_sms_cb-Kept (receiver_of owner dest_of) (db_of owner dest_of st)
          (db_of-IsDb owner dest_of st) signal sms q h in
      (h, (k.result, k.returns))
