-- ===== src/SmsQueue.antt =====
-- openbsc/src/libmsc/sms_queue.c: the queue of the short messages that are being delivered, which is
-- filled from the data base.
--
-- The three queries of openbsc/src/libmsc/db.c are an argument, for the data base does not change
-- while they are used here; Tables has them over the tables. What is handed to
-- `gsm411_send_sms_subscr` is a list of messages. The count `pending` is an `int`; it is not taken
-- below 0, since it counts the entries. `none` for a result is a failed assertion; allocation does
-- not fail.
pub mod Events
pub mod Sane
pub mod Submit
pub mod Keeps
pub mod Tables
pub mod Signals
mod Tests
use openbsc.Base.{
  ℕ, zero, suc, ◌+◌, ◌-◌, Bool, true, false, not, ◌||◌, Option, none, some, List, [], ◌∷◌, ◌++◌,
  if◌then◌else◌, ltb, ◌==◌,
}

pub record Sms : Type 0 where
  pub id : ℕ
  pub receiver : ℕ

-- `db_sms_get_unsent_by_subscr` with at most ten attempts, from a subscriber on,
-- `db_sms_get_unsent_for_subscr`, and `db_sms_get`.
pub record Db : Type 0 where
  pub unsent_by_subscr : ℕ → Option Sms
  pub unsent_for_subscr : ℕ → Option Sms
  pub sms_get : ℕ → Option Sms

-- `struct gsm_sms_pending`.
pub record Pending : Type 0 where
  pub subscr : ℕ
  pub sms_id : ℕ
  pub failed_attempts : ℕ
  pub resend : Bool

-- `struct gsm_sms_queue`; the timers are whether they are pending.
pub record Queue : Type 0 where
  pub resend_pending : Bool
  pub push_queue : Bool
  pub max_fail : ℕ
  pub max_pending : ℕ
  pub pending : ℕ
  pub pending_sms : List Pending
  pub last_subscr_id : ℕ

abbrev pub Result : Type 0
Result = Queue × List Sms

unfoldable pub sms_find_pending : List Pending → ℕ → Option Pending
sms_find_pending [] id = none
sms_find_pending (p ∷ ps) id =
    let rest = sms_find_pending ps id in if p.sms_id == id then some p else rest

unfoldable pub sms_subscriber_find_pending : List Pending → ℕ → Option Pending
sms_subscriber_find_pending [] subscr = none
sms_subscriber_find_pending (p ∷ ps) subscr =
    let rest = sms_subscriber_find_pending ps subscr in if p.subscr == subscr then some p else rest

abbrev pub is_found : Option Pending → Bool
is_found none = false
is_found (some p) = true

unfoldable pub sms_is_in_pending : Queue → Sms → Bool
unfolding sms_find_pending
sms_is_in_pending q sms = is_found (sms_find_pending q.pending_sms sms.id)

unfoldable pub sms_subscriber_is_pending : Queue → ℕ → Bool
unfolding sms_subscriber_find_pending
sms_subscriber_is_pending q subscr = is_found (sms_subscriber_find_pending q.pending_sms subscr)

abbrev pub sms_pending_from : Sms → Pending
sms_pending_from sms = record {
  subscr = sms.receiver;
  sms_id = sms.id;
  failed_attempts = 0;
  resend = false;
}

-- `sms_pending_free`: the entry of a message leaves the list.
unfoldable pub free_entry : List Pending → ℕ → List Pending
free_entry [] id = []
free_entry (p ∷ ps) id = let rest = free_entry ps id in if p.sms_id == id then ps else p ∷ rest

abbrev pub sms_queue_trigger : Queue → Queue
sms_queue_trigger q = record q { push_queue = true }

-- An entry is freed and no longer counted.
abbrev pub drop_entry : ℕ → Queue → Queue
drop_entry id q = record q { pending = q.pending - 1; pending_sms = free_entry q.pending_sms id }

-- An entry is counted and appended.
abbrev pub add_entry : Sms → Queue → Queue
add_entry sms q = record q {
  pending = q.pending + 1;
  pending_sms = q.pending_sms ++ (sms_pending_from sms ∷ []);
}

-- A failed entry that is to be sent again.
unfoldable pub retry_entry : List Pending → ℕ → List Pending
retry_entry [] id = []
retry_entry (p ∷ ps) id =
    let rest = retry_entry ps id in
    if p.sms_id == id
    then record p { failed_attempts = p.failed_attempts + 1; resend = true } ∷ ps
    else p ∷ rest

unfoldable pub sms_pending_failed : Pending → Queue → Queue
unfolding free_entry retry_entry
sms_pending_failed p q =
    if ltb (p.failed_attempts + 1) q.max_fail
    then record q { pending_sms = retry_entry q.pending_sms p.sms_id; resend_pending = true }
    else sms_queue_trigger (drop_entry p.sms_id q)

-- The entries that stay, how many of them went, and what is sent.
abbrev pub Resent : Type 0
Resent = List Pending × ℕ × List Sms

-- What the loop of `sms_resend_pending` does with an entry, by its flag and its message.
abbrev pub resend_entry : Bool → Option Sms → Pending → Resent → Resent
resend_entry false sms p (stay, gone, sent) = (p ∷ stay, gone, sent)
resend_entry true none p (stay, gone, sent) = (stay, gone + 1, sent)
resend_entry true (some sms) p (stay, gone, sent) =
    (record p { resend = false } ∷ stay, gone, sms ∷ sent)

unfoldable pub resend_entries : Db → List Pending → Resent
resend_entries db [] = ([], 0, [])
resend_entries db (p ∷ ps) = resend_entry p.resend (db.sms_get p.sms_id) p (resend_entries db ps)

unfoldable pub sms_resend_pending : Db → Queue → Result
unfolding resend_entries
sms_resend_pending db q =
    let (stay, gone, sent) = resend_entries db q.pending_sms in
    (
      record q {
        resend_pending = false;
        push_queue = ltb 0 gone || q.push_queue;
        pending = q.pending - gone;
        pending_sms = stay;
      },
      sent,
    )

abbrev pub seen : Option Sms → Queue → Queue
seen none q = q
seen (some sms) q = record q { last_subscr_id = sms.receiver + 1 }

abbrev pub wrap_around : Db → Option Sms → Queue → Queue × Option Sms
wrap_around db (some sms) q = (seen (some sms) q, some sms)
wrap_around db none q =
    let again = db.unsent_by_subscr 0 in (seen again (record q { last_subscr_id = 0 }), again)

unfoldable pub take_next_sms : Db → Queue → Queue × Option Sms
take_next_sms db q = wrap_around db (db.unsent_by_subscr q.last_subscr_id) q

-- What a round of `sms_submit_pending` does: it ends the loop, or passes over a message, or sends it.
pub data Round : Type 0 where
  stop : Round
  skip : ℕ → Round
  send : ℕ → Sms → Round

-- `first` is the receiver of the first round; the loop ends when it comes again.
unfoldable pub round_of : Option ℕ → Queue → Option Sms → Round
unfolding sms_is_in_pending sms_subscriber_is_pending
round_of first q none = stop
round_of none q (some sms) =
    if sms_is_in_pending q sms || sms_subscriber_is_pending q sms.receiver
    then skip sms.receiver
    else send sms.receiver sms
round_of (some first_sub) q (some sms) =
    if first_sub == sms.receiver
    then stop
    else if sms_is_in_pending q sms || sms_subscriber_is_pending q sms.receiver
    then skip first_sub
    else send first_sub sms

-- The end of a round, with the result of the rounds after it: the loop goes on while an attempt is
-- left.
abbrev pub end_round : ℕ → ℕ → Queue → Round → Result → Result
end_round attempts attempted q stop rest = (q, [])
end_round attempts attempted q (skip f) rest = if ltb attempted attempts then rest else (q, [])
end_round attempts attempted q (send f sms) rest =
    if ltb (attempted + 1) attempts then (rest.0, sms ∷ rest.1) else (add_entry sms q, sms ∷ [])

abbrev pub attempted_after : ℕ → Round → ℕ
attempted_after attempted stop = attempted
attempted_after attempted (skip f) = attempted
attempted_after attempted (send f sms) = attempted + 1

abbrev pub first_after : Round → Option ℕ
first_after stop = none
first_after (skip f) = some f
first_after (send f sms) = some f

abbrev pub queue_after : Queue → Round → Queue
queue_after q stop = q
queue_after q (skip f) = q
queue_after q (send f sms) = add_entry sms q

-- The loop with the rounds that are left, the attempts that are wanted and those made.
unfoldable pub submit_loop : Db → ℕ → ℕ → ℕ → Option ℕ → Queue → Result
unfolding take_next_sms round_of
submit_loop db zero attempts attempted first q = (q, [])
submit_loop db (suc rounds) attempts attempted first q =
    let (q', sms) = take_next_sms db q in
    let r = round_of first q' sms in
    let rest =
      submit_loop db rounds attempts (attempted_after attempted r) (first_after r)
        (queue_after q' r) in
    end_round attempts attempted q' r rest

unfoldable pub sms_submit_pending : Db → Queue → Result
unfolding submit_loop
sms_submit_pending db q = submit_loop db 1000 (q.max_pending - q.pending) 0 none q

-- The end of the timer `push_queue`.
unfoldable pub push_queue_cb : Db → Queue → Result
unfolding sms_submit_pending
push_queue_cb db q = sms_submit_pending db (record q { push_queue = false })

abbrev pub send_or_submit : Db → Option Sms → Queue → Option Result
send_or_submit db none q = some (sms_submit_pending db q)
send_or_submit db (some sms) q =
    if sms_is_in_pending q sms then none else some (add_entry sms q, sms ∷ [])

unfoldable pub sms_send_next : Db → ℕ → Queue → Option Result
unfolding sms_submit_pending
sms_send_next db subscr q =
    if sms_subscriber_is_pending q subscr
    then none
    else send_or_submit db (db.unsent_for_subscr subscr) q
