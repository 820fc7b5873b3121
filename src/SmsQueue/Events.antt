-- ===== src/SmsQueue/Events.antt =====
-- openbsc/src/libmsc/sms_queue.c: the signals of the messages that are being delivered, and the
-- settings and the start of the queue.
use openbsc.Base.{ℕ, Bool, false, not, Option, none, some, [], if◌then◌else◌}
use openbsc.SmsQueue.{
  Sms, Db, Pending, Queue, Result, sms_find_pending, sms_subscriber_is_pending, drop_entry,
  sms_queue_trigger, sms_pending_failed, sms_send_next, sms_submit_pending,
}

-- The results of paging that a failed delivery reports, and the signals of a message.
pub data PagingResult : Type 0 where
  no_paging : PagingResult
  paging_expired : PagingResult
  paging_oom : PagingResult
  paging_busy : PagingResult
  paging_other : PagingResult

pub data Signal : Type 0 where
  submitted : Signal
  smma : Signal
  delivered : Signal
  mem_exceeded : Signal
  unknown_error : PagingResult → Signal
  other_signal : Signal

abbrev pub on_error : PagingResult → Pending → Queue → Queue
on_error no_paging p q = sms_pending_failed p q
on_error paging_expired p q = sms_pending_failed p q
on_error paging_oom p q = sms_queue_trigger (drop_entry p.sms_id q)
on_error paging_busy p q = sms_queue_trigger (drop_entry p.sms_id q)
on_error paging_other p q = q

-- The signal for an entry of the queue.
unfoldable pub on_entry : Db → Signal → Pending → Queue → Option Result
unfolding sms_pending_failed sms_send_next
on_entry db submitted p q = some (q, [])
on_entry db smma p q = some (q, [])
on_entry db delivered p q = sms_send_next db p.subscr (drop_entry p.sms_id q)
on_entry db mem_exceeded p q = some (sms_queue_trigger (drop_entry p.sms_id q), [])
on_entry db (unknown_error r) p q = some (on_error r p q, [])
on_entry db other_signal p q = some (q, [])

abbrev pub on_message : Db → Signal → Option Pending → Queue → Option Result
on_message db signal none q = some (q, [])
on_message db signal (some p) q = on_entry db signal p q

-- `sms_sms_cb`; the message of the signal is `none` where it has none.
unfoldable pub sms_sms_cb : Db → Signal → Option Sms → Queue → Option Result
unfolding on_entry
sms_sms_cb db submitted sms q = some (sms_queue_trigger q, [])
sms_sms_cb db smma sms q = some (sms_queue_trigger q, [])
sms_sms_cb db signal none q = some (q, [])
sms_sms_cb db signal (some sms) q = on_message db signal (sms_find_pending q.pending_sms sms.id) q

-- `sub_ready_for_sm`: the message that is sent on the connection of an attached subscriber.
unfoldable pub sub_ready_for_sm : Db → Bool → ℕ → Queue → Option Sms
unfolding sms_subscriber_is_pending
sub_ready_for_sm db has_conn subscr q =
    if sms_subscriber_is_pending q subscr
    then none
    else if not has_conn
    then none
    else db.unsent_for_subscr subscr

abbrev pub sms_queue_set_max_pending : ℕ → Queue → Queue
sms_queue_set_max_pending max_pending q = record q { max_pending = max_pending }

abbrev pub sms_queue_set_max_failure : ℕ → Queue → Queue
sms_queue_set_max_failure max_fail q = record q { max_fail = max_fail }

abbrev pub sms_queue_clear : Queue → Queue
sms_queue_clear q = record q { pending = 0; pending_sms = [] }

abbrev pub empty_queue : ℕ → Queue
empty_queue max_pending = record {
  resend_pending = false;
  push_queue = false;
  max_fail = 1;
  max_pending = max_pending;
  pending = 0;
  pending_sms = [];
  last_subscr_id = 0;
}

unfoldable pub sms_queue_start : Db → ℕ → Result
unfolding sms_submit_pending
sms_queue_start db max_pending = sms_submit_pending db (empty_queue max_pending)
