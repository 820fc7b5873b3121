-- ===== src/SmsQueue/Tests.antt =====
-- The queue of a data base with a message to each of two subscribers, and each theorem at an input.
use openbsc.Base.{
  ℕ, ◌+◌, ◌-◌, map, ◌<◌, ◌≡◌, refl, false, Option, none, some, List, [], ◌∷◌, if◌then◌else◌, ltb,
  ◌==◌, arith,
}
use openbsc.SmsQueue.{
  Sms, Db, Queue, Result, sms_find_pending, sms_subscriber_find_pending, sms_is_in_pending,
  sms_subscriber_is_pending, free_entry, take_next_sms, round_of, submit_loop, sms_submit_pending,
  push_queue_cb, sms_send_next,
}
use openbsc.SmsQueue.Events.{delivered, on_entry, sms_sms_cb, sms_queue_start}
use openbsc.SmsQueue.Sane.{IsSane}
use openbsc.SmsQueue.Tables.{
  find_extension, subscr_get_by_extension, first_unsent, first_by, Stored, db_of, receiver_of,
}
use openbsc.SmsQueue.Signals.{Reachable, sms_sms_cb-returns}
use openbsc.SmsQueue.Submit.{sms_submit_pending-full}

program : Unit {0}
unfolding sms_find_pending sms_subscriber_find_pending sms_is_in_pending sms_subscriber_is_pending
    free_entry take_next_sms round_of submit_loop sms_submit_pending push_queue_cb sms_send_next
    on_entry sms_sms_cb sms_queue_start
program = tt

abbrev to_1 : Sms
to_1 = record { id = 11; receiver = 1 }

abbrev to_2 : Sms
to_2 = record { id = 12; receiver = 2 }

abbrev db : Db
db = record {
  unsent_by_subscr = λ n. if ltb n 2 then some to_1 else if n == 2 then some to_2 else none;
  unsent_for_subscr = λ n. none;
  sms_get = λ id. none;
}

-- One message may be pending, and is.
abbrev full : Queue
full = (sms_queue_start db 1).0

one_sent : (sms_queue_start db 1).1 ≡ to_1 ∷ []
unfolding program
one_sent = refl

all_sent : (sms_queue_start db 5).1 ≡ to_1 ∷ to_2 ∷ []
unfolding program
all_sent = refl

-- The delivery of the first message starts that of the next.
abbrev sent_of : Option Result → List Sms
sent_of none = []
sent_of (some r) = r.1

delivery : sent_of (sms_sms_cb db delivered (some to_1) full) ≡ to_2 ∷ []
unfolding program
delivery = refl

sms_submit_pending-full_example :
    ((sms_submit_pending db full).1 ≡ to_2 ∷ []) × (1 < (sms_submit_pending db full).0.pending)
unfolding program
sms_submit_pending-full_example =
    sms_submit_pending-full db full to_2 (omega arith)
      (record { next = refl; new_sms = refl; new_receiver = refl })

-- The tables of this data base: the extensions 101 and 102 belong to the subscribers 1 and 2.
abbrev owner : ℕ → ℕ
owner ext = ext - 100

abbrev dest_of : ℕ → ℕ
dest_of id = id + 90

stored : Stored owner dest_of
stored = record {
  active = record { id = 2; extension = 102; lac = 1 } ∷ [];
  sms =
      record { id = 11; dest_addr = 101; sent = false; deliver_attempts = 0 }
      ∷ record { id = 12; dest_addr = 102; sent = false; deliver_attempts = 0 }
      ∷ [];
  subscribers =
      record { id = 1; extension = 101; lac = 1 }
      ∷ record { id = 2; extension = 102; lac = 1 }
      ∷ [];
  sms_get = λ id. none;
  active_owned = (omega arith, tt);
  owned = (omega arith, (omega arith, tt));
  addressed = (omega arith, (omega arith, tt));
}

tables : Unit {0}
unfolding stored find_extension subscr_get_by_extension first_unsent first_by
tables = tt

-- The queries return the two messages.
found_messages :
    (map (db_of owner dest_of stored).unsent_by_subscr (0 ∷ 2 ∷ 3 ∷ [])
      ≡ some to_1 ∷ some to_2 ∷ none ∷ [])
    × ((db_of owner dest_of stored).unsent_for_subscr 2 ≡ some to_2)
unfolding tables
found_messages = (refl, refl)

abbrev filled : Queue
filled = (sms_queue_start (db_of owner dest_of stored) 1).0

sms_sms_cb-returns_example :
    IsSane (receiver_of owner dest_of) filled
    × ((r : Result) × (sms_sms_cb (db_of owner dest_of stored) delivered (some to_1) filled
          ≡ some r))
sms_sms_cb-returns_example =
    sms_sms_cb-returns owner dest_of filled stored delivered (some to_1) (Reachable.starts stored 1)
