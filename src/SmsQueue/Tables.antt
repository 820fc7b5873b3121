-- ===== src/SmsQueue/Tables.antt =====
-- openbsc/src/libmsc/db.c: the queries for the messages of the queue, over the tables of messages and
-- of subscribers, each in the order of its identifiers, in which the queries sort.
--
-- Extensions are numbers. `active` are the subscribers in memory, which
-- openbsc/src/libmsc/gsm_subscriber.c searches before the table. The query for one message by its
-- identifier is a parameter.
use mathlib.Core.Path.{subst}
use openbsc.Base.{
  ℕ, ◌≡◌, sym, ap, ◌∙◌, inl, inr, Bool, true, not, ◌&&◌, Option, none, some, List, [], ◌∷◌, ltb,
  leb, ◌==◌, if◌then◌else◌, All, Bool-cases, Option-cases, some_inj, ==→eq, arith,
}
use openbsc.SmsQueue.{Sms, Db}
use openbsc.SmsQueue.Sane.{IsDb}

pub record SmsRow : Type 0 where
  pub id : ℕ
  pub dest_addr : ℕ
  pub sent : Bool
  pub deliver_attempts : ℕ

pub record Subscriber : Type 0 where
  pub id : ℕ
  pub extension : ℕ
  pub lac : ℕ

-- The first subscriber with an extension.
unfoldable pub find_extension : List Subscriber → ℕ → Option ℕ
find_extension [] ext = none
find_extension (s ∷ ss) ext =
    let rest = find_extension ss ext in if s.extension == ext then some s.id else rest

abbrev pub or_else : Option ℕ → Option ℕ → Option ℕ
or_else none o = o
or_else (some n) o = some n

unfoldable pub subscr_get_by_extension : List Subscriber → List Subscriber → ℕ → Option ℕ
unfolding find_extension
subscr_get_by_extension active table ext =
    or_else (find_extension active ext) (find_extension table ext)

-- A row that the join of the two tables has, so that there is a receiver.
abbrev pub sms_of : SmsRow → Option ℕ → Option Sms
sms_of m none = none
sms_of m (some receiver) = some (record { id = m.id; receiver = receiver })

-- The first unsent message to the subscriber that passes the test.
unfoldable pub first_unsent : (SmsRow → Bool) → Subscriber → List SmsRow → Option SmsRow
first_unsent test s [] = none
first_unsent test s (m ∷ ms) =
    let rest = first_unsent test s ms in
    if m.dest_addr == s.extension && not m.sent && ltb 0 s.lac && test m then some m else rest

-- The first such message of the first subscriber that passes a test and has one.
unfoldable pub first_by :
    (Subscriber → Bool) → (SmsRow → Bool) → List SmsRow → List Subscriber → Option SmsRow
unfolding first_unsent
first_by subscriber_test test ms [] = none
first_by subscriber_test test ms (s ∷ ss) =
    let rest = first_by subscriber_test test ms ss in
    if subscriber_test s
    then elim (first_unsent test s ms) [ none ↦ rest | some m ↦ some m ]
    else rest

module _ (active : List Subscriber) (sms : List SmsRow) (subscribers : List Subscriber) where
  abbrev pub sms_from_result : Option SmsRow → Option Sms
  sms_from_result none = none
  sms_from_result (some m) = sms_of m (subscr_get_by_extension active subscribers m.dest_addr)

  abbrev pub db_sms_get_unsent_by_subscr : ℕ → ℕ → Option Sms
  db_sms_get_unsent_by_subscr min_subscr_id failed =
      sms_from_result (
        first_by (λ s. leb min_subscr_id s.id) (λ m. ltb m.deliver_attempts failed) sms subscribers)

  abbrev pub db_sms_get_unsent_for_subscr : ℕ → Option Sms
  db_sms_get_unsent_for_subscr subscr =
      sms_from_result (first_by (λ s. s.id == subscr) (λ m. true) sms subscribers)

  -- What `sms_queue.c` asks for.
  abbrev pub queries : (ℕ → Option Sms) → Db
  queries sms_get = record {
    unsent_by_subscr = λ n. db_sms_get_unsent_by_subscr n 10;
    unsent_for_subscr = db_sms_get_unsent_for_subscr;
    sms_get = sms_get;
  }

-- The extensions belong to the subscribers of `owner`, and the messages go to those of `dest_of`.
abbrev pub IsOwned : (ℕ → ℕ) → List Subscriber → Type 0
IsOwned owner ss = All (λ s. s.id ≡ owner s.extension) ss

abbrev pub IsAddressed : (ℕ → ℕ) → List SmsRow → Type 0
IsAddressed dest_of ms = All (λ m. m.dest_addr ≡ dest_of m.id) ms

find_extension-IsOwned :
    (owner : ℕ → ℕ) (ss : List Subscriber) (ext n : ℕ)
    → IsOwned owner ss
    → find_extension ss ext ≡ some n
    → n ≡ owner ext
unfolding find_extension
find_extension-IsOwned owner [] ext n o e = absurd (ground (arith, e))
find_extension-IsOwned owner (s ∷ ss) ext n o e = elim (Bool-cases (s.extension == ext)) [
  | inl t ↦
      let found : some s.id ≡ some n = rw t at e in
      sym (some_inj found) ∙ o.0 ∙ ap owner (==→eq s.extension ext t)
  | inr t ↦ find_extension-IsOwned owner ss ext n o.1 (rw t at e)
]

-- What a message that was found tells of its row and its subscriber.
record Found (P : SmsRow → Type 0) (Q : Subscriber → Type 0) (test : Subscriber → Bool) (m : SmsRow)
    : Type 0 where
  row : P m
  subscriber : Subscriber
  passes : test subscriber ≡ true
  known : Q subscriber
  addressed : m.dest_addr ≡ subscriber.extension

first_unsent-Found :
    (P : SmsRow → Type 0) (test : SmsRow → Bool) (s : Subscriber) (ms : List SmsRow) (m : SmsRow)
    → All P ms
    → first_unsent test s ms ≡ some m
    → P m × (m.dest_addr ≡ s.extension)
unfolding first_unsent
first_unsent-Found P test s [] m a e = absurd (ground (arith, e))
first_unsent-Found P test s (x ∷ ms) m a e =
    elim (Bool-cases (x.dest_addr == s.extension && not x.sent && ltb 0 s.lac && test x)) [
      | inl t ↦
          let same : x ≡ m = some_inj (rw t at e) in
          subst (λ y. P y × (y.dest_addr ≡ s.extension)) same
            (a.0, ==→eq x.dest_addr s.extension (ground (arith, t)))
      | inr t ↦ first_unsent-Found P test s ms m a.1 (rw t at e)
    ]

first_by-Found :
    (P : SmsRow → Type 0) (Q : Subscriber → Type 0) (subscriber_test : Subscriber → Bool)
    (test : SmsRow → Bool) (ms : List SmsRow) (ss : List Subscriber) (m : SmsRow)
    → All P ms
    → All Q ss
    → first_by subscriber_test test ms ss ≡ some m
    → Found P Q subscriber_test m
unfolding first_by
first_by-Found P Q subscriber_test test ms [] m a b e = absurd (ground (arith, e))
first_by-Found P Q subscriber_test test ms (s ∷ ss) m a b e =
    elim (Bool-cases (subscriber_test s)) [
      | inr t ↦ first_by-Found P Q subscriber_test test ms ss m a b.1 (rw t at e)
      | inl t ↦ elim (Option-cases (first_unsent test s ms)) [
        | inl h ↦ first_by-Found P Q subscriber_test test ms ss m a b.1 (rw (t, h) at e)
        | inr (x, h) ↦
            let same : x ≡ m = some_inj (rw (t, h) at e) in
            let (p, q) = first_unsent-Found P test s ms x a h in
            subst (Found P Q subscriber_test) same
              (record { row = p; subscriber = s; passes = t; known = b.0; addressed = q })
      ]
    ]

-- The tables at some time: each extension belongs to the subscriber `owner` of it, in memory and in
-- the table, and each message is addressed to its `dest_of`.
pub record Stored (owner dest_of : ℕ → ℕ) : Type 0 where
  pub active : List Subscriber
  pub sms : List SmsRow
  pub subscribers : List Subscriber
  pub sms_get : ℕ → Option Sms
  pub active_owned : IsOwned owner active
  pub owned : IsOwned owner subscribers
  pub addressed : IsAddressed dest_of sms

module _ (owner dest_of : ℕ → ℕ) where
  abbrev pub db_of : Stored owner dest_of → Db
  db_of st = queries st.active st.sms st.subscribers st.sms_get

  abbrev pub receiver_of : ℕ → ℕ
  receiver_of id = owner (dest_of id)

  by_extension-owner :
      (st : Stored owner dest_of) (ext n : ℕ)
      → subscr_get_by_extension st.active st.subscribers ext ≡ some n
      → n ≡ owner ext
  unfolding subscr_get_by_extension
  by_extension-owner st ext n e = elim (Option-cases (find_extension st.active ext)) [
    | inl h ↦ find_extension-IsOwned owner st.subscribers ext n st.owned (rw h at e)
    | inr (k, h) ↦
        let same : k ≡ n = some_inj (rw h at e) in
        sym same ∙ find_extension-IsOwned owner st.active ext k st.active_owned h
  ]

  sms_of-owner :
      (st : Stored owner dest_of) (m : SmsRow) (x : Sms)
      → sms_from_result st.active st.sms st.subscribers (some m) ≡ some x
      → (x.id ≡ m.id) × (x.receiver ≡ owner m.dest_addr)
  sms_of-owner st m x e =
      elim (Option-cases (subscr_get_by_extension st.active st.subscribers m.dest_addr)) [
        | inl h ↦ absurd (ground (arith, rw h at e))
        | inr (n, h) ↦
            let same = some_inj (rw h at e) in
            (
              ap (λ (y : Sms). y.id) (sym same),
              ap (λ (y : Sms). y.receiver) (sym same) ∙ by_extension-owner st m.dest_addr n h,
            )
      ]

  -- What a query that joins the tables returns.
  joined :
      (st : Stored owner dest_of) (subscriber_test : Subscriber → Bool) (test : SmsRow → Bool)
      (x : Sms)
      → sms_from_result st.active st.sms st.subscribers
          (first_by subscriber_test test st.sms st.subscribers)
        ≡ some x
      → (x.receiver ≡ receiver_of x.id)
        × ((s : Subscriber) × (subscriber_test s ≡ true) × (x.receiver ≡ s.id))
  joined st subscriber_test test x e =
      elim (Option-cases (first_by subscriber_test test st.sms st.subscribers)) [
        | inl h ↦ absurd (ground (arith, rw h at e))
        | inr (m, h) ↦
            let f =
              first_by-Found (λ m. m.dest_addr ≡ dest_of m.id) (λ s. s.id ≡ owner s.extension)
                subscriber_test test st.sms st.subscribers m st.addressed st.owned h in
            let (i, r) = sms_of-owner st m x (rw h at e) in
            (
              r ∙ ap owner (f.row ∙ ap dest_of (sym i)),
              (f.subscriber, f.passes, r ∙ ap owner f.addressed ∙ sym f.known),
            )
      ]

  -- The queries return messages with the receivers that they have, and for a subscriber one to it.
  pub db_of-IsDb : (st : Stored owner dest_of) → IsDb receiver_of (db_of st)
  db_of-IsDb st = record {
    by_subscr = λ n m e. (joined st (λ s. leb n s.id) (λ r. ltb r.deliver_attempts 10) m e).0;
    for_subscr = λ n m e.
        let (r, (s, passes, own)) = joined st (λ s. s.id == n) (λ r. true) m e in
        (r, own ∙ ==→eq s.id n passes);
  }
