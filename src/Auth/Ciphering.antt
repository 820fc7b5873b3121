-- ===== src/Auth/Ciphering.antt =====
-- openbsc/src/libmsc/gsm_04_08.c: what a connection must have received before ciphering starts, and
-- the ends of its security operation.
use openbsc.Base.{
  ℕ, ◌<◌, ◌≡◌, ◌≢◌, refl, sym, ap, ◌∙◌, inl, inr, Bool, true, false, not, Option, none, some,
  some_inj, List, [], ◌∷◌, ◌++◌, length, take, drop, Bool-cases, Option-cases, if◌then◌else◌,
}
use openbsc.Auth.{
  AuthTuple, AuthAction, auth_error, auth_not_avail, auth_do_auth_then_ciph, auth_do_ciph,
  auth_do_auth, found, auth_get_tuple_for_subscr,
}
use openbsc.Auth.Tuples.{auth_get_tuple_for_subscr-Handed}
use openbsc.Auth.Security.{
  SecurityEvent, noavail, auth_failed, succeeded, Output, auth_rej, released, SecurityOperation,
  Conn, tell, release_security_operation, release_after, gsm0808_cipher_mode, cannot_secure,
  start_operation, start_unless_busy, secure_with, parse_gsm_auth_resp, parse_auth_resp, same_bytes,
  validate, gsm48_rx_mm_auth_resp, fail_with, gsm48_rx_mm_auth_fail, failure_rc, finish_with, Event,
  secure, auth_resp, auth_fail, ciph_compl, clear, gsm48_secure_channel, handle,
}
use openbsc.Auth.Response.{
  key_sent-tell, key_sent-release_after, take-take_self, same_bytes_eq, none-some,
  parse_auth_resp_lem, validate_lem, key_sent,
}

-- What justifies ciphering with a key: a request whose key sequence is that of the stored tuple, or
-- a response that begins with the expected octets of the operation.
unfoldable pub Justified : Conn → Event → List ℕ → Type 0
Justified c (secure key_seq support has_cb rand) kc =
    (t : AuthTuple) × (c.rows.last_tuple ≡ found t)
    × (key_seq ≡ t.key_seq)
    × (key_seq ≢ 7)
    × (t.use_count < 3)
    × (kc ≡ t.kc)
    × (c.sec_operation ≡ none)
    × (cannot_secure c support ≡ none)
Justified c (auth_resp l3) kc =
    (op : SecurityOperation) × (c.sec_operation ≡ some op)
    × (kc ≡ op.atuple.kc)
    × (op.atuple.sres ≡ take 4 (drop 2 l3))
    × (c.has_subscr ≡ true)
Justified c (auth_fail l3) kc = ⊥
Justified c ciph_compl kc = ⊥
Justified c clear kc = ⊥

rx_mm_auth_resp_lem :
    (c : Conn) (l3 : List ℕ) {kc : List ℕ}
    → key_sent (gsm48_rx_mm_auth_resp c l3).outputs ≡ some kc
    → Justified c (auth_resp l3) kc
unfolding gsm48_rx_mm_auth_resp Justified key_sent
rx_mm_auth_resp_lem c l3 {kc} e = elim (Bool-cases c.has_subscr) [
  | inr absent ↦ absurd (
      none-some (
        sym (key_sent-release_after _ 22 (auth_rej ∷ []) refl)
        ∙ rw (gsm48_rx_mm_auth_resp, absent) at e))
  | inl present ↦ elim (Option-cases (parse_auth_resp l3)) [
    | inl h ↦ absurd (
        none-some (
          sym (key_sent-release_after _ 22 (auth_rej ∷ []) refl)
          ∙ rw (gsm48_rx_mm_auth_resp, present, h) at e))
    | inr (res, h) ↦
        let (op, pending, key, same) =
          validate_lem _ res c.sec_operation (rw (gsm48_rx_mm_auth_resp, present, h) at e) in
        (op, pending, key, same ∙ parse_auth_resp_lem l3 h, present)
  ]
]

fail_with_lem :
    (c : Conn) (l3 : List ℕ) (pending : Option SecurityOperation)
    → key_sent (fail_with c l3 pending).outputs ≡ none
unfolding fail_with key_sent
fail_with_lem c l3 none = refl
fail_with_lem c l3 (some op) =
    key_sent-release_after c (if not c.has_subscr then 22 else failure_rc l3) (auth_rej ∷ []) refl

finish_with_lem :
    (c : Conn) (e : SecurityEvent) (pending : Option SecurityOperation)
    → key_sent (finish_with c e pending).outputs ≡ none
unfolding finish_with key_sent
finish_with_lem c e none = refl
finish_with_lem c e (some op) =
    key_sent-release_after c 0 (tell op.has_cb e) (key_sent-tell op.has_cb e)

start_unless_busy_lem :
    (c : Conn) (has_cb : Bool) (t : AuthTuple) (a : AuthAction) (pending : Option SecurityOperation)
    {kc : List ℕ}
    → key_sent (start_unless_busy c has_cb t a pending).outputs ≡ some kc
    → (a ≡ auth_do_ciph) × (kc ≡ t.kc) × (pending ≡ none)
unfolding start_unless_busy start_operation key_sent gsm0808_cipher_mode
start_unless_busy_lem c has_cb t a (some op) e = absurd (none-some e)
start_unless_busy_lem c has_cb t auth_do_ciph none e = (refl, sym (some_inj e), refl)
start_unless_busy_lem c has_cb t auth_do_auth_then_ciph none e = absurd (none-some e)
start_unless_busy_lem c has_cb t auth_error none e = absurd (none-some e)
start_unless_busy_lem c has_cb t auth_not_avail none e = absurd (none-some e)
start_unless_busy_lem c has_cb t auth_do_auth none e = absurd (none-some e)

secure_with_lem :
    (c : Conn) (has_cb : Bool) (t : AuthTuple) (a : AuthAction) {kc : List ℕ}
    → key_sent (secure_with c has_cb t a).outputs ≡ some kc
    → (a ≡ auth_do_ciph) × (kc ≡ t.kc) × (c.sec_operation ≡ none)
unfolding secure_with
secure_with_lem c has_cb t auth_error e =
    absurd (none-some (sym (key_sent-tell has_cb noavail) ∙ e))
secure_with_lem c has_cb t auth_not_avail e =
    absurd (none-some (sym (key_sent-tell has_cb noavail) ∙ e))
secure_with_lem c has_cb t auth_do_ciph e = start_unless_busy_lem c has_cb t _ c.sec_operation e
secure_with_lem c has_cb t auth_do_auth_then_ciph e =
    start_unless_busy_lem c has_cb t _ c.sec_operation e
secure_with_lem c has_cb t auth_do_auth e = start_unless_busy_lem c has_cb t _ c.sec_operation e

release_after_lem :
    (c : Conn) (op : SecurityOperation) (rc : ℕ) (l : List Output)
    → c.sec_operation ≡ some op
    → ((release_after c rc l).after ≡ record c { sec_operation = none })
      × ((release_after c rc l).outputs ≡ l ++ released ∷ [])
unfolding release_after release_security_operation
release_after_lem c op rc l h = (rw h refl, rw h refl)

append_assoc : (a b d : List Output) → (a ++ b) ++ d ≡ a ++ (b ++ d)
append_assoc [] b d = refl
append_assoc (x ∷ a) b d = ap (λ l. x ∷ l) (append_assoc a b d)

validate_refuses :
    (c : Conn) (op : SecurityOperation) (res : List ℕ)
    → c.sec_operation ≡ some op
    → op.atuple.sres ≢ take 4 res
    → ((validate c res (some op)).after ≡ record c { sec_operation = none })
      × ((validate c res (some op)).outputs
          ≡ tell op.has_cb auth_failed ++ auth_rej ∷ released ∷ [])
unfolding validate
validate_refuses c op res h differ = elim (Bool-cases (same_bytes op.atuple.sres (take 4 res))) [
  | inl same ↦ absurd (differ (same_bytes_eq _ _ same))
  | inr unlike ↦
      let told_so = tell op.has_cb auth_failed in
      let (a, o) = release_after_lem c op 0 (told_so ++ auth_rej ∷ []) h in
      rw unlike (a, o ∙ append_assoc told_so (auth_rej ∷ []) (released ∷ []))
]

parse_six : (l : List ℕ) → length l ≡ 6 → parse_auth_resp l ≡ some (take 4 (drop 2 l))
unfolding parse_auth_resp parse_gsm_auth_resp
parse_six l e = rw e refl

resp_validates :
    (c : Conn) (op : SecurityOperation) (l3 : List ℕ)
    → c.sec_operation ≡ some op
    → c.has_subscr ≡ true
    → length l3 ≡ 6
    → gsm48_rx_mm_auth_resp c l3 ≡ validate c (take 4 (drop 2 l3)) (some op)
unfolding gsm48_rx_mm_auth_resp
resp_validates c op l3 h present long =
    let parsed : parse_auth_resp l3 ≡ some (take 4 (drop 2 l3)) = parse_six l3 long in
    by_subscr c.has_subscr present parsed ∙ ap (validate c (take 4 (drop 2 l3))) h
  where
    by_subscr :
        (b : Bool)
        → b ≡ true
        → parse_auth_resp l3 ≡ some (take 4 (drop 2 l3))
        → (if not b then release_after c 22 (auth_rej ∷ []) else elim (parse_auth_resp l3) [
          | none ↦ release_after c 22 (auth_rej ∷ [])
          | some res ↦ validate c res c.sec_operation
        ])
          ≡ validate c (take 4 (drop 2 l3)) c.sec_operation
    by_subscr true e p = rw p refl
    by_subscr false e p = absurd cc

-- When an operation is pending for a known subscriber, any AUTHENTICATION FAILURE of the phone
-- rejects and ends it without a call of its callback, while a response of six octets with other
-- than the four expected octets tells the callback of the failure, if there is one, before it
-- rejects and ends the operation.
pub gsm48_rx_mm_auth_fail-untold :
    (c : Conn) (op : SecurityOperation) (failure response : List ℕ)
    → c.sec_operation ≡ some op
    → c.has_subscr ≡ true
    → length response ≡ 6
    → op.atuple.sres ≢ take 4 (drop 2 response)
    → ((gsm48_rx_mm_auth_fail c failure).after ≡ record c { sec_operation = none })
      × ((gsm48_rx_mm_auth_fail c failure).outputs ≡ auth_rej ∷ released ∷ [])
      × ((gsm48_rx_mm_auth_resp c response).after ≡ record c { sec_operation = none })
      × ((gsm48_rx_mm_auth_resp c response).outputs
          ≡ tell op.has_cb auth_failed ++ auth_rej ∷ released ∷ [])
unfolding gsm48_rx_mm_auth_fail fail_with
gsm48_rx_mm_auth_fail-untold c op failure response h present long differ =
    let rc = if not c.has_subscr then 22 else failure_rc failure in
    let failed : gsm48_rx_mm_auth_fail c failure ≡ release_after c rc (auth_rej ∷ []) =
      ap (fail_with c failure) h in
    let (a, o) = release_after_lem c op rc (auth_rej ∷ []) h in
    let validated = resp_validates c op response h present long in
    let (b, p) =
      validate_refuses c op (take 4 (drop 2 response)) h
        (λ e. differ (e ∙ take-take_self 4 (drop 2 response))) in
    (
      ap (λ r. r.after) failed ∙ a,
      ap (λ r. r.outputs) failed ∙ o,
      ap (λ r. r.after) validated ∙ b,
      ap (λ r. r.outputs) validated ∙ p,
    )

module _ (comp128 comp128v2 comp128v3 : List ℕ → List ℕ → List ℕ × List ℕ)
    (memory : AuthTuple) where
  secure_channel_lem :
      (c : Conn) (key_seq : ℕ) (support has_cb : Bool) (rand : Option (List ℕ)) {kc : List ℕ}
      → key_sent
          (gsm48_secure_channel comp128 comp128v2 comp128v3 memory c key_seq support has_cb
            rand).outputs
        ≡ some kc
      → Justified c (secure key_seq support has_cb rand) kc
  unfolding gsm48_secure_channel Justified
  secure_channel_lem c key_seq support has_cb rand {kc} e =
      elim (Option-cases (cannot_secure c support)) [
        | inr (event, h) ↦
            absurd
              (none-some (sym (key_sent-tell has_cb event) ∙ rw (gsm48_secure_channel, h) at e))
        | inl h ↦
            let o =
              auth_get_tuple_for_subscr comp128 comp128v2 comp128v3 memory c.rows key_seq rand in
            let (does, key, idle) =
              secure_with_lem (record c { rows = o.rows }) has_cb o.atuple o.action
                (rw (gsm48_secure_channel, h) at e) in
            let handed =
              auth_get_tuple_for_subscr-Handed comp128 comp128v2 comp128v3 memory c.rows key_seq
                rand in
            let (t, stored, named, valid, few, tuple, _) = handed.again does in
            (t, stored, named, valid, few, key ∙ ap (λ u. u.kc) tuple, idle, h)
      ]

  -- Whatever happens on a connection, a command to cipher with a key is sent only for a request
  -- that names the key sequence of the stored tuple, used fewer than three times, with the key of
  -- that tuple, while no operation is pending and the channel is not secured; or for a response of
  -- a known subscriber that begins with the four octets expected by the pending operation, with the
  -- key of its tuple.
  pub handle-Justified :
      (c : Conn) (event : Event) {kc : List ℕ}
      → key_sent (handle comp128 comp128v2 comp128v3 memory c event).outputs ≡ some kc
      → Justified c event kc
  unfolding handle
  handle-Justified c (secure key_seq support has_cb rand) e =
      secure_channel_lem c key_seq support has_cb rand e
  handle-Justified c (auth_resp l3) e = rx_mm_auth_resp_lem c l3 e
  handle-Justified c (auth_fail l3) e =
      absurd (none-some (sym (fail_with_lem c l3 c.sec_operation) ∙ e))
  handle-Justified c ciph_compl e =
      absurd (none-some (sym (finish_with_lem c succeeded c.sec_operation) ∙ e))
  handle-Justified c clear e =
      absurd (none-some (sym (finish_with_lem c auth_failed c.sec_operation) ∙ e))
