-- ===== src/Auth/Security.antt =====
-- openbsc/src/libmsc/gsm_04_08.c, `gsm48_secure_channel` with the authentication messages of the
-- phone, and `msc_ciph_m_compl` of openbsc/src/libmsc/osmo_msc.c: the security operation of a
-- connection.
--
-- A handler's outputs are what it sends and whom it calls, in order. The callback of an operation
-- is told and taken to leave the operation alone, as those of the source do; like the sending
-- functions it returns 0. `rc` is the absolute value of a return code. The identifiers of the
-- information elements and causes are those of 3GPP TS 24.008.
use openbsc.Base.{
  ℕ, ◌+◌, ◌-◌, Bool, true, false, not, ◌&&◌, ◌||◌, Option, none, some, List, [], ◌∷◌, ◌++◌, length,
  get_or, take, drop, if◌then◌else◌, ltb, ◌==◌,
}
use openbsc.Auth.{
  AuthTuple, AuthAction, auth_error, auth_not_avail, auth_do_auth_then_ciph, auth_do_ciph,
  auth_do_auth, AuthRows, auth_get_tuple_for_subscr,
}

pub data SecurityEvent : Type 0 where
  noavail auth_failed succeeded already : SecurityEvent

-- An authentication request with its number and key sequence, an authentication reject, the command
-- to cipher with an algorithm and a key, the call of the callback, `msc_release_connection`.
pub data Output : Type 0 where
  auth_req : List ℕ → ℕ → Output
  auth_rej : Output
  cipher_mode : ℕ → List ℕ → Output
  told : SecurityEvent → Output
  released : Output

-- `struct gsm_security_operation`; whether it has a callback.
pub record SecurityOperation : Type 0 where
  pub atuple : AuthTuple
  pub has_cb : Bool

-- The part of `struct gsm_subscriber_connection` that is used, with its network's `a5_encryption`,
-- its channel's `encr`, and the rows of its subscriber.
pub record Conn : Type 0 where
  pub has_subscr : Bool
  pub a5_encryption : ℕ
  pub alg_id : ℕ
  pub encr_key : List ℕ
  pub rows : AuthRows
  pub sec_operation : Option SecurityOperation

pub record Reply : Type 0 where
  pub after : Conn
  pub rc : ℕ
  pub outputs : List Output

unfoldable pub tell : Bool → SecurityEvent → List Output
tell has_cb e = if has_cb then told e ∷ [] else []

unfoldable pub release_security_operation : Conn → Conn × List Output
release_security_operation c = elim c.sec_operation [
  | none ↦ (c, [])
  | some op ↦ (record c { sec_operation = none }, released ∷ [])
]

-- The end of a handler after the outputs so far.
unfoldable pub release_after : Conn → ℕ → List Output → Reply
unfolding release_security_operation
release_after c rc outputs =
    let r = release_security_operation c in
    record { after = r.0; rc = rc; outputs = outputs ++ r.1 }

-- `gsm0808_cipher_mode` of openbsc/src/libbsc/bsc_api.c: the algorithm of the channel, which is
-- `RSL_ENC_ALG_A5` of the network's, the key, which has eight octets, and the command.
unfoldable pub gsm0808_cipher_mode : Conn → List ℕ → Reply
gsm0808_cipher_mode c kc = record {
  after = record c { alg_id = c.a5_encryption + 1; encr_key = kc };
  rc = 0;
  outputs = cipher_mode c.a5_encryption kc ∷ [];
}

-- What the phone may be asked for; 1 is `RSL_ENC_ALG_A5(0)`.
unfoldable pub cannot_secure : Conn → Bool → Option SecurityEvent
cannot_secure c cm2_support =
    if c.a5_encryption == 0
    then some noavail
    else if ltb 1 c.alg_id
    then some already
    else if not cm2_support
    then some noavail
    else none

-- The start of an operation with a tuple; 22 is EINVAL.
unfoldable pub start_operation : Conn → Bool → AuthTuple → AuthAction → Reply
unfolding gsm0808_cipher_mode
start_operation c has_cb t action =
    let begun = record c { sec_operation = some (record { atuple = t; has_cb = has_cb }) } in
    elim action [
      | auth_do_auth_then_ciph ↦ record {
        after = begun;
        rc = 0;
        outputs = auth_req t.rand t.key_seq ∷ [];
      }
      | auth_do_ciph ↦ gsm0808_cipher_mode begun t.kc
      | _ ↦ record { after = begun; rc = 22; outputs = [] }
    ]

-- From `Start an operation` on, with a tuple; 16 is EBUSY.
unfoldable pub start_unless_busy :
    Conn → Bool → AuthTuple → AuthAction → Option SecurityOperation → Reply
unfolding start_operation
start_unless_busy c has_cb t action (some op) = record { after = c; rc = 16; outputs = [] }
start_unless_busy c has_cb t action none = start_operation c has_cb t action

-- What is done with the result of `auth_get_tuple_for_subscr`.
unfoldable pub secure_with : Conn → Bool → AuthTuple → AuthAction → Reply
unfolding tell start_unless_busy
secure_with c has_cb t auth_error = record { after = c; rc = 0; outputs = tell has_cb noavail }
secure_with c has_cb t auth_not_avail = record { after = c; rc = 0; outputs = tell has_cb noavail }
secure_with c has_cb t auth_do_auth_then_ciph =
    start_unless_busy c has_cb t auth_do_auth_then_ciph c.sec_operation
secure_with c has_cb t auth_do_ciph = start_unless_busy c has_cb t auth_do_ciph c.sec_operation
secure_with c has_cb t auth_do_auth = start_unless_busy c has_cb t auth_do_auth c.sec_operation

-- `GSM 04.08 AUTHENTICATION RESPONSE`: the octets of layer 3, two of which are the header.
unfoldable pub parse_gsm_auth_resp : List ℕ → Option (List ℕ)
parse_gsm_auth_resp l3 = if ltb (length l3) 6 then none else some (take 4 (drop 2 l3))

-- An element that is longer than the rest of the message is cut off here; the source reads on.
unfoldable pub parse_umts_auth_resp : List ℕ → Option (List ℕ)
unfolding parse_gsm_auth_resp
parse_umts_auth_resp l3 =
    let data_ = drop 6 l3 in
    let ie_len = get_or data_ 1 0 in
    elim (parse_gsm_auth_resp l3) [
      | none ↦ none
      | some res ↦
          if ltb (length l3 - 6) 3 || not (get_or data_ 0 0 == 33) || ltb 12 ie_len
          then none
          else some (res ++ take ie_len (drop 2 data_))
    ]

unfoldable pub parse_auth_resp : List ℕ → Option (List ℕ)
unfolding parse_gsm_auth_resp parse_umts_auth_resp
parse_auth_resp l3 = if ltb 6 (length l3) then parse_umts_auth_resp l3 else parse_gsm_auth_resp l3

-- `memcmp` of two arrays.
unfoldable pub same_bytes : List ℕ → List ℕ → Bool
same_bytes [] [] = true
same_bytes (x ∷ xs) (y ∷ ys) = x == y && same_bytes xs ys
same_bytes _ _ = false

-- From the safety check on; 5 is EIO.
unfoldable pub validate : Conn → List ℕ → Option SecurityOperation → Reply
unfolding same_bytes tell release_after gsm0808_cipher_mode
validate c res none = record { after = c; rc = 5; outputs = [] }
validate c res (some op) =
    if not (same_bytes op.atuple.sres (take 4 res))
    then release_after c 0 (tell op.has_cb auth_failed ++ auth_rej ∷ [])
    else gsm0808_cipher_mode c op.atuple.kc

unfoldable pub gsm48_rx_mm_auth_resp : Conn → List ℕ → Reply
unfolding parse_auth_resp validate release_after
gsm48_rx_mm_auth_resp c l3 =
    if not c.has_subscr then release_after c 22 (auth_rej ∷ []) else elim (parse_auth_resp l3) [
      | none ↦ release_after c 22 (auth_rej ∷ [])
      | some res ↦ validate c res c.sec_operation
    ]

-- The return code for an authentication failure of a subscriber; 21 is the synch failure.
unfoldable pub failure_rc : List ℕ → ℕ
failure_rc l3 =
    if ltb (length l3) 3
    then 22
    else if not (get_or l3 2 0 == 21)
    then 0
    else if ltb (length l3) 5
    then 22
    else if not (get_or l3 3 0 == 34) || not (get_or l3 4 0 == 14)
    then 22
    else if ltb (length l3) 19
    then 22
    else 0

unfoldable pub fail_with : Conn → List ℕ → Option SecurityOperation → Reply
unfolding failure_rc release_after
fail_with c l3 none = record { after = c; rc = 22; outputs = [] }
fail_with c l3 (some op) =
    release_after c (if not c.has_subscr then 22 else failure_rc l3) (auth_rej ∷ [])

unfoldable pub gsm48_rx_mm_auth_fail : Conn → List ℕ → Reply
unfolding fail_with
gsm48_rx_mm_auth_fail c l3 = fail_with c l3 c.sec_operation

-- The operation's part of `gsm0408_clear_request`, and `msc_ciph_m_compl`.
unfoldable pub finish_with : Conn → SecurityEvent → Option SecurityOperation → Reply
unfolding tell release_after
finish_with c e none = record { after = c; rc = 0; outputs = [] }
finish_with c e (some op) = release_after c 0 (tell op.has_cb e)

unfoldable pub clear_security : Conn → Reply
unfolding finish_with
clear_security c = finish_with c auth_failed c.sec_operation

unfoldable pub msc_ciph_m_compl : Conn → Reply
unfolding finish_with
msc_ciph_m_compl c = finish_with c succeeded c.sec_operation

-- What happens on a connection; a request gives the key sequence of the phone, its support of the
-- algorithm, whether there is a callback, and what the source of random numbers will return.
pub data Event : Type 0 where
  secure : ℕ → Bool → Bool → Option (List ℕ) → Event
  auth_resp auth_fail : List ℕ → Event
  ciph_compl clear : Event

module _ (comp128 comp128v2 comp128v3 : List ℕ → List ℕ → List ℕ × List ℕ)
    (memory : AuthTuple) where
  unfoldable pub gsm48_secure_channel : Conn → ℕ → Bool → Bool → Option (List ℕ) → Reply
  unfolding cannot_secure secure_with tell auth_get_tuple_for_subscr
  gsm48_secure_channel c key_seq cm2_support has_cb rand = elim (cannot_secure c cm2_support) [
    | some e ↦ record { after = c; rc = 0; outputs = tell has_cb e }
    | none ↦
        let o = auth_get_tuple_for_subscr comp128 comp128v2 comp128v3 memory c.rows key_seq rand in
        secure_with (record c { rows = o.rows }) has_cb o.atuple o.action
  ]

  unfoldable pub handle : Conn → Event → Reply
  unfolding gsm48_secure_channel gsm48_rx_mm_auth_resp gsm48_rx_mm_auth_fail msc_ciph_m_compl
      clear_security
  handle c (secure key_seq support has_cb rand) = gsm48_secure_channel c key_seq support has_cb rand
  handle c (auth_resp l3) = gsm48_rx_mm_auth_resp c l3
  handle c (auth_fail l3) = gsm48_rx_mm_auth_fail c l3
  handle c ciph_compl = msc_ciph_m_compl c
  handle c clear = clear_security c
