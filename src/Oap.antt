-- ===== src/Oap.antt =====
-- openbsc/src/libcommon/oap_client.c: the client side of the Osmocom Authentication Protocol.
--
-- The decoder of the messages and the generator of authentication vectors belong to libosmocore
-- and are parameters. A message that is handed to the encoder stands for its octets. The functions
-- return 0 or a negative number: `rc` is its absolute value.
pub mod Handle
pub mod Authentic
mod Tests
use openbsc.Base.{
  ℕ, ◌+◌, ◌≡◌, Bool, true, false, not, ◌&&◌, ◌||◌, Option, none, some, List, [], ◌∷◌, length,
  if◌then◌else◌, ltb, ◌==◌,
}

pub data Phase : Type 0 where
  uninitialized disabled initialized requested_challenge sent_challenge_result registered : Phase

pub record OapClientConfig : Type 0 where
  pub client_id : ℕ
  pub secret_k : Option (List ℕ)
  pub secret_opc : Option (List ℕ)

pub record OapClientState : Type 0 where
  pub state : Phase
  pub client_id : ℕ
  pub secret_k : List ℕ
  pub secret_opc : List ℕ
  pub registration_failures : ℕ

pub data MessageType : Type 0 where
  register_request register_error register_result challenge_request : MessageType
  challenge_result : MessageType
  unknown : ℕ → MessageType

-- `struct osmo_oap_message`; a field that is not present is `none`.
pub record OapMessage : Type 0 where
  pub message_type : MessageType
  pub client_id : ℕ
  pub rand : Option (List ℕ)
  pub autn : Option (List ℕ)
  pub xres : Option (List ℕ)

-- The part of `struct osmo_auth_vector` that is used; `res_len` is the length of `res`.
pub record AuthVector : Type 0 where
  pub res : List ℕ
  pub autn : List ℕ

-- The state after a call, its return code and the message to send.
pub record Reply : Type 0 where
  pub after : OapClientState
  pub rc : ℕ
  pub msg_tx : Option OapMessage

-- `oap_client_init`, which is called on an uninitialized state: otherwise the assertion fails.
unfoldable pub oap_client_init : Option OapClientConfig → OapClientState → Option OapClientState
oap_client_init config s =
    let off = some (record s { state = disabled }) in
    elim s.state [
      | uninitialized ↦ elim config [
        | none ↦ off
        | some c ↦ if c.client_id == 0 then off else elim c.secret_k [
          | none ↦ off
          | some k ↦ elim c.secret_opc [
            | none ↦ off
            | some opc ↦ some (record s {
              client_id = c.client_id;
              secret_k = k;
              secret_opc = opc;
              state = initialized;
            })
          ]
        ]
      ]
      | _ ↦ none
    ]

unfoldable pub empty_message : MessageType → OapMessage
empty_message t = record { message_type = t; client_id = 0; rand = none; autn = none; xres = none }

unfoldable pub oap_msg_register : ℕ → Option OapMessage
oap_msg_register client_id =
    if ltb client_id 1
    then none
    else some (record (empty_message register_request) { client_id = client_id })

unfoldable pub register_with : OapClientState → Option OapMessage → Reply
register_with s none = record { after = s; rc = 1; msg_tx = none }
register_with s (some m) = record {
  after = record s { state = requested_challenge };
  rc = 0;
  msg_tx = some m;
}

unfoldable pub oap_client_register : OapClientState → Reply
unfolding register_with
oap_client_register s = register_with s (oap_msg_register s.client_id)

unfoldable pub oap_msg_challenge_response : List ℕ → OapMessage
oap_msg_challenge_response xres = record (empty_message challenge_result) { xres = some xres }

abbrev pub is_off : Phase → Bool
is_off p = elim p [ uninitialized ↦ true | disabled ↦ true | _ ↦ false ]

-- The comparison of the octets of two numbers' lists, `osmo_constant_time_cmp`.
unfoldable pub same_octets : List ℕ → List ℕ → Bool
same_octets [] [] = true
same_octets (x ∷ xs) (y ∷ ys) = x == y && same_octets xs ys
same_octets _ _ = false

-- The result of `oap_evaluate_challenge`: the reply octets, or the code of the failure.
pub data Verdict : Type 0 where
  accepted : List ℕ → Verdict
  refused : ℕ → Verdict

-- The end of `handle_challenge`: the label `failure`, or the reply.
unfoldable pub answer : OapClientState → Verdict → Reply
answer s (refused rc) = record { after = record s { state = initialized }; rc = rc; msg_tx = none }
answer s (accepted xres) = record {
  after = record s { state = sent_challenge_result };
  rc = 0;
  msg_tx = some (oap_msg_challenge_response xres);
}

module _ (gen_vec : List ℕ → List ℕ → List ℕ → AuthVector) where
  unfoldable pub oap_evaluate_challenge : OapClientState → List ℕ → List ℕ → Verdict
  unfolding same_octets
  oap_evaluate_challenge s rx_random rx_autn =
      let vec = gen_vec s.secret_k s.secret_opc rx_random in
      if is_off s.state
      then refused 1
      else if not (length vec.res == 8)
      then refused 3
      else if not (same_octets vec.autn rx_autn)
      then refused 2
      else accepted vec.res

  evaluate_present : OapClientState → Option (List ℕ) → Option (List ℕ) → Verdict
  evaluate_present s none autn = refused 2
  evaluate_present s (some rand) none = refused 2
  evaluate_present s (some rand) (some autn) = oap_evaluate_challenge s rand autn

  unfoldable pub handle_challenge : OapClientState → OapMessage → Reply
  unfolding answer evaluate_present
  handle_challenge s rx = answer s (evaluate_present s rx.rand rx.autn)

  -- The `switch` over the type of the message.
  handle_type : OapClientState → OapMessage → MessageType → Reply
  handle_type s rx challenge_request = handle_challenge s rx
  handle_type s rx register_result = record {
    after = record s { state = registered };
    rc = 0;
    msg_tx = none;
  }
  handle_type s rx register_error =
      if ltb s.registration_failures 3
      then oap_client_register
          (record s { state = initialized; registration_failures = s.registration_failures + 1 })
      else record { after = record s { state = initialized }; rc = 11; msg_tx = none }
  handle_type s rx register_request = record { after = s; rc = 12; msg_tx = none }
  handle_type s rx challenge_result = record { after = s; rc = 12; msg_tx = none }
  handle_type s rx (unknown n) = record { after = s; rc = 13; msg_tx = none }

  unfoldable pub handle_message : OapClientState → OapMessage → Reply
  unfolding handle_type
  handle_message s rx =
      if is_off s.state
      then record { after = s; rc = 107; msg_tx = none }
      else handle_type s rx rx.message_type

  handle_decoded : OapClientState → Option OapMessage → Reply
  handle_decoded s none = record { after = s; rc = 10; msg_tx = none }
  handle_decoded s (some rx) = handle_message s rx

  -- `oap_client_handle`; 107 is ENOTCONN.
  unfoldable pub oap_client_handle : (List ℕ → Option OapMessage) → OapClientState → List ℕ → Reply
  unfolding handle_decoded handle_message
  oap_client_handle decode s msg_rx = handle_decoded s (decode msg_rx)
