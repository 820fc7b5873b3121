-- ===== src/Oap/Tests.antt =====
-- A client whose vectors are computed from the received numbers, in an exchange with its server.
use openbsc.Base.{ℕ, ◌+◌, ◌≤◌, ◌≡◌, refl, Option, none, some, List, [], ◌∷◌, replicate, arith}
use openbsc.Oap.{
  OapClientState, uninitialized, initialized, requested_challenge, OapMessage, challenge_request,
  register_error, AuthVector, oap_client_init, empty_message, oap_msg_register, register_with,
  oap_client_register, same_octets, answer, oap_evaluate_challenge, handle_challenge,
  handle_message, oap_client_handle, oap_msg_challenge_response,
}
use openbsc.Oap.Authentic.{response, Authentic, oap_client_handle-Authentic}
use openbsc.Oap.Handle.{requests, handle_all, handle_all-requests}

program : Unit {0}
unfolding oap_client_init register_with oap_msg_register oap_client_register same_octets answer
    oap_evaluate_challenge handle_challenge handle_message oap_client_handle
    oap_msg_challenge_response empty_message response requests
program = tt

-- A generator whose AUTN is the number received, and whose result is the first octets of the key.
abbrev gen_vec : List ℕ → List ℕ → List ℕ → AuthVector
gen_vec k opc rand = record { res = replicate 8 7; autn = rand }

-- The message of one octet is a registration error, any other a challenge.
abbrev decode : List ℕ → Option OapMessage
decode [] = none
decode (x ∷ []) = some (empty_message register_error)
decode (x ∷ y ∷ l) =
    some (record (empty_message challenge_request) {
      rand = some (x ∷ y ∷ l);
      autn = some (x ∷ y ∷ l);
    })

abbrev blank : OapClientState
blank = record {
  state = uninitialized;
  client_id = 0;
  secret_k = [];
  secret_opc = [];
  registration_failures = 0;
}

abbrev client : OapClientState
client = record {
  state = requested_challenge;
  client_id = 5;
  secret_k = replicate 16 1;
  secret_opc = replicate 16 2;
  registration_failures = 0;
}

init_client :
    oap_client_init
      (some (record {
        client_id = 5;
        secret_k = some (replicate 16 1);
        secret_opc = some (replicate 16 2);
      }))
      blank
    ≡ some (record client { state = initialized })
unfolding program
init_client = refl

handle_all-requests_example :
    (handle_all gen_vec decode client ((1 ∷ []) ∷ (1 ∷ 2 ∷ []) ∷ (1 ∷ []) ∷ [])).1 + 0 ≤ 3
handle_all-requests_example =
    handle_all-requests gen_vec decode client ((1 ∷ []) ∷ (1 ∷ 2 ∷ []) ∷ (1 ∷ []) ∷ [])
      (omega arith)

oap_client_handle-Authentic_example :
    (rx : OapMessage) × (decode (3 ∷ 4 ∷ []) ≡ some rx)
    × Authentic gen_vec client rx (replicate 8 7)
unfolding program
oap_client_handle-Authentic_example =
    oap_client_handle-Authentic gen_vec decode client (3 ∷ 4 ∷ []) refl
