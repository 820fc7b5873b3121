-- ===== src/Auth/Tests.antt =====
-- A subscriber with an XOR key, whose phone is authenticated and then names its key sequence.
use openbsc.Base.{
  ℕ, ◌+◌, ◌*◌, ◌≤◌, ◌≡◌, ◌≢◌, refl, true, Option, none, some, List, [], ◌∷◌, ◌++◌, replicate, take,
  drop, ap, get_or, arith,
}
use openbsc.Auth.{
  algo_xor, AuthTuple, found, missing, AuthRows, zero_tuple, xor_octets, use_xor, next_tuple,
  is_reusable, vector_by, new_vector, reuse_or_new, auth_get_tuple_for_subscr,
  db_sync_lastauthtuple_for_subscr,
}
use openbsc.Auth.Tuples.{
  Handed, uses_left, all_calls, auth_get_tuple_for_subscr-Handed, all_calls-lem,
}
use openbsc.Auth.Security.{
  auth_rej, released, auth_failed, SecurityOperation, Conn, tell, release_security_operation,
  release_after, gsm0808_cipher_mode, cannot_secure, start_operation, start_unless_busy,
  secure_with, parse_gsm_auth_resp, parse_auth_resp, same_bytes, validate, gsm48_rx_mm_auth_resp,
  failure_rc, fail_with, gsm48_rx_mm_auth_fail, secure, auth_resp, gsm48_secure_channel, handle,
}
use openbsc.Auth.Response.{key_sent}
use openbsc.Auth.Ciphering.{Justified, gsm48_rx_mm_auth_fail-untold, handle-Justified}

program : Unit {0}
unfolding zero_tuple xor_octets use_xor next_tuple is_reusable vector_by new_vector reuse_or_new
    auth_get_tuple_for_subscr db_sync_lastauthtuple_for_subscr all_calls tell
    release_security_operation release_after gsm0808_cipher_mode cannot_secure start_operation
    start_unless_busy secure_with parse_gsm_auth_resp parse_auth_resp same_bytes validate
    gsm48_rx_mm_auth_resp failure_rc fail_with gsm48_rx_mm_auth_fail gsm48_secure_channel handle
    key_sent Justified
program = tt

abbrev no_comp128 : List ℕ → List ℕ → List ℕ × List ℕ
no_comp128 ki rand = (replicate 4 0, replicate 8 0)

abbrev rows : AuthRows
rows = record {
  keys = found (record { auth_algo = algo_xor; a3a8_ki = replicate 16 1 });
  last_tuple = missing;
}

abbrev memory : AuthTuple
memory = record { use_count = 0; key_seq = 0; rand = []; sres = []; kc = [] }

abbrev calls : List (ℕ × Option (List ℕ))
calls =
    (7, some (replicate 16 2)) ∷ (0, none) ∷ (0, none) ∷ (0, some (replicate 16 4)) ∷ (1, none) ∷ []

counted : all_calls no_comp128 no_comp128 no_comp128 memory rows calls ≡ (2, 3, 1)
unfolding program
counted = refl

all_calls-lem_example :
    (all_calls no_comp128 no_comp128 no_comp128 memory rows calls).1
      + (all_calls no_comp128 no_comp128 no_comp128 memory rows calls).2
    ≤ (all_calls no_comp128 no_comp128 no_comp128 memory rows calls).0 * 2
      + uses_left rows.last_tuple
all_calls-lem_example = all_calls-lem no_comp128 no_comp128 no_comp128 memory rows calls

auth_get_tuple_for_subscr-Handed_example : Handed rows 7 (
    auth_get_tuple_for_subscr no_comp128 no_comp128 no_comp128 memory rows 7
      (some (replicate 16 2)))
auth_get_tuple_for_subscr-Handed_example =
    auth_get_tuple_for_subscr-Handed no_comp128 no_comp128 no_comp128 memory rows 7
      (some (replicate 16 2))

abbrev idle : Conn
idle = record {
  has_subscr = true;
  a5_encryption = 1;
  alg_id = 1;
  encr_key = [];
  rows = rows;
  sec_operation = none;
}

abbrev challenged : Conn
challenged =
    (handle no_comp128 no_comp128 no_comp128 memory idle
      (secure 7 true true (some (replicate 16 2)))).after

-- The response to the number 2 under the key 1.
abbrev right_octets : List ℕ
right_octets = 5 ∷ 84 ∷ replicate 4 3

handle-Justified_example : Justified challenged (auth_resp right_octets) (replicate 8 3)
unfolding program
handle-Justified_example =
    handle-Justified no_comp128 no_comp128 no_comp128 memory challenged (auth_resp right_octets)
      refl

abbrev pending : SecurityOperation
pending = record {
  has_cb = true;
  atuple = record {
    use_count = 1;
    key_seq = 0;
    rand = replicate 16 2;
    sres = replicate 4 3;
    kc = replicate 8 3;
  };
}

abbrev waiting : Conn
waiting = record idle { sec_operation = some pending }

abbrev wrong_octets : List ℕ
wrong_octets = 5 ∷ 84 ∷ replicate 4 9

abbrev failure_octets : List ℕ
failure_octets = 5 ∷ 28 ∷ 20 ∷ []

octets-differ : pending.atuple.sres ≢ take 4 (drop 2 wrong_octets)
octets-differ e = omega (arith, ap (λ l. get_or l 0 0) e)

gsm48_rx_mm_auth_fail-untold_example :
    ((gsm48_rx_mm_auth_fail waiting failure_octets).after ≡ record waiting { sec_operation = none })
    × ((gsm48_rx_mm_auth_fail waiting failure_octets).outputs ≡ auth_rej ∷ released ∷ [])
    × ((gsm48_rx_mm_auth_resp waiting wrong_octets).after ≡ record waiting { sec_operation = none })
    × ((gsm48_rx_mm_auth_resp waiting wrong_octets).outputs
        ≡ tell pending.has_cb auth_failed ++ auth_rej ∷ released ∷ [])
gsm48_rx_mm_auth_fail-untold_example =
    gsm48_rx_mm_auth_fail-untold waiting pending failure_octets wrong_octets refl refl refl
      octets-differ
