-- ===== src/Auth.antt =====
-- openbsc/src/libmsc/auth.c: the choice of the authentication tuple of a subscriber, with the two
-- rows of the data base (openbsc/src/libmsc/db.c) that it reads and writes.
--
-- The COMP128 functions and the source of random numbers belong to libosmocore: the functions are
-- parameters, and what the source returns is an argument, `none` for its failure. The SQL commands
-- are taken to succeed and to do what they say.
pub mod Tuples
pub mod Security
pub mod Response
pub mod Ciphering
mod Tests
use openbsc.Base.{
  ℕ, zero, suc, ◌+◌, ◌%◌, Bool, not, ◌&&◌, ◌||◌, Option, none, some, List, [], ◌∷◌, length, get_or,
  replicate, if◌then◌else◌, ltb, ◌==◌, bit_xor,
}

-- `enum gsm_auth_algo`; the data base may hold any other number.
pub data AuthAlgo : Type 0 where
  algo_none algo_xor algo_comp128v1 algo_comp128v2 algo_comp128v3 algo_other : AuthAlgo

-- `struct gsm_auth_info`: the key with its length.
pub record AuthInfo : Type 0 where
  pub auth_algo : AuthAlgo
  pub a3a8_ki : List ℕ

-- `struct gsm_auth_tuple`, with the used part of its vector.
pub record AuthTuple : Type 0 where
  pub use_count : ℕ
  pub key_seq : ℕ
  pub rand : List ℕ
  pub sres : List ℕ
  pub kc : List ℕ

pub data AuthAction : Type 0 where
  auth_error auth_not_avail auth_do_auth_then_ciph auth_do_ciph auth_do_auth : AuthAction

-- What a query for one row finds: ENOENT is `missing`; EIO, also for a field of a wrong size, is
-- `broken`.
pub data Row {ℓ} (A : Type ℓ) : Type ℓ where
  found : A → Row A
  missing broken : Row A

-- The rows of one subscriber in `AuthKeys` and `AuthLastTuples`.
pub record AuthRows : Type 0 where
  pub keys : Row AuthInfo
  pub last_tuple : Row AuthTuple

-- The row is written unless reading it has failed.
unfoldable pub db_sync_lastauthtuple_for_subscr : AuthTuple → AuthRows → AuthRows
db_sync_lastauthtuple_for_subscr t db = elim db.last_tuple [
  | broken ↦ db
  | _ ↦ record db { last_tuple = found t }
]

-- `n` octets from index `i` on.
unfoldable pub xor_octets : List ℕ → List ℕ → ℕ → ℕ → List ℕ
xor_octets rand ki i zero = []
xor_octets rand ki i (suc n) =
    bit_xor (get_or rand i 0) (get_or ki i 0) ∷ xor_octets rand ki (i + 1) n

unfoldable pub use_xor : AuthInfo → AuthTuple → Option AuthTuple
unfolding xor_octets
use_xor ainfo t =
    let l = length ainfo.a3a8_ki in
    if ltb 16 l || ltb l 12
    then none
    else some (record t {
      sres = xor_octets t.rand ainfo.a3a8_ki 0 4;
      kc = xor_octets t.rand ainfo.a3a8_ki 4 8;
    })

-- The tuple's memory after the call, the returned action and the rows.
pub record Obtained : Type 0 where
  pub action : AuthAction
  pub atuple : AuthTuple
  pub rows : AuthRows

-- `memset`.
unfoldable pub zero_tuple : AuthTuple
zero_tuple = record {
  use_count = 0;
  key_seq = 0;
  rand = replicate 16 0;
  sres = replicate 4 0;
  kc = replicate 8 0;
}

-- The tuple that a new vector is put into.
unfoldable pub next_tuple : Row AuthTuple → AuthTuple
unfolding zero_tuple
next_tuple (found t) = record t { key_seq = (t.key_seq + 1) % 7; use_count = 1 }
next_tuple missing = record zero_tuple { use_count = 1 }
next_tuple broken = record zero_tuple { use_count = 1 }

-- The condition for a second use.
unfoldable pub is_reusable : ℕ → AuthTuple → Bool
is_reusable key_seq t = not (key_seq == 7) && key_seq == t.key_seq && ltb t.use_count 3

module _ (comp128 comp128v2 comp128v3 : List ℕ → List ℕ → List ℕ × List ℕ) where
  -- The `switch` over the version.
  unfoldable pub use_version : AuthInfo → AuthTuple → AuthAlgo → Option AuthTuple
  use_version ainfo t algo =
      let put = λ (r : List ℕ × List ℕ). some (record t { sres = r.0; kc = r.1 }) in
      elim algo [
        | algo_comp128v1 ↦ put (comp128 ainfo.a3a8_ki t.rand)
        | algo_comp128v2 ↦ put (comp128v2 ainfo.a3a8_ki t.rand)
        | algo_comp128v3 ↦ put (comp128v3 ainfo.a3a8_ki t.rand)
        | _ ↦ none
      ]

  unfoldable pub use_comp128 : AuthInfo → AuthTuple → AuthAlgo → Option AuthTuple
  unfolding use_version
  use_comp128 ainfo t algo =
      if not (length ainfo.a3a8_ki == 16) then none else use_version ainfo t algo

  -- The `switch` over the algorithm.
  unfoldable pub vector_by : AuthInfo → AuthTuple → AuthAlgo → Option AuthTuple
  unfolding use_xor use_comp128
  vector_by ainfo t algo_xor = use_xor ainfo t
  vector_by ainfo t algo_comp128v1 = use_comp128 ainfo t algo_comp128v1
  vector_by ainfo t algo_comp128v2 = use_comp128 ainfo t algo_comp128v2
  vector_by ainfo t algo_comp128v3 = use_comp128 ainfo t algo_comp128v3
  vector_by ainfo t algo_none = none
  vector_by ainfo t algo_other = none

  -- From `Generate a new one` on; `t` is what `next_tuple` has made.
  unfoldable pub new_vector : AuthRows → AuthInfo → AuthTuple → Option (List ℕ) → Obtained
  unfolding vector_by db_sync_lastauthtuple_for_subscr
  new_vector db ainfo t none = record { action = auth_error; atuple = t; rows = db }
  new_vector db ainfo t (some r) = elim (vector_by ainfo (record t { rand = r }) ainfo.auth_algo) [
    | none ↦ record { action = auth_not_avail; atuple = record t { rand = r }; rows = db }
    | some t' ↦ record {
      action = auth_do_auth_then_ciph;
      atuple = t';
      rows = db_sync_lastauthtuple_for_subscr t' db;
    }
  ]

  -- The re-use of the last tuple, if possible, and otherwise a new one.
  unfoldable pub reuse_or_new : AuthRows → AuthInfo → ℕ → Option (List ℕ) → Row AuthTuple → Obtained
  unfolding is_reusable next_tuple new_vector db_sync_lastauthtuple_for_subscr
  reuse_or_new db ainfo key_seq rand (found t) =
      let again = record t { use_count = t.use_count + 1 } in
      if is_reusable key_seq t
      then record {
        action = auth_do_ciph;
        atuple = again;
        rows = db_sync_lastauthtuple_for_subscr again db;
      }
      else new_vector db ainfo (next_tuple (found t)) rand
  reuse_or_new db ainfo key_seq rand missing = new_vector db ainfo (next_tuple missing) rand
  reuse_or_new db ainfo key_seq rand broken = new_vector db ainfo (next_tuple broken) rand

  -- The caller's memory `t` is untouched when no key is found.
  unfoldable pub auth_get_tuple_for_subscr : AuthTuple → AuthRows → ℕ → Option (List ℕ) → Obtained
  unfolding reuse_or_new
  auth_get_tuple_for_subscr t db key_seq rand = elim db.keys [
    | missing ↦ record { action = auth_not_avail; atuple = t; rows = db }
    | broken ↦ record { action = auth_error; atuple = t; rows = db }
    | found ainfo ↦ reuse_or_new db ainfo key_seq rand db.last_tuple
  ]
