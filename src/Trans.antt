-- ===== src/Trans.antt =====
-- openbsc/src/libmsc/transaction.c: the transactions of the call control, SMS and SS protocols.
--
-- A transaction is named by a number that stands for its address, and so are subscribers and
-- connections. What the protocols and the subscriber code do when a transaction is freed is a list
-- of calls.
pub mod Ids
pub mod Find
mod Tests
use openbsc.Base.{
  ℕ, zero, suc, ◌+◌, ◌%◌, ◌^◌, bit_or, Bool, true, false, not, ◌&&◌, ◌||◌, Option, none, some, List,
  [], ◌∷◌, ◌++◌, if◌then◌else◌, ◌==◌,
}
use openbsc.Base.Bits.{◌<<<◌, has_bit}

-- The fields of `struct gsm_trans` that this file uses.
pub record Trans : Type 0 where
  pub address : ℕ
  pub protocol : ℕ
  pub transaction_id : ℕ
  pub subscr : ℕ
  pub conn : Option ℕ
  pub callref : ℕ
  pub paging_request : Bool

-- `trans_list` of the network, and the use count of each subscriber.
pub record Network : Type 0 where
  pub trans_list : List Trans
  pub use_count : ℕ → ℕ

abbrev pub belongs : ℕ → ℕ → Trans → Bool
belongs subscr proto t = (t.subscr == subscr) && (t.protocol == proto)

unfoldable pub find : (Trans → Bool) → List Trans → Option Trans
find p [] = none
find p (t ∷ ts) = let rest = find p ts in if p t then some t else rest

unfoldable pub trans_find_by_id : Network → ℕ → ℕ → ℕ → Option Trans
unfolding find
trans_find_by_id net subscr proto trans_id =
    find (λ t. belongs subscr proto t && (t.transaction_id == trans_id)) net.trans_list

unfoldable pub trans_find_by_callref : Network → ℕ → Option Trans
unfolding find
trans_find_by_callref net callref = find (λ t. t.callref == callref) net.trans_list

unfoldable pub subscr_get : Network → ℕ → Network
subscr_get net s = record net {
  use_count = λ k. if k == s then net.use_count k + 1 else net.use_count k;
}

unfoldable pub new_trans : ℕ → ℕ → ℕ → ℕ → ℕ → Trans
new_trans address subscr protocol trans_id callref = record {
  address = address;
  protocol = protocol;
  transaction_id = trans_id;
  subscr = subscr;
  conn = none;
  callref = callref;
  paging_request = false;
}

-- `trans_alloc`: `address` is what the allocator returns, `none` is NULL.
unfoldable pub trans_alloc : Option ℕ → Network → Option ℕ → ℕ → ℕ → ℕ → Option (Trans × Network)
unfolding subscr_get new_trans
trans_alloc address net subscr protocol trans_id callref = elim subscr [
  | none ↦ none
  | some s ↦ elim address [
    | none ↦ none
    | some a ↦
        let t = new_trans a s protocol trans_id callref in
        let net' = subscr_get net s in
        some (t, record net' { trans_list = net.trans_list ++ (t ∷ []) })
  ]
]

pub data Call : Type 0 where
  cc_trans_free sms_trans_free subscr_remove_request : Call
  subscr_put msc_release_connection : ℕ → Call

-- `llist_del`.
unfoldable pub remove : ℕ → List Trans → List Trans
remove a [] = []
remove a (t ∷ ts) = let rest = remove a ts in if t.address == a then rest else t ∷ rest

when : Bool → List Call → List Call
when c l = if c then l else []

-- `trans_free`, with the protocol numbers of call control (3) and SMS (9).
unfoldable pub trans_free : Network → Trans → Network × List Call
unfolding remove when
trans_free net t = (
  record net { trans_list = remove t.address net.trans_list },
  when (t.protocol == 3) (cc_trans_free ∷ [])
      ++ (when (t.protocol == 9) (sms_trans_free ∷ [])
          ++ (when t.paging_request (subscr_remove_request ∷ [])
              ++ (subscr_put t.subscr
                  ∷ elim t.conn [ none ↦ [] | some c ↦ msc_release_connection c ∷ [] ]))),
)

-- The mask of the used identifiers; `1 << id` is a 32-bit number, and 0xff is no identifier.
unfoldable pub mark : ℕ → ℕ → ℕ → Trans → ℕ
mark subscr proto mask t =
    if not (belongs subscr proto t) || (t.transaction_id == 255)
    then mask
    else bit_or mask ((1 <<< t.transaction_id) % 2 ^ 32)

unfoldable pub used_tid_bitmask : List Trans → ℕ → ℕ → ℕ → ℕ
unfolding mark
used_tid_bitmask [] subscr proto mask = mask
used_tid_bitmask (t ∷ ts) subscr proto mask =
    used_tid_bitmask ts subscr proto (mark subscr proto mask t)

-- The loop over `h`, which ends at 0.
unfoldable pub highest_used : ℕ → ℕ → ℕ → ℕ
highest_used mask flag zero = 0
highest_used mask flag (suc n) =
    let rest = highest_used mask flag n in
    if has_bit mask (bit_or (suc n) flag) then suc n else rest

-- The rounds i, i + 1, … of the search in a circular pattern.
unfoldable pub first_unused : ℕ → ℕ → ℕ → ℕ → ℕ → Option ℕ
first_unused mask flag h zero i = none
first_unused mask flag h (suc left) i =
    let rest = first_unused mask flag h left (i + 1) in
    let j = bit_or ((h + i) % 7) flag in if not (has_bit mask j) then some j else rest

-- `trans_assign_trans_id`; -1 is `none`.
unfoldable pub trans_assign_trans_id : Network → ℕ → ℕ → Bool → Option ℕ
unfolding used_tid_bitmask highest_used first_unused
trans_assign_trans_id net subscr proto ti_flag =
    let flag = if ti_flag then 8 else 0 in
    let mask = used_tid_bitmask net.trans_list subscr proto 0 in
    first_unused mask flag (highest_used mask flag 6) 7 0

unfoldable pub trans_has_conn : List Trans → ℕ → Bool
trans_has_conn [] c = false
trans_has_conn (t ∷ ts) c =
    let rest = trans_has_conn ts c in elim t.conn [ none ↦ rest | some d ↦ (d == c) || rest ]
