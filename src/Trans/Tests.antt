-- ===== src/Trans/Tests.antt =====
-- A network in which a subscriber has transactions, and each theorem at an input.
use openbsc.Base.{ℕ, ◌+◌, ◌<◌, ◌≡◌, refl, true, false, bit_or, none, some, [], ◌∷◌, arith}
use openbsc.Base.Bits.{has_bit}
use openbsc.Trans.{
  Trans, Network, find, trans_find_by_id, trans_find_by_callref, new_trans, subscr_get, trans_alloc,
  remove, trans_free, mark, used_tid_bitmask, highest_used, first_unused, trans_assign_trans_id,
  trans_has_conn,
}
use openbsc.Trans.Find.{Unique, IsMember}
use openbsc.Trans.Ids.{Used, ti, trans_assign_trans_id-unused}

program : Unit {0}
unfolding has_bit find trans_find_by_id trans_find_by_callref new_trans subscr_get trans_alloc
    remove trans_free mark used_tid_bitmask highest_used first_unused trans_assign_trans_id
    trans_has_conn Unique IsMember Used
program = tt

-- The transaction of subscriber 1 in call control with an identifier.
abbrev held : ℕ → Trans
held j = new_trans (100 + j) 1 3 j 7

abbrev net : Network
net = record { trans_list = held 8 ∷ held 10 ∷ []; use_count = λ s. 2 }

-- All identifiers of the mobile's side are in use.
abbrev full : Network
full = record {
  trans_list = held 0 ∷ held 1 ∷ held 2 ∷ held 3 ∷ held 4 ∷ held 5 ∷ held 6 ∷ [];
  use_count = λ s. 7;
}

assigned : trans_assign_trans_id net 1 3 true ≡ some 11
unfolding program
assigned = refl

none_left : trans_assign_trans_id full 1 3 false ≡ none
unfolding program
none_left = refl

net-Unique : Unique net.trans_list
unfolding program
net-Unique = ground arith

abbrev net' : Network
net' = record {
  trans_list = held 8 ∷ held 10 ∷ new_trans 9 1 3 11 5 ∷ [];
  use_count = (subscr_get net 1).use_count;
}

trans_assign_trans_id-unused_example :
    (Used net.trans_list 1 3 11 → ⊥) × (r : ℕ) × (r < 7) × (11 ≡ bit_or r (ti true))
trans_assign_trans_id-unused_example = trans_assign_trans_id-unused net 1 3 true 11 assigned
