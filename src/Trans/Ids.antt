-- ===== src/Trans/Ids.antt =====
-- openbsc/src/libmsc/transaction.c: the mask of the used identifiers and the search for another.
use openbsc.Base.{
  ℕ, zero, suc, ◌+◌, ◌-◌, ◌%◌, ◌^◌, ◌≤◌, ◌<◌, ◌≡◌, ◌∙◌, sym, ap, ◌⊎◌, inl, inr, bit_or, Bool, true,
  false, not, ◌&&◌, ◌||◌, none, some, List, [], ◌∷◌, if◌then◌else◌, ◌==◌, ==→eq, lt→ltb, arith,
  Bool-cases, some_inj,
}
use native.Mathlib.Decide.{ℕ_discrete}
use openbsc.Base.Bits.{
  ◌<<<◌, has_bit, test_bit, has_bit-test_bit, test_bit-or, test_bit-shift, test_bit-mod,
  test_bit-zero, bit_or-lt,
}
use openbsc.Trans.{
  Trans, Network, belongs, mark, used_tid_bitmask, highest_used, first_unused,
  trans_assign_trans_id,
}

-- A transaction of the list that holds the identifier.
unfoldable pub Used : List Trans → ℕ → ℕ → ℕ → Type 0
Used [] subscr proto k = ⊥
Used (t ∷ ts) subscr proto k =
    ((belongs subscr proto t ≡ true) × (t.transaction_id ≡ k)) ⊎ Used ts subscr proto k

bit_of : (id k : ℕ) → k < 32 → test_bit ((1 <<< id) % 2 ^ 32) k ≡ (id == k)
bit_of id k h = test_bit-mod 32 k (1 <<< id) ∙ ground (arith, test_bit-shift id k, lt→ltb k 32 h)

mark_lem :
    (s p mask k : ℕ) (t : Trans)
    → k < 32
    → test_bit (mark s p mask t) k ≡ (test_bit mask k || (belongs s p t && (t.transaction_id == k)))
unfolding mark
mark_lem s p mask k t h = elim (Bool-cases (not (belongs s p t) || (t.transaction_id == 255))) [
  | inl e ↦ rw e (ground (arith, h))
  | inr e ↦ rw e (
      test_bit-or mask ((1 <<< t.transaction_id) % 2 ^ 32) k
      ∙ ground (arith, bit_of t.transaction_id k h, e))
]

mask_keeps :
    (ts : List Trans) (s p mask k : ℕ)
    → k < 32
    → test_bit mask k ≡ true
    → test_bit (used_tid_bitmask ts s p mask) k ≡ true
unfolding used_tid_bitmask
mask_keeps [] s p mask k l h = h
mask_keeps (t ∷ ts) s p mask k l h =
    mask_keeps ts s p (mark s p mask t) k l (ground (arith, mark_lem s p mask k t l, h))

Used-in_mask :
    (ts : List Trans) (s p mask k : ℕ)
    → k < 32
    → Used ts s p k
    → test_bit (used_tid_bitmask ts s p mask) k ≡ true
unfolding used_tid_bitmask Used
Used-in_mask [] s p mask k h u = absurd u
Used-in_mask (t ∷ ts) s p mask k h (inl (b, e)) =
    mask_keeps ts s p (mark s p mask t) k h (ground (arith, mark_lem s p mask k t h, b, e))
Used-in_mask (t ∷ ts) s p mask k h (inr u) = Used-in_mask ts s p (mark s p mask t) k h u

mask_is_Used :
    (ts : List Trans) (s p mask k : ℕ)
    → k < 32
    → test_bit (used_tid_bitmask ts s p mask) k ≡ true
    → (test_bit mask k ≡ true) ⊎ Used ts s p k
unfolding used_tid_bitmask Used
mask_is_Used [] s p mask k h e = inl e
mask_is_Used (t ∷ ts) s p mask k h e = elim (mask_is_Used ts s p (mark s p mask t) k h e) [
  | inr u ↦ inr (inr u)
  | inl b ↦ elim (Bool-cases (belongs s p t && (t.transaction_id == k))) [
    | inl m ↦ inr (inl (ground (arith, m), ==→eq t.transaction_id k (ground (arith, m))))
    | inr m ↦ inl (ground (arith, mark_lem s p mask k t h, b, m))
  ]
]

-- What the search over the rounds finds.
first_unused-some :
    (mask flag h left i : ℕ) {j : ℕ}
    → first_unused mask flag h left i ≡ some j
    → (test_bit mask j ≡ false) × (r : ℕ) × (r < 7) × (j ≡ bit_or r flag)
unfolding first_unused
first_unused-some mask flag h zero i e = cc
first_unused-some mask flag h (suc left) i {j = j} e =
    let k = bit_or ((h + i) % 7) flag in
    elim (Bool-cases (has_bit mask k)) [
      | inl used ↦ first_unused-some mask flag h left (i + 1) (rw used at e)
      | inr free ↦
          let same : k ≡ j = some_inj (rw free at e) in
          (
            ap (test_bit mask) (sym same) ∙ sym (has_bit-test_bit mask k) ∙ free,
            (h + i) % 7,
            omega arith,
            sym same,
          )
    ]

first_unused-none :
    (mask flag h left i n : ℕ)
    → first_unused mask flag h left i ≡ none
    → i ≤ n
    → n < i + left
    → test_bit mask (bit_or ((h + n) % 7) flag) ≡ true
unfolding first_unused
first_unused-none mask flag h zero i n e p q = absurd (omega arith)
first_unused-none mask flag h (suc left) i n e p q =
    let k = bit_or ((h + i) % 7) flag in
    elim (Bool-cases (has_bit mask k)) [
      | inr free ↦ absurd (ground (arith, rw free at e))
      | inl used ↦ elim (ℕ_discrete i n) [
        | yes same ↦ rw (sym same) (sym (has_bit-test_bit mask k) ∙ used)
        | no m ↦
            first_unused-none mask flag h left (i + 1) n (rw used at e) (omega (arith, m))
              (omega arith)
      ]
    ]

-- The flag that is set in the identifiers of the network's or the mobile's side.
abbrev pub ti : Bool → ℕ
ti f = if f then 8 else 0

ti-lt : (f : Bool) → ti f < 2 ^ 5
ti-lt f = ground arith

id-lt : (r : ℕ) (f : Bool) → r < 7 → bit_or r (ti f) < 32
id-lt r f h = bit_or-lt 5 r (ti f) (omega arith) (ti-lt f)

-- An identifier that is assigned is held by no transaction of the subscriber in the protocol, and
-- is one of the seven with the flag asked for.
pub trans_assign_trans_id-unused :
    (net : Network) (subscr proto : ℕ) (flag : Bool) (j : ℕ)
    → trans_assign_trans_id net subscr proto flag ≡ some j
    → (Used net.trans_list subscr proto j → ⊥) × (r : ℕ) × (r < 7) × (j ≡ bit_or r (ti flag))
unfolding trans_assign_trans_id
trans_assign_trans_id-unused net subscr proto flag j e =
    let mask = used_tid_bitmask net.trans_list subscr proto 0 in
    let (free, r, l, k) = first_unused-some mask (ti flag) (highest_used mask (ti flag) 6) 7 0 e in
    let small : j < 32 = omega (arith, id-lt r flag l, k) in
    (λ u. cc (sym free ∙ Used-in_mask net.trans_list subscr proto 0 j small u), r, l, k)

highest_used-le : (mask flag n : ℕ) → highest_used mask flag n ≤ n
unfolding highest_used
highest_used-le mask flag zero = omega arith
highest_used-le mask flag (suc n) = ground (arith, highest_used-le mask flag n)

-- No identifier is assigned only when all seven with the flag asked for are held.
pub trans_assign_trans_id-full :
    (net : Network) (subscr proto : ℕ) (flag : Bool) (r : ℕ)
    → trans_assign_trans_id net subscr proto flag ≡ none
    → r < 7
    → Used net.trans_list subscr proto (bit_or r (ti flag))
unfolding trans_assign_trans_id
trans_assign_trans_id-full net subscr proto flag r e l =
    let mask = used_tid_bitmask net.trans_list subscr proto 0 in
    let h = highest_used mask (ti flag) 6 in
    let b : h ≤ 6 = highest_used-le mask (ti flag) 6 in
    let n = (r + 7 - h) % 7 in
    let at : (h + n) % 7 ≡ r = omega arith in
    let set = first_unused-none mask (ti flag) h 7 0 n e (omega arith) (omega arith) in
    elim (mask_is_Used net.trans_list subscr proto 0 (bit_or r (ti flag)) (id-lt r flag l)
      (ap (λ x. test_bit mask (bit_or x (ti flag))) (sym at) ∙ set)) [
        | inl z ↦ absurd (cc (sym z ∙ test_bit-zero (bit_or r (ti flag))))
        | inr u ↦ u
      ]
