-- ===== src/Trans/Find.antt =====
-- openbsc/src/libmsc/transaction.c: transactions that are allocated, found and freed.
use mathlib.Core.Path.{subst}
use openbsc.Base.{
  ℕ, ◌+◌, ◌≡◌, ◌≢◌, ◌∙◌, refl, sym, ap, ◌⊎◌, inl, inr, Bool, true, false, ◌&&◌, none, some, List,
  [], ◌∷◌, ◌++◌, if◌then◌else◌, ◌==◌, ==→eq, eq→==, arith, Bool-cases, some_inj,
}
use openbsc.Trans.{
  Trans, Network, belongs, find, trans_find_by_id, new_trans, subscr_get, trans_alloc, remove,
  trans_free, trans_assign_trans_id,
}
use openbsc.Trans.Ids.{Used, trans_assign_trans_id-unused}

-- No two transactions of a subscriber in a protocol have the same identifier, but for 0xff.
unfoldable pub Unique : List Trans → Type 0
Unique [] = Unit
Unique (t ∷ ts) =
    (t.transaction_id ≢ 255 → Used ts t.subscr t.protocol t.transaction_id → ⊥) × Unique ts

unfoldable pub IsMember : Trans → List Trans → Type 0
IsMember t [] = ⊥
IsMember t (u ∷ us) = (u ≡ t) ⊎ IsMember t us

Used-append :
    (ts : List Trans) (u : Trans) (s p k : ℕ)
    → Used (ts ++ (u ∷ [])) s p k
    → Used ts s p k ⊎ ((belongs s p u ≡ true) × (u.transaction_id ≡ k))
unfolding Used
Used-append [] u s p k (inl h) = inr h
Used-append [] u s p k (inr h) = absurd h
Used-append (t ∷ ts) u s p k (inl h) = inl (inl h)
Used-append (t ∷ ts) u s p k (inr h) = elim (Used-append ts u s p k h) [
  | inl v ↦ inl (inr v)
  | inr v ↦ inr v
]

Unique-append :
    (ts : List Trans) (u : Trans)
    → Unique ts
    → (Used ts u.subscr u.protocol u.transaction_id → ⊥)
    → Unique (ts ++ (u ∷ []))
unfolding Unique Used
Unique-append [] u h n = (λ _ v. v, tt)
Unique-append (t ∷ ts) u h n = (
  λ ok v. elim (Used-append ts u t.subscr t.protocol t.transaction_id v) [
    | inl w ↦ h.0 ok w
    | inr (b, e) ↦ n (inl (ground (arith, b), sym e))
  ],
  Unique-append ts u h.1 (λ v. n (inr v)),
)

if_Used :
    (c : Bool) (r : List Trans) (t : Trans) (s p k : ℕ)
    → Used (if c then r else t ∷ r) s p k
    → Used r s p k ⊎ ((c ≡ false) × (belongs s p t ≡ true) × (t.transaction_id ≡ k))
unfolding Used
if_Used true r t s p k h = inl h
if_Used false r t s p k (inl (b, e)) = inr (refl, b, e)
if_Used false r t s p k (inr h) = inl h

Used-remove : (ts : List Trans) (a s p k : ℕ) → Used (remove a ts) s p k → Used ts s p k
unfolding remove Used
Used-remove [] a s p k h = h
Used-remove (t ∷ ts) a s p k h = elim (if_Used (t.address == a) (remove a ts) t s p k h) [
  | inl v ↦ inr (Used-remove ts a s p k v)
  | inr (_, b, e) ↦ inl (b, e)
]

if-Unique :
    (c : Bool) (r : List Trans) (t : Trans)
    → Unique r
    → (t.transaction_id ≢ 255 → Used r t.subscr t.protocol t.transaction_id → ⊥)
    → Unique (if c then r else t ∷ r)
unfolding Unique
if-Unique true r t h n = h
if-Unique false r t h n = (n, h)

Unique-remove : (ts : List Trans) (a : ℕ) → Unique ts → Unique (remove a ts)
unfolding remove Unique
Unique-remove [] a h = h
Unique-remove (t ∷ ts) a h =
    if-Unique (t.address == a) (remove a ts) t (Unique-remove ts a h.1)
      (λ ok v. h.0 ok (Used-remove ts a t.subscr t.protocol t.transaction_id v))

found_append :
    (ts : List Trans) (u : Trans) (s p k : ℕ)
    → (Used ts s p k → ⊥)
    → (belongs s p u && (u.transaction_id == k)) ≡ true
    → find (λ t. belongs s p t && (t.transaction_id == k)) (ts ++ (u ∷ [])) ≡ some u
unfolding find Used
found_append [] u s p k n h = ground (arith, h)
found_append (t ∷ ts) u s p k n h = elim (Bool-cases (belongs s p t && (t.transaction_id == k))) [
  | inl e ↦ absurd (n (inl (ground (arith, e), ==→eq t.transaction_id k (ground (arith, e)))))
  | inr e ↦ rw e (found_append ts u s p k (λ v. n (inr v)) h)
]

unused_find :
    (ts : List Trans) (s p k : ℕ)
    → (Used ts s p k → ⊥)
    → find (λ t. belongs s p t && (t.transaction_id == k)) ts ≡ none
unfolding find Used
unused_find [] s p k n = refl
unused_find (t ∷ ts) s p k n = elim (Bool-cases (belongs s p t && (t.transaction_id == k))) [
  | inl e ↦ absurd (n (inl (ground (arith, e), ==→eq t.transaction_id k (ground (arith, e)))))
  | inr e ↦ rw e (unused_find ts s p k (λ v. n (inr v)))
]

member-Used :
    (ts : List Trans) (t : Trans) (s p : ℕ)
    → belongs s p t ≡ true
    → IsMember t ts
    → Used ts s p t.transaction_id
unfolding Used IsMember
member-Used [] t s p b m = m
member-Used (u ∷ us) t s p b (inl e) = inl (rw e b, ap (λ x. x.transaction_id) e)
member-Used (u ∷ us) t s p b (inr m) = inr (member-Used us t s p b m)

same_owner :
    (u t : Trans) → belongs t.subscr t.protocol u ≡ true → belongs u.subscr u.protocol t ≡ true
same_owner u t b = ground (arith, b)

head_unused :
    (u t : Trans) (us : List Trans)
    → u ≡ t
    → t.transaction_id ≢ 255
    → (u.transaction_id ≢ 255 → Used us u.subscr u.protocol u.transaction_id → ⊥)
    → Used us t.subscr t.protocol t.transaction_id
    → ⊥
head_unused u t us e n h v =
    h (subst (λ x. x.transaction_id ≢ 255) (sym e) n)
      (subst (λ x. Used us x.subscr x.protocol x.transaction_id) (sym e) v)

-- After its removal the identifier of a transaction is not held any more.
removed_unused :
    (ts : List Trans) (t : Trans)
    → Unique ts
    → IsMember t ts
    → t.transaction_id ≢ 255
    → Used (remove t.address ts) t.subscr t.protocol t.transaction_id
    → ⊥
unfolding Unique IsMember remove Used
removed_unused [] t h m n v = m
removed_unused (u ∷ us) t h (inl e) n v =
    elim (if_Used (u.address == t.address) (remove t.address us) u t.subscr t.protocol
      t.transaction_id v) [
        | inl w ↦
            head_unused u t us e n h.0
              (Used-remove us t.address t.subscr t.protocol t.transaction_id w)
        | inr (differ, _, _) ↦ cc (sym differ ∙ eq→== u.address t.address (ap (λ x. x.address) e))
      ]
removed_unused (u ∷ us) t h (inr m) n v =
    elim (if_Used (u.address == t.address) (remove t.address us) u t.subscr t.protocol
      t.transaction_id v) [
        | inl w ↦ removed_unused us t h.1 m n w
        | inr (_, b, e) ↦
            h.0 (λ q. n (sym e ∙ q))
              (subst (Used us u.subscr u.protocol) (sym e)
                (member-Used us t u.subscr u.protocol (same_owner u t b) m))
      ]

-- In a network with different identifiers, a transaction allocated with an identifier assigned to
-- its subscriber is found by it, identifiers stay different, and the subscriber's use count goes up
-- by one.
pub trans_assign_trans_id-trans_alloc :
    (net net' : Network) (t : Trans) (a subscr proto callref j : ℕ) (flag : Bool)
    → Unique net.trans_list
    → trans_assign_trans_id net subscr proto flag ≡ some j
    → trans_alloc (some a) net (some subscr) proto j callref ≡ some (t, net')
    → (trans_find_by_id net' subscr proto j ≡ some t)
      × Unique net'.trans_list
      × (net'.use_count subscr ≡ net.use_count subscr + 1)
unfolding trans_alloc trans_find_by_id subscr_get new_trans
trans_assign_trans_id-trans_alloc net net' t a subscr proto callref j flag h given e =
    let unused = (trans_assign_trans_id-unused net subscr proto flag j given).0 in
    let u = new_trans a subscr proto j callref in
    subst
      (λ (x : Trans × Network).
        (find (λ v. belongs subscr proto v && (v.transaction_id == j)) x.1.trans_list ≡ some x.0)
        × Unique x.1.trans_list
        × (x.1.use_count subscr ≡ net.use_count subscr + 1))
      (some_inj e)
      (
        found_append net.trans_list u subscr proto j unused (ground arith),
        Unique-append net.trans_list u h unused,
        ground arith,
      )

-- In a network with different identifiers, freeing one of its transactions (whose identifier is not
-- 0xff) makes its identifier found no more, and the others stay different.
pub trans_free-find :
    (net : Network) (t : Trans)
    → Unique net.trans_list
    → IsMember t net.trans_list
    → t.transaction_id ≢ 255
    → (trans_find_by_id (trans_free net t).0 t.subscr t.protocol t.transaction_id ≡ none)
      × Unique (trans_free net t).0.trans_list
unfolding trans_free trans_find_by_id
trans_free-find net t h m n = (
  unused_find (remove t.address net.trans_list) t.subscr t.protocol t.transaction_id
      (removed_unused net.trans_list t h m n),
  Unique-remove net.trans_list t.address h,
)
