-- ===== src/Auth/Tuples.antt =====
-- openbsc/src/libmsc/auth.c: the use counts and key sequences of the tuples that are handed out.
use openbsc.Base.{
  ℕ, ◌+◌, ◌-◌, ◌*◌, ◌≤◌, ◌<◌, ◌≡◌, ◌≢◌, refl, sym, ap, ◌∙◌, inl, inr, Bool, true, false, Option,
  none, some, List, [], ◌∷◌, arith, Bool-cases, if◌then◌else◌,
}
use openbsc.Auth.{
  AuthAlgo, AuthInfo, AuthTuple, AuthAction, auth_error, auth_not_avail, auth_do_auth_then_ciph,
  auth_do_ciph, Row, found, missing, broken, AuthRows, Obtained, zero_tuple,
  db_sync_lastauthtuple_for_subscr, use_xor, next_tuple, is_reusable, use_version, use_comp128,
  vector_by, new_vector, reuse_or_new, auth_get_tuple_for_subscr, algo_none, algo_xor,
  algo_comp128v1, algo_comp128v2, algo_comp128v3, algo_other,
}

-- A tuple whose use count and key sequence are those of another, if there is one.
unfoldable HasUse : AuthTuple → Option AuthTuple → Type 0
HasUse t none = Unit
HasUse t (some u) = (u.use_count ≡ t.use_count) × (u.key_seq ≡ t.key_seq)

-- Whether a call has asked for authentication, and whether it has re-used a tuple.
abbrev pub authenticates : AuthAction → ℕ
authenticates a = elim a [ auth_do_auth_then_ciph ↦ 1 | _ ↦ 0 ]

abbrev pub reuses : AuthAction → ℕ
reuses a = elim a [ auth_do_ciph ↦ 1 | _ ↦ 0 ]

-- How often the stored tuple can be used again.
abbrev pub uses_left : Row AuthTuple → ℕ
uses_left (found t) = 3 - t.use_count
uses_left missing = 0
uses_left broken = 0

-- What has been handed out: a tuple of the first use under another key sequence than that of the
-- stored one, or the stored one, which the phone has named.
pub record Handed (db : AuthRows) (key_seq : ℕ) (o : Obtained) : Type 0 where
  pub fresh :
      o.action ≡ auth_do_auth_then_ciph
      → (o.atuple.use_count ≡ 1)
        × (o.rows ≡ db_sync_lastauthtuple_for_subscr o.atuple db)
        × (o.atuple.key_seq ≤ 6)
        × ((t : AuthTuple) → db.last_tuple ≡ found t → t.key_seq ≤ 6 → o.atuple.key_seq ≢ t.key_seq)
  pub again :
      o.action ≡ auth_do_ciph
      → (t : AuthTuple) × (db.last_tuple ≡ found t)
        × (key_seq ≡ t.key_seq)
        × (key_seq ≢ 7)
        × (t.use_count < 3)
        × (o.atuple ≡ record t { use_count = t.use_count + 1 })
        × (o.rows ≡ record db { last_tuple = found o.atuple })
  pub kept : authenticates o.action + reuses o.action ≡ 0 → o.rows ≡ db
  pub counted :
      reuses o.action + uses_left o.rows.last_tuple
      ≤ authenticates o.action * 2 + uses_left db.last_tuple

HasUse-if :
    (t : AuthTuple) (b : Bool) (x y : Option AuthTuple)
    → HasUse t x
    → HasUse t y
    → HasUse t (if b then x else y)
HasUse-if t true x y hx hy = hx
HasUse-if t false x y hx hy = hy

HasUse-none : (t : AuthTuple) → HasUse t none
unfolding HasUse
HasUse-none t = tt

HasUse-some :
    (t u : AuthTuple) → u.use_count ≡ t.use_count → u.key_seq ≡ t.key_seq → HasUse t (some u)
unfolding HasUse
HasUse-some t u h k = (h, k)

use_xor-HasUse : (ainfo : AuthInfo) (t : AuthTuple) → HasUse t (use_xor ainfo t)
unfolding use_xor
use_xor-HasUse ainfo t = HasUse-if t _ none _ (HasUse-none t) (HasUse-some t _ refl refl)

found_inj {ℓ} : {A : Type ℓ} {x y : A} → found x ≡ found y → x ≡ y
found_inj e = cc

next_tuple-lem :
    (row : Row AuthTuple)
    → ((next_tuple row).use_count ≡ 1)
      × ((next_tuple row).key_seq ≤ 6)
      × ((t : AuthTuple) → row ≡ found t → t.key_seq ≤ 6 → (next_tuple row).key_seq ≢ t.key_seq)
unfolding next_tuple zero_tuple
next_tuple-lem (found t) = (
  refl,
  omega arith,
  λ u e h s. let k : t.key_seq ≡ u.key_seq = ap (λ x. x.key_seq) (found_inj e) in ground arith,
)
next_tuple-lem missing = (refl, omega arith, λ u e. absurd cc)
next_tuple-lem broken = (refl, omega arith, λ u e. absurd cc)

module _ (comp128 comp128v2 comp128v3 : List ℕ → List ℕ → List ℕ × List ℕ) where
  use_version-HasUse :
      (ainfo : AuthInfo) (t : AuthTuple) (a : AuthAlgo)
      → HasUse t (use_version comp128 comp128v2 comp128v3 ainfo t a)
  unfolding use_version HasUse
  use_version-HasUse ainfo t algo_comp128v1 = (refl, refl)
  use_version-HasUse ainfo t algo_comp128v2 = (refl, refl)
  use_version-HasUse ainfo t algo_comp128v3 = (refl, refl)
  use_version-HasUse ainfo t algo_none = tt
  use_version-HasUse ainfo t algo_xor = tt
  use_version-HasUse ainfo t algo_other = tt

  use_comp128-HasUse :
      (ainfo : AuthInfo) (t : AuthTuple) (a : AuthAlgo)
      → HasUse t (use_comp128 comp128 comp128v2 comp128v3 ainfo t a)
  unfolding use_comp128
  use_comp128-HasUse ainfo t a = HasUse-if t _ none _ (HasUse-none t) (use_version-HasUse ainfo t a)

  vector_by-HasUse :
      (ainfo : AuthInfo) (t : AuthTuple) (a : AuthAlgo)
      → HasUse t (vector_by comp128 comp128v2 comp128v3 ainfo t a)
  unfolding vector_by HasUse
  vector_by-HasUse ainfo t algo_xor = use_xor-HasUse ainfo t
  vector_by-HasUse ainfo t algo_comp128v1 = use_comp128-HasUse ainfo t algo_comp128v1
  vector_by-HasUse ainfo t algo_comp128v2 = use_comp128-HasUse ainfo t algo_comp128v2
  vector_by-HasUse ainfo t algo_comp128v3 = use_comp128-HasUse ainfo t algo_comp128v3
  vector_by-HasUse ainfo t algo_none = tt
  vector_by-HasUse ainfo t algo_other = tt

  -- The row after the write of a tuple of the first use.
  uses_left-sync :
      (db : AuthRows) (t : AuthTuple)
      → t.use_count ≡ 1
      → uses_left (db_sync_lastauthtuple_for_subscr t db).last_tuple ≤ 2 + uses_left db.last_tuple
  unfolding db_sync_lastauthtuple_for_subscr
  uses_left-sync db t h = by_row db.last_tuple refl
    where
      by_row :
          (row : Row AuthTuple)
          → db.last_tuple ≡ row
          → uses_left (db_sync_lastauthtuple_for_subscr t db).last_tuple
            ≤ 2 + uses_left db.last_tuple
      by_row (found u) e = rw e (omega (arith, h))
      by_row missing e = rw e (omega (arith, h))
      by_row broken e = rw e (omega arith)

  kept_Handed :
      (db : AuthRows) (key_seq : ℕ) (a : AuthAction) (t : AuthTuple)
      → authenticates a + reuses a ≡ 0
      → Handed db key_seq (record { action = a; atuple = t; rows = db })
  kept_Handed db key_seq a t h = record {
    fresh = λ e. absurd (omega (arith, rw e at h));
    again = λ e. absurd (omega (arith, rw e at h));
    kept = λ _. refl;
    counted = omega (arith, h);
  }

  vector_Handed :
      (db : AuthRows) (key_seq : ℕ) (t u : AuthTuple)
      → t.use_count ≡ 1
      → t.key_seq ≤ 6
      → ((w : AuthTuple) → db.last_tuple ≡ found w → w.key_seq ≤ 6 → t.key_seq ≢ w.key_seq)
      → HasUse t (some u)
      → Handed db key_seq (record {
        action = auth_do_auth_then_ciph;
        atuple = u;
        rows = db_sync_lastauthtuple_for_subscr u db;
      })
  unfolding HasUse
  vector_Handed db key_seq t u one small new (uses, seq) = record {
    fresh = λ _. (uses ∙ one, refl, omega (arith, seq), λ w e h k. new w e h (sym seq ∙ k));
    again = λ e. absurd cc;
    kept = λ e. absurd (omega arith);
    counted = omega (arith, uses_left-sync db u (uses ∙ one));
  }

  new_vector-Handed :
      (db : AuthRows) (ainfo : AuthInfo) (key_seq : ℕ) (t : AuthTuple) (rand : Option (List ℕ))
      → t.use_count ≡ 1
      → t.key_seq ≤ 6
      → ((w : AuthTuple) → db.last_tuple ≡ found w → w.key_seq ≤ 6 → t.key_seq ≢ w.key_seq)
      → Handed db key_seq (new_vector comp128 comp128v2 comp128v3 db ainfo t rand)
  unfolding new_vector HasUse
  new_vector-Handed db ainfo key_seq t none one small new = kept_Handed db key_seq _ t refl
  new_vector-Handed db ainfo key_seq t (some r) one small new =
      by_vector _ (vector_by-HasUse ainfo (record t { rand = r }) ainfo.auth_algo)
    where
      by_vector :
          (o : Option AuthTuple)
          → HasUse (record t { rand = r }) o
          → Handed db key_seq (elim o [
            | none ↦ record { action = auth_not_avail; atuple = record t { rand = r }; rows = db }
            | some u ↦ record {
              action = auth_do_auth_then_ciph;
              atuple = u;
              rows = db_sync_lastauthtuple_for_subscr u db;
            }
          ])
      by_vector none h = kept_Handed db key_seq _ _ refl
      by_vector (some u) h = vector_Handed db key_seq (record t { rand = r }) u one small new h

  again_Handed :
      (db : AuthRows) (key_seq : ℕ) (t : AuthTuple)
      → db.last_tuple ≡ found t
      → is_reusable key_seq t ≡ true
      → Handed db key_seq (record {
        action = auth_do_ciph;
        atuple = record t { use_count = t.use_count + 1 };
        rows = db_sync_lastauthtuple_for_subscr (record t { use_count = t.use_count + 1 }) db;
      })
  unfolding is_reusable db_sync_lastauthtuple_for_subscr
  again_Handed db key_seq t e h = record {
    fresh = λ f. absurd cc;
    again = λ _. (t, e, ground arith, ground arith, ground arith, refl, rw e);
    kept = λ f. absurd (omega arith);
    counted = let few : t.use_count < 3 = ground arith in rw e (omega (arith, few));
  }

  reuse_or_new-Handed :
      (db : AuthRows) (ainfo : AuthInfo) (key_seq : ℕ) (rand : Option (List ℕ))
      (row : Row AuthTuple)
      → db.last_tuple ≡ row
      → Handed db key_seq (reuse_or_new comp128 comp128v2 comp128v3 db ainfo key_seq rand row)
  unfolding reuse_or_new
  reuse_or_new-Handed db ainfo key_seq rand row e =
      let (one, small, new) = next_tuple-lem row in
      let anew =
        new_vector-Handed db ainfo key_seq (next_tuple row) rand one small
          (λ w h. new w (sym e ∙ h)) in
      by_row row e anew
    where
      by_row :
          (r : Row AuthTuple)
          → db.last_tuple ≡ r
          → Handed db key_seq (new_vector comp128 comp128v2 comp128v3 db ainfo (next_tuple r) rand)
          → Handed db key_seq (reuse_or_new comp128 comp128v2 comp128v3 db ainfo key_seq rand r)
      by_row missing e anew = anew
      by_row broken e anew = anew
      by_row (found t) e anew = elim (Bool-cases (is_reusable key_seq t)) [
        | inl h ↦ rw h (again_Handed db key_seq t e h)
        | inr h ↦ rw h anew
      ]

  pub auth_get_tuple_for_subscr-Handed :
      (t : AuthTuple) (db : AuthRows) (key_seq : ℕ) (rand : Option (List ℕ))
      → Handed db key_seq (auth_get_tuple_for_subscr comp128 comp128v2 comp128v3 t db key_seq rand)
  unfolding auth_get_tuple_for_subscr
  auth_get_tuple_for_subscr-Handed t db key_seq rand = by_key db.keys
    where
      by_key :
          (k : Row AuthInfo)
          → Handed db key_seq (elim k as (λ x. Obtained) [
            | missing ↦ record { action = auth_not_avail; atuple = t; rows = db }
            | broken ↦ record { action = auth_error; atuple = t; rows = db }
            | found ainfo ↦
                reuse_or_new comp128 comp128v2 comp128v3 db ainfo key_seq rand db.last_tuple
          ])
      by_key missing = kept_Handed db key_seq _ t refl
      by_key broken = kept_Handed db key_seq _ t refl
      by_key (found ainfo) = reuse_or_new-Handed db ainfo key_seq rand db.last_tuple refl

  -- The authentications and the re-uses of a sequence of calls with their key sequences and random
  -- numbers, and what is left of the tuple.
  unfoldable pub all_calls : AuthTuple → AuthRows → List (ℕ × Option (List ℕ)) → ℕ × ℕ × ℕ
  all_calls t db [] = (0, 0, uses_left db.last_tuple)
  all_calls t db ((key_seq, rand) ∷ calls) =
      let o = auth_get_tuple_for_subscr comp128 comp128v2 comp128v3 t db key_seq rand in
      let rest = all_calls t o.rows calls in
      (authenticates o.action + rest.0, reuses o.action + rest.1, rest.2)

  -- Over any sequence of calls of auth_get_tuple_for_subscr, with any key sequences and random
  -- numbers, the calls that skip authentication and the uses that are left of the stored tuple are
  -- together at most two for every call that asks for authentication and what was left of the tuple
  -- stored at first.
  pub all_calls-lem :
      (t : AuthTuple) (db : AuthRows) (calls : List (ℕ × Option (List ℕ)))
      → let r = all_calls t db calls in r.1 + r.2 ≤ r.0 * 2 + uses_left db.last_tuple
  unfolding all_calls
  all_calls-lem t db [] = omega arith
  all_calls-lem t db ((key_seq, rand) ∷ calls) =
      let o = auth_get_tuple_for_subscr comp128 comp128v2 comp128v3 t db key_seq rand in
      let h = auth_get_tuple_for_subscr-Handed t db key_seq rand in
      omega (arith, h.counted, all_calls-lem t o.rows calls)
