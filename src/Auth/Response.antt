-- ===== src/Auth/Response.antt =====
-- openbsc/src/libmsc/gsm_04_08.c: the octets of an authentication response, and the keys that the
-- handlers of the phone's messages send.
use openbsc.Base.{
  ℕ, zero, suc, ◌≤◌, ◌≡◌, refl, sym, ap, ◌∙◌, inl, inr, Bool, true, false, Option, none, some,
  some_inj, List, [], ◌∷◌, ◌++◌, length, take, drop, ltb, arith, Bool-cases, Option-cases,
  if◌then◌else◌, length-drop,
}
use openbsc.Auth.Security.{
  SecurityEvent, auth_failed, Output, auth_req, auth_rej, cipher_mode, told, released,
  SecurityOperation, Conn, tell, release_security_operation, release_after, gsm0808_cipher_mode,
  parse_gsm_auth_resp, parse_umts_auth_resp, parse_auth_resp, same_bytes, validate,
}

-- The key of the first command to cipher.
unfoldable pub key_sent : List Output → Option (List ℕ)
key_sent [] = none
key_sent (cipher_mode alg kc ∷ l) = some kc
key_sent (auth_req rand seq ∷ l) = key_sent l
key_sent (auth_rej ∷ l) = key_sent l
key_sent (told e ∷ l) = key_sent l
key_sent (released ∷ l) = key_sent l

key_sent-append : (a b : List Output) → key_sent a ≡ none → key_sent (a ++ b) ≡ key_sent b
unfolding key_sent
key_sent-append [] b h = refl
key_sent-append (cipher_mode alg kc ∷ l) b h = absurd cc
key_sent-append (auth_req rand seq ∷ l) b h = key_sent-append l b h
key_sent-append (auth_rej ∷ l) b h = key_sent-append l b h
key_sent-append (told e ∷ l) b h = key_sent-append l b h
key_sent-append (released ∷ l) b h = key_sent-append l b h

pub key_sent-tell : (b : Bool) (e : SecurityEvent) → key_sent (tell b e) ≡ none
unfolding key_sent tell
key_sent-tell true e = refl
key_sent-tell false e = refl

pub key_sent-release_after :
    (c : Conn) (rc : ℕ) (l : List Output)
    → key_sent l ≡ none
    → key_sent (release_after c rc l).outputs ≡ none
unfolding key_sent release_after release_security_operation
key_sent-release_after c rc l h = key_sent-append l _ h ∙ by_op c.sec_operation
  where
    by_op :
        (o : Option SecurityOperation)
        → key_sent
            (elim o as (λ x. Conn × List Output) [
              | none ↦ (c, [])
              | some op ↦ (record c { sec_operation = none }, released ∷ [])
            ]).1
          ≡ none
    by_op none = refl
    by_op (some op) = refl

take-take : (n : ℕ) (xs ys : List ℕ) → n ≤ length xs → take n (take n xs ++ ys) ≡ take n xs
take-take zero xs ys h = refl
take-take (suc n) [] ys h = absurd (omega arith)
take-take (suc n) (x ∷ xs) ys h = ap (λ l. x ∷ l) (take-take n xs ys (omega arith))

pub take-take_self : (n : ℕ) (xs : List ℕ) → take n (take n xs) ≡ take n xs
take-take_self zero xs = refl
take-take_self (suc n) [] = refl
take-take_self (suc n) (x ∷ xs) = ap (λ l. x ∷ l) (take-take_self n xs)

pub same_bytes_eq : (a b : List ℕ) → same_bytes a b ≡ true → a ≡ b
unfolding same_bytes
same_bytes_eq [] [] h = refl
same_bytes_eq [] (y ∷ ys) h = cc
same_bytes_eq (x ∷ xs) [] h = cc
same_bytes_eq (x ∷ xs) (y ∷ ys) h =
    let e : x ≡ y = ground arith in let r : xs ≡ ys = same_bytes_eq xs ys (ground arith) in cc

parse_gsm_lem :
    (l3 : List ℕ) {res : List ℕ}
    → parse_gsm_auth_resp l3 ≡ some res
    → (6 ≤ length l3) × (res ≡ take 4 (drop 2 l3))
unfolding parse_gsm_auth_resp
parse_gsm_lem l3 {res} e = elim (Bool-cases (ltb (length l3) 6)) [
  | inl h ↦ absurd (ground (arith, rw h at e))
  | inr h ↦ (ground arith, sym (some_inj (rw h at e)))
]

pub none-some : {A : Type 0} {x : A} → none ≡ some x → ⊥
none-some e = cc

else_some : {A : Type 0} (b : Bool) {x y : A} → (if b then none else some x) ≡ some y → x ≡ y
else_some true e = absurd cc
else_some false e = some_inj e

parse_umts_lem :
    (l3 : List ℕ) {res : List ℕ}
    → parse_umts_auth_resp l3 ≡ some res
    → take 4 res ≡ take 4 (drop 2 l3)
unfolding parse_umts_auth_resp
parse_umts_lem l3 {res} e = elim (Option-cases (parse_gsm_auth_resp l3)) [
  | inl h ↦ absurd (none-some (rw (parse_umts_auth_resp, h) at e))
  | inr (r, h) ↦
      let (long, same) = parse_gsm_lem l3 h in
      let four : 4 ≤ length (drop 2 l3) = omega (arith, long, length-drop 2 l3) in
      let whole = else_some _ (rw (parse_umts_auth_resp, h) at e) in
      ap (take 4) (sym whole) ∙ rw same (take-take 4 (drop 2 l3) _ four)
]

pub parse_auth_resp_lem :
    (l3 : List ℕ) {res : List ℕ} → parse_auth_resp l3 ≡ some res → take 4 res ≡ take 4 (drop 2 l3)
unfolding parse_auth_resp
parse_auth_resp_lem l3 {res} e = elim (Bool-cases (ltb 6 (length l3))) [
  | inl h ↦ parse_umts_lem l3 (rw h at e)
  | inr h ↦ let (_, r) = parse_gsm_lem l3 (rw h at e) in rw r (take-take_self 4 (drop 2 l3))
]

pub validate_lem :
    (c : Conn) (res : List ℕ) (pending : Option SecurityOperation) {kc : List ℕ}
    → key_sent (validate c res pending).outputs ≡ some kc
    → (op : SecurityOperation) × (pending ≡ some op)
      × (kc ≡ op.atuple.kc)
      × (op.atuple.sres ≡ take 4 res)
unfolding validate key_sent gsm0808_cipher_mode
validate_lem c res none e = absurd (none-some e)
validate_lem c res (some op) {kc} e = elim (Bool-cases (same_bytes op.atuple.sres (take 4 res))) [
  | inl same ↦ (op, refl, sym (some_inj (rw (validate, same) at e)), same_bytes_eq _ _ same)
  | inr differ ↦
      let told_so = tell op.has_cb auth_failed in
      let rejected =
        key_sent-release_after c 0 (told_so ++ auth_rej ∷ [])
          (key_sent-append told_so (auth_rej ∷ []) (key_sent-tell op.has_cb auth_failed)) in
      absurd (none-some (sym rejected ∙ rw (validate, differ) at e))
]
