-- ===== src/Oap/Authentic.antt =====
-- openbsc/src/libcommon/oap_client.c: the challenge responses of the client.
use openbsc.Base.{
  ℕ, ◌≡◌, ◌≢◌, refl, sym, inl, inr, true, false, Option, none, some, List, [], ◌∷◌, length, ltb,
  arith, Bool-cases,
}
use openbsc.Oap.{
  OapClientState, MessageType, register_request, register_error, register_result, challenge_request,
  challenge_result, unknown, OapMessage, AuthVector, oap_client_register, oap_msg_register,
  oap_msg_challenge_response, is_off, same_octets, Verdict, accepted, refused, evaluate_present,
  handle_type, handle_decoded, register_with, answer, oap_evaluate_challenge, handle_challenge,
  handle_message, oap_client_handle, empty_message,
}

-- The octets of a challenge response in what is sent.
unfoldable pub response : Option OapMessage → Option (List ℕ)
response none = none
response (some m) = m.xres

same_octets_eq : (a b : List ℕ) → same_octets a b ≡ true → a ≡ b
unfolding same_octets
same_octets_eq [] [] h = refl
same_octets_eq [] (y ∷ ys) h = cc
same_octets_eq (x ∷ xs) [] h = cc
same_octets_eq (x ∷ xs) (y ∷ ys) h =
    let e : x ≡ y = ground arith in let r : xs ≡ ys = same_octets_eq xs ys (ground arith) in cc

answer-response :
    (s : OapClientState) (v : Verdict) {xres : List ℕ}
    → response (answer s v).msg_tx ≡ some xres
    → v ≡ accepted xres
unfolding answer response oap_msg_challenge_response empty_message
answer-response s (refused rc) e = cc
answer-response s (accepted x) e = cc

no_response :
    (s : OapClientState) (n : ℕ) {xres : List ℕ}
    → response (register_with s (oap_msg_register n)).msg_tx ≢ some xres
unfolding response register_with oap_msg_register empty_message
no_response s n e = elim (Bool-cases (ltb n 1)) [
  | inl h ↦ absurd (ground (arith, rw h at e))
  | inr h ↦ absurd (ground (arith, rw h at e))
]

module _ (gen_vec : List ℕ → List ℕ → List ℕ → AuthVector) where
  evaluate_accepted :
      (s : OapClientState) (rand autn : List ℕ) {xres : List ℕ}
      → oap_evaluate_challenge gen_vec s rand autn ≡ accepted xres
      → ((gen_vec s.secret_k s.secret_opc rand).autn ≡ autn)
        × (length (gen_vec s.secret_k s.secret_opc rand).res ≡ 8)
        × ((gen_vec s.secret_k s.secret_opc rand).res ≡ xres)
        × (is_off s.state ≡ false)
  unfolding oap_evaluate_challenge
  evaluate_accepted s rand autn e =
      let vec = gen_vec s.secret_k s.secret_opc rand in
      elim (Bool-cases (same_octets vec.autn autn)) [
        | inl same ↦ (same_octets_eq _ _ same, ground arith, ground (arith, e), ground arith)
        | inr differ ↦ absurd (ground (arith, e))
      ]

  evaluate_present_accepted :
      (s : OapClientState) (rand autn : Option (List ℕ)) {xres : List ℕ}
      → evaluate_present gen_vec s rand autn ≡ accepted xres
      → (r : List ℕ) × (rand ≡ some r)
        × (autn ≡ some (gen_vec s.secret_k s.secret_opc r).autn)
        × (length xres ≡ 8)
        × (xres ≡ (gen_vec s.secret_k s.secret_opc r).res)
        × (is_off s.state ≡ false)
  unfolding evaluate_present
  evaluate_present_accepted s none autn e = cc
  evaluate_present_accepted s (some rand) none e = cc
  evaluate_present_accepted s (some rand) (some autn) e =
      let (a, l, r, o) = evaluate_accepted s rand autn e in (rand, refl, cc, rw (sym r) l, sym r, o)

  -- A challenge response comes from a challenge request whose AUTN is that of the client's secrets.
  abbrev pub Authentic : OapClientState → OapMessage → List ℕ → Type 0
  Authentic s rx xres =
      (rx.message_type ≡ challenge_request)
      × (r : List ℕ) × (rx.rand ≡ some r)
      × (rx.autn ≡ some (gen_vec s.secret_k s.secret_opc r).autn)
      × (length xres ≡ 8)
      × (xres ≡ (gen_vec s.secret_k s.secret_opc r).res)
      × (is_off s.state ≡ false)

  handle_type-Authentic :
      (s : OapClientState) (rx : OapMessage) (t : MessageType) {xres : List ℕ}
      → rx.message_type ≡ t
      → response (handle_type gen_vec s rx t).msg_tx ≡ some xres
      → Authentic s rx xres
  unfolding handle_type handle_challenge oap_client_register response
  handle_type-Authentic s rx challenge_request k e =
      let (r, a, b, c, d, on) =
        evaluate_present_accepted s rx.rand rx.autn (answer-response s _ e) in
      (k, r, a, b, c, d, on)
  handle_type-Authentic s rx register_result k e = cc
  handle_type-Authentic s rx register_error k e =
      elim (Bool-cases (ltb s.registration_failures 3)) [
        | inl h ↦ absurd (no_response _ s.client_id (rw h at e))
        | inr h ↦ absurd (ground (arith, rw h at e))
      ]
  handle_type-Authentic s rx register_request k e = cc
  handle_type-Authentic s rx challenge_result k e = cc
  handle_type-Authentic s rx (unknown n) k e = cc

  handle_decoded-Authentic :
      (s : OapClientState) (o : Option OapMessage) {xres : List ℕ}
      → response (handle_decoded gen_vec s o).msg_tx ≡ some xres
      → (rx : OapMessage) × (o ≡ some rx) × Authentic s rx xres
  unfolding handle_decoded handle_message response
  handle_decoded-Authentic s none e = cc
  handle_decoded-Authentic s (some rx) e = elim (Bool-cases (is_off s.state)) [
    | inl h ↦ absurd (ground (arith, rw h at e))
    | inr h ↦ (rx, refl, handle_type-Authentic s rx rx.message_type refl (rw h at e))
  ]

  -- When the client sends a challenge response, it is enabled and has received a challenge request
  -- whose AUTN is that of the vector of its own secrets for the received RAND, and it answers the 8
  -- octets of that vector.
  pub oap_client_handle-Authentic :
      (decode : List ℕ → Option OapMessage) (s : OapClientState) (msg_rx : List ℕ) {xres : List ℕ}
      → response (oap_client_handle gen_vec decode s msg_rx).msg_tx ≡ some xres
      → (rx : OapMessage) × (decode msg_rx ≡ some rx) × Authentic s rx xres
  unfolding oap_client_handle
  oap_client_handle-Authentic decode s msg_rx e = handle_decoded-Authentic s (decode msg_rx) e
