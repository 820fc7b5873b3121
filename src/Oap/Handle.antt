-- ===== src/Oap/Handle.antt =====
-- openbsc/src/libcommon/oap_client.c: the replies of the client, one by one and over a sequence.
use openbsc.Base.{
  ℕ, ◌+◌, ◌≤◌, ◌<◌, ◌≡◌, ◌≢◌, refl, Bool, true, false, Option, none, some, List, [], ◌∷◌,
  if◌then◌else◌, ltb, ltb→lt, arith,
}
use openbsc.Oap.{
  OapClientState, MessageType, register_request, register_error, register_result, challenge_request,
  challenge_result, unknown, OapMessage, AuthVector, Reply, oap_client_register, oap_msg_register,
  oap_msg_challenge_response, is_off, Verdict, accepted, refused, handle_type, handle_decoded,
  register_with, answer, handle_challenge, handle_message, oap_client_handle, empty_message,
}

-- A registration request in what is sent.
unfoldable pub requests : Option OapMessage → ℕ
requests none = 0
requests (some m) = elim m.message_type [ register_request ↦ 1 | _ ↦ 0 ]

-- What holds of every reply: nothing is sent with an error, and the client gains a registration
-- request at most by a failure that it counts, of which it counts three.
pub record Sound (s : OapClientState) (r : Reply) : Type 0 where
  pub silent : r.rc ≢ 0 → r.msg_tx ≡ none
  pub counted : requests r.msg_tx + s.registration_failures ≤ r.after.registration_failures
  pub bounded : s.registration_failures ≤ 3 → r.after.registration_failures ≤ 3

quiet-Sound :
    (s t : OapClientState) (rc : ℕ)
    → t.registration_failures ≡ s.registration_failures
    → Sound s (record { after = t; rc = rc; msg_tx = none })
unfolding requests
quiet-Sound s t rc e = record {
  silent = λ n. refl;
  counted = omega (arith, e);
  bounded = λ h. omega (arith, e);
}

answer-Sound : (s : OapClientState) (v : Verdict) → Sound s (answer s v)
unfolding answer requests oap_msg_challenge_response empty_message
answer-Sound s (refused rc) = quiet-Sound s _ rc refl
answer-Sound s (accepted xres) = record {
  silent = λ n. absurd (n refl);
  counted = omega arith;
  bounded = λ h. h;
}

register_with-Sound :
    (s t : OapClientState) (o : Option OapMessage)
    → t.registration_failures ≡ s.registration_failures + 1
    → s.registration_failures < 3
    → requests o ≤ 1
    → Sound s (register_with t o)
unfolding register_with requests
register_with-Sound s t none e h n = record {
  silent = λ n. refl;
  counted = omega (arith, e);
  bounded = λ _. omega (arith, e, h);
}
register_with-Sound s t (some m) e h n = record {
  silent = λ n. absurd (n refl);
  counted = omega (arith, e);
  bounded = λ _. omega (arith, e, h);
}

requests-le : (o : Option OapMessage) → requests o ≤ 1
unfolding requests
requests-le none = omega arith
requests-le (some m) = ground arith

Sound-if :
    (s : OapClientState) (c : Bool) (r₁ r₂ : Reply)
    → (c ≡ true → Sound s r₁)
    → (c ≡ false → Sound s r₂)
    → Sound s (if c then r₁ else r₂)
Sound-if s true r₁ r₂ h k = h refl
Sound-if s false r₁ r₂ h k = k refl

module _ (gen_vec : List ℕ → List ℕ → List ℕ → AuthVector) where
  handle_type-Sound :
      (s : OapClientState) (rx : OapMessage) (t : MessageType)
      → Sound s (handle_type gen_vec s rx t)
  unfolding handle_type handle_challenge oap_client_register
  handle_type-Sound s rx challenge_request = answer-Sound s _
  handle_type-Sound s rx register_result = quiet-Sound s _ 0 refl
  handle_type-Sound s rx register_error =
      Sound-if s (ltb s.registration_failures 3) _ _
        (λ h.
          register_with-Sound s _ (oap_msg_register s.client_id) refl (omega (arith, ltb→lt _ _ h))
            (requests-le _))
        (λ h. quiet-Sound s _ 11 refl)
  handle_type-Sound s rx register_request = quiet-Sound s s 12 refl
  handle_type-Sound s rx challenge_result = quiet-Sound s s 12 refl
  handle_type-Sound s rx (unknown n) = quiet-Sound s s 13 refl

  handle_decoded-Sound :
      (s : OapClientState) (o : Option OapMessage) → Sound s (handle_decoded gen_vec s o)
  unfolding handle_decoded handle_message
  handle_decoded-Sound s none = quiet-Sound s s 10 refl
  handle_decoded-Sound s (some rx) =
      Sound-if s (is_off s.state) _ _ (λ _. quiet-Sound s s 107 refl)
        (λ _. handle_type-Sound s rx rx.message_type)

  -- Whatever is received, no message is sent together with an error, a registration request is sent
  -- only for a failure that is counted, and from at most three counted failures there are never
  -- more.
  pub oap_client_handle-Sound :
      (decode : List ℕ → Option OapMessage) (s : OapClientState) (msg_rx : List ℕ)
      → Sound s (oap_client_handle gen_vec decode s msg_rx)
  unfolding oap_client_handle
  oap_client_handle-Sound decode s msg_rx = handle_decoded-Sound s (decode msg_rx)

  module _ (decode : List ℕ → Option OapMessage) where
    -- The state after a sequence of messages, and the registration requests sent on the way.
    unfoldable pub handle_all : OapClientState → List (List ℕ) → OapClientState × ℕ
    handle_all s [] = (s, 0)
    handle_all s (m ∷ ms) =
        let r = oap_client_handle gen_vec decode s m in
        let (t, n) = handle_all r.after ms in (t, requests r.msg_tx + n)

    -- Whatever messages a client receives that has counted at most three failures, the registration
    -- requests it sends in response and the failures counted before are at most three.
    pub handle_all-requests :
        (s : OapClientState) (ms : List (List ℕ))
        → s.registration_failures ≤ 3
        → (handle_all s ms).1 + s.registration_failures ≤ 3
    unfolding handle_all
    handle_all-requests s [] h = omega arith
    handle_all-requests s (m ∷ ms) h =
        let r = oap_client_handle-Sound decode s m in
        let rest =
          handle_all-requests (oap_client_handle gen_vec decode s m).after ms (r.bounded h) in
        omega (arith, r.counted, rest)
