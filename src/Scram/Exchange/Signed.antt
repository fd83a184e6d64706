-- ===== src/Scram/Exchange/Signed.antt =====
-- What both sides of the exchange of internal/sasl/scram/scram.go prove.
use svcdoctor.Base.{
  false, not, [], ◌++◌, some, length, ◌==◌, ◌≡◌, ◌↔◌, refl, sym, ap, subst, ◌∙◌, inl, inr, arith,
  Option-cases,
}
use svcdoctor.Base.Base64.{encode_base64}
use svcdoctor.Base.Bytes.{Bytes, codes}
use svcdoctor.Base.Result.{Result, ok, err, Result-cases, reject-eq-ok}
use svcdoctor.Scram.{ScramError, derived_key_length}
use svcdoctor.Scram.Parse.{ServerFirst, parse_server_first}
use svcdoctor.Scram.Parse.Accepted.{Acceptable, parse_server_first-Acceptable}
use svcdoctor.Scram.Exchange.{
  ExchangeStep, begun, continued, done, failed, ScramState, Derive, xor_bytes, verify,
  continue_from, continue, derived,
}
use svcdoctor.Scram.Exchange.Xor.{AreBytes, xor_bytes_cancel}
use svcdoctor.Scram.Exchange.Final.{Signs, verify_server_final_iff, verify-continued}

module _ (hmac : Bytes → Bytes → Bytes) (sha256 : Bytes → Bytes) where
  -- RFC 5802, section 3, with the header `n,,` in base64.
  abbrev rfc_auth_message : Bytes → Bytes → Bytes → Bytes
  rfc_auth_message bare server_first nonce =
      bare ++ (codes "," ++ (server_first ++ (codes "," ++ (codes "c=biws,r=" ++ nonce))))

  abbrev rfc_client_key : Bytes → Bytes
  rfc_client_key salted = hmac salted (codes "Client Key")

  abbrev rfc_client_signature : Bytes → Bytes → Bytes
  rfc_client_signature salted message = hmac (sha256 (rfc_client_key salted)) message

  abbrev rfc_server_signature : Bytes → Bytes → Bytes
  rfc_server_signature salted message = hmac (hmac salted (codes "Server Key")) message

  -- The client's answer, and what it then takes from the server.
  pub record Answer (s t : ScramState) (server_first : Bytes) (derive : Derive)
      (client_final : Bytes) : Type 0 where
    pub first : ServerFirst
    pub accepted : Acceptable server_first s.client_nonce first
    pub salted : Bytes
    pub salted_is : derive first.salt first.iterations ≡ some salted
    pub salted_length : length salted ≡ 32
    pub proof : Bytes
    pub client_final_is :
        client_final ≡ codes "c=biws,r=" ++ (first.nonce ++ (codes ",p=" ++ encode_base64 proof))
    pub proof_opens :
        xor_bytes proof (
          rfc_client_signature salted
            (rfc_auth_message s.client_first_bare server_first first.nonce))
        ≡ rfc_client_key salted
    pub verifies :
        (server_final : Bytes)
        → ((verify t server_final).1 ≡ ok tt)
          ↔ Signs server_final (
              rfc_server_signature salted
                (rfc_auth_message s.client_first_bare server_first first.nonce))

  module _ (hmac_length : (key text : Bytes) → length (hmac key text) ≡ 32)
      (hmac_bytes : (key text : Bytes) → AreBytes (hmac key text)) where
    abbrev finished : ScramState → Bytes → ServerFirst → Bytes → ScramState
    finished s server_first first salted = record {
      step = continued;
      client_first_bare = [];
      client_nonce = [];
      expected_server_signature =
          rfc_server_signature salted
            (rfc_auth_message s.client_first_bare server_first first.nonce);
    }

    abbrev value_or : Result ScramError Bytes → Bytes
    value_or (ok x) = x
    value_or (err e) = []

    length_is : (key : Bytes) → not (length key == 32) ≡ false → length key ≡ 32
    length_is key h = ground (arith, h)

    from_begun :
        (s t : ScramState) (step : ExchangeStep) (result : ScramState × Result ScramError Bytes)
        (client_final : Bytes)
        → continue_from hmac sha256 s step result ≡ (t, ok client_final)
        → result ≡ (t, ok client_final)
    from_begun s t begun result client_final h = h
    from_begun s t continued result client_final h = absurd (cc)
    from_begun s t done result client_final h = absurd (cc)
    from_begun s t failed result client_final h = absurd (cc)

    derived-ok :
        (client_nonce raw : Bytes) (derive : Derive) (first : ServerFirst) (salted : Bytes)
        → derived client_nonce raw derive ≡ ok (first, salted)
        → (parse_server_first raw client_nonce ≡ ok first)
          × (derive first.salt first.iterations ≡ some salted)
          × (length salted ≡ 32)
    unfolding derived
    derived-ok client_nonce raw derive first salted h =
        elim (Result-cases (parse_server_first raw client_nonce)) [
          | inr (error, bad) ↦ absurd (let moved = rw bad at h in cc)
          | inl (f, parsed) ↦ elim (Option-cases (derive f.salt f.iterations)) [
            | inl missing ↦ absurd (let moved = rw (parsed, missing) at h in cc)
            | inr (key, made) ↦
                let (sized, same) =
                  reject-eq-ok (not (length key == 32)) derived_key_length (ok (f, key))
                    {r = (first, salted)} (rw (parsed, made) at h) in
                let same_first : f ≡ first = cc in
                let same_key : key ≡ salted = cc in
                (
                  parsed ∙ ap ok same_first,
                  subst (λ x. derive x.salt x.iterations ≡ some salted) same_first
                      (made ∙ ap some same_key),
                  subst (λ x. length x ≡ 32) same_key (length_is key sized),
                )
          ]
        ]

    -- With an HMAC of 32 bytes, a client that answers has read an acceptable first message and derived
    -- 32 bytes from its salt and count. From its proof a server that knows the salted password
    -- recovers the client key of RFC 5802, section 3; and of all final messages it takes exactly those
    -- that open with the server signature of that section.
    pub continue-Answer :
        (s t : ScramState) (server_first : Bytes) (derive : Derive) (client_final : Bytes)
        → continue hmac sha256 s server_first (some derive) ≡ (t, ok client_final)
        → Answer s t server_first derive client_final
    unfolding continue encode_base64
    continue-Answer s t server_first derive client_final h =
        let result = from_begun s t s.step _ client_final h in
        elim (Result-cases (derived s.client_nonce server_first derive)) [
          | inr (error, bad) ↦ absurd (let moved = rw bad at result in cc)
          | inl ((first, salted), good) ↦
              let moved = rw good at result in
              let (parsed, made, sized) =
                derived-ok s.client_nonce server_first derive first salted good in
              let message = rfc_auth_message s.client_first_bare server_first first.nonce in
              let proof = xor_bytes (rfc_client_key salted) (rfc_client_signature salted message) in
              let same_state = ap (λ p. p.0) moved in
              let same_final = ap (λ p. value_or p.1) moved in
              record {
                first = first;
                accepted = parse_server_first-Acceptable server_first s.client_nonce first parsed;
                salted = salted;
                salted_is = made;
                salted_length = sized;
                proof = proof;
                client_final_is = sym same_final;
                proof_opens =
                    xor_bytes_cancel (rfc_client_key salted) (rfc_client_signature salted message)
                      (hmac_bytes salted (codes "Client Key"))
                      (hmac_length salted (codes "Client Key")
                        ∙ sym (hmac_length (sha256 (rfc_client_key salted)) message));
                verifies =
                    subst
                      (λ u.
                        (server_final : Bytes)
                        → ((verify u server_final).1 ≡ ok tt)
                          ↔ Signs server_final (rfc_server_signature salted message))
                      same_state
                      (λ server_final.
                        let same =
                          verify-continued (finished s server_first first salted) server_final
                            refl in
                        let signs =
                          verify_server_final_iff server_final
                            (rfc_server_signature salted message) in
                        (λ h. signs.0 (sym same ∙ h), λ g. same ∙ signs.1 g));
              }
        ]
