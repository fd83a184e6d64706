-- ===== src/Scram/Exchange/Ordered.antt =====
-- The steps of internal/sasl/scram/scram.go, called in any order.
use svcdoctor.Base.{
  Bool, true, false, List, [], ◌∷◌, ◌++◌, Option, none, some, ◌≡◌, ◌⊎◌, refl, inl, inr,
  if◌then◌else◌,
}
use svcdoctor.Base.Bytes.{Bytes}
use svcdoctor.Base.Result.{ok, is_ok, Result-cases}
use svcdoctor.Scram.Username.{encode_saslname}
use svcdoctor.Scram.Exchange.{
  begun, continued, done, failed, ScramState, Derive, begin_exchange, verify_server_final, verify,
  continue, derived,
}

module _ (hmac : Bytes → Bytes → Bytes) (sha256 : Bytes → Bytes) where
  -- A call of `Continue` or of `Verify`.
  pub data Call : Type 0 where
    continue_call : Bytes → Option Derive → Call
    verify_call : Bytes → Call

  -- The state after the calls, and which of them succeeded: `false` for `Continue`, `true` for
  -- `Verify`, in their order.
  abbrev pub run : ScramState → List Bool → List Call → ScramState × List Bool
  run s seen [] = (s, seen)
  run s seen (continue_call message derive ∷ calls) =
      let (t, result) = continue hmac sha256 s message derive in
      run t (if is_ok result then seen ++ false ∷ [] else seen) calls
  run s seen (verify_call message ∷ calls) =
      let (t, result) = verify s message in
      run t (if is_ok result then seen ++ true ∷ [] else seen) calls

  -- How far an exchange has come, and what its state still holds.
  pub data Phase (start : ScramState) : ScramState × List Bool → Type 0 where
    fresh : Phase start (start, [])
    answered :
        {s : ScramState}
        → s.step ≡ continued
        → s.client_first_bare ≡ []
        → s.client_nonce ≡ []
        → Phase start (s, false ∷ [])
    proven :
        {s : ScramState}
        → s.step ≡ done
        → s.client_first_bare ≡ []
        → s.client_nonce ≡ []
        → s.expected_server_signature ≡ []
        → Phase start (s, false ∷ true ∷ [])
    refused :
        {s : ScramState} {seen : List Bool}
        → s.step ≡ failed
        → s.expected_server_signature ≡ []
        → (seen ≡ []) ⊎ (seen ≡ false ∷ [])
        → Phase start (s, seen)

  module _ (start : ScramState) (unsigned : start.expected_server_signature ≡ [])
      (ready : start.step ≡ begun) where
    after_continue :
        (s : ScramState) (seen : List Bool) (message : Bytes) (derive : Option Derive)
        → Phase start (s, seen)
        → Phase start (
          (continue hmac sha256 s message derive).0,
          if is_ok (continue hmac sha256 s message derive).1 then seen ++ false ∷ [] else seen,
        )
    unfolding continue
    after_continue s seen message none fresh = rw ready (refused refl unsigned (inl refl))
    after_continue s seen message (some derive) fresh =
        elim (Result-cases (derived start.client_nonce message derive)) [
          | inl ((first, salted), e) ↦ rw (ready, e) (answered refl refl refl)
          | inr (error, e) ↦ rw (ready, e) (refused refl unsigned (inl refl))
        ]
    after_continue s seen message derive (answered step bare nonce) =
        rw step (answered refl bare nonce)
    after_continue s seen message derive (proven step bare nonce signature) =
        rw step (proven refl bare nonce signature)
    after_continue s seen message derive (refused step signature few) =
        rw step (refused refl signature few)

    after_verify :
        (s : ScramState) (seen : List Bool) (message : Bytes)
        → Phase start (s, seen)
        → Phase start
            ((verify s message).0, if is_ok (verify s message).1 then seen ++ true ∷ [] else seen)
    unfolding verify
    after_verify s seen message fresh = rw ready fresh
    after_verify s seen message (answered step bare nonce) =
        elim (Result-cases (verify_server_final message s.expected_server_signature)) [
          | inl (u, e) ↦ rw (step, e) (proven refl bare nonce refl)
          | inr (error, e) ↦ rw (step, e) (refused refl refl (inr refl))
        ]
    after_verify s seen message (proven step bare nonce signature) =
        rw step (proven refl bare nonce signature)
    after_verify s seen message (refused step signature few) = rw step (refused refl signature few)

    run-Phase :
        (calls : List Call) (s : ScramState) (seen : List Bool)
        → Phase start (s, seen)
        → Phase start (run s seen calls)
    run-Phase [] s seen p = p
    run-Phase (continue_call message derive ∷ calls) s seen p =
        run-Phase calls _ _ (after_continue s seen message derive p)
    run-Phase (verify_call message ∷ calls) s seen p =
        run-Phase calls _ _ (after_verify s seen message p)

  -- After an exchange has begun, whatever is called in whatever order, `Continue` succeeds at most
  -- once, and `Verify` at most once and only after it. Once the client has answered, the state holds
  -- neither its first message nor its nonce, unless it fails then; once the server has proven itself
  -- it holds no secret at all, and after a failure no signature.
  pub run-Ordered :
      (user : Bytes) (nonce : Option Bytes) (start : ScramState) (bare : Bytes) (calls : List Call)
      → begin_exchange user nonce ≡ ok (start, bare)
      → Phase start (run start [] calls)
  unfolding begin_exchange
  run-Ordered user none start bare calls h = elim (Result-cases (encode_saslname user)) [
    | inl (name, e) ↦ absurd (let moved = rw e at h in cc)
    | inr (error, e) ↦ absurd (let moved = rw e at h in cc)
  ]
  run-Ordered user (some fresh_nonce) start bare calls h =
      elim (Result-cases (encode_saslname user)) [
        | inl (name, e) ↦ let moved = rw e at h in run-Phase start (cc) (cc) calls start [] fresh
        | inr (error, e) ↦ absurd (let moved = rw e at h in cc)
      ]
