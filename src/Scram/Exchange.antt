-- ===== src/Scram/Exchange.antt =====
-- internal/sasl/scram/scram.go: the exchange. HMAC-SHA-256 and SHA-256 are parameters.
pub mod Limited
pub mod Xor
pub mod Final
pub mod Signed
pub mod Ordered
use svcdoctor.Base.{
  ℕ, zero, suc, ◌+◌, ◌*◌, ◌/◌, ◌%◌, Bool, true, false, not, ◌&&◌, ◌||◌, List, [], ◌∷◌, ◌++◌, Option,
  none, some, length, ltb, ◌==◌, if◌then◌else◌,
}
use svcdoctor.Base.Base64.{encode_base64, decode_base64}
use svcdoctor.Base.Bytes.{Bytes, codes, eqb}
use svcdoctor.Base.Result.{Result, ok, err, ◌>>◌, ◌>>=◌, reject}
use svcdoctor.Scram.{
  ScramError, malformed_message, unexpected_response, message_too_large, no_derivation,
  derivation_failed, derived_key_length, rejected, server_signature_mismatch, wrong_step,
  no_entropy,
}
use svcdoctor.Scram.Username.{encode_saslname}
use svcdoctor.Scram.Parse.{
  max_server_final_len, cut_comma, read_attribute, ServerFirst, parse_server_first,
}

abbrev pub derived_key_len : ℕ
derived_key_len = 32

abbrev pub gs2_header : Bytes
gs2_header = codes "n,,"

-- Derives the salted password, or fails.
abbrev pub Derive : Type 0
Derive = Bytes → ℕ → Option Bytes

pub data ExchangeStep : Type 0 where
  begun continued done failed : ExchangeStep

pub record ScramState : Type 0 where
  pub step : ExchangeStep
  pub client_first_bare : Bytes
  pub client_nonce : Bytes
  pub expected_server_signature : Bytes

-- `begin`, with what the source of nonces answers.
unfoldable pub begin_exchange : Bytes → Option Bytes → Result ScramError (ScramState × Bytes)
begin_exchange user nonces = do
  encoded ← encode_saslname user
  nonce ← elim nonces [ none ↦ err no_entropy | some n ↦ ok n ]
  let bare = codes "n=" ++ (encoded ++ (codes ",r=" ++ nonce))
  ok (
    record {
      step = begun;
      client_first_bare = bare;
      client_nonce = nonce;
      expected_server_signature = [];
    },
    bare,
  )

-- `^` on numbers of `k` bits
unfoldable pub xor : ℕ → ℕ → ℕ → ℕ
xor zero a b = 0
xor (suc k) a b = (a + b) % 2 + 2 * xor k (a / 2) (b / 2)

unfoldable pub xor_bytes : Bytes → Bytes → Bytes
unfolding xor
xor_bytes (a ∷ xs) (b ∷ ys) = xor 8 a b ∷ xor_bytes xs ys
xor_bytes _ _ = []

abbrev pub without_proof : Bytes → Bytes
without_proof nonce = codes "c=" ++ (encode_base64 gs2_header ++ (codes ",r=" ++ nonce))

abbrev pub auth_message : Bytes → Bytes → Bytes → Bytes
auth_message bare server_first nonce =
    bare ++ (codes "," ++ (server_first ++ (codes "," ++ without_proof nonce)))

abbrev pub failing : ScramState → ScramState
failing s = record s { step = failed }

abbrev pub key_or_failure : Option Bytes → Result ScramError Bytes
key_or_failure none = err derivation_failed
key_or_failure (some salted) = ok salted

-- The message parsed and the password derived, in that order.
unfoldable pub derived : Bytes → Bytes → Derive → Result ScramError (ServerFirst × Bytes)
derived client_nonce server_first derive = do
  first ← parse_server_first server_first client_nonce
  salted ← key_or_failure (derive first.salt first.iterations)
  reject (not (length salted == derived_key_len)) derived_key_length
  ok (first, salted)

-- The error token after `e=`.
abbrev pub server_error : Bytes → ScramError
server_error token =
    if eqb token (codes "invalid-proof") || eqb token (codes "unknown-user")
    then rejected
    else unexpected_response

abbrev pub check_signature : Bytes → Option Bytes → Result ScramError (Unit {0})
check_signature expected none = err malformed_message
check_signature expected (some signature) =
    reject (not (eqb signature expected)) server_signature_mismatch

abbrev pub final_attribute : Bytes → ℕ → Bytes → Result ScramError (Unit {0})
final_attribute expected key value =
    if key == b'e'
    then err (server_error value)
    else if key == b'v'
    then check_signature expected (decode_base64 value)
    else err malformed_message

unfoldable pub verify_server_final : Bytes → Bytes → Result ScramError (Unit {0})
unfolding cut_comma
verify_server_final raw expected = do
  reject (ltb max_server_final_len (length raw)) message_too_large
  (key, value) ← read_attribute (cut_comma raw).0
  final_attribute expected key value

abbrev verified :
    ScramState → Result ScramError (Unit {0}) → ScramState × Result ScramError (Unit {0})
verified s (ok u) = (record s { step = done; expected_server_signature = [] }, ok u)
verified s (err e) = (record s { step = failed; expected_server_signature = [] }, err e)

abbrev verify_from :
    ScramState
    → ExchangeStep
    → Result ScramError (Unit {0})
    → ScramState × Result ScramError (Unit {0})
verify_from s continued result = verified s result
verify_from s _ result = (s, err wrong_step)

-- `Verify`
unfoldable pub verify : ScramState → Bytes → ScramState × Result ScramError (Unit {0})
unfolding verify_server_final
verify s server_final =
    verify_from s s.step (verify_server_final server_final s.expected_server_signature)

module _ (hmac : Bytes → Bytes → Bytes) (sha256 : Bytes → Bytes) where
  -- `finish`: the client's final message and the signature that the server must give.
  unfoldable pub finish_exchange : Bytes → Bytes → ServerFirst → Bytes → Bytes × Bytes
  unfolding xor_bytes
  finish_exchange bare server_first first salted =
      let client_key = hmac salted (codes "Client Key") in
      let stored_key = sha256 client_key in
      let message = auth_message bare server_first first.nonce in
      let proof = xor_bytes client_key (hmac stored_key message) in
      (
        without_proof first.nonce ++ (codes ",p=" ++ encode_base64 proof),
        hmac (hmac salted (codes "Server Key")) message,
      )

  abbrev continued_with :
      ScramState
      → Bytes
      → Result ScramError (ServerFirst × Bytes)
      → ScramState × Result ScramError Bytes
  continued_with s server_first (err e) = (failing s, err e)
  continued_with s server_first (ok (first, salted)) =
      let (client_final, expected) =
        finish_exchange s.client_first_bare server_first first salted in
      (
        record {
          step = continued;
          client_first_bare = [];
          client_nonce = [];
          expected_server_signature = expected;
        },
        ok client_final,
      )

  abbrev continue_with : ScramState → Bytes → Option Derive → ScramState × Result ScramError Bytes
  continue_with s server_first none = (failing s, err no_derivation)
  continue_with s server_first (some derive) =
      continued_with s server_first (derived s.client_nonce server_first derive)

  abbrev continue_from :
      ScramState
      → ExchangeStep
      → ScramState × Result ScramError Bytes
      → ScramState × Result ScramError Bytes
  continue_from s begun result = result
  continue_from s _ result = (s, err wrong_step)

  -- `Continue`
  unfoldable pub continue :
      ScramState → Bytes → Option Derive → ScramState × Result ScramError Bytes
  unfolding derived finish_exchange
  continue s server_first derive = continue_from s s.step (continue_with s server_first derive)
