-- ===== src/Tests/Scram.antt =====
-- A SCRAM exchange with a made-up HMAC.
use svcdoctor.Base.{
  ◌+◌, ◌%◌, ◌<◌, ◌≤◌, ◌⊎◌, any, arith, length, replicate, ltb, ◌==◌, if◌then◌else◌, suc, zero, ℕ,
  true, false, List, [], ◌∷◌, none, some, ◌≡◌, refl,
}
use svcdoctor.Base.Base64.{encode_base64, decode_base64}
use svcdoctor.Base.Bytes.{Bytes, codes, eqb}
use svcdoctor.Base.Result.{Result, ok, err}
use svcdoctor.Scram.{ScramError, username_unsupported, malformed_message, iterations_unsupported}
use svcdoctor.Scram.Username.{encode_saslname, printable_ascii, printable_rfc}
use svcdoctor.Scram.Username.Escaped.{unescape, encode_saslname-unescape}
use svcdoctor.Scram.Parse.{ServerFirst, parse_server_first}
use svcdoctor.Scram.Exchange.{ScramState, Derive, begin_exchange, continue, begun}
use svcdoctor.Scram.Exchange.Limited.{continue-Limited}
use svcdoctor.Scram.Exchange.Signed.{Answer, continue-Answer}
use svcdoctor.Scram.Exchange.Xor.{AreBytes}
use svcdoctor.Scram.Exchange.Ordered.{Call, continue_call, verify_call, run, Phase, run-Ordered}

comma_escaped : encode_saslname (codes "a,b=c") ≡ ok (codes "a=2Cb=3Dc")
unfolding encode_saslname
comma_escaped = refl

control_refused : encode_saslname (10 ∷ []) ≡ err username_unsupported
unfolding encode_saslname
control_refused = refl

first_accepted :
    parse_server_first (codes "r=abc,x=,s=YWI=,i=4096") (codes "ab")
    ≡ ok (record { nonce = codes "abc"; salt = codes "ab"; iterations = 4096 })
unfolding parse_server_first decode_base64 eqb printable_rfc
first_accepted = refl

first_too_many :
    parse_server_first (codes "r=abc,s=YWI=,i=1048577") (codes "ab") ≡ err iterations_unsupported
unfolding parse_server_first decode_base64 eqb printable_rfc
first_too_many = refl

nonce_not_longer : parse_server_first (codes "r=ab,s=YWI=,i=1") (codes "ab") ≡ err malformed_message
unfolding parse_server_first decode_base64 eqb printable_rfc
nonce_not_longer = refl

encode_saslname-unescape_example :
    ((length (codes "a,b") ≤ 256)
      × (printable_ascii (codes "a,b") ≡ true)
      × (s : Bytes) × (encode_saslname (codes "a,b") ≡ ok s)
      × (unescape s ≡ some (codes "a,b"))
      × (any (λ c. c == b',') s ≡ false)
      × (length s ≤ 768))
    ⊎ (((256 < length (codes "a,b")) ⊎ (printable_ascii (codes "a,b") ≡ false))
        × (encode_saslname (codes "a,b") ≡ err username_unsupported))
encode_saslname-unescape_example = encode_saslname-unescape (codes "a,b")

abbrev server_first : Bytes
server_first = codes "r=abc,x=,s=YWI=,i=4096"

abbrev first : ServerFirst
first = record { nonce = codes "abc"; salt = codes "ab"; iterations = 4096 }

-- A keyed function of 32 bytes in place of HMAC.
abbrev hmac : Bytes → Bytes → Bytes
hmac key text = replicate 32 ((length key + length text) % 256)

abbrev sha256 : Bytes → Bytes
sha256 text = replicate 32 (length text % 256)

replicate-AreBytes : (n c : ℕ) → c < 256 → AreBytes (replicate n c)
replicate-AreBytes zero c h = tt
replicate-AreBytes (suc n) c h = (h, replicate-AreBytes n c h)

abbrev derive : Derive
derive salt n = some (replicate 32 1)

abbrev bare : Bytes
bare = codes "n=user,r=ab"

abbrev start : ScramState
start = record {
  step = begun;
  client_first_bare = bare;
  client_nonce = codes "ab";
  expected_server_signature = [];
}

begun_well : begin_exchange (codes "user") (some (codes "ab")) ≡ ok (start, bare)
unfolding begin_exchange encode_saslname
begun_well = refl

abbrev value_or : Result ScramError Bytes → Bytes
value_or (ok x) = x
value_or (err e) = []

abbrev after : ScramState
after = (continue hmac sha256 start server_first (some derive)).0

abbrev answer : Bytes
answer = value_or (continue hmac sha256 start server_first (some derive)).1

answers : continue hmac sha256 start server_first (some derive) ≡ (after, ok answer)
unfolding continue parse_server_first decode_base64 encode_base64 eqb printable_rfc
answers = refl

continue-Answer_example : Answer hmac sha256 start after server_first derive answer
continue-Answer_example =
    continue-Answer hmac sha256 (λ key text. refl)
      (λ key text. replicate-AreBytes 32 _ (omega arith)) start after server_first derive answer
      answers

-- A derivation that refuses large counts gives the same.
abbrev careful : Derive
careful salt n = if ltb 1048576 n then none else derive salt n

continue-Limited_example :
    continue hmac sha256 start server_first (some derive)
    ≡ continue hmac sha256 start server_first (some careful)
continue-Limited_example =
    continue-Limited hmac sha256 start server_first derive careful
      (λ salt n short positive bounded. ground (arith, bounded))

abbrev calls : List (Call hmac sha256)
calls =
    verify_call (codes "v=")
    ∷ continue_call server_first (some derive)
    ∷ verify_call (codes "v=YQ==")
    ∷ []

run-Ordered_example : Phase hmac sha256 start (run hmac sha256 start [] calls)
run-Ordered_example =
    run-Ordered hmac sha256 (codes "user") (some (codes "ab")) start bare calls begun_well
