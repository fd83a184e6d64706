-- ===== src/Scram/Parse.antt =====
-- internal/sasl/scram/parse.go: what the server chooses in its first message.
pub mod Attributes
pub mod Accepted
use svcdoctor.Base.{
  ℕ, zero, suc, ◌+◌, ◌-◌, ◌*◌, ◌/◌, ◌^◌, Bool, true, false, not, ◌&&◌, ◌||◌, List, [], ◌∷◌, ◌++◌,
  Option, none, some, length, take, ltb, leb, ◌==◌, if◌then◌else◌,
}
use svcdoctor.Base.Base64.{decode_base64}
use svcdoctor.Base.Bytes.{Bytes, codes, eqb}
use svcdoctor.Base.Result.{Result, ok, err, ◌>>◌, ◌>>=◌, reject}
use svcdoctor.Scram.{
  ScramError, malformed_message, unexpected_response, message_too_large, iterations_unsupported,
}
use svcdoctor.Scram.Username.{printable_rfc}

abbrev pub max_server_first_len : ℕ
max_server_first_len = 8192

abbrev pub max_server_final_len : ℕ
max_server_final_len = 8192

abbrev pub max_salt_len : ℕ
max_salt_len = 1024

abbrev pub max_salt_encoded_len : ℕ
max_salt_encoded_len = (max_salt_len + 2) / 3 * 4

abbrev pub max_nonce_len : ℕ
max_nonce_len = 1024

abbrev pub max_attributes : ℕ
max_attributes = 32

abbrev pub max_iterations : ℕ
max_iterations = 1048576

-- The bytes before the first comma, and those after it if there is one.
unfoldable pub cut_comma : Bytes → Bytes × Option Bytes
cut_comma [] = ([], none)
cut_comma (c ∷ s) =
    let (before, after) = cut_comma s in if c == b',' then ([], some s) else (c ∷ before, after)

-- A key and its value.
abbrev pub read_attribute : Bytes → Result ScramError (ℕ × Bytes)
read_attribute (key ∷ equals ∷ value) =
    if equals == b'=' then ok (key, value) else err malformed_message
read_attribute _ = err malformed_message

-- The walk, with the attributes that are left before it is refused and what `visit` keeps.
unfoldable pub attributes :
    {A : Type 0} (visit : ℕ → Bytes → A → Result ScramError A) → ℕ → Bytes → A → Result ScramError A
unfolding cut_comma
attributes visit zero raw a = err message_too_large
attributes visit (suc left) raw a = do
  (key, value) ← read_attribute (cut_comma raw).0
  kept ← visit key value a
  elim (cut_comma raw).1 [ none ↦ ok kept | some rest ↦ attributes visit left rest kept ]

-- The variables that the visitor of `parseServerFirst` sets.
pub record Seen : Type 0 where
  pub r : Option Bytes
  pub s : Option Bytes
  pub i : Option Bytes

abbrev pub set_once : Option Bytes → Bytes → Result ScramError (Option Bytes)
set_once none value = ok (some value)
set_once (some old) value = err malformed_message

unfoldable pub visit_first : ℕ → Bytes → Seen → Result ScramError Seen
visit_first key value seen =
    if key == b'r'
    then set_once seen.r value >>= (λ r. ok (record seen { r = r }))
    else if key == b's'
    then set_once seen.s value >>= (λ s. ok (record seen { s = s }))
    else if key == b'i'
    then set_once seen.i value >>= (λ i. ok (record seen { i = i }))
    else if key == b'm'
    then err unexpected_response
    else ok seen

unfoldable pub all_digits : Bytes → Bool
all_digits [] = true
all_digits (c ∷ v) = leb b'0' c && leb c b'9' && all_digits v

-- The number that digits denote, after one that is read.
unfoldable pub decimal : ℕ → Bytes → ℕ
decimal n [] = n
decimal n (c ∷ v) = decimal (n * 10 + (c - b'0')) v

-- `ParseUint` of digits has a range error from 2 ^ 64.
unfoldable pub parse_iterations : Bytes → Result ScramError ℕ
unfolding all_digits decimal
parse_iterations v = do
  reject (eqb v []) malformed_message
  reject (not (all_digits v)) malformed_message
  reject (leb (2 ^ 64) (decimal 0 v)) iterations_unsupported
  reject (decimal 0 v == 0) malformed_message
  reject (ltb max_iterations (decimal 0 v)) iterations_unsupported
  ok (decimal 0 v)

pub record ServerFirst : Type 0 where
  pub nonce : Bytes
  pub salt : Bytes
  pub iterations : ℕ

abbrev pub required : Option Bytes → Result ScramError Bytes
required none = err malformed_message
required (some value) = ok value

abbrev pub decoded : Option Bytes → Result ScramError Bytes
decoded none = err malformed_message
decoded (some bytes) = ok bytes

-- The nonce is not a strict extension of the client's.
abbrev pub not_extending : Bytes → Bytes → Bool
not_extending nonce client_nonce =
    leb (length nonce) (length client_nonce)
    || not (eqb (take (length client_nonce) nonce) client_nonce)

abbrev pub check_nonce : Bytes → Bytes → Result ScramError (Unit {0})
check_nonce nonce client_nonce = do
  reject (ltb max_nonce_len (length nonce)) message_too_large
  reject (not (printable_rfc nonce)) malformed_message
  reject (not_extending nonce client_nonce) malformed_message

abbrev pub read_salt : Bytes → Result ScramError Bytes
read_salt text = do
  reject (ltb max_salt_encoded_len (length text)) message_too_large
  salt ← decoded (decode_base64 text)
  reject (ltb max_salt_len (length salt)) message_too_large
  ok salt

unfoldable pub parse_server_first : Bytes → Bytes → Result ScramError ServerFirst
unfolding attributes visit_first parse_iterations
parse_server_first raw client_nonce = do
  reject (ltb max_server_first_len (length raw)) message_too_large
  seen ← attributes visit_first max_attributes raw (record { r = none; s = none; i = none })
  nonce ← required seen.r
  salt_text ← required seen.s
  iter_str ← required seen.i
  check_nonce nonce client_nonce
  salt ← read_salt salt_text
  iterations ← parse_iterations iter_str
  ok (record { nonce = nonce; salt = salt; iterations = iterations })
