-- ===== src/Base/Base64.antt =====
-- Go's `base64.StdEncoding`: line ends are skipped, padding is required.
use svcdoctor.Base.Tests.{ltb, ◌==◌, if◌then◌else◌}
use Prim.Native.Nat.{ℕ, ◌+◌, ◌-◌, ◌*◌, ◌/◌, ◌%◌}
use mathlib.Core.Path.{◌≡◌, refl}
use mathlib.Core.Bool.{Bool, ◌&&◌, ◌||◌}
use mathlib.Core.List.{[], ◌∷◌}
use mathlib.Core.Option.{Option, none, some}
use svcdoctor.Base.Bytes.{Bytes, codes, eqb}
use svcdoctor.Base.Utf8.{within}

abbrev digit_of : ℕ → ℕ
digit_of n =
    if ltb n 26
    then b'A' + n
    else if ltb n 52
    then b'a' + (n - 26)
    else if ltb n 62
    then b'0' + (n - 52)
    else if n == 62
    then b'+'
    else b'/'

abbrev value_of : ℕ → Option ℕ
value_of c =
    if within b'A' b'Z' c
    then some (c - b'A')
    else if within b'a' b'z' c
    then some (c - b'a' + 26)
    else if within b'0' b'9' c
    then some (c - b'0' + 52)
    else if c == b'+'
    then some 62
    else if c == b'/'
    then some 63
    else none

unfoldable pub encode_base64 : Bytes → Bytes
encode_base64 [] = []
encode_base64 (x ∷ []) = digit_of (x / 4) ∷ digit_of (x % 4 * 16) ∷ codes "=="
encode_base64 (x ∷ y ∷ []) =
    digit_of (x / 4) ∷ digit_of (x % 4 * 16 + y / 16) ∷ digit_of (y % 16 * 4) ∷ codes "="
encode_base64 (x ∷ y ∷ z ∷ rest) =
    digit_of (x / 4)
    ∷ digit_of (x % 4 * 16 + y / 16)
    ∷ digit_of (y % 16 * 4 + z / 64)
    ∷ digit_of (z % 64)
    ∷ encode_base64 rest

abbrev one_byte : Option ℕ → Option ℕ → Option Bytes
one_byte (some a) (some b) = some ((a * 4 + b / 16) ∷ [])
one_byte _ _ = none

abbrev two_bytes : Option ℕ → Option ℕ → Option ℕ → Option Bytes
two_bytes (some a) (some b) (some c) = some ((a * 4 + b / 16) ∷ (b % 16 * 16 + c / 4) ∷ [])
two_bytes _ _ _ = none

abbrev three_bytes : Option ℕ → Option ℕ → Option ℕ → Option ℕ → Option Bytes → Option Bytes
three_bytes (some a) (some b) (some c) (some d) (some rest) =
    some ((a * 4 + b / 16) ∷ (b % 16 * 16 + c / 4) ∷ (c % 4 * 64 + d) ∷ rest)
three_bytes _ _ _ _ _ = none

unfoldable pub decode_quads : Bytes → Option Bytes
decode_quads [] = some []
decode_quads (a ∷ b ∷ c ∷ d ∷ rest) =
    let more =
      three_bytes (value_of a) (value_of b) (value_of c) (value_of d) (decode_quads rest) in
    if d == b'=' && eqb rest []
    then if c == b'='
      then one_byte (value_of a) (value_of b)
      else two_bytes (value_of a) (value_of b) (value_of c)
    else more
decode_quads _ = none

abbrev is_line_end : ℕ → Bool
is_line_end c = c == 10 || c == 13

unfoldable pub drop_line_ends : Bytes → Bytes
drop_line_ends [] = []
drop_line_ends (c ∷ s) = let rest = drop_line_ends s in if is_line_end c then rest else c ∷ rest

-- `DecodeString`; `none` is an error.
unfoldable pub decode_base64 : Bytes → Option Bytes
unfolding decode_quads drop_line_ends
decode_base64 s = decode_quads (drop_line_ends s)

header_encoded : encode_base64 (codes "n,,") ≡ codes "biws"
unfolding encode_base64
header_encoded = refl

padded_encoded : decode_base64 (encode_base64 (codes "ab")) ≡ some (codes "ab")
unfolding encode_base64 decode_base64 eqb
padded_encoded = refl

padding_missing : decode_base64 (codes "YWI") ≡ none
unfolding decode_base64
padding_missing = refl
