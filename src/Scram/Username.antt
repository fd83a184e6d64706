-- ===== src/Scram/Username.antt =====
-- internal/sasl/scram/saslname.go: the username in the attribute `n=`.
pub mod Escaped
use svcdoctor.Base.{
  ℕ, ◌+◌, Bool, true, false, not, ◌&&◌, ◌||◌, List, [], ◌∷◌, ◌++◌, length, ltb, leb, ◌==◌,
  if◌then◌else◌,
}
use svcdoctor.Base.Bytes.{Bytes, codes}
use svcdoctor.Base.Result.{Result, ok, err, ◌>>◌, reject}
use svcdoctor.Scram.{ScramError, username_unsupported}

abbrev pub max_username_len : ℕ
max_username_len = 256

abbrev pub is_printable : ℕ → Bool
is_printable c = leb 0x20 c && leb c 0x7E

unfoldable pub printable_ascii : Bytes → Bool
printable_ascii [] = true
printable_ascii (c ∷ s) = is_printable c && printable_ascii s

abbrev pub is_rfc_printable : ℕ → Bool
is_rfc_printable c = (leb 0x21 c && leb c 0x2B) || (leb 0x2D c && leb c 0x7E)

unfoldable pub printable_rfc : Bytes → Bool
printable_rfc [] = true
printable_rfc (c ∷ s) = is_rfc_printable c && printable_rfc s

abbrev pub needs_escape : ℕ → Bool
needs_escape c = c == b',' || c == b'='

-- The first loop: the length of the result.
unfoldable pub encoded_len : Bytes → ℕ
encoded_len [] = 0
encoded_len (c ∷ s) = (if needs_escape c then 3 else 1) + encoded_len s

unfoldable pub escape : Bytes → Bytes
escape [] = []
escape (c ∷ s) =
    (if c == b',' then codes "=2C" else if c == b'=' then codes "=3D" else c ∷ []) ++ escape s

unfoldable pub encode_saslname : Bytes → Result ScramError Bytes
unfolding printable_ascii encoded_len escape
encode_saslname user = do
  reject (ltb max_username_len (length user)) username_unsupported
  reject (not (printable_ascii user)) username_unsupported
  ok (if encoded_len user == length user then user else escape user)
