-- ===== src/Domain/Names.antt =====
-- internal/domain/evidenceid.go, names.go and serviceid.go: the grammars of the names.
use svcdoctor.Base.{
  ℕ, Bool, true, false, not, ◌&&◌, ◌||◌, List, [], ◌∷◌, ◌++◌, none, some, leb, ◌==◌,
}
use svcdoctor.Base.Bytes.{Bytes, eqb}
use svcdoctor.Base.Result.{Result, ok, err, ◌>>◌, reject, is_ok}
use svcdoctor.Base.Utf8.{runes, trim_space, has_control}

-- The errors of a value of the domain; each wraps `ErrInvalidValue`.
pub data ValueError : Type 0 where
  empty_name not_utf8 untrimmed control_character empty_segment bad_character : ValueError
  blank : ValueError

abbrev runes_ok : List ℕ → Result ValueError (Unit {0})
runes_ok rs = do
  reject (not (eqb (trim_space rs) rs)) untrimmed
  reject (has_control rs) control_character

unfoldable pub validate_identifier : Bytes → Result ValueError (Unit {0})
validate_identifier s = do
  reject (eqb s []) empty_name
  elim (runes s) [ none ↦ err not_utf8 | some rs ↦ runes_ok rs ]

abbrev pub is_lower_or_digit : ℕ → Bool
is_lower_or_digit c = (leb b'a' c && leb c b'z') || (leb b'0' c && leb c b'9')

-- `strings.Split(s, ".")`
unfoldable pub split_dots : Bytes → Bytes → List Bytes
split_dots acc [] = acc ∷ []
split_dots acc (c ∷ s) = elim (c == b'.') [
  | true ↦ acc ∷ split_dots [] s
  | false ↦ split_dots (acc ++ c ∷ []) s
]

unfoldable pub segment_characters : Bytes → Result ValueError (Unit {0})
segment_characters [] = ok tt
segment_characters (c ∷ s) = do
  reject (not (is_lower_or_digit c || c == b'_')) bad_character
  segment_characters s

unfoldable pub check_segments : List Bytes → Result ValueError (Unit {0})
unfolding segment_characters
check_segments [] = ok tt
check_segments (segment ∷ rest) = do
  reject (eqb segment []) empty_segment
  segment_characters segment
  check_segments rest

unfoldable pub validate_dotted_name : Bytes → Result ValueError (Unit {0})
unfolding split_dots check_segments
validate_dotted_name s = do reject (eqb s []) empty_name; check_segments (split_dots [] s)

unfoldable pub service_characters : Bytes → Result ValueError (Unit {0})
service_characters [] = ok tt
service_characters (c ∷ s) = do
  reject (not (is_lower_or_digit c || c == b'_')) bad_character
  service_characters s

-- `NewServiceID`; a `ServiceID` is the string that it accepts.
unfoldable pub new_service_id : Bytes → Result ValueError Bytes
unfolding service_characters
new_service_id s = do reject (eqb s []) empty_name; service_characters s; ok s

unfoldable pub service_valid : Bytes → Bool
unfolding new_service_id
service_valid s = is_ok (new_service_id s)
