-- ===== src/Diagnosis/RuleId.antt =====
-- internal/diagnosis/ruleid.go: the identity of a rule, `<owner>/<name>`.
pub mod Grammar
use svcdoctor.Base.{
  ℕ, Bool, true, false, not, ◌&&◌, ◌||◌, List, [], ◌∷◌, Option, none, some, leb, ltb, length, ◌==◌,
  if◌then◌else◌,
}
use svcdoctor.Base.Bytes.{Bytes, eqb}
use svcdoctor.Base.Result.{Result, ok, err, ◌>>=◌, ◌>>◌, reject, is_ok}
use svcdoctor.Domain.Names.{is_lower_or_digit}

-- Each wraps `ErrInvalidRuleID`.
pub data RuleIdError : Type 0 where
  no_slash two_slashes empty_part long_part not_letter bad_hyphen bad_character : RuleIdError

abbrev pub max_rule_id_part : ℕ
max_rule_id_part = 48

-- `strings.Cut(s, "/")`
unfoldable pub cut_slash : Bytes → Option (Bytes × Bytes)
cut_slash [] = none
cut_slash (c ∷ s) =
    if c == b'/'
    then some ([], s)
    else elim (cut_slash s) [ none ↦ none | some (before, after) ↦ some (c ∷ before, after) ]

-- `strings.Contains(s, "/")`
unfoldable pub contains_slash : Bytes → Bool
contains_slash [] = false
contains_slash (c ∷ s) = c == b'/' || contains_slash s

abbrev pub is_lower : ℕ → Bool
is_lower c = leb b'a' c && leb c b'z'

abbrev pub is_digit : ℕ → Bool
is_digit c = leb b'0' c && leb c b'9'

-- `i == 0 || i == len(s)-1 || s[i-1] == '-'`, from the byte before and the bytes after.
abbrev pub misplaced : Option ℕ → Bytes → Bool
misplaced none s = true
misplaced (some before) s = eqb s [] || before == b'-'

abbrev pub is_first : Option ℕ → Bool
is_first none = true
is_first (some before) = false

abbrev check_byte : Option ℕ → ℕ → Bytes → Result RuleIdError (Unit {0})
check_byte before c s =
    if is_lower c
    then ok tt
    else if is_digit c
    then reject (is_first before) not_letter
    else if c == b'-'
    then reject (misplaced before s) bad_hyphen
    else err bad_character

-- The loop of `validateRuleIDPart`, with the byte before.
unfoldable pub check_bytes : Option ℕ → Bytes → Result RuleIdError (Unit {0})
check_bytes before [] = ok tt
check_bytes before (c ∷ s) = do check_byte before c s; check_bytes (some c) s

unfoldable pub validate_rule_id_part : Bytes → Result RuleIdError (Unit {0})
unfolding check_bytes
validate_rule_id_part s = do
  reject (eqb s []) empty_part
  reject (ltb max_rule_id_part (length s)) long_part
  check_bytes none s

abbrev pub rule_id_of : Bytes → Option (Bytes × Bytes) → Result RuleIdError Bytes
rule_id_of s none = err no_slash
rule_id_of s (some (owner, name)) = do
  reject (contains_slash name) two_slashes
  validate_rule_id_part owner
  validate_rule_id_part name
  ok s

-- `NewRuleID`; a `RuleID` is the string that it accepts.
unfoldable pub new_rule_id : Bytes → Result RuleIdError Bytes
unfolding cut_slash contains_slash validate_rule_id_part
new_rule_id s = rule_id_of s (cut_slash s)

-- `RuleID.Valid`
unfoldable pub rule_id_valid : Bytes → Bool
unfolding new_rule_id
rule_id_valid id = is_ok (new_rule_id id)
