-- ===== src/Domain/Finding.antt =====
-- internal/domain/finding.go and findingcode.go: findings and the evidence that they cite.
pub mod Refs
pub mod Accepted
pub mod Valid
use svcdoctor.Base.{
  ℕ, Bool, true, false, not, ◌&&◌, ◌||◌, List, [], ◌∷◌, ◌++◌, Option, none, some, leb, ltb, length,
  ◌==◌, if◌then◌else◌,
}
use svcdoctor.Base.Bytes.{Bytes, eqb, member, sort}
use svcdoctor.Base.Result.{Result, ok, err, ◌>>=◌, ◌>>◌, reject}
use svcdoctor.Base.Utf8.{runes, trim_space, is_control}
use svcdoctor.Domain.Vocabulary.{
  Severity, severity_valid, Confidence, confidence_valid, Layer, layer_valid, FindingKind,
  finding_kind_valid, confirmed, subject_kind_valid,
}
use svcdoctor.Domain.Names.{
  ValueError, validate_identifier, not_utf8, untrimmed, control_character, blank, empty_name,
  empty_segment, bad_character,
}
use svcdoctor.Domain.Evidence.{Subject, subject_is_zero}
use svcdoctor.Domain.Recommendation.{Recommendation, recommendation_is_zero}

-- `Finding`, and `FindingInput`, which has the same fields.
pub record Finding : Type 0 where
  pub code : Bytes
  pub kind : FindingKind
  pub severity : Severity
  pub confidence : Confidence
  pub layer : Layer
  pub subject : Subject
  pub summary : Bytes
  pub detail : Bytes
  pub evidence_refs : List Bytes
  pub recommendations : List Recommendation
  pub vantage_dependent : Bool
  pub discriminator : Bytes

abbrev pub finding_is_zero : Finding → Bool
finding_is_zero f = eqb f.code [] && eqb f.summary []

-- The errors of `NewFinding`; each wraps `ErrInvalidValue`.
pub data FindingError : Type 0 where
  code_invalid kind_invalid severity_invalid confidence_invalid layer_invalid : FindingError
  subject_invalid discriminator_on_confirmed no_evidence no_action : FindingError
  text : ValueError → FindingError

abbrev pub in_text : Result ValueError (Unit {0}) → Result FindingError (Unit {0})
in_text (ok u) = ok u
in_text (err e) = err (text e)

abbrev is_upper : ℕ → Bool
is_upper c = leb b'A' c && leb c b'Z'

-- `strings.Split(s, "_")`
unfoldable pub split_underscores : Bytes → Bytes → List Bytes
split_underscores acc [] = acc ∷ []
split_underscores acc (c ∷ s) = elim (c == b'_') [
  | true ↦ acc ∷ split_underscores [] s
  | false ↦ split_underscores (acc ++ c ∷ []) s
]

unfoldable pub code_characters : Bytes → Bool
code_characters [] = true
code_characters (c ∷ s) = (is_upper c || (leb b'0' c && leb c b'9')) && code_characters s

unfoldable pub code_segments : List Bytes → Bool
unfolding code_characters
code_segments [] = true
code_segments (segment ∷ rest) =
    not (eqb segment []) && code_characters segment && code_segments rest

abbrev starts_upper : Bytes → Bool
starts_upper [] = false
starts_upper (c ∷ s) = is_upper c

-- `validateFindingCode(s) == nil`
unfoldable pub finding_code_valid : Bytes → Bool
unfolding split_underscores code_segments
finding_code_valid s =
    let segments = split_underscores [] s in
    starts_upper s && not (ltb (length segments) 2) && code_segments segments

-- `r != '\n' && unicode.IsControl(r)`
unfoldable pub prose_control : List ℕ → Bool
prose_control [] = false
prose_control (r ∷ rs) = (not (r == b'\n') && is_control r) || prose_control rs

abbrev prose_runes : List ℕ → Result ValueError (Unit {0})
prose_runes rs = do
  reject (eqb (trim_space rs) []) blank
  reject (not (eqb (trim_space rs) rs)) untrimmed
  reject (prose_control rs) control_character

unfoldable pub validate_prose : Bytes → Result ValueError (Unit {0})
unfolding prose_control
validate_prose s = elim (runes s) [ none ↦ err not_utf8 | some rs ↦ prose_runes rs ]

-- The loop of `normalizeEvidenceRefs`, with `seen` and `out`.
unfoldable pub collect_refs :
    List Bytes → List Bytes → List Bytes → Result FindingError (List Bytes)
collect_refs seen out [] = ok out
collect_refs seen out (id ∷ ids) = do
  in_text (validate_identifier id)
  collect_refs (if member id seen then seen else id ∷ seen)
      (if member id seen then out else out ++ id ∷ []) ids

abbrev is_nil {ℓ} : {A : Type ℓ} → List A → Bool
is_nil [] = true
is_nil (x ∷ xs) = false

unfoldable pub normalize_evidence_refs : List Bytes → Result FindingError (List Bytes)
unfolding collect_refs
normalize_evidence_refs ids = do
  reject (is_nil ids) no_evidence
  out ← collect_refs [] [] ids
  ok (sort out)

unfoldable pub copy_recommendations :
    List Recommendation → Result FindingError (List Recommendation)
copy_recommendations [] = ok []
copy_recommendations (r ∷ rs) = do
  reject (recommendation_is_zero r) no_action
  out ← copy_recommendations rs
  ok (r ∷ out)

abbrev pub is_confirmed : FindingKind → Bool
is_confirmed confirmed = true
is_confirmed _ = false

abbrev pub unless : Bool → Result FindingError (Unit {0}) → Result FindingError (Unit {0})
unless true check = ok tt
unless false check = check

unfoldable pub new_finding : Finding → Result FindingError Finding
unfolding normalize_evidence_refs copy_recommendations
new_finding f = do
  reject (not (finding_code_valid f.code)) code_invalid
  reject (not (finding_kind_valid f.kind)) kind_invalid
  reject (not (severity_valid f.severity)) severity_invalid
  reject (not (confidence_valid f.confidence)) confidence_invalid
  reject (not (layer_valid f.layer)) layer_invalid
  reject (not (subject_is_zero f.subject) && not (subject_kind_valid f.subject.kind))
      subject_invalid
  in_text (validate_identifier f.summary)
  unless (eqb f.detail []) (in_text (validate_prose f.detail))
  unless (eqb f.discriminator []) (in_text (validate_identifier f.discriminator))
  reject (is_confirmed f.kind && not (eqb f.discriminator [])) discriminator_on_confirmed
  refs ← normalize_evidence_refs f.evidence_refs
  recommendations ← copy_recommendations f.recommendations
  ok (record f { evidence_refs = refs; recommendations = recommendations })
