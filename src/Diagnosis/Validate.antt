-- ===== src/Diagnosis/Validate.antt =====
-- internal/diagnosis/validate.go: the check on what a rule returned.
use svcdoctor.Base.{Bool, true, false, not, List, [], ◌∷◌, Option, none, some}
use svcdoctor.Base.Bytes.{Bytes, eqb}
use svcdoctor.Base.Result.{Result, ok, ◌>>◌, reject}
use svcdoctor.Domain.Finding.{Finding, finding_is_zero}
use svcdoctor.Domain.Graph.Builder.{Graph, has}

-- Each wraps `ErrInvalidRuleOutput`.
pub data OutputError : Type 0 where
  zero_finding no_evidence unknown_evidence cited_twice : OutputError

-- `i > 0 && refs[i-1] == ref`
abbrev pub repeats : Option Bytes → Bytes → Bool
repeats none ref = false
repeats (some before) ref = eqb before ref

-- The loop over the references, with the one before.
unfoldable pub check_cited : Graph → Option Bytes → List Bytes → Result OutputError (Unit {0})
check_cited g before [] = ok tt
check_cited g before (ref ∷ refs) = do
  reject (not (has g.nodes ref)) unknown_evidence
  reject (repeats before ref) cited_twice
  check_cited g (some ref) refs

abbrev is_nil {ℓ} : {A : Type ℓ} → List A → Bool
is_nil [] = true
is_nil (x ∷ xs) = false

unfoldable pub validate_finding : Finding → Graph → Result OutputError (Unit {0})
unfolding check_cited
validate_finding f g = do
  reject (finding_is_zero f) zero_finding
  reject (is_nil f.evidence_refs) no_evidence
  check_cited g none f.evidence_refs

unfoldable pub validate_findings : List Finding → Graph → Result OutputError (Unit {0})
unfolding validate_finding
validate_findings [] g = ok tt
validate_findings (f ∷ fs) g = do validate_finding f g; validate_findings fs g
