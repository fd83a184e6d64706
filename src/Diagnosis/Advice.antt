-- ===== src/Diagnosis/Advice.antt =====
-- internal/diagnosis/advice.go: what a rule may recommend, and on how strong a finding.
pub mod Guarded
use svcdoctor.Base.{Bool, true, false, not, ◌&&◌, ◌||◌, List, [], ◌∷◌, if◌then◌else◌}
use svcdoctor.Base.Bytes.{Bytes, eqb}
use svcdoctor.Base.Result.{Result, ok, err, ◌>>◌, ◌>>=◌, reject}
use svcdoctor.Base.Runes.{decode}
use svcdoctor.Base.Utf8.{trim_space}
use svcdoctor.Domain.Vocabulary.{
  FindingKind, finding_kind_valid, finding_kind_rank, Confidence, confidence_valid, confidence_rank,
}
use svcdoctor.Domain.Finding.{is_confirmed}
use svcdoctor.Domain.Recommendation.{
  RecommendationKind, is_next_evidence, is_remediation, recommendation_kind_valid, SafetyClass,
  safety_valid, producible, changes_nothing, Recommendation, RecommendationError,
  new_classified_recommendation,
}
use svcdoctor.Diagnosis.ActionText.{ActionError, validate_action_text}

-- `Advice`, and `AdviceInput`, which has the same fields.
pub record Advice : Type 0 where
  pub kind : RecommendationKind
  pub safety : SafetyClass
  pub action : Bytes
  pub rationale : Bytes
  pub self_collectable : Bool

pub data AdviceError : Type 0 where
  bad_kind bad_safety not_produced observation_changes remediation_collected : AdviceError
  bad_action : ActionError → AdviceError
  no_rationale zero_advice bad_finding_kind bad_confidence weak_finding : AdviceError
  refused : RecommendationError → AdviceError

abbrev pub in_action : Result ActionError (Unit {0}) → Result AdviceError (Unit {0})
in_action (ok u) = ok u
in_action (err e) = err (bad_action e)

unfoldable pub new_advice : Advice → Result AdviceError Advice
new_advice in_ = do
  reject (not (recommendation_kind_valid in_.kind)) bad_kind
  reject (not (safety_valid in_.safety)) bad_safety
  reject (not (producible in_.safety)) not_produced
  reject (is_next_evidence in_.kind && not (changes_nothing in_.safety)) observation_changes
  reject (is_remediation in_.kind && in_.self_collectable) remediation_collected
  in_action (validate_action_text in_.action)
  reject (eqb (trim_space (decode 0 in_.rationale)) []) no_rationale
  ok in_

abbrev pub advice_is_zero : Advice → Bool
advice_is_zero a = not (recommendation_kind_valid a.kind) && eqb a.action []

abbrev pub is_high : Confidence → Bool
is_high Confidence.high = true
is_high _ = false

unfoldable pub admit_advice : FindingKind → Confidence → Advice → Result AdviceError (Unit {0})
admit_advice kind confidence advice = do
  reject (advice_is_zero advice) zero_advice
  reject (not (finding_kind_valid kind)) bad_finding_kind
  reject (not (confidence_valid confidence)) bad_confidence
  reject (is_remediation advice.kind && (not (is_confirmed kind) || not (is_high confidence)))
      weak_finding

abbrev pub in_domain : Result RecommendationError Recommendation → Result AdviceError Recommendation
in_domain (ok r) = ok r
in_domain (err e) = err (refused e)

-- The method `Recommendation` of an advice.
unfoldable pub to_recommendation : Advice → Result AdviceError Recommendation
to_recommendation a = do
  reject (advice_is_zero a) zero_advice
  in_domain (
      new_classified_recommendation (record {
        action = a.action;
        kind = a.kind;
        safety = a.safety;
        rationale = a.rationale;
        self_collectable = a.self_collectable;
      }))

abbrev pub if_ok : Result AdviceError Recommendation → List Recommendation
if_ok (ok r) = r ∷ []
if_ok (err e) = []

-- `Recommend`: what a report may carry, nothing or one recommendation.
unfoldable pub recommend : Advice → FindingKind → Confidence → List Recommendation
unfolding new_advice admit_advice to_recommendation
recommend in_ kind confidence =
    if_ok
      (do advice ← new_advice in_; admit_advice kind confidence advice; to_recommendation advice)
