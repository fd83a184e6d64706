-- ===== src/Domain/Recommendation.antt =====
-- internal/domain/recommendation.go and recommendationkind.go: advice and its safety rules.
use svcdoctor.Base.{Bool, true, false, not, ◌&&◌, [], ◌≡◌, ◌⊎◌, arith}
use svcdoctor.Base.Bytes.{Bytes, codes, eqb}
use svcdoctor.Base.Result.{Result, ok, err, ◌>>◌, reject}
use svcdoctor.Domain.Names.{ValueError, validate_identifier}

pub data RecommendationKind : Type 0 where
  unspecified next_evidence remediation : RecommendationKind

abbrev pub recommendation_kind_name : RecommendationKind → Bytes
recommendation_kind_name RecommendationKind.unspecified = codes "UNSPECIFIED"
recommendation_kind_name next_evidence = codes "NEXT_EVIDENCE"
recommendation_kind_name remediation = codes "REMEDIATION"

abbrev pub recommendation_kind_valid : RecommendationKind → Bool
recommendation_kind_valid RecommendationKind.unspecified = false
recommendation_kind_valid _ = true

pub data SafetyClass : Type 0 where
  unspecified observe verify compare config_change restart disruptive : SafetyClass
  security_weakening : SafetyClass

abbrev pub safety_name : SafetyClass → Bytes
safety_name SafetyClass.unspecified = codes "UNSPECIFIED"
safety_name observe = codes "OBSERVE"
safety_name verify = codes "VERIFY"
safety_name compare = codes "COMPARE"
safety_name config_change = codes "CONFIG_CHANGE"
safety_name restart = codes "RESTART"
safety_name disruptive = codes "DISRUPTIVE"
safety_name security_weakening = codes "SECURITY_WEAKENING"

abbrev pub safety_valid : SafetyClass → Bool
safety_valid SafetyClass.unspecified = false
safety_valid _ = true

abbrev pub producible : SafetyClass → Bool
producible observe = true
producible verify = true
producible compare = true
producible config_change = true
producible _ = false

abbrev pub changes_nothing : SafetyClass → Bool
changes_nothing observe = true
changes_nothing verify = true
changes_nothing compare = true
changes_nothing _ = false

-- `Recommendation`, and `RecommendationInput`, which has the same fields.
pub record Recommendation : Type 0 where
  pub action : Bytes
  pub kind : RecommendationKind
  pub safety : SafetyClass
  pub rationale : Bytes
  pub self_collectable : Bool

abbrev pub recommendation_is_zero : Recommendation → Bool
recommendation_is_zero r = eqb r.action []

pub data RecommendationError : Type 0 where
  text : ValueError → RecommendationError
  kind_unspecified safety_unspecified not_producible unsafe_evidence : RecommendationError
  collected_remediation : RecommendationError

abbrev pub in_text : Result ValueError (Unit {0}) → Result RecommendationError (Unit {0})
in_text (ok u) = ok u
in_text (err e) = err (text e)

unfoldable pub new_recommendation : Bytes → Result RecommendationError Recommendation
new_recommendation action = do
  in_text (validate_identifier action)
  ok (record {
    action = action;
    kind = RecommendationKind.unspecified;
    safety = SafetyClass.unspecified;
    rationale = [];
    self_collectable = false;
  })

abbrev pub is_next_evidence : RecommendationKind → Bool
is_next_evidence next_evidence = true
is_next_evidence _ = false

abbrev pub is_remediation : RecommendationKind → Bool
is_remediation remediation = true
is_remediation _ = false

unfoldable pub new_classified_recommendation :
    Recommendation → Result RecommendationError Recommendation
new_classified_recommendation in_ = do
  in_text (validate_identifier in_.action)
  reject (not (recommendation_kind_valid in_.kind)) kind_unspecified
  reject (not (safety_valid in_.safety)) safety_unspecified
  reject (not (producible in_.safety)) not_producible
  reject (is_next_evidence in_.kind && not (changes_nothing in_.safety)) unsafe_evidence
  reject (is_remediation in_.kind && in_.self_collectable) collected_remediation
  in_text (validate_identifier in_.rationale)
  ok in_

-- What a classified recommendation that was accepted can be: an observation that changes nothing,
-- or a remediation that svcdoctor does not take itself and that at most changes configuration.
-- Advice to restart, to disrupt or to weaken security is never accepted.
pub new_classified_recommendation-safe :
    (r s : Recommendation)
    → new_classified_recommendation r ≡ ok s
    → (s ≡ r)
      × (((s.kind ≡ next_evidence) × (changes_nothing s.safety ≡ true))
          ⊎ ((s.kind ≡ remediation) × (producible s.safety ≡ true) × (s.self_collectable ≡ false)))
unfolding new_classified_recommendation
new_classified_recommendation-safe r s h = ground arith
