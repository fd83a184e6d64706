-- ===== src/Diagnosis/Confidence.antt =====
-- internal/diagnosis/confidence.go: the confidence that a claim may carry.
use svcdoctor.Base.{
  Bool, true, false, not, ◌&&◌, List, [], ◌∷◌, ◌++◌, ◌≡◌, ◌≢◌, ◌↔◌, ◌⊎◌, ◌≤◌, inl, inr, arith,
}
use svcdoctor.Base.Result.{Result, ok, err, ◌>>◌, reject, Result-cases}
use svcdoctor.Domain.Vocabulary.{
  Confidence, low, medium, high, confidence_rank, FindingKind, confirmed, finding_kind_valid,
}
use svcdoctor.Domain.Graph.Relation.{EvidenceId}
use svcdoctor.Diagnosis.Basis.{EvidenceBasis, contradict}

-- Why a claim may be strong. A `uint8` that no constant names has no counterpart.
pub data Authority : Type 0 where
  none direct complete_contrast : Authority

-- The errors of `AdmitConfidence`.
pub data AdmitError : Type 0 where
  kind_invalid unsupported_claim invalid_basis : AdmitError

abbrev is_contrast : Authority → Bool
is_contrast complete_contrast = true
is_contrast _ = false

abbrev pub is_empty {ℓ} : {A : Type ℓ} → List A → Bool
is_empty [] = true
is_empty (x ∷ xs) = false

-- `len(xs) >= 2`
abbrev pub several {ℓ} : {A : Type ℓ} → List A → Bool
several (x ∷ y ∷ xs) = true
several _ = false

abbrev grade : FindingKind → Confidence
grade confirmed = high
grade _ = medium

-- The `switch` over the authority, where nothing contradicts.
abbrev ladder : Authority → FindingKind → Bool → Confidence
ladder direct kind more = high
ladder complete_contrast kind more = grade kind
ladder Authority.none kind true = medium
ladder Authority.none kind false = low

abbrev capped : Bool → Confidence → Confidence
capped true c = c
capped false c = low

unfoldable pub admit_confidence :
    FindingKind → Authority → EvidenceBasis → Result AdmitError Confidence
admit_confidence kind authority basis = do
  reject (not (finding_kind_valid kind)) kind_invalid
  reject (is_empty basis.supporting) unsupported_claim
  reject (is_contrast authority && not (is_empty basis.missing)) invalid_basis
  ok (capped (is_empty basis.contradicting) (ladder authority kind (several basis.supporting)))

-- A claim is admitted at `HIGH` exactly if it is of a valid kind, something supports it, nothing
-- contradicts it, and the peer stated it or a confirmed claim excluded every alternative with no
-- observation missing.
pub admit_confidence-high_iff :
    (kind : FindingKind) (a : Authority) (b : EvidenceBasis)
    → (admit_confidence kind a b ≡ ok high) ↔ (
        (finding_kind_valid kind ≡ true)
        × (b.supporting ≢ [])
        × (b.contradicting ≡ [])
        × ((a ≡ direct) ⊎ ((a ≡ complete_contrast) × (kind ≡ confirmed) × (b.missing ≡ []))))
unfolding admit_confidence
admit_confidence-high_iff kind a b = (λ h. ground arith, λ (v, s, c, w). ground arith)

-- A claim is refused exactly if its kind is not valid, nothing supports it, or it declares a
-- complete contrast while an observation is missing.
pub admit_confidence-err_iff :
    (kind : FindingKind) (a : Authority) (b : EvidenceBasis)
    → ((e : AdmitError) × (admit_confidence kind a b ≡ err e)) ↔ (
        (finding_kind_valid kind ≡ false)
        ⊎ ((b.supporting ≡ []) ⊎ ((a ≡ complete_contrast) × (b.missing ≢ []))))
unfolding admit_confidence
admit_confidence-err_iff kind a b = (
  λ (e, h). ground arith,
  λ w. elim (Result-cases (admit_confidence kind a b)) [
    | inl (c, h) ↦ absurd (ground arith)
    | inr (e, h) ↦ (e, h)
  ],
)

-- More contradicting evidence never raises what is admitted, and any caps it at `LOW`.
pub admit_confidence-contradict :
    (kind : FindingKind) (a : Authority) (b : EvidenceBasis) (ids : List EvidenceId)
    (c : Confidence)
    → admit_confidence kind a b ≡ ok c
    → (d : Confidence) × (admit_confidence kind a (contradict b ids) ≡ ok d)
      × (confidence_rank d ≤ confidence_rank c)
      × (ids ≢ [] → d ≡ low)
unfolding admit_confidence contradict
admit_confidence-contradict kind a b ids c h = (
  capped (is_empty (b.contradicting ++ ids)) (ladder a kind (several b.supporting)),
  ground arith,
  ground arith,
  ground arith,
)
