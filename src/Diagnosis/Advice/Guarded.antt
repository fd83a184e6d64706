-- ===== src/Diagnosis/Advice/Guarded.antt =====
-- What `Recommend` of internal/diagnosis/advice.go lets into a report.
use svcdoctor.Base.{true, false, List, [], ◌∷◌, ◌≡◌, ◌⊎◌, refl, inl, inr, arith, List-cases}
use svcdoctor.Base.Bytes.{eqb}
use svcdoctor.Base.Result.{is_ok, Result-cases}
use svcdoctor.Base.Runes.{decode}
use svcdoctor.Base.Utf8.{trim_space}
use svcdoctor.Domain.Names.{validate_identifier}
use svcdoctor.Domain.Vocabulary.{
  FindingKind, finding_kind_valid, Confidence, high, confirmed, confidence_valid,
}
use svcdoctor.Domain.Finding.{is_confirmed}
use svcdoctor.Domain.Recommendation.{
  RecommendationKind, next_evidence, remediation, producible, changes_nothing, Recommendation,
  new_classified_recommendation,
}
use svcdoctor.Diagnosis.ActionText.{validate_action_text}
use svcdoctor.Diagnosis.Advice.{
  Advice, is_high, new_advice, admit_advice, to_recommendation, recommend,
}

-- The five fields, as a report has them.
abbrev pub recommendation_of : Advice → Recommendation
recommendation_of a = record {
  action = a.action;
  kind = a.kind;
  safety = a.safety;
  rationale = a.rationale;
  self_collectable = a.self_collectable;
}

-- An observation that changes nothing, or a change of at most the configuration which svcdoctor
-- does not make itself, and which rests on a confirmed finding of high confidence.
abbrev Safe : Advice → FindingKind → Confidence → Type 0
Safe a kind confidence =
    ((a.kind ≡ next_evidence) × (changes_nothing a.safety ≡ true))
    ⊎ ((a.kind ≡ remediation)
        × (producible a.safety ≡ true)
        × (a.self_collectable ≡ false)
        × (kind ≡ confirmed)
        × (confidence ≡ high))

pub record Permitted (a : Advice) (kind : FindingKind) (confidence : Confidence) : Type 0 where
  pub safe : Safe a kind confidence
  pub sentence : is_ok (validate_action_text a.action) ≡ true
  pub action_valid : is_ok (validate_identifier a.action) ≡ true
  pub rationale_valid : is_ok (validate_identifier a.rationale) ≡ true
  pub reasoned : eqb (trim_space (decode 0 a.rationale)) [] ≡ false
  pub finding_kind : finding_kind_valid kind ≡ true
  pub confident : confidence_valid confidence ≡ true

kind_split :
    (k : RecommendationKind)
    → (k ≡ RecommendationKind.unspecified) ⊎ (k ≡ next_evidence) ⊎ (k ≡ remediation)
kind_split RecommendationKind.unspecified = inl refl
kind_split next_evidence = inr (inl refl)
kind_split remediation = inr (inr refl)

confirmed_only : (k : FindingKind) → is_confirmed k ≡ true → k ≡ confirmed
confirmed_only k h = ground arith

high_only : (c : Confidence) → is_high c ≡ true → c ≡ high
high_only c h = ground arith

module _ (a : Advice) (kind : FindingKind) (confidence : Confidence) where
  recommend_ok :
      Permitted a kind confidence → recommend a kind confidence ≡ recommendation_of a ∷ []
  unfolding recommend new_advice admit_advice to_recommendation new_classified_recommendation
  recommend_ok p = elim (Result-cases (validate_action_text a.action)) [
    | inl (u, e1) ↦ elim (Result-cases (validate_identifier a.action)) [
      | inl (v, e2) ↦ elim (Result-cases (validate_identifier a.rationale)) [
        | inl (w, e3) ↦ elim p.safe [
          | inl (k, s) ↦
              let d = p.finding_kind in
              let f = p.confident in let t = p.reasoned in ground (arith, k, s, e1, e2, e3, t)
          | inr (k, s, c, confirms, sure) ↦
              let t = p.reasoned in ground (arith, k, s, e1, e2, e3, t, c, confirms, sure)
        ]
        | inr (w, e3) ↦ absurd (let d = p.rationale_valid in cc)
      ]
      | inr (v, e2) ↦ absurd (let d = p.action_valid in cc)
    ]
    | inr (u, e1) ↦ absurd (let d = p.sentence in cc)
  ]

  recommend_only :
      (r : Recommendation) (rest : List Recommendation)
      → recommend a kind confidence ≡ r ∷ rest
      → Permitted a kind confidence
  unfolding recommend new_advice admit_advice to_recommendation new_classified_recommendation
  recommend_only r rest h = elim (Result-cases (validate_action_text a.action)) [
    | inl (u, e1) ↦ elim (Result-cases (validate_identifier a.action)) [
      | inl (v, e2) ↦ elim (Result-cases (validate_identifier a.rationale)) [
        | inl (w, e3) ↦ record {
          safe = elim (kind_split a.kind) [
            | inl none ↦ absurd (ground (arith, h, e1, e2, e3, none))
            | inr (inl k) ↦ inl (k, ground (arith, k))
            | inr (inr k) ↦ inr (
              k,
              ground (arith, k),
              ground (arith, k),
              confirmed_only kind (ground (arith, k)),
              high_only confidence (ground (arith, k)),
            )
          ];
          sentence = rw e1 refl;
          action_valid = rw e2 refl;
          rationale_valid = rw e3 refl;
          reasoned = ground arith;
          finding_kind = ground arith;
          confident = ground arith;
        }
        | inr (w, e3) ↦ absurd (ground (arith, h, e1, e2, e3))
      ]
      | inr (v, e2) ↦ absurd (ground (arith, h, e1, e2))
    ]
    | inr (u, e1) ↦ absurd (ground (arith, h, e1))
  ]

  -- A rule that recommends something puts it into the report with all its fields, or not at all. It
  -- does so exactly if the advice is permitted: a sentence with a reason, which is an observation
  -- that changes nothing, or a change of at most the configuration that svcdoctor does not make
  -- itself, the latter on a confirmed finding of high confidence only.
  pub recommend-Permitted :
      ((recommend a kind confidence ≡ recommendation_of a ∷ []) × Permitted a kind confidence)
      ⊎ ((recommend a kind confidence ≡ []) × ¬ Permitted a kind confidence)
  recommend-Permitted = elim (List-cases (recommend a kind confidence)) [
    | inl empty ↦ inr (empty, λ p. let full = recommend_ok p in cc)
    | inr (r, rest, full) ↦ let p = recommend_only r rest full in inl (recommend_ok p, p)
  ]
