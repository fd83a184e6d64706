-- ===== src/Diagnosis/Merge/Reconciled.antt =====
-- The last loop of `mergeGroup` in internal/diagnosis/converge.go: each field of the merged finding
-- is a maximum, a union or a disjunction over the members.
use svcdoctor.Base.{
  ℕ, Bool, true, false, ◌||◌, List, [], ◌∷◌, ◌++◌, any, ltb, ◌≤◌, ◌≡◌, refl, ◌∙◌, inl, inr, arith,
  Bool-cases, ◌==◌, if◌then◌else◌, ==_iff,
}
use svcdoctor.Base.Bytes.{Bytes, eqb, member, member-append, eqb_iff}
use svcdoctor.Domain.Vocabulary.{Severity, severity_rank, Confidence, confidence_rank}
use svcdoctor.Domain.Recommendation.{
  Recommendation, RecommendationKind, recommendation_kind_name, SafetyClass, safety_name,
}
use svcdoctor.Domain.Finding.{Finding, is_confirmed}
use svcdoctor.Diagnosis.Groups.{Attributed}
use svcdoctor.Diagnosis.Merge.{
  flag, same_recommendation, seen_recommendation, add_recommendations, max_severity, max_confidence,
  absorb, absorb_all,
}

kind_name_injective :
    (a b : RecommendationKind)
    → eqb (recommendation_kind_name a) (recommendation_kind_name b) ≡ true
    → a ≡ b
unfolding eqb
kind_name_injective a b h = ground arith

safety_name_injective : (a b : SafetyClass) → eqb (safety_name a) (safety_name b) ≡ true → a ≡ b
unfolding eqb
safety_name_injective a b h = ground arith

flag_injective : (a b : Bool) → (flag a == flag b) ≡ true → a ≡ b
flag_injective a b h = ground arith

same_recommendation→eq : (a b : Recommendation) → same_recommendation a b ≡ true → a ≡ b
same_recommendation→eq a b h = ground (
  arith,
  eqb_iff a.action b.action,
  eqb_iff a.rationale b.rationale,
  kind_name_injective a.kind b.kind,
  safety_name_injective a.safety b.safety,
  flag_injective a.self_collectable b.self_collectable,
)

seen_recommendation-concat :
    (r s : Recommendation) (out : List Recommendation)
    → seen_recommendation r (out ++ s ∷ []) ≡ (seen_recommendation r out || same_recommendation s r)
unfolding seen_recommendation
seen_recommendation-concat r s [] = ground arith
seen_recommendation-concat r s (t ∷ out) = ground (arith, seen_recommendation-concat r s out)

-- The union of two lists of recommendations.
seen_recommendation-add_recommendations :
    (r : Recommendation) (out rs : List Recommendation)
    → seen_recommendation r (add_recommendations out rs)
      ≡ (seen_recommendation r out || seen_recommendation r rs)
unfolding add_recommendations
seen_recommendation-add_recommendations r out [] = unfold seen_recommendation in ground arith
seen_recommendation-add_recommendations r out (s ∷ rs) =
    elim (Bool-cases (seen_recommendation s out)) [
      | inl dup ↦ rw dup (seen_recommendation-add_recommendations r out rs ∙ old dup)
      | inr fresh ↦ rw fresh (
          seen_recommendation-add_recommendations r (out ++ s ∷ []) rs
          ∙ (rw (seen_recommendation-concat r s out) new))
    ]
  where
    old :
        seen_recommendation s out ≡ true
        → (seen_recommendation r out || seen_recommendation r rs)
          ≡ (seen_recommendation r out || seen_recommendation r (s ∷ rs))
    old dup = elim (Bool-cases (same_recommendation s r)) [
      | inl e ↦
          let here : seen_recommendation r out ≡ true = rw (← same_recommendation→eq s r e) dup in
          unfold seen_recommendation in ground (arith, here)
      | inr ne ↦ unfold seen_recommendation in ground (arith, ne)
    ]

    new :
        ((seen_recommendation r out || same_recommendation s r) || seen_recommendation r rs)
        ≡ (seen_recommendation r out || seen_recommendation r (s ∷ rs))
    new = unfold seen_recommendation in ground arith

-- The fields that the loop leaves alone.
pub absorb_all_fixed :
    (f : Finding) (items : List Attributed)
    → ((absorb_all f items).code ≡ f.code)
      × ((absorb_all f items).layer ≡ f.layer)
      × ((absorb_all f items).subject ≡ f.subject)
      × ((absorb_all f items).summary ≡ f.summary)
      × ((absorb_all f items).detail ≡ f.detail)
      × ((absorb_all f items).discriminator ≡ f.discriminator)
unfolding absorb_all absorb
absorb_all_fixed f [] = (refl, refl, refl, refl, refl, refl)
absorb_all_fixed f (af ∷ items) = absorb_all_fixed (absorb f af.finding) items

pub absorb_all-refs :
    (x : Bytes) (f : Finding) (items : List Attributed)
    → member x (absorb_all f items).evidence_refs
      ≡ (member x f.evidence_refs || any (λ a. member x a.finding.evidence_refs) items)
unfolding absorb_all absorb
absorb_all-refs x f [] = ground arith
absorb_all-refs x f (af ∷ items) = ground (
  arith,
  absorb_all-refs x (absorb f af.finding) items,
  member-append x f.evidence_refs af.finding.evidence_refs,
)

pub absorb_all-vantage :
    (f : Finding) (items : List Attributed)
    → (absorb_all f items).vantage_dependent
      ≡ (f.vantage_dependent || any (λ a. a.finding.vantage_dependent) items)
unfolding absorb_all absorb
absorb_all-vantage f [] = ground arith
absorb_all-vantage f (af ∷ items) = ground (arith, absorb_all-vantage (absorb f af.finding) items)

pub absorb_all-kind :
    (f : Finding) (items : List Attributed)
    → is_confirmed (absorb_all f items).kind
      ≡ (is_confirmed f.kind || any (λ a. is_confirmed a.finding.kind) items)
unfolding absorb_all absorb
absorb_all-kind f [] = ground arith
absorb_all-kind f (af ∷ items) = ground (arith, absorb_all-kind (absorb f af.finding) items)

pub absorb_all-advice :
    (r : Recommendation) (f : Finding) (items : List Attributed)
    → seen_recommendation r (absorb_all f items).recommendations ≡ (
        seen_recommendation r f.recommendations
        || any (λ a. seen_recommendation r a.finding.recommendations) items)
unfolding absorb_all absorb
absorb_all-advice r f [] = ground arith
absorb_all-advice r f (af ∷ items) = ground (
  arith,
  absorb_all-advice r (absorb f af.finding) items,
  seen_recommendation-add_recommendations r f.recommendations af.finding.recommendations,
)

-- The highest rank of a start and the members.
abbrev larger : ℕ → ℕ → ℕ
larger m n = if ltb m n then n else m

pub max_rank : (Attributed → ℕ) → ℕ → List Attributed → ℕ
max_rank rank m [] = m
max_rank rank m (a ∷ items) = max_rank rank (larger m (rank a)) items

-- `top` is the rank of a member and no member's is above it.
abbrev pub Highest : (Attributed → ℕ) → List Attributed → ℕ → Type 0
Highest rank items top =
    (any (λ a. ltb top (rank a)) items ≡ false) × (any (λ a. rank a == top) items ≡ true)

module _ (rank : Attributed → ℕ) where
  max_rank-ge : (m : ℕ) (items : List Attributed) → m ≤ max_rank rank m items
  unfolding max_rank
  max_rank-ge m [] = omega arith
  max_rank-ge m (a ∷ items) = ground (arith, max_rank-ge (larger m (rank a)) items)

  max_rank_above :
      (m : ℕ) (items : List Attributed)
      → any (λ a. ltb (max_rank rank m items) (rank a)) items ≡ false
  unfolding max_rank
  max_rank_above m [] = refl
  max_rank_above m (a ∷ items) =
      let ge = max_rank-ge (larger m (rank a)) items in
      rw (max_rank_above (larger m (rank a)) items) (ground (arith, ge))

  max_rank_attained :
      (m : ℕ) (items : List Attributed)
      → ((m == max_rank rank m items) || any (λ a. rank a == max_rank rank m items) items) ≡ true
  unfolding max_rank
  max_rank_attained m [] = ground arith
  max_rank_attained m (a ∷ items) =
      either (rank a) _ _ (max_rank_attained (larger m (rank a)) items)
    where
      either :
          (n top : ℕ) (q : Bool)
          → ((larger m n == top) || q) ≡ true
          → ((m == top) || ((n == top) || q)) ≡ true
      either n top q h = ground arith

  -- The start being the rank of the first member.
  pub max_rank-Highest :
      (m : ℕ) (items : List Attributed)
      → any (λ a. rank a == m) items ≡ true
      → Highest rank items (max_rank rank m items)
  max_rank-Highest m items h = (max_rank_above m items, reached)
    where
      reached : any (λ a. rank a == max_rank rank m items) items ≡ true
      reached = elim (Bool-cases (m == max_rank rank m items)) [
        | inl e ↦ rw (← (==_iff m (max_rank rank m items)).0 e) h
        | inr ne ↦ let found = max_rank_attained m items in ground arith
      ]

severity_rank-max_severity :
    (a b : Severity) → severity_rank (max_severity a b) ≡ larger (severity_rank a) (severity_rank b)
severity_rank-max_severity a b = elim (Bool-cases (ltb (severity_rank a) (severity_rank b))) [
  | inl lower ↦ rw lower refl
  | inr other ↦ rw other refl
]

confidence_rank-max_confidence :
    (a b : Confidence)
    → confidence_rank (max_confidence a b) ≡ larger (confidence_rank a) (confidence_rank b)
confidence_rank-max_confidence a b =
    elim (Bool-cases (ltb (confidence_rank a) (confidence_rank b))) [
      | inl lower ↦ rw lower refl
      | inr other ↦ rw other refl
    ]

pub absorb_all-severity :
    (f : Finding) (items : List Attributed)
    → severity_rank (absorb_all f items).severity
      ≡ max_rank (λ a. severity_rank a.finding.severity) (severity_rank f.severity) items
unfolding absorb_all absorb max_rank
absorb_all-severity f [] = refl
absorb_all-severity f (af ∷ items) =
    absorb_all-severity (absorb f af.finding) items
    ∙ rw (severity_rank-max_severity f.severity af.finding.severity) refl

pub absorb_all-confidence :
    (f : Finding) (items : List Attributed)
    → confidence_rank (absorb_all f items).confidence
      ≡ max_rank (λ a. confidence_rank a.finding.confidence) (confidence_rank f.confidence) items
unfolding absorb_all absorb max_rank
absorb_all-confidence f [] = refl
absorb_all-confidence f (af ∷ items) =
    absorb_all-confidence (absorb f af.finding) items
    ∙ rw (confidence_rank-max_confidence f.confidence af.finding.confidence) refl
