-- ===== src/Diagnosis/Engine/Isolated.antt =====
-- `Evaluate` of internal/diagnosis/engine.go: a rule that panics costs its own output and no more.
use svcdoctor.Base.{
  Bool, true, false, List, [], ◌∷◌, ◌++◌, map, flatten, keep, All, All-append, none, some, ◌≡◌,
  refl, ap, subst, ◌∙◌, inl, inr, Option-cases,
}
use svcdoctor.Base.Bytes.{Bytes}
use svcdoctor.Base.Result.{ok}
use svcdoctor.Domain.Finding.{Finding, new_finding}
use svcdoctor.Diagnosis.RuleId.{rule_id_valid}
use svcdoctor.Diagnosis.Groups.{Attributed}
use svcdoctor.Diagnosis.Converge.Refined.{
  Attributable, Converged, Converged-nil, Converged-sort_findings, converge-Converged,
}
use svcdoctor.Diagnosis.Registry.{RuleContext, RegisteredRule}
use svcdoctor.Diagnosis.Engine.{evaluate_one, attribute, failures, produced, outcome_from, evaluate}

-- What a rule may return: findings that `NewFinding` made, under the identity of a rule.
abbrev pub WellBehaved : RuleContext → RegisteredRule → Type 0
WellBehaved ctx rule =
    (rule_id_valid rule.id ≡ true)
    × ((findings : List Finding)
        → evaluate_one rule ctx ≡ some findings
        → All (λ f. (given : Finding) × (new_finding given ≡ ok f)) findings)

attribute-Attributable :
    (id : Bytes) (findings : List Finding)
    → rule_id_valid id ≡ true
    → All (λ f. (given : Finding) × (new_finding given ≡ ok f)) findings
    → All Attributable (attribute id findings)
attribute-Attributable id [] valid h = tt
attribute-Attributable id (f ∷ findings) valid h =
    ((h.0, valid), attribute-Attributable id findings valid h.1)

produced-Attributable :
    (ctx : RuleContext) (rules : List RegisteredRule)
    → All (WellBehaved ctx) rules
    → All Attributable (produced ctx rules)
unfolding produced
produced-Attributable ctx [] h = tt
produced-Attributable ctx (rule ∷ rules) h = elim (Option-cases (evaluate_one rule ctx)) [
  | inl panic ↦ rw panic (produced-Attributable ctx rules h.1)
  | inr (findings, returned) ↦ rw returned (
      All-append Attributable (attribute rule.id findings) (produced ctx rules)
        (attribute-Attributable rule.id findings h.0.0 (h.0.1 findings returned))
        (produced-Attributable ctx rules h.1))
]

outcome_from-Converged :
    (items : List Attributed) (failed : List Bytes)
    → All Attributable items
    → ((outcome_from items failed).failures ≡ failed)
      × Converged items (outcome_from items failed).findings
outcome_from-Converged [] failed h = (refl, Converged-nil)
outcome_from-Converged (af ∷ rest) failed h =
    let (merged, made, c) = converge-Converged (af ∷ rest) h in
    rw made (refl, Converged-sort_findings (af ∷ rest) merged c)

-- What a rule returns, and nothing if it panics.
abbrev pub outputs : RuleContext → RegisteredRule → List Finding
outputs ctx rule = elim rule.eval [
  | none ↦ []
  | some eval ↦ elim (eval ctx) [ none ↦ [] | some findings ↦ findings ]
]

-- A rule that is absent or panics.
abbrev pub panics : RuleContext → RegisteredRule → Bool
panics ctx rule = elim rule.eval [
  | none ↦ true
  | some eval ↦ elim (eval ctx) [ none ↦ true | some findings ↦ false ]
]

-- All that the rules return, under the identities of the rules, in the order of the rules.
abbrev pub all_outputs : RuleContext → List RegisteredRule → List Attributed
all_outputs ctx rules =
    flatten
      (map (λ rule. map (λ f. record { rule = rule.id; finding = f }) (outputs ctx rule)) rules)

pub produced_lem :
    (ctx : RuleContext) (rules : List RegisteredRule)
    → (produced ctx rules ≡ all_outputs ctx rules)
      × (failures ctx rules ≡ map (λ rule. rule.id) (keep (panics ctx) rules))
unfolding produced failures evaluate_one
produced_lem ctx [] = (refl, refl)
produced_lem ctx (rule ∷ rules) =
    let (same, failed) = produced_lem ctx rules in
    elim (Option-cases rule.eval) [
      | inl absent ↦ rw absent (same, ap (◌∷◌ rule.id) failed)
      | inr (eval, present) ↦ elim (Option-cases (eval ctx)) [
        | inl panic ↦ rw (present, panic) (same, ap (◌∷◌ rule.id) failed)
        | inr (findings, returned) ↦
            rw (present, returned) (ap (◌++◌ (attribute rule.id findings)) same, failed)
      ]
    ]

-- If every rule panics or returns findings that `NewFinding` made, under the identity of a rule,
-- then the failures are exactly the identities of the rules that panic, in their order, and the
-- findings are a merge of all that the other rules return, each finding under its rule.
pub evaluate-Converged :
    (rules : List RegisteredRule) (ctx : RuleContext)
    → All (WellBehaved ctx) rules
    → ((evaluate rules ctx).failures ≡ map (λ rule. rule.id) (keep (panics ctx) rules))
      × Converged (all_outputs ctx rules) (evaluate rules ctx).findings
unfolding evaluate
evaluate-Converged rules ctx h =
    let (same, failed) = produced_lem ctx rules in
    let (settled, c) =
      outcome_from-Converged (produced ctx rules) (failures ctx rules)
        (produced-Attributable ctx rules h) in
    (settled ∙ failed, subst (λ all. Converged all (evaluate rules ctx).findings) same c)
