-- ===== src/Tests/Diagnosis.antt =====
-- Rules, their findings and what they converge to, and the theorems on the engine applied to them.
use svcdoctor.Base.{
  true, false, List, [], ◌∷◌, map, keep, any, All, none, some, ◌≡◌, ◌≢◌, ◌↔◌, ◌⊎◌, refl, arith,
}
use svcdoctor.Base.Bytes.{Bytes, codes, eqb, member, insert_sorted, less, sort}
use svcdoctor.Base.Utf8.{runes, trim_space, drop_spaces, has_control, is_control, is_space}
use svcdoctor.Base.Result.{ok, err}
use svcdoctor.Domain.Names.{validate_identifier}
use svcdoctor.Domain.Vocabulary.{Severity, high, low, confirmed, finding_kind_valid}
use svcdoctor.Domain.Finding.{
  Finding, split_underscores, code_segments, code_characters, finding_code_valid, collect_refs,
  normalize_evidence_refs, copy_recommendations, new_finding,
}
use svcdoctor.Domain.Graph.Builder.{has, node}
use svcdoctor.Domain.Graph.Relation.{targets}
use svcdoctor.Domain.Report.{Report, new_report}
use svcdoctor.Diagnosis.RuleId.{
  two_slashes, new_rule_id, rule_id_valid, cut_slash, contains_slash, validate_rule_id_part,
  check_bytes,
}
use svcdoctor.Diagnosis.RuleId.Grammar.{IsRuleId, new_rule_id_iff}
use svcdoctor.Diagnosis.Basis.{
  EvidenceBasis, contradict, freeze_basis, normalize_basis_ids, normalize_missing, collect_distinct,
  check_disjoint, check_blocked, check_ran, both_relations,
}
use svcdoctor.Diagnosis.Basis.Citable.{Citable, freeze_basis-Citable}
use svcdoctor.Diagnosis.Confidence.{
  direct, complete_contrast, AdmitError, admit_confidence, admit_confidence-high_iff,
  admit_confidence-err_iff,
}
use svcdoctor.Diagnosis.Groups.{Attributed}
use svcdoctor.Diagnosis.Converge.{converge}
use svcdoctor.Diagnosis.Converge.Refined.{Attributable, Converged, converge-Converged}
use svcdoctor.Diagnosis.Converge.Renamed.{rename, BothValid, converge-rename}
use svcdoctor.Diagnosis.Registry.{RuleContext, RegisteredRule}
use svcdoctor.Diagnosis.Engine.{evaluate, evaluate_one}
use svcdoctor.Diagnosis.Engine.Isolated.{WellBehaved, panics, all_outputs, evaluate-Converged}
use svcdoctor.Diagnosis.Engine.Reportable.{CitesGraph, evaluate-new_report}
use svcdoctor.Tests.Values.{unreachable, unreachable_made, unreachable_accepted}
use svcdoctor.Tests.Reports.{pair_graph, input}

abbrev refused_id : Bytes
refused_id = codes "tcp/refused"

refused_id_valid : rule_id_valid refused_id ≡ true
unfolding rule_id_valid new_rule_id cut_slash contains_slash validate_rule_id_part check_bytes eqb
refused_id_valid = refl

two_slashes_refused : new_rule_id (codes "a/b/c") ≡ err two_slashes
unfolding new_rule_id cut_slash contains_slash
two_slashes_refused = refl

new_rule_id_iff_example :
    (new_rule_id refused_id ≡ ok refused_id) ↔ ((refused_id ≡ refused_id) × IsRuleId refused_id)
new_rule_id_iff_example = new_rule_id_iff refused_id refused_id

abbrev builder : EvidenceBasis
builder = record {
  supporting = codes "tcp" ∷ codes "tcp" ∷ [];
  contradicting = codes "dns" ∷ [];
  blocked = [];
  missing = [];
}

abbrev basis : EvidenceBasis
basis = record builder { supporting = codes "tcp" ∷ [] }

basis_accepted : freeze_basis pair_graph builder ≡ ok basis
unfolding freeze_basis normalize_basis_ids normalize_missing collect_distinct check_disjoint
    check_blocked check_ran node member eqb sort insert_sorted targets
basis_accepted = refl

basis_refused : freeze_basis pair_graph (contradict builder (codes "tcp" ∷ [])) ≡ err both_relations
unfolding freeze_basis normalize_basis_ids normalize_missing collect_distinct check_disjoint
    check_blocked check_ran node member eqb sort insert_sorted less targets contradict
basis_refused = refl

freeze_basis-Citable_example : Citable pair_graph builder basis
freeze_basis-Citable_example = freeze_basis-Citable pair_graph builder basis basis_accepted

admit_confidence-high_iff_example : (admit_confidence confirmed direct basis ≡ ok high) ↔ (
    (finding_kind_valid confirmed ≡ true)
    × (basis.supporting ≢ [])
    × (basis.contradicting ≡ [])
    × ((direct ≡ direct)
        ⊎ ((direct ≡ complete_contrast) × (confirmed ≡ confirmed) × (basis.missing ≡ []))))
admit_confidence-high_iff_example = admit_confidence-high_iff confirmed direct basis

admit_confidence-err_iff_example :
    ((e : AdmitError) × (admit_confidence confirmed direct basis ≡ err e)) ↔ (
      (finding_kind_valid confirmed ≡ false)
      ⊎ ((basis.supporting ≡ []) ⊎ ((direct ≡ complete_contrast) × (basis.missing ≢ []))))
admit_confidence-err_iff_example = admit_confidence-err_iff confirmed direct basis

stated_low : admit_confidence confirmed direct basis ≡ ok low
unfolding admit_confidence
stated_low = refl

-- The same conclusion by another route, with more severity.
abbrev worse : Finding
worse = record unreachable_made { severity = Severity.critical; evidence_refs = codes "tcp" ∷ [] }

worse_accepted : new_finding worse ≡ ok worse
unfolding new_finding finding_code_valid split_underscores code_segments code_characters
    normalize_evidence_refs collect_refs copy_recommendations validate_identifier eqb runes
    trim_space has_control is_control drop_spaces is_space member sort insert_sorted less
worse_accepted = refl

abbrev routes : List Attributed
routes =
    record { rule = refused_id; finding = unreachable_made }
    ∷ record { rule = refused_id; finding = worse }
    ∷ []

routes-Attributable : All Attributable routes
routes-Attributable = (
  ((unreachable, unreachable_accepted), refused_id_valid),
  (((worse, worse_accepted), refused_id_valid), tt),
)

converge-Converged_example :
    (out : List Finding) × (converge routes ≡ ok out) × Converged routes out
converge-Converged_example = converge-Converged routes routes-Attributable

abbrev dns_id : Attributed → Bytes
dns_id a = codes "dns/refused"

routes-BothValid : All (BothValid dns_id) routes
unfolding rule_id_valid new_rule_id cut_slash contains_slash validate_rule_id_part check_bytes eqb
routes-BothValid = ((refl, refl), ((refl, refl), tt))

converge-rename_example : converge (map (rename dns_id) routes) ≡ converge routes
converge-rename_example = converge-rename dns_id routes routes-BothValid

abbrev context : RuleContext
context = record { graph = pair_graph; vantage = input.vantage; incomplete = false }

-- A rule that returns and one that panics.
abbrev rules : List RegisteredRule
rules =
    record { id = refused_id; eval = some (λ ctx. some (unreachable_made ∷ [])) }
    ∷ record { id = refused_id; eval = some (λ ctx. none) }
    ∷ []

rules-WellBehaved : All (WellBehaved context) rules
unfolding evaluate_one
rules-WellBehaved = (
  (
    refused_id_valid,
    λ findings e.
        let same : unreachable_made ∷ [] ≡ findings = cc in
        rw (← same) ((unreachable, unreachable_accepted), tt),
  ),
  ((refused_id_valid, λ findings e. absurd (cc)), tt),
)

evaluate-Converged_example :
    ((evaluate rules context).failures ≡ map (λ rule. rule.id) (keep (panics context) rules))
    × Converged (all_outputs context rules) (evaluate rules context).findings
evaluate-Converged_example = evaluate-Converged rules context rules-WellBehaved

rules-CitesGraph : All (CitesGraph context) rules
unfolding evaluate_one member node
rules-CitesGraph = (λ findings e x m. cited findings e x m, (λ findings e x m. absurd (cc), tt))
  where
    cited :
        (findings : List Finding)
        → some (unreachable_made ∷ []) ≡ some findings
        → (x : Bytes) → any (λ f. member x f.evidence_refs) findings ≡ true
        → has pair_graph.nodes x ≡ true
    cited findings e x m =
        let same : unreachable_made ∷ [] ≡ findings = cc in
        let found = rw (← same) at m in ground (arith, found)

evaluate-new_report_example :
    (report : Report) × (new_report
        (record input { graph = context.graph; findings = (evaluate rules context).findings })
      ≡ ok report)
unfolding eqb
evaluate-new_report_example =
    evaluate-new_report rules context input rules-WellBehaved rules-CitesGraph refl refl refl refl
