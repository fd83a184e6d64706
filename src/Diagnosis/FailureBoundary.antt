-- ===== src/Diagnosis/FailureBoundary.antt =====
-- internal/diagnosis/failureboundary.go: the rule that reports where observation stopped succeeding.
pub mod Admissible
use svcdoctor.Base.{Bool, true, false, not, List, [], ◌∷◌, ◌++◌, Option, none, some, if◌then◌else◌}
use svcdoctor.Base.Bytes.{Bytes, codes, eqb}
use svcdoctor.Base.Result.{Result, ok, err}
use svcdoctor.Domain.Vocabulary.{
  Layer, layer_label, dns, tcp, tls, Severity, Confidence, FindingKind,
}
use svcdoctor.Domain.Evidence.{Evidence}
use svcdoctor.Domain.Finding.{Finding, FindingError, new_finding}
use svcdoctor.Domain.Graph.Relation.{EvidenceId}
use svcdoctor.Domain.Graph.Builder.{Graph, node}
use svcdoctor.Diagnosis.Registry.{RuleContext, Rule}
use svcdoctor.Diagnosis.Boundary.{Boundary, cons_some, boundaries}

abbrev pub code_failure_boundary : Bytes
code_failure_boundary = codes "DIAG_FAILURE_BOUNDARY"

-- `fmt.Sprintf(summaryBoundaryFirstStage, failing)`
abbrev pub first_stage_summary : Layer → Bytes
first_stage_summary failing =
    codes "The first stage measured for this subject, " ++ (layer_label failing ++ codes ", failed")

-- `fmt.Sprintf(summaryBoundaryContrast, good, failing)`
abbrev pub contrast_summary : Layer → Layer → Bytes
contrast_summary good failing =
    codes "Observation of this subject last succeeded at the "
    ++ (layer_label good
        ++ (codes " stage and first failed at the " ++ (layer_label failing ++ codes " stage")))

abbrev pub meaning : Bytes
meaning =
    codes "This states where observation stopped succeeding and nothing about why. "
    ++ (codes "It does not claim that this stage caused the failure, and it is not a "
        ++ codes "statement about any other stage.")

abbrev pub no_last_good : Bytes
no_last_good =
    codes "\nNothing for this subject succeeded before it, so there is no "
    ++ (codes "confirmed-good stage to contrast it against; the absence is reported rather than "
        ++ codes "filled in.")

abbrev pub not_measured_note : Bytes
not_measured_note =
    codes "\nSome stages for this subject were not measured. A stage that "
    ++ (codes "did not run was neither proven to work nor proven to fail, and none of them is "
        ++ codes "cited here.")

abbrev pub vantage_dependent_layer : Layer → Bool
vantage_dependent_layer dns = true
vantage_dependent_layer tcp = true
vantage_dependent_layer tls = true
vantage_dependent_layer _ = false

abbrev note_unmeasured : List EvidenceId → Bytes
note_unmeasured [] = []
note_unmeasured (id ∷ ids) = not_measured_note

-- The input of `NewFinding`, from the summary, the references and the detail without its last note.
abbrev pub finding_input : Boundary → Evidence → Bytes → List EvidenceId → Bytes → Finding
finding_input b failing summary refs detail = record {
  code = code_failure_boundary;
  kind = FindingKind.confirmed;
  severity = Severity.info;
  confidence = Confidence.high;
  layer = failing.layer;
  subject = b.subject;
  summary = summary;
  detail = detail ++ note_unmeasured b.not_measured;
  evidence_refs = refs;
  recommendations = [];
  vantage_dependent = vantage_dependent_layer failing.layer;
  discriminator = [];
}

abbrev pub when_ok : Result FindingError Finding → Option Finding
when_ok (ok f) = some f
when_ok (err e) = none

abbrev contrast_finding : Boundary → Evidence → Option Evidence → Option Finding
contrast_finding b failing none = none
contrast_finding b failing (some good) = when_ok (
    new_finding (
      finding_input b failing (contrast_summary good.layer failing.layer)
        (failing.id ∷ good.id ∷ []) meaning))

abbrev first_stage_finding : Boundary → Evidence → Option Finding
first_stage_finding b failing = when_ok (
    new_finding (
      finding_input b failing (first_stage_summary failing.layer) (failing.id ∷ [])
        (meaning ++ no_last_good)))

abbrev finding_for : Graph → Boundary → Option Evidence → Option Finding
finding_for g b none = none
finding_for g b (some failing) =
    let contrast = contrast_finding b failing (node g.nodes b.last_good) in
    if eqb b.last_good [] then first_stage_finding b failing else contrast

unfoldable pub boundary_finding : Graph → Boundary → Option Finding
boundary_finding g b = finding_for g b (node g.nodes b.first_failure)

unfoldable pub findings_for : Graph → List Boundary → List Finding
unfolding boundary_finding
findings_for g [] = []
findings_for g (b ∷ rest) = cons_some (boundary_finding g b) (findings_for g rest)

-- The rule; it does not panic.
unfoldable pub failure_boundary : Rule
unfolding findings_for boundaries
failure_boundary ctx = some (findings_for ctx.graph (boundaries ctx.graph))
