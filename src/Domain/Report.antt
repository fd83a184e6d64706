-- ===== src/Domain/Report.antt =====
-- internal/domain/report.go: `NewReport`, the checks on it and the order of its findings.
pub mod Correct
use Prim.Native.Nat.{compare, Ordering}
use svcdoctor.Base.{
  ℕ, Bool, true, false, not, ◌&&◌, List, [], ◌∷◌, ◌++◌, Option, none, some, if◌then◌else◌,
}
use svcdoctor.Base.Bytes.{Bytes, eqb}
use svcdoctor.Base.Result.{Result, ok, err, ◌>>=◌, ◌>>◌, reject}
use svcdoctor.Base.Sort.{then_by, compare_bytes, sort_by}
use svcdoctor.Domain.Vocabulary.{severity_rank, layer_rank}
use svcdoctor.Domain.Finding.{Finding, finding_is_zero}
use svcdoctor.Domain.Graph.Builder.{has, Graph}
use svcdoctor.Domain.Meta.{
  RunMetadata, run_metadata_is_zero, Target, target_is_zero, Vantage, vantage_is_zero,
  ReportSecurity, security_is_zero,
}
use svcdoctor.Domain.Summary.{Summary, derive_summary}

pub record ReportInput : Type 0 where
  pub run : RunMetadata
  pub target : Target
  pub vantage : Vantage
  pub graph : Graph
  pub findings : List Finding
  pub security : ReportSecurity

pub record Report : Type 0 where
  pub run : RunMetadata
  pub target : Target
  pub vantage : Vantage
  pub graph : Graph
  pub findings : List Finding
  pub summary : Summary
  pub security : ReportSecurity

-- `unknown_evidence` wraps `ErrInvalidReport`, the others `ErrInvalidValue`.
pub data ReportError : Type 0 where
  no_run no_target no_vantage no_security zero_finding unknown_evidence : ReportError

unfoldable pub check_findings : List Finding → Result ReportError (Unit {0})
check_findings [] = ok tt
check_findings (f ∷ fs) = do reject (finding_is_zero f) zero_finding; check_findings fs

unfoldable pub validate_refs : Graph → List Bytes → Result ReportError (Unit {0})
validate_refs g [] = ok tt
validate_refs g (ref ∷ refs) = do
  reject (not (has g.nodes ref)) unknown_evidence
  validate_refs g refs

unfoldable pub validate_evidence_refs : Graph → List Finding → Result ReportError (Unit {0})
unfolding validate_refs
validate_evidence_refs g [] = ok tt
validate_evidence_refs g (f ∷ fs) = do validate_refs g f.evidence_refs; validate_evidence_refs g fs

-- `strings.Join(parts, "\x00")`
unfoldable pub join_ids : List Bytes → Bytes
join_ids [] = []
join_ids (id ∷ ids) = elim ids [ [] ↦ id | _ ∷ _ ↦ id ++ 0 ∷ join_ids ids ]

-- The comparison of `SortFindings`.
unfoldable pub compare_findings : Finding → Finding → Ordering
unfolding join_ids
compare_findings a b = then_by (compare (severity_rank b.severity) (severity_rank a.severity)) (
    then_by (compare (layer_rank a.layer) (layer_rank b.layer)) (
      then_by (compare_bytes a.code b.code) (
        then_by (compare_bytes a.subject.ref b.subject.ref) (
          then_by (compare_bytes a.summary b.summary)
            (compare_bytes (join_ids a.evidence_refs) (join_ids b.evidence_refs))))))

unfoldable pub sort_findings : List Finding → List Finding
unfolding sort_by compare_findings
sort_findings = sort_by compare_findings

unfoldable pub new_report : ReportInput → Result ReportError Report
unfolding check_findings validate_evidence_refs
new_report r = do
  reject (run_metadata_is_zero r.run) no_run
  reject (target_is_zero r.target) no_target
  reject (vantage_is_zero r.vantage) no_vantage
  reject (security_is_zero r.security) no_security
  check_findings r.findings
  validate_evidence_refs r.graph r.findings
  let findings = sort_findings r.findings
  ok (record {
    run = r.run;
    target = r.target;
    vantage = r.vantage;
    graph = r.graph;
    findings = findings;
    summary = derive_summary r.graph findings;
    security = r.security;
  })

abbrev pub report_is_zero : Report → Bool
report_is_zero r = run_metadata_is_zero r.run && target_is_zero r.target
