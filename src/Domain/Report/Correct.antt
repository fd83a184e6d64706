-- ===== src/Domain/Report/Correct.antt =====
-- What holds of a report that `NewReport` of internal/domain/report.go accepts.
use mathlib.Core.List.{Perm}
use svcdoctor.Base.{true, false, List, [], ◌∷◌, All, ◌≡◌, refl, arith, Bool-cases, inl, inr}
use svcdoctor.Base.Bytes.{Bytes}
use svcdoctor.Base.Result.{ok, >>-eq-ok, reject-eq-ok}
use svcdoctor.Base.Sort.{
  flip_order, flip-then_by, flip-compare, flip-compare_bytes, Ascending, sort_by-Perm,
  sort_by-Ascending,
}
use svcdoctor.Domain.Finding.{Finding}
use svcdoctor.Domain.Graph.Builder.{has, Graph}
use svcdoctor.Domain.Summary.{derive_summary}
use svcdoctor.Domain.Summary.Broken.{Summarises, derive_summary-Summarises}
use svcdoctor.Domain.Meta.{run_metadata_is_zero, target_is_zero, vantage_is_zero, security_is_zero}
use svcdoctor.Domain.Report.{
  ReportInput, Report, no_run, no_target, no_vantage, no_security, check_findings, validate_refs,
  validate_evidence_refs, compare_findings, sort_findings, new_report, report_is_zero,
}

-- Comparing the other way round gives the opposite answer, so the order has no contradictions.
pub flip-compare_findings :
    (a b : Finding) → flip_order (compare_findings a b) ≡ compare_findings b a
unfolding compare_findings
flip-compare_findings a b = simp (flip-then_by, flip-compare, flip-compare_bytes)

-- Every id that a finding cites is in the graph.
abbrev pub Grounded : Graph → Finding → Type 0
Grounded g f = All (λ ref. has g.nodes ref ≡ true) f.evidence_refs

validate_refs-ok :
    (g : Graph) (refs : List Bytes)
    → validate_refs g refs ≡ ok tt
    → All (λ ref. has g.nodes ref ≡ true) refs
unfolding validate_refs
validate_refs-ok g [] h = tt
validate_refs-ok g (ref ∷ refs) h = elim (Bool-cases (has g.nodes ref)) [
  | inl present ↦ (present, validate_refs-ok g refs (rw present at h))
  | inr absent ↦ absurd (ground arith)
]

validate_evidence_refs-ok :
    (g : Graph) (fs : List Finding) → validate_evidence_refs g fs ≡ ok tt → All (Grounded g) fs
unfolding validate_evidence_refs
validate_evidence_refs-ok g [] h = tt
validate_evidence_refs-ok g (f ∷ fs) h =
    let (first, rest) = >>-eq-ok (validate_refs g f.evidence_refs) _ h in
    (validate_refs-ok g f.evidence_refs first, validate_evidence_refs-ok g fs rest)

-- A report that was accepted, against what it was made from.
pub record Accepted (r : ReportInput) (report : Report) : Type 0 where
  pub same_graph : report.graph ≡ r.graph
  pub same_findings : Perm report.findings r.findings
  pub ordered : Ascending compare_findings report.findings
  pub grounded : All (Grounded r.graph) r.findings
  pub summarised : Summarises r.graph report.findings report.summary
  pub not_zero : report_is_zero report ≡ false

made : ReportInput → Report
made r = record {
  run = r.run;
  target = r.target;
  vantage = r.vantage;
  graph = r.graph;
  findings = sort_findings r.findings;
  summary = derive_summary r.graph (sort_findings r.findings);
  security = r.security;
}

-- What the checks have established.
checked :
    (r : ReportInput) (report : Report)
    → new_report r ≡ ok report
    → (report_is_zero (made r) ≡ false)
      × (validate_evidence_refs r.graph r.findings ≡ ok tt)
      × (made r ≡ report)
unfolding new_report made
checked r report h =
    let (run, h) = reject-eq-ok (run_metadata_is_zero r.run) no_run _ h in
    let (target, h) = reject-eq-ok (target_is_zero r.target) no_target _ h in
    let (vantage, h) = reject-eq-ok (vantage_is_zero r.vantage) no_vantage _ h in
    let (security, h) = reject-eq-ok (security_is_zero r.security) no_security _ h in
    let (findings, h) = >>-eq-ok (check_findings r.findings) _ h in
    let (refs, h) = >>-eq-ok (validate_evidence_refs r.graph r.findings) _ h in
    (rw run refl, refs, cc)

-- An accepted report keeps its graph; its findings are those given, rearranged so that none
-- compares above its right neighbour; every id that they cite is in the graph; the summary
-- reports problems exactly when some finding reaches ERROR and counts the skipped and the unknown
-- evidence; and the report is not the zero report.
pub new_report-Accepted :
    (r : ReportInput) (report : Report) → new_report r ≡ ok report → Accepted r report
unfolding new_report made
new_report-Accepted r report h =
    let checks = checked r report h in
    let same : made r ≡ report = checks.2 in
    rw (← same) (record {
      same_graph = refl;
      same_findings = unfold sort_findings in sort_by-Perm compare_findings r.findings;
      ordered =
          unfold sort_findings in
          sort_by-Ascending compare_findings flip-compare_findings r.findings;
      grounded = validate_evidence_refs-ok r.graph r.findings checks.1;
      summarised = derive_summary-Summarises r.graph (sort_findings r.findings);
      not_zero = checks.0;
    })
