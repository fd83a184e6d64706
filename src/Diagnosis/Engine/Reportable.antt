-- ===== src/Diagnosis/Engine/Reportable.antt =====
-- The findings of an evaluation (internal/diagnosis/engine.go) go into a report
-- (internal/domain/report.go).
use svcdoctor.Base.{
  Bool, true, false, ◌||◌, List, [], ◌∷◌, ◌++◌, any, any-append, All, some, ◌≡◌, refl, sym, ap, ◌∙◌,
  inl, inr, arith, Bool-cases, Option-cases,
}
use svcdoctor.Base.Bytes.{Bytes, member, eqb_refl}
use svcdoctor.Base.Sort.Kept.{any-Perm}
use svcdoctor.Base.Result.{ok}
use svcdoctor.Domain.Meta.{run_metadata_is_zero, target_is_zero, vantage_is_zero, security_is_zero}
use svcdoctor.Domain.Finding.{Finding, finding_is_zero}
use svcdoctor.Domain.Finding.Accepted.{code_nonempty}
use svcdoctor.Domain.Graph.Builder.{Graph, has}
use svcdoctor.Domain.Report.{
  ReportInput, Report, check_findings, validate_refs, validate_evidence_refs, new_report,
  sort_findings,
}
use svcdoctor.Domain.Summary.{derive_summary}
use svcdoctor.Diagnosis.Groups.{Attributed}
use svcdoctor.Diagnosis.Converge.Refined.{MergesAll, cites-Converged}
use svcdoctor.Diagnosis.Registry.{RuleContext, RegisteredRule}
use svcdoctor.Diagnosis.Engine.{evaluate_one, produced, evaluate, attribute}
use svcdoctor.Diagnosis.Engine.Isolated.{WellBehaved, all_outputs, produced_lem, evaluate-Converged}

MergesAll-not_zero :
    (groups : List (List Attributed)) (merged : List Finding)
    → MergesAll groups merged
    → any (λ f. finding_is_zero f) merged ≡ false
MergesAll-not_zero [] [] h = refl
MergesAll-not_zero [] (f ∷ fs) h = absurd h
MergesAll-not_zero (group ∷ groups) [] h = absurd h
MergesAll-not_zero (group ∷ groups) (f ∷ fs) (merges, v, h) =
    rw (code_nonempty f.code v.code_ok) (MergesAll-not_zero groups fs h)

check_findings-ok :
    (fs : List Finding) → any (λ f. finding_is_zero f) fs ≡ false → check_findings fs ≡ ok tt
unfolding check_findings
check_findings-ok [] h = refl
check_findings-ok (f ∷ fs) h = ground (arith, check_findings-ok fs)

validate_refs-ok :
    (g : Graph) (refs : List Bytes)
    → ((x : Bytes) → member x refs ≡ true → has g.nodes x ≡ true)
    → validate_refs g refs ≡ ok tt
unfolding validate_refs
validate_refs-ok g [] h = refl
validate_refs-ok g (ref ∷ refs) h =
    rw (h ref (unfold member in rw (eqb_refl ref) refl))
      (validate_refs-ok g refs (λ x m. h x (unfold member in ground (arith, m))))

validate_evidence_refs-ok :
    (g : Graph) (fs : List Finding)
    → ((x : Bytes) → any (λ f. member x f.evidence_refs) fs ≡ true → has g.nodes x ≡ true)
    → validate_evidence_refs g fs ≡ ok tt
unfolding validate_evidence_refs
validate_evidence_refs-ok g [] h = refl
validate_evidence_refs-ok g (f ∷ fs) h =
    rw (validate_refs-ok g f.evidence_refs (λ x m. h x (rw m refl)))
      (validate_evidence_refs-ok g fs (λ x m. h x (later (member x f.evidence_refs) m)))
  where
    later : (b : Bool) {c : Bool} → c ≡ true → (b || c) ≡ true
    later b h = ground arith

-- Every rule that returns cites evidence of the graph only.
abbrev pub CitesGraph : RuleContext → RegisteredRule → Type 0
CitesGraph ctx rule =
    (findings : List Finding)
    → evaluate_one rule ctx ≡ some findings
    → (x : Bytes) → any (λ f. member x f.evidence_refs) findings ≡ true
    → has ctx.graph.nodes x ≡ true

cites-attribute :
    (x id : Bytes) (findings : List Finding)
    → any (λ a. member x a.finding.evidence_refs) (attribute id findings)
      ≡ any (λ f. member x f.evidence_refs) findings
cites-attribute x id [] = refl
cites-attribute x id (f ∷ findings) =
    ap (λ b. member x f.evidence_refs || b) (cites-attribute x id findings)

cites-produced :
    (ctx : RuleContext) (rules : List RegisteredRule) (x : Bytes)
    → All (CitesGraph ctx) rules
    → any (λ a. member x a.finding.evidence_refs) (produced ctx rules) ≡ true
    → has ctx.graph.nodes x ≡ true
unfolding produced
cites-produced ctx [] x h m = absurd (cc)
cites-produced ctx (rule ∷ rules) x h m = elim (Option-cases (evaluate_one rule ctx)) [
  | inl panic ↦ cites-produced ctx rules x h.1 (rw panic at m)
  | inr (findings, returned) ↦
      split findings returned (cites-produced ctx rules x h.1) (rw returned at m)
]
  where
    split :
        (findings : List Finding)
        → evaluate_one rule ctx ≡ some findings
        → (any (λ a. member x a.finding.evidence_refs) (produced ctx rules) ≡ true
            → has ctx.graph.nodes x ≡ true)
        → any
            (λ a. member x a.finding.evidence_refs)
            (attribute rule.id findings ++ produced ctx rules)
          ≡ true
        → has ctx.graph.nodes x ≡ true
    split findings returned others m =
        elim (Bool-cases (any (λ f. member x f.evidence_refs) findings)) [
          | inl here ↦ h.0 findings returned x here
          | inr later ↦ others (
              rw
                (
                  any-append (λ a. member x a.finding.evidence_refs) (attribute rule.id findings)
                      (produced ctx rules),
                  cites-attribute x rule.id findings,
                  later,
                )
                at m)
        ]

-- If every rule panics or returns findings that `NewFinding` made, citing evidence of the graph
-- only, and the identities of the rules are valid, then a report on the graph with the findings of
-- the evaluation is accepted, its other parts not being zero.
pub evaluate-new_report :
    (rules : List RegisteredRule) (ctx : RuleContext) (parts : ReportInput)
    → All (WellBehaved ctx) rules
    → All (CitesGraph ctx) rules
    → run_metadata_is_zero parts.run ≡ false
    → target_is_zero parts.target ≡ false
    → vantage_is_zero parts.vantage ≡ false
    → security_is_zero parts.security ≡ false
    → (report : Report) × (new_report
          (record parts { graph = ctx.graph; findings = (evaluate rules ctx).findings })
        ≡ ok report)
unfolding new_report
evaluate-new_report rules ctx parts behaved cited run target vantage security =
    let c = (evaluate-Converged rules ctx behaved).1 in
    let out = (evaluate rules ctx).findings in
    let items = all_outputs ctx rules in
    let real : any (λ f. finding_is_zero f) out ≡ false =
      any-Perm (λ f. finding_is_zero f) c.reordered
      ∙ MergesAll-not_zero c.groups c.merged c.each_group in
    let known = λ (x : Bytes) (m : any (λ f. member x f.evidence_refs) out ≡ true).
      cites-produced ctx rules x cited (
        ap (any (λ a. member x a.finding.evidence_refs)) (produced_lem ctx rules).0
        ∙ sym (cites-Converged x items out c)
        ∙ m) in
    (
      record {
        run = parts.run;
        target = parts.target;
        vantage = parts.vantage;
        graph = ctx.graph;
        findings = sort_findings out;
        summary = derive_summary ctx.graph (sort_findings out);
        security = parts.security;
      },
      rw
          (
            run,
            target,
            vantage,
            security,
            check_findings-ok out real,
            validate_evidence_refs-ok ctx.graph out known,
          )
          refl,
    )
