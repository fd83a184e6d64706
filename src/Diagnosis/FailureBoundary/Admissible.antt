-- ===== src/Diagnosis/FailureBoundary/Admissible.antt =====
-- The rule of internal/diagnosis/failureboundary.go is one that the engine can take.
use svcdoctor.Base.{
  true, List, [], ◌∷◌, any, All, some, ◌≡◌, refl, sym, ap, ◌∙◌, inl, inr, arith, Bool-cases,
  Option-cases,
}
use svcdoctor.Base.Bytes.{Bytes, codes, eqb, member, eqb_iff}
use svcdoctor.Base.Result.{ok, Result-cases}
use svcdoctor.Domain.Evidence.{Evidence}
use svcdoctor.Domain.Finding.{Finding, new_finding}
use svcdoctor.Domain.Finding.Valid.{new_finding-Valid}
use svcdoctor.Domain.Graph.Relation.{EvidenceId}
use svcdoctor.Domain.Graph.Builder.{GraphBuilder, Graph, node, has, freeze}
use svcdoctor.Domain.Graph.Builder.Preserved.{Built, Built-WellFormed}
use svcdoctor.Domain.Graph.Builder.Frozen.{freeze-WellFormed}
use svcdoctor.Diagnosis.Registry.{RuleContext, RegisteredRule}
use svcdoctor.Diagnosis.Boundary.{Boundary, boundaries}
use svcdoctor.Diagnosis.FailureBoundary.{when_ok, boundary_finding, findings_for, failure_boundary}
use svcdoctor.Diagnosis.RuleId.{
  rule_id_valid, new_rule_id, cut_slash, contains_slash, validate_rule_id_part, check_bytes,
}
use svcdoctor.Diagnosis.Engine.{evaluate_one}
use svcdoctor.Diagnosis.Engine.Isolated.{WellBehaved}
use svcdoctor.Diagnosis.Engine.Reportable.{CitesGraph}

-- Every node stands under its own id.
abbrev pub Keyed : Graph → Type 0
Keyed g = (id : EvidenceId) (e : Evidence) → node g.nodes id ≡ some e → e.id ≡ id

abbrev Made : Finding → Type 0
Made f = (given : Finding) × (new_finding given ≡ ok f)

-- A finding of the rule: made by `NewFinding`, with references in the graph.
abbrev Sound : Graph → Finding → Type 0
Sound g f = Made f × ((x : Bytes) → member x f.evidence_refs ≡ true → has g.nodes x ≡ true)

when_ok-Sound :
    (g : Graph) (given f : Finding)
    → when_ok (new_finding given) ≡ some f
    → ((x : Bytes) → member x given.evidence_refs ≡ true → has g.nodes x ≡ true)
    → Sound g f
when_ok-Sound g given f h cited = elim (Result-cases (new_finding given)) [
  | inl (made, e) ↦
      let same : made ≡ f = ground arith in
      let eq : new_finding given ≡ ok f = e ∙ ap ok same in
      ((given, eq), λ x m. cited x (sym ((new_finding-Valid given f eq).1 x) ∙ m))
  | inr (error, e) ↦ absurd (ground arith)
]

has_id :
    (g : Graph)
    → Keyed g
    → (id : EvidenceId) (e : Evidence) → node g.nodes id ≡ some e
    → has g.nodes e.id ≡ true
has_id g keyed id e found = rw (keyed id e found, found) refl

boundary_finding-Sound :
    (g : Graph) (b : Boundary) (f : Finding) → Keyed g → boundary_finding g b ≡ some f → Sound g f
unfolding boundary_finding
boundary_finding-Sound g b f keyed h = elim (Option-cases (node g.nodes b.first_failure)) [
  | inl missing ↦ absurd (ground arith)
  | inr (failing, found) ↦ elim (Bool-cases (eqb b.last_good [])) [
    | inl first ↦
        when_ok-Sound g _ f (rw (found, first) at h)
          (λ x m. one x failing (has_id g keyed b.first_failure failing found) m)
    | inr contrast ↦ elim (Option-cases (node g.nodes b.last_good)) [
      | inl gone ↦ absurd (ground arith)
      | inr (good, there) ↦ when_ok-Sound g _ f (rw (found, contrast, there) at h) (λ x m.
          two x failing good (has_id g keyed b.first_failure failing found)
            (has_id g keyed b.last_good good there) m)
    ]
  ]
]
  where
    one :
        (x : Bytes) (e : Evidence)
        → has g.nodes e.id ≡ true
        → member x (e.id ∷ []) ≡ true
        → has g.nodes x ≡ true
    one x e here m =
        let same : e.id ≡ x = unfold member in ground (arith, eqb_iff e.id x) in rw (← same) here

    two :
        (x : Bytes) (e d : Evidence)
        → has g.nodes e.id ≡ true
        → has g.nodes d.id ≡ true
        → member x (e.id ∷ d.id ∷ []) ≡ true
        → has g.nodes x ≡ true
    two x e d here there m = elim (Bool-cases (eqb e.id x)) [
      | inl same ↦ rw (← (eqb_iff e.id x).0 same) here
      | inr other ↦
          let same : d.id ≡ x = unfold member in ground (arith, eqb_iff d.id x, other) in
          rw (← same) there
    ]

findings_for-Sound : (g : Graph) (bs : List Boundary) → Keyed g → All (Sound g) (findings_for g bs)
unfolding findings_for
findings_for-Sound g [] keyed = tt
findings_for-Sound g (b ∷ rest) keyed = elim (Option-cases (boundary_finding g b)) [
  | inl nothing ↦ rw nothing (findings_for-Sound g rest keyed)
  | inr (f, made) ↦
      rw made (boundary_finding-Sound g b f keyed made, findings_for-Sound g rest keyed)
]

All-Made : (g : Graph) (fs : List Finding) → All (Sound g) fs → All Made fs
All-Made g [] h = tt
All-Made g (f ∷ fs) h = (h.0.0, All-Made g fs h.1)

cited_by_findings :
    (g : Graph) (fs : List Finding)
    → All (Sound g) fs
    → (x : Bytes) → any (λ f. member x f.evidence_refs) fs ≡ true
    → has g.nodes x ≡ true
cited_by_findings g [] h x m = absurd (cc)
cited_by_findings g (f ∷ fs) h x m = elim (Bool-cases (member x f.evidence_refs)) [
  | inl here ↦ h.0.1 x here
  | inr later ↦ cited_by_findings g fs h.1 x (rw later at m)
]

-- The registration of the rule: `Add("diag/failure-boundary", diagnosis.FailureBoundary)`.
abbrev pub failure_boundary_rule : RegisteredRule
failure_boundary_rule = record { id = codes "diag/failure-boundary"; eval = some failure_boundary }

Keyed-of : (b : GraphBuilder) (g : Graph) → Built b → freeze b ≡ ok g → Keyed g
Keyed-of b g built frozen =
    let w = Built-WellFormed built in
    let (h, made, f) = freeze-WellFormed b w in
    let same : h ≡ g = cc in rw (← same, f.same_nodes) w.keyed

-- On a graph that was built by accepted calls and frozen, the failure boundary rule does not
-- panic, and returns only findings that `NewFinding` made, which cite evidence of the graph only.
pub failure_boundary-Admissible :
    (b : GraphBuilder) (ctx : RuleContext)
    → Built b
    → freeze b ≡ ok ctx.graph
    → ((findings : List Finding) × (evaluate_one failure_boundary_rule ctx ≡ some findings))
      × WellBehaved ctx failure_boundary_rule
      × CitesGraph ctx failure_boundary_rule
unfolding failure_boundary evaluate_one rule_id_valid new_rule_id cut_slash contains_slash
    validate_rule_id_part check_bytes eqb
failure_boundary-Admissible b ctx built frozen =
    let g = ctx.graph in
    let fs = findings_for g (boundaries g) in
    let sound = findings_for-Sound g (boundaries g) (Keyed-of b g built frozen) in
    (
      (fs, refl),
      (refl, λ findings e. let same : fs ≡ findings = cc in rw (← same) (All-Made g fs sound)),
      λ findings e x m.
          let same : fs ≡ findings = cc in cited_by_findings g fs sound x (rw (← same) at m),
    )
