-- ===== src/Domain/Summary/Correct.antt =====
-- What `deriveSummary` of internal/domain/summary.go says of the findings and the evidence.
use svcdoctor.Base.{
  ℕ, ◌+◌, ◌≤◌, Bool, true, false, List, [], ◌∷◌, length, All, if◌then◌else◌, ◌≡◌, refl, ◌⊎◌, inl,
  inr, ◌↔◌, arith,
}
use svcdoctor.Domain.Vocabulary.{
  State, Severity, Layer, layer_rank, layer_valid, severity_valid, severity_rank,
}
use svcdoctor.Domain.Evidence.{Evidence}
use svcdoctor.Domain.Finding.{Finding}
use svcdoctor.Domain.Summary.{
  SummaryStatus, total, Summary, count_finding, count_findings, count_evidence, count_nodes,
}

-- Some element satisfies `P`.
abbrev pub Any {ℓ} : {A : Type ℓ} → (A → Type 0) → List A → Type 0
Any P [] = ⊥
Any P (x ∷ xs) = P x ⊎ Any P xs

-- A finding that reaches ERROR.
abbrev pub IsProblem : Finding → Type 0
IsProblem f = 3 ≤ severity_rank f.severity

abbrev pub HasSeverity : Finding → Type 0
HasSeverity f = severity_valid f.severity ≡ true

abbrev pub FailsAt : Layer → Evidence → Type 0
FailsAt l e = (e.state ≡ State.fail) × (e.layer ≡ l)

-- A failure of `e` lies at `l` or above.
abbrev pub NotBelow : Layer → Evidence → Type 0
NotBelow l e = e.state ≡ State.fail → layer_rank l ≤ layer_rank e.layer

abbrev pub HasLayer : Evidence → Type 0
HasLayer e = layer_valid e.layer ≡ true

abbrev pub is_state_skipped : State → Bool
is_state_skipped State.skipped = true
is_state_skipped _ = false

abbrev pub is_state_unknown : State → Bool
is_state_unknown State.unknown = true
is_state_unknown _ = false

-- How many pieces of evidence are in a state that `p` accepts.
abbrev pub count_state : (State → Bool) → List Evidence → ℕ
count_state p [] = 0
count_state p (e ∷ es) = (if p e.state then 1 else 0) + count_state p es

count_finding-problem :
    (v : Severity) (s : Summary)
    → ((count_finding v s).status ≡ SummaryStatus.problems_found)
      ↔ ((s.status ≡ SummaryStatus.problems_found) ⊎ (3 ≤ severity_rank v))
unfolding count_finding
count_finding-problem Severity.unspecified s = (λ e. inl e, λ h. ground arith)
count_finding-problem Severity.info s = (λ e. inl e, λ h. ground arith)
count_finding-problem Severity.warn s = (λ e. inl e, λ h. ground arith)
count_finding-problem Severity.error s = (λ e. inr (omega arith), λ h. refl)
count_finding-problem Severity.critical s = (λ e. inr (omega arith), λ h. refl)

pub count_findings-IsProblem :
    (fs : List Finding) (s : Summary)
    → ((count_findings s fs).status ≡ SummaryStatus.problems_found)
      ↔ ((s.status ≡ SummaryStatus.problems_found) ⊎ Any IsProblem fs)
unfolding count_findings
count_findings-IsProblem [] s = (λ e. inl e, λ h. only h)
  where
    only : (s.status ≡ SummaryStatus.problems_found) ⊎ ⊥ → s.status ≡ SummaryStatus.problems_found
    only (inl e) = e
    only (inr k) = absurd k
count_findings-IsProblem (f ∷ fs) s =
    let step = count_finding-problem f.severity s in
    let rest = count_findings-IsProblem fs (count_finding f.severity s) in
    (λ e. split step (rest.0 e), λ h. rest.1 (join step h))
  where
    split :
        ((count_finding f.severity s).status ≡ SummaryStatus.problems_found)
          ↔ ((s.status ≡ SummaryStatus.problems_found) ⊎ IsProblem f)
        → ((count_finding f.severity s).status ≡ SummaryStatus.problems_found) ⊎ Any IsProblem fs
        → (s.status ≡ SummaryStatus.problems_found) ⊎ (IsProblem f ⊎ Any IsProblem fs)
    split step (inl e) = elim (step.0 e) [ inl old ↦ inl old | inr p ↦ inr (inl p) ]
    split step (inr p) = inr (inr p)

    join :
        ((count_finding f.severity s).status ≡ SummaryStatus.problems_found)
          ↔ ((s.status ≡ SummaryStatus.problems_found) ⊎ IsProblem f)
        → (s.status ≡ SummaryStatus.problems_found) ⊎ (IsProblem f ⊎ Any IsProblem fs)
        → ((count_finding f.severity s).status ≡ SummaryStatus.problems_found) ⊎ Any IsProblem fs
    join step (inl e) = inl (step.1 (inl e))
    join step (inr (inl p)) = inl (step.1 (inr p))
    join step (inr (inr p)) = inr p

-- The loop over the findings counts each once, and leaves the evidence's fields alone.
pub count_findings-kept :
    (fs : List Finding) (s : Summary)
    → ((count_findings s fs).first_broken_layer ≡ s.first_broken_layer)
      × ((count_findings s fs).skipped_evidence_count ≡ s.skipped_evidence_count)
      × ((count_findings s fs).unknown_evidence_count ≡ s.unknown_evidence_count)
unfolding count_findings count_finding
count_findings-kept [] s = (refl, refl, refl)
count_findings-kept (f ∷ fs) s = ground (arith, count_findings-kept fs (count_finding f.severity s))

pub count_findings-total :
    (fs : List Finding) (s : Summary)
    → All HasSeverity fs
    → total (count_findings s fs).counts ≡ total s.counts + length fs
unfolding count_findings count_finding total
count_findings-total [] s h = omega arith
count_findings-total (f ∷ fs) s h =
    ground (arith, count_findings-total fs (count_finding f.severity s) h.1)

pub count_nodes-kept :
    (es : List Evidence) (s : Summary)
    → ((count_nodes s es).status ≡ s.status)
      × ((count_nodes s es).counts ≡ s.counts)
      × ((count_nodes s es).skipped_evidence_count
          ≡ s.skipped_evidence_count + count_state is_state_skipped es)
      × ((count_nodes s es).unknown_evidence_count
          ≡ s.unknown_evidence_count + count_state is_state_unknown es)
unfolding count_nodes count_evidence
count_nodes-kept [] s = (refl, refl, omega arith, omega arith)
count_nodes-kept (e ∷ es) s = ground (arith, count_nodes-kept es (count_evidence e.state e.layer s))
