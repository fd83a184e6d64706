-- ===== src/Domain/Summary/Broken.antt =====
-- `firstBrokenLayer` of internal/domain/summary.go: the lowest layer with failed evidence.
use svcdoctor.Base.{
  ◌+◌, ◌≤◌, ◌<◌, true, false, List, [], ◌∷◌, ltb, length, All, ◌≡◌, refl, sym, ap, ◌∙◌, ◌⊎◌, inl,
  inr, ◌↔◌, ◌≢◌, arith, Bool-cases,
}
use svcdoctor.Domain.Vocabulary.{State, Layer, layer_rank, layer_valid}
use svcdoctor.Domain.Evidence.{Evidence}
use svcdoctor.Domain.Finding.{Finding}
use svcdoctor.Domain.Graph.Builder.{Graph}
use svcdoctor.Domain.Summary.Correct.{
  Any, IsProblem, HasSeverity, FailsAt, NotBelow, HasLayer, is_state_skipped, is_state_unknown,
  count_state, count_findings-IsProblem, count_findings-kept, count_findings-total,
  count_nodes-kept,
}
use svcdoctor.Domain.Summary.{
  SummaryStatus, total, Summary, nodes_of, count_findings, is_unspecified, count_evidence,
  count_nodes, fresh_summary, derive_summary,
}

-- What the loop makes of a layer `l` already found.
abbrev Lowest : Layer → List Evidence → Layer → Type 0
Lowest l es r = (layer_rank r ≤ layer_rank l) × ((l ≡ r) ⊎ Any (FailsAt r) es) × All (NotBelow r) es

-- What one piece of evidence makes of it.
abbrev StepLow : Layer → Evidence → Layer → Type 0
StepLow l e m =
    ((m ≡ l) × NotBelow l e)
    ⊎ (FailsAt m e × (layer_rank m < layer_rank l) × (layer_valid m ≡ true))

NotBelow-of : (s : State) (l : Layer) (e : Evidence) → e.state ≡ s → s ≢ State.fail → NotBelow l e
NotBelow-of s l e h ne f = absurd (ne (sym h ∙ f))

valid_not_unspecified : (l : Layer) → layer_valid l ≡ true → is_unspecified l ≡ false
valid_not_unspecified l v = ground arith

count_evidence-low :
    (e : Evidence) (s : Summary)
    → HasLayer e
    → layer_valid s.first_broken_layer ≡ true
    → StepLow s.first_broken_layer e (count_evidence e.state e.layer s).first_broken_layer
count_evidence-low e s he v =
    cases e.state refl (Bool-cases (ltb (layer_rank e.layer) (layer_rank s.first_broken_layer)))
  where
    cases :
        (st : State)
        → e.state ≡ st
        → (ltb (layer_rank e.layer) (layer_rank s.first_broken_layer) ≡ true)
          ⊎ (ltb (layer_rank e.layer) (layer_rank s.first_broken_layer) ≡ false)
        → StepLow s.first_broken_layer e (count_evidence st e.layer s).first_broken_layer
    cases State.fail h (inl lower) =
        unfold count_evidence in
        rw (valid_not_unspecified s.first_broken_layer v, lower) (inr ((h, refl), ground arith, he))
    cases State.fail h (inr kept) =
        unfold count_evidence in
        rw (valid_not_unspecified s.first_broken_layer v, kept) (inl (refl, λ f. ground arith))
    cases State.pass h _ =
        unfold count_evidence in inl (refl, NotBelow-of State.pass _ e h (λ k. cc))
    cases State.degraded h _ =
        unfold count_evidence in inl (refl, NotBelow-of State.degraded _ e h (λ k. cc))
    cases State.unknown h _ =
        unfold count_evidence in inl (refl, NotBelow-of State.unknown _ e h (λ k. cc))
    cases State.skipped h _ =
        unfold count_evidence in inl (refl, NotBelow-of State.skipped _ e h (λ k. cc))

Lowest-cons :
    (l m r : Layer) (e : Evidence) (es : List Evidence)
    → StepLow l e m
    → Lowest m es r
    → Lowest l (e ∷ es) r
Lowest-cons l m r e es (inl (same, above)) (le, from, all) =
    (rw same at le, kept from, (λ f. omega (arith, above f, ap layer_rank same), all))
  where
    kept : (m ≡ r) ⊎ Any (FailsAt r) es → (l ≡ r) ⊎ (FailsAt r e ⊎ Any (FailsAt r) es)
    kept (inl h) = inl (sym same ∙ h)
    kept (inr a) = inr (inr a)
Lowest-cons l m r e es (inr ((f, at), lt, v)) (le, from, all) =
    (omega arith, inr (found from), (λ g. omega (arith, ap layer_rank at), all))
  where
    found : (m ≡ r) ⊎ Any (FailsAt r) es → FailsAt r e ⊎ Any (FailsAt r) es
    found (inl h) = inl (f, at ∙ h)
    found (inr a) = inr a

StepLow-valid :
    (l m : Layer) (e : Evidence) → layer_valid l ≡ true → StepLow l e m → layer_valid m ≡ true
StepLow-valid l m e v (inl (same, _)) = rw same v
StepLow-valid l m e v (inr (_, _, w)) = w

count_nodes-Lowest :
    (es : List Evidence) (s : Summary)
    → All HasLayer es
    → layer_valid s.first_broken_layer ≡ true
    → Lowest s.first_broken_layer es (count_nodes s es).first_broken_layer
unfolding count_nodes
count_nodes-Lowest [] s h v = (omega arith, inl refl, tt)
count_nodes-Lowest (e ∷ es) s h v =
    let low = count_evidence-low e s h.0 v in
    let s' = count_evidence e.state e.layer s in
    Lowest-cons s.first_broken_layer s'.first_broken_layer (count_nodes s' es).first_broken_layer e
      es low
      (count_nodes-Lowest es s' h.1
        (StepLow-valid s.first_broken_layer s'.first_broken_layer e v low))

-- No evidence failed, or the layer is the lowest of those that failed.
abbrev pub FirstBroken : Layer → List Evidence → Type 0
FirstBroken r es =
    ((r ≡ Layer.unspecified) × All (λ e. e.state ≢ State.fail) es)
    ⊎ (Any (FailsAt r) es × All (NotBelow r) es)

-- While nothing has failed, one piece of evidence either fails or leaves the layer unset.
count_evidence-first :
    (e : Evidence) (s : Summary)
    → s.first_broken_layer ≡ Layer.unspecified
    → (FailsAt (count_evidence e.state e.layer s).first_broken_layer e)
      ⊎ ((e.state ≢ State.fail)
          × ((count_evidence e.state e.layer s).first_broken_layer ≡ Layer.unspecified))
count_evidence-first e s u = cases e.state refl
  where
    cases :
        (st : State)
        → e.state ≡ st
        → (FailsAt (count_evidence st e.layer s).first_broken_layer e)
          ⊎ ((e.state ≢ State.fail)
              × ((count_evidence st e.layer s).first_broken_layer ≡ Layer.unspecified))
    cases State.fail h = inl (h, unfold count_evidence in ground arith)
    cases State.pass h = inr (λ f. cc, unfold count_evidence in u)
    cases State.degraded h = inr (λ f. cc, unfold count_evidence in u)
    cases State.unknown h = inr (λ f. cc, unfold count_evidence in u)
    cases State.skipped h = inr (λ f. cc, unfold count_evidence in u)

count_nodes-first :
    (es : List Evidence) (s : Summary)
    → All HasLayer es
    → s.first_broken_layer ≡ Layer.unspecified
    → FirstBroken (count_nodes s es).first_broken_layer es
unfolding count_nodes
count_nodes-first [] s h u = inl (u, tt)
count_nodes-first (e ∷ es) s h u =
    let s' = count_evidence e.state e.layer s in
    cases (count_evidence-first e s u) (λ w. count_nodes-first es s' h.1 w)
  where
    r : Layer
    r = (count_nodes (count_evidence e.state e.layer s) es).first_broken_layer

    found : FailsAt (count_evidence e.state e.layer s).first_broken_layer e → FirstBroken r (e ∷ es)
    found (f, at) =
        let (le, from, all) =
          count_nodes-Lowest es (count_evidence e.state e.layer s) h.1 (rw (← at) h.0) in
        inr (first from, (λ g. omega (arith, ap layer_rank at), all))
      where
        first :
            ((count_evidence e.state e.layer s).first_broken_layer ≡ r) ⊎ Any (FailsAt r) es
            → FailsAt r e ⊎ Any (FailsAt r) es
        first (inl k) = inl (f, at ∙ k)
        first (inr a) = inr a

    later : e.state ≢ State.fail → FirstBroken r es → FirstBroken r (e ∷ es)
    later ne (inl (k, none)) = inl (k, (ne, none))
    later ne (inr (a, all)) = inr (inr a, (λ f. absurd (ne f), all))

    cases :
        FailsAt (count_evidence e.state e.layer s).first_broken_layer e
          ⊎ ((e.state ≢ State.fail)
              × ((count_evidence e.state e.layer s).first_broken_layer ≡ Layer.unspecified))
        → ((count_evidence e.state e.layer s).first_broken_layer ≡ Layer.unspecified
            → FirstBroken r es)
        → FirstBroken r (e ∷ es)
    cases (inl f) ih = found f
    cases (inr (ne, w)) ih = later ne (ih w)

-- A summary, read off the findings and the evidence that it was derived from.
pub record Summarises (g : Graph) (findings : List Finding) (s : Summary) : Type 0 where
  pub status_known : (s.status ≡ SummaryStatus.problems_found) ↔ Any IsProblem findings
  pub skipped_counted : s.skipped_evidence_count ≡ count_state is_state_skipped (nodes_of g)
  pub unknown_counted : s.unknown_evidence_count ≡ count_state is_state_unknown (nodes_of g)

-- A derived summary reports problems exactly when some finding reaches ERROR, and counts the
-- skipped and the unknown evidence of the graph.
pub derive_summary-Summarises :
    (g : Graph) (findings : List Finding) → Summarises g findings (derive_summary g findings)
unfolding derive_summary
derive_summary-Summarises g findings =
    let counted = count_findings fresh_summary findings in
    let (status, counts, skipped, unknown) = count_nodes-kept (nodes_of g) counted in
    let (layer, no_skipped, no_unknown) = count_findings-kept findings fresh_summary in
    record {
      status_known = (
        λ e. only ((count_findings-IsProblem findings fresh_summary).0 (sym status ∙ e)),
        λ p. status ∙ (count_findings-IsProblem findings fresh_summary).1 (inr p),
      );
      skipped_counted = omega (arith, skipped, no_skipped);
      unknown_counted = omega (arith, unknown, no_unknown);
    }
  where
    only :
        (SummaryStatus.ok ≡ SummaryStatus.problems_found) ⊎ Any IsProblem findings
        → Any IsProblem findings
    only (inl e) = absurd (cc)
    only (inr p) = p

-- When every finding has a valid severity, the four counts of a derived summary add up to the
-- number of findings.
pub derive_summary-total :
    (g : Graph) (findings : List Finding)
    → All HasSeverity findings
    → total (derive_summary g findings).counts ≡ length findings
unfolding derive_summary
derive_summary-total g findings h =
    ap total (count_nodes-kept (nodes_of g) (count_findings fresh_summary findings)).1
    ∙ count_findings-total findings fresh_summary h
    ∙ zero_total
  where
    zero_total : total fresh_summary.counts + length findings ≡ length findings
    zero_total = unfold total in omega arith

-- When every piece of evidence has a valid layer, either nothing failed and a derived summary
-- names no layer, or it names the lowest layer with failed evidence.
pub derive_summary-FirstBroken :
    (g : Graph) (findings : List Finding)
    → All HasLayer (nodes_of g)
    → FirstBroken (derive_summary g findings).first_broken_layer (nodes_of g)
unfolding derive_summary
derive_summary-FirstBroken g findings h =
    count_nodes-first (nodes_of g) (count_findings fresh_summary findings) h
      (count_findings-kept findings fresh_summary).0
