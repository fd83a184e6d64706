-- ===== src/Domain/Summary.antt =====
-- internal/domain/summary.go: what a report's summary counts.
pub mod Correct
pub mod Broken
use svcdoctor.Base.{ℕ, ◌+◌, Bool, true, false, ◌||◌, List, [], ◌∷◌, ltb, if◌then◌else◌}
use svcdoctor.Domain.Vocabulary.{State, Severity, Layer, layer_rank}
use svcdoctor.Domain.Evidence.{Evidence, zero_evidence}
use svcdoctor.Domain.Finding.{Finding}
use svcdoctor.Domain.Graph.Relation.{EvidenceId}
use svcdoctor.Domain.Graph.Builder.{Nodes, node, Graph}
use svcdoctor.Base.{Option, none, some, map}

pub data SummaryStatus : Type 0 where
  unspecified ok problems_found : SummaryStatus

pub record SeverityCounts : Type 0 where
  pub info : ℕ
  pub warn : ℕ
  pub error : ℕ
  pub critical : ℕ

unfoldable pub total : SeverityCounts → ℕ
total c = c.info + c.warn + c.error + c.critical

pub record Summary : Type 0 where
  pub status : SummaryStatus
  pub first_broken_layer : Layer
  pub counts : SeverityCounts
  pub skipped_evidence_count : ℕ
  pub unknown_evidence_count : ℕ

-- `Graph.Nodes()`: the evidence in the order of the ids
unfoldable pub nodes_in : Nodes → List EvidenceId → List Evidence
nodes_in nodes [] = []
nodes_in nodes (id ∷ order) =
    elim (node nodes id) [ none ↦ zero_evidence | some e ↦ e ] ∷ nodes_in nodes order

abbrev pub nodes_of : Graph → List Evidence
nodes_of g = nodes_in g.nodes g.order

-- One round of the loop over the findings.
unfoldable pub count_finding : Severity → Summary → Summary
count_finding Severity.info s = record s { counts = record c { info = c.info + 1 } }
  where
    open s use {counts as c}
count_finding Severity.warn s = record s { counts = record c { warn = c.warn + 1 } }
  where
    open s use {counts as c}
count_finding Severity.error s = record s {
  counts = record c { error = c.error + 1 };
  status = SummaryStatus.problems_found;
}
  where
    open s use {counts as c}
count_finding Severity.critical s = record s {
  counts = record c { critical = c.critical + 1 };
  status = SummaryStatus.problems_found;
}
  where
    open s use {counts as c}
count_finding Severity.unspecified s = s

unfoldable pub count_findings : Summary → List Finding → Summary
unfolding count_finding
count_findings s [] = s
count_findings s (f ∷ fs) = count_findings (count_finding f.severity s) fs

abbrev pub is_unspecified : Layer → Bool
is_unspecified Layer.unspecified = true
is_unspecified _ = false

-- One round of the loop over the evidence.
unfoldable pub count_evidence : State → Layer → Summary → Summary
count_evidence State.fail layer s =
    if is_unspecified s.first_broken_layer
      || ltb (layer_rank layer) (layer_rank s.first_broken_layer)
    then record s { first_broken_layer = layer }
    else s
count_evidence State.skipped layer s = record s {
  skipped_evidence_count = s.skipped_evidence_count + 1;
}
count_evidence State.unknown layer s = record s {
  unknown_evidence_count = s.unknown_evidence_count + 1;
}
count_evidence State.pass layer s = s
count_evidence State.degraded layer s = s

unfoldable pub count_nodes : Summary → List Evidence → Summary
unfolding count_evidence
count_nodes s [] = s
count_nodes s (e ∷ es) = count_nodes (count_evidence e.state e.layer s) es

-- `Summary{status: SummaryStatusOK}`
abbrev pub fresh_summary : Summary
fresh_summary = record {
  status = SummaryStatus.ok;
  first_broken_layer = Layer.unspecified;
  counts = record { info = 0; warn = 0; error = 0; critical = 0 };
  skipped_evidence_count = 0;
  unknown_evidence_count = 0;
}

unfoldable pub derive_summary : Graph → List Finding → Summary
unfolding count_findings count_nodes nodes_in
derive_summary g findings = count_nodes (count_findings fresh_summary findings) (nodes_of g)
