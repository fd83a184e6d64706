-- ===== src/Tests/Boundaries.antt =====
-- The graph queries and the failure boundary rule on a lookup that failed and what it blocked.
use svcdoctor.Base.{true, false, not, ◌&&◌, List, [], ◌∷◌, any, none, some, ◌≡◌, ◌↔◌, ◌⊎◌, refl}
use svcdoctor.Base.Bytes.{codes, eqb, member, less, insert_sorted, sort}
use svcdoctor.Base.Result.{ok}
use svcdoctor.Domain.Evidence.{Evidence}
use svcdoctor.Domain.Graph.Relation.{targets}
use svcdoctor.Domain.Graph.FindCycle.{mark_of, find_cycle}
use svcdoctor.Domain.Graph.Builder.{Graph, node, freeze}
use svcdoctor.Diagnosis.Registry.{RuleContext}
use svcdoctor.Domain.Summary.{nodes_in}
use svcdoctor.Diagnosis.Queries.{blocked_chain, is_broken}
use svcdoctor.Diagnosis.Queries.Behind.{Behind, blocked_chain-Behind}
use svcdoctor.Diagnosis.Boundary.{Boundary, boundary_for}
use svcdoctor.Diagnosis.Boundary.Order
use svcdoctor.Diagnosis.Boundary.Nearest.{IsBoundary, boundary_for-IsBoundary}
use svcdoctor.Diagnosis.Registry.{RuleContext}
use svcdoctor.Diagnosis.Engine.{evaluate_one}
use svcdoctor.Diagnosis.Engine.Isolated.{WellBehaved}
use svcdoctor.Diagnosis.Engine.Reportable.{CitesGraph}
use svcdoctor.Diagnosis.FailureBoundary.Admissible.{
  failure_boundary_rule, failure_boundary-Admissible,
}
use svcdoctor.Domain.Finding.{Finding}
use svcdoctor.Diagnosis.Siblings.{sibling_outcome}
use svcdoctor.Diagnosis.Siblings.Grouped.{children_about}
use svcdoctor.Diagnosis.Siblings.Counted.{
  Once, broken, unmeasured, passing, sibling_outcome-Counted,
}
use svcdoctor.Tests.Graph.{host, both, blocked, blocked-Built}
use svcdoctor.Tests.Reports.{input}

abbrev frozen : Graph
frozen = record {
  order = codes "dns" ∷ codes "tcp" ∷ [];
  nodes = both.nodes;
  parents = (codes "tcp", codes "dns" ∷ []) ∷ [];
  children = (codes "dns", codes "tcp" ∷ []) ∷ [];
  blocked_by = (codes "tcp", codes "dns" ∷ []) ∷ [];
}

freeze_accepts : freeze blocked ≡ ok frozen
unfolding freeze find_cycle mark_of targets sort insert_sorted less eqb node
freeze_accepts = refl

blocked_by_lookup : blocked_chain frozen (codes "dns") ≡ codes "tcp" ∷ []
unfolding blocked_chain nodes_in targets sort insert_sorted eqb node member
blocked_by_lookup = refl

blocked_chain-Behind_example :
    (member (codes "tcp") (blocked_chain frozen (codes "dns")) ≡ true)
    ↔ ((eqb (codes "dns") (codes "tcp") ≡ false) × Behind frozen (codes "dns") (codes "tcp"))
blocked_chain-Behind_example = blocked_chain-Behind frozen (codes "dns") (codes "tcp")

-- The failed lookup is the first stage, and the connection was not measured.
at_lookup :
    boundary_for frozen host
    ≡ some (record {
      subject = host;
      last_good = [];
      first_failure = codes "dns";
      blocked = codes "tcp" ∷ [];
      not_measured = codes "tcp" ∷ [];
    })
unfolding boundary_for blocked_chain nodes_in targets sort insert_sorted eqb node member
at_lookup = refl

boundary_for-IsBoundary_example :
    ((boundary_for frozen host ≡ none)
      × (any (λ e. is_broken e.state) (Order.about frozen host) ≡ false))
    ⊎ ((b : Boundary) × (boundary_for frozen host ≡ some b) × IsBoundary frozen host b)
boundary_for-IsBoundary_example = boundary_for-IsBoundary frozen host

abbrev context : RuleContext
context = record { graph = frozen; vantage = input.vantage; incomplete = false }

failure_boundary-Admissible_example :
    ((findings : List Finding) × (evaluate_one failure_boundary_rule context ≡ some findings))
    × WellBehaved context failure_boundary_rule
    × CitesGraph context failure_boundary_rule
failure_boundary-Admissible_example =
    failure_boundary-Admissible blocked context blocked-Built freeze_accepts

abbrev about : List Evidence
about = children_about frozen (targets frozen.children (codes "dns")) host

sibling_outcome-Counted_example :
    Once (broken about) host (sibling_outcome frozen (codes "dns")).failed
    × Once
        (unmeasured about && not (broken about))
        host
        (sibling_outcome frozen (codes "dns")).not_measured
    × Once
        (passing about && not (broken about) && not (unmeasured about))
        host
        (sibling_outcome frozen (codes "dns")).passed
sibling_outcome-Counted_example = sibling_outcome-Counted frozen (codes "dns") host
