-- ===== src/Tests/Graph.antt =====
-- A graph of two pieces of evidence: a failed lookup, and a connection skipped because of it.
use svcdoctor.Base.{true, [], ◌∷◌, ◌≡◌, refl, ◌⊎◌, ◌↔◌}
use svcdoctor.Base.Bytes.{Bytes, codes, eqb, member, less, insert_sorted, sort}
use svcdoctor.Base.Result.{ok, err}
use svcdoctor.Domain.Vocabulary.{State, Layer, SubjectKind}
use svcdoctor.Domain.Evidence.{Evidence, Subject, zero_evidence}
use svcdoctor.Domain.Graph.Relation.{
  Relation, targets, add_to_set, push_all, reach_loop, edge_count, reachable,
}
use svcdoctor.Domain.Graph.Acyclic.{Acyclic}
use svcdoctor.Domain.Graph.Walk.{Walk}
use svcdoctor.Domain.Graph.Reachable.{reachable_iff}
use svcdoctor.Domain.Graph.FindCycle.{
  Marks, done, found, keys, visit_all, visit, mark_of, find_cycle,
}
use svcdoctor.Domain.Graph.FindCycle.Visited.{Cycle}
use svcdoctor.Domain.Graph.FindCycle.Correct.{is_done, Finishes, find_cycle_iff, find_cycle_total}
use svcdoctor.Domain.Graph.Builder.{
  cycle, not_skipped, node, GraphBuilder, new_graph_builder, require_node, add_evidence, add_parent,
  add_blocked_by, Graph, freeze,
}
use svcdoctor.Domain.Graph.Builder.Invariant.{WellFormed}
use svcdoctor.Domain.Graph.Builder.Preserved.{
  Built, empty, evidence, parent, blocker, Built-WellFormed,
}
use svcdoctor.Domain.Graph.Builder.Frozen.{Freezes, freeze-WellFormed}

abbrev pub host : Subject
host = record { kind = SubjectKind.target; ref = codes "db" }

abbrev pub lookup : Evidence
lookup = record zero_evidence {
  id = codes "dns";
  subject = host;
  layer = Layer.dns;
  state = State.fail;
}

abbrev pub connection : Evidence
connection = record zero_evidence {
  id = codes "tcp";
  subject = host;
  layer = Layer.tcp;
  state = State.skipped;
}

abbrev pub lookup_only : GraphBuilder
lookup_only = record { nodes = (codes "dns", lookup) ∷ []; parents = []; blocked_by = [] }

abbrev pub both : GraphBuilder
both = record lookup_only { nodes = (codes "dns", lookup) ∷ (codes "tcp", connection) ∷ [] }

abbrev edge : Relation
edge = (codes "tcp", codes "dns" ∷ []) ∷ []

abbrev joined : GraphBuilder
joined = record both { parents = edge }

abbrev pub blocked : GraphBuilder
blocked = record joined { blocked_by = edge }

pub blocked-Built : Built blocked
unfolding new_graph_builder add_evidence add_parent add_blocked_by require_node add_to_set node eqb
    reachable reach_loop edge_count member targets
blocked-Built =
    blocker {b = joined} (codes "tcp") (codes "dns")
      (parent {b = both} (codes "tcp") (codes "dns")
        (evidence {b = lookup_only} connection (evidence {b = new_graph_builder} lookup empty refl)
          refl)
        refl)
      refl

Built-WellFormed_example : WellFormed blocked
Built-WellFormed_example = Built-WellFormed blocked-Built

freeze-WellFormed_example : (g : Graph) × (freeze blocked ≡ ok g) × Freezes blocked g
freeze-WellFormed_example = freeze-WellFormed blocked (Built-WellFormed blocked-Built)

-- The edge back would close a cycle.
add_parent_cycle : add_parent joined (codes "dns") (codes "tcp") ≡ err cycle
unfolding add_parent require_node node eqb reachable reach_loop push_all targets edge_count member
add_parent_cycle = refl

-- Evidence that was not skipped cannot be blocked.
add_blocked_by_failed : add_blocked_by both (codes "dns") (codes "tcp") ≡ err not_skipped
unfolding add_blocked_by require_node node eqb
add_blocked_by_failed = refl

reachable_iff_example :
    (reachable edge (codes "tcp") (codes "dns") ≡ true) ↔ Walk edge (codes "tcp") (codes "dns")
reachable_iff_example = reachable_iff edge (codes "tcp") (codes "dns")

abbrev loop : Relation
loop = (codes "a", codes "b" ∷ []) ∷ (codes "b", codes "a" ∷ []) ∷ []

find_cycle_found : find_cycle loop ≡ found (codes "a")
unfolding find_cycle visit visit_all keys mark_of targets sort insert_sorted less eqb
find_cycle_found = refl

find_cycle_iff_example : (is_done (find_cycle edge) ≡ true) ↔ Acyclic edge
find_cycle_iff_example = find_cycle_iff edge

find_cycle_total_example :
    ((marks : Marks) × (find_cycle loop ≡ done marks) × Finishes loop marks × Acyclic loop)
    ⊎ ((id : Bytes) × (find_cycle loop ≡ found id) × Cycle loop id)
find_cycle_total_example = find_cycle_total loop
