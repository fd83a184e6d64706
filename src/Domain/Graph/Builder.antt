-- ===== src/Domain/Graph/Builder.antt =====
-- internal/domain/graphbuilder.go and graph.go: `GraphBuilder`, its operations, and `Freeze`.
pub mod Invariant
pub mod Preserved
pub mod Frozen
use svcdoctor.Base.{
  ℕ, Bool, true, false, not, List, [], ◌∷◌, ◌++◌, Option, none, some, map, if◌then◌else◌,
}
use svcdoctor.Base.Bytes.{eqb, member, sort}
use svcdoctor.Base.Result.{Result, ok, err, ◌>>=◌, ◌>>◌, reject}
use svcdoctor.Domain.Vocabulary.{State, is_skipped}
use svcdoctor.Domain.Evidence.{Evidence, zero_evidence, evidence_is_zero}
use svcdoctor.Domain.Graph.Relation.{EvidenceId, Relation, targets, add_to_set, reachable}
use svcdoctor.Domain.Graph.FindCycle.{Outcome, done, found, out_of_fuel, keys, find_cycle}

-- The errors of the builder; each wraps `ErrInvalidGraph`.
pub data GraphError : Type 0 where
  zero_value duplicate absent_source absent_target itself not_skipped cycle : GraphError

-- `map[EvidenceID]Evidence`
abbrev pub Nodes : Type 0
Nodes = List (EvidenceId × Evidence)

unfoldable pub node : Nodes → EvidenceId → Option Evidence
node [] id = none
node ((k, e) ∷ nodes) id = if eqb k id then some e else node nodes id

abbrev pub is_some : Option Evidence → Bool
is_some none = false
is_some (some e) = true

abbrev pub has : Nodes → EvidenceId → Bool
has nodes id = is_some (node nodes id)

-- `b.nodes[id].State()`: the zero evidence on a missing key
abbrev pub state_of : Nodes → EvidenceId → State
state_of nodes id = elim (node nodes id) [ none ↦ State.unknown | some e ↦ e.state ]

pub record GraphBuilder : Type 0 where
  pub nodes : Nodes
  pub parents : Relation
  pub blocked_by : Relation

unfoldable pub new_graph_builder : GraphBuilder
new_graph_builder = record { nodes = []; parents = []; blocked_by = [] }

unfoldable pub add_evidence : GraphBuilder → Evidence → Result GraphError GraphBuilder
add_evidence b e = do
  reject (evidence_is_zero e) zero_value
  reject (has b.nodes e.id) duplicate
  ok (record b { nodes = b.nodes ++ (e.id, e) ∷ [] })

unfoldable pub require_node : GraphBuilder → GraphError → EvidenceId → Result GraphError (Unit {0})
require_node b error id = reject (not (has b.nodes id)) error

unfoldable pub add_parent : GraphBuilder → EvidenceId → EvidenceId → Result GraphError GraphBuilder
unfolding require_node
add_parent b child parent = do
  require_node b absent_source child
  require_node b absent_target parent
  reject (eqb child parent) itself
  reject (reachable b.parents parent child) cycle
  ok (record b { parents = add_to_set b.parents child parent })

unfoldable pub add_blocked_by :
    GraphBuilder → EvidenceId → EvidenceId → Result GraphError GraphBuilder
unfolding require_node
add_blocked_by b skipped blocker = do
  require_node b absent_source skipped
  require_node b absent_target blocker
  reject (eqb skipped blocker) itself
  reject (not (is_skipped (state_of b.nodes skipped))) not_skipped
  reject (reachable b.blocked_by blocker skipped) cycle
  ok (record b { blocked_by = add_to_set b.blocked_by skipped blocker })

-- `map[EvidenceID][]EvidenceID`
abbrev pub Frozen : Type 0
Frozen = List (EvidenceId × List EvidenceId)

pub record Graph : Type 0 where
  pub order : List EvidenceId
  pub nodes : Nodes
  pub parents : Frozen
  pub children : Frozen
  pub blocked_by : Frozen

-- The inner loop of `freezeRelation`: the checks on the targets of `from`.
unfoldable pub check_targets : Nodes → EvidenceId → List EvidenceId → Result GraphError (Unit {0})
check_targets nodes from [] = ok tt
check_targets nodes from (to ∷ tos) = do
  reject (not (has nodes to)) absent_target
  reject (eqb to from) itself
  check_targets nodes from tos

-- The outer loop of `freezeRelation`.
unfoldable pub freeze_entries : Nodes → Relation → Result GraphError Frozen
unfolding check_targets
freeze_entries nodes [] = ok []
freeze_entries nodes ((from, tos) ∷ rel) = do
  reject (not (has nodes from)) absent_source
  check_targets nodes from tos
  out ← freeze_entries nodes rel
  ok ((from, sort tos) ∷ out)

abbrev pub no_cycle : Outcome → Result GraphError (Unit {0})
no_cycle (done marks) = ok tt
no_cycle (found id) = err cycle
no_cycle out_of_fuel = err cycle

unfoldable pub freeze_relation : Nodes → Relation → Result GraphError Frozen
unfolding freeze_entries
freeze_relation nodes rel = do out ← freeze_entries nodes rel; no_cycle (find_cycle rel); ok out

-- The loop over `b.blockedBy` that checks the states.
unfoldable pub check_skipped : Nodes → Relation → Result GraphError (Unit {0})
check_skipped nodes [] = ok tt
check_skipped nodes ((id, tos) ∷ rel) = do
  reject (not (is_skipped (state_of nodes id))) not_skipped
  check_skipped nodes rel

-- `children[parent] = append(children[parent], child)`
unfoldable pub append_child : Frozen → EvidenceId → EvidenceId → Frozen
append_child [] parent child = (parent, child ∷ []) ∷ []
append_child ((k, cs) ∷ children) parent child =
    if eqb k parent
    then (k, cs ++ child ∷ []) ∷ children
    else (k, cs) ∷ append_child children parent child

unfoldable pub append_parents : Frozen → EvidenceId → List EvidenceId → Frozen
unfolding append_child
append_parents children child [] = children
append_parents children child (parent ∷ parents) =
    append_parents (append_child children parent child) child parents

unfoldable pub derive_children : Frozen → Frozen → List EvidenceId → Frozen
unfolding append_parents
derive_children children parents [] = children
derive_children children parents (child ∷ order) =
    derive_children (append_parents children child (targets parents child)) parents order

unfoldable pub sort_entries : Frozen → Frozen
sort_entries [] = []
sort_entries ((k, cs) ∷ children) = (k, sort cs) ∷ sort_entries children

unfoldable pub node_ids : Nodes → List EvidenceId
node_ids [] = []
node_ids ((k, e) ∷ nodes) = k ∷ node_ids nodes

unfoldable pub freeze : GraphBuilder → Result GraphError Graph
unfolding freeze_relation check_skipped derive_children sort_entries node_ids
freeze b = do
  let order = sort (node_ids b.nodes)
  parents ← freeze_relation b.nodes b.parents
  blocked_by ← freeze_relation b.nodes b.blocked_by
  check_skipped b.nodes b.blocked_by
  let children = sort_entries (derive_children [] parents order)
  ok (record {
    order = order;
    nodes = b.nodes;
    parents = parents;
    children = children;
    blocked_by = blocked_by;
  })
