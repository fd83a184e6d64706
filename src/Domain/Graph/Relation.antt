-- ===== src/Domain/Graph/Relation.antt =====
-- internal/domain/graphbuilder.go: one relation of the builder, a map from an evidence id to a
-- set of ids, and `reachable`. Go's map order is unspecified; here a map is an association list in
-- the order of insertion.
use svcdoctor.Base.{
  ℕ, zero, suc, ◌+◌, Bool, true, false, List, [], ◌∷◌, ◌++◌, Option, none, some, length,
  if◌then◌else◌,
}
use svcdoctor.Base.Bytes.{Bytes, eqb, member}

-- `EvidenceID` is a string.
abbrev pub EvidenceId : Type 0
EvidenceId = Bytes

-- `map[EvidenceID]map[EvidenceID]struct{}`
abbrev pub Relation : Type 0
Relation = List (EvidenceId × List EvidenceId)

-- `rel[id]`, the empty set on a missing key
unfoldable pub targets : Relation → EvidenceId → List EvidenceId
targets [] id = []
targets ((from, tos) ∷ rel) id = if eqb from id then tos else targets rel id

-- `set[to] = struct{}{}`
unfoldable pub add_member : EvidenceId → List EvidenceId → List EvidenceId
add_member to tos = if member to tos then tos else tos ++ to ∷ []

unfoldable pub add_to_set : Relation → EvidenceId → EvidenceId → Relation
unfolding add_member
add_to_set [] from to = (from, to ∷ []) ∷ []
add_to_set ((k, tos) ∷ rel) from to =
    if eqb k from then (k, add_member to tos) ∷ rel else (k, tos) ∷ add_to_set rel from to

-- The inner loop of `reachable`: push every successor, or stop (`none`) at the target. The top of
-- the stack is the head of the list.
unfoldable pub push_all : EvidenceId → List EvidenceId → List EvidenceId → Option (List EvidenceId)
push_all target [] stack = some stack
push_all target (next ∷ nexts) stack =
    if eqb next target then none else push_all target nexts (next ∷ stack)

-- The outer loop, one round for each unit of fuel.
unfoldable pub reach_loop : ℕ → Relation → EvidenceId → List EvidenceId → List EvidenceId → Bool
unfolding push_all
reach_loop zero rel target seen stack = false
reach_loop (suc fuel) rel target seen [] = false
reach_loop (suc fuel) rel target seen (current ∷ stack) =
    let skip = reach_loop fuel rel target seen stack in
    let visit : Bool = elim (push_all target (targets rel current) stack) [
      | none ↦ true
      | some pushed ↦ reach_loop fuel rel target (current ∷ seen) pushed
    ] in
    if member current seen then skip else visit

-- The edges of a relation. Each is pushed at most once, so they bound the rounds.
unfoldable pub edge_count : Relation → ℕ
edge_count [] = 0
edge_count ((from, tos) ∷ rel) = length tos + edge_count rel

unfoldable pub reachable : Relation → EvidenceId → EvidenceId → Bool
unfolding reach_loop edge_count
reachable rel start target =
    if eqb start target
    then true
    else reach_loop (suc (suc (edge_count rel))) rel target [] (start ∷ [])
