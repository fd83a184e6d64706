-- ===== src/Domain/Graph/FindCycle.antt =====
-- `findCycle` of internal/domain/graphbuilder.go: the three-colour depth-first search.
pub mod Marks
pub mod Visited
pub mod Enter
pub mod Correct
use svcdoctor.Base.{
  ℕ, zero, suc, Bool, true, false, List, [], ◌∷◌, Option, none, some, length, map, if◌then◌else◌,
}
use svcdoctor.Base.Bytes.{eqb, sort}
use svcdoctor.Domain.Graph.Relation.{EvidenceId, Relation, targets}

-- `mark[id]`: absent, `onPath` or `finished`.
pub data Mark : Type 0 where
  unvisited on_path finished : Mark

-- `map[EvidenceID]int`; a later write stands in front of the earlier ones.
abbrev pub Marks : Type 0
Marks = List (EvidenceId × Mark)

unfoldable pub mark_of : Marks → EvidenceId → Mark
mark_of [] id = unvisited
mark_of ((k, m) ∷ marks) id = if eqb k id then m else mark_of marks id

abbrev pub set_mark : EvidenceId → Mark → Marks → Marks
set_mark id m marks = (id, m) ∷ marks

-- What `visit` returns, with the marks that it leaves; fuel stands for the depth of the calls.
pub data Outcome : Type 0 where
  done : Marks → Outcome
  found : EvidenceId → Outcome
  out_of_fuel : Outcome

-- `for _, to := range next { if found, ok := visit(to); ok { return found, true } }`
unfoldable pub visit_all : (Marks → EvidenceId → Outcome) → Marks → List EvidenceId → Outcome
visit_all visit marks [] = done marks
visit_all visit marks (to ∷ next) = elim (visit marks to) [
  | done marks' ↦ visit_all visit marks' next
  | found id ↦ found id
  | out_of_fuel ↦ out_of_fuel
]

abbrev pub finish : EvidenceId → Outcome → Outcome
finish id (done marks) = done (set_mark id finished marks)
finish id (found c) = found c
finish id out_of_fuel = out_of_fuel

unfoldable pub visit : Relation → ℕ → Marks → EvidenceId → Outcome
unfolding visit_all
visit rel zero marks id = out_of_fuel
visit rel (suc fuel) marks id = elim (mark_of marks id) [
  | on_path ↦ found id
  | finished ↦ done marks
  | unvisited ↦
      finish id (visit_all (visit rel fuel) (set_mark id on_path marks) (sort (targets rel id)))
]

unfoldable pub keys : Relation → List EvidenceId
keys [] = []
keys ((from, tos) ∷ rel) = from ∷ keys rel

-- The path holds keys of the relation and at most one id more, so its length bounds the depth.
unfoldable pub find_cycle : Relation → Outcome
unfolding visit keys
find_cycle rel = visit_all (visit rel (suc (length rel))) [] (sort (keys rel))
