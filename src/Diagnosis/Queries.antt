-- ===== src/Diagnosis/Queries.antt =====
-- internal/diagnosis/graphquery.go: what the rules ask of a graph.
pub mod Behind
pub mod Rounds
use svcdoctor.Base.{
  ℕ, zero, suc, ◌+◌, Bool, true, false, not, ◌&&◌, ◌||◌, List, [], ◌∷◌, ◌++◌, Option, none, some,
  length, ◌==◌, if◌then◌else◌,
}
use Prim.Native.Nat.{compare, Ordering}
use svcdoctor.Base.Bytes.{Bytes, eqb, member, sort}
use svcdoctor.Base.Sort.{then_by, compare_bytes, sort_by}
use svcdoctor.Domain.Vocabulary.{State, layer_rank, subject_kind_rank}
use svcdoctor.Domain.Evidence.{Evidence, Subject, subject_is_zero}
use svcdoctor.Domain.Graph.Relation.{EvidenceId, targets, edge_count}
use svcdoctor.Domain.Graph.Builder.{Graph, Frozen, append_parents}
use svcdoctor.Domain.Summary.{nodes_of}

-- `==` on subjects
abbrev pub same_subject : Subject → Subject → Bool
same_subject a b = subject_kind_rank a.kind == subject_kind_rank b.kind && eqb a.ref b.ref

unfoldable pub compare_subjects : Subject → Subject → Ordering
compare_subjects a b =
    then_by (compare (subject_kind_rank a.kind) (subject_kind_rank b.kind))
      (compare_bytes a.ref b.ref)

-- The comparison of `sortByLayer`.
unfoldable pub compare_nodes : Evidence → Evidence → Ordering
compare_nodes a b =
    then_by (compare (layer_rank a.layer) (layer_rank b.layer))
      (then_by (compare_bytes a.step_name b.step_name) (compare_bytes a.id b.id))

unfoldable pub select_subject : Subject → List Evidence → List Evidence
select_subject subject [] = []
select_subject subject (node ∷ nodes) =
    let rest = select_subject subject nodes in
    if same_subject node.subject subject then node ∷ rest else rest

unfoldable pub nodes_for_subject : Graph → Subject → List Evidence
unfolding select_subject sort_by compare_nodes
nodes_for_subject g subject =
    if subject_is_zero subject
    then []
    else sort_by compare_nodes (select_subject subject (nodes_of g))

-- `slices.Contains(out, subject)`
unfoldable pub contains_subject : Subject → List Subject → Bool
contains_subject subject [] = false
contains_subject subject (s ∷ out) = same_subject s subject || contains_subject subject out

unfoldable pub collect_subjects : List Subject → List Evidence → List Subject
unfolding contains_subject
collect_subjects out [] = out
collect_subjects out (node ∷ nodes) =
    collect_subjects
      (if subject_is_zero node.subject || contains_subject node.subject out
        then out
        else out ++ node.subject ∷ [])
      nodes

unfoldable pub subjects : Graph → List Subject
unfolding collect_subjects sort_by compare_subjects
subjects g = sort_by compare_subjects (collect_subjects [] (nodes_of g))

-- The map `blocks` of `BlockedChain`: the ids that each id blocks.
unfoldable pub blocks_of : Graph → Frozen → List Evidence → Frozen
unfolding append_parents
blocks_of g blocks [] = blocks
blocks_of g blocks (node ∷ nodes) =
    blocks_of g (append_parents blocks node.id (targets g.blocked_by node.id)) nodes

-- The variables of the loop of `BlockedChain`.
pub record Chain : Type 0 where
  pub visited : List EvidenceId
  pub out : List EvidenceId
  pub queue : List EvidenceId

unfoldable pub visit_blocked : Chain → List EvidenceId → Chain
visit_blocked c [] = c
visit_blocked c (id ∷ ids) =
    visit_blocked
      (if member id c.visited then c else record {
        visited = id ∷ c.visited;
        out = c.out ++ id ∷ [];
        queue = c.queue ++ id ∷ [];
      })
      ids

-- The loop of `BlockedChain`, a round for each unit of fuel; `none` means that the fuel ran out.
unfoldable pub chain_loop : ℕ → Frozen → Chain → Option (List EvidenceId)
unfolding visit_blocked
chain_loop zero blocks c = none
chain_loop (suc fuel) blocks c = elim c.queue [
  | [] ↦ some c.out
  | current ∷ queue ↦
      chain_loop fuel blocks (visit_blocked (record c { queue = queue }) (targets blocks current))
]

abbrev pub chain_from : EvidenceId → Chain
chain_from id = record { visited = id ∷ []; out = []; queue = id ∷ [] }

abbrev pub sorted_or_nil : Option (List EvidenceId) → List EvidenceId
sorted_or_nil none = []
sorted_or_nil (some out) = sort out

-- Each id that something blocks is enqueued at most once, after `id`.
unfoldable pub blocked_chain : Graph → EvidenceId → List EvidenceId
unfolding blocks_of chain_loop edge_count
blocked_chain g id =
    let blocks = blocks_of g [] (nodes_of g) in
    sorted_or_nil (chain_loop (edge_count blocks + 2) blocks (chain_from id))

-- `StateFail` or `StateDegraded`
abbrev pub is_broken : State → Bool
is_broken State.fail = true
is_broken State.degraded = true
is_broken _ = false

-- `StateUnknown` or `StateSkipped`
abbrev pub is_unmeasured : State → Bool
is_unmeasured State.unknown = true
is_unmeasured State.skipped = true
is_unmeasured _ = false

abbrev pub is_pass : State → Bool
is_pass State.pass = true
is_pass _ = false
