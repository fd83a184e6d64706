-- ===== src/Diagnosis/Boundary.antt =====
-- internal/diagnosis/boundary.go: where the observation of a subject stopped succeeding.
pub mod Order
pub mod Nearest
use svcdoctor.Base.{
  Bool, true, false, not, ◌&&◌, List, [], ◌∷◌, ◌++◌, Option, none, some, ltb, if◌then◌else◌,
}
use svcdoctor.Base.Bytes.{Bytes, sort}
use svcdoctor.Domain.Vocabulary.{Layer, layer_rank}
use svcdoctor.Domain.Evidence.{Evidence, Subject}
use svcdoctor.Domain.Graph.Relation.{EvidenceId}
use svcdoctor.Domain.Graph.Builder.{Graph}
use svcdoctor.Diagnosis.Queries.{
  nodes_for_subject, subjects, blocked_chain, is_broken, is_unmeasured, is_pass,
}

pub record Boundary : Type 0 where
  pub subject : Subject
  pub last_good : EvidenceId
  pub first_failure : EvidenceId
  pub blocked : List EvidenceId
  pub not_measured : List EvidenceId

-- The first loop: the first node that failed, and the nodes before it, the nearest first.
unfoldable pub first_broken : List Evidence → List Evidence → Option (List Evidence × Evidence)
first_broken before [] = none
first_broken before (node ∷ nodes) =
    let rest = first_broken (node ∷ before) nodes in
    if is_broken node.state then some (before, node) else rest

-- The second loop, which goes backwards from the failure; the empty id if there is none.
unfoldable pub last_good_of : Layer → List Evidence → EvidenceId
last_good_of failure_layer [] = []
last_good_of failure_layer (node ∷ before) =
    if is_pass node.state && ltb (layer_rank node.layer) (layer_rank failure_layer)
    then node.id
    else last_good_of failure_layer before

unfoldable pub unmeasured_ids : List Evidence → List EvidenceId
unmeasured_ids [] = []
unmeasured_ids (node ∷ nodes) =
    let rest = unmeasured_ids nodes in if is_unmeasured node.state then node.id ∷ rest else rest

abbrev boundary_at :
    Graph → Subject → List Evidence → Option (List Evidence × Evidence) → Option Boundary
boundary_at g subject nodes none = none
boundary_at g subject nodes (some (before, failing)) = some (record {
  subject = subject;
  last_good = last_good_of failing.layer before;
  first_failure = failing.id;
  blocked = blocked_chain g failing.id;
  not_measured = sort (unmeasured_ids nodes);
})

-- `boundaryFor`
unfoldable pub boundary_for : Graph → Subject → Option Boundary
unfolding first_broken last_good_of unmeasured_ids nodes_for_subject
boundary_for g subject =
    let nodes = nodes_for_subject g subject in boundary_at g subject nodes (first_broken [] nodes)

abbrev pub cons_some : {A : Type 0} → Option A → List A → List A
cons_some none rest = rest
cons_some (some a) rest = a ∷ rest

unfoldable pub boundaries_of : Graph → List Subject → List Boundary
unfolding boundary_for
boundaries_of g [] = []
boundaries_of g (subject ∷ rest) = cons_some (boundary_for g subject) (boundaries_of g rest)

unfoldable pub boundaries : Graph → List Boundary
unfolding boundaries_of subjects
boundaries g = boundaries_of g (subjects g)
