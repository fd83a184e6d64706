-- ===== src/Diagnosis/Siblings.antt =====
-- `SiblingOutcome` of internal/diagnosis/graphquery.go: what happened to the subjects reached from a node.
pub mod Grouped
pub mod Once
pub mod Counted
use svcdoctor.Base.{
  Bool, true, false, ◌||◌, List, [], ◌∷◌, ◌++◌, map, any, Option, none, some, if◌then◌else◌,
}
use svcdoctor.Base.Sort.{sort_by}
use svcdoctor.Domain.Vocabulary.{State}
use svcdoctor.Domain.Evidence.{Evidence, Subject, subject_is_zero}
use svcdoctor.Domain.Graph.Relation.{EvidenceId, targets}
use svcdoctor.Domain.Graph.Builder.{Graph, node}
use svcdoctor.Diagnosis.Queries.{same_subject, compare_subjects, is_broken, is_unmeasured, is_pass}

pub record SiblingCounts : Type 0 where
  pub passed : List Subject
  pub failed : List Subject
  pub not_measured : List Subject

-- The map `bySubject`, whose keys in their order are the slice `subjects`.
abbrev pub BySubject : Type 0
BySubject = List (Subject × List Evidence)

unfoldable pub join_subject : BySubject → Evidence → BySubject
join_subject [] e = (e.subject, e ∷ []) ∷ []
join_subject ((subject, nodes) ∷ rest) e =
    if same_subject subject e.subject
    then (subject, nodes ++ e ∷ []) ∷ rest
    else (subject, nodes) ∷ join_subject rest e

abbrev pub join_child : BySubject → Option Evidence → BySubject
join_child groups none = groups
join_child groups (some e) = if subject_is_zero e.subject then groups else join_subject groups e

unfoldable pub group_children : Graph → BySubject → List EvidenceId → BySubject
unfolding join_subject
group_children g groups [] = groups
group_children g groups (child ∷ children) =
    group_children g (join_child groups (node g.nodes child)) children

-- `bySubject[subject]`
unfoldable pub nodes_about : BySubject → Subject → List Evidence
nodes_about [] subject = []
nodes_about ((s, nodes) ∷ rest) subject =
    if same_subject s subject then nodes else nodes_about rest subject

unfoldable pub classify_subject : List Evidence → State
classify_subject nodes =
    if any (λ e. is_broken e.state) nodes
    then State.fail
    else if any (λ e. is_unmeasured e.state) nodes
    then State.unknown
    else if any (λ e. is_pass e.state) nodes
    then State.pass
    else State.unknown

-- One round of the last loop.
abbrev pub count_subject : State → Subject → SiblingCounts → SiblingCounts
count_subject State.fail s counts = record counts { failed = counts.failed ++ s ∷ [] }
count_subject State.pass s counts = record counts { passed = counts.passed ++ s ∷ [] }
count_subject _ s counts = record counts { not_measured = counts.not_measured ++ s ∷ [] }

unfoldable pub tally : BySubject → SiblingCounts → List Subject → SiblingCounts
unfolding nodes_about classify_subject
tally groups counts [] = counts
tally groups counts (s ∷ subjects) =
    tally groups (count_subject (classify_subject (nodes_about groups s)) s counts) subjects

unfoldable pub sibling_outcome : Graph → EvidenceId → SiblingCounts
unfolding group_children tally
sibling_outcome g id =
    let groups = group_children g [] (targets g.children id) in
    tally groups (record { passed = []; failed = []; not_measured = [] })
      (sort_by compare_subjects (map (λ entry. entry.0) groups))
