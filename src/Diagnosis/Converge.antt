-- ===== src/Diagnosis/Converge.antt =====
-- internal/diagnosis/converge.go: `Converge`, which merges the findings that state one conclusion.
pub mod Refined
pub mod Renamed
use svcdoctor.Base.{Bool, true, false, not, List, [], ◌∷◌, ◌++◌, map, flatten}
use svcdoctor.Base.Bytes.{Bytes}
use svcdoctor.Base.Result.{Result, ok, err, ◌>>=◌, ◌>>◌, reject}
use svcdoctor.Domain.Finding.{Finding, finding_is_zero}
use svcdoctor.Domain.Report.{sort_findings}
use svcdoctor.Diagnosis.RuleId.{rule_id_valid}
use svcdoctor.Diagnosis.Groups.{
  SemanticIdentity, identity_of, same_identity, compare_identities, Attributed, Groups,
  append_group, sorted_groups, partition_by_compatibility,
}
use svcdoctor.Diagnosis.Merge.{ConvergeError, zero_finding, not_a_rule, merge_group}

-- The first loop of `Converge`.
unfoldable pub group_all :
    Groups SemanticIdentity → List Attributed → Result ConvergeError (Groups SemanticIdentity)
unfolding append_group
group_all groups [] = ok groups
group_all groups (af ∷ rest) = do
  reject (finding_is_zero af.finding) zero_finding
  reject (not (rule_id_valid af.rule)) not_a_rule
  group_all (append_group same_identity groups (identity_of af.finding) (af ∷ [])) rest

-- The loop over the groups of every identity.
unfoldable pub merge_all : List (List Attributed) → Result ConvergeError (List Finding)
unfolding merge_group
merge_all [] = ok []
merge_all (group ∷ groups) = do
  merged ← merge_group group
  out ← merge_all groups
  ok (merged ∷ out)

unfoldable pub converge : List Attributed → Result ConvergeError (List Finding)
unfolding group_all merge_all partition_by_compatibility
converge [] = ok []
converge (af ∷ rest) = do
  groups ← group_all [] (af ∷ rest)
  out ←
      merge_all (flatten (map partition_by_compatibility (sorted_groups compare_identities groups)))
  ok (sort_findings out)
