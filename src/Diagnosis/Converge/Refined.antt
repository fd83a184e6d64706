-- ===== src/Diagnosis/Converge/Refined.antt =====
-- `Converge` of internal/diagnosis/converge.go, against a description of merging: the findings fall
-- into groups that state one claim, and each group becomes one finding.
use svcdoctor.Base.{
  true, false, List, [], ◌∷◌, ◌++◌, map, append-nil, append_assoc, flatten, any, any-append, All,
  All-append, ◌≡◌, refl, sym, ◌∙◌, inl,
}
use mathlib.Core.List.{Perm}
use mathlib.Core.List.Perm
use svcdoctor.Base.Bytes.{Bytes, member}
use svcdoctor.Base.Sort.{sort_by, sort_by-Perm}
use svcdoctor.Base.Sort.Kept.{sort_by-All, any-Perm}
use svcdoctor.Base.Result.{ok}
use svcdoctor.Domain.Finding.{Finding, finding_is_zero, new_finding}
use svcdoctor.Domain.Finding.Valid.{Valid, new_finding-Valid}
use svcdoctor.Domain.Finding.Accepted.{code_nonempty}
use svcdoctor.Domain.Report.{compare_findings, sort_findings}
use svcdoctor.Diagnosis.RuleId.{rule_id_valid}
use svcdoctor.Diagnosis.Groups.{
  SemanticIdentity, identity_of, same_identity, compare_identities, Attributed, Groups,
  append_group, sorted_groups, partition_by_compatibility,
}
use svcdoctor.Diagnosis.Groups.Permuted.{
  items_of, append_group-Perm, sorted_groups-Perm, partitioned-Perm,
}
use svcdoctor.Diagnosis.Groups.Kept.{Kept, append_group-Kept}
use svcdoctor.Diagnosis.Groups.Compatible.{same_identity→eq, Part, partition_by_compatibility-Part}
use svcdoctor.Diagnosis.Merge.Members.{ValidMember, All-map}
use svcdoctor.Diagnosis.Merge.Merged.{Merges, merge_group-Merges}
use svcdoctor.Diagnosis.Converge.{group_all, merge_all, converge}

-- A finding that `NewFinding` made, and the identity of a rule.
abbrev pub Attributable : Attributed → Type 0
Attributable a =
    ((given : Finding) × (new_finding given ≡ ok a.finding)) × (rule_id_valid a.rule ≡ true)

abbrev Checked : Attributed → Type 0
Checked a = Valid a.finding × (rule_id_valid a.rule ≡ true)

Checked-of : (a : Attributed) → Attributable a → Checked a
Checked-of a ((given, made), rule) = ((new_finding-Valid given a.finding made).3, rule)

abbrev Fits : SemanticIdentity → Attributed → Type 0
Fits id a = (identity_of a.finding ≡ id) × ValidMember a

abbrev AllKept : Groups SemanticIdentity → Type 0
AllKept = All (Kept same_identity Fits)

not_zero : (f : Finding) → Valid f → finding_is_zero f ≡ false
not_zero f v = rw (code_nonempty f.code v.code_ok) refl

group_all-Kept :
    (groups : Groups SemanticIdentity) (items : List Attributed)
    → All Checked items
    → AllKept groups
    → (out : Groups SemanticIdentity) × (group_all groups items ≡ ok out)
      × AllKept out
      × Perm (items_of out) (items_of groups ++ items)
unfolding group_all
group_all-Kept groups [] a h = (groups, refl, h, rw append-nil (Perm.refl _))
group_all-Kept groups (af ∷ rest) a h =
    let id = identity_of af.finding in
    let one : List Attributed = af ∷ [] in
    let grown = append_group same_identity groups id one in
    let (out, made, kept, perm) = group_all-Kept grown rest a.1 (
      append_group-Kept same_identity Fits groups id one
        (λ k e. ((sym (same_identity→eq k id e), a.0.0), tt)) ((refl, a.0.0), tt) (inl (λ e. cc))
        h) in
    let first = Perm.append_right rest (append_group-Perm same_identity groups id one) in
    (
      out,
      rw (not_zero af.finding a.0.0, a.0.1) made,
      kept,
      Perm.trans perm (rw append_assoc at first),
    )

-- A group that may be merged, its identity included.
abbrev pub Mergeable : List Attributed → Type 0
Mergeable group =
    (id : SemanticIdentity) × Part group
    × All (λ a. identity_of a.finding ≡ id) group
    × All ValidMember group

partitioned-Mergeable :
    (groups : Groups SemanticIdentity)
    → AllKept groups
    → All Mergeable (flatten (map partition_by_compatibility (map (λ g. g.1) groups)))
partitioned-Mergeable [] h = tt
partitioned-Mergeable ((id, group) ∷ groups) h =
    All-append Mergeable (partition_by_compatibility group) _
      (All-map (λ part. Part part × All (Fits id) part) Mergeable (partition_by_compatibility group)
        (λ part (p, q). (
          id,
          p,
          All-map (Fits id) (λ a. identity_of a.finding ≡ id) part (λ a x. x.0) q,
          All-map (Fits id) ValidMember part (λ a x. x.1) q,
        ))
        (partition_by_compatibility-Part (Fits id) group h.0.0 h.0.1))
      (partitioned-Mergeable groups h.1)

-- Each group becomes the finding at its place.
abbrev pub MergesAll : List (List Attributed) → List Finding → Type 0
MergesAll [] [] = Unit
MergesAll [] (f ∷ fs) = ⊥
MergesAll (group ∷ groups) [] = ⊥
MergesAll (group ∷ groups) (f ∷ fs) = Merges group f × Valid f × MergesAll groups fs

merge_all-MergesAll :
    (groups : List (List Attributed))
    → All Mergeable groups
    → (out : List Finding) × (merge_all groups ≡ ok out) × MergesAll groups out
unfolding merge_all
merge_all-MergesAll [] h = ([], refl, tt)
merge_all-MergesAll (group ∷ groups) ((id, part, same, valid), h) =
    let (f, made, merges, v) = merge_group-Merges id group part same valid in
    let (out, rest, all) = merge_all-MergesAll groups h in
    (f ∷ out, rw (made, rest) refl, (merges, v, all))

-- What merging is: the findings fall into groups, each group becomes one finding, and those are
-- the result up to order.
pub record Converged (items : List Attributed) (out : List Finding) : Type 0 where
  pub groups : List (List Attributed)
  pub merged : List Finding
  pub every_finding : Perm (flatten groups) items
  pub each_group : MergesAll groups merged
  pub reordered : Perm out merged

pub Converged-nil : Converged [] []
Converged-nil = record {
  groups = [];
  merged = [];
  every_finding = Perm.refl [];
  each_group = tt;
  reordered = Perm.refl [];
}

pub Converged-sort_findings :
    (items : List Attributed) (out : List Finding)
    → Converged items out
    → Converged items (sort_findings out)
unfolding sort_findings
Converged-sort_findings items out c = record {
  groups = c.groups;
  merged = c.merged;
  every_finding = c.every_finding;
  each_group = c.each_group;
  reordered = Perm.trans (sort_by-Perm compare_findings out) c.reordered;
}

-- Findings that `NewFinding` made, each attributed to a rule, always converge. The result is, up
-- to order, one finding for each group of a grouping of all the findings. The findings of a group
-- state one claim, about one subject at one layer, and ask at most one question. Their merged
-- finding states that claim. It cites exactly the evidence that they cite and gives exactly the
-- advice that they give, its severity and confidence are the highest among them, it is confirmed
-- if one of them is, with no question then, and it depends on the vantage if one of them does.
pub converge-Converged :
    (items : List Attributed)
    → All Attributable items
    → (out : List Finding) × (converge items ≡ ok out) × Converged items out
unfolding converge
converge-Converged [] h = ([], refl, Converged-nil)
converge-Converged (af ∷ rest) h =
    let (groups, grouped, kept, perm) =
      group_all-Kept [] (af ∷ rest) (All-map Attributable Checked (af ∷ rest) Checked-of h) tt in
    let order = λ (g h : SemanticIdentity × List Attributed). compare_identities g.0 h.0 in
    let sorted = sorted_groups compare_identities groups in
    let parts = flatten (map partition_by_compatibility sorted) in
    let ready : All Mergeable parts =
      unfold sorted_groups in
      partitioned-Mergeable (sort_by order groups)
        (sort_by-All order (Kept same_identity Fits) groups kept) in
    let (out, made, all) = merge_all-MergesAll parts ready in
    (
      sort_findings out,
      rw (grouped, made) refl,
      record {
        groups = parts;
        merged = out;
        every_finding =
            Perm.trans (partitioned-Perm sorted)
              (Perm.trans (sorted_groups-Perm compare_identities groups) perm);
        each_group = all;
        reordered = unfold sort_findings in sort_by-Perm compare_findings out;
      },
    )

cites-MergesAll :
    (x : Bytes) (groups : List (List Attributed)) (merged : List Finding)
    → MergesAll groups merged
    → any (λ f. member x f.evidence_refs) merged
      ≡ any (λ a. member x a.finding.evidence_refs) (flatten groups)
cites-MergesAll x [] [] h = refl
cites-MergesAll x [] (f ∷ fs) h = absurd h
cites-MergesAll x (group ∷ groups) [] h = absurd h
cites-MergesAll x (group ∷ groups) (f ∷ fs) (merges, v, h) =
    rw
      (
        any-append (λ a. member x a.finding.evidence_refs) group (flatten groups),
        merges.refs x,
        cites-MergesAll x groups fs h,
      )
      refl

-- No evidence is lost in merging and none is made up.
pub cites-Converged :
    (x : Bytes) (items : List Attributed) (out : List Finding)
    → Converged items out
    → any (λ f. member x f.evidence_refs) out ≡ any (λ a. member x a.finding.evidence_refs) items
cites-Converged x items out c =
    any-Perm (λ f. member x f.evidence_refs) c.reordered
    ∙ cites-MergesAll x c.groups c.merged c.each_group
    ∙ any-Perm (λ a. member x a.finding.evidence_refs) c.every_finding
