-- ===== src/Diagnosis/Converge/Renamed.antt =====
-- `Converge` of internal/diagnosis/converge.go does not read the names of the rules.
use svcdoctor.Base.{
  Bool, true, List, [], ◌∷◌, map, flatten, All, ◌≡◌, refl, ap, ◌∙◌, inl, inr, Bool-cases,
  if◌then◌else◌,
}
use Prim.Native.Nat.{Ordering}
use mathlib.Core.List.{map-append}
use svcdoctor.Base.Bytes.{Bytes, eqb}
use svcdoctor.Base.Sort.{sort_by}
use svcdoctor.Base.Sort.Kept.{sort_by-map}
use svcdoctor.Base.Result.{Result, ok, err, ◌>>=◌, ◌>>◌}
use svcdoctor.Domain.Finding.{Finding, finding_is_zero, new_finding}
use svcdoctor.Domain.Report.{sort_findings}
use svcdoctor.Diagnosis.RuleId.{rule_id_valid}
use svcdoctor.Diagnosis.Groups.{
  SemanticIdentity, identity_of, same_identity, compare_identities, Attributed, Groups, MergeKey,
  mergeable, same_key, append_group, group, delete_group, sorted_groups, hosts_of, Buckets,
  join_host, fold_silent, bucket_all, keys_of, compare_keys, partition_by_compatibility,
}
use svcdoctor.Diagnosis.Merge.{
  ConvergeError, check_claims, common_discriminator, absorb, absorb_all, by_content, merge_start,
  settle, in_merge, merge_members, merge_group,
}
use svcdoctor.Diagnosis.Converge.{group_all, merge_all, converge}

module _ (new_rule : Attributed → Bytes) where
  abbrev pub rename : Attributed → Attributed
  rename a = record { rule = new_rule a; finding = a.finding }

  abbrev rename_group : {K : Type 0} → K × List Attributed → K × List Attributed
  rename_group g = (g.0, map rename g.1)

  module _ {K : Type 0} (same : K → K → Bool) where
    append_group-map :
        (groups : Groups K) (key : K) (items : List Attributed)
        → append_group same (map rename_group groups) key (map rename items)
          ≡ map rename_group (append_group same groups key items)
    unfolding append_group
    append_group-map [] key items = refl
    append_group-map ((k, old) ∷ groups) key items = elim (Bool-cases (same k key)) [
      | inl here ↦ rw (here, map-append rename old items) refl
      | inr later ↦ rw later (ap (◌∷◌ (k, map rename old)) (append_group-map groups key items))
    ]

    group-map :
        (groups : Groups K) (key : K)
        → group same (map rename_group groups) key ≡ map rename (group same groups key)
    unfolding group
    group-map [] key = refl
    group-map ((k, old) ∷ groups) key = elim (Bool-cases (same k key)) [
      | inl here ↦ rw here refl
      | inr later ↦ rw later (group-map groups key)
    ]

    delete_group-map :
        (groups : Groups K) (key : K)
        → delete_group same (map rename_group groups) key
          ≡ map rename_group (delete_group same groups key)
    unfolding delete_group
    delete_group-map [] key = refl
    delete_group-map ((k, old) ∷ groups) key = elim (Bool-cases (same k key)) [
      | inl here ↦ rw here refl
      | inr later ↦ rw later (ap (◌∷◌ (k, map rename old)) (delete_group-map groups key))
    ]

    keys_of-map : (groups : Groups K) → keys_of (map rename_group groups) ≡ keys_of groups
    keys_of-map [] = refl
    keys_of-map ((k, old) ∷ groups) = ap (◌∷◌ k) (keys_of-map groups)

  parts-map :
      {K : Type 0} (groups : Groups K)
      → map (λ g. g.1) (map rename_group groups) ≡ map (map rename) (map (λ g. g.1) groups)
  parts-map [] = refl
  parts-map ((k, old) ∷ groups) = ap (◌∷◌ (map rename old)) (parts-map groups)

  sorted_groups-map :
      {K : Type 0} (cmp : K → K → Ordering) (groups : Groups K)
      → sorted_groups cmp (map rename_group groups) ≡ map (map rename) (sorted_groups cmp groups)
  unfolding sorted_groups
  sorted_groups-map cmp groups =
      ap (map (λ g. g.1)) (sort_by-map (λ g h. cmp g.0 h.0) rename_group (λ a b. refl) groups)
      ∙ parts-map (sort_by (λ g h. cmp g.0 h.0) groups)

  join_host-map :
      (key : MergeKey) (buckets : Buckets) (hosts : List MergeKey)
      → join_host key (map rename_group buckets) hosts
        ≡ map rename_group (join_host key buckets hosts)
  join_host-map key buckets [] = refl
  join_host-map key buckets (host ∷ []) =
      rw
        (
          group-map same_key buckets key,
          append_group-map same_key buckets host (group same_key buckets key),
        )
        (delete_group-map same_key (append_group same_key buckets host (group same_key buckets key))
          key)
  join_host-map key buckets (host ∷ other ∷ hosts) = refl

  fold_silent-map :
      (keys todo : List MergeKey) (buckets : Buckets)
      → fold_silent keys todo (map rename_group buckets)
        ≡ map rename_group (fold_silent keys todo buckets)
  unfolding fold_silent
  fold_silent-map keys [] buckets = refl
  fold_silent-map keys (key ∷ todo) buckets = elim (Bool-cases (eqb key.discriminator [])) [
    | inl silent ↦
        rw (silent, join_host-map key buckets (hosts_of key keys))
          (fold_silent-map keys todo (join_host key buckets (hosts_of key keys)))
    | inr asks ↦ rw asks (fold_silent-map keys todo buckets)
  ]

  bucket_all-map :
      (buckets : Buckets) (items : List Attributed)
      → bucket_all (map rename_group buckets) (map rename items)
        ≡ map rename_group (bucket_all buckets items)
  unfolding bucket_all
  bucket_all-map buckets [] = refl
  bucket_all-map buckets (af ∷ rest) =
      let one : List Attributed = af ∷ [] in
      ap (λ grown. bucket_all grown (map rename rest))
        (append_group-map same_key buckets (mergeable af.finding) one)
      ∙ (bucket_all-map (append_group same_key buckets (mergeable af.finding) one) rest)

  partition_by_compatibility-map :
      (items : List Attributed)
      → partition_by_compatibility (map rename items)
        ≡ map (map rename) (partition_by_compatibility items)
  unfolding partition_by_compatibility
  partition_by_compatibility-map [] = refl
  partition_by_compatibility-map (af ∷ []) = refl
  partition_by_compatibility-map (af ∷ bf ∷ rest) =
      let buckets = bucket_all [] (af ∷ bf ∷ rest) in
      rw
        (
          bucket_all-map [] (af ∷ bf ∷ rest),
          keys_of-map same_key buckets,
          fold_silent-map (keys_of buckets) (keys_of buckets) buckets,
        )
        (sorted_groups-map compare_keys (fold_silent (keys_of buckets) (keys_of buckets) buckets))

  partitioned-map :
      (groups : List (List Attributed))
      → flatten (map partition_by_compatibility (map (map rename) groups))
        ≡ map (map rename) (flatten (map partition_by_compatibility groups))
  partitioned-map [] = refl
  partitioned-map (g ∷ groups) =
      rw
        (
          partition_by_compatibility-map g,
          partitioned-map groups,
          map-append (map rename) (partition_by_compatibility g)
              (flatten (map partition_by_compatibility groups)),
        )
        refl

  check_claims-map :
      (rep : Finding) (items : List Attributed)
      → check_claims rep (map rename items) ≡ check_claims rep items
  unfolding check_claims
  check_claims-map rep [] = refl
  check_claims-map rep (af ∷ rest) = rw (check_claims-map rep rest) refl

  common_discriminator-map :
      (d : Bytes) (items : List Attributed)
      → common_discriminator d (map rename items) ≡ common_discriminator d items
  unfolding common_discriminator
  common_discriminator-map d [] = refl
  common_discriminator-map d (af ∷ rest) =
      let got = af.finding.discriminator in
      rw (common_discriminator-map (if eqb got [] then d else got) rest) refl

  absorb_all-map :
      (f : Finding) (items : List Attributed) → absorb_all f (map rename items) ≡ absorb_all f items
  unfolding absorb_all
  absorb_all-map f [] = refl
  absorb_all-map f (af ∷ rest) = absorb_all-map (absorb f af.finding) rest

  merge_members-map :
      (rep : Finding) (items : List Attributed)
      → merge_members rep (map rename items) ≡ merge_members rep items
  unfolding merge_members
  merge_members-map rep items =
      rw
        (
          check_claims-map rep items,
          common_discriminator-map [] items,
          sort_by-map by_content rename (λ a b. refl) items,
        )
        (ap (λ k. check_claims rep items >> (common_discriminator [] items >>= k))
          (λ i d. in_merge (
            new_finding
              (settle (absorb_all-map (merge_start rep d) (sort_by by_content items) i)))))

  merge_group-map : (items : List Attributed) → merge_group (map rename items) ≡ merge_group items
  unfolding merge_group
  merge_group-map [] = refl
  merge_group-map (af ∷ []) = refl
  merge_group-map (af ∷ bf ∷ rest) = merge_members-map af.finding (af ∷ bf ∷ rest)

  merge_all-map :
      (groups : List (List Attributed)) → merge_all (map (map rename) groups) ≡ merge_all groups
  unfolding merge_all
  merge_all-map [] = refl
  merge_all-map (g ∷ groups) = rw (merge_group-map g, merge_all-map groups) refl

  abbrev in_groups :
      Result ConvergeError (Groups SemanticIdentity)
      → Result ConvergeError (Groups SemanticIdentity)
  in_groups (ok groups) = ok (map rename_group groups)
  in_groups (err e) = err e

  -- Both names are those of rules.
  abbrev pub BothValid : Attributed → Type 0
  BothValid a = (rule_id_valid a.rule ≡ true) × (rule_id_valid (new_rule a) ≡ true)

  group_all-map :
      (groups : Groups SemanticIdentity) (items : List Attributed)
      → All BothValid items
      → group_all (map rename_group groups) (map rename items) ≡ in_groups (group_all groups items)
  unfolding group_all
  group_all-map groups [] h = refl
  group_all-map groups (af ∷ rest) h = elim (Bool-cases (finding_is_zero af.finding)) [
    | inl zero ↦ rw zero refl
    | inr real ↦
        let one : List Attributed = af ∷ [] in
        let id = identity_of af.finding in
        rw (real, h.0.0, h.0.1, append_group-map same_identity groups id one)
          (group_all-map (append_group same_identity groups id one) rest h.1)
  ]

  abbrev finish : Groups SemanticIdentity → Result ConvergeError (List Finding)
  finish groups =
      merge_all (flatten (map partition_by_compatibility (sorted_groups compare_identities groups)))
      >>= λ out. ok (sort_findings out)

  -- Attributing the findings to other rules changes neither what they converge to nor whether
  -- they do.
  pub converge-rename :
      (items : List Attributed) → All BothValid items → converge (map rename items) ≡ converge items
  unfolding converge
  converge-rename [] h = refl
  converge-rename (af ∷ rest) h =
      rw (group_all-map [] (af ∷ rest) h) (cases (group_all [] (af ∷ rest)))
    where
      cases :
          (r : Result ConvergeError (Groups SemanticIdentity))
          → (in_groups r >>= finish) ≡ (r >>= finish)
      cases (err e) = refl
      cases (ok groups) =
          rw
            (
              sorted_groups-map compare_identities groups,
              partitioned-map (sorted_groups compare_identities groups),
              merge_all-map (
                  flatten
                    (map partition_by_compatibility (sorted_groups compare_identities groups))),
            )
            refl
