-- ===== src/Diagnosis/Boundary/Nearest.antt =====
-- What the boundary of internal/diagnosis/boundary.go is.
use mathlib.Core.List.{Perm}
use svcdoctor.Base.{
  Bool, true, false, ◌&&◌, ◌||◌, List, [], ◌∷◌, ◌++◌, any, map, keep, none, some, ltb, ◌≡◌, ◌↔◌,
  ◌⊎◌, refl, sym, ap, subst, ◌∙◌, inl, inr, arith, Bool-cases, Option-cases,
}
use svcdoctor.Base.Bytes.{eqb, member, sort}
use svcdoctor.Base.Sort.Kept.{any-Perm}
use svcdoctor.Base.Sort.Ordered.{AtMost, Chained, sort-Chained, sort-Perm}
use svcdoctor.Domain.Vocabulary.{Layer, layer_rank}
use svcdoctor.Domain.Evidence.{Evidence, Subject}
use svcdoctor.Domain.Graph.Relation.{EvidenceId}
use svcdoctor.Domain.Graph.Builder.{Graph}
use svcdoctor.Diagnosis.Queries.{
  nodes_for_subject, blocked_chain, is_broken, is_unmeasured, is_pass,
}
use svcdoctor.Diagnosis.Queries.Behind.{Behind, blocked_chain-Behind}
use svcdoctor.Diagnosis.Boundary.{
  Boundary, first_broken, last_good_of, unmeasured_ids, boundary_for,
}
use svcdoctor.Diagnosis.Boundary.Order.{
  about, Precedes, nodes_for_subject-Perm, nodes_for_subject-Chained, unmeasured_ids_lem,
}

-- A pass at a layer below.
abbrev pub contrasts : Layer → Evidence → Bool
contrasts layer node = is_pass node.state && ltb (layer_rank node.layer) (layer_rank layer)

abbrev pub broken : Evidence → Bool
broken node = is_broken node.state

-- The good node that is nearest before the failure, or none.
pub data NearestGood (layer : Layer) (before : List Evidence) (id : EvidenceId) : Type 0 where
  no_good : any (contrasts layer) before ≡ false → id ≡ [] → NearestGood layer before id
  good :
      (far near : List Evidence) (node : Evidence)
      → before ≡ far ++ node ∷ near
      → contrasts layer node ≡ true
      → any (contrasts layer) near ≡ false
      → id ≡ node.id
      → NearestGood layer before id

-- The nodes about the subject, in their order, are those before the first failure, it, and the
-- rest.
pub record IsBoundary (g : Graph) (subject : Subject) (b : Boundary) : Type 0 where
  pub before : List Evidence
  pub failing : Evidence
  pub after : List Evidence
  pub same_nodes : Perm (before ++ failing ∷ after) (about g subject)
  pub in_order : Chained Precedes (before ++ failing ∷ after)
  pub failing_broken : broken failing ≡ true
  pub none_before : any broken before ≡ false
  pub of_subject : b.subject ≡ subject
  pub first_failure_is : b.first_failure ≡ failing.id
  pub nearest : NearestGood failing.layer before b.last_good
  pub blocked_behind :
      (x : EvidenceId)
      → (member x b.blocked ≡ true) ↔ ((eqb failing.id x ≡ false) × Behind g failing.id x)
  pub unmeasured_same :
      Perm b.not_measured (
        map (λ node. node.id) (keep (λ node. is_unmeasured node.state) (before ++ failing ∷ after)))
  pub unmeasured_sorted : Chained AtMost b.not_measured

-- A list that is kept the nearest first.
abbrev unwind {ℓ} : {A : Type ℓ} → List A → List A → List A
unwind [] ys = ys
unwind (x ∷ xs) ys = unwind xs (x ∷ ys)

unwind-append {ℓ} : {A : Type ℓ} (xs ys zs : List A) → unwind xs (ys ++ zs) ≡ unwind xs ys ++ zs
unwind-append [] ys zs = refl
unwind-append (x ∷ xs) ys zs = unwind-append xs (x ∷ ys) zs

any-unwind {ℓ} :
    {A : Type ℓ} (p : A → Bool) (xs ys : List A) → any p (unwind xs ys) ≡ (any p xs || any p ys)
any-unwind p [] ys = refl
any-unwind p (x ∷ xs) ys = ground (arith, any-unwind p xs (x ∷ ys))

first_broken-some :
    (seen nodes before : List Evidence) (failing : Evidence)
    → first_broken seen nodes ≡ some (before, failing)
    → any broken seen ≡ false
    → (after : List Evidence) × (unwind seen nodes ≡ unwind before (failing ∷ after))
      × (broken failing ≡ true)
      × (any broken before ≡ false)
unfolding first_broken
first_broken-some seen [] before failing h clean = absurd (cc)
first_broken-some seen (node ∷ nodes) before failing h clean = elim (Bool-cases (broken node)) [
  | inl found ↦
      let same : (seen ≡ before) × (node ≡ failing) = ground arith in
      rw (← same.0, ← same.1) (nodes, refl, found, clean)
  | inr fine ↦ first_broken-some (node ∷ seen) nodes before failing (ground arith) (ground arith)
]

first_broken-none :
    (seen nodes : List Evidence) → first_broken seen nodes ≡ none → any broken nodes ≡ false
unfolding first_broken
first_broken-none seen [] h = refl
first_broken-none seen (node ∷ nodes) h = elim (Bool-cases (broken node)) [
  | inl found ↦ absurd (ground arith)
  | inr fine ↦ rw fine (first_broken-none (node ∷ seen) nodes (ground arith))
]

last_good_of-NearestGood :
    (layer : Layer) (before near : List Evidence)
    → any (contrasts layer) near ≡ false
    → NearestGood layer (unwind before near) (last_good_of layer before)
unfolding last_good_of
last_good_of-NearestGood layer [] near h = no_good h refl
last_good_of-NearestGood layer (node ∷ before) near h = elim (Bool-cases (contrasts layer node)) [
  | inl found ↦
      rw found
        (good (unwind before []) near node (unwind-append before [] (node ∷ near)) found h refl)
  | inr other ↦ rw other (last_good_of-NearestGood layer before (node ∷ near) (rw other h))
]

-- A subject has no boundary exactly if none of the graph's nodes about it failed or degraded.
-- Otherwise its boundary is at the first of them, by layer, step and id, that did; the last good
-- one is the nearest before it that passed at a lower layer, if there is one; the ids that it blocks
-- are the others that are blocked by it, directly or through others; and the ids not measured are
-- those of all skipped or unknown nodes about the subject, each as often as there are such nodes,
-- in the order of strings.
pub boundary_for-IsBoundary :
    (g : Graph) (subject : Subject)
    → ((boundary_for g subject ≡ none) × (any broken (about g subject) ≡ false))
      ⊎ ((b : Boundary) × (boundary_for g subject ≡ some b) × IsBoundary g subject b)
unfolding boundary_for
boundary_for-IsBoundary g subject =
    let nodes = nodes_for_subject g subject in
    elim (Option-cases (first_broken [] nodes)) [
      | inl missing ↦ inl (
        rw missing refl,
        sym (any-Perm broken (nodes_for_subject-Perm g subject))
            ∙ first_broken-none [] nodes missing,
      )
      | inr ((before, failing), found) ↦
          let (after, split, fails, clean) = first_broken-some [] nodes before failing found refl in
          let parts : nodes ≡ unwind before [] ++ failing ∷ after =
            split ∙ unwind-append before [] (failing ∷ after) in
          inr (
            record {
              subject = subject;
              last_good = last_good_of failing.layer before;
              first_failure = failing.id;
              blocked = blocked_chain g failing.id;
              not_measured = sort (unmeasured_ids nodes);
            },
            rw found refl,
            record {
              before = unwind before [];
              failing = failing;
              after = after;
              same_nodes =
                  subst (λ xs. Perm xs (about g subject)) parts (nodes_for_subject-Perm g subject);
              in_order = subst (Chained Precedes) parts (nodes_for_subject-Chained g subject);
              failing_broken = fails;
              none_before = any-unwind broken before [] ∙ nothing (any broken before) clean;
              of_subject = refl;
              first_failure_is = refl;
              nearest = last_good_of-NearestGood failing.layer before [] refl;
              blocked_behind = blocked_chain-Behind g failing.id;
              unmeasured_same =
                  subst (λ ids. Perm (sort (unmeasured_ids nodes)) ids)
                    (ap unmeasured_ids parts
                      ∙ unmeasured_ids_lem (unwind before [] ++ failing ∷ after))
                    (sort-Perm (unmeasured_ids nodes));
              unmeasured_sorted = sort-Chained (unmeasured_ids nodes);
            },
          )
    ]
  where
    nothing : (b : Bool) → b ≡ false → (b || false) ≡ false
    nothing b h = ground arith
