-- ===== src/Diagnosis/Boundary/Order.antt =====
-- The nodes about a subject and the order that `sortByLayer` of internal/diagnosis/graphquery.go
-- puts them in.
use Prim.Native.Nat.{compare, Ordering}
use mathlib.Core.List.{Perm}
use mathlib.Core.List.Perm
use svcdoctor.Base.{
  ◌<◌, true, List, [], ◌∷◌, map, keep, if◌then◌else◌, ◌≡◌, ◌≢◌, ◌⊎◌, refl, ap, inl, inr, arith,
  Bool-cases,
}
use svcdoctor.Base.Bytes.{less}
use svcdoctor.Base.Sort.{
  flip_order, flip-then_by, flip-compare, flip-compare_bytes, then_by, compare_bytes, Ascending,
  Below, sort_by, sort_by-Perm, sort_by-Ascending,
}
use svcdoctor.Base.Sort.Ordered.{
  AtMost, Compared, before, same, behind, compare_bytes-Compared, First, Chained,
}
use svcdoctor.Domain.Vocabulary.{layer_rank}
use svcdoctor.Domain.Evidence.{Evidence, Subject, subject_is_zero}
use svcdoctor.Domain.Graph.Builder.{Graph}
use svcdoctor.Domain.Summary.{nodes_of}
use svcdoctor.Diagnosis.Queries.{
  same_subject, compare_nodes, select_subject, nodes_for_subject, is_unmeasured,
}
use svcdoctor.Diagnosis.Boundary.{unmeasured_ids}

-- The nodes about a subject, as the graph lists them; none are about the zero subject.
abbrev pub about : Graph → Subject → List Evidence
about g subject =
    if subject_is_zero subject
    then []
    else keep (λ node. same_subject node.subject subject) (nodes_of g)

-- Before it by layer, then by step, then by id, or level with it in all three.
abbrev pub Precedes : Evidence → Evidence → Type 0
Precedes a b =
    (layer_rank a.layer < layer_rank b.layer)
    ⊎ ((layer_rank a.layer ≡ layer_rank b.layer)
        × (((a.step_name ≡ b.step_name) × AtMost a.id b.id)
            ⊎ (less a.step_name b.step_name ≡ true)))

-- Comparing the other way round gives the opposite answer.
flip-compare_nodes : (a b : Evidence) → flip_order (compare_nodes a b) ≡ compare_nodes b a
unfolding compare_nodes
flip-compare_nodes a b = simp (flip-then_by, flip-compare, flip-compare_bytes)

Precedes-compare_nodes : (a b : Evidence) → compare_nodes a b ≢ Ordering.gt → Precedes a b
unfolding compare_nodes
Precedes-compare_nodes a b = by_layer (compare (layer_rank a.layer) (layer_rank b.layer)) refl
  where
    by_id : (o : Ordering) → Compared a.id b.id o → o ≢ Ordering.gt → AtMost a.id b.id
    by_id o (before e l) h = inr l
    by_id o (same e l) h = inl l
    by_id o (behind e l) h = absurd (h e)

    by_step :
        (o : Ordering)
        → Compared a.step_name b.step_name o
        → then_by o (compare_bytes a.id b.id) ≢ Ordering.gt
        → ((a.step_name ≡ b.step_name) × AtMost a.id b.id) ⊎ (less a.step_name b.step_name ≡ true)
    by_step o (before e l) h = inr l
    by_step o (same e l) h =
        inl (l, by_id (compare_bytes a.id b.id) (compare_bytes-Compared a.id b.id) (rw e at h))
    by_step o (behind e l) h = absurd (rw e at h refl)

    by_layer :
        (o : Ordering)
        → compare (layer_rank a.layer) (layer_rank b.layer) ≡ o
        → then_by o (then_by (compare_bytes a.step_name b.step_name) (compare_bytes a.id b.id))
          ≢ Ordering.gt
        → Precedes a b
    by_layer Ordering.lt e h = inl (ground (arith, e))
    by_layer Ordering.eq e h = inr (
      ground (arith, e),
      by_step (compare_bytes a.step_name b.step_name)
          (compare_bytes-Compared a.step_name b.step_name) h,
    )
    by_layer Ordering.gt e h = absurd (h refl)

Chained-Ascending : (nodes : List Evidence) → Ascending compare_nodes nodes → Chained Precedes nodes
Chained-Ascending [] h = tt
Chained-Ascending (a ∷ nodes) h = (first nodes h.0, Chained-Ascending nodes h.1)
  where
    first : (xs : List Evidence) → Below compare_nodes a xs → First Precedes a xs
    first [] b = tt
    first (x ∷ xs) b = Precedes-compare_nodes a x b

select_subject_lem :
    (subject : Subject) (nodes : List Evidence)
    → select_subject subject nodes ≡ keep (λ node. same_subject node.subject subject) nodes
unfolding select_subject
select_subject_lem subject [] = refl
select_subject_lem subject (node ∷ nodes) =
    ap (λ rest. if same_subject node.subject subject then node ∷ rest else rest)
      (select_subject_lem subject nodes)

-- The query gives the nodes about the subject, rearranged.
pub nodes_for_subject-Perm :
    (g : Graph) (subject : Subject) → Perm (nodes_for_subject g subject) (about g subject)
unfolding nodes_for_subject
nodes_for_subject-Perm g subject = elim (Bool-cases (subject_is_zero subject)) [
  | inl zero ↦ rw zero (Perm.refl [])
  | inr known ↦
      rw (known, ← select_subject_lem subject (nodes_of g))
        (sort_by-Perm compare_nodes (select_subject subject (nodes_of g)))
]

-- The query gives them in their order.
pub nodes_for_subject-Chained :
    (g : Graph) (subject : Subject) → Chained Precedes (nodes_for_subject g subject)
unfolding nodes_for_subject
nodes_for_subject-Chained g subject = elim (Bool-cases (subject_is_zero subject)) [
  | inl zero ↦ rw zero tt
  | inr known ↦ rw known (
      Chained-Ascending (sort_by compare_nodes (select_subject subject (nodes_of g)))
        (sort_by-Ascending compare_nodes flip-compare_nodes (select_subject subject (nodes_of g))))
]

pub unmeasured_ids_lem :
    (nodes : List Evidence)
    → unmeasured_ids nodes ≡ map (λ node. node.id) (keep (λ node. is_unmeasured node.state) nodes)
unfolding unmeasured_ids
unmeasured_ids_lem [] = refl
unmeasured_ids_lem (node ∷ nodes) = elim (Bool-cases (is_unmeasured node.state)) [
  | inl skipped ↦ rw skipped (ap (◌∷◌ node.id) (unmeasured_ids_lem nodes))
  | inr measured ↦ rw measured (unmeasured_ids_lem nodes)
]
