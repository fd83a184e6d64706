-- ===== src/Diagnosis/Siblings/Once.antt =====
-- Each subject of the children of a node is one key, for `SiblingOutcome` of
-- internal/diagnosis/graphquery.go.
use svcdoctor.Base.{
  Bool, false, ◌||◌, ℕ, ◌+◌, List, [], ◌∷◌, map, one, count, Option, none, some, ◌≡◌, refl, sym, ap,
  ◌∙◌, inl, inr, arith, Bool-cases,
}
use svcdoctor.Domain.Evidence.{Evidence, Subject, subject_is_zero}
use svcdoctor.Domain.Graph.Relation.{EvidenceId}
use svcdoctor.Domain.Graph.Builder.{Graph, node}
use svcdoctor.Diagnosis.Queries.{same_subject}
use svcdoctor.Diagnosis.Siblings.{BySubject, join_subject, join_child, group_children}
use svcdoctor.Diagnosis.Siblings.Grouped.{same_subject_iff, listed}

-- How often a list holds a subject.
abbrev pub occurs : Subject → List Subject → ℕ
occurs s subjects = count (λ k. same_subject k s) subjects

abbrev pub keys : BySubject → List Subject
keys groups = map (λ entry. entry.0) groups

-- No key comes again.
abbrev pub Apart : List Subject → Type 0
Apart [] = Unit {0}
Apart (k ∷ rest) = (listed k rest ≡ false) × Apart rest

listed-join_subject :
    (groups : BySubject) (e : Evidence) (s : Subject)
    → listed s (keys (join_subject groups e)) ≡ (listed s (keys groups) || same_subject e.subject s)
unfolding join_subject
listed-join_subject [] e s = ground arith
listed-join_subject ((k, nodes) ∷ rest) e s = elim (Bool-cases (same_subject k e.subject)) [
  | inl found ↦
      let same = (same_subject_iff k e.subject).0 found in
      rw (found, ← same) (again (same_subject k s) (listed s (keys rest)))
  | inr other ↦ rw other (ground (arith, listed-join_subject rest e s))
]
  where
    again : (b c : Bool) → (b || c) ≡ ((b || c) || b)
    again b c = ground arith

join_subject-Apart :
    (groups : BySubject) (e : Evidence) → Apart (keys groups) → Apart (keys (join_subject groups e))
unfolding join_subject
join_subject-Apart [] e apart = (refl, tt)
join_subject-Apart ((k, nodes) ∷ rest) e apart = elim (Bool-cases (same_subject k e.subject)) [
  | inl found ↦ rw found apart
  | inr other ↦ rw other (
    listed-join_subject rest e k
        ∙ neither (listed k (keys rest)) apart.0 (symmetric k e.subject other),
    join_subject-Apart rest e apart.1,
  )
]
  where
    symmetric : (a b : Subject) → same_subject a b ≡ false → same_subject b a ≡ false
    symmetric a b differ = elim (Bool-cases (same_subject b a)) [
      | inl e ↦
          let known = (same_subject_iff a b).1 (sym ((same_subject_iff b a).0 e)) in absurd (cc)
      | inr e ↦ e
    ]

    neither : {b : Bool} (c : Bool) → c ≡ false → b ≡ false → (c || b) ≡ false
    neither c h h' = ground arith

group_children-Apart :
    (g : Graph) (groups : BySubject) (ids : List EvidenceId)
    → Apart (keys groups)
    → Apart (keys (group_children g groups ids))
unfolding group_children
group_children-Apart g groups [] apart = apart
group_children-Apart g groups (child ∷ children) apart =
    group_children-Apart g (join_child groups (node g.nodes child)) children
      (joined (node g.nodes child))
  where
    joined : (c : Option Evidence) → Apart (keys (join_child groups c))
    joined none = apart
    joined (some e) = elim (Bool-cases (subject_is_zero e.subject)) [
      | inl zero ↦ rw zero apart
      | inr about ↦ rw about (join_subject-Apart groups e apart)
    ]

-- A list without repetition holds a subject once or not at all.
occurs-Apart :
    (subjects : List Subject) (s : Subject)
    → Apart subjects
    → occurs s subjects ≡ one (listed s subjects)
occurs-Apart [] s apart = refl
occurs-Apart (k ∷ rest) s apart = elim (Bool-cases (same_subject k s)) [
  | inl found ↦
      let same = (same_subject_iff k s).0 found in
      let absent : listed s rest ≡ false = rw (← same) apart.0 in
      rw found (ap (λ n. 1 + n) (occurs-Apart rest s apart.1 ∙ ap one absent))
  | inr other ↦ rw other (omega (arith, occurs-Apart rest s apart.1))
]

pub occurs-keys :
    (g : Graph) (ids : List EvidenceId) (s : Subject)
    → occurs s (keys (group_children g [] ids)) ≡ one (listed s (keys (group_children g [] ids)))
occurs-keys g ids s =
    occurs-Apart (keys (group_children g [] ids)) s (group_children-Apart g [] ids tt)
