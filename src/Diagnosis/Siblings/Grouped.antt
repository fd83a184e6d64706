-- ===== src/Diagnosis/Siblings/Grouped.antt =====
-- The children of a node by their subjects, for `SiblingOutcome` of
-- internal/diagnosis/graphquery.go.
use svcdoctor.Base.{
  Bool, true, false, not, ◌&&◌, ◌||◌, List, [], ◌∷◌, ◌++◌, map, any, All, any-append, append_assoc,
  append-nil, Option, none, some, ◌≡◌, ◌↔◌, refl, sym, ap, ◌∙◌, inl, inr, arith, Bool-cases,
  if◌then◌else◌,
}
use svcdoctor.Base.Bytes.{eqb_iff, eqb_refl}
use svcdoctor.Domain.Evidence.{Evidence, Subject, subject_is_zero}
use svcdoctor.Domain.Graph.Relation.{EvidenceId}
use svcdoctor.Domain.Graph.Builder.{Graph, node}
use svcdoctor.Diagnosis.Queries.{same_subject}
use svcdoctor.Diagnosis.Groups.Kept.{subject_kind_rank_injective}
use svcdoctor.Diagnosis.Siblings.{BySubject, join_subject, join_child, group_children, nodes_about}

pub same_subject_iff : (a b : Subject) → (same_subject a b ≡ true) ↔ (a ≡ b)
same_subject_iff a b = (
  λ h.
      let kind : a.kind ≡ b.kind = subject_kind_rank_injective a.kind b.kind (ground (arith, h)) in
      let ref : a.ref ≡ b.ref = (eqb_iff a.ref b.ref).0 (ground (arith, h)) in cc,
  λ e. rw e (let same = eqb_refl b.ref in ground (arith, same)),
)

-- The children with a subject, as the graph lists them, that are about `s`.
abbrev child_about : Option Evidence → Subject → List Evidence
child_about none s = []
child_about (some e) s =
    if not (subject_is_zero e.subject) && same_subject e.subject s then e ∷ [] else []

unfoldable pub children_about : Graph → List EvidenceId → Subject → List Evidence
children_about g [] s = []
children_about g (child ∷ children) s =
    child_about (node g.nodes child) s ++ children_about g children s

nodes_about-join_subject :
    (groups : BySubject) (e : Evidence) (s : Subject)
    → nodes_about (join_subject groups e) s
      ≡ nodes_about groups s ++ (if same_subject e.subject s then e ∷ [] else [])
unfolding nodes_about join_subject
nodes_about-join_subject [] e s = refl
nodes_about-join_subject ((k, nodes) ∷ rest) e s = elim (Bool-cases (same_subject k e.subject)) [
  | inl found ↦
      let same = (same_subject_iff k e.subject).0 found in
      rw (found, ← same)
        (elim (Bool-cases (same_subject k s)) [
          | inl here ↦ rw here refl
          | inr there ↦ rw there (sym (append-nil _))
        ])
  | inr other ↦ rw other (elim (Bool-cases (same_subject k s)) [
    | inl here ↦ rw (here, apart k e.subject s other here) (sym (append-nil _))
    | inr there ↦ rw there (nodes_about-join_subject rest e s)
  ])
]
  where
    apart :
        (a b c : Subject)
        → same_subject a b ≡ false
        → same_subject a c ≡ true
        → same_subject b c ≡ false
    apart a b c differ same = elim (Bool-cases (same_subject b c)) [
      | inl e ↦
          let known : a ≡ b = (same_subject_iff a c).0 same ∙ sym ((same_subject_iff b c).0 e) in
          let again = (same_subject_iff a b).1 known in absurd (cc)
      | inr e ↦ e
    ]

nodes_about-join_child :
    (groups : BySubject) (child : Option Evidence) (s : Subject)
    → nodes_about (join_child groups child) s ≡ nodes_about groups s ++ child_about child s
nodes_about-join_child groups none s = sym (append-nil _)
nodes_about-join_child groups (some e) s = elim (Bool-cases (subject_is_zero e.subject)) [
  | inl zero ↦ rw zero (sym (append-nil _))
  | inr about ↦ rw about (nodes_about-join_subject groups e s)
]

pub nodes_about-group_children :
    (g : Graph) (groups : BySubject) (ids : List EvidenceId) (s : Subject)
    → nodes_about (group_children g groups ids) s ≡ nodes_about groups s ++ children_about g ids s
unfolding group_children children_about
nodes_about-group_children g groups [] s = sym (append-nil _)
nodes_about-group_children g groups (child ∷ children) s =
    nodes_about-group_children g (join_child groups (node g.nodes child)) children s
    ∙ ap (λ xs. xs ++ children_about g children s)
        (nodes_about-join_child groups (node g.nodes child) s)
    ∙ append_assoc (nodes_about groups s) (child_about (node g.nodes child) s)
        (children_about g children s)

-- The subject is in the list.
abbrev pub listed : Subject → List Subject → Bool
listed s subjects = any (λ k. same_subject k s) subjects

-- A node that is found.
abbrev pub exists : List Evidence → Bool
exists nodes = any (λ e. true) nodes

abbrev pub Full : BySubject → Type 0
Full groups = All (λ entry. exists entry.1 ≡ true) groups

join_subject-Full : (groups : BySubject) (e : Evidence) → Full groups → Full (join_subject groups e)
unfolding join_subject
join_subject-Full [] e full = (refl, tt)
join_subject-Full ((k, nodes) ∷ rest) e full = elim (Bool-cases (same_subject k e.subject)) [
  | inl found ↦ rw found (any-append (λ e. true) nodes (e ∷ []) ∙ last (exists nodes), full.1)
  | inr other ↦ rw other (full.0, join_subject-Full rest e full.1)
]
  where
    last : (b : Bool) → (b || true) ≡ true
    last b = ground arith

pub group_children-Full :
    (g : Graph) (groups : BySubject) (ids : List EvidenceId)
    → Full groups
    → Full (group_children g groups ids)
unfolding group_children
group_children-Full g groups [] full = full
group_children-Full g groups (child ∷ children) full =
    group_children-Full g (join_child groups (node g.nodes child)) children
      (joined (node g.nodes child))
  where
    joined : (c : Option Evidence) → Full (join_child groups c)
    joined none = full
    joined (some e) = elim (Bool-cases (subject_is_zero e.subject)) [
      | inl zero ↦ rw zero full
      | inr about ↦ rw about (join_subject-Full groups e full)
    ]

-- A key is there exactly if it has a node.
pub listed-keys :
    (groups : BySubject) (s : Subject)
    → Full groups
    → listed s (map (λ entry. entry.0) groups) ≡ exists (nodes_about groups s)
unfolding nodes_about
listed-keys [] s full = refl
listed-keys ((k, nodes) ∷ rest) s full = elim (Bool-cases (same_subject k s)) [
  | inl found ↦ rw (found, full.0) refl
  | inr other ↦ rw other (listed-keys rest s full.1)
]
