-- ===== src/Diagnosis/Siblings/Counted.antt =====
-- What `SiblingOutcome` of internal/diagnosis/graphquery.go counts.
use svcdoctor.Base.{
  ℕ, ◌+◌, Bool, true, false, not, ◌&&◌, ◌||◌, List, [], ◌∷◌, ◌++◌, map, any, one, count-append, ◌≡◌,
  refl, ap, subst, ◌∙◌, arith,
}
use svcdoctor.Base.Sort.{sort_by}
use svcdoctor.Base.Sort.Kept.{sort_by-count}
use svcdoctor.Domain.Vocabulary.{State}
use svcdoctor.Domain.Evidence.{Evidence, Subject}
use svcdoctor.Domain.Graph.Relation.{EvidenceId, targets}
use svcdoctor.Domain.Graph.Builder.{Graph}
use svcdoctor.Diagnosis.Queries.{same_subject, compare_subjects, is_broken, is_unmeasured, is_pass}
use svcdoctor.Diagnosis.Siblings.{
  SiblingCounts, BySubject, group_children, nodes_about, classify_subject, count_subject, tally,
  sibling_outcome,
}
use svcdoctor.Diagnosis.Siblings.Grouped.{
  same_subject_iff, children_about, nodes_about-group_children, exists, group_children-Full,
  listed-keys,
}
use svcdoctor.Diagnosis.Siblings.Once.{occurs, occurs-keys}

abbrev is_fail : State → Bool
is_fail State.fail = true
is_fail _ = false

abbrev is_other : State → Bool
is_other state = not (is_fail state) && not (is_pass state)

-- The counted tests: `n` if the state passes, otherwise nothing.
abbrev times : ℕ → Bool → ℕ
times n true = n
times n false = 0

-- How often the lists of the counts hold a subject, by the test that puts a state into them.
abbrev Counts : Subject → SiblingCounts → SiblingCounts → ℕ → State → Type 0
Counts s before after known state =
    (occurs s after.failed ≡ occurs s before.failed + times known (is_fail state))
    × (occurs s after.passed ≡ occurs s before.passed + times known (is_pass state))
    × (occurs s after.not_measured ≡ occurs s before.not_measured + times known (is_other state))

appended :
    (s t : Subject) (subjects : List Subject)
    → occurs s (subjects ++ t ∷ []) ≡ occurs s subjects + one (same_subject t s)
appended s t subjects = omega (arith, count-append (λ k. same_subject k s) subjects (t ∷ []))

unchanged : (n : ℕ) → n ≡ n + 0
unchanged n = omega arith

count_subject-Counts :
    (state : State) (t s : Subject) (c : SiblingCounts)
    → Counts s c (count_subject state t c) (one (same_subject t s)) state
count_subject-Counts State.fail t s c = (appended s t c.failed, unchanged _, unchanged _)
count_subject-Counts State.pass t s c = (unchanged _, appended s t c.passed, unchanged _)
count_subject-Counts State.unknown t s c = (unchanged _, unchanged _, appended s t c.not_measured)
count_subject-Counts State.degraded t s c = (unchanged _, unchanged _, appended s t c.not_measured)
count_subject-Counts State.skipped t s c = (unchanged _, unchanged _, appended s t c.not_measured)

then_rest :
    (after between before later : ℕ) (now p q : Bool)
    → after ≡ between + times later q
    → between ≡ before + times (one now) p
    → (now ≡ true → p ≡ q)
    → after ≡ before + times (one now + later) q
then_rest after between before later true p true h k e =
    omega (arith, h, k ∙ ap (λ b. before + times 1 b) (e refl))
then_rest after between before later true p false h k e =
    omega (arith, h, k ∙ ap (λ b. before + times 1 b) (e refl))
then_rest after between before later false true true h k e = omega (arith, h, k)
then_rest after between before later false true false h k e = omega (arith, h, k)
then_rest after between before later false false true h k e = omega (arith, h, k)
then_rest after between before later false false false h k e = omega (arith, h, k)

tally-Counts :
    (groups : BySubject) (c : SiblingCounts) (subjects : List Subject) (s : Subject)
    → Counts s c
        (tally groups c subjects)
        (occurs s subjects)
        (classify_subject (nodes_about groups s))
unfolding tally
tally-Counts groups c [] s = (nothing _ _, nothing _ _, nothing _ _)
  where
    nothing : (n : ℕ) (b : Bool) → n ≡ n + times 0 b
    nothing n true = omega arith
    nothing n false = omega arith
tally-Counts groups c (t ∷ subjects) s =
    let state = classify_subject (nodes_about groups t) in
    let rest = tally-Counts groups (count_subject state t c) subjects s in
    let now = count_subject-Counts state t s c in
    (
      then_rest _ _ _ _ _ _ _ rest.0 now.0 (λ h. ap is_fail (alike h)),
      then_rest _ _ _ _ _ _ _ rest.1 now.1 (λ h. ap is_pass (alike h)),
      then_rest _ _ _ _ _ _ _ rest.2 now.2 (λ h. ap is_other (alike h)),
    )
  where
    alike :
        same_subject t s ≡ true
        → classify_subject (nodes_about groups t) ≡ classify_subject (nodes_about groups s)
    alike h = ap (λ x. classify_subject (nodes_about groups x)) ((same_subject_iff t s).0 h)

abbrev pub broken : List Evidence → Bool
broken nodes = any (λ e. is_broken e.state) nodes

abbrev pub unmeasured : List Evidence → Bool
unmeasured nodes = any (λ e. is_unmeasured e.state) nodes

abbrev pub passing : List Evidence → Bool
passing nodes = any (λ e. is_pass e.state) nodes

-- A state is broken, not measured or a pass.
some_state :
    (nodes : List Evidence) → exists nodes ≡ (broken nodes || unmeasured nodes || passing nodes)
some_state [] = refl
some_state (e ∷ nodes) = covers e.state (broken nodes) (unmeasured nodes) (passing nodes)
  where
    covers :
        (state : State) (b u p : Bool)
        → true ≡ ((is_broken state || b) || (is_unmeasured state || u) || (is_pass state || p))
    covers state b u p = ground arith

classify_subject_lem :
    (nodes : List Evidence)
    → (exists nodes && is_fail (classify_subject nodes) ≡ broken nodes)
      × (exists nodes && is_pass (classify_subject nodes)
          ≡ (passing nodes && not (broken nodes) && not (unmeasured nodes)))
      × (exists nodes && is_other (classify_subject nodes)
          ≡ (unmeasured nodes && not (broken nodes)))
unfolding classify_subject
classify_subject_lem nodes = ground (arith, some_state nodes)

abbrev none_yet : SiblingCounts
none_yet = record { passed = []; failed = []; not_measured = [] }

-- A list that holds a subject once if the test passes, and otherwise not.
abbrev pub Once : Bool → Subject → List Subject → Type 0
Once b s subjects = occurs s subjects ≡ one b

counted :
    {n : ℕ} (present p : Bool) {q : Bool}
    → n ≡ 0 + times (one present) p
    → present && p ≡ q
    → n ≡ one q
counted true true h e = h ∙ ap one e
counted true false h e = h ∙ ap one e
counted false true h e = h ∙ ap one e
counted false false h e = h ∙ ap one e

-- Each list holds a subject at most once. One that is not zero and that a child of the node is about
-- is in exactly one of them: in the failed if one of its nodes failed or degraded, otherwise in those
-- not measured if one is unknown or skipped, and in the passed only if all of them passed. The zero
-- subject and a subject without a node among the children are in none of the lists.
pub sibling_outcome-Counted :
    (g : Graph) (id : EvidenceId) (s : Subject)
    → Once (broken (children_about g (targets g.children id) s)) s (sibling_outcome g id).failed
      × Once
          (unmeasured (children_about g (targets g.children id) s)
            && not (broken (children_about g (targets g.children id) s)))
          s
          (sibling_outcome g id).not_measured
      × Once
          (passing (children_about g (targets g.children id) s)
            && not (broken (children_about g (targets g.children id) s))
            && not (unmeasured (children_about g (targets g.children id) s)))
          s
          (sibling_outcome g id).passed
unfolding sibling_outcome nodes_about
sibling_outcome-Counted g id s =
    let groups = group_children g [] (targets g.children id) in
    let about = children_about g (targets g.children id) s in
    let same : nodes_about groups s ≡ about =
      nodes_about-group_children g [] (targets g.children id) s in
    let subjects = map (λ entry. entry.0) groups in
    let present : occurs s (sort_by compare_subjects subjects) ≡ one (exists about) =
      sort_by-count compare_subjects (λ k. same_subject k s) subjects
      ∙ occurs-keys g (targets g.children id) s
      ∙ ap one (
          listed-keys groups s (group_children-Full g [] (targets g.children id) tt)
          ∙ ap exists same) in
    let all = tally-Counts groups none_yet (sort_by compare_subjects subjects) s in
    let counts : Counts s none_yet (sibling_outcome g id) (one (exists about))
        (classify_subject about) =
      subst (λ known. Counts s none_yet (sibling_outcome g id) known (classify_subject about))
        present
        (subst
          (λ nodes.
            Counts s none_yet (sibling_outcome g id) (occurs s (sort_by compare_subjects subjects))
              (classify_subject nodes))
          same all) in
    let classes = classify_subject_lem about in
    (
      counted (exists about) (is_fail (classify_subject about)) counts.0 classes.0,
      counted (exists about) (is_other (classify_subject about)) counts.2 classes.2,
      counted (exists about) (is_pass (classify_subject about)) counts.1 classes.1,
    )
