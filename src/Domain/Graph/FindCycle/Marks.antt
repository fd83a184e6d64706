-- ===== src/Domain/Graph/FindCycle/Marks.antt =====
-- The marks of `findCycle`: what a call leaves of them, and how many keys are still to visit.
use svcdoctor.Base.{
  ℕ, ◌+◌, ◌≤◌, ◌<◌, Bool, true, false, [], ◌∷◌, length, if◌then◌else◌, ◌≡◌, refl, ◌↔◌, ◌⊎◌, inl,
  inr, arith, Bool-cases,
}
use svcdoctor.Base.Bytes.{eqb, eqb_iff}
use svcdoctor.Domain.Graph.Relation.{EvidenceId, Relation, targets}
use svcdoctor.Domain.Graph.FindCycle.{Mark, unvisited, on_path, finished, Marks, mark_of, set_mark}

abbrev is_unvisited : Mark → Bool
is_unvisited unvisited = true
is_unvisited _ = false

-- The keys not yet visited.
pub white : Relation → Marks → ℕ
white [] marks = 0
white ((k, tos) ∷ rel) marks = (if is_unvisited (mark_of marks k) then 1 else 0) + white rel marks

mark-set_mark :
    (marks : Marks) (id x : EvidenceId) (m : Mark)
    → mark_of (set_mark id m marks) x ≡ (if eqb id x then m else mark_of marks x)
unfolding mark_of
mark-set_mark marks id x m = refl

-- From one state of the marks to a later one outside the current call.
pub record Later (m n : Marks) : Type 0 where
  pub path_same : (x : EvidenceId) → (mark_of n x ≡ on_path) ↔ (mark_of m x ≡ on_path)
  pub finished_kept : (x : EvidenceId) → mark_of m x ≡ finished → mark_of n x ≡ finished

pub Later-refl : (m : Marks) → Later m m
Later-refl m = record { path_same = λ x. (λ e. e, λ e. e); finished_kept = λ x e. e }

pub Later-trans : {m n o : Marks} → Later m n → Later n o → Later m o
Later-trans p q = record {
  path_same = λ x.
      (λ e. (p.path_same x).0 ((q.path_same x).0 e), λ e. (q.path_same x).1 ((p.path_same x).1 e));
  finished_kept = λ x e. q.finished_kept x (p.finished_kept x e);
}

unvisited_back :
    {m n : Marks} (x : EvidenceId) → Later m n → mark_of n x ≡ unvisited → mark_of m x ≡ unvisited
unvisited_back {m} {n} x l e = cases (mark_of m x) refl
  where
    cases : (k : Mark) → mark_of m x ≡ k → mark_of m x ≡ unvisited
    cases unvisited h = h
    cases on_path h = absurd (cc ((l.path_same x).1 h))
    cases finished h = absurd (cc (l.finished_kept x h))

pub white-Later : (rel : Relation) (m n : Marks) → Later m n → white rel n ≤ white rel m
unfolding white
white-Later [] m n l = omega arith
white-Later ((k, tos) ∷ rel) m n l =
    ground (arith, white-Later rel m n l, unvisited_back {m = m} {n = n} k l)

-- Marking a key leaves fewer keys to visit; an id that is no key has no successor.
white-set_mark :
    (rel : Relation) (m : Marks) (id : EvidenceId) → white rel (set_mark id on_path m) ≤ white rel m
unfolding white mark_of
white-set_mark [] m id = omega arith
white-set_mark ((k, tos) ∷ rel) m id = ground (arith, white-set_mark rel m id)

pub white_visit :
    (rel : Relation) (m : Marks) (id : EvidenceId)
    → mark_of m id ≡ unvisited
    → (targets rel id ≡ []) ⊎ (white rel (set_mark id on_path m) < white rel m)
unfolding white mark_of targets
white_visit [] m id e = inl refl
white_visit ((k, tos) ∷ rel) m id e = elim (Bool-cases (eqb k id)) [
  | inl same ↦ inr (ground (arith, white-set_mark rel m id, eqb_iff k id, eqb_iff id k))
  | inr other ↦ elim (white_visit rel m id e) [
    | inl none ↦ inl (rw other none)
    | inr less ↦ inr (ground (arith, less, eqb_iff k id, eqb_iff id k))
  ]
]

pub white-keys : (r : Relation) → white r [] ≤ length r
unfolding white mark_of
white-keys [] = omega arith
white-keys ((k, tos) ∷ r) = omega (arith, white-keys r)
