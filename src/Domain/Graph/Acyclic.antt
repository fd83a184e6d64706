-- ===== src/Domain/Graph/Acyclic.antt =====
-- Relations of internal/domain/graphbuilder.go with no cycle, and `addToSet` behind its guard.
use svcdoctor.Base.{true, ◌||◌, ◌&&◌, List, [], ◌∷◌, ◌≡◌, ◌⊎◌, inl, inr, arith}
use svcdoctor.Base.Bytes.{eqb, member, eqb_iff, member-concat}
use svcdoctor.Domain.Graph.Relation.{EvidenceId, Relation, targets, add_member, add_to_set}
use svcdoctor.Domain.Graph.Walk.{Walk, here, step, Walk-trans}

-- No edge is closed to a cycle by a walk back.
abbrev pub Acyclic : Relation → Type 0
Acyclic rel = (u v : EvidenceId) → member v (targets rel u) ≡ true → Walk rel v u → ⊥

member-add_member :
    (x to : EvidenceId) (tos : List EvidenceId)
    → member x (add_member to tos) ≡ (member x tos || eqb to x)
unfolding add_member
member-add_member x to tos = ground (arith, member-concat x to tos, eqb_iff to x)

-- `addToSet` adds one edge and keeps the others.
pub member-add_to_set :
    (rel : Relation) (from to x y : EvidenceId)
    → member y (targets (add_to_set rel from to) x)
      ≡ (member y (targets rel x) || (eqb from x && eqb to y))
unfolding add_to_set targets member
member-add_to_set [] from to x y = ground arith
member-add_to_set ((k, tos) ∷ rel) from to x y = ground (
  arith,
  member-add_to_set rel from to x y,
  member-add_member y to tos,
  eqb_iff k from,
  eqb_iff k x,
  eqb_iff from x,
)

-- Each edge of the extended relation is an old one or the new one.
new_edge :
    (rel : Relation) (from to u v : EvidenceId)
    → member v (targets (add_to_set rel from to) u) ≡ true
    → (member v (targets rel u) ≡ true) ⊎ ((from ≡ u) × (to ≡ v))
new_edge rel from to u v m =
    ground (arith, member-add_to_set rel from to u v, eqb_iff from u, eqb_iff to v)

-- A new walk uses the new edge or not: if it does, an old walk leads to the edge, and one away.
Walk-add_to_set :
    (rel : Relation) (from to : EvidenceId) {a b : EvidenceId}
    → Walk (add_to_set rel from to) a b
    → Walk rel a b ⊎ (Walk rel a from × Walk rel to b)
Walk-add_to_set rel from to here = inl here
Walk-add_to_set rel from to {a} (step {u} {v} w m) =
    extend (Walk-add_to_set rel from to w) (new_edge rel from to u v m)
  where
    extend :
        Walk rel a u ⊎ (Walk rel a from × Walk rel to u)
        → (member v (targets rel u) ≡ true) ⊎ ((from ≡ u) × (to ≡ v))
        → Walk rel a v ⊎ (Walk rel a from × Walk rel to v)
    extend (inl old) (inl m) = inl (step old m)
    extend (inr (p, q)) (inl m) = inr (p, step q m)
    extend (inl old) (inr (e, f)) = inr (rw e old, rw f here)
    extend (inr (p, q)) (inr (e, f)) = inr (p, rw f here)

-- An edge that no old walk closes to a cycle keeps the relation free of cycles.
pub add_to_set-Acyclic :
    (rel : Relation) (from to : EvidenceId)
    → (Walk rel to from → ⊥)
    → Acyclic rel
    → Acyclic (add_to_set rel from to)
add_to_set-Acyclic rel from to open_end acyclic u v m w =
    cases (new_edge rel from to u v m) (Walk-add_to_set rel from to w)
  where
    cases :
        (member v (targets rel u) ≡ true) ⊎ ((from ≡ u) × (to ≡ v))
        → Walk rel v u ⊎ (Walk rel v from × Walk rel to u)
        → ⊥
    cases (inl old) (inl back) = acyclic u v old back
    cases (inl old) (inr (p, q)) = open_end (Walk-trans rel (step q old) p)
    cases (inr (e, f)) (inl back) = open_end (rw (e, f) back)
    cases (inr (e, f)) (inr (p, q)) = open_end (rw f p)
