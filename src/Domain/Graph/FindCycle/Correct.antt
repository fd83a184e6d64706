-- ===== src/Domain/Graph/FindCycle/Correct.antt =====
-- `findCycle` finds a cycle exactly when there is one.
use svcdoctor.Base.{
  ℕ, zero, suc, ◌<◌, Bool, true, false, ◌||◌, [], ◌∷◌, any, length, ◌≡◌, refl, sym, ap, ◌∙◌, ◌↔◌,
  ◌⊎◌, inl, inr, arith,
}
use svcdoctor.Base.Bytes.{eqb, member, sort, eqb_refl, member-sort}
use svcdoctor.Domain.Graph.Relation.{EvidenceId, Relation, targets}
use svcdoctor.Domain.Graph.Acyclic.{Acyclic}
use svcdoctor.Domain.Graph.FindCycle.{
  Mark, unvisited, on_path, finished, Marks, mark_of, set_mark, Outcome, done, found, out_of_fuel,
  visit_all, finish, visit, keys, find_cycle,
}
use svcdoctor.Domain.Graph.FindCycle.Marks.{white, Later-refl, white_visit, white-keys}
use svcdoctor.Domain.Graph.FindCycle.Visited.{
  Cycle, Leads, Inv, PathLeads, Visited, AllVisited, Visits, visit_all_lem,
}
use svcdoctor.Domain.Graph.FindCycle.Enter.{enter-Inv, enter-leads, leave-Later, leave-Inv}

module _ (rel : Relation) where
  leave-Visited :
      (m : Marks) (id : EvidenceId) (o : Outcome)
      → mark_of m id ≡ unvisited
      → AllVisited rel (set_mark id on_path m) (sort (targets rel id)) o
      → Visited rel m id (finish id o)
  leave-Visited m id (done n) fresh (l, inv, all) = (
    leave-Later rel m id fresh n l,
    leave-Inv rel m id fresh n l inv (λ x e. all x (member-sort x (targets rel id) ∙ e)),
    unfold mark_of in ground (arith, eqb_refl id),
  )
  leave-Visited m id (found c) fresh cycle = cycle
  leave-Visited m id out_of_fuel fresh none = none

  -- The successors are visited with less fuel, unless there are none.
  visit_targets :
      (fuel : ℕ) (m : Marks) (id : EvidenceId)
      → Visits rel (visit rel fuel) fuel
      → Inv rel m
      → PathLeads rel m id
      → white rel m < suc fuel
      → mark_of m id ≡ unvisited
      → AllVisited rel
          (set_mark id on_path m)
          (sort (targets rel id))
          (visit_all (visit rel fuel) (set_mark id on_path m) (sort (targets rel id)))
  visit_targets fuel m id spec inv leads h fresh =
      let inv' = enter-Inv rel m id fresh inv in
      elim (white_visit rel m id fresh) [
        | inl none ↦ rw none (
            unfold visit_all sort in
            (Later-refl (set_mark id on_path m), inv', λ x e. unfold member in cc))
        | inr less ↦
            visit_all_lem rel (visit rel fuel) fuel spec (sort (targets rel id))
              (set_mark id on_path m) inv'
              (λ to e.
                enter-leads rel m id fresh leads to (sym (member-sort to (targets rel id)) ∙ e))
              (omega (arith, less))
      ]

  visit_lem : (fuel : ℕ) → Visits rel (visit rel fuel) fuel
  unfolding visit
  visit_lem zero m id inv leads h = absurd (omega arith)
  visit_lem (suc fuel) m id inv leads h =
      cases (mark_of m id) refl
        (λ fresh. visit_targets fuel m id (visit_lem fuel) inv leads h fresh)
    where
      closes : Leads rel id id → Cycle rel id
      closes l = record { from = l.last; edge = l.edge; back = l.walk }

      cases :
          (k : Mark)
          → mark_of m id ≡ k
          → (mark_of m id ≡ unvisited
              → AllVisited rel
                  (set_mark id on_path m)
                  (sort (targets rel id))
                  (visit_all (visit rel fuel) (set_mark id on_path m) (sort (targets rel id))))
          → Visited rel m id (elim k [
            | unvisited ↦
                finish id
                  (visit_all (visit rel fuel) (set_mark id on_path m) (sort (targets rel id)))
            | on_path ↦ found id
            | finished ↦ done m
          ])
      cases unvisited e spec =
          leave-Visited m id
            (visit_all (visit rel fuel) (set_mark id on_path m) (sort (targets rel id))) e (spec e)
      cases on_path e spec = closes (leads id e)
      cases finished e spec = (Later-refl m, inv, e)

  start-Inv : Inv rel []
  start-Inv = record {
    closed = λ x y f e. absurd (unfold mark_of in cc);
    no_cycle = λ u v f e w. absurd (unfold mark_of in cc);
  }

  find_cycle_lem : AllVisited rel [] (sort (keys rel)) (find_cycle rel)
  unfolding find_cycle
  find_cycle_lem =
      visit_all_lem rel (visit rel (suc (length rel))) (suc (length rel))
        (visit_lem (suc (length rel))) (sort (keys rel)) [] start-Inv
        (λ to e x p. absurd (unfold mark_of in cc)) (omega (arith, white-keys rel))

member-keys :
    (rel : Relation) (u v : EvidenceId)
    → member v (targets rel u) ≡ true
    → member u (keys rel) ≡ true
unfolding member targets keys
member-keys [] u v e = cc
member-keys ((k, tos) ∷ rel) u v e = ground (arith, member-keys rel u v)

abbrev pub is_done : Outcome → Bool
is_done (done marks) = true
is_done _ = false

-- `findCycle` reports no cycle exactly when the relation has none: no edge closes a walk.
pub find_cycle_iff : (rel : Relation) → (is_done (find_cycle rel) ≡ true) ↔ Acyclic rel
find_cycle_iff rel = cases (find_cycle rel) (find_cycle_lem rel)
  where
    cases : (o : Outcome) → AllVisited rel [] (sort (keys rel)) o → (is_done o ≡ true) ↔ Acyclic rel
    cases (done n) (l, inv, all) = (
      λ e u v m w. inv.no_cycle u v (all u (member-sort u (keys rel) ∙ member-keys rel u v m)) m w,
      λ acyclic. refl,
    )
    cases (found c) cycle =
        (λ e. absurd (cc), λ acyclic. absurd (acyclic cycle.from c cycle.edge cycle.back))
    cases out_of_fuel none = absurd none

-- Every entry of the relation and everything that an edge leads to has been searched to the end.
pub record Finishes (rel : Relation) (marks : Marks) : Type 0 where
  pub entries :
      (u : EvidenceId) → any (λ entry. eqb entry.0 u) rel ≡ true → mark_of marks u ≡ finished
  pub ends : (u v : EvidenceId) → member v (targets rel u) ≡ true → mark_of marks v ≡ finished

entry-keys :
    (rel : Relation) (u : EvidenceId) → member u (keys rel) ≡ any (λ entry. eqb entry.0 u) rel
unfolding member keys
entry-keys [] u = refl
entry-keys ((k, tos) ∷ rel) u = ap (◌||◌ (eqb k u)) (entry-keys rel u)

-- `findCycle` always answers within the depth that it is given. Either it has finished every id
-- with an entry in the relation and every id that an edge leads to, and the relation has no cycle;
-- or it names an id through which the relation has a cycle.
pub find_cycle_total :
    (rel : Relation)
    → ((marks : Marks) × (find_cycle rel ≡ done marks) × Finishes rel marks × Acyclic rel)
      ⊎ ((id : EvidenceId) × (find_cycle rel ≡ found id) × Cycle rel id)
find_cycle_total rel = cases (find_cycle rel) refl (find_cycle_lem rel)
  where
    finished_keys :
        (n : Marks)
        → AllVisited rel [] (sort (keys rel)) (done n)
        → (u : EvidenceId) → member u (keys rel) ≡ true
        → mark_of n u ≡ finished
    finished_keys n (l, inv, all) u e = all u (member-sort u (keys rel) ∙ e)

    cases :
        (o : Outcome)
        → find_cycle rel ≡ o
        → AllVisited rel [] (sort (keys rel)) o
        → ((marks : Marks) × (find_cycle rel ≡ done marks) × Finishes rel marks × Acyclic rel)
          ⊎ ((id : EvidenceId) × (find_cycle rel ≡ found id) × Cycle rel id)
    cases (done n) e (l, inv, all) =
        let keyed = finished_keys n (l, inv, all) in
        inl (
          n,
          e,
          record {
            entries = λ u m. keyed u (entry-keys rel u ∙ m);
            ends = λ u v m. inv.closed u v (keyed u (member-keys rel u v m)) m;
          },
          (find_cycle_iff rel).0 (rw e refl),
        )
    cases (found c) e cycle = inr (c, e, cycle)
    cases out_of_fuel e none = absurd none
