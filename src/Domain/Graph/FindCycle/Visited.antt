-- ===== src/Domain/Graph/FindCycle/Visited.antt =====
-- What a call of `visit` does, and the loop over successors.
use svcdoctor.Base.{ℕ, ◌<◌, true, List, [], ◌∷◌, ◌≡◌, inl, inr, arith, Bool-cases}
use svcdoctor.Base.Bytes.{eqb, member, eqb_iff, eqb_refl}
use svcdoctor.Domain.Graph.Relation.{EvidenceId, Relation, targets}
use svcdoctor.Domain.Graph.Walk.{Walk, here, step}
use svcdoctor.Domain.Graph.FindCycle.{
  on_path, finished, Marks, mark_of, Outcome, done, found, out_of_fuel, visit_all,
}
use svcdoctor.Domain.Graph.FindCycle.Marks.{white, Later, Later-refl, Later-trans, white-Later}

-- A cycle through `id`: an edge to it that a walk from it closes.
pub record Cycle (rel : Relation) (id : EvidenceId) : Type 0 where
  pub from : EvidenceId
  pub edge : member id (targets rel from) ≡ true
  pub back : Walk rel id from

-- A nonempty walk from `a` to `b`.
pub record Leads (rel : Relation) (a b : EvidenceId) : Type 0 where
  pub last : EvidenceId
  pub walk : Walk rel a last
  pub edge : member b (targets rel last) ≡ true

module _ (rel : Relation) where
  -- The finished ids are closed under successors, and lie on no cycle.
  pub record Inv (m : Marks) : Type 0 where
    pub closed :
        (x y : EvidenceId)
        → mark_of m x ≡ finished
        → member y (targets rel x) ≡ true
        → mark_of m y ≡ finished
    pub no_cycle :
        (u v : EvidenceId)
        → mark_of m u ≡ finished
        → member v (targets rel u) ≡ true
        → Walk rel v u
        → ⊥

  pub Inv-Walk :
      {m : Marks} {a b : EvidenceId}
      → Inv m
      → Walk rel a b
      → mark_of m a ≡ finished
      → mark_of m b ≡ finished
  Inv-Walk inv here f = f
  Inv-Walk inv (step {u} {v} w e) f = inv.closed u v (Inv-Walk inv w f) e

  abbrev pub PathLeads : Marks → EvidenceId → Type 0
  PathLeads m id = (x : EvidenceId) → mark_of m x ≡ on_path → Leads rel x id

  abbrev pub Visited : Marks → EvidenceId → Outcome → Type 0
  Visited m id (done n) = Later m n × Inv n × (mark_of n id ≡ finished)
  Visited m id (found c) = Cycle rel c
  Visited m id out_of_fuel = ⊥

  abbrev pub AllVisited : Marks → List EvidenceId → Outcome → Type 0
  AllVisited m ids (done n) =
      Later m n × Inv n × ((x : EvidenceId) → member x ids ≡ true → mark_of n x ≡ finished)
  AllVisited m ids (found c) = Cycle rel c
  AllVisited m ids out_of_fuel = ⊥

  -- What a call of `visit` with enough fuel does.
  abbrev pub Visits : (Marks → EvidenceId → Outcome) → ℕ → Type 0
  Visits g bound =
      (m : Marks) (id : EvidenceId)
      → Inv m
      → PathLeads m id
      → white rel m < bound
      → Visited m id (g m id)

  pub visit_all_lem :
      (g : Marks → EvidenceId → Outcome) (bound : ℕ)
      → Visits g bound
      → (ids : List EvidenceId) (m : Marks) → Inv m
      → ((to : EvidenceId) → member to ids ≡ true → PathLeads m to)
      → white rel m < bound
      → AllVisited m ids (visit_all g m ids)
  unfolding visit_all
  visit_all_lem g bound spec [] m inv leads h = (Later-refl m, inv, λ x e. unfold member in cc)
  visit_all_lem g bound spec (to ∷ ids) m inv leads h =
      next (g m to) (spec m to inv (leads to (unfold member in ground (arith, eqb_refl to))) h)
        (λ n. visit_all_lem g bound spec ids n)
    where
      rest : (n : Marks) → Later m n → (x : EvidenceId) → member x ids ≡ true → PathLeads n x
      rest n l x e y p = leads x (unfold member in ground arith) y ((l.path_same y).0 p)

      finished_all :
          (n o : Marks)
          → Later n o
          → mark_of n to ≡ finished
          → ((x : EvidenceId) → member x ids ≡ true → mark_of o x ≡ finished)
          → (x : EvidenceId) → member x (to ∷ ids) ≡ true
          → mark_of o x ≡ finished
      finished_all n o l f all x e = elim (Bool-cases (eqb to x)) [
        | inl same ↦ l.finished_kept x (rw (← (eqb_iff to x).0 same) f)
        | inr other ↦ all x (unfold member in ground arith)
      ]

      after :
          (n : Marks)
          → Later m n
          → mark_of n to ≡ finished
          → (o : Outcome) → AllVisited n ids o
          → AllVisited m (to ∷ ids) o
      after n l f (done o) (l', inv', all) = (Later-trans l l', inv', finished_all n o l' f all)
      after n l f (found c) cycle = cycle
      after n l f out_of_fuel none = none

      next :
          (o : Outcome)
          → Visited m to o
          → ((n : Marks)
              → Inv n
              → ((x : EvidenceId) → member x ids ≡ true → PathLeads n x)
              → white rel n < bound
              → AllVisited n ids (visit_all g n ids))
          → AllVisited m (to ∷ ids) (elim o [
            | done marks' ↦ visit_all g marks' ids
            | found id ↦ found id
            | out_of_fuel ↦ out_of_fuel
          ])
      next (done n) (l, inv', f) rec =
          after n l f (visit_all g n ids)
            (rec n inv' (rest n l) (omega (arith, white-Later rel m n l)))
      next (found c) cycle rec = cycle
      next out_of_fuel none rec = none
