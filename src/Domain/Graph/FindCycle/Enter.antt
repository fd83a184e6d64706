-- ===== src/Domain/Graph/FindCycle/Enter.antt =====
-- A call of `visit` on an id not visited before, when it enters and when it leaves.
use svcdoctor.Base.{true, ◌≡◌, inl, inr, arith, Bool-cases, subst}
use svcdoctor.Base.Bytes.{eqb, member, eqb_iff, eqb_refl}
use svcdoctor.Domain.Graph.Relation.{EvidenceId, Relation, targets}
use svcdoctor.Domain.Graph.Walk.{Walk, here, step}
use svcdoctor.Domain.Graph.FindCycle.{unvisited, on_path, finished, Marks, mark_of, set_mark}
use svcdoctor.Domain.Graph.FindCycle.Marks.{Later}
use svcdoctor.Domain.Graph.FindCycle.Visited.{Inv, Inv-Walk, PathLeads}

module _ (rel : Relation) where
  -- Entering an unvisited id.
  module _ (m : Marks) (id : EvidenceId) (fresh : mark_of m id ≡ unvisited) where
    pub enter-Inv : Inv rel m → Inv rel (set_mark id on_path m)
    enter-Inv inv = record {
      closed = λ x y f e. back y (inv.closed x y (old x f) e);
      no_cycle = λ u v f e w. inv.no_cycle u v (old u f) e w;
    }
      where
        old :
            (x : EvidenceId) → mark_of (set_mark id on_path m) x ≡ finished → mark_of m x ≡ finished
        old x f = unfold mark_of in ground arith

        back :
            (x : EvidenceId) → mark_of m x ≡ finished → mark_of (set_mark id on_path m) x ≡ finished
        back x f = unfold mark_of in ground (arith, eqb_iff id x)

    pub enter-leads :
        PathLeads rel m id
        → (to : EvidenceId) → member to (targets rel id) ≡ true
        → PathLeads rel (set_mark id on_path m) to
    enter-leads leads to e x p = elim (Bool-cases (eqb id x)) [
      | inl same ↦ record {
        last = id;
        walk = subst (λ y. Walk rel y id) ((eqb_iff id x).0 same) here;
        edge = e;
      }
      | inr other ↦
          let l = leads x (unfold mark_of in ground arith) in
          record { last = id; walk = step l.walk l.edge; edge = e }
    ]

    pub leave-Later :
        (n : Marks) → Later (set_mark id on_path m) n → Later m (set_mark id finished n)
    leave-Later n l = record {
      path_same = λ x. (λ e. down x e, λ e. up x e);
      finished_kept = λ x e. keep x e;
    }
      where
        down :
            (x : EvidenceId) → mark_of (set_mark id finished n) x ≡ on_path → mark_of m x ≡ on_path
        down x e = elim (Bool-cases (eqb id x)) [
          | inl same ↦ absurd (unfold mark_of in ground arith)
          | inr other ↦
              let p = (l.path_same x).0 (unfold mark_of in ground arith) in
              unfold mark_of in ground arith
        ]

        up : (x : EvidenceId) → mark_of m x ≡ on_path → mark_of (set_mark id finished n) x ≡ on_path
        up x e = elim (Bool-cases (eqb id x)) [
          | inl same ↦ absurd (ground (arith, eqb_iff id x))
          | inr other ↦
              let p = (l.path_same x).1 (unfold mark_of in ground arith) in
              unfold mark_of in ground arith
        ]

        keep :
            (x : EvidenceId)
            → mark_of m x ≡ finished
            → mark_of (set_mark id finished n) x ≡ finished
        keep x e = elim (Bool-cases (eqb id x)) [
          | inl same ↦ unfold mark_of in ground arith
          | inr other ↦
              let p = l.finished_kept x (unfold mark_of in ground arith) in
              unfold mark_of in ground arith
        ]

    pub leave-Inv :
        (n : Marks)
        → Later (set_mark id on_path m) n
        → Inv rel n
        → ((x : EvidenceId) → member x (targets rel id) ≡ true → mark_of n x ≡ finished)
        → Inv rel (set_mark id finished n)
    leave-Inv n l inv all = record {
      closed = λ x y f e. close x y f e;
      no_cycle = λ u v f e w. none u v f e w;
    }
      where
        still_on_path : mark_of n id ≡ on_path
        still_on_path = (l.path_same id).1 (unfold mark_of in ground (arith, eqb_refl id))

        succ_finished :
            (x y : EvidenceId)
            → mark_of (set_mark id finished n) x ≡ finished
            → member y (targets rel x) ≡ true
            → mark_of n y ≡ finished
        succ_finished x y f e = elim (Bool-cases (eqb id x)) [
          | inl same ↦ all y (rw ((eqb_iff id x).0 same) e)
          | inr other ↦ inv.closed x y (unfold mark_of in ground arith) e
        ]

        close :
            (x y : EvidenceId)
            → mark_of (set_mark id finished n) x ≡ finished
            → member y (targets rel x) ≡ true
            → mark_of (set_mark id finished n) y ≡ finished
        close x y f e = let p = succ_finished x y f e in unfold mark_of in ground arith

        none :
            (u v : EvidenceId)
            → mark_of (set_mark id finished n) u ≡ finished
            → member v (targets rel u) ≡ true
            → Walk rel v u
            → ⊥
        none u v f e w =
            let at_end : mark_of n u ≡ finished = Inv-Walk rel inv w (succ_finished u v f e) in
            inv.no_cycle u v at_end e w
